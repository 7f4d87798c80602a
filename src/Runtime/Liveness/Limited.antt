-- ===== src/Runtime/Liveness/Limited.antt =====
-- The restarts are limited within any window.
use taka_ma.Common.{
  ◌≡◌, refl, ℕ, ◌+◌, ◌≤◌, Bool, true, false, not, ◌&&◌, ◌||◌, List, [], ◌∷◌, ◌++◌, if◌then◌else◌,
  leb, keep, length, all, arith, nat_eq,
}
use taka_ma.Runtime.Liveness.{
  window_sec, recent, Event, exits, fails_closed, Round, Watchdog, watch,
}

-- Rounds of the watchdog, with what each does.
abbrev pub watch_all : ℕ → List Round → Watchdog → List (ℕ × Event) × Watchdog
watch_all limit [] w = ([], w)
watch_all limit (r ∷ rounds) w =
    let first = watch limit r w in
    let rest = watch_all limit rounds first.1 in ((r.now, first.0) ∷ rest.0, rest.1)

-- Whether the process ends, with an exception or without.
abbrev pub is_exit : Event → Bool
is_exit (exits first) = true
is_exit fails_closed = true
is_exit _ = false

-- How many processes exited at `from` or later.
abbrev pub exits_since : ℕ → List (ℕ × Event) → ℕ
exits_since from [] = 0
exits_since from ((now, e) ∷ events) =
    (if is_exit e && leb from now then 1 else 0) + exits_since from events

-- How many rounds at `from` or later meet with an exception, or with a file that cannot be written.
abbrev pub faults_since : ℕ → List Round → ℕ
faults_since from [] = 0
faults_since from (r ∷ rounds) =
    (if (r.raises || not r.writable) && leb from r.now then 1 else 0) + faults_since from rounds

-- How many of the stamps are `from` or later.
abbrev pub stamps_since : ℕ → List ℕ → ℕ
stamps_since from stamps = length (keep (λ t. leb from t) stamps)

module _ (from now : ℕ) (near : now ≤ from + window_sec) where
  stamps_since-recent :
      (stamps : List ℕ) → stamps_since from (recent now stamps) ≡ stamps_since from stamps
  stamps_since-recent [] = refl
  stamps_since-recent (t ∷ ts) = ground (arith, stamps_since-recent ts)

  stamps_since-le : (stamps : List ℕ) → stamps_since from stamps ≤ length (recent now stamps)
  stamps_since-le [] = omega arith
  stamps_since-le (t ∷ ts) = ground (arith, stamps_since-le ts)

  stamps_since-append :
      (stamps : List ℕ)
      → stamps_since from (stamps ++ (now ∷ []))
        ≡ stamps_since from stamps + (if leb from now then 1 else 0)
  stamps_since-append [] = ground arith
  stamps_since-append (t ∷ ts) = ground (arith, stamps_since-append ts)

-- The exits that are not faults are recorded, and keep to the limit.
watch-since :
    (from limit : ℕ) (r : Round) (w : Watchdog)
    → r.now ≤ from + window_sec
    → stamps_since from w.stamps ≤ limit
    → let result = watch limit r w in
      (stamps_since from w.stamps + (if is_exit result.0 && leb from r.now then 1 else 0)
        ≤ stamps_since from result.1.stamps
          + (if (r.raises || not r.writable) && leb from r.now then 1 else 0))
      × (stamps_since from result.1.stamps ≤ limit)
unfolding watch
watch-since from limit r w near h = ground (
  arith,
  stamps_since-le from r.now near w.stamps,
  stamps_since-recent from r.now near w.stamps,
  stamps_since-append from r.now near (recent r.now w.stamps),
)

-- Where the stamps from a moment on are no more than the limit at first: through all rounds until one
-- window later, whichever find the heartbeat stale, these stamps and the exits from that moment on
-- are together no more than the limit and the rounds that meet with an exception or cannot write
-- their stamp. Without such rounds the limit holds within every window, not only up to a clock hour.
pub watch_all-limited :
    (from limit : ℕ) (rounds : List Round) (w : Watchdog)
    → all (λ r. leb r.now (from + window_sec)) rounds ≡ true
    → stamps_since from w.stamps ≤ limit
    → stamps_since from w.stamps + exits_since from (watch_all limit rounds w).0
      ≤ limit + faults_since from rounds
watch_all-limited from limit [] w near h = omega arith
watch_all-limited from limit (r ∷ rounds) w near h =
    let (grows, bounded) = watch-since from limit r w (ground arith) h in
    let rest = watch_all-limited from limit rounds (watch limit r w).1 (ground arith) bounded in
    omega (arith, grows, rest)
