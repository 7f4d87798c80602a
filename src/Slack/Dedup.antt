-- ===== src/Slack/Dedup.antt =====
-- Redelivered events, slack_bot/services/event_dedup.py. Times are what the monotonic clock gives.
use taka_ma.Common.{
  ◌≡◌, ◌≢◌, refl, ℕ, Bool, true, false, ◌+◌, ◌≤◌, List, [], ◌∷◌, Text, arith, Dict, dict_set,
  dict_has, ◌==◌, nat_eq, list_eq, if◌then◌else◌, leb, keep, beq_refl, all,
}

abbrev pub ttl_seconds : ℕ
ttl_seconds = 600

-- The entries that are no older than the time to live.
abbrev pub fresh : ℕ → Dict Text ℕ → Dict Text ℕ
fresh now seen = keep (λ e. leb now (e.1 + ttl_seconds)) seen

abbrev seen_fresh : Text → ℕ → Dict Text ℕ → Bool × Dict Text ℕ
seen_fresh id now seen = if dict_has seen id then (true, seen) else (false, dict_set seen id now)

unfoldable pub seen_before : Text → ℕ → Dict Text ℕ → Bool × Dict Text ℕ
seen_before [] now seen = (false, seen)
seen_before (c ∷ cs) now seen = seen_fresh (c ∷ cs) now (fresh now seen)

abbrev pub deliver : List (Text × ℕ) → Dict Text ℕ → Dict Text ℕ
deliver [] seen = seen
deliver ((id, now) ∷ rest) seen = deliver rest (seen_before id now seen).1

-- The event is known, and stays so until the given time.
abbrev known : Text → ℕ → Dict Text ℕ → Bool
known id until [] = false
known id until ((j, t) ∷ seen) =
    if j == id then leb until (t + ttl_seconds) else known id until seen

fresh-known :
    (id : Text) (until now : ℕ) (seen : Dict Text ℕ)
    → now ≤ until
    → known id until seen ≡ true
    → known id until (fresh now seen) ≡ true
fresh-known id until now [] h k = absurd (ground arith)
fresh-known id until now ((j, t) ∷ seen) h k = ground (arith, fresh-known id until now seen h)

known-dict_has :
    (id : Text) (until : ℕ) (seen : Dict Text ℕ)
    → known id until seen ≡ true
    → dict_has seen id ≡ true
known-dict_has id until [] k = absurd (ground arith)
known-dict_has id until ((j, t) ∷ seen) k = ground (arith, known-dict_has id until seen)

dict_set-known :
    (id other : Text) (until now : ℕ) (seen : Dict Text ℕ)
    → dict_has seen other ≡ false
    → known id until seen ≡ true
    → known id until (dict_set seen other now) ≡ true
dict_set-known id other until now [] n k = absurd (ground arith)
dict_set-known id other until now ((j, t) ∷ seen) n k =
    ground (arith, dict_set-known id other until now seen)

dict_set-new :
    (id : Text) (now : ℕ) (seen : Dict Text ℕ)
    → dict_has seen id ≡ false
    → known id (now + ttl_seconds) (dict_set seen id now) ≡ true
dict_set-new id now [] n = ground (arith, beq_refl id)
dict_set-new id now ((j, t) ∷ seen) n = ground (arith, dict_set-new id now seen)

seen_before-known :
    (id other : Text) (until now : ℕ) (seen : Dict Text ℕ)
    → now ≤ until
    → known id until seen ≡ true
    → known id until (seen_before other now seen).1 ≡ true
unfolding seen_before
seen_before-known id [] until now seen h k = k
seen_before-known id (c ∷ cs) until now seen h k = ground (
  arith,
  fresh-known id until now seen h k,
  dict_set-known id (c ∷ cs) until now (fresh now seen),
)

deliver-known :
    (id : Text) (until : ℕ) (events : List (Text × ℕ)) (seen : Dict Text ℕ)
    → all (λ e. leb e.1 until) events ≡ true
    → known id until seen ≡ true
    → known id until (deliver events seen) ≡ true
deliver-known id until [] seen h k = k
deliver-known id until ((other, now) ∷ rest) seen h k =
    deliver-known id until rest (seen_before other now seen).1 (ground arith)
      (seen_before-known id other until now seen (ground arith) k)

known-again :
    (id : Text) (now : ℕ) (seen : Dict Text ℕ)
    → (seen_before id now seen).0 ≡ false
    → id ≢ []
    → known id (now + ttl_seconds) (seen_before id now seen).1 ≡ true
unfolding seen_before
known-again [] now seen f n = absurd (n refl)
known-again (c ∷ cs) now seen f n = ground (arith, dict_set-new (c ∷ cs) now (fresh now seen))

recognized :
    (id : Text) (until now : ℕ) (seen : Dict Text ℕ)
    → id ≢ []
    → now ≤ until
    → known id until seen ≡ true
    → (seen_before id now seen).0 ≡ true
unfolding seen_before
recognized [] until now seen n h k = absurd (n refl)
recognized (c ∷ cs) until now seen n h k = ground (
  arith,
  known-dict_has (c ∷ cs) until (fresh now seen) (fresh-known (c ∷ cs) until now seen h k),
)

-- An event with an id (that is not empty) that was processed as new is not processed again for the
-- time to live: whatever is delivered in between within it, a redelivery within it is recognized.
pub seen_before-again :
    (id : Text) (first again : ℕ) (events : List (Text × ℕ)) (seen : Dict Text ℕ)
    → id ≢ []
    → (seen_before id first seen).0 ≡ false
    → all (λ e. leb e.1 (first + ttl_seconds)) events ≡ true
    → again ≤ first + ttl_seconds
    → (seen_before id again (deliver events (seen_before id first seen).1)).0 ≡ true
seen_before-again id first again events seen n f h a =
    recognized id (first + ttl_seconds) again (deliver events (seen_before id first seen).1) n a (
      deliver-known id (first + ttl_seconds) events (seen_before id first seen).1 h
        (known-again id first seen f n))
