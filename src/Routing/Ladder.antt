-- ===== src/Routing/Ladder.antt =====
-- The ladder of escalation, `_escalation_chain` of orchestrator/__init__.py.
use taka_ma.Common.{
  ℕ, zero, suc, ◌+◌, ◌≤◌, ◌≡◌, inl, inr, refl, sym, ap, ◌∙◌, true, false, not, ◌&&◌, Option, none,
  some, List, [], ◌∷◌, Text, ◌==◌, list_eq, nat_eq, if◌then◌else◌, contains, take, length,
  IsDistinct, arith, Bool-cases, beq_refl, text_eq_iff, beq_of_absent, head?,
}
use taka_ma.Routing.{Routing, from_first, chain_from, dedup_from, limited, escalation_chain}

contains-dedup_from :
    (seen ms : List Text) (x : Text)
    → contains (dedup_from seen ms) x ≡ (contains ms x && not (contains seen x))
contains-dedup_from seen [] x = refl
contains-dedup_from seen (m ∷ ms) x = elim (Bool-cases (contains seen m)) [
  | inl old ↦ elim (Bool-cases (m == x)) [
    | inl same ↦
        ground (arith, contains-dedup_from seen ms x, ap (contains seen) ((text_eq_iff m x).0 same))
    | inr other ↦ ground (arith, contains-dedup_from seen ms x)
  ]
  | inr new ↦ elim (Bool-cases (m == x)) [
    | inl same ↦
        ground (
          arith,
          contains-dedup_from (m ∷ seen) ms x,
          ap (contains seen) ((text_eq_iff m x).0 same),
        )
    | inr other ↦ ground (arith, contains-dedup_from (m ∷ seen) ms x)
  ]
]

pub dedup_from-IsDistinct : (seen ms : List Text) → IsDistinct (dedup_from seen ms)
dedup_from-IsDistinct seen [] = tt
dedup_from-IsDistinct seen (m ∷ ms) = elim (Bool-cases (contains seen m)) [
  | inl old ↦ rw old (dedup_from-IsDistinct seen ms)
  | inr new ↦ rw new (
    ground (arith, contains-dedup_from (m ∷ seen) ms m, beq_refl m),
    dedup_from-IsDistinct (m ∷ seen) ms,
  )
]

contains-take :
    (n : ℕ) (ms : List Text) (x : Text) → contains (take n ms) x ≡ true → contains ms x ≡ true
contains-take zero ms x h = absurd (ground arith)
contains-take (suc n) [] x h = h
contains-take (suc n) (m ∷ ms) x h = ground (arith, contains-take n ms x)

take-IsDistinct : (n : ℕ) (ms : List Text) → IsDistinct ms → IsDistinct (take n ms)
take-IsDistinct zero ms h = tt
take-IsDistinct (suc n) [] h = tt
take-IsDistinct (suc n) (m ∷ ms) h = (
  elim (Bool-cases (contains (take n ms) m)) [
    | inl inside ↦ absurd (ground (arith, contains-take n ms m inside, h.0))
    | inr outside ↦ outside
  ],
  take-IsDistinct n ms h.1,
)

length-take-le : (n : ℕ) (ms : List Text) → length (take n ms) ≤ n
length-take-le zero ms = omega arith
length-take-le (suc n) [] = omega arith
length-take-le (suc n) (m ∷ ms) = omega (arith, length-take-le n ms)

-- What the limit on the steps means for the number of candidates.
abbrev pub FitsLimit : Option ℕ → List Text → Type 0
FitsLimit none ms = Unit
FitsLimit (some n) ms = length ms ≤ n + 1

limited-IsDistinct : (o : Option ℕ) (ms : List Text) → IsDistinct ms → IsDistinct (limited o ms)
limited-IsDistinct none ms h = h
limited-IsDistinct (some n) ms h = take-IsDistinct (suc n) ms h

limited-FitsLimit : (o : Option ℕ) (ms : List Text) → FitsLimit o (limited o ms)
limited-FitsLimit none ms = tt
limited-FitsLimit (some n) ms = omega (arith, length-take-le (suc n) ms)

-- Whatever the ladder, no model is tried twice, and with a limit of n escalations at most n + 1
-- models are tried.
pub escalation_chain-IsDistinct :
    (r : Routing) (primary : Option Text) (max_steps : Option ℕ)
    → IsDistinct (escalation_chain r primary max_steps)
      × FitsLimit max_steps (escalation_chain r primary max_steps)
unfolding escalation_chain
escalation_chain-IsDistinct r primary max_steps =
    let whole = dedup_from [] (chain_from primary r.ladder) in
    (
      limited-IsDistinct max_steps whole (dedup_from-IsDistinct [] (chain_from primary r.ladder)),
      limited-FitsLimit max_steps whole,
    )

head-from_first :
    (m : Text) (ms : List Text) → contains ms m ≡ true → head? (from_first m ms) ≡ some m
head-from_first m [] h = absurd (ground arith)
head-from_first m (x ∷ xs) h = elim (Bool-cases (x == m)) [
  | inl same ↦ rw same (ap some ((text_eq_iff x m).0 same))
  | inr other ↦ rw other (head-from_first m xs (ground arith))
]

head-dedup_from : (ms : List Text) → head? (dedup_from [] ms) ≡ head? ms
head-dedup_from [] = refl
head-dedup_from (m ∷ ms) = refl

head-limited : (o : Option ℕ) (ms : List Text) → head? (limited o ms) ≡ head? ms
head-limited none ms = refl
head-limited (some n) [] = refl
head-limited (some n) (m ∷ ms) = refl

head-chain_from : (m : Text) (ladder : List Text) → head? (chain_from (some m) ladder) ≡ some m
head-chain_from m ladder = elim (Bool-cases (contains ladder m)) [
  | inl inside ↦ rw inside (head-from_first m ladder inside)
  | inr outside ↦ rw outside
]

-- The first candidate is the primary model, whether or not it stands on the ladder.
pub head-escalation_chain :
    (r : Routing) (m : Text) (max_steps : Option ℕ)
    → head? (escalation_chain r (some m) max_steps) ≡ some m
unfolding escalation_chain
head-escalation_chain r m max_steps =
    head-limited max_steps (dedup_from [] (chain_from (some m) r.ladder))
    ∙ head-dedup_from (chain_from (some m) r.ladder)
    ∙ head-chain_from m r.ladder

-- The rungs above: what stands behind the first `m` on the ladder.
abbrev pub above : Text → List Text → List Text
above m [] = []
above m (x ∷ xs) = let rest = above m xs in if x == m then xs else rest

from_first-above :
    (m : Text) (ms : List Text) → contains ms m ≡ true → from_first m ms ≡ m ∷ above m ms
from_first-above m [] h = absurd (ground arith)
from_first-above m (x ∷ xs) h = elim (Bool-cases (x == m)) [
  | inl same ↦ rw same (ap (λ y. y ∷ xs) ((text_eq_iff x m).0 same))
  | inr other ↦ rw other (from_first-above m xs (ground arith))
]

dedup_from_distinct :
    (seen ms : List Text)
    → IsDistinct ms
    → ((x : Text) → contains ms x ≡ true → contains seen x ≡ false)
    → dedup_from seen ms ≡ ms
dedup_from_distinct seen [] distinct apart = refl
dedup_from_distinct seen (m ∷ ms) distinct apart = ground (
  arith,
  apart m,
  beq_refl m,
  dedup_from_distinct (m ∷ seen) ms distinct.1
      (λ x h. ground (arith, apart x, beq_of_absent ms m x distinct.0 h)),
)

above-IsDistinct : (m : Text) (ms : List Text) → IsDistinct ms → IsDistinct (above m ms)
above-IsDistinct m [] h = tt
above-IsDistinct m (x ∷ xs) h = elim (Bool-cases (x == m)) [
  | inl same ↦ rw same h.1
  | inr other ↦ rw other (above-IsDistinct m xs h.1)
]

above-absent : (m : Text) (ms : List Text) → IsDistinct ms → contains (above m ms) m ≡ false
above-absent m [] h = refl
above-absent m (x ∷ xs) h = elim (Bool-cases (x == m)) [
  | inl same ↦ rw same (ap (contains xs) (sym ((text_eq_iff x m).0 same)) ∙ h.0)
  | inr other ↦ rw other (above-absent m xs h.1)
]

-- From a rung of a ladder without repetitions, and with no limit, the candidates are that model and
-- the rungs above it in their order: an escalation never goes down.
pub escalation_chain_rung :
    (r : Routing) (m : Text)
    → IsDistinct r.ladder
    → contains r.ladder m ≡ true
    → escalation_chain r (some m) none ≡ m ∷ above m r.ladder
unfolding escalation_chain
escalation_chain_rung r m distinct inside =
    rw (inside, from_first-above m r.ladder inside)
      (dedup_from_distinct [] (m ∷ above m r.ladder)
        (above-absent m r.ladder distinct, above-IsDistinct m r.ladder distinct) (λ x h. refl))
