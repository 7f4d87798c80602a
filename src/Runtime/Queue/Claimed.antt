-- ===== src/Runtime/Queue/Claimed.antt =====
-- What the queue claims and takes back.
use taka_ma.Common.{
  ◌≡◌, refl, sym, inl, inr, ℕ, ◌+◌, false, Option, none, some, [], ◌∷◌, Text, arith, ◌==◌, nat_eq,
  list_eq, if◌then◌else◌, dict_keys, count, count-append, text_eq_iff, Bool-cases, min, beq_refl,
}
use taka_ma.Runtime.Queue.{Files, Queue, claim_in, claim, reclaim_in, reclaim}

-- How often a name stands in the queue, in `done/` and in `failed/`.
abbrev pub holds : Text → Queue → ℕ
holds path q = count path (dict_keys q.files) + count path q.done + count path q.failed

-- How many readable records have the status.
abbrev pub count_status : Text → Files → ℕ
count_status status [] = 0
count_status status ((path, none) ∷ files) = count_status status files
count_status status ((path, some r) ∷ files) =
    (if r.status == status then 1 else 0) + count_status status files

claim_in-keys :
    (ready : Text) (reserve : Option Text) (files : Files) (path : Text)
    → let scan = claim_in ready reserve files in
      count path (dict_keys scan.kept) + count path scan.broken ≡ count path (dict_keys files)
claim_in-keys ready reserve [] path = refl
claim_in-keys ready reserve ((p, none) ∷ files) path =
    ground (arith, claim_in-keys ready reserve files path)
claim_in-keys ready reserve ((p, some r) ∷ files) path =
    ground (arith, claim_in-keys ready reserve files path)

abbrev pub taken {ℓ} : {A : Type ℓ} → Option A → ℕ
taken none = 0
taken (some x) = 1

claim_in-count :
    (ready reserve : Text) (files : Files)
    → (reserve == ready) ≡ false
    → let scan = claim_in ready (some reserve) files in
      (count_status ready files ≡ count_status ready scan.kept + taken scan.found)
      × (count_status reserve scan.kept ≡ count_status reserve files + taken scan.found)
      × (taken scan.found ≡ min 1 (count_status ready files))
claim_in-count ready reserve [] n = ground arith
claim_in-count ready reserve ((p, none) ∷ files) n = claim_in-count ready reserve files n
claim_in-count ready reserve ((p, some r) ∷ files) n = elim (Bool-cases (r.status == ready)) [
  | inl same ↦ ground (
    arith,
    claim_in-count ready reserve files n,
    beq_refl reserve,
    text_eq_iff r.status ready,
    text_eq_iff r.status reserve,
    text_eq_iff reserve ready,
  )
  | inr other ↦ ground (arith, claim_in-count ready reserve files n)
]

reclaim_in-count :
    (reserve ready : Text) (files : Files)
    → (reserve == ready) ≡ false
    → let (n, kept, broken) = reclaim_in (reserve ∷ []) ready files in
      (count_status ready kept ≡ count_status ready files + n)
      × (count_status reserve kept ≡ 0)
      × (count_status reserve files ≡ n)
reclaim_in-count reserve ready [] n = ground arith
reclaim_in-count reserve ready ((p, none) ∷ files) n = reclaim_in-count reserve ready files n
reclaim_in-count reserve ready ((p, some r) ∷ files) n = elim (Bool-cases (reserve == r.status)) [
  | inl same ↦ ground (
    arith,
    reclaim_in-count reserve ready files n,
    beq_refl ready,
    text_eq_iff reserve r.status,
    text_eq_iff r.status reserve,
    text_eq_iff r.status ready,
    text_eq_iff ready reserve,
    text_eq_iff reserve ready,
  )
  | inr other ↦ ground (
    arith,
    reclaim_in-count reserve ready files n,
    text_eq_iff reserve r.status,
    text_eq_iff r.status reserve,
  )
]

-- A claim that reserves with another status takes one ready record exactly where there is one: the
-- ready ones are one less and the reserved ones one more, so that no record is claimed twice; and
-- each name stands as often in the queue, in `done/` and in `failed/` together as before.
pub claim_lem :
    (ready reserve path : Text) (q : Queue)
    → (reserve == ready) ≡ false
    → let (found, after) = claim ready (some reserve) q in
      (taken found ≡ min 1 (count_status ready q.files))
      × (count_status ready q.files ≡ count_status ready after.files + taken found)
      × (count_status reserve after.files ≡ count_status reserve q.files + taken found)
      × (holds path after ≡ holds path q)
unfolding claim
claim_lem ready reserve path q n =
    let scan = claim_in ready (some reserve) q.files in
    let (a, b, c) = claim_in-count ready reserve q.files n in
    (
      c,
      a,
      b,
      omega (
        arith,
        claim_in-keys ready (some reserve) q.files path,
        count-append path q.failed scan.broken,
      ),
    )

-- A start after a crash takes every reservation back: all records that were ready before the claim,
-- and those that were reserved before it, are ready, none is reserved, and the answer is how many
-- reservations there were.
pub reclaim-claim :
    (ready reserve : Text) (q : Queue)
    → (reserve == ready) ≡ false
    → let after = (claim ready (some reserve) q).1 in
      let (n, back) = reclaim (reserve ∷ []) ready after in
      (count_status ready back.files ≡ count_status ready q.files + count_status reserve q.files)
      × (count_status reserve back.files ≡ 0)
      × (n ≡ count_status reserve after.files)
unfolding claim reclaim
reclaim-claim ready reserve q n =
    let after = (claim_in ready (some reserve) q.files).kept in
    let (a, b, c) = claim_in-count ready reserve q.files n in
    let (d, e, f) = reclaim_in-count reserve ready after n in
    (omega (arith, a, b, c, d, f), e, sym f)
