-- ===== src/Approval/Tier3/Waiting.antt =====
-- The polling of an approval comes to its end.
use taka_ma.Common.{
  ◌≡◌, refl, sym, ◌∙◌, ◌⊎◌, inl, inr, ℕ, zero, suc, ◌+◌, ◌≤◌, ◌<◌, Bool, true, false, ◌&&◌, Option,
  none, some, Text, arith, beq_refl, Option-cases, nat_eq, list_eq,
}
use taka_ma.Approval.Store.{
  Status, approved, is_pending, is_approved, Store, read, Record, Claim, hold, there, claim_hold,
  claim_read,
}
use taka_ma.Approval.Store.Once.{run_moves, read-write}
use taka_ma.Approval.Tier3.{World, read_status, poll_from, poll_decision, claimed}

module _ (w : World) (id : Text) where
  poll_from-enough :
      (fuel more n elapsed budget : ℕ) (s : Store)
      → 0 < w.poll_interval
      → budget ≤ fuel + elapsed
      → budget ≤ more + elapsed
      → poll_from w id fuel n elapsed budget s ≡ poll_from w id more n elapsed budget s
  poll_from-enough zero zero n elapsed budget s i h k = refl
  poll_from-enough zero (suc more) n elapsed budget s i h k = ground arith
  poll_from-enough (suc fuel) zero n elapsed budget s i h k = ground arith
  poll_from-enough (suc fuel) (suc more) n elapsed budget s i h k = ground (
    arith,
    poll_from-enough fuel more (suc n) (elapsed + w.poll_interval) budget
        (run_moves id (w.moves n) s).1 i (omega arith) (omega arith),
  )

  poll_from-decided :
      (fuel n elapsed budget : ℕ) (s : Store) (status : Status)
      → (poll_from w id fuel n elapsed budget s).0 ≡ some status
      → read_status id (poll_from w id fuel n elapsed budget s).1 ≡ some status
  poll_from-decided zero n elapsed budget s status h = absurd (ground arith)
  poll_from-decided (suc fuel) n elapsed budget s status h = ground (
    arith,
    poll_from-decided fuel (suc n) (elapsed + w.poll_interval) budget (run_moves id (w.moves n) s).1
        status,
  )

-- With a positive interval the loop ends by its own condition: any amount of fuel that covers the
-- budget gives what `poll_decision` gives.
pub poll_decision-enough :
    (w : World) (id : Text) (fuel budget : ℕ) (s : Store)
    → 0 < w.poll_interval
    → budget ≤ fuel
    → poll_from w id fuel 0 0 budget s ≡ poll_decision w id budget s
unfolding poll_decision
poll_decision-enough w id fuel budget s i h =
    poll_from-enough w id fuel budget 0 0 budget s i (omega arith) (omega arith)

-- What the waiting ends with: a status is the one of the record, and a hold leaves the record
-- pending with its mark.
abbrev pub fits : Claim → Option Record → Bool
fits (there approved) (some r) = is_approved r.status
fits (there approved) none = false
fits hold (some r) = is_pending r.status && r.held_at
fits hold none = false
fits _ _ = true

claim_read-fits :
    (id : Text) (o : Option Record) (s : Store)
    → read s id ≡ o
    → let result = claim_read id o s in fits result.0 (read result.1 id) ≡ true
claim_read-fits id none s e = refl
claim_read-fits id (some r) s e =
    ground (arith, read-write id id (record r { held_at = true }) s, beq_refl id)

claimed_of-fits :
    (w : World) (id : Text) (o : Option Status) (s : Store)
    → (o ≡ none ⊎ read_status id s ≡ o)
    → let result = claimed w id (o, s) in fits result.0 (read result.1 id) ≡ true
unfolding claim_hold
claimed_of-fits w id none s h =
    let last = (run_moves id w.last_moves s).1 in claim_read-fits id (read last id) last refl
claimed_of-fits w id (some status) s h = ground arith

pub claimed-fits :
    (w : World) (id : Text) (budget : ℕ) (s : Store)
    → let result = claimed w id (poll_decision w id budget s) in
      fits result.0 (read result.1 id) ≡ true
unfolding poll_decision
claimed-fits w id budget s =
    let result = poll_from w id budget 0 0 budget s in
    claimed_of-fits w id result.0 result.1 (elim (Option-cases result.0) [
      | inl undecided ↦ inl undecided
      | inr (status, e) ↦ inr (poll_from-decided w id budget 0 0 budget s status e ∙ sym e)
    ])
