-- ===== src/Approval/Decide/Audited.antt =====
-- Each decision is in the audit, and the terminal gets what the audit says.
use taka_ma.Common.{
  ◌≡◌, refl, inl, inr, ℕ, Option, none, some, List, [], ◌∷◌, ◌++◌, Text, arith, Bool-cases, ◌==◌,
  nat_eq,
}
use taka_ma.Approval.Types.{PendingApproval, Decision}
use taka_ma.Approval.Safety.{match_rule}
use taka_ma.Approval.Store.{Status, approved, rejected, pending, timeout, error, find_carryover}
use taka_ma.Approval.Tier2.{review}
use taka_ma.Approval.Decide.{
  Pipeline, Request, Collaborators, State, Verdict, was_approved, was_held, was_denied, command,
  entry_of, decide, after_deny, undenied, after_carryover, after_escalate, by_tier, by_review,
  is_undeterminable, tier_of, Key, approve_key, deny_key, close_session, keys_of, process,
}

-- The audit grew by the entry of this decision and by nothing else.
abbrev pub IsAudited :
    Pipeline → Collaborators → Request → PendingApproval → State → Decision × State → Type 0
IsAudited pipeline c req p s result =
    (tier : ℕ) × (result.1.audit ≡ s.audit ++ (entry_of pipeline c req p tier result.0 ∷ []))

module _ (pipeline : Pipeline) (c : Collaborators) (req : Request) (p : PendingApproval)
    (s : State) where
  by_review-IsAudited :
      (risk : Text) (d : Decision)
      → IsAudited pipeline c req p s (by_review pipeline c req p risk d s)
  by_review-IsAudited risk d = elim (Bool-cases d.escalate) [
    | inl up ↦ rw up (3, refl)
    | inr stays ↦ rw stays (2, refl)
  ]

  by_tier-IsAudited :
      (tier : ℕ) (risk : Text) → IsAudited pipeline c req p s (by_tier pipeline c req p tier risk s)
  by_tier-IsAudited tier risk = elim (Bool-cases (tier == 1)) [
    | inl one ↦ rw one (1, refl)
    | inr more ↦ elim (Bool-cases (tier == 2)) [
      | inl two ↦ rw (more, two) (by_review-IsAudited risk (review c.parse c.seconds (c.runs p)))
      | inr three ↦ rw (more, three) (3, refl)
    ]
  ]

  after_escalate-IsAudited :
      (o : Option Text) → IsAudited pipeline c req p s (after_escalate pipeline c req p o s)
  after_escalate-IsAudited (some rule) = (3, refl)
  after_escalate-IsAudited none = elim (Bool-cases pipeline.degraded) [
    | inl lost ↦ rw lost (3, refl)
    | inr loaded ↦
        rw loaded (by_tier-IsAudited (tier_of p.source (c.classify p).tier) (c.classify p).reason)
  ]

  after_carryover-IsAudited :
      (o : Option (Status × Text))
      → IsAudited pipeline c req p s (after_carryover pipeline c req p o s)
  after_carryover-IsAudited none = after_escalate-IsAudited _
  after_carryover-IsAudited (some (approved, from)) = (3, refl)
  after_carryover-IsAudited (some (rejected, from)) = (3, refl)
  after_carryover-IsAudited (some (pending, from)) = after_escalate-IsAudited _
  after_carryover-IsAudited (some (timeout, from)) = after_escalate-IsAudited _
  after_carryover-IsAudited (some (error, from)) = after_escalate-IsAudited _

  undenied-IsAudited : IsAudited pipeline c req p s (undenied pipeline c req p s)
  undenied-IsAudited =
      elim (Bool-cases (is_undeterminable pipeline c req p p.source (command pipeline c req p))) [
        | inl unread ↦ rw unread (3, refl)
        | inr readable ↦
            rw readable (after_carryover-IsAudited (find_carryover req.task_id p s.store))
      ]

  after_deny-IsAudited :
      (o : Option Text) → IsAudited pipeline c req p s (after_deny pipeline c req p o s)
  after_deny-IsAudited (some rule) = (0, refl)
  after_deny-IsAudited none = undenied-IsAudited

-- What an entry of the audit means for the terminal.
abbrev pub keys_for : Verdict → List Key
keys_for was_approved = approve_key ∷ []
keys_for was_held = deny_key ∷ close_session ∷ []
keys_for was_denied = deny_key ∷ []

-- Each request adds one entry to the audit, on every way through the pipeline; the entry has the
-- handler, the reason and the verdict of the decision that is returned, and the terminal gets the
-- keys that go with this verdict: approval is sent where the audit says approved and only there, and
-- the session is closed exactly on a hold.
pub process-audit :
    (pipeline : Pipeline) (c : Collaborators) (req : Request) (p : PendingApproval) (s : State)
    → let ((d, after), keys) = process pipeline c req p s in
      (tier : ℕ) × (after.audit ≡ s.audit ++ (entry_of pipeline c req p tier d ∷ []))
      × (keys ≡ keys_for (entry_of pipeline c req p tier d).decision)
unfolding process decide keys_of
process-audit pipeline c req p s =
    let (tier, e) =
      after_deny-IsAudited pipeline c req p s
        (match_rule c.chars (command pipeline c req p) pipeline.always_deny) in
    (tier, e, ground arith)
