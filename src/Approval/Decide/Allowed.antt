-- ===== src/Approval/Decide/Allowed.antt =====
-- The ways in which an operation is allowed.
use taka_ma.Common.{
  ◌≡◌, refl, ◌⊎◌, inl, inr, ℕ, true, false, Option, none, some, Text, codes, arith, Bool-cases,
  ◌==◌, nat_eq,
}
use taka_ma.Approval.Types.{PendingApproval, Decision, Source, headless, interactive}
use taka_ma.Approval.Safety.{match_rule}
use taka_ma.Approval.Store.{Status, approved, rejected, pending, timeout, error, find_carryover}
use taka_ma.Approval.Tier2.{review}
use taka_ma.Approval.Decide.{
  Pipeline, Request, Collaborators, State, command, human, decide, after_deny, undenied,
  after_carryover, after_escalate, by_tier, by_review, classified, or_text, tier_of,
  is_undeterminable,
}

-- A human allowed it now, or on the same operation of the same task before; or no rule asks for a
-- human, the configuration was read, and either the classifier gives tier 1 to a request that was
-- not read off a screen, or its tier is 2 (1 where it was read off a screen) and the review allows.
pub data IsAllowed (pipeline : Pipeline) (c : Collaborators) (req : Request) (p : PendingApproval)
    (s : State) : Type 0 where
  carried :
      (from : Text)
      → find_carryover req.task_id p s.store ≡ some (approved, from)
      → IsAllowed pipeline c req p s
  by_button :
      (risk : Text)
      → (human pipeline c req p risk s).decision.allow ≡ true
      → IsAllowed pipeline c req p s
  by_model :
      match_rule c.chars (command pipeline c req p) pipeline.always_escalate ≡ none
      → pipeline.degraded ≡ false
      → ((p.source ≡ headless) × ((c.classify p).tier ≡ some 1))
        ⊎ ((tier_of p.source (c.classify p).tier ≡ 2)
            × ((review c.parse c.seconds (c.runs p)).allow ≡ true))
      → IsAllowed pipeline c req p s

tier_of-one :
    (source : Source) (raw : Option ℕ)
    → tier_of source raw ≡ 1
    → (source ≡ headless) × (raw ≡ some 1)
tier_of-one headless none h = absurd (ground arith)
tier_of-one headless (some n) h = ground arith
tier_of-one interactive none h = absurd (ground arith)
tier_of-one interactive (some n) h = absurd (ground arith)

module _ (pipeline : Pipeline) (c : Collaborators) (req : Request) (p : PendingApproval)
    (s : State) where
  by_review-cases :
      (risk : Text) (d : Decision)
      → (by_review pipeline c req p risk d s).0.allow ≡ true
      → (d.allow ≡ true)
        ⊎ ((reason : Text) × ((human pipeline c req p reason s).decision.allow ≡ true))
  by_review-cases risk d h = elim (Bool-cases d.escalate) [
    | inl up ↦ inr (or_text d.reason risk, ground arith)
    | inr stays ↦ inl (ground arith)
  ]

  by_tier-cases :
      (tier : ℕ) (risk : Text)
      → (by_tier pipeline c req p tier risk s).0.allow ≡ true
      → (tier ≡ 1)
        ⊎ ((tier ≡ 2) × ((review c.parse c.seconds (c.runs p)).allow ≡ true))
        ⊎ ((reason : Text) × ((human pipeline c req p reason s).decision.allow ≡ true))
  by_tier-cases tier risk h = elim (Bool-cases (tier == 1)) [
    | inl one ↦ inl (ground arith)
    | inr more ↦ elim (Bool-cases (tier == 2)) [
      | inl two ↦ elim (by_review-cases risk (review c.parse c.seconds (c.runs p)) (ground arith)) [
        | inl allowed ↦ inr (inl (ground arith, allowed))
        | inr asked ↦ inr (inr asked)
      ]
      | inr three ↦ inr (inr (risk, ground arith))
    ]
  ]

  classified-IsAllowed :
      match_rule c.chars (command pipeline c req p) pipeline.always_escalate ≡ none
      → pipeline.degraded ≡ false
      → (classified pipeline c req p s).0.allow ≡ true
      → IsAllowed pipeline c req p s
  classified-IsAllowed free loaded h =
      elim (by_tier-cases (tier_of p.source (c.classify p).tier) (c.classify p).reason h) [
        | inl one ↦ by_model free loaded (inl (tier_of-one p.source (c.classify p).tier one))
        | inr (inl two) ↦ by_model free loaded (inr two)
        | inr (inr (reason, e)) ↦ by_button reason e
      ]

  after_escalate-IsAllowed :
      (o : Option Text)
      → match_rule c.chars (command pipeline c req p) pipeline.always_escalate ≡ o
      → (after_escalate pipeline c req p o s).0.allow ≡ true
      → IsAllowed pipeline c req p s
  after_escalate-IsAllowed (some rule) e h = by_button _ h
  after_escalate-IsAllowed none e h = elim (Bool-cases pipeline.degraded) [
    | inl lost ↦
        by_button (codes "degraded: pipeline.yaml ロード失敗のため人間承認へ fail-closed") (ground arith)
    | inr loaded ↦ classified-IsAllowed e loaded (ground arith)
  ]

  after_carryover-IsAllowed :
      (o : Option (Status × Text))
      → find_carryover req.task_id p s.store ≡ o
      → (after_carryover pipeline c req p o s).0.allow ≡ true
      → IsAllowed pipeline c req p s
  after_carryover-IsAllowed none e h = after_escalate-IsAllowed _ refl h
  after_carryover-IsAllowed (some (approved, from)) e h = carried from e
  after_carryover-IsAllowed (some (rejected, from)) e h = absurd (ground arith)
  after_carryover-IsAllowed (some (pending, from)) e h = after_escalate-IsAllowed _ refl h
  after_carryover-IsAllowed (some (timeout, from)) e h = after_escalate-IsAllowed _ refl h
  after_carryover-IsAllowed (some (error, from)) e h = after_escalate-IsAllowed _ refl h

  undenied-IsAllowed : (undenied pipeline c req p s).0.allow ≡ true → IsAllowed pipeline c req p s
  undenied-IsAllowed h =
      elim (Bool-cases (is_undeterminable pipeline c req p p.source (command pipeline c req p))) [
        | inl unread ↦
            by_button (codes "interactive_undeterminable: 承認対象を stdout から復元できず判定不能") (ground arith)
        | inr readable ↦ after_carryover-IsAllowed _ refl (ground arith)
      ]

  after_deny-IsAllowed :
      (o : Option Text)
      → (after_deny pipeline c req p o s).0.allow ≡ true
      → (o ≡ none) × IsAllowed pipeline c req p s
  after_deny-IsAllowed (some rule) h = absurd (ground arith)
  after_deny-IsAllowed none h = (refl, undenied-IsAllowed h)

-- Whatever is allowed matches no rule of denial and is allowed in one of these ways: it carries an
-- approval over; a human allows it now; or no rule asks for a human, the configuration was read, and
-- either a request that was not read off a screen has tier 1, or the tier is 2 and the review
-- allows.
pub decide-IsAllowed :
    (pipeline : Pipeline) (c : Collaborators) (req : Request) (p : PendingApproval) (s : State)
    → (decide pipeline c req p s).0.allow ≡ true
    → (match_rule c.chars (command pipeline c req p) pipeline.always_deny ≡ none)
      × IsAllowed pipeline c req p s
unfolding decide
decide-IsAllowed pipeline c req p s h = after_deny-IsAllowed pipeline c req p s _ h
