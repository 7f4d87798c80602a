-- ===== src/Approval/Decide/Denied.antt =====
-- What no configuration and no model can allow.
use taka_ma.Common.{
  ◌≡◌, refl, ap, inl, inr, ℕ, Bool, true, false, ◌||◌, Option, none, some, ◌++◌, Text, codes, arith,
  Bool-cases, any, nat_eq, leb,
}
use taka_ma.Approval.Types.{
  PendingApproval, decision_of, safety_deny, operation_str, headless, interactive, Source,
}
use taka_ma.Approval.Safety.{match_rule, default_always_deny}
use taka_ma.Approval.Safety.Builtin.{match_rule-union}
use taka_ma.Approval.Store.{Status, approved, find_carryover, rejected, pending, timeout, error}
use taka_ma.Approval.Tier3.Human.{is_approval_of, ask_human-unapproved}
use taka_ma.Approval.Decide.{
  SafetyConfig, Pipeline, pipeline_of, Request, Collaborators, State, audited, decide, after_deny,
  undenied, after_carryover, after_escalate, by_tier, human, context_of, tier_of, known_tier,
}

-- An operation on which a rule of the code's own list matches is denied, for every configuration
-- file, for a missing one too, and whatever the classifier, the review, the buttons and earlier
-- decisions say: nothing is asked, no file changes, and the audit notes it.
pub decide-builtin :
    (config : Option SafetyConfig) (c : Collaborators) (req : Request) (p : PendingApproval)
    (s : State) (rule : Text)
    → match_rule c.chars (operation_str c.world.dumps p) default_always_deny ≡ some rule
    → decide (pipeline_of config) c req p s
      ≡ audited
          (pipeline_of config)
          c
          req
          p
          0
          (decision_of false safety_deny (codes "always_deny: " ++ rule))
          s
unfolding decide pipeline_of
decide-builtin none c req p s rule h =
    ap (λ o. after_deny (pipeline_of none) c req p o s)
      (match_rule-union c.chars (operation_str c.world.dumps p) default_always_deny none rule h)
decide-builtin (some config) c req p s rule h =
    ap (λ o. after_deny (pipeline_of (some config)) c req p o s)
      (match_rule-union c.chars (operation_str c.world.dumps p) default_always_deny
        config.always_deny rule h)

-- The request is one that a human decides: a rule of escalation matches, the configuration is
-- missing, or the classifier gives a tier that is neither 1 nor 2.
abbrev pub is_for_human : Pipeline → Collaborators → Request → PendingApproval → Bool
is_for_human pipeline c req p =
    elim (match_rule c.chars (operation_str c.world.dumps p) pipeline.always_escalate) [
      | some rule ↦ true
      | none ↦ pipeline.degraded || leb 3 (known_tier (c.classify p).tier)
    ]

tier_of-human :
    (source : Source) (raw : Option ℕ)
    → leb 3 (known_tier raw) ≡ true
    → leb 3 (tier_of source raw) ≡ true
tier_of-human headless raw h = h
tier_of-human interactive raw h = ground arith

abbrev pub carries_approval : Option (Status × Text) → Bool
carries_approval (some (approved, from)) = true
carries_approval _ = false

module _ (pipeline : Pipeline) (c : Collaborators) (req : Request) (p : PendingApproval)
    (unasked : (n : ℕ) → any (is_approval_of c.new_id) (c.world.moves n) ≡ false)
    (unasked_last : any (is_approval_of c.new_id) c.world.last_moves ≡ false) where
  human-unapproved :
      (risk : Text) (s : State) → (human pipeline c req p risk s).decision.allow ≡ false
  human-unapproved risk s =
      ask_human-unapproved c.world c.new_id p (context_of pipeline c req p risk) s.store unasked
        unasked_last

  by_tier-unapproved :
      (tier : ℕ) (reason : Text) (s : State)
      → leb 3 tier ≡ true
      → (by_tier pipeline c req p tier reason s).0.allow ≡ false
  by_tier-unapproved tier reason s h = ground (arith, human-unapproved reason s)

  after_escalate-unapproved :
      (o : Option Text) (s : State)
      → (elim o [
        | some rule ↦ true
        | none ↦ pipeline.degraded || leb 3 (known_tier (c.classify p).tier)
      ])
        ≡ true
      → (after_escalate pipeline c req p o s).0.allow ≡ false
  after_escalate-unapproved (some rule) s h = human-unapproved (codes "always_escalate: " ++ rule) s
  after_escalate-unapproved none s h = elim (Bool-cases pipeline.degraded) [
    | inl lost ↦
        rw lost (human-unapproved (codes "degraded: pipeline.yaml ロード失敗のため人間承認へ fail-closed") s)
    | inr loaded ↦ rw loaded (
        by_tier-unapproved (tier_of p.source (c.classify p).tier) _ s
          (tier_of-human p.source (c.classify p).tier (ground arith)))
  ]

  after_carryover-unapproved :
      (o : Option (Status × Text)) (s : State)
      → carries_approval o ≡ false
      → is_for_human pipeline c req p ≡ true
      → (after_carryover pipeline c req p o s).0.allow ≡ false
  after_carryover-unapproved none s n h = after_escalate-unapproved _ s h
  after_carryover-unapproved (some (approved, from)) s n h = absurd (ground arith)
  after_carryover-unapproved (some (rejected, from)) s n h = refl
  after_carryover-unapproved (some (pending, from)) s n h = after_escalate-unapproved _ s h
  after_carryover-unapproved (some (timeout, from)) s n h = after_escalate-unapproved _ s h
  after_carryover-unapproved (some (error, from)) s n h = after_escalate-unapproved _ s h

  undenied-unapproved :
      (s : State)
      → carries_approval (find_carryover req.task_id p s.store) ≡ false
      → is_for_human pipeline c req p ≡ true
      → (undenied pipeline c req p s).0.allow ≡ false
  undenied-unapproved s n h = ground (
    arith,
    after_carryover-unapproved (find_carryover req.task_id p s.store) s n h,
    human-unapproved (codes "interactive_undeterminable: 承認対象を stdout から復元できず判定不能") s,
  )

-- A request that is for a human (a rule of escalation matches, the configuration is missing, or the
-- classifier gives no tier, or one that is neither 1 nor 2) and that carries no earlier approval
-- over is not allowed where nobody presses the approving button of its approval.
pub decide-unapproved :
    (pipeline : Pipeline) (c : Collaborators) (req : Request) (p : PendingApproval) (s : State)
    → ((n : ℕ) → any (is_approval_of c.new_id) (c.world.moves n) ≡ false)
    → any (is_approval_of c.new_id) c.world.last_moves ≡ false
    → carries_approval (find_carryover req.task_id p s.store) ≡ false
    → is_for_human pipeline c req p ≡ true
    → (decide pipeline c req p s).0.allow ≡ false
unfolding decide
decide-unapproved pipeline c req p s unasked unasked_last n h =
    ground (arith, undenied-unapproved pipeline c req p unasked unasked_last s n h)
