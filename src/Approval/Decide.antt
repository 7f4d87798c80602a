-- ===== src/Approval/Decide.antt =====
-- `ApprovalPipeline` of approval-pipeline/main.py, with `Tier1Handler` of tier1_handler.py: one
-- request goes through the static check, what was decided before, and the handler of its tier, and
-- each way ends in the audit. The classifier is a parameter, as are the runs of the review and the
-- world of the human's approval; the clock's durations and
-- the path of the log are left out.
pub mod Denied
pub mod Audited
pub mod Allowed
use taka_ma.Common.{
  ℕ, Bool, true, false, not, ◌&&◌, ◌||◌, Option, none, some, List, [], ◌∷◌, ◌++◌, Text, codes,
  CharTable, ◌==◌, nat_eq, list_eq, if◌then◌else◌, leb,
}
use taka_ma.Approval.Types.{
  PendingApproval, Source, headless, interactive, Decision, decision_of, Handler, tier1_auto,
  safety_deny, approval_carryover, rejection_carryover, operation_str,
}
use taka_ma.Approval.Safety.{match_rule, union, default_always_deny, default_always_escalate}
use taka_ma.Approval.Store.{Store, Status, approved, rejected, find_carryover}
use taka_ma.Approval.Tier2.{Run, Parsed, review}
use taka_ma.Approval.Tier3.{Context, World, Post, Result, ask_human}

-- `safety` of pipeline.yaml; a list is `none` where it is missing or no list.
pub record SafetyConfig : Type 0 where
  pub always_deny : Option (List Text)
  pub always_escalate_to_human : Option (List Text)

pub record Pipeline : Type 0 where
  pub always_deny : List Text
  pub always_escalate : List Text
  pub degraded : Bool

-- `__init__`: what `_load_pipeline_config` gives is `none` where the file cannot be read.
unfoldable pub pipeline_of : Option SafetyConfig → Pipeline
pipeline_of none = record {
  always_deny = union default_always_deny none;
  always_escalate = union default_always_escalate none;
  degraded = true;
}
pipeline_of (some c) = record {
  always_deny = union default_always_deny c.always_deny;
  always_escalate = union default_always_escalate c.always_escalate_to_human;
  degraded = false;
}

pub record Request : Type 0 where
  pub instance_id : Text
  pub team_id : Option Text
  pub channel : Option Text
  pub task_id : Text
  pub thread_ts : Option Text

-- What the classifier answers; the tier is what `int(...)` makes of it, `none` where that raises.
pub record Classification : Type 0 where
  pub tier : Option ℕ
  pub reason : Text

pub data Verdict : Type 0 where
  was_approved was_held was_denied : Verdict

pub record Entry : Type 0 where
  pub instance_id : Text
  pub command : Text
  pub tier : ℕ
  pub handler : Handler
  pub decision : Verdict
  pub reason : Text

pub record State : Type 0 where
  pub store : Store
  pub audit : List Entry
  pub posts : List Post

-- The collaborators of one request; `new_id` is the id of the approval that it may open.
pub record Collaborators : Type 0 where
  pub chars : CharTable
  pub world : World
  pub new_id : Text
  pub parse : Text → Parsed
  pub seconds : Text
  pub runs : PendingApproval → ℕ → Run
  pub classify : PendingApproval → Classification

abbrev pub verdict_of : Decision → Verdict
verdict_of d = if d.allow then was_approved else if d.hold then was_held else was_denied

-- `Tier1Handler.handle`
abbrev pub auto_allow : Decision
auto_allow = decision_of true tier1_auto []

-- The tier that counts: an unknown one is the human's, and what was read off a screen is never
-- allowed without a review.
abbrev pub known_tier : Option ℕ → ℕ
known_tier none = 3
known_tier (some n) = if leb 1 n && leb n 3 then n else 3

abbrev pub tier_of : Source → Option ℕ → ℕ
tier_of interactive raw = if known_tier raw == 1 then 2 else known_tier raw
tier_of headless raw = known_tier raw

-- `ctx["risk_reason"] + (f" ({decision.reason})" if decision.reason else "")`
abbrev pub prefixed : Text → Text → Text
prefixed risk [] = risk
prefixed risk (c ∷ cs) = risk ++ (codes " (" ++ ((c ∷ cs) ++ codes ")"))

abbrev pub or_text : Text → Text → Text
or_text [] other = other
or_text (c ∷ cs) other = c ∷ cs

module _ (pipeline : Pipeline) (c : Collaborators) (req : Request) (p : PendingApproval) where
  abbrev pub command : Text
  command = operation_str c.world.dumps p

  abbrev pub context_of : Text → Context
  context_of risk_reason = record {
    instance_id = req.instance_id;
    risk_reason = risk_reason;
    team_id = req.team_id;
    channel = req.channel;
    task_id = req.task_id;
    thread_ts = req.thread_ts;
  }

  -- `_audit`
  abbrev pub entry_of : ℕ → Decision → Entry
  entry_of tier d = record {
    instance_id = req.instance_id;
    command = command;
    tier = tier;
    handler = d.handler;
    decision = verdict_of d;
    reason = d.reason;
  }

  abbrev pub audited : ℕ → Decision → State → Decision × State
  audited tier d s = (d, record s { audit = s.audit ++ (entry_of tier d ∷ []) })

  abbrev pub with_result : Result → State → State
  with_result r s = record { store = r.store; audit = s.audit; posts = s.posts ++ r.posts }

  abbrev pub human : Text → State → Result
  human risk_reason s = ask_human c.world c.new_id p (context_of risk_reason) s.store

  -- Straight to the human, with the reason in front of the answer's.
  abbrev pub straight : Text → State → Decision × State
  straight risk_reason s =
      let r = human risk_reason s in
      audited 3 (record (r.decision) { reason = prefixed risk_reason r.decision.reason })
        (with_result r s)

  abbrev pub by_human : Text → State → Decision × State
  by_human risk_reason s = let r = human risk_reason s in audited 3 r.decision (with_result r s)

  abbrev pub by_review : Text → Decision → State → Decision × State
  by_review risk_reason d s =
      if d.escalate then by_human (or_text d.reason risk_reason) s else audited 2 d s

  abbrev pub by_tier : ℕ → Text → State → Decision × State
  by_tier tier risk_reason s =
      if tier == 1
      then audited 1 auto_allow s
      else if tier == 2
      then by_review risk_reason (review c.parse c.seconds (c.runs p)) s
      else by_human risk_reason s

  abbrev pub classified : State → Decision × State
  classified s = let answer = c.classify p in by_tier (tier_of p.source answer.tier) answer.reason s

  abbrev pub after_escalate : Option Text → State → Decision × State
  after_escalate (some rule) s = straight (codes "always_escalate: " ++ rule) s
  after_escalate none s =
      if pipeline.degraded
      then straight (codes "degraded: pipeline.yaml ロード失敗のため人間承認へ fail-closed") s
      else classified s

  abbrev pub unsettled : State → Decision × State
  unsettled s = after_escalate (match_rule c.chars command pipeline.always_escalate) s

  abbrev pub after_carryover : Option (Status × Text) → State → Decision × State
  after_carryover (some (approved, from)) s =
      audited 3 (decision_of true approval_carryover (codes "carryover: " ++ from)) s
  after_carryover (some (rejected, from)) s =
      audited 3 (decision_of false rejection_carryover (codes "人間が却下した操作のため拒否（再依頼しません）: " ++ from))
        s
  after_carryover _ s = unsettled s

  abbrev pub is_undeterminable : Source → Text → Bool
  is_undeterminable interactive [] = true
  is_undeterminable _ _ = false

  abbrev pub undenied : State → Decision × State
  undenied s =
      if is_undeterminable p.source command
      then straight (codes "interactive_undeterminable: 承認対象を stdout から復元できず判定不能") s
      else after_carryover (find_carryover req.task_id p s.store) s

  abbrev pub after_deny : Option Text → State → Decision × State
  after_deny (some rule) s =
      audited 0 (decision_of false safety_deny (codes "always_deny: " ++ rule)) s
  after_deny none s = undenied s

  unfoldable pub decide : State → Decision × State
  decide s = after_deny (match_rule c.chars command pipeline.always_deny) s

-- What `process` sends to the worker's terminal.
pub data Key : Type 0 where
  approve_key deny_key close_session : Key

pub keys_of : Decision → List Key
keys_of d =
    if d.allow
    then approve_key ∷ []
    else if d.hold
    then deny_key ∷ close_session ∷ []
    else deny_key ∷ []

pub process :
    Pipeline → Collaborators → Request → PendingApproval → State → (Decision × State) × List Key
process pipeline c req p s = let result = decide pipeline c req p s in (result, keys_of result.0)
