-- ===== src/Approval/Tier3.antt =====
-- `Tier3Handler` of approval-pipeline/tier3_handler.py: a human is asked, and the worker waits for a
-- while. What others do to the approval files in between is a parameter, `moves n` before reading
-- `n`; so are Slack, the probe of the worker's machine and the time that the daemon leaves. What the
-- notices say, and the notes on evidence, are left out.
pub mod Waiting
pub mod Answered
pub mod Human
use taka_ma.Common.{
  ℕ, zero, suc, ◌+◌, min, Bool, true, false, not, ◌&&◌, ◌||◌, Option, none, some, List, [], ◌∷◌,
  ◌++◌, Text, codes, Dict, dict_get, ◌==◌, nat_eq, list_eq, if◌then◌else◌, ltb,
}
use taka_ma.Approval.Types.{PendingApproval, Decision, decision_of, tier3_human, operation_str}
use taka_ma.Approval.Store.{
  Status, pending, approved, rejected, timeout, error, is_decision, Record, Store, read, write,
  Claim, hold, lost, there, claim_hold, find_held, mark_status, with_mark, finalize,
}
use taka_ma.Approval.Store.Once.{Move, run_moves}

pub record Context : Type 0 where
  pub instance_id : Text
  pub risk_reason : Text
  pub team_id : Option Text
  pub channel : Option Text
  pub task_id : Text
  pub thread_ts : Option Text

pub data Post : Type 0 where
  approval_request hold_notice mismatch_notice : Text → Post

-- `none` is an exception of the collection, or of the verification; the list of a verification
-- holds what differs.
pub record Probe : Type 0 where
  pub collect : PendingApproval → Option (List Text)
  pub verify : List Text → Option (List Text)

pub record World : Type 0 where
  pub hold_grace : ℕ
  pub poll_interval : ℕ
  -- what is left until the deadline when the waiting starts
  pub time_left : Option ℕ
  pub run_probe : Option Probe
  pub sends : Bool
  pub moves : ℕ → List Move
  pub last_moves : List Move
  pub dumps : Dict Text Text → Text

pub record Result : Type 0 where
  pub decision : Decision
  pub store : Store
  pub posts : List Post

-- `_read_status`
abbrev pub read_status : Text → Store → Option Status
read_status id s = elim (read s id) [ none ↦ none | some r ↦ some r.status ]

module _ (w : World) (id : Text) where
  abbrev or_poll : Option Status → Option Status × Store → Store → Option Status × Store
  or_poll none rest s = rest
  or_poll (some status) rest s = if is_decision status then (some status, s) else rest

  -- `_poll_decision`: reading `n` comes after the others' moves of that interval.
  abbrev pub poll_from : ℕ → ℕ → ℕ → ℕ → Store → Option Status × Store
  poll_from zero n elapsed budget s = (none, s)
  poll_from (suc fuel) n elapsed budget s =
      let now = (run_moves id (w.moves n) s).1 in
      let rest = poll_from fuel (suc n) (elapsed + w.poll_interval) budget now in
      if ltb elapsed budget then or_poll (read_status id now) rest now else (none, s)

  unfoldable pub poll_decision : ℕ → Store → Option Status × Store
  poll_decision budget s = poll_from budget 0 0 budget s

  abbrev pub budget_of : Option ℕ → ℕ
  budget_of none = w.hold_grace
  budget_of (some left) = min w.hold_grace left

  -- Polling, and the last word on the hold where it ends without a decision.
  abbrev pub claimed : Option Status × Store → Claim × Store
  claimed (some status, s) = (there status, s)
  claimed (none, s) = claim_hold id (run_moves id w.last_moves s).1

  abbrev deny : Text → Decision
  deny reason = decision_of false tier3_human reason

  abbrev mismatched : Store → List Post → Result
  mismatched s posts = record {
    decision = deny (codes "toctou_mismatch: 承認された内容と実行時点の内容が異なる");
    store = finalize id (with_mark id (read s id) s);
    posts = posts ++ (mismatch_notice id ∷ []);
  }

  abbrev allowed : Store → List Post → Result
  allowed s posts = record {
    decision = decision_of true tier3_human [];
    store = finalize id s;
    posts = posts;
  }

  abbrev by_verify : Option (List Text) → Store → List Post → Result
  by_verify (some []) s posts = allowed s posts
  by_verify _ s posts = mismatched s posts

  abbrev pub checked : Option Probe → List Text → Store → List Post → Result
  checked none files s posts = allowed s posts
  checked (some probe) [] s posts = allowed s posts
  checked (some probe) (f ∷ fs) s posts = by_verify (probe.verify (f ∷ fs)) s posts

  abbrev status_word : Status → Text
  status_word pending = codes "pending"
  status_word approved = codes "approved"
  status_word rejected = codes "rejected"
  status_word timeout = codes "timeout"
  status_word error = codes "error"

  abbrev untracked : Text → Store → List Post → Result
  untracked status s posts = record {
    decision = deny (codes "承認レコードを追跡できません (status=" ++ (status ++ codes ")"));
    store = finalize id s;
    posts = posts;
  }

  abbrev pub settle : List Text → Claim × Store → List Post → Result
  settle files (there approved, s) posts = checked w.run_probe files s posts
  settle files (there rejected, s) posts = record {
    decision = deny [];
    store = finalize id s;
    posts = posts;
  }
  settle files (hold, s) posts = record {
    decision = record (deny (codes "hold: 承認待ち (" ++ (id ++ codes ")"))) { hold = true };
    store = s;
    posts = posts ++ (hold_notice id ∷ []);
  }
  settle files (there status, s) posts = untracked (status_word status) s posts
  settle files (lost, s) posts = untracked (codes "None") s posts

  abbrev pub collected : Option Probe → PendingApproval → List Text
  collected none p = []
  collected (some probe) p = elim (probe.collect p) [ none ↦ [] | some files ↦ files ]

  abbrev pub record_of : PendingApproval → Context → Record
  record_of p ctx = record {
    request_id = id;
    task_id = ctx.task_id;
    instance_id = ctx.instance_id;
    command = operation_str w.dumps p;
    tool_name = p.tool_name;
    tool_input = p.tool_input;
    context = p.context;
    risk_reason = ctx.risk_reason;
    status = pending;
    held_at = false;
    decided_by = none;
    toctou_mismatch = false;
  }

  abbrev pub unsent : Store → Result
  unsent s = record {
    decision = deny (codes "slack_error");
    store = finalize id (mark_status id error s);
    posts = [];
  }

  abbrev pub asked : List Text → Store → Result
  asked files s =
      settle files (claimed (poll_decision (budget_of w.time_left) s)) (approval_request id ∷ [])

  abbrev pub by_held : Option Text → PendingApproval → Context → Store → Result
  by_held (some held_id) p ctx s = record {
    decision = record (deny (codes "hold: 承認待ち（保留中 " ++ (held_id ++ codes "）"))) { hold = true };
    store = s;
    posts = [];
  }
  by_held none p ctx s =
      let files = collected w.run_probe p in
      let written = write id (record_of p ctx) s in
      if w.sends then asked files written else unsent written

  -- `handle`, where `id` is the request's new id
  unfoldable pub ask_human : PendingApproval → Context → Store → Result
  ask_human p ctx s = by_held (find_held ctx.task_id s) p ctx s
