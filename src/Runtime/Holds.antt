-- ===== src/Runtime/Holds.antt =====
-- Tasks that are held for an approval, orchestrator/__init__.py: `_resolve_hold`,
-- `_read_approval_record`, `_archive_held_records`, `_held_request_ids`. A task is what these read
-- of it; where nothing can be read of the count of resumptions it is `none`. Notices are left out,
-- and what `_update_status` writes is the outcome.
pub mod Archived
use taka_ma.Common.{
  ℕ, suc, Bool, true, false, not, ◌&&◌, ◌||◌, Option, none, some, List, [], ◌∷◌, Text, Dict,
  dict_get, dict_set, dict_without, if◌then◌else◌, ◌==◌, ltb, list_eq, nat_eq,
}
use taka_ma.Approval.Store.{
  Status, pending, approved, rejected, timeout, error, Record, Store, read, is_request_id, is_held,
  request_or, moved, finalize,
}

pub record Held : Type 0 where
  pub task_id : Text
  pub held_approval_id : Text
  pub reinject_count : Option ℕ

pub data Outcome : Type 0 where
  -- the record is pending: nothing is done
  undecided : Outcome
  -- the task is `init` again, with the new count
  resumed : Status → ℕ → Outcome
  -- the task is failed: resumed too often, no record, or a status that is none of the expected
  not_converged no_record : Outcome
  odd_status : Status → Outcome

abbrev pub ids_of_held : Text → Dict Text (Option Record) → List Text
ids_of_held task_id [] = []
ids_of_held task_id ((id, file) ∷ files) =
    let rest = ids_of_held task_id files in
    if is_held task_id file then request_or id file ∷ rest else rest

abbrev pub held_request_ids : Text → Store → List Text
held_request_ids [] s = []
held_request_ids (c ∷ cs) s = ids_of_held (c ∷ cs) s.waiting

abbrev pub archive_each : List Text → Store → Store
archive_each [] s = s
archive_each (id ∷ ids) s = archive_each ids (if is_request_id id then finalize id s else s)

abbrev pub archive_held_records : Text → Text → Store → Store
archive_held_records task_id request_id s = archive_each (request_id ∷ held_request_ids task_id s) s

abbrev pub read_approval_record : Text → Store → Option Record
read_approval_record request_id s = if is_request_id request_id then read s request_id else none

-- The count after this resumption; one that cannot be read counts as over the limit.
abbrev pub next_count : ℕ → Option ℕ → ℕ
next_count max_reinject none = suc max_reinject
next_count max_reinject (some n) = suc n

abbrev pub reinjected : ℕ → Held → Status → Outcome
reinjected max_reinject task status =
    let n = next_count max_reinject task.reinject_count in
    if ltb max_reinject n then not_converged else resumed status n

-- What is done with a task, by the status of its record.
abbrev pub on_status : ℕ → Held → Option Status → Outcome
on_status max_reinject task none = no_record
on_status max_reinject task (some pending) = undecided
on_status max_reinject task (some approved) = reinjected max_reinject task approved
on_status max_reinject task (some rejected) = reinjected max_reinject task rejected
on_status max_reinject task (some status) = odd_status status

abbrev pub status_of : Option Record → Option Status
status_of none = none
status_of (some r) = some r.status

-- The records are archived unless the task goes on waiting.
abbrev pub after_outcome : Held → Outcome → Store → Store
after_outcome task undecided s = s
after_outcome task _ s = archive_held_records task.task_id task.held_approval_id s

unfoldable pub resolve_hold : ℕ → Held → Store → Outcome × Store
resolve_hold max_reinject task s =
    let status = status_of (read_approval_record task.held_approval_id s) in
    let outcome = on_status max_reinject task status in (outcome, after_outcome task outcome s)
