-- ===== src/Approval/Store.antt =====
-- The approval files that the pipeline and the Slack bot share: `resolve_approval` of
-- slack_bot/services/approval_store.py, and from approval-pipeline/tier3_handler.py and main.py what
-- reads and writes them. A directory is a dictionary from request ids to records, where `none` is a
-- file that cannot be read; each operation runs whole, as the lock on the file makes it. Times of
-- the clock are left out: a hold is marked, not dated; so are fields of a record that are only shown.
pub mod Once
pub mod Kept
use taka_ma.Common.{
  ℕ, Bool, true, false, not, ◌&&◌, ◌||◌, Option, none, some, List, [], ◌∷◌, ◌++◌, Text, codes, Dict,
  dict_get, dict_set, dict_without, ◌==◌, nat_eq, list_eq, option_eq, if◌then◌else◌, length, all,
  leb,
}
use taka_ma.Approval.Types.{PendingApproval, same_input}

-- The contract's values of `status`, `STATUS_*`.
pub data Status : Type 0 where
  pending approved rejected timeout error : Status

abbrev pub is_pending : Status → Bool
is_pending pending = true
is_pending _ = false

abbrev pub is_approved : Status → Bool
is_approved approved = true
is_approved _ = false

-- `VALID_DECISIONS` and `TERMINAL_DECISIONS`
abbrev pub is_decision : Status → Bool
is_decision approved = true
is_decision rejected = true
is_decision _ = false

pub record Record : Type 0 where
  pub request_id : Text
  pub task_id : Text
  pub instance_id : Text
  pub command : Text
  pub tool_name : Text
  pub tool_input : Dict Text Text
  pub context : Text
  pub risk_reason : Text
  pub status : Status
  pub held_at : Bool
  pub decided_by : Option Text
  pub toctou_mismatch : Bool

pub record Store : Type 0 where
  -- the files of the approval directory itself
  pub waiting : Dict Text (Option Record)
  -- the files of its `done/`
  pub done : Dict Text (Option Record)

-- What reading a file gives: nothing where there is none, or where it is broken.
abbrev pub readable : Option (Option Record) → Option Record
readable (some (some r)) = some r
readable _ = none

abbrev pub read : Store → Text → Option Record
read s id = readable (dict_get s.waiting id)

-- `_write_record`
abbrev pub write : Text → Record → Store → Store
write id r s = record { waiting = dict_set s.waiting id (some r); done = s.done }

-- `[A-Za-z0-9-]`
abbrev is_id_char : ℕ → Bool
is_id_char c =
    (leb 65 c && leb c 90) || (leb 97 c && leb c 122) || (leb 48 c && leb c 57) || c == 45

-- `_REQUEST_ID_RE.fullmatch`
abbrev pub is_request_id : Text → Bool
is_request_id [] = false
is_request_id (c ∷ cs) = all is_id_char (c ∷ cs)

abbrev pub decided : Status → Text → Record → Record
decided decision user r = record r { status = decision; decided_by = some user }

abbrev pub resolve_read : Text → Status → Text → Option Record → Store → Bool × Store
resolve_read id decision user none s = (false, s)
resolve_read id decision user (some r) s =
    if is_pending r.status then (true, write id (decided decision user r) s) else (false, s)

unfoldable pub resolve_approval : Text → Status → Text → Store → Bool × Store
resolve_approval id decision user s =
    if not (is_decision decision)
    then (false, s)
    else if not (is_request_id id)
    then (false, s)
    else resolve_read id decision user (read s id) s

-- What `_claim_hold` answers: `HOLD`, the status that is there, or `None`.
pub data Claim : Type 0 where
  hold lost : Claim
  there : Status → Claim

abbrev pub claim_read : Text → Option Record → Store → Claim × Store
claim_read id none s = (lost, s)
claim_read id (some r) s =
    if is_pending r.status
    then (hold, write id (record r { held_at = true }) s)
    else (there r.status, s)

unfoldable pub claim_hold : Text → Store → Claim × Store
claim_hold id s = claim_read id (read s id) s

abbrev pub is_held : Text → Option Record → Bool
is_held task_id none = false
is_held task_id (some r) = r.task_id == task_id && is_pending r.status && r.held_at

-- `record.get("request_id") or ...`, the name of the file without `.json`
abbrev pub request_or : Text → Option Record → Text
request_or id none = id
request_or id (some r) = if r.request_id == [] then id else r.request_id

abbrev pub first_held : Text → Dict Text (Option Record) → Option Text
first_held task_id [] = none
first_held task_id ((id, file) ∷ files) =
    let rest = first_held task_id files in
    if is_held task_id file then some (request_or id file) else rest

-- The request that a task is held by; the empty task is none.
unfoldable pub find_held : Text → Store → Option Text
find_held [] s = none
find_held (c ∷ cs) s = first_held (c ∷ cs) s.waiting

abbrev marked : Text → Status → Option Record → Store → Store
marked id status none s = s
marked id status (some r) s = write id (record r { status = status }) s

unfoldable pub mark_status : Text → Status → Store → Store
mark_status id status s = marked id status (read s id) s

-- The mark of a mismatch, which `Tier3Handler.handle` writes into the record of its request.
abbrev pub with_mark : Text → Option Record → Store → Store
with_mark id none s = s
with_mark id (some r) s = write id (record r { toctou_mismatch = true }) s

abbrev pub moved : Text → Option (Option Record) → Store → Store
moved id none s = s
moved id (some file) s = record {
  waiting = dict_without s.waiting id;
  done = dict_set s.done id file;
}

-- `_finalize`: the file goes to `done/`, readable or not.
unfoldable pub finalize : Text → Store → Store
finalize id s = moved id (dict_get s.waiting id) s

abbrev is_carried : Text → PendingApproval → Option Record → Bool
is_carried task_id p none = false
is_carried task_id p (some r) =
    is_decision r.status
    && r.task_id == task_id
    && r.tool_name == p.tool_name
    && same_input r.tool_input p.tool_input

abbrev status_or : Option Record → Status
status_or none = error
status_or (some r) = r.status

abbrev pub first_carried :
    Text → PendingApproval → Dict Text (Option Record) → Option (Status × Text)
first_carried task_id p [] = none
first_carried task_id p ((id, file) ∷ files) =
    let rest = first_carried task_id p files in
    if is_carried task_id p file then some (status_or file, request_or id file) else rest

-- `_find_carryover`
unfoldable pub find_carryover : Text → PendingApproval → Store → Option (Status × Text)
find_carryover task_id p s =
    if task_id == [] || p.tool_name == [] then none else first_carried task_id p s.done
