-- ===== src/Approval/Types.antt =====
-- The types of approval-pipeline/approval_types.py, and the text of an operation. A tool's input is
-- a dictionary of texts, as its commands and paths are; `json.dumps` is a parameter.
use taka_ma.Common.{
  Bool, false, ◌&&◌, ◌||◌, Option, none, some, [], ◌∷◌, ◌++◌, Text, codes, Dict, dict_get, ◌==◌,
  nat_eq, list_eq, option_eq, if◌then◌else◌, length, all,
}

pub data Source : Type 0 where
  headless interactive : Source

pub record PendingApproval : Type 0 where
  pub tool_name : Text
  pub tool_input : Dict Text Text
  pub tool_use_id : Text
  pub context : Text
  pub source : Source
  pub cwd : Text

-- The names of handlers that the audit tells apart.
pub data Handler : Type 0 where
  tier1_auto tier2_sentinel tier3_human safety_deny approval_carryover rejection_carryover : Handler

pub record Decision : Type 0 where
  pub allow : Bool
  pub handler : Handler
  pub reason : Text
  pub escalate : Bool
  pub hold : Bool

-- `Decision(allow=..., handler=..., reason=...)`, the other fields by default
abbrev pub decision_of : Bool → Handler → Text → Decision
decision_of allow handler reason = record {
  allow = allow;
  handler = handler;
  reason = reason;
  escalate = false;
  hold = false;
}

abbrev pub is_write : Text → Bool
is_write name =
    name == codes "Write"
    || name == codes "Edit"
    || name == codes "MultiEdit"
    || name == codes "NotebookEdit"

abbrev pub or_empty : Option Text → Text
or_empty none = []
or_empty (some text) = text

-- From `if name in ("Write", ...)` on.
abbrev pub named_operation : (Dict Text Text → Text) → Text → Dict Text Text → Text
named_operation dumps [] input = []
named_operation dumps (c ∷ cs) input =
    if is_write (c ∷ cs)
    then codes "Write to: " ++ or_empty (dict_get input (codes "file_path"))
    else (c ∷ cs) ++ (codes ": " ++ dumps input)

abbrev pub command_or : Text → Option Text → Text
command_or other none = other
command_or other (some command) = command

unfoldable pub operation_str : (Dict Text Text → Text) → PendingApproval → Text
operation_str dumps pending =
    let rest = named_operation dumps pending.tool_name pending.tool_input in
    if pending.tool_name == [] || pending.tool_name == codes "Bash"
    then command_or rest (dict_get pending.tool_input (codes "command"))
    else rest

-- `a == b` on dictionaries, which does not look at their order
abbrev pub same_input : Dict Text Text → Dict Text Text → Bool
same_input a b = length a == length b && all (λ e. dict_get b e.0 == some e.1) a
