-- ===== src/Approval/Tier2.antt =====
-- `Tier2Handler` of approval-pipeline/tier2_handler.py: the review of an operation by qu-e on the
-- other machine. The runs of ssh are a parameter, one for each attempt, and so is `json.loads`; a
-- verdict is a dictionary of texts, as the review's command line prints it.
pub mod Allowed
use taka_ma.Common.{
  ℕ, Bool, true, false, Option, none, some, List, [], ◌∷◌, ◌++◌, Text, codes, Dict, dict_get, ◌==◌,
  nat_eq, list_eq, option_eq, if◌then◌else◌,
}
use taka_ma.Approval.Types.{Decision, decision_of, tier2_sentinel, or_empty}

-- What one attempt ends with: the timeout, another exception, or the end of the process, with
-- whether its return code is 0, what it printed, and its stripped error output.
pub data Run : Type 0 where
  timed_out : Run
  failed : Text → Run
  exited : Bool → Text → Text → Run

pub data Parsed : Type 0 where
  refused : Text → Parsed
  verdict : Dict Text Text → Parsed

abbrev pub escalated : Text → Dict Text Text
escalated reason = (codes "decision", codes "escalate") ∷ (codes "reason", reason) ∷ []

abbrev verdict_of : Parsed → Dict Text Text
verdict_of (refused e) = escalated (codes "qu-e review error: " ++ e)
verdict_of (verdict d) = d

-- One attempt: its verdict, or nothing after a timeout.
abbrev pub attempted : (Text → Parsed) → Run → Option (Dict Text Text)
attempted parse timed_out = none
attempted parse (failed e) = some (escalated (codes "qu-e review error: " ++ e))
attempted parse (exited false out err) = some (escalated (codes "qu-e review SSH failed: " ++ err))
attempted parse (exited true out err) = some (verdict_of (parse out))

-- The verdict after a second timeout; `seconds` is the timeout in seconds, as it is printed.
abbrev unavailable : Text → Dict Text Text
unavailable seconds =
    escalated (codes "審査不能（qu-e 応答なし・" ++ (seconds ++ codes " 秒 × 2 回タイムアウト）のため人間確認"))

-- The loop of `_call_sentinel`: only the first timeout is tried again.
abbrev pub call_from : (Text → Parsed) → Text → (ℕ → Run) → List ℕ → Dict Text Text
call_from parse seconds runs [] = escalated (codes "qu-e review error: unreachable")
call_from parse seconds runs (attempt ∷ attempts) =
    let rest = call_from parse seconds runs attempts in
    elim (attempted parse (runs attempt)) [
      | some d ↦ d
      | none ↦ if attempt == 1 then rest else unavailable seconds
    ]

unfoldable pub call_sentinel : (Text → Parsed) → Text → (ℕ → Run) → Dict Text Text
call_sentinel parse seconds runs = call_from parse seconds runs (1 ∷ 2 ∷ [])

abbrev pub is_approval : Dict Text Text → Bool
is_approval d = dict_get d (codes "decision") == some (codes "approve")

unfoldable pub review : (Text → Parsed) → Text → (ℕ → Run) → Decision
review parse seconds runs =
    let result = call_sentinel parse seconds runs in
    if is_approval result
    then decision_of true tier2_sentinel []
    else record (decision_of false tier2_sentinel (or_empty (dict_get result (codes "reason")))) {
      escalate = true;
    }
