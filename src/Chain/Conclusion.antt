-- ===== src/Chain/Conclusion.antt =====
-- What `Orchestrator._execute_chain` makes of the futures once its coroutines are over: the guard of
-- the graph, `_first_hold`, `_hold_task`, `_chain_failure_cause`, `_chain_failure_evidence` and
-- `_failure_cause_from_error`. The checks on the real effects (grounding, exit gate) follow a
-- `finished` conclusion and are not in it.
pub mod Verdicts
pub mod Resume
use taka_ma.Common.{
  ℕ, Bool, true, false, not, ◌&&◌, Option, none, some, List, [], ◌∷◌, ◌++◌, map, keep, contains,
  if◌then◌else◌, String, string_eq, ◌==◌, leb, Text, codes, joined, has_part, Dict, dict_get,
  dict_set, dict_has, nat_eq,
}
use taka_ma.Plan.Model.{Subtask}
use taka_ma.Plan.Waves.{steps_of}
use taka_ma.Chain.Graph.{GraphError, validate_subtask_graph}
use taka_ma.Chain.Machine.{
  Failure, approval_hold, dependency_failed, missing_result, preflight_failure, runbook_error,
  other_failure, Future, pending, value, failed, Chain,
}

-- `exc.request_id` of a future with an ApprovalHold
abbrev pub hold_of : Future → Option Text
hold_of (failed (approval_hold id)) = some id
hold_of _ = none

abbrev pub or_later : Option Text → Option Text → Option Text
or_later none later = later
or_later (some id) later = some id

-- The first hold among the futures, in the order of the plan.
pub first_hold : Dict ℕ Future → Option Text
first_hold [] = none
first_hold ((st, f) ∷ futures) = or_later (hold_of f) (first_hold futures)

-- `completed_steps.update({str(step): output for step, output in results.items()})`
unfoldable pub updated : Dict ℕ Text → Dict ℕ Text → Dict ℕ Text
updated completed [] = completed
updated completed ((st, o) ∷ results) = updated (dict_set completed st o) results

-- The exception of a future that counts as a failure: not a hold.
abbrev pub failure_of : Future → Option Failure
failure_of (failed (approval_hold id)) = none
failure_of (failed e) = some e
failure_of _ = none

-- `sorted(futures.items())`: the numbers are distinct
abbrev pub insert_item : (ℕ × Future) → Dict ℕ Future → Dict ℕ Future
insert_item x [] = x ∷ []
insert_item x (y ∷ ys) = let rest = insert_item x ys in if leb x.0 y.0 then x ∷ y ∷ ys else y ∷ rest

abbrev pub sorted_items : Dict ℕ Future → Dict ℕ Future
sorted_items [] = []
sorted_items (x ∷ xs) = insert_item x (sorted_items xs)

-- How the execution of a plan ends. A hold keeps what was completed; a plan of no subtasks has no
-- last result (the IndexError); `last_result_missing` is the KeyError, which does not occur.
pub data Conclusion : Type 0 where
  rejected : GraphError → Conclusion
  held : Text → Dict ℕ Text → Conclusion
  finished : Text → Conclusion
  unfinished : List ℕ → Option Text → Text → Conclusion
  no_last_step : Conclusion
  last_result_missing : ℕ → Conclusion

abbrev pub last_step : List Subtask → Option ℕ
last_step [] = none
last_step (s ∷ []) = some s.step
last_step (s ∷ t ∷ ss) = last_step (t ∷ ss)

abbrev pub or_missing : ℕ → Option Text → Conclusion
or_missing st none = last_result_missing st
or_missing st (some o) = finished o

abbrev pub last_result : Option ℕ → Dict ℕ Text → Conclusion
last_result none results = no_last_step
last_result (some st) results = or_missing st (dict_get results st)

abbrev pub failed_steps : List Subtask → Dict ℕ Text → List ℕ
failed_steps subtasks results = keep (λ st. not (dict_has results st)) (steps_of subtasks)

-- `lower` is `str.lower`, `shown` is `str` of a number.
module _ (lower : Text → Text) (shown : ℕ → Text) where
  -- `str(exc)`
  abbrev pub message_of : Failure → Text
  message_of (approval_hold id) = codes "承認保留により中断（承認 ID: " ++ (id ++ codes "）")
  message_of (dependency_failed dep) = codes "依存先 Step " ++ (shown dep ++ codes " が失敗したためスキップ")
  message_of (missing_result dep) = shown dep
  message_of (preflight_failure kind message) = message
  message_of (runbook_error cause message) = message
  message_of (other_failure message) = message

  abbrev pub cause_by_message : Text → Text
  cause_by_message message =
      if has_part (lower message) (codes "timeout")
      then codes "worker_timeout"
      else codes "worker_error"

  abbrev pub preflight_cause : String → Text
  preflight_cause kind =
      if kind == "ssh"
      then codes "ssh_unreachable"
      else if kind == "git"
      then codes "git_remote_unreachable"
      else if kind == "anthropic"
      then codes "anthropic_auth"
      else codes "worker_error"

  pub failure_cause_from_error : Failure → Text
  failure_cause_from_error (preflight_failure kind message) = preflight_cause kind
  failure_cause_from_error (runbook_error cause message) = cause
  failure_cause_from_error e = cause_by_message (message_of e)

  abbrev pub or_cause : Option Failure → Option Text → Option Text
  or_cause none rest = rest
  or_cause (some e) rest = some (failure_cause_from_error e)

  pub chain_failure_cause : Dict ℕ Future → Option Text
  unfolding failure_cause_from_error
  chain_failure_cause [] = none
  chain_failure_cause ((st, f) ∷ futures) = or_cause (failure_of f) (chain_failure_cause futures)

  abbrev pub with_evidence : ℕ → Option Failure → List Text → List Text
  with_evidence st none parts = parts
  with_evidence st (some e) parts =
      (codes "Step " ++ (shown st ++ (codes ": " ++ message_of e))) ∷ parts

  abbrev pub evidence_parts : Dict ℕ Future → List Text
  evidence_parts [] = []
  evidence_parts ((st, f) ∷ futures) = with_evidence st (failure_of f) (evidence_parts futures)

  pub chain_failure_evidence : Dict ℕ Future → Text
  chain_failure_evidence futures = joined (codes "\n\n") (evidence_parts (sorted_items futures))

  abbrev pub after_failed : List ℕ → List Subtask → Chain → Conclusion
  after_failed [] subtasks chain = last_result (last_step subtasks) chain.results
  after_failed (st ∷ sts) subtasks chain =
      unfinished (st ∷ sts) (chain_failure_cause chain.futures)
        (chain_failure_evidence chain.futures)

  abbrev pub after_hold : Option Text → Dict ℕ Text → List Subtask → Chain → Conclusion
  after_hold (some id) completed subtasks chain = held id (updated completed chain.results)
  after_hold none completed subtasks chain =
      after_failed (failed_steps subtasks chain.results) subtasks chain

  abbrev pub after_graph : Option GraphError → Dict ℕ Text → List Subtask → Chain → Conclusion
  after_graph (some e) completed subtasks chain = rejected e
  after_graph none completed subtasks chain =
      after_hold (first_hold chain.futures) completed subtasks chain

  -- The conclusion, from the chain that the coroutines leave.
  unfoldable pub conclude : Dict ℕ Text → List Subtask → Chain → Conclusion
  unfolding first_hold chain_failure_cause chain_failure_evidence
  conclude completed subtasks chain =
      after_graph (validate_subtask_graph subtasks) completed subtasks chain
