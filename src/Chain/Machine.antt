-- ===== src/Chain/Machine.antt =====
-- The coroutines of `Orchestrator._execute_chain`, one for each subtask
-- (`_execute_subtask_in_chain`): they share the results and the futures, and a run of the chain is a
-- sequence of their moves and of the answers of the workers. A coroutine moves from one `await` to
-- the next, one dependency at a time. A notification that fails counts as the answer of a worker
-- that fails. A `depends_on` that is null is read as empty, as the decomposer makes it.
pub mod Invariant
pub mod Progress
pub mod Ending
use mathlib.Core.List.{Memᴰ}
use taka_ma.Common.{
  ◌≡◌, ℕ, Bool, true, false, Option, none, some, List, [], ◌∷◌, ◌++◌, contains, if◌then◌else◌,
  String, string_eq, ◌==◌, Text, codes, Dict, dict_get, dict_set, nat_eq, or_nil,
}
use taka_ma.Plan.Model.{UserModel, single, Subtask, deps_of, command_of}
use taka_ma.Routing.{truthy, Config, Execution, plan_execution}
use taka_ma.Chain.Prompt.{Task, worker_command}

-- The exceptions that a future can be settled with: those of the worker with their messages, a
-- failed preflight with its kind, an error of a runbook with its cause.
pub data Failure : Type 0 where
  approval_hold : Text → Failure
  dependency_failed : ℕ → Failure
  missing_result : ℕ → Failure
  preflight_failure : String → Text → Failure
  runbook_error : Text → Text → Failure
  other_failure : Text → Failure

pub data Future : Type 0 where
  pending : Future
  value : Text → Future
  failed : Failure → Future

-- What is put on the queue of the workers, or run as a runbook.
pub record QueueItem : Type 0 where
  pub command : Text
  pub execution : String
  pub depth : Option String
  pub confidence : Option ℕ
  pub model : Option UserModel
  pub plan : Execution

pub data Request : Type 0 where
  worker_request : QueueItem → Request
  runbook_request : Request

-- Where a coroutine stands: the dependencies it has still to await, with the results of those
-- before them.
pub data Place : Type 0 where
  unstarted : Place
  awaiting : List ℕ → List (ℕ × Text) → Place
  at_worker : Place
  over : Place

pub record Chain : Type 0 where
  pub results : Dict ℕ Text
  pub futures : Dict ℕ Future
  pub places : Dict ℕ Place
  -- all that was handed out, the last first
  pub requests : List (ℕ × Request)

abbrev pub or_unstarted : Option Place → Place
or_unstarted none = unstarted
or_unstarted (some p) = p

abbrev pub place_of : Chain → ℕ → Place
place_of chain st = or_unstarted (dict_get chain.places st)

abbrev pub create_futures : List Subtask → Dict ℕ Future → Dict ℕ Future
create_futures [] futures = futures
create_futures (s ∷ rest) futures = create_futures rest (dict_set futures s.step pending)

abbrev pub new_chain : List Subtask → Chain
new_chain subtasks = record {
  results = [];
  futures = create_futures subtasks [];
  places = [];
  requests = [];
}

-- `results[step] = output; futures[step].set_result(output)`
abbrev pub settle_value : ℕ → Text → Chain → Chain
settle_value st output chain = record {
  results = dict_set chain.results st output;
  futures = dict_set chain.futures st (value output);
  places = dict_set chain.places st over;
  requests = chain.requests;
}

-- `futures[step].set_exception(e)`
abbrev pub settle_failure : ℕ → Failure → Chain → Chain
settle_failure st e chain = record {
  results = chain.results;
  futures = dict_set chain.futures st (failed e);
  places = dict_set chain.places st over;
  requests = chain.requests;
}

abbrev pub move_to : ℕ → Place → Chain → Chain
move_to st place chain = record {
  results = chain.results;
  futures = chain.futures;
  places = dict_set chain.places st place;
  requests = chain.requests;
}

abbrev pub hand_out : ℕ → Request → Chain → Chain
hand_out st request chain = record {
  results = chain.results;
  futures = chain.futures;
  places = dict_set chain.places st at_worker;
  requests = (st, request) ∷ chain.requests;
}

-- What the workers answer.
pub data Answer : Type 0 where
  gave : Text → Answer
  broke : Failure → Answer

abbrev pub answered : ℕ → Answer → Chain → Chain
answered st (gave o) chain = settle_value st o chain
answered st (broke e) chain = settle_failure st e chain

-- `subtask.get("execution", "agent")`
abbrev pub execution_of : Option String → String
execution_of none = "agent"
execution_of (some e) = e

abbrev pub override_or : Option Text → Option UserModel → Option UserModel
override_or none user = user
override_or (some m) user = some (single m)

module _ (config : Config) (shown : ℕ → Text) (task : Task) where
  -- `model if model is not None else task.get("_model")`
  abbrev pub or_task_model : Option UserModel → Option UserModel
  or_task_model none = task.model
  or_task_model (some m) = some m

  pub queue_item : Subtask → List (ℕ × Text) → QueueItem
  queue_item s dep_results =
      let execution = execution_of s.execution in
      let user = or_task_model s.model in
      record {
        command = worker_command shown task dep_results (command_of s);
        execution = execution;
        depth = s.depth;
        confidence = s.confidence;
        model = override_or (truthy s.model_override) user;
        plan = plan_execution config execution s.depth s.confidence user s.model_override;
      }

  pub request_of : Subtask → List (ℕ × Text) → Request
  unfolding queue_item
  request_of s dep_results =
      if execution_of s.execution == "runbook"
      then (if contains task.runbook_steps s.step
          then runbook_request
          else worker_request (queue_item s dep_results))
      else worker_request (queue_item s dep_results)

  -- The start: a step that was completed before a hold is not run again.
  abbrev pub at_start : Subtask → Option Text → Chain → Chain
  at_start s (some output) chain = settle_value s.step output chain
  at_start s none chain = move_to s.step (awaiting (deps_of s) []) chain

  abbrev pub with_dependency : Subtask → ℕ → List ℕ → List (ℕ × Text) → Option Text → Chain → Chain
  with_dependency s dep deps dep_results (some output) chain =
      move_to s.step (awaiting deps (dep_results ++ ((dep, output) ∷ []))) chain
  with_dependency s dep deps dep_results none chain =
      settle_failure s.step (missing_result dep) chain

  -- `await futures[dep]`: none while it is pending.
  abbrev pub at_dependency :
      Subtask → ℕ → List ℕ → List (ℕ × Text) → Option Future → Chain → Option Chain
  at_dependency s dep deps dep_results none chain =
      some (move_to s.step (awaiting deps dep_results) chain)
  at_dependency s dep deps dep_results (some pending) chain = none
  at_dependency s dep deps dep_results (some (failed e)) chain =
      some (settle_failure s.step (dependency_failed dep) chain)
  at_dependency s dep deps dep_results (some (value output)) chain =
      some (with_dependency s dep deps dep_results (dict_get chain.results dep) chain)

  abbrev pub move_from : Subtask → Place → Chain → Option Chain
  move_from s unstarted chain = some (at_start s (dict_get task.completed_steps s.step) chain)
  move_from s (awaiting [] dep_results) chain =
      some (hand_out s.step (request_of s dep_results) chain)
  move_from s (awaiting (dep ∷ deps) dep_results) chain =
      at_dependency s dep deps dep_results (dict_get chain.futures dep) chain
  move_from s at_worker chain = none
  move_from s over chain = none

  -- The next move of the coroutine of a subtask: none while it waits, and when it is over.
  unfoldable pub advance : Subtask → Chain → Option Chain
  unfolding request_of
  advance s chain = move_from s (place_of chain s.step) chain

  -- The chains that a run of the plan reaches.
  pub data Reaches (subtasks : List Subtask) : Chain → Type 0 where
    begins : Reaches subtasks (new_chain subtasks)
    moves :
        {chain after : Chain} (s : Subtask)
        → Reaches subtasks chain
        → Memᴰ s subtasks
        → advance s chain ≡ some after
        → Reaches subtasks after
    answers :
        {chain : Chain} (s : Subtask) (a : Answer)
        → Reaches subtasks chain
        → Memᴰ s subtasks
        → place_of chain s.step ≡ at_worker
        → Reaches subtasks (answered s.step a chain)
