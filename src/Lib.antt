-- ===== src/Lib.antt =====
-- taka-ma: models of the parts that decide what a worker may do and in which order.
--
-- The orchestrator (sa-ru) splits a request into subtasks, shows the plan for confirmation, corrects
-- it, checks its dependencies, and runs it: a coroutine for each subtask awaits the ones it depends on,
-- hands the subtask to a worker, and the worker runs the models that the routing chooses, or a runbook
-- of git commands is run without a model. A held approval holds the task, which goes on later from the
-- steps that were completed. Each operation of a worker goes
-- through the approval pipeline: a static check, what was decided before, a classification into tiers,
-- and the handler of the tier, the last of which asks a human through the Slack bot (u-zu), over files
-- that both processes share. The bot also keeps the register of users; a watchdog, a limiter and a
-- queue of files keep the orchestrator running.
--
-- Files and sources:
--   Common           names, lists, texts, dictionaries and Python's character tables (a parameter)
--   Plan             src/orchestrator/plan.py: Model the data, Waves compute_waves, Verification
--                    drop_verification_subtasks, Patches apply_patches, Correction
--                    parse_simple_correction, View build_view and diff_view, Service PlanService
--   Routing          src/orchestrator/__init__.py: _resolve_model, _escalation_chain, _select_method
--                    and Orchestrator._plan_execution
--   Chain.Graph      src/orchestrator/__init__.py: Orchestrator._validate_subtask_graph
--   Chain.Prompt     the same file: _discretion_note, tree_closure_applies, the command that
--                    _execute_subtask_in_chain composes; src/orchestrator/contract.py:
--                    directive_command, build_constraints_block
--   Chain.Machine    the same file: _execute_subtask_in_chain and the futures of _execute_chain
--   Chain.Conclusion the same file: the end of _execute_chain, _first_hold, _hold_task,
--                    _chain_failure_cause, _chain_failure_evidence, _failure_cause_from_error
--   Worker           the same file: _execute_worker_task, _run_candidate, _escalate_reason,
--                    _escalate_to_agent_lane, _execute_cross_review
--   Runbook          src/orchestrator/runbook.py: build_commands, run_step, and in Catalogue
--                    validate_runbook
--   Contract         src/orchestrator/contract.py: _norm_ws, is_verbatim, env_mutation_allows,
--                    _split_sourced, _verbatim_in, and of validate_contract the quotes (directive,
--                    constraints, branch, target_paths, unmapped)
--   Approval.Types   src/approval-pipeline/approval_types.py
--   Approval.Safety  src/approval-pipeline/main.py: _normalize_command, _union, _match_rule
--   Approval.Store   the approval files: src/slack_bot/services/approval_store.py, and the methods of
--                    tier3_handler.py and main.py that read and write them
--   Approval.Tier2   src/approval-pipeline/tier2_handler.py
--   Approval.Tier3   src/approval-pipeline/tier3_handler.py
--   Approval.Decide  src/approval-pipeline/main.py: ApprovalPipeline, and tier1_handler.py
--   Slack.Users      src/slack_bot/services/user_store.py and role_check.py
--   Slack.Dedup      src/slack_bot/services/event_dedup.py
--   Runtime.Limiter  src/orchestrator/concurrency.py
--   Runtime.Liveness src/orchestrator/liveness.py
--   Runtime.Queue    src/orchestrator/file_queue.py
--   Runtime.Holds    src/orchestrator/__init__.py: Orchestrator._resolve_hold, _read_approval_record,
--                    _archive_held_records, _held_request_ids
--   Examples         the theorems at concrete inputs
--
-- State is a record that the operations take and return. What several processes do to the approval
-- files is an explicit list of moves, and a handler that waits takes as an argument what the others do
-- between its readings. The execution of a plan is a step relation: the moves of the coroutines and the
-- answers of the workers in any order. An exception is a value: an Option, a sum or a record of the
-- refusal.
--
-- Fuel: compute_waves has a round for each entry of its dictionary, since a round that goes on deletes
-- one; _resolve has a level for each dropped step, since a chain holds none twice; polling has a
-- reading for each unit of its budget, enough for every positive interval; the search for a cycle has a
-- level for each step, since it goes down only to steps that are not colored. Numbers are natural
-- numbers; subtraction of times stops at 0 where the clock does not run backwards.
--
-- Parameters: the character tables, json.dumps and json.loads, the runs of ssh, the probe of the
-- worker's machine, the shell of its host and shlex.quote, Slack, the classifier and the other models,
-- with what their runs do to the world. Not modelled: the text of notices, time
-- stamps, the layout of the preview as text, cancelling (it ends a chain as a whole), the checks that
-- follow a finished chain, the remaining parts of the orchestrator (conversation, the rest of
-- contracts, gates, processes), the gateway to the models, the sentinel, the handlers and templates of
-- the Slack bot, and deployment.
pub mod Common
pub mod Plan
pub mod Routing
pub mod Chain
pub mod Worker
pub mod Runbook
pub mod Contract
pub mod Approval
pub mod Slack
pub mod Runtime
pub mod Examples
