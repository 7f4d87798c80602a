-- ===== src/Worker.antt =====
-- The execution of one item of the queue, `Orchestrator._execute_worker_task` of
-- orchestrator/__init__.py, with `_run_candidate`, `_escalate_to_agent_lane`, `_escalate_reason` and
-- `_execute_cross_review`. The run of a model, its integration of reviews, and the search for a held
-- approval are parameters on a state of the world; the reviews of a cross review run one after the
-- other.
pub mod Ladder
pub mod Ends
use taka_ma.Common.{
  ℕ, Bool, true, false, not, ◌&&◌, ◌||◌, Option, none, some, List, [], ◌∷◌, ◌++◌, if◌then◌else◌,
  String, ◌==◌, Text, codes, starts_with, after_prefix, CharTable, strip, split_at,
}
use taka_ma.Plan.Model.{UserModel, single, several}
use taka_ma.Routing.{Lane, inline_lane, agent_lane, review_of}

-- What the run of a model ends with.
pub data Ran : Type 0 where
  printed : Text → Ran
  stream_read_error : Text → Ran
  crashed : Text → Ran

-- What `_run_candidate` returns or raises: a hold comes before anything else.
pub data Candidate : Type 0 where
  hold : Text → Candidate
  ran : Ran → Candidate

-- Why the future of the item gets an exception.
pub data WorkError : Type 0 where
  approval_hold : Text → WorkError
  no_candidates : WorkError
  escalated : Text → Text → WorkError
  unsolved_at_top : Text → Text → WorkError
  run_failed : Ran → WorkError
  all_reviews_failed : List Text → WorkError
  integration_failed : Text → WorkError

-- The item, as far as the execution reads it.
pub record Item : Type 0 where
  pub command : Text
  pub execution : String
  pub lane : Lane
  pub candidates : List Text
  pub user_specified : Bool
  pub model : Option UserModel
  -- whether its task is among the cancelled ones
  pub cancelled : Bool

-- What becomes of the future of the item, or of the item.
pub data End : Type 0 where
  result : Text → End
  raised : WorkError → End
  cancelled_future : End
  enqueued : Item → End

module _ (t : CharTable) where
  -- `stripped[len(ESCALATE_MARKER):].strip() or "(理由未記載)"`
  abbrev pub reason_or_default : Text → Text
  reason_or_default [] = codes "(理由未記載)"
  reason_or_default (c ∷ cs) = c ∷ cs

  abbrev pub line_reason : Option Text → Option Text → Option Text
  line_reason none later = later
  line_reason (some text) later = some (reason_or_default (strip t text))

  abbrev pub first_reason : List Text → Option Text
  first_reason [] = none
  first_reason (line ∷ lines) =
      line_reason (after_prefix (strip t line) (codes "ESCALATE:")) (first_reason lines)

  unfoldable pub escalate_reason : Text → Option Text
  escalate_reason output = first_reason (split_at t.is_break output)

-- `_escalate_to_agent_lane`: the item that is put on the queue again
unfoldable pub escalate_to_agent_lane : Item → List Text → Item
escalate_to_agent_lane item remaining = record item {
  candidates = remaining;
  lane = agent_lane;
  execution = "agent";
}

-- The state of the world; what the runs, the integration and the approvals do to it.
pub record World : Type 1 where
  pub State : Type 0
  pub run_model : State → Text → Text → State × Ran
  pub held_approval : State → Option Text
  pub integrate : State → Text → List (Text × Text) → State × Ran

module _ (t : CharTable) (world : World) where
  -- The state after a step, the models run so far with what they came to, and the result.
  abbrev pub Traced : Type 0 → Type 0
  Traced R = world.State × List (Text × Candidate) × R

  abbrev pub unless_held : Option Text → Ran → Candidate
  unless_held none r = ran r
  unless_held (some id) r = hold id

  -- `_run_candidate`: the approvals are read after the run, however it ended.
  unfoldable pub run_candidate : world.State → Text → Text → world.State × Candidate
  run_candidate w model command =
      let (after, r) = world.run_model w model command in
      (after, unless_held (world.held_approval after) r)

  abbrev pub with_run : Text → Candidate → Traced End → Traced End
  with_run model c (w, trace, end) = (w, (model, c) ∷ trace, end)

  -- What an output asks for: to go on to the next model if there is one.
  abbrev pub at_output :
      world.State
      → Text
      → Text
      → Bool
      → List Text
      → Option Text
      → (Option WorkError → Traced End)
      → Traced End
  at_output w model out user rest none next = (w, [], result out)
  at_output w model out true rest (some reason) next =
      (w, [], raised (unsolved_at_top model reason))
  at_output w model out false [] (some reason) next = (w, [], raised (unsolved_at_top model reason))
  at_output w model out false (m ∷ ms) (some reason) next = next (some (escalated model reason))

  abbrev pub at_candidate :
      world.State
      → Text
      → Bool
      → List Text
      → Candidate
      → (Option WorkError → Traced End)
      → Traced End
  at_candidate w model user rest (hold id) next = (w, [], raised (approval_hold id))
  at_candidate w model user rest (ran (printed out)) next =
      at_output w model out user rest (escalate_reason t out) next
  at_candidate w model user rest (ran (stream_read_error e)) next =
      (w, [], raised (run_failed (stream_read_error e)))
  at_candidate w model true rest (ran (crashed e)) next = (w, [], raised (run_failed (crashed e)))
  at_candidate w model false rest (ran (crashed e)) next = next (some (run_failed (crashed e)))

  abbrev pub or_no_candidates : Option WorkError → WorkError
  or_no_candidates none = no_candidates
  or_no_candidates (some e) = e

  -- The loop of the agent lane.
  pub climb : Text → Bool → List Text → world.State → Option WorkError → Traced End
  unfolding run_candidate escalate_reason
  climb command user [] w last = (w, [], raised (or_no_candidates last))
  climb command user (m ∷ ms) w last =
      let (after, c) = run_candidate w m command in
      with_run m c (at_candidate after m user ms c (climb command user ms after))

  -- The inline lane: one run, then the rest of the candidates on the agent lane.
  abbrev pub inline_output : Item → List Text → Text → Option Text → End
  inline_output item rest out none = result out
  inline_output item [] out (some reason) = result out
  inline_output item (m ∷ ms) out (some reason) =
      if item.user_specified then result out else enqueued (escalate_to_agent_lane item (m ∷ ms))

  abbrev pub inline_failure : Item → List Text → Ran → End
  inline_failure item [] r = raised (run_failed r)
  inline_failure item (m ∷ ms) r =
      if item.user_specified
      then raised (run_failed r)
      else enqueued (escalate_to_agent_lane item (m ∷ ms))

  abbrev pub inline_end : Item → List Text → Candidate → End
  inline_end item rest (hold id) = raised (approval_hold id)
  inline_end item rest (ran (printed out)) = inline_output item rest out (escalate_reason t out)
  inline_end item rest (ran (stream_read_error e)) = inline_failure item rest (stream_read_error e)
  inline_end item rest (ran (crashed e)) = inline_failure item rest (crashed e)

  abbrev pub in_lane : Lane → Item → List Text → world.State → Traced End
  in_lane lane item [] w = (w, [], raised no_candidates)
  in_lane inline_lane item (m ∷ ms) w =
      let (after, c) = run_candidate w m item.command in (after, (m, c) ∷ [], inline_end item ms c)
  in_lane agent_lane item (m ∷ ms) w = climb item.command item.user_specified (m ∷ ms) w none

  -- The reviews of a cross review, and which of them came to an output.
  pub run_reviews : Text → List Text → world.State → world.State × List (Text × Ran)
  run_reviews command [] w = (w, [])
  run_reviews command (m ∷ ms) w =
      let (after, r) = world.run_model w m command in
      let (last, rs) = run_reviews command ms after in (last, (m, r) ∷ rs)

  abbrev pub with_success : Text → Ran → List (Text × Text) → List (Text × Text)
  with_success m (printed out) rest = (m, out) ∷ rest
  with_success m _ rest = rest

  abbrev pub successes : List (Text × Ran) → List (Text × Text)
  successes [] = []
  successes ((m, r) ∷ rs) = with_success m r (successes rs)

  abbrev pub with_failure : Text → Ran → List Text → List Text
  with_failure m (printed out) rest = rest
  with_failure m _ rest = m ∷ rest

  abbrev pub failures : List (Text × Ran) → List Text
  failures [] = []
  failures ((m, r) ∷ rs) = with_failure m r (failures rs)

  abbrev pub integrated : Ran → End
  integrated (printed out) = result out
  integrated (stream_read_error e) = raised (integration_failed e)
  integrated (crashed e) = raised (integration_failed e)

  abbrev pub of_successes :
      Text → List (Text × Ran) → List (Text × Text) → world.State → world.State × End
  of_successes command rs [] w = (w, raised (all_reviews_failed (failures rs)))
  of_successes command rs (s ∷ ss) w =
      let (after, r) = world.integrate w command (s ∷ ss) in (after, integrated r)

  abbrev pub unless_held_reviews :
      Option Text → Text → List (Text × Ran) → world.State → world.State × End
  unless_held_reviews (some id) command rs w = (w, raised (approval_hold id))
  unless_held_reviews none command rs w = of_successes command rs (successes rs) w

  pub execute_cross_review : Text → List Text → world.State → world.State × End
  unfolding run_reviews
  execute_cross_review command models w =
      let (after, rs) = run_reviews command models w in
      unless_held_reviews (world.held_approval after) command rs after

  abbrev pub by_models : Option (List Text) → Item → world.State → Traced End
  by_models (some models) item w =
      let (after, end) = execute_cross_review item.command models w in (after, [], end)
  by_models none item w = in_lane item.lane item item.candidates w

  unfoldable pub execute_worker_task : Item → world.State → Traced End
  unfolding climb execute_cross_review
  execute_worker_task item w =
      let rest = by_models (review_of item.model) item w in
      if item.cancelled then (w, [], cancelled_future) else rest
