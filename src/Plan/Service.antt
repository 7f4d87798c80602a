-- ===== src/Plan/Service.antt =====
-- `PlanService` of orchestrator/plan.py: the window through which the confirmation of a plan builds,
-- shows and corrects it. The decomposer and the corrector (models behind the AI gateway) and the
-- resolution of models are parameters, as in the code.
pub mod Corrected
use taka_ma.Common.{
  ℕ, Bool, true, false, Option, none, some, List, [], ◌∷◌, ◌++◌, map, Text, CharTable,
}
use taka_ma.Plan.Model.{Subtask, Patch, ViewItem}
use taka_ma.Plan.Verification.{drop_verification_subtasks}
use taka_ma.Plan.Patches.{Refusal, apply_patches}
use taka_ma.Plan.Correction.{parse_simple_correction}
use taka_ma.Plan.View.{Resolve, build_view, diff_view, Change}

-- A line of the answer: a changed step, or an error.
pub data Echo : Type 0 where
  changed_step : ℕ × List Change → Echo
  refused : Refusal → Echo

pub data Route : Type 0 where
  simple llm : Route

pub record Answer : Type 0 where
  pub plan : List Subtask
  pub echoes : List Echo
  pub route : Option Route

-- `decompose(summary, context_docs)`, and `PlanCorrector.correct`
pub record Collaborators : Type 0 where
  pub decompose : Text → Option Text → List Subtask
  pub correct : List Subtask → Text → List Patch
  pub resolve : Resolve
  pub valid_models : List Text

-- `... if docs else ...`: an empty text of documents counts as none
abbrev pub docs_of : Option Text → Option Text
docs_of none = none
docs_of (some []) = none
docs_of (some (c ∷ cs)) = some (c ∷ cs)

module _ (t : CharTable) (c : Collaborators) where
  pub build : Text → Option Text → List Subtask
  build summary docs = drop_verification_subtasks (c.decompose summary (docs_of docs))

  abbrev pub unchanged : List Subtask → Answer
  unchanged subtasks = record { plan = subtasks; echoes = []; route = none }

  -- `changes + errors`
  abbrev pub echoes_of : List (ℕ × List Change) → List Refusal → List Echo
  echoes_of changes errors = map (λ x. changed_step x) changes ++ map (λ e. refused e) errors

  -- On the model's route a correction without effect and without errors is no correction.
  abbrev pub answer_of : Route → List Subtask → List Subtask → List Echo → Answer
  answer_of llm old new [] = unchanged old
  answer_of route old new echoes = record { plan = new; echoes = echoes; route = some route }

  -- From `before = self.view(subtasks)` on; `none` is the KeyError of a view.
  abbrev pub between :
      Route
      → List Subtask
      → List Subtask × List Refusal
      → Option (List ViewItem)
      → Option (List ViewItem)
      → Option Answer
  between route subtasks (updated, errors) (some before) (some after) =
      some (answer_of route subtasks updated (echoes_of (diff_view before after) errors))
  between route subtasks result _ _ = none

  pub apply_route : Route → List Subtask → List Patch → Option Answer
  apply_route route subtasks patches =
      let result = apply_patches c.valid_models patches subtasks in
      between route subtasks result (build_view c.resolve subtasks) (build_view c.resolve result.0)

  abbrev pub by_model : List Subtask → List Patch → Option Answer
  by_model subtasks [] = some (unchanged subtasks)
  by_model subtasks (p ∷ ps) = apply_route llm subtasks (p ∷ ps)

  abbrev pub by_notation : List Subtask → Text → Option (List Patch) → Option Answer
  by_notation subtasks text none = by_model subtasks (c.correct subtasks text)
  by_notation subtasks text (some patches) = apply_route simple subtasks patches

  unfoldable pub correct : List Subtask → Text → Option Answer
  unfolding apply_route
  correct subtasks text = by_notation subtasks text (parse_simple_correction t text c.valid_models)
