-- ===== src/Plan/Patches.antt =====
-- `apply_patches` of orchestrator/plan.py: the corrections of a plan that is shown.
pub mod Kept
pub mod Edits
pub mod Errors
pub mod Refusals
use taka_ma.Common.{
  ℕ, String, Bool, true, false, Option, none, some, List, [], ◌∷◌, ◌++◌, not, ◌&&◌, ◌||◌,
  if◌then◌else◌, keep, contains, Text, nat_eq, string_eq, list_eq, ◌==◌,
}
use taka_ma.Plan.Model.{Subtask, Patch, Targets, all_steps, listed}
use taka_ma.Plan.Waves.{steps_of}

-- The messages of `errors`.
pub data Refusal : Type 0 where
  unknown_step : ℕ → Refusal
  unknown_model : Text → Refusal
  bad_depth : String → Refusal

-- An assignment through `by_step[st]`. If a step number stands twice, the entry of `by_step` is the
-- last subtask that has it.
pub update_at : ℕ → (Subtask → Subtask) → List Subtask → List Subtask
update_at st f [] = []
update_at st f (s ∷ rest) =
    if s.step == st && not (contains (steps_of rest) st)
    then f s ∷ rest
    else s ∷ update_at st f rest

-- `for s in targets: ...`, with the targets named by their steps
pub for_targets : (Subtask → Subtask) → List ℕ → List Subtask → List Subtask
unfolding update_at
for_targets f [] subtasks = subtasks
for_targets f (st ∷ targets) subtasks = for_targets f targets (update_at st f subtasks)

-- `targets`, and the errors of the steps that are not there
pub targets_of : Option Targets → List ℕ → List ℕ
targets_of none steps = steps
targets_of (some all_steps) steps = steps
targets_of (some (listed sts)) steps = keep (contains steps) sts

pub unknown_steps : List ℕ → List ℕ → List Refusal
unknown_steps [] steps = []
unknown_steps (st ∷ sts) steps =
    let rest = unknown_steps sts steps in if contains steps st then rest else unknown_step st ∷ rest

pub target_errors : Option Targets → List ℕ → List Refusal
unfolding unknown_steps
target_errors none steps = []
target_errors (some all_steps) steps = []
target_errors (some (listed sts)) steps = unknown_steps sts steps

pub set_override : Text → Subtask → Subtask
set_override m s = record s { model_override = some m }

-- `s["depth"] = depth`, and without a model in the patch `s.pop("model_override", None)`
pub set_depth : Option String → Option (Option Text) → Subtask → Subtask
set_depth d none s = record s { depth = d; model_override = none }
set_depth d (some _) s = record s { depth = d }

-- The part of a patch under `if "model" in patch and patch["model"] is not None`.
pub apply_model :
    List Text → List ℕ → Option (Option Text) → List Subtask → List Subtask × List Refusal
unfolding for_targets set_override
apply_model valid targets none subtasks = (subtasks, [])
apply_model valid targets (some none) subtasks = (subtasks, [])
apply_model valid targets (some (some m)) subtasks =
    if contains valid m
    then (for_targets (set_override m) targets subtasks, [])
    else (subtasks, unknown_model m ∷ [])

unfoldable pub is_depth : Option String → Bool
is_depth none = true
is_depth (some d) = d == "shallow" || d == "deep"

abbrev pub depth_errors : Option String → List Refusal
depth_errors none = []
depth_errors (some d) = bad_depth d ∷ []

-- The part of a patch under `if "depth" in patch`.
pub apply_depth :
    List ℕ
    → Option (Option Text)
    → Option (Option String)
    → List Subtask
    → List Subtask × List Refusal
unfolding for_targets set_depth is_depth
apply_depth targets m none subtasks = (subtasks, [])
apply_depth targets m (some d) subtasks =
    if is_depth d
    then (for_targets (set_depth d m) targets subtasks, [])
    else (subtasks, depth_errors d)

-- The body of the loop over the patches.
pub apply_patch : List Text → Patch → List Subtask → List Subtask × List Refusal
unfolding apply_model apply_depth targets_of target_errors
apply_patch valid patch subtasks =
    let steps = steps_of subtasks in
    let targets = targets_of patch.steps steps in
    let (with_model, model_errors) = apply_model valid targets patch.model subtasks in
    let (with_depth, errors) = apply_depth targets patch.model patch.depth with_model in
    (with_depth, target_errors patch.steps steps ++ model_errors ++ errors)

pub apply_patches : List Text → List Patch → List Subtask → List Subtask × List Refusal
unfolding apply_patch
apply_patches valid [] subtasks = (subtasks, [])
apply_patches valid (patch ∷ patches) subtasks =
    let (updated, errors) = apply_patch valid patch subtasks in
    let (final, more) = apply_patches valid patches updated in (final, errors ++ more)
