-- ===== src/Plan/Patches/Refusals.antt =====
-- Which errors `apply_patches` (orchestrator/plan.py) can answer.
use taka_ma.Common.{
  ◌≡◌, refl, ℕ, Bool, true, false, Option, none, some, List, [], ◌∷◌, ◌++◌, ◌&&◌, all, Text, arith,
  all-append, list_eq, nat_eq,
}
use taka_ma.Plan.Model.{Subtask, Patch, Targets, all_steps, listed}
use taka_ma.Plan.Waves.{steps_of}
use taka_ma.Plan.Patches.{
  Refusal, unknown_step, unknown_steps, target_errors, targets_of, apply_model, apply_depth,
  apply_patch, apply_patches,
}
use taka_ma.Plan.Patches.Errors.{is_known_model, is_known_depth, apply_model-nil, apply_depth-nil}

abbrev pub only_steps : Refusal → Bool
only_steps (unknown_step _) = true
only_steps _ = false

unknown_steps-only_steps : (sts steps : List ℕ) → all only_steps (unknown_steps sts steps) ≡ true
unfolding unknown_steps
unknown_steps-only_steps [] steps = refl
unknown_steps-only_steps (st ∷ sts) steps = ground (arith, unknown_steps-only_steps sts steps)

target_errors-only_steps :
    (t : Option Targets) (steps : List ℕ) → all only_steps (target_errors t steps) ≡ true
unfolding target_errors
target_errors-only_steps none steps = refl
target_errors-only_steps (some all_steps) steps = refl
target_errors-only_steps (some (listed sts)) steps = unknown_steps-only_steps sts steps

apply_patch-only_steps :
    (valid : List Text) (p : Patch) (ss : List Subtask)
    → (is_known_model valid p.model && is_known_depth p.depth) ≡ true
    → all only_steps (apply_patch valid p ss).1 ≡ true
unfolding apply_patch
apply_patch-only_steps valid p ss known =
    let steps = steps_of ss in
    let targets = targets_of p.steps steps in
    let with_model = apply_model valid targets p.model ss in
    let none_of_model : with_model.1 ≡ [] =
      (apply_model-nil valid targets p.model ss).1 (ground arith) in
    let none_of_depth : (apply_depth targets p.model p.depth with_model.0).1 ≡ [] =
      (apply_depth-nil targets p.model p.depth with_model.0).1 (ground arith) in
    rw (none_of_model, none_of_depth)
      (ground (
        arith,
        all-append only_steps (target_errors p.steps steps) [],
        all-append only_steps (target_errors p.steps steps ++ []) [],
        target_errors-only_steps p.steps steps,
      ))

pub apply_patches-only_steps :
    (valid : List Text) (ps : List Patch) (ss : List Subtask)
    → all (λ p. is_known_model valid p.model && is_known_depth p.depth) ps ≡ true
    → all only_steps (apply_patches valid ps ss).1 ≡ true
unfolding apply_patches
apply_patches-only_steps valid [] ss known = refl
apply_patches-only_steps valid (p ∷ ps) ss known =
    let (updated, errors) = apply_patch valid p ss in
    ground (
      arith,
      all-append only_steps errors (apply_patches valid ps updated).1,
      apply_patch-only_steps valid p ss (ground arith),
      apply_patches-only_steps valid ps updated (ground arith),
    )
