-- ===== src/Plan/Patches/Errors.antt =====
-- The errors of `apply_patches` (orchestrator/plan.py), patch by patch.
use taka_ma.Common.{
  ◌≡◌, ◌↔◌, ℕ, String, Bool, true, Option, none, some, List, [], ◌∷◌, ◌++◌, all, contains, Text,
  nat_eq, list_eq, arith,
}
use taka_ma.Plan.Model.{Subtask, Patch, Targets, all_steps, listed}
use taka_ma.Plan.Waves.{steps_of}
use taka_ma.Plan.Patches.{
  Refusal, unknown_steps, target_errors, targets_of, is_depth, apply_model, apply_depth,
  apply_patch,
}

-- What a patch must be for all of it to be applied.
abbrev pub is_known_model : List Text → Option (Option Text) → Bool
is_known_model valid (some (some m)) = contains valid m
is_known_model valid _ = true

abbrev pub is_known_depth : Option (Option String) → Bool
is_known_depth none = true
is_known_depth (some d) = is_depth d

abbrev pub are_known_steps : Option Targets → List ℕ → Bool
are_known_steps (some (listed sts)) steps = all (contains steps) sts
are_known_steps _ steps = true

unknown_steps-nil :
    (sts steps : List ℕ) → (unknown_steps sts steps ≡ []) ↔ (all (contains steps) sts ≡ true)
unfolding unknown_steps
unknown_steps-nil [] steps = ground arith
unknown_steps-nil (st ∷ sts) steps = ground (arith, unknown_steps-nil sts steps)

target_errors-nil :
    (t : Option Targets) (steps : List ℕ)
    → (target_errors t steps ≡ []) ↔ (are_known_steps t steps ≡ true)
unfolding target_errors
target_errors-nil none steps = ground arith
target_errors-nil (some all_steps) steps = ground arith
target_errors-nil (some (listed sts)) steps = unknown_steps-nil sts steps

pub apply_model-nil :
    (valid : List Text) (targets : List ℕ) (m : Option (Option Text)) (ss : List Subtask)
    → ((apply_model valid targets m ss).1 ≡ []) ↔ (is_known_model valid m ≡ true)
unfolding apply_model
apply_model-nil valid targets none ss = ground arith
apply_model-nil valid targets (some none) ss = ground arith
apply_model-nil valid targets (some (some m)) ss = ground arith

pub apply_depth-nil :
    (targets : List ℕ) (m : Option (Option Text)) (d : Option (Option String)) (ss : List Subtask)
    → ((apply_depth targets m d ss).1 ≡ []) ↔ (is_known_depth d ≡ true)
unfolding apply_depth is_depth
apply_depth-nil targets m none ss = ground arith
apply_depth-nil targets m (some none) ss = ground arith
apply_depth-nil targets m (some (some d)) ss = ground arith

append-nil_both : (a b c : List Refusal) → (a ++ b ++ c ≡ []) ↔ ((a ≡ []) × (b ≡ []) × (c ≡ []))
append-nil_both [] [] c = ground arith
append-nil_both [] (y ∷ b) c = ground arith
append-nil_both (x ∷ a) b c = ground arith

-- A patch is answered with no error exactly if each step it lists is there, its model, if any, is
-- registered, and its depth, if any, is a depth: nothing is dropped in silence.
pub apply_patch-nil :
    (valid : List Text) (patch : Patch) (ss : List Subtask)
    → ((apply_patch valid patch ss).1 ≡ []) ↔ (
        (are_known_steps patch.steps (steps_of ss) ≡ true)
        × (is_known_model valid patch.model ≡ true)
        × (is_known_depth patch.depth ≡ true))
unfolding apply_patch
apply_patch-nil valid patch ss =
    let steps = steps_of ss in
    let targets = targets_of patch.steps steps in
    let with_model = apply_model valid targets patch.model ss in
    ground (
      arith,
      append-nil_both (target_errors patch.steps steps) with_model.1
          (apply_depth targets patch.model patch.depth with_model.0).1,
      target_errors-nil patch.steps steps,
      apply_model-nil valid targets patch.model ss,
      apply_depth-nil targets patch.model patch.depth with_model.0,
    )
