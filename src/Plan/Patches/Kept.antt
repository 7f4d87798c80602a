-- ===== src/Plan/Patches/Kept.antt =====
-- What a correction leaves alone, whatever the patches of `apply_patches` (orchestrator/plan.py).
use taka_ma.Common.{
  ◌≡◌, refl, ap, ◌∙◌, inl, inr, ℕ, String, Option, none, some, List, [], ◌∷◌, map, not, ◌&&◌,
  contains, Text, ◌==◌, nat_eq, arith, Bool-cases,
}
use taka_ma.Plan.Waves.Core.{compute_waves-core}
use taka_ma.Plan.Model.{core, Subtask, Patch}
use taka_ma.Plan.Waves.{steps_of, compute_waves}
use taka_ma.Plan.Patches.{
  targets_of, update_at, for_targets, set_override, set_depth, apply_model, apply_depth,
  apply_patch, apply_patches,
}

module _ (f : Subtask → Subtask) (keeps : (s : Subtask) → core (f s) ≡ core s) where
  map-update_at : (st : ℕ) (ss : List Subtask) → map core (update_at st f ss) ≡ map core ss
  unfolding update_at
  map-update_at st [] = refl
  map-update_at st (s ∷ ss) = elim (Bool-cases (s.step == st && not (contains (steps_of ss) st))) [
    | inl here ↦ rw here (ap (λ c. c ∷ map core ss) (keeps s))
    | inr away ↦ rw away (ap (λ l. core s ∷ l) (map-update_at st ss))
  ]

  map-for_targets :
      (targets : List ℕ) (ss : List Subtask) → map core (for_targets f targets ss) ≡ map core ss
  unfolding for_targets
  map-for_targets [] ss = refl
  map-for_targets (st ∷ targets) ss =
      map-for_targets targets (update_at st f ss) ∙ map-update_at st ss

core-set_override : (m : Text) (s : Subtask) → core (set_override m s) ≡ core s
unfolding set_override
core-set_override m s = refl

core-set_depth :
    (d : Option String) (m : Option (Option Text)) (s : Subtask) → core (set_depth d m s) ≡ core s
unfolding set_depth
core-set_depth d none s = refl
core-set_depth d (some m) s = refl

map-apply_model :
    (valid : List Text) (targets : List ℕ) (m : Option (Option Text)) (ss : List Subtask)
    → map core (apply_model valid targets m ss).0 ≡ map core ss
unfolding apply_model
map-apply_model valid targets none ss = refl
map-apply_model valid targets (some none) ss = refl
map-apply_model valid targets (some (some m)) ss =
    ground (arith, map-for_targets (set_override m) (core-set_override m) targets ss)

map-apply_depth :
    (targets : List ℕ) (m : Option (Option Text)) (d : Option (Option String)) (ss : List Subtask)
    → map core (apply_depth targets m d ss).0 ≡ map core ss
unfolding apply_depth
map-apply_depth targets m none ss = refl
map-apply_depth targets m (some d) ss =
    ground (arith, map-for_targets (set_depth d m) (core-set_depth d m) targets ss)

map-apply_patch :
    (valid : List Text) (patch : Patch) (ss : List Subtask)
    → map core (apply_patch valid patch ss).0 ≡ map core ss
unfolding apply_patch
map-apply_patch valid patch ss =
    let targets = targets_of patch.steps (steps_of ss) in
    map-apply_depth targets patch.model patch.depth (apply_model valid targets patch.model ss).0
    ∙ map-apply_model valid targets patch.model ss

-- Whatever the patches, a correction adds, removes and reorders no subtask, and changes of a subtask
-- nothing but its depth and its model override.
pub map-apply_patches :
    (valid : List Text) (patches : List Patch) (ss : List Subtask)
    → map core (apply_patches valid patches ss).0 ≡ map core ss
unfolding apply_patches
map-apply_patches valid [] ss = refl
map-apply_patches valid (patch ∷ patches) ss =
    map-apply_patches valid patches (apply_patch valid patch ss).0 ∙ map-apply_patch valid patch ss

-- Whatever the patches, the waves of the corrected plan are the waves of the plan.
pub compute_waves-apply_patches :
    (valid : List Text) (patches : List Patch) (ss : List Subtask)
    → compute_waves (apply_patches valid patches ss).0 ≡ compute_waves ss
compute_waves-apply_patches valid patches ss =
    compute_waves-core (apply_patches valid patches ss).0 ss (map-apply_patches valid patches ss)
