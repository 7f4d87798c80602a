-- ===== src/Plan/Patches/Edits.antt =====
-- The effect of `apply_patches` (orchestrator/plan.py), patch by patch.
use taka_ma.Common.{
  sym, ◌≡◌, refl, ap, ◌∙◌, inl, inr, ℕ, String, true, false, Option, none, some, List, [], ◌∷◌, map,
  if◌then◌else◌, contains, Text, ◌==◌, nat_eq, list_eq, arith, Bool-cases, IsDistinct, nat_beq_iff,
}
use taka_ma.Plan.Model.{Subtask, Patch}
use taka_ma.Plan.Waves.{steps_of}
use taka_ma.Plan.Patches.{
  targets_of, update_at, for_targets, set_override, set_depth, is_depth, apply_model, apply_depth,
  apply_patch,
}

abbrev pub where_in : List ℕ → (Subtask → Subtask) → Subtask → Subtask
where_in targets f s = if contains targets s.step then f s else s

update_at_absent :
    (st : ℕ) (f : Subtask → Subtask) (ss : List Subtask)
    → contains (steps_of ss) st ≡ false
    → map (where_in (st ∷ []) f) ss ≡ ss
update_at_absent st f [] h = refl
update_at_absent st f (s ∷ ss) h =
    ground (arith, update_at_absent st f ss, nat_beq_iff s.step st, nat_beq_iff st s.step)

update_at-map :
    (st : ℕ) (f : Subtask → Subtask) (ss : List Subtask)
    → IsDistinct (steps_of ss)
    → update_at st f ss ≡ map (where_in (st ∷ []) f) ss
unfolding update_at
update_at-map st f [] distinct = refl
update_at-map st f (s ∷ ss) distinct = elim (Bool-cases (s.step == st)) [
  | inl here ↦ ground (
    arith,
    update_at_absent st f ss,
    nat_beq_iff s.step st,
    nat_beq_iff st s.step,
    distinct.0,
    ap (contains (steps_of ss)) ((nat_beq_iff s.step st).0 here),
  )
  | inr away ↦
      ground (arith, update_at-map st f ss distinct.1, nat_beq_iff s.step st, nat_beq_iff st s.step)
]

steps_of-where_in :
    (targets : List ℕ) (f : Subtask → Subtask)
    → ((s : Subtask) → (f s).step ≡ s.step)
    → (ss : List Subtask) → steps_of (map (where_in targets f) ss) ≡ steps_of ss
steps_of-where_in targets f same_step [] = refl
steps_of-where_in targets f same_step (s ∷ ss) =
    ground (arith, steps_of-where_in targets f same_step ss, same_step s)

map-where_in_both :
    (targets : List ℕ) (f g : Subtask → Subtask)
    → ((s : Subtask) → (f s).step ≡ s.step)
    → (ss : List Subtask)
    → map (where_in targets g) (map (where_in targets f) ss)
      ≡ map (where_in targets (λ s. g (f s))) ss
map-where_in_both targets f g same_step [] = refl
map-where_in_both targets f g same_step (s ∷ ss) = ground (
  arith,
  map-where_in_both targets f g same_step ss,
  same_step s,
  ap (contains targets) (same_step s),
)

module _ (f : Subtask → Subtask) (same_step : (s : Subtask) → (f s).step ≡ s.step)
    (idem : (s : Subtask) → f (f s) ≡ f s) where
  map-where_in :
      (st : ℕ) (targets : List ℕ) (ss : List Subtask)
      → map (where_in targets f) (map (where_in (st ∷ []) f) ss)
        ≡ map (where_in (st ∷ targets) f) ss
  map-where_in st targets [] = refl
  map-where_in st targets (s ∷ ss) =
      ground (
        arith,
        map-where_in st targets ss,
        same_step s,
        idem s,
        ap (contains targets) (same_step s),
      )

  map_same : (ss : List Subtask) → map (where_in [] f) ss ≡ ss
  map_same [] = refl
  map_same (s ∷ ss) = ap (λ l. s ∷ l) (map_same ss)

  pub for_targets-map :
      (targets : List ℕ) (ss : List Subtask)
      → IsDistinct (steps_of ss)
      → for_targets f targets ss ≡ map (where_in targets f) ss
  unfolding for_targets
  for_targets-map [] ss distinct = sym (map_same ss)
  for_targets-map (st ∷ targets) ss distinct =
      ap (for_targets f targets) (update_at-map st f ss distinct)
      ∙ for_targets-map targets (map (where_in (st ∷ []) f) ss)
          (rw (steps_of-where_in (st ∷ []) f same_step ss) distinct)
      ∙ map-where_in st targets ss

-- What a patch says of one subtask that it targets.
abbrev pub edit_model : List Text → Option (Option Text) → Subtask → Subtask
edit_model valid (some (some m)) s =
    if contains valid m then record s { model_override = some m } else s
edit_model valid _ s = s

abbrev pub edit_depth : Option (Option Text) → Option (Option String) → Subtask → Subtask
edit_depth m none s = s
edit_depth none (some d) s = if is_depth d then record s { depth = d; model_override = none } else s
edit_depth (some m) (some d) s = if is_depth d then record s { depth = d } else s

abbrev pub edit : List Text → Patch → Subtask → Subtask
edit valid patch s = edit_depth patch.model patch.depth (edit_model valid patch.model s)

set_override_idem : (m : Text) (s : Subtask) → set_override m (set_override m s) ≡ set_override m s
unfolding set_override
set_override_idem m s = refl

set_depth_idem :
    (d : Option String) (m : Option (Option Text)) (s : Subtask)
    → set_depth d m (set_depth d m s) ≡ set_depth d m s
unfolding set_depth
set_depth_idem d none s = refl
set_depth_idem d (some m) s = refl

step-set_override : (m : Text) (s : Subtask) → (set_override m s).step ≡ s.step
unfolding set_override
step-set_override m s = refl

step-set_depth :
    (d : Option String) (m : Option (Option Text)) (s : Subtask) → (set_depth d m s).step ≡ s.step
unfolding set_depth
step-set_depth d none s = refl
step-set_depth d (some m) s = refl

step-edit_model :
    (valid : List Text) (m : Option (Option Text)) (s : Subtask)
    → (edit_model valid m s).step ≡ s.step
step-edit_model valid none s = refl
step-edit_model valid (some none) s = refl
step-edit_model valid (some (some m)) s = ground arith

map_id : (g : Subtask → Subtask) (ss : List Subtask) → ((s : Subtask) → g s ≡ s) → map g ss ≡ ss
map_id g [] h = refl
map_id g (s ∷ ss) h = ground (arith, h s, map_id g ss h)

map_ext :
    (g h : Subtask → Subtask) (ss : List Subtask)
    → ((s : Subtask) → g s ≡ h s)
    → map g ss ≡ map h ss
map_ext g h [] e = refl
map_ext g h (s ∷ ss) e = ground (arith, e s, map_ext g h ss e)

apply_model-map :
    (valid : List Text) (targets : List ℕ) (m : Option (Option Text)) (ss : List Subtask)
    → IsDistinct (steps_of ss)
    → (apply_model valid targets m ss).0 ≡ map (where_in targets (edit_model valid m)) ss
unfolding apply_model set_override
apply_model-map valid targets none ss distinct = sym (map_id _ ss (λ s. ground arith))
apply_model-map valid targets (some none) ss distinct = sym (map_id _ ss (λ s. ground arith))
apply_model-map valid targets (some (some m)) ss distinct = elim (Bool-cases (contains valid m)) [
  | inl known ↦ rw known (
      for_targets-map (set_override m) (step-set_override m) (set_override_idem m) targets ss
        distinct
      ∙ map_ext _ _ ss (λ s. ground arith))
  | inr unknown ↦ rw unknown (sym (map_id _ ss (λ s. ground arith)))
]

set_depth-edit :
    (m : Option (Option Text)) (d : Option String) (s : Subtask)
    → is_depth d ≡ true
    → set_depth d m s ≡ edit_depth m (some d) s
unfolding set_depth
set_depth-edit none d s h = ground arith
set_depth-edit (some m) d s h = ground arith

edit_depth_bad :
    (m : Option (Option Text)) (d : Option String) (s : Subtask)
    → is_depth d ≡ false
    → edit_depth m (some d) s ≡ s
edit_depth_bad none d s h = ground arith
edit_depth_bad (some m) d s h = ground arith

apply_depth-map :
    (targets : List ℕ) (m : Option (Option Text)) (d : Option (Option String)) (ss : List Subtask)
    → IsDistinct (steps_of ss)
    → (apply_depth targets m d ss).0 ≡ map (where_in targets (edit_depth m d)) ss
unfolding apply_depth
apply_depth-map targets none none ss distinct = sym (map_id _ ss (λ s. ground arith))
apply_depth-map targets (some m) none ss distinct = sym (map_id _ ss (λ s. ground arith))
apply_depth-map targets m (some d) ss distinct = elim (Bool-cases (is_depth d)) [
  | inl good ↦ rw good (
      for_targets-map (set_depth d m) (step-set_depth d m) (set_depth_idem d m) targets ss distinct
      ∙ map_ext _ _ ss (λ s. ground (arith, set_depth-edit m d s good)))
  | inr bad ↦ rw bad (sym (map_id _ ss (λ s. ground (arith, edit_depth_bad m d s bad))))
]

-- On distinct step numbers a patch edits exactly the subtasks that it targets, each on its own: the
-- model override if the model is registered, then the depth if it is one; and a depth that comes
-- without a model takes an earlier override away.
pub apply_patch-map :
    (valid : List Text) (patch : Patch) (ss : List Subtask)
    → IsDistinct (steps_of ss)
    → (apply_patch valid patch ss).0
      ≡ map (where_in (targets_of patch.steps (steps_of ss)) (edit valid patch)) ss
unfolding apply_patch
apply_patch-map valid patch ss distinct =
    let targets = targets_of patch.steps (steps_of ss) in
    let first = edit_model valid patch.model in
    let second = edit_depth patch.model patch.depth in
    ap (λ l. (apply_depth targets patch.model patch.depth l).0)
      (apply_model-map valid targets patch.model ss distinct)
    ∙ apply_depth-map targets patch.model patch.depth (map (where_in targets first) ss)
        (rw (steps_of-where_in targets first (step-edit_model valid patch.model) ss) distinct)
    ∙ map-where_in_both targets first second (step-edit_model valid patch.model) ss
