-- ===== src/Examples/Plan.antt =====
-- A plan of three steps with a verification step, at concrete inputs.
use mathlib.Core.List.{Memᴰ}
use taka_ma.Common.{
  ◌≡◌, ◌≢◌, ◌↔◌, refl, ℕ, suc, not, ◌||◌, if◌then◌else◌, List, [], ◌∷◌, map, Option, some, none,
  codes, true, false, Text, arith, contains, count, join, IsDistinct, ascii, all, any, nat_eq,
  list_eq, string_eq, ap,
}
use taka_ma.Plan.Model.{Subtask, Patch, listed, core}
use taka_ma.Plan.Waves.{steps_of, effective_deps, compute_waves, waves}
use taka_ma.Plan.Waves.Loop.{OnWaves}
use taka_ma.Plan.Waves.Partition.{compute_waves-counts}
use taka_ma.Plan.Waves.Layers.{IsRanked, wave_number}
use taka_ma.Plan.Waves.Repeats.{compute_waves_repeated}
use taka_ma.Plan.Verification.{resolve, is_verification_subtask, drop_verification_subtasks}
use taka_ma.Plan.Verification.Resolve.{Chain, resolve_iff_Chain}
use taka_ma.Plan.Verification.Dropped.{
  without_verification, drop_verification_subtasks_lem, drop_verification_subtasks_shared,
}
use taka_ma.Plan.Patches.{apply_patch, targets_of}
use taka_ma.Plan.Patches.Edits.{where_in, edit, apply_patch-map}
use taka_ma.Plan.Correction.{parse_simple_correction}
use taka_ma.Plan.View.{Resolve, shown, build_view}
use taka_ma.Plan.View.Shown.{wave_width, build_view-waves}
use taka_ma.Plan.Service.{Collaborators, Answer, correct}
use taka_ma.Plan.Service.Corrected.{correct_lem, correct_total}
use taka_ma.Routing.{agent_lane}

abbrev pub task : ℕ → Option Text → List ℕ → Subtask
task step command deps = record {
  step = step;
  command = command;
  execution = some "agent";
  depth = none;
  confidence = none;
  model = none;
  model_override = none;
  depends_on = some deps;
}

-- Step 3 waits for both others, and for a step that is not there.
abbrev plan : List Subtask
plan =
    task 3 (some (codes "c")) (1 ∷ 2 ∷ 9 ∷ [])
    ∷ task 1 (some (codes "a")) []
    ∷ task 2 (some (codes "b")) (1 ∷ [])
    ∷ []

abbrev plan_distinct : IsDistinct (steps_of plan)
plan_distinct = (refl, (refl, (refl, tt)))

plan-IsRanked : IsRanked (λ k. k) plan
unfolding effective_deps
plan-IsRanked s d (Memᴰ.head e) h =
    ground (arith, ap (λ x. contains (effective_deps x (steps_of plan)) d) e, ap (λ x. x.step) e)
plan-IsRanked s d (Memᴰ.tail (Memᴰ.head e)) h =
    ground (arith, ap (λ x. contains (effective_deps x (steps_of plan)) d) e, ap (λ x. x.step) e)
plan-IsRanked s d (Memᴰ.tail (Memᴰ.tail (Memᴰ.head e))) h =
    ground (arith, ap (λ x. contains (effective_deps x (steps_of plan)) d) e, ap (λ x. x.step) e)
plan-IsRanked s d (Memᴰ.tail (Memᴰ.tail (Memᴰ.tail m))) h = elim m [ ]

compute_waves-counts_example :
    OnWaves (λ ws. (k : ℕ) → count k (join ws) ≡ count k (steps_of plan)) (compute_waves plan)
compute_waves-counts_example = compute_waves-counts plan

abbrev simple_resolve : Resolve
simple_resolve execution depth confidence user override = record {
  lane = agent_lane;
  candidates = codes "sonnet" ∷ [];
  user_specified = false;
}

build_view-waves_example :
    (ws : List (List ℕ)) × (compute_waves plan ≡ waves ws)
    × (build_view simple_resolve plan
        ≡ some (
            map
              (λ s. shown simple_resolve (suc (wave_number ws s.step)) (wave_width ws s.step) s)
              plan))
build_view-waves_example = build_view-waves simple_resolve plan plan_distinct

abbrev valid_models : List Text
valid_models = codes "opus" ∷ codes "sonnet" ∷ []

abbrev opus_on_two : Patch
opus_on_two = record {
  steps = some (listed (2 ∷ 7 ∷ []));
  model = some (some (codes "opus"));
  depth = none;
}

apply_patch-map_example :
    (apply_patch valid_models opus_on_two plan).0
    ≡ map
        (where_in (targets_of opus_on_two.steps (steps_of plan)) (edit valid_models opus_on_two))
        plan
apply_patch-map_example = apply_patch-map valid_models opus_on_two plan plan_distinct

resolve_iff_Chain_example :
    (contains (resolve ((2, 1 ∷ []) ∷ []) 1 (2 ∷ []) []) 1 ≡ true)
    ↔ ((path : List ℕ) × Chain ((2, 1 ∷ []) ∷ []) (2 ∷ []) path 1)
resolve_iff_Chain_example = resolve_iff_Chain ((2, 1 ∷ []) ∷ []) (2 ∷ []) 1

short_notation_parses :
    (ps : List Patch) × (parse_simple_correction ascii (codes "2,4 sonnet") valid_models ≡ some ps)
unfolding parse_simple_correction
short_notation_parses = (_, refl)

abbrev collaborators : Collaborators
collaborators = record {
  decompose = λ _ _. plan;
  correct = λ _ _. [];
  resolve = simple_resolve;
  valid_models = valid_models;
}

corrected : (a : Answer) × (correct ascii collaborators plan (codes "2 opus") ≡ some a)
corrected = correct_total ascii collaborators plan (codes "2 opus") plan_distinct

correct_lem_example :
    let a = corrected.0 in
    (map core a.plan ≡ map core plan)
    × (compute_waves a.plan ≡ compute_waves plan)
    × (a.route ≡ none → (a.plan ≡ plan) × (a.echoes ≡ []))
correct_lem_example = correct_lem ascii collaborators plan (codes "2 opus") corrected.0 corrected.1

abbrev checked_plan : List Subtask
checked_plan =
    task 1 (some (codes "a")) []
    ∷ task 2 (some (codes "独立検証")) (1 ∷ [])
    ∷ task 3 (some (codes "c")) (2 ∷ [])
    ∷ []

drop_verification_subtasks_lem_example : drop_verification_subtasks checked_plan ≡ (
    if not (any is_verification_subtask checked_plan) || all is_verification_subtask checked_plan
    then checked_plan
    else without_verification checked_plan)
drop_verification_subtasks_lem_example =
    drop_verification_subtasks_lem checked_plan (refl, (refl, (refl, tt)))

is_check : (deps : List ℕ) → is_verification_subtask (task 2 (some (codes "独立検証")) deps) ≡ true
unfolding is_verification_subtask
is_check deps = refl

drop_verification_subtasks_shared_example :
    drop_verification_subtasks
      (task 2 (some (codes "独立検証")) [] ∷ task 2 (some (codes "独立検証")) (1 ∷ []) ∷ [])
    ≡ []
drop_verification_subtasks_shared_example =
    drop_verification_subtasks_shared (task 2 (some (codes "独立検証")) [])
      (task 2 (some (codes "独立検証")) (1 ∷ [])) (is_check []) (is_check (1 ∷ [])) refl

abbrev repeated : List Subtask
repeated = task 1 (some (codes "a")) [] ∷ task 1 (some (codes "b")) [] ∷ []

repeated_free :
    (s : Subtask) → Memᴰ s repeated → s.step ≡ 1 → effective_deps s (steps_of repeated) ≡ []
unfolding effective_deps
repeated_free s (Memᴰ.head e) h = ap (λ x. effective_deps x (steps_of repeated)) e
repeated_free s (Memᴰ.tail (Memᴰ.head e)) h = ap (λ x. effective_deps x (steps_of repeated)) e
repeated_free s (Memᴰ.tail (Memᴰ.tail m)) h = elim m [ ]

compute_waves_repeated_example : compute_waves repeated ≢ waves ((1 ∷ []) ∷ [])
compute_waves_repeated_example =
    compute_waves_repeated repeated 1 ((1 ∷ []) ∷ []) (omega arith) repeated_free
