-- ===== src/Examples/Chain.antt =====
-- The execution of a plan of two steps, at concrete inputs.
use mathlib.Core.List.{Memᴰ}
use taka_ma.Common.{
  ◌≡◌, ◌↔◌, refl, ℕ, ◌+◌, ◌≤◌, ◌<◌, true, false, none, some, List, [], ◌∷◌, map, contains, Text,
  codes, Dict, dict_has, nat_eq, IsDistinct, arith,
}
use taka_ma.Plan.Model.{Subtask}
use taka_ma.Plan.Waves.{remaining_from, steps_of, effective_deps, compute_waves}
use taka_ma.Plan.Waves.Loop.{OnWaves}
use taka_ma.Plan.Waves.Layers.{IsRanked, wave_number}
use taka_ma.Examples.Plan.{task}
use taka_ma.Examples.Routing.{config}
use taka_ma.Chain.Graph.{visit, validate_subtask_graph}
use taka_ma.Chain.Graph.Acyclic.{validate_subtask_graph_iff, compute_waves-validated}
use taka_ma.Chain.Prompt.{Task}
use taka_ma.Chain.Machine.{
  Chain, new_chain, move_to, hand_out, settle_value, request_of, awaiting, advance, Reaches, begins,
  moves,
}
use taka_ma.Chain.Machine.Invariant.{IsSound, Reaches-IsSound}
use taka_ma.Chain.Machine.Progress.{IsLive, validated-IsLive}
use taka_ma.Chain.Machine.Ending.{total_left, moves_made, moves_made-bounded}
use taka_ma.Chain.Conclusion.{finished, conclude, updated}
use taka_ma.Chain.Conclusion.Verdicts.{conclude-finished_iff}
use taka_ma.Chain.Conclusion.Resume.{updated-unrequested}

abbrev first : Subtask
first = task 1 (some (codes "write")) []

abbrev second : Subtask
second = task 2 (some (codes "read")) (1 ∷ 9 ∷ [])

abbrev plan : List Subtask
plan = first ∷ second ∷ []

plan-valid : validate_subtask_graph plan ≡ none
unfolding validate_subtask_graph visit effective_deps remaining_from
plan-valid = refl

plan-IsDistinct : IsDistinct (steps_of plan)
plan-IsDistinct = (refl, (refl, tt))

validate_subtask_graph_iff_example :
    (validate_subtask_graph plan ≡ none)
    ↔ (IsDistinct (steps_of plan) × ((rank : ℕ → ℕ) × IsRanked rank plan))
validate_subtask_graph_iff_example = validate_subtask_graph_iff plan

compute_waves-validated_example :
    OnWaves
      (λ ws.
        (s : Subtask) (x : ℕ)
        → Memᴰ s plan
        → contains (effective_deps s (steps_of plan)) x ≡ true
        → wave_number ws x < wave_number ws s.step)
      (compute_waves plan)
compute_waves-validated_example = compute_waves-validated plan plan-valid

abbrev shown : ℕ → Text
shown n = n ∷ []

abbrev job_after : Dict ℕ Text → Task
job_after completed = record {
  completed_steps = completed;
  directive = none;
  exit_gate_findings = none;
  constraints = [];
  acceptance = [];
  runbook = false;
  runbook_steps = [];
  model = none;
}

abbrev job : Task
job = job_after []

abbrev asked : Chain
asked =
    hand_out 1 (request_of config shown job first []) (move_to 1 (awaiting [] []) (new_chain plan))

abbrev waiting : Chain
waiting = move_to 2 (awaiting (1 ∷ 9 ∷ []) []) asked

waiting-Reaches : Reaches config shown job plan waiting
unfolding advance
waiting-Reaches =
    moves second (moves first (moves first begins (Memᴰ.head refl) refl) (Memᴰ.head refl) refl)
      (Memᴰ.tail (Memᴰ.head refl)) refl

Reaches-IsSound_example : IsSound plan waiting
Reaches-IsSound_example = Reaches-IsSound plan plan-IsDistinct config shown job waiting-Reaches

validated-IsLive_example : IsLive config shown job plan waiting
validated-IsLive_example =
    validated-IsLive config shown job plan waiting second plan-valid waiting-Reaches
      (Memᴰ.tail (Memᴰ.head refl)) refl

moves_made-bounded_example :
    moves_made config shown job plan waiting-Reaches + total_left plan waiting
    ≤ total_left plan (new_chain plan)
moves_made-bounded_example =
    moves_made-bounded config shown job plan waiting-Reaches plan-IsDistinct

conclude-finished_iff_example :
    ((o : Text) × (conclude (λ m. m) shown [] plan waiting ≡ finished o))
    ↔ ((s : Subtask) → Memᴰ s plan → dict_has waiting.results s.step ≡ true)
conclude-finished_iff_example =
    conclude-finished_iff config shown job plan (λ m. m) waiting [] plan-valid waiting-Reaches
      (λ e. ground (arith, e))

-- The plan again, after a hold of which the first step was completed.
abbrev skipped : Chain
skipped = settle_value 1 (codes "done") (new_chain plan)

skipped-Reaches : Reaches config shown (job_after ((1, codes "done") ∷ [])) plan skipped
unfolding advance
skipped-Reaches = moves first begins (Memᴰ.head refl) refl

kept : (1, codes "done") ∷ [] ≡ updated [] ((1, codes "done") ∷ [])
unfolding updated
kept = refl

updated-unrequested_example : contains (map (λ r. r.0) skipped.requests) 1 ≡ false
updated-unrequested_example =
    updated-unrequested config shown (job_after ((1, codes "done") ∷ [])) []
      ((1, codes "done") ∷ []) plan skipped 1 kept refl skipped-Reaches
