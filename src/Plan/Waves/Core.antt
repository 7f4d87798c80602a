-- ===== src/Plan/Waves/Core.antt =====
-- `compute_waves` of orchestrator/plan.py reads nothing of a subtask that a correction can change.
use taka_ma.Common.{
  sym, length, keep, or_nil, Dict, dict_set, ◌≡◌, refl, ap, ◌∙◌, ℕ, List, [], ◌∷◌, map, contains,
  nat_eq,
}
use taka_ma.Plan.Model.{Core, core, Subtask}
use taka_ma.Plan.Waves.{steps_of, compute_waves, effective_deps, remaining_from, wave_loop}

-- The dependencies that count, read off the core.
abbrev core_deps : List ℕ → Core → List ℕ
core_deps step_set c = keep (λ d. contains step_set d) (or_nil c.depends_on)

steps_of-core : (ss : List Subtask) → steps_of ss ≡ map (λ c. c.step) (map core ss)
steps_of-core [] = refl
steps_of-core (s ∷ ss) = ap (λ l. s.step ∷ l) (steps_of-core ss)

pub steps_of-map-core :
    (ss ts : List Subtask) → map core ss ≡ map core ts → steps_of ss ≡ steps_of ts
steps_of-map-core ss ts e = steps_of-core ss ∙ ap (map (λ c. c.step)) e ∙ sym (steps_of-core ts)

remaining_from-core :
    (step_set : List ℕ) (ss ts : List Subtask) (d : Dict ℕ (List ℕ))
    → map core ss ≡ map core ts
    → remaining_from step_set ss d ≡ remaining_from step_set ts d
unfolding remaining_from effective_deps
remaining_from-core step_set [] [] d e = refl
remaining_from-core step_set [] (t ∷ ts) d e = cc
remaining_from-core step_set (s ∷ ss) [] d e = cc
remaining_from-core step_set (s ∷ ss) (t ∷ ts) d e =
    let first : core s ≡ core t = cc in
    ap (λ c. remaining_from step_set ss (dict_set d c.step (core_deps step_set c))) first
    ∙ remaining_from-core step_set ss ts (dict_set d t.step (effective_deps t step_set)) (cc)

pub compute_waves-core :
    (ss ts : List Subtask) → map core ss ≡ map core ts → compute_waves ss ≡ compute_waves ts
unfolding compute_waves
compute_waves-core ss ts e =
    let steps : steps_of ss ≡ steps_of ts = steps_of-map-core ss ts e in
    ap (λ l. wave_loop (length (remaining_from l ss [])) l (remaining_from l ss []) []) steps
    ∙ ap (λ d. wave_loop (length d) (steps_of ts) d [])
        (remaining_from-core (steps_of ts) ss ts [] e)
