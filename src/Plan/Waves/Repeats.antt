-- ===== src/Plan/Waves/Repeats.antt =====
-- What `compute_waves` of orchestrator/plan.py does with a repeated step number.
use taka_ma.Common.{
  ◌≡◌, refl, ap, ◌≢◌, inl, inr, ℕ, zero, suc, ◌≤◌, ◌<◌, true, List, [], ◌∷◌, ◌++◌, if◌then◌else◌,
  length, keep, count, dict_get, dict_has, dict_without, nat_eq, arith, Option-cases, count-keep,
  count_absent, nat_beq_iff, dict_has-dict_without, dict_get_of_has,
}
use mathlib.Core.List.{Memᴰ}
use taka_ma.Plan.Model.{Subtask}
use taka_ma.Plan.Waves.{
  steps_of, effective_deps, remaining_from, is_ready, left, delete_all, Round, last_wave, next_wave,
  raised, round, waves, key_error, cons_wave, wave_loop, compute_waves,
}
use taka_ma.Plan.Waves.Loop.{Entries, round-next, round-last}
use taka_ma.Plan.Waves.Partition.{dict_has-remaining_from}
use taka_ma.Plan.Waves.Sources.{entry_source}

-- What is deleted without a KeyError stands once in the list of deletions.
count-delete_all-le :
    (w : List ℕ) (d d' : Entries) (k : ℕ)
    → delete_all w d ≡ left d'
    → count k w ≤ (if dict_has d k then 1 else 0)
unfolding delete_all
count-delete_all-le [] d d' k e = ground arith
count-delete_all-le (st ∷ w) d d' k e = ground (
  arith,
  count-delete_all-le w (dict_without d st) d' k,
  dict_has-dict_without d st k,
  nat_beq_iff st k,
)

first_round :
    (fuel : ℕ) (order : List ℕ) (d : Entries) (k : ℕ)
    → is_ready d [] k ≡ true
    → 1 < count k order
    → (ws : List (List ℕ)) → wave_loop fuel order d [] ≢ waves ws
unfolding wave_loop
first_round fuel order [] k ready many ws e = ground arith
first_round zero order (x ∷ xs) k ready many ws e = ground arith
first_round (suc fuel) order (x ∷ xs) k ready many ws e = go (round order (x ∷ xs) []) refl e
  where
    d : Entries
    d = x ∷ xs

    counted : count k (keep (is_ready d []) order) ≡ count k order
    counted = ground (arith, count-keep (is_ready d []) order k)

    go :
        (r : Round)
        → round order d [] ≡ r
        → (elim r [
          | last_wave w ↦ waves (w ∷ [])
          | next_wave w rest ↦ cons_wave w (wave_loop fuel order rest ([] ++ w))
          | raised st ↦ key_error st
        ])
          ≡ waves ws
        → ⊥
    go (last_wave w) q p =
        let (_, idle) = round-last order [] w d q in omega (arith, ap (count k) idle, counted)
    go (next_wave w rest) q p =
        let (same, del) = round-next order [] w d rest q in
        ground (arith, ap (count k) same, counted, count-delete_all-le w d rest k del)
    go (raised st) q p = cc

-- If a step number stands twice in the plan and no subtask with it has a dependency that counts,
-- `compute_waves` does not return waves: it stops at a KeyError.
pub compute_waves_repeated :
    (subtasks : List Subtask) (k : ℕ) (ws : List (List ℕ))
    → 1 < count k (steps_of subtasks)
    → ((s : Subtask) → Memᴰ s subtasks → s.step ≡ k → effective_deps s (steps_of subtasks) ≡ [])
    → compute_waves subtasks ≢ waves ws
unfolding compute_waves
compute_waves_repeated subtasks k ws many free =
    let steps = steps_of subtasks in
    let d = remaining_from steps subtasks [] in
    let there : dict_has d k ≡ true =
      ground (arith, dict_has-remaining_from steps subtasks [] k, count_absent steps k) in
    let ready : is_ready d [] k ≡ true = elim (Option-cases (dict_get d k)) [
      | inl absent ↦ absurd (dict_get_of_has d k there absent)
      | inr (ds, e) ↦ elim (entry_source steps subtasks [] k ds e) [
        | inl nothing ↦ absurd (ground arith)
        | inr (s, m, at, same) ↦ ground (arith, free s m at)
      ]
    ] in
    first_round (length d) steps d k ready many ws
