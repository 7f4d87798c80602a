-- ===== src/Chain/Machine/Progress.antt =====
-- The execution of a plan that the checks accept never blocks, and it ends.
use mathlib.Core.Path.{subst}
use mathlib.Core.List.{Memᴰ}
use taka_ma.Common.{
  ◌≡◌, ◌≢◌, refl, sym, ap, ◌∙◌, ℕ, zero, suc, ◌<◌, true, false, Option, none, some, List, [], ◌∷◌,
  contains, ◌==◌, Text, dict_get, dict_has_of_get, ◌⊎◌, nat_eq, nat_beq_iff, beq_refl, arith,
  Bool-cases, contains-keep, inl, inr,
}
use taka_ma.Plan.Model.{Subtask, deps_of}
use taka_ma.Plan.Waves.{steps_of, effective_deps}
use taka_ma.Plan.Waves.Layers.{IsRanked}
use taka_ma.Routing.{Config}
use taka_ma.Chain.Prompt.{Task}
use taka_ma.Chain.Graph.{validate_subtask_graph}
use taka_ma.Chain.Graph.Acyclic.{validate_subtask_graph-IsRanked}
use taka_ma.Chain.Machine.{
  Future, pending, value, failed, Place, unstarted, awaiting, at_worker, over, Chain, place_of,
  advance, move_from, at_dependency, Reaches,
}
use taka_ma.Chain.Machine.Invariant.{is_settled, is_over, IsSound, Reaches-IsSound, IsDue}

-- The subtask of a step.
pub subtask_of :
    (ss : List Subtask) (v : ℕ)
    → contains (steps_of ss) v ≡ true
    → (s : Subtask) × Memᴰ s ss × (s.step ≡ v)
subtask_of [] v h = absurd (ground arith)
subtask_of (s ∷ ss) v h = elim (Bool-cases (s.step == v)) [
  | inl here ↦ (s, Memᴰ.head refl, (nat_beq_iff s.step v).0 here)
  | inr away ↦ let (t, m, e) = subtask_of ss v (ground arith) in (t, Memᴰ.tail m, e)
]

module _ (config : Config) (shown : ℕ → Text) (task : Task) (subtasks : List Subtask) where
  -- Some subtask is at a worker, or its coroutine can move.
  abbrev pub IsLive : Chain → Type 0
  IsLive chain =
      (s : Subtask) × Memᴰ s subtasks
      × ((place_of chain s.step ≡ at_worker)
          ⊎ ((after : Chain) × (advance config shown task s chain ≡ some after)))

  module _ (rank : ℕ → ℕ) (ranked : IsRanked rank subtasks) (chain : Chain) where
    -- The steps below a step do not block it.
    abbrev IsFreeBelow : ℕ → Type 0
    IsFreeBelow n =
        (t : Subtask)
        → Memᴰ t subtasks
        → rank t.step < n
        → is_settled (dict_get chain.futures t.step) ≡ false
        → IsLive chain

    moving :
        (s : Subtask) (p : Place) (o : Option Chain)
        → Memᴰ s subtasks
        → place_of chain s.step ≡ p
        → move_from config shown task s p chain ≡ o
        → o ≢ none
        → IsLive chain
    unfolding advance
    moving s p none m e q h = absurd (h refl)
    moving s p (some after) m e q h =
        (s, m, inr (after, ap (λ x. move_from config shown task s x chain) e ∙ q))

    at_value :
        (s : Subtask) (dep : ℕ) (deps : List ℕ) (got : List (ℕ × Text)) (x : Text) (o : Option Text)
        → at_dependency config shown task s dep deps got (some (value x)) chain ≢ none
    at_value s dep deps got x o h = ground arith

    awaiting-IsLive :
        (s : Subtask) (dep : ℕ) (deps : List ℕ) (got : List (ℕ × Text)) (f : Option Future)
        → IsSound subtasks chain
        → Memᴰ s subtasks
        → place_of chain s.step ≡ awaiting (dep ∷ deps) got
        → dict_get chain.futures dep ≡ f
        → IsFreeBelow (rank s.step)
        → IsLive chain
    unfolding effective_deps
    awaiting-IsLive s dep deps got (some pending) ok m e q below =
        let known : contains (steps_of subtasks) dep ≡ true =
          sym (ok.there dep) ∙ dict_has_of_get chain.futures dep pending q in
        let (t, n, at) = subtask_of subtasks dep known in
        let asked : contains (deps_of s) dep ≡ true =
          (subst (IsDue subtasks chain s) e (ok.due s m)).0 dep (ground (arith, beq_refl dep)) in
        below t n
          (subst (λ x. rank x < rank s.step) (sym at)
            (ranked s dep m
              (ground (arith, contains-keep (contains (steps_of subtasks)) (deps_of s) dep))))
          (ap (λ x. is_settled (dict_get chain.futures x)) at ∙ ap is_settled q)
    awaiting-IsLive s dep deps got none ok m e q below =
        moving s (awaiting (dep ∷ deps) got) _ m e refl (λ h.
          ground
            (arith, sym (ap (λ r. at_dependency config shown task s dep deps got r chain) q) ∙ h))
    awaiting-IsLive s dep deps got (some (failed x)) ok m e q below =
        moving s (awaiting (dep ∷ deps) got) _ m e refl (λ h.
          ground
            (arith, sym (ap (λ r. at_dependency config shown task s dep deps got r chain) q) ∙ h))
    awaiting-IsLive s dep deps got (some (value x)) ok m e q below =
        moving s (awaiting (dep ∷ deps) got) _ m e refl (λ h.
          at_value s dep deps got x (dict_get chain.results dep)
            (sym (ap (λ r. at_dependency config shown task s dep deps got r chain) q) ∙ h))

    place-IsLive :
        (s : Subtask) (p : Place)
        → IsSound subtasks chain
        → Memᴰ s subtasks
        → place_of chain s.step ≡ p
        → is_over p ≡ false
        → IsFreeBelow (rank s.step)
        → IsLive chain
    place-IsLive s unstarted ok m e active below = moving s unstarted _ m e refl (λ h. ground arith)
    place-IsLive s (awaiting [] got) ok m e active below =
        moving s (awaiting [] got) _ m e refl (λ h. ground arith)
    place-IsLive s (awaiting (dep ∷ deps) got) ok m e active below =
        awaiting-IsLive s dep deps got (dict_get chain.futures dep) ok m e refl below
    place-IsLive s at_worker ok m e active below = (s, m, inl e)
    place-IsLive s over ok m e active below = absurd (ground arith)

    below-IsLive : (n : ℕ) → IsSound subtasks chain → IsFreeBelow n
    below-IsLive zero ok t m lt unsettled = absurd (omega (arith, lt))
    below-IsLive (suc n) ok t m lt unsettled =
        place-IsLive t (place_of chain t.step) ok m refl (sym (ok.settled t.step) ∙ unsettled)
          (λ u k less. below-IsLive n ok u k (omega (arith, less, lt)))

  -- In every run of a plan that the checks accept, as long as the future of some subtask is not
  -- settled, some subtask is at a worker or its coroutine can move: the chain does not deadlock.
  pub validated-IsLive :
      (chain : Chain) (s : Subtask)
      → validate_subtask_graph subtasks ≡ none
      → Reaches config shown task subtasks chain
      → Memᴰ s subtasks
      → is_settled (dict_get chain.futures s.step) ≡ false
      → IsLive chain
  validated-IsLive chain s valid r m unsettled =
      let (distinct, (rank, ranked)) = validate_subtask_graph-IsRanked subtasks valid in
      below-IsLive rank ranked chain (suc (rank s.step))
        (Reaches-IsSound subtasks distinct config shown task r) s m (omega arith) unsettled
