-- ===== src/Plan/Waves/Sources.antt =====
-- Where the entries come from that `compute_waves` of orchestrator/plan.py starts with.
use mathlib.Core.List.{Memᴰ}
use taka_ma.Common.{
  beq_refl, ◌≡◌, refl, ◌∙◌, ◌⊎◌, inl, inr, ℕ, true, false, some, List, [], ◌∷◌, contains, dict_get,
  dict_set, nat_eq, ◌==◌, arith, Bool-cases, IsDistinct, nat_beq_iff, dict_get-dict_set,
}
use taka_ma.Plan.Model.{Subtask}
use taka_ma.Plan.Waves.{steps_of, effective_deps, remaining_from}
use taka_ma.Plan.Waves.Loop.{Entries}

-- Where the entries of `remaining` come from.
pub entry_source :
    (step_set : List ℕ) (ss : List Subtask) (d : Entries) (k : ℕ) (ds : List ℕ)
    → dict_get (remaining_from step_set ss d) k ≡ some ds
    → (dict_get d k ≡ some ds)
      ⊎ ((s : Subtask) × Memᴰ s ss × (s.step ≡ k) × (ds ≡ effective_deps s step_set))
unfolding remaining_from
entry_source step_set [] d k ds e = inl e
entry_source step_set (s ∷ ss) d k ds e =
    elim (entry_source step_set ss (dict_set d s.step (effective_deps s step_set)) k ds e) [
      | inr (t, m, at, same) ↦ inr (t, Memᴰ.tail m, at, same)
      | inl found ↦ elim (Bool-cases (s.step == k)) [
        | inl here ↦ inr (
          s,
          Memᴰ.head refl,
          (nat_beq_iff s.step k).0 here,
          ground (arith, dict_get-dict_set d s.step k (effective_deps s step_set)),
        )
        | inr away ↦ inl (ground (arith, dict_get-dict_set d s.step k (effective_deps s step_set)))
      ]
    ]

dict_get-remaining_from_absent :
    (step_set : List ℕ) (ss : List Subtask) (d : Entries) (k : ℕ)
    → contains (steps_of ss) k ≡ false
    → dict_get (remaining_from step_set ss d) k ≡ dict_get d k
unfolding remaining_from
dict_get-remaining_from_absent step_set [] d k h = refl
dict_get-remaining_from_absent step_set (s ∷ ss) d k h = ground (
  arith,
  dict_get-dict_set d s.step k (effective_deps s step_set),
  dict_get-remaining_from_absent step_set ss (dict_set d s.step (effective_deps s step_set)) k,
)

pub dict_get-remaining_from :
    (step_set : List ℕ) (ss : List Subtask) (d : Entries) (s : Subtask)
    → IsDistinct (steps_of ss)
    → Memᴰ s ss
    → dict_get (remaining_from step_set ss d) s.step ≡ some (effective_deps s step_set)
unfolding remaining_from
dict_get-remaining_from step_set [] d s distinct m = elim m [ ]
dict_get-remaining_from step_set (t ∷ ss) d s distinct (Memᴰ.head e) = rw e (
    dict_get-remaining_from_absent step_set ss (dict_set d t.step (effective_deps t step_set))
      t.step distinct.0
    ∙ ground
        (arith, beq_refl t.step, dict_get-dict_set d t.step t.step (effective_deps t step_set)))
dict_get-remaining_from step_set (t ∷ ss) d s distinct (Memᴰ.tail m) =
    dict_get-remaining_from step_set ss (dict_set d t.step (effective_deps t step_set)) s distinct.1
      m

pub contains-steps_of :
    (ss : List Subtask) (s : Subtask) → Memᴰ s ss → contains (steps_of ss) s.step ≡ true
contains-steps_of [] s m = elim m [ ]
contains-steps_of (t ∷ ss) s (Memᴰ.head e) = rw e (ground (arith, beq_refl t.step))
contains-steps_of (t ∷ ss) s (Memᴰ.tail m) = ground (arith, contains-steps_of ss s m)
