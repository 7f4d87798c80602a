-- ===== src/Plan/Verification/Dropped.antt =====
-- What `drop_verification_subtasks` of orchestrator/plan.py returns.
use mathlib.Core.List.{Memᴰ}
use taka_ma.Common.{
  ◌≡◌, refl, ap, ◌∙◌, ◌≢◌, ◌↔◌, inl, inr, ℕ, ◌+◌, true, false, List, [], ◌∷◌, map, not, ◌&&◌, ◌||◌,
  if◌then◌else◌, length, keep, all, any, contains, dict_has, dict_set, nat_eq, ◌==◌, arith,
  Bool-cases, Dict, IsDistinct, length-keep-le, beq_refl, dict_has-dict_set, length-dict_set,
  beq_of_absent,
}
use taka_ma.Plan.Model.{Subtask, deps_of}
use taka_ma.Plan.Waves.{steps_of}
use taka_ma.Plan.Waves.Sources.{contains-steps_of}
use taka_ma.Plan.Verification.{
  is_verification_subtask, dropped_from, resolve, rewire, with_deps, drop_verification_subtasks,
}

dict_has-dropped_from :
    (ss : List Subtask) (d : Dict ℕ (List ℕ)) (k : ℕ)
    → dict_has (dropped_from ss d) k
      ≡ (dict_has d k || any (λ s. is_verification_subtask s && s.step == k) ss)
unfolding dropped_from
dict_has-dropped_from [] d k = ground arith
dict_has-dropped_from (s ∷ ss) d k = elim (Bool-cases (is_verification_subtask s)) [
  | inl yes_it_is ↦ rw yes_it_is (
      ground (
        arith,
        dict_has-dropped_from ss (dict_set d s.step (deps_of s)) k,
        dict_has-dict_set d s.step k (deps_of s),
      ))
  | inr not_it ↦ rw not_it (dict_has-dropped_from ss d k)
]

any_absent :
    (ss : List Subtask) (k : ℕ)
    → contains (steps_of ss) k ≡ false
    → any (λ s. is_verification_subtask s && s.step == k) ss ≡ false
any_absent [] k h = refl
any_absent (s ∷ ss) k h = ground (arith, any_absent ss k)

any_here :
    (ss : List Subtask) (s : Subtask)
    → IsDistinct (steps_of ss)
    → Memᴰ s ss
    → any (λ t. is_verification_subtask t && t.step == s.step) ss ≡ is_verification_subtask s
any_here [] s distinct m = elim m [ ]
any_here (t ∷ ss) s distinct (Memᴰ.head e) = ground (
  arith,
  any_absent ss s.step (ap (λ u. contains (steps_of ss) u.step) e ∙ distinct.0),
  beq_refl s.step,
  ap (λ u. u.step) e,
  ap is_verification_subtask e,
)
any_here (t ∷ ss) s distinct (Memᴰ.tail m) = ground (
  arith,
  any_here ss s distinct.1 m,
  beq_of_absent (steps_of ss) t.step s.step distinct.0 (contains-steps_of ss s m),
)

abbrev verifying : List Subtask → ℕ
verifying ss = length (keep is_verification_subtask ss)

length-dropped_from :
    (ss : List Subtask) (d : Dict ℕ (List ℕ))
    → IsDistinct (steps_of ss)
    → ((k : ℕ) → contains (steps_of ss) k ≡ true → dict_has d k ≡ false)
    → length (dropped_from ss d) ≡ length d + verifying ss
unfolding dropped_from
length-dropped_from [] d distinct apart = omega arith
length-dropped_from (s ∷ ss) d distinct apart = elim (Bool-cases (is_verification_subtask s)) [
  | inl yes_it_is ↦ rw yes_it_is (
      ground (
        arith,
        length-dropped_from ss (dict_set d s.step (deps_of s)) distinct.1 (λ k m. ground (
          arith,
          dict_has-dict_set d s.step k (deps_of s),
          apart k,
          beq_of_absent (steps_of ss) s.step k distinct.0 m,
        )),
        length-dict_set d s.step (deps_of s),
        apart s.step,
        beq_refl s.step,
      ))
  | inr not_it ↦ rw not_it (length-dropped_from ss d distinct.1 (λ k m. apart k (ground arith)))
]

verifying-any : (ss : List Subtask) → (verifying ss ≡ 0) ↔ (any is_verification_subtask ss ≡ false)
verifying-any [] = ground arith
verifying-any (s ∷ ss) = ground (arith, verifying-any ss)

verifying-all :
    (ss : List Subtask) → (verifying ss ≡ length ss) ↔ (all is_verification_subtask ss ≡ true)
verifying-all [] = ground arith
verifying-all (s ∷ ss) = ground (arith, verifying-all ss, length-keep-le is_verification_subtask ss)

-- A subtask as it stands in the new plan.
abbrev pub rewired : Dict ℕ (List ℕ) → Subtask → Subtask
rewired dropped s = with_deps s (resolve dropped (length dropped) (deps_of s) [])

rewire-keep :
    (dropped : Dict ℕ (List ℕ)) (ss : List Subtask)
    → ((s : Subtask) → Memᴰ s ss → dict_has dropped s.step ≡ is_verification_subtask s)
    → rewire dropped ss ≡ map (rewired dropped) (keep (λ s. not (is_verification_subtask s)) ss)
unfolding rewire
rewire-keep dropped [] same = refl
rewire-keep dropped (s ∷ ss) same = elim (Bool-cases (is_verification_subtask s)) [
  | inl yes_it_is ↦
      rw (same s (Memᴰ.head refl), yes_it_is) (rewire-keep dropped ss (λ t m. same t (Memᴰ.tail m)))
  | inr not_it ↦
      rw (same s (Memᴰ.head refl), not_it)
        (ap (λ l. rewired dropped s ∷ l) (rewire-keep dropped ss (λ t m. same t (Memᴰ.tail m))))
]

-- The plan without its verification subtasks, each of the others with its dependencies resolved.
abbrev pub without_verification : List Subtask → List Subtask
without_verification subtasks =
    map (rewired (dropped_from subtasks [])) (keep (λ s. not (is_verification_subtask s)) subtasks)

-- For distinct step numbers: a plan with no verification subtask, or with nothing else, comes back
-- as it is; from any other plan exactly the verification subtasks are taken out, in place, and of
-- the others only the dependencies change.
pub drop_verification_subtasks_lem :
    (subtasks : List Subtask)
    → IsDistinct (steps_of subtasks)
    → drop_verification_subtasks subtasks ≡ (
        if not (any is_verification_subtask subtasks) || all is_verification_subtask subtasks
        then subtasks
        else without_verification subtasks)
unfolding drop_verification_subtasks
drop_verification_subtasks_lem subtasks distinct =
    let size = length-dropped_from subtasks [] distinct (λ k m. refl) in
    let body =
      rewire-keep (dropped_from subtasks []) subtasks
        (λ s m. dict_has-dropped_from subtasks [] s.step ∙ any_here subtasks s distinct m) in
    ground (arith, size, body, verifying-any subtasks, verifying-all subtasks)

keep-nil_all :
    (ss : List Subtask)
    → keep (λ s. not (is_verification_subtask s)) ss ≡ []
    → all is_verification_subtask ss ≡ true
keep-nil_all [] e = refl
keep-nil_all (s ∷ ss) e = ground (arith, keep-nil_all ss)

map-nil : (f : Subtask → Subtask) (ss : List Subtask) → map f ss ≡ [] → ss ≡ []
map-nil f [] e = refl
map-nil f (s ∷ ss) e = absurd (ground arith)

-- No plan with distinct step numbers is emptied.
pub drop_verification_subtasks-ne-nil :
    (subtasks : List Subtask)
    → IsDistinct (steps_of subtasks)
    → subtasks ≢ []
    → drop_verification_subtasks subtasks ≢ []
drop_verification_subtasks-ne-nil subtasks distinct some_left e =
    let same = drop_verification_subtasks_lem subtasks distinct in
    elim (Bool-cases (all is_verification_subtask subtasks)) [
      | inl every ↦ some_left (ground arith)
      | inr not_every ↦ ground (
        arith,
        keep-nil_all subtasks,
        map-nil (rewired (dropped_from subtasks []))
            (keep (λ s. not (is_verification_subtask s)) subtasks),
      )
    ]

-- Two verification subtasks that share a step number are a plan that is emptied: the entries of
-- `dropped` are fewer than the subtasks, so the plan does not count as nothing but verification.
pub drop_verification_subtasks_shared :
    (s t : Subtask)
    → is_verification_subtask s ≡ true
    → is_verification_subtask t ≡ true
    → s.step ≡ t.step
    → drop_verification_subtasks (s ∷ t ∷ []) ≡ []
unfolding drop_verification_subtasks dropped_from rewire
drop_verification_subtasks_shared s t vs vt same =
    rw (vs, vt) (ground (arith, beq_refl s.step, beq_refl t.step))
