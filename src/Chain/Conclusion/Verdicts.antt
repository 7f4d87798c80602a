-- ===== src/Chain/Conclusion/Verdicts.antt =====
-- Which conclusion the execution of a plan comes to.
use mathlib.Core.Path.{subst}
use mathlib.Core.List.{Memᴰ}
use taka_ma.Common.{
  ◌≡◌, ◌≢◌, ◌↔◌, refl, sym, ap, ◌∙◌, ℕ, Bool, true, false, not, Option, none, some, List, [], ◌∷◌,
  keep, contains, Text, Dict, dict_get, dict_set, dict_has, dict_keys, dict_set-IsDistinct,
  dict_has_of_get, dict_get_of_has, nat_eq, nat_beq_iff, beq_refl, arith, Option-cases,
  contains-keep, IsDistinct, inl, inr,
}
use taka_ma.Plan.Model.{Subtask}
use taka_ma.Plan.Waves.{steps_of}
use taka_ma.Plan.Waves.Sources.{contains-steps_of}
use taka_ma.Routing.{Config}
use taka_ma.Chain.Prompt.{Task}
use taka_ma.Chain.Graph.{validate_subtask_graph}
use taka_ma.Chain.Graph.Acyclic.{validate_subtask_graph-IsRanked}
use taka_ma.Chain.Machine.{
  dependency_failed, missing_result, Future, pending, value, failed, Place, Chain, create_futures,
  Reaches, begins, moves, answers, gave, broke, advance, move_from, place_of, unstarted, awaiting,
  at_worker, over, at_start, at_dependency, with_dependency,
}
use taka_ma.Chain.Machine.Progress.{subtask_of}
use taka_ma.Chain.Machine.Invariant.{output_of, IsSound, Reaches-IsSound, chain_in}
use taka_ma.Chain.Conclusion.{
  hold_of, first_hold, updated, held, finished, failed_steps, last_step, after_graph, after_hold,
  after_failed, last_result, or_missing, conclude,
}

abbrev pub hold_in : Option Future → Option Text
hold_in none = none
hold_in (some f) = hold_of f

hold_in-has :
    (d : Dict ℕ Future) (v : ℕ) (id : Text) → hold_in (dict_get d v) ≡ some id → dict_has d v ≡ true
hold_in-has d v id h = elim (Option-cases (dict_get d v)) [
  | inl e ↦ absurd (ground arith)
  | inr (f, e) ↦ dict_has_of_get d v f e
]

hold_in-output : (f : Option Future) (id : Text) → hold_in f ≡ some id → output_of f ≡ none
hold_in-output none id h = refl
hold_in-output (some pending) id h = refl
hold_in-output (some (value o)) id h = absurd (ground arith)
hold_in-output (some (failed e)) id h = refl

hold_of_first :
    (d : Dict ℕ Future) (id : Text)
    → IsDistinct (dict_keys d)
    → first_hold d ≡ some id
    → (v : ℕ) × (hold_in (dict_get d v) ≡ some id)
unfolding first_hold
hold_of_first [] id distinct h = absurd (ground arith)
hold_of_first ((j, f) ∷ d) id distinct h = elim (Option-cases (hold_of f)) [
  | inr (x, e) ↦ (j, ground (arith, beq_refl j))
  | inl e ↦
      let (v, at) = hold_of_first d id distinct.1 (ground arith) in
      (
        v,
        ground (
          arith,
          hold_in-has d v id at,
          nat_beq_iff j v,
          ap (dict_has d) ((nat_beq_iff j v).0 _),
        ),
      )
]

first_hold_of_hold :
    (d : Dict ℕ Future) (v : ℕ) (id : Text) → hold_in (dict_get d v) ≡ some id → first_hold d ≢ none
unfolding first_hold
first_hold_of_hold [] v id h = absurd (ground arith)
first_hold_of_hold ((j, f) ∷ d) v id h = ground (arith, first_hold_of_hold d v id)

keep_none :
    (p : ℕ → Bool) (xs : List ℕ) → ((a : ℕ) → contains xs a ≡ true → p a ≡ false) → keep p xs ≡ []
keep_none p [] h = refl
keep_none p (x ∷ xs) h = ground (arith, h x, beq_refl x, keep_none p xs (λ a m. h a (ground arith)))

last_step-known :
    (ss : List Subtask)
    → ss ≢ []
    → (st : ℕ) × (last_step ss ≡ some st) × (contains (steps_of ss) st ≡ true)
last_step-known [] h = absurd (h refl)
last_step-known (s ∷ []) h = (s.step, refl, ground (arith, beq_refl s.step))
last_step-known (s ∷ t ∷ ss) h =
    let (st, e, m) = last_step-known (t ∷ ss) (λ q. ground arith) in (st, e, ground arith)

module _ (config : Config) (shown : ℕ → Text) (task : Task) (subtasks : List Subtask) where
  create_futures-IsDistinct :
      (ss : List Subtask) (fs : Dict ℕ Future)
      → IsDistinct (dict_keys fs)
      → IsDistinct (dict_keys (create_futures ss fs))
  create_futures-IsDistinct [] fs h = h
  create_futures-IsDistinct (s ∷ ss) fs h =
      create_futures-IsDistinct ss (dict_set fs s.step pending)
        (dict_set-IsDistinct fs s.step pending h)

  abbrev IsKeyed : Chain → Type 0
  IsKeyed chain = IsDistinct (dict_keys chain.futures)

  at_start-IsKeyed :
      (a : Chain) (s : Subtask) (done : Option Text)
      → IsKeyed a
      → IsKeyed (at_start config shown task s done a)
  at_start-IsKeyed a s none h = h
  at_start-IsKeyed a s (some o) h = dict_set-IsDistinct a.futures s.step (value o) h

  with_dependency-IsKeyed :
      (a : Chain) (s : Subtask) (dep : ℕ) (deps : List ℕ) (got : List (ℕ × Text)) (o : Option Text)
      → IsKeyed a
      → IsKeyed (with_dependency config shown task s dep deps got o a)
  with_dependency-IsKeyed a s dep deps got none h =
      dict_set-IsDistinct a.futures s.step (failed (missing_result dep)) h
  with_dependency-IsKeyed a s dep deps got (some o) h = h

  at_dependency-IsKeyed :
      (a : Chain) (s : Subtask) (dep : ℕ) (deps : List ℕ) (got : List (ℕ × Text))
      (f : Option Future)
      → IsKeyed a
      → IsKeyed (chain_in a (at_dependency config shown task s dep deps got f a))
  at_dependency-IsKeyed a s dep deps got none h = h
  at_dependency-IsKeyed a s dep deps got (some pending) h = h
  at_dependency-IsKeyed a s dep deps got (some (failed x)) h =
      dict_set-IsDistinct a.futures s.step (failed (dependency_failed dep)) h
  at_dependency-IsKeyed a s dep deps got (some (value x)) h =
      with_dependency-IsKeyed a s dep deps got (dict_get a.results dep) h

  move_from-IsKeyed :
      (a : Chain) (s : Subtask) (p : Place)
      → IsKeyed a
      → IsKeyed (chain_in a (move_from config shown task s p a))
  move_from-IsKeyed a s unstarted h = at_start-IsKeyed a s (dict_get task.completed_steps s.step) h
  move_from-IsKeyed a s (awaiting [] got) h = h
  move_from-IsKeyed a s (awaiting (dep ∷ deps) got) h =
      at_dependency-IsKeyed a s dep deps got (dict_get a.futures dep) h
  move_from-IsKeyed a s at_worker h = h
  move_from-IsKeyed a s over h = h

  Reaches-IsKeyed : {chain : Chain} → Reaches config shown task subtasks chain → IsKeyed chain
  unfolding advance
  Reaches-IsKeyed begins = create_futures-IsDistinct subtasks [] tt
  Reaches-IsKeyed (moves {chain} {after} s r m e) =
      subst IsKeyed (ap (chain_in chain) e)
        (move_from-IsKeyed chain s (place_of chain s.step) (Reaches-IsKeyed r))
  Reaches-IsKeyed (answers {chain} s (gave o) r m e) =
      dict_set-IsDistinct chain.futures s.step (value o) (Reaches-IsKeyed r)
  Reaches-IsKeyed (answers {chain} s (broke x) r m e) =
      dict_set-IsDistinct chain.futures s.step (failed x) (Reaches-IsKeyed r)

  -- A chain of which each step has its result has no hold.
  first_hold_of_results :
      (chain : Chain)
      → IsSound subtasks chain
      → IsKeyed chain
      → ((s : Subtask) → Memᴰ s subtasks → dict_has chain.results s.step ≡ true)
      → first_hold chain.futures ≡ none
  first_hold_of_results chain ok keyed every = elim (Option-cases (first_hold chain.futures)) [
    | inl e ↦ e
    | inr (id, e) ↦
        let (v, at) = hold_of_first chain.futures id keyed e in
        let (s, m, here) =
          subtask_of subtasks v (sym (ok.there v) ∙ hold_in-has chain.futures v id at) in
        absurd (
          dict_get_of_has chain.results v
            (subst (λ x. dict_has chain.results x ≡ true) here (every s m))
            (sym (ok.agree v) ∙ hold_in-output (dict_get chain.futures v) id at))
  ]

  module _ (lower : Text → Text) (chain : Chain) (completed : Dict ℕ Text) where
    conclude_valid :
        validate_subtask_graph subtasks ≡ none
        → conclude lower shown completed subtasks chain
          ≡ after_hold lower shown (first_hold chain.futures) completed subtasks chain
    unfolding conclude
    conclude_valid valid = ap (λ x. after_graph lower shown x completed subtasks chain) valid

    after_hold-every :
        (hold : Option Text) (missing : List ℕ) (o : Text)
        → failed_steps subtasks chain.results ≡ missing
        → after_hold lower shown hold completed subtasks chain ≡ finished o
        → (s : Subtask) → Memᴰ s subtasks
        → dict_has chain.results s.step ≡ true
    after_hold-every (some id) missing o e h s m = absurd (ground arith)
    after_hold-every none (x ∷ xs) o e h s m =
        absurd (ground (arith, ap (λ xs. after_failed lower shown xs subtasks chain) e))
    after_hold-every none [] o e h s m = ground (
      arith,
      contains-steps_of subtasks s m,
      ap (λ xs. contains xs s.step) e,
      contains-keep (λ st. not (dict_has chain.results st)) (steps_of subtasks) s.step,
    )

    after_failed-finished :
        subtasks ≢ []
        → ((s : Subtask) → Memᴰ s subtasks → dict_has chain.results s.step ≡ true)
        → (o : Text) × (after_failed lower shown
              (failed_steps subtasks chain.results)
              subtasks
              chain
            ≡ finished o)
    after_failed-finished nonempty every =
        let (st, e, m) = last_step-known subtasks nonempty in
        let (s, n, here) = subtask_of subtasks st m in
        elim (Option-cases (dict_get chain.results st)) [
          | inl absent ↦ absurd (
              dict_get_of_has chain.results st
                (subst (λ x. dict_has chain.results x ≡ true) here (every s n)) absent)
          | inr (o, there) ↦ (
            o,
            ap (λ xs. after_failed lower shown xs subtasks chain)
                  (keep_none (λ st. not (dict_has chain.results st)) (steps_of subtasks)
                    (λ a k.
                      let (t, l, at) = subtask_of subtasks a k in
                      ground (arith, subst (λ x. dict_has chain.results x ≡ true) at (every t l))))
                ∙ ap (λ x. last_result x chain.results) e
                ∙ ap (or_missing st) there,
          )
        ]

    -- The execution of a plan of at least one subtask, whose dependencies the checks accept, is
    -- finished exactly if every step has its result.
    pub conclude-finished_iff :
        validate_subtask_graph subtasks ≡ none
        → Reaches config shown task subtasks chain
        → subtasks ≢ []
        → ((o : Text) × (conclude lower shown completed subtasks chain ≡ finished o))
          ↔ ((s : Subtask) → Memᴰ s subtasks → dict_has chain.results s.step ≡ true)
    conclude-finished_iff valid r nonempty =
        let ok =
          Reaches-IsSound subtasks (validate_subtask_graph-IsRanked subtasks valid).0 config shown
            task r in
        (
          λ (o, e).
              after_hold-every (first_hold chain.futures) (failed_steps subtasks chain.results) o
                refl (sym (conclude_valid valid) ∙ e),
          λ every.
              let (o, e) = after_failed-finished nonempty every in
              (
                o,
                conclude_valid valid
                    ∙ ap (λ h. after_hold lower shown h completed subtasks chain)
                        (first_hold_of_results chain ok (Reaches-IsKeyed r) every)
                    ∙ e,
              ),
        )

    -- If the checks accept the plan and the future of some step has a hold, the execution is held,
    -- and keeps the results that there are with those of the executions before.
    pub conclude-held :
        validate_subtask_graph subtasks ≡ none
        → (v : ℕ) (id : Text) → hold_in (dict_get chain.futures v) ≡ some id
        → (first : Text) × (conclude lower shown completed subtasks chain
            ≡ held first (updated completed chain.results))
    conclude-held valid v id h = elim (Option-cases (first_hold chain.futures)) [
      | inl e ↦ absurd (first_hold_of_hold chain.futures v id h e)
      | inr (first, e) ↦ (
        first,
        conclude_valid valid ∙ ap (λ x. after_hold lower shown x completed subtasks chain) e,
      )
    ]
