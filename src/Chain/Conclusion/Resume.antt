-- ===== src/Chain/Conclusion/Resume.antt =====
-- A plan that is run again after a hold does not run again what was completed.
use mathlib.Core.Path.{subst}
use taka_ma.Common.{
  ◌≡◌, refl, sym, ap, ◌∙◌, ℕ, Bool, true, false, Option, none, some, List, [], ◌∷◌, ◌++◌, ◌||◌, map,
  contains, ◌==◌, Text, Dict, dict_get, dict_set, dict_has, dict_get-dict_set, dict_has-dict_set,
  dict_get_of_has, nat_eq, nat_beq_iff, list_eq, beq_refl, arith, Bool-cases, Option-cases, inl,
  inr,
}
use taka_ma.Plan.Model.{Subtask, deps_of}
use taka_ma.Routing.{Config}
use taka_ma.Chain.Prompt.{Task}
use taka_ma.Chain.Machine.{
  Failure, dependency_failed, missing_result, Future, pending, value, failed, Place, Chain, Request,
  Reaches, begins, moves, answers, Answer, gave, broke, advance, move_from, place_of, unstarted,
  awaiting, at_worker, over, at_start, at_dependency, with_dependency, settle_value, settle_failure,
  move_to, hand_out, request_of, answered,
}
use taka_ma.Chain.Machine.Invariant.{chain_in}
use taka_ma.Chain.Conclusion.{updated}

-- What is kept through a hold: the steps of the executions before, and those with a result.
updated-has :
    (completed results : Dict ℕ Text) (v : ℕ)
    → dict_has (updated completed results) v ≡ (dict_has completed v || dict_has results v)
unfolding updated
updated-has completed [] v = ground arith
updated-has completed ((st, o) ∷ results) v =
    ground
      (arith, updated-has (dict_set completed st o) results v, dict_has-dict_set completed st v o)

abbrev requested : Chain → ℕ → Bool
requested chain v = contains (map (λ r. r.0) chain.requests) v

-- What the coroutine of one step leaves of the others.
record IsLocal (a b : Chain) (st : ℕ) : Type 0 where
  place : (v : ℕ) → (st == v) ≡ false → place_of b v ≡ place_of a v
  result : (v : ℕ) → (st == v) ≡ false → dict_get b.results v ≡ dict_get a.results v
  request : (v : ℕ) → (st == v) ≡ false → requested b v ≡ requested a v

settle_value-IsLocal : (a : Chain) (st : ℕ) (o : Text) → IsLocal a (settle_value st o a) st
settle_value-IsLocal a st o = record {
  place = λ v h. ground (arith, dict_get-dict_set a.places st v over);
  result = λ v h. ground (arith, dict_get-dict_set a.results st v o);
  request = λ v h. refl;
}

settle_failure-IsLocal : (a : Chain) (st : ℕ) (e : Failure) → IsLocal a (settle_failure st e a) st
settle_failure-IsLocal a st e = record {
  place = λ v h. ground (arith, dict_get-dict_set a.places st v over);
  result = λ v h. refl;
  request = λ v h. refl;
}

move_to-IsLocal : (a : Chain) (st : ℕ) (p : Place) → IsLocal a (move_to st p a) st
move_to-IsLocal a st p = record {
  place = λ v h. ground (arith, dict_get-dict_set a.places st v p);
  result = λ v h. refl;
  request = λ v h. refl;
}

hand_out-IsLocal : (a : Chain) (st : ℕ) (r : Request) → IsLocal a (hand_out st r a) st
hand_out-IsLocal a st r = record {
  place = λ v h. ground (arith, dict_get-dict_set a.places st v at_worker);
  result = λ v h. refl;
  request = λ v h. ground arith;
}

answered-IsLocal : (a : Chain) (st : ℕ) (x : Answer) → IsLocal a (answered st x a) st
answered-IsLocal a st (gave o) = settle_value-IsLocal a st o
answered-IsLocal a st (broke e) = settle_failure-IsLocal a st e

module _ (config : Config) (shown : ℕ → Text) (task : Task) where
  at_start-IsLocal :
      (a : Chain) (s : Subtask) (done : Option Text)
      → IsLocal a (at_start config shown task s done a) s.step
  at_start-IsLocal a s (some o) = settle_value-IsLocal a s.step o
  at_start-IsLocal a s none = move_to-IsLocal a s.step (awaiting (deps_of s) [])

  with_dependency-IsLocal :
      (a : Chain) (s : Subtask) (dep : ℕ) (deps : List ℕ) (got : List (ℕ × Text)) (o : Option Text)
      → IsLocal a (with_dependency config shown task s dep deps got o a) s.step
  with_dependency-IsLocal a s dep deps got none =
      settle_failure-IsLocal a s.step (missing_result dep)
  with_dependency-IsLocal a s dep deps got (some o) =
      move_to-IsLocal a s.step (awaiting deps (got ++ ((dep, o) ∷ [])))

  stays-IsLocal : (a : Chain) (st : ℕ) → IsLocal a a st
  stays-IsLocal a st = record { place = λ v h. refl; result = λ v h. refl; request = λ v h. refl }

  at_dependency-IsLocal :
      (a : Chain) (s : Subtask) (dep : ℕ) (deps : List ℕ) (got : List (ℕ × Text))
      (f : Option Future)
      → IsLocal a (chain_in a (at_dependency config shown task s dep deps got f a)) s.step
  at_dependency-IsLocal a s dep deps got none = move_to-IsLocal a s.step (awaiting deps got)
  at_dependency-IsLocal a s dep deps got (some pending) = stays-IsLocal a s.step
  at_dependency-IsLocal a s dep deps got (some (failed x)) =
      settle_failure-IsLocal a s.step (dependency_failed dep)
  at_dependency-IsLocal a s dep deps got (some (value x)) =
      with_dependency-IsLocal a s dep deps got (dict_get a.results dep)

  move_from-IsLocal :
      (a : Chain) (s : Subtask) (p : Place)
      → IsLocal a (chain_in a (move_from config shown task s p a)) s.step
  move_from-IsLocal a s unstarted = at_start-IsLocal a s (dict_get task.completed_steps s.step)
  move_from-IsLocal a s (awaiting [] got) =
      hand_out-IsLocal a s.step (request_of config shown task s got)
  move_from-IsLocal a s (awaiting (dep ∷ deps) got) =
      at_dependency-IsLocal a s dep deps got (dict_get a.futures dep)
  move_from-IsLocal a s at_worker = stays-IsLocal a s.step
  move_from-IsLocal a s over = stays-IsLocal a s.step

  abbrev is_resting : Place → Bool
  is_resting unstarted = true
  is_resting over = true
  is_resting _ = false

  abbrev is_kept : Text → Option Text → Bool
  is_kept o none = true
  is_kept o (some x) = x == o

  -- A completed step is either not begun, or over with its output.
  record IsCompleted (chain : Chain) (v : ℕ) (o : Text) : Type 0 where
    rests : is_resting (place_of chain v) ≡ true
    kept : is_kept o (dict_get chain.results v) ≡ true
    unasked : requested chain v ≡ false

  IsLocal-IsCompleted :
      (a b : Chain) (st v : ℕ) (o : Text)
      → (st == v) ≡ false
      → IsLocal a b st
      → IsCompleted a v o
      → IsCompleted b v o
  IsLocal-IsCompleted a b st v o away l c = record {
    rests = ap is_resting (l.place v away) ∙ c.rests;
    kept = ap (is_kept o) (l.result v away) ∙ c.kept;
    unasked = l.request v away ∙ c.unasked;
  }

  settle_value-IsCompleted :
      (a : Chain) (st v : ℕ) (o : Text)
      → (st == v) ≡ true
      → IsCompleted a v o
      → IsCompleted (settle_value st o a) v o
  settle_value-IsCompleted a st v o here c = record {
    rests = ground (arith, dict_get-dict_set a.places st v over);
    kept = ground (arith, dict_get-dict_set a.results st v o, beq_refl o);
    unasked = c.unasked;
  }

  own-IsCompleted :
      (a : Chain) (s : Subtask) (v : ℕ) (o : Text) (p : Place)
      → (s.step == v) ≡ true
      → dict_get task.completed_steps s.step ≡ some o
      → is_resting p ≡ true
      → IsCompleted a v o
      → IsCompleted (chain_in a (move_from config shown task s p a)) v o
  own-IsCompleted a s v o unstarted here q h c =
      subst (λ x. IsCompleted (at_start config shown task s x a) v o) (sym q)
        (settle_value-IsCompleted a s.step v o here c)
  own-IsCompleted a s v o (awaiting ds got) here q h c = absurd (ground arith)
  own-IsCompleted a s v o at_worker here q h c = absurd (ground arith)
  own-IsCompleted a s v o over here q h c = c

  module _ (subtasks : List Subtask) (v : ℕ) (o : Text)
      (done : dict_get task.completed_steps v ≡ some o) where
    advance-IsCompleted :
        (a : Chain) (s : Subtask)
        → IsCompleted a v o
        → IsCompleted (chain_in a (advance config shown task s a)) v o
    unfolding advance
    advance-IsCompleted a s c = elim (Bool-cases (s.step == v)) [
      | inl here ↦
          let e = (nat_beq_iff s.step v).0 here in
          own-IsCompleted a s v o (place_of a s.step) here
            (ap (dict_get task.completed_steps) e ∙ done)
            (ap (λ x. is_resting (place_of a x)) e ∙ c.rests) c
      | inr away ↦
          IsLocal-IsCompleted a (chain_in a (move_from config shown task s (place_of a s.step) a))
            s.step v o away (move_from-IsLocal a s (place_of a s.step)) c
    ]

    answered-IsCompleted :
        (a : Chain) (s : Subtask) (x : Answer)
        → place_of a s.step ≡ at_worker
        → IsCompleted a v o
        → IsCompleted (answered s.step x a) v o
    answered-IsCompleted a s x e c = elim (Bool-cases (s.step == v)) [
      | inl here ↦ absurd (
          ground (
            arith,
            c.rests,
            ap (λ y. is_resting (place_of a y)) ((nat_beq_iff s.step v).0 here),
            ap is_resting e,
          ))
      | inr away ↦
          IsLocal-IsCompleted a (answered s.step x a) s.step v o away (answered-IsLocal a s.step x)
            c
    ]

    Reaches-IsCompleted :
        {chain : Chain} → Reaches config shown task subtasks chain → IsCompleted chain v o
    Reaches-IsCompleted begins = record { rests = refl; kept = refl; unasked = refl }
    Reaches-IsCompleted (moves {chain} {after} s r m e) =
        subst (λ b. IsCompleted b v o) (ap (chain_in chain) e)
          (advance-IsCompleted chain s (Reaches-IsCompleted r))
    Reaches-IsCompleted (answers {chain} s x r m e) =
        answered-IsCompleted chain s x e (Reaches-IsCompleted r)

-- After a hold, with the steps that were completed before it or have a result: no run of the plan
-- hands such a step to a worker again.
pub updated-unrequested :
    (config : Config) (shown : ℕ → Text) (task : Task) (completed results : Dict ℕ Text)
    (subtasks : List Subtask) (chain : Chain) (v : ℕ)
    → task.completed_steps ≡ updated completed results
    → (dict_has completed v || dict_has results v) ≡ true
    → Reaches config shown task subtasks chain
    → contains (map (λ r. r.0) chain.requests) v ≡ false
updated-unrequested config shown task completed results subtasks chain v e h r =
    let has : dict_has task.completed_steps v ≡ true =
      ap (λ d. dict_has d v) e ∙ updated-has completed results v ∙ h in
    elim (Option-cases (dict_get task.completed_steps v)) [
      | inl absent ↦ absurd (dict_get_of_has task.completed_steps v has absent)
      | inr (o, at) ↦ (Reaches-IsCompleted config shown task subtasks v o at r).unasked
    ]
