-- ===== src/Chain/Machine/Invariant.antt =====
-- What holds throughout the execution of a plan: the results and the futures agree, and what is
-- handed out has the results of its dependencies.
use mathlib.Core.Path.{subst}
use mathlib.Core.List.{Memᴰ}
use taka_ma.Common.{
  ◌≡◌, refl, sym, ap, ◌∙◌, ℕ, Bool, true, false, Option, none, some, List, [], ◌∷◌, ◌++◌, ◌||◌, map,
  contains, if◌then◌else◌, ◌==◌, Text, Dict, dict_get, dict_set, dict_has, dict_get-dict_set,
  dict_has-dict_set, dict_has_of_get, dict_get_of_has, ◌⊎◌, nat_eq, nat_beq_iff, arith, Bool-cases,
  contains-keep, IsDistinct, inl, inr,
}
use taka_ma.Plan.Model.{Subtask, deps_of}
use taka_ma.Plan.Waves.{steps_of, effective_deps}
use taka_ma.Plan.Waves.Sources.{contains-steps_of}
use taka_ma.Routing.{Config}
use taka_ma.Chain.Prompt.{Task}
use taka_ma.Chain.Machine.{
  dependency_failed, missing_result, Future, pending, value, failed, Failure, Place, unstarted,
  awaiting, at_worker, over, Chain, place_of, create_futures, settle_value, settle_failure, move_to,
  hand_out, advance, move_from, at_start, at_dependency, with_dependency, request_of, Request, gave,
  broke, Reaches, begins, moves, answers,
}

abbrev pub output_of : Option Future → Option Text
output_of (some (value o)) = some o
output_of _ = none

abbrev pub is_settled : Option Future → Bool
is_settled (some (value o)) = true
is_settled (some (failed e)) = true
is_settled _ = false

abbrev pub is_over : Place → Bool
is_over over = true
is_over _ = false

abbrev pub chain_in : Chain → Option Chain → Chain
chain_in a none = a
chain_in a (some b) = b

pub same_subtask :
    (ss : List Subtask) (s t : Subtask)
    → IsDistinct (steps_of ss)
    → Memᴰ s ss
    → Memᴰ t ss
    → s.step ≡ t.step
    → s ≡ t
same_subtask [] s t distinct m n e = elim m [ ]
same_subtask (x ∷ ss) s t distinct (Memᴰ.head a) (Memᴰ.head b) e = a ∙ sym b
same_subtask (x ∷ ss) s t distinct (Memᴰ.head a) (Memᴰ.tail n) e = absurd (
    ground (
      arith,
      distinct.0,
      contains-steps_of ss t n,
      ap (contains (steps_of ss)) e,
      ap (λ y. contains (steps_of ss) y.step) a,
    ))
same_subtask (x ∷ ss) s t distinct (Memᴰ.tail m) (Memᴰ.head b) e = absurd (
    ground (
      arith,
      distinct.0,
      contains-steps_of ss s m,
      ap (contains (steps_of ss)) e,
      ap (λ y. contains (steps_of ss) y.step) b,
    ))
same_subtask (x ∷ ss) s t distinct (Memᴰ.tail m) (Memᴰ.tail n) e =
    same_subtask ss s t distinct.1 m n e

module _ (subtasks : List Subtask) where
  abbrev known : ℕ → Bool
  known v = contains (steps_of subtasks) v

  -- Each dependency that counts is still to be awaited, or has its result.
  abbrev pub IsCovered : Chain → Subtask → List ℕ → Type 0
  IsCovered chain s ds =
      (d : ℕ)
      → contains (effective_deps s (steps_of subtasks)) d ≡ true
      → (contains ds d || dict_has chain.results d) ≡ true

  abbrev pub IsDue : Chain → Subtask → Place → Type 0
  IsDue chain s (awaiting ds dep_results) =
      ((d : ℕ) → contains ds d ≡ true → contains (deps_of s) d ≡ true) × IsCovered chain s ds
  IsDue chain s _ = Unit

  pub record IsSound (chain : Chain) : Type 0 where
    pub agree : (v : ℕ) → output_of (dict_get chain.futures v) ≡ dict_get chain.results v
    pub there : (v : ℕ) → dict_has chain.futures v ≡ known v
    pub settled : (v : ℕ) → is_settled (dict_get chain.futures v) ≡ is_over (place_of chain v)
    pub due : (s : Subtask) → Memᴰ s subtasks → IsDue chain s (place_of chain s.step)
    pub asked :
        (s : Subtask)
        → Memᴰ s subtasks
        → contains (map (λ r. r.0) chain.requests) s.step ≡ true
        → IsCovered chain s []

  IsCovered-grows :
      (a b : Chain) (s : Subtask) (ds : List ℕ)
      → ((v : ℕ) → dict_has a.results v ≡ true → dict_has b.results v ≡ true)
      → IsCovered a s ds
      → IsCovered b s ds
  IsCovered-grows a b s ds keeps h d m = ground (arith, keeps d, h d m)

  IsDue-grows :
      (a b : Chain) (s : Subtask) (p : Place)
      → ((v : ℕ) → dict_has a.results v ≡ true → dict_has b.results v ≡ true)
      → IsDue a s p
      → IsDue b s p
  IsDue-grows a b s unstarted keeps h = tt
  IsDue-grows a b s (awaiting ds dep_results) keeps (inside, h) =
      (inside, IsCovered-grows a b s ds keeps h)
  IsDue-grows a b s at_worker keeps h = tt
  IsDue-grows a b s over keeps h = tt

  module _ (distinct : IsDistinct (steps_of subtasks)) where
    -- A change that one coroutine makes.
    record IsChange (a b : Chain) (s : Subtask) (p : Place) : Type 0 where
      at : Memᴰ s subtasks
      moved : (v : ℕ) → place_of b v ≡ (if s.step == v then p else place_of a v)
      grows : (v : ℕ) → dict_has a.results v ≡ true → dict_has b.results v ≡ true
      agree : (v : ℕ) → output_of (dict_get b.futures v) ≡ dict_get b.results v
      there : (v : ℕ) → dict_has b.futures v ≡ known v
      settled : (v : ℕ) → is_settled (dict_get b.futures v) ≡ is_over (place_of b v)
      due : IsDue b s p
      asks :
          (v : ℕ)
          → contains (map (λ r. r.0) b.requests) v ≡ true
          → (contains (map (λ r. r.0) a.requests) v ≡ true) ⊎ ((s.step ≡ v) × IsCovered b s [])

    IsChange-IsDue :
        (a b : Chain) (s t : Subtask) (p : Place)
        → IsSound a
        → IsChange a b s p
        → Memᴰ t subtasks
        → IsDue b t (place_of b t.step)
    IsChange-IsDue a b s t p ok c m = elim (Bool-cases (s.step == t.step)) [
      | inl here ↦
          let same =
            same_subtask subtasks s t distinct c.at m ((nat_beq_iff s.step t.step).0 here) in
          subst (IsDue b t)
            (sym (c.moved t.step ∙ ap (λ x. if x then p else place_of a t.step) here))
            (subst (λ x. IsDue b x p) same c.due)
      | inr away ↦
          subst (IsDue b t)
            (sym (c.moved t.step ∙ ap (λ x. if x then p else place_of a t.step) away))
            (IsDue-grows a b t (place_of a t.step) c.grows (ok.due t m))
    ]

    IsChange-asked :
        (a b : Chain) (s t : Subtask) (p : Place)
        → IsSound a
        → IsChange a b s p
        → Memᴰ t subtasks
        → contains (map (λ r. r.0) b.requests) t.step ≡ true
        → IsCovered b t []
    IsChange-asked a b s t p ok c m h = elim (c.asks t.step h) [
      | inl old ↦ IsCovered-grows a b t [] c.grows (ok.asked t m old)
      | inr (e, covered) ↦
          subst (λ x. IsCovered b x []) (same_subtask subtasks s t distinct c.at m e) covered
    ]

    IsChange-IsSound :
        (a b : Chain) (s : Subtask) (p : Place) → IsSound a → IsChange a b s p → IsSound b
    IsChange-IsSound a b s p ok c = record {
      agree = c.agree;
      there = c.there;
      settled = c.settled;
      due = λ t m. IsChange-IsDue a b s t p ok c m;
      asked = λ t m h. IsChange-asked a b s t p ok c m h;
    }

    -- The four changes of a coroutine that is not over.
    settle_value-IsSound :
        (a : Chain) (s : Subtask) (o : Text)
        → IsSound a
        → Memᴰ s subtasks
        → IsSound (settle_value s.step o a)
    settle_value-IsSound a s o ok m =
        IsChange-IsSound a (settle_value s.step o a) s over ok (record {
          at = m;
          moved = λ v. ground (arith, dict_get-dict_set a.places s.step v over);
          grows = λ v h. ground (arith, dict_has-dict_set a.results s.step v o);
          agree = λ v. ground (
            arith,
            dict_get-dict_set a.results s.step v o,
            dict_get-dict_set a.futures s.step v (value o),
            ok.agree v,
          );
          there = λ v. ground (
            arith,
            dict_has-dict_set a.futures s.step v (value o),
            ok.there v,
            contains-steps_of subtasks s m,
            ap known ((nat_beq_iff s.step v).0 _),
          );
          settled = λ v. ground (
            arith,
            dict_get-dict_set a.places s.step v over,
            dict_get-dict_set a.futures s.step v (value o),
            ok.settled v,
          );
          due = tt;
          asks = λ v h. inl h;
        })

    settle_failure-IsSound :
        (a : Chain) (s : Subtask) (e : Failure)
        → IsSound a
        → Memᴰ s subtasks
        → is_over (place_of a s.step) ≡ false
        → IsSound (settle_failure s.step e a)
    settle_failure-IsSound a s e ok m active =
        IsChange-IsSound a (settle_failure s.step e a) s over ok (record {
          at = m;
          moved = λ v. ground (arith, dict_get-dict_set a.places s.step v over);
          grows = λ v h. h;
          agree = λ v. ground (
            arith,
            dict_get-dict_set a.futures s.step v (failed e),
            ok.agree v,
            ok.settled v,
            ap (λ x. is_over (place_of a x)) ((nat_beq_iff s.step v).0 _),
          );
          there = λ v. ground (
            arith,
            dict_has-dict_set a.futures s.step v (failed e),
            ok.there v,
            contains-steps_of subtasks s m,
            ap known ((nat_beq_iff s.step v).0 _),
          );
          settled = λ v. ground (
            arith,
            dict_get-dict_set a.places s.step v over,
            dict_get-dict_set a.futures s.step v (failed e),
            ok.settled v,
          );
          due = tt;
          asks = λ v h. inl h;
        })

    move_to-IsSound :
        (a : Chain) (s : Subtask) (p : Place)
        → IsSound a
        → Memᴰ s subtasks
        → is_over (place_of a s.step) ≡ false
        → is_over p ≡ false
        → IsDue a s p
        → IsSound (move_to s.step p a)
    move_to-IsSound a s p ok m active later due =
        IsChange-IsSound a (move_to s.step p a) s p ok (record {
          at = m;
          moved = λ v. ground (arith, dict_get-dict_set a.places s.step v p);
          grows = λ v h. h;
          agree = ok.agree;
          there = ok.there;
          settled = λ v. ground (
            arith,
            dict_get-dict_set a.places s.step v p,
            ok.settled v,
            ap (λ x. is_over (place_of a x)) ((nat_beq_iff s.step v).0 _),
          );
          due = IsDue-grows a (move_to s.step p a) s p (λ v h. h) due;
          asks = λ v h. inl h;
        })

    hand_out-IsSound :
        (a : Chain) (s : Subtask) (r : Request)
        → IsSound a
        → Memᴰ s subtasks
        → is_over (place_of a s.step) ≡ false
        → IsCovered a s []
        → IsSound (hand_out s.step r a)
    hand_out-IsSound a s r ok m active covered =
        IsChange-IsSound a (hand_out s.step r a) s at_worker ok (record {
          at = m;
          moved = λ v. ground (arith, dict_get-dict_set a.places s.step v at_worker);
          grows = λ v h. h;
          agree = ok.agree;
          there = ok.there;
          settled = λ v. ground (
            arith,
            dict_get-dict_set a.places s.step v at_worker,
            ok.settled v,
            ap (λ x. is_over (place_of a x)) ((nat_beq_iff s.step v).0 _),
          );
          due = tt;
          asks = λ v h. elim (Bool-cases (s.step == v)) [
            | inl here ↦ inr ((nat_beq_iff s.step v).0 here, covered)
            | inr away ↦ inl (ground arith)
          ];
        })

    -- A move past a dependency.
    skipped-IsDue :
        (a : Chain) (s : Subtask) (dep : ℕ) (deps : List ℕ) (before after : List (ℕ × Text))
        → (contains (effective_deps s (steps_of subtasks)) dep ≡ true
            → dict_has a.results dep ≡ true)
        → IsDue a s (awaiting (dep ∷ deps) before)
        → IsDue a s (awaiting deps after)
    skipped-IsDue a s dep deps before after had (inside, covered) = (
      λ d h. inside d (ground arith),
      λ d h. ground (
        arith,
        covered d h,
        had,
        ap (contains (effective_deps s (steps_of subtasks))) ((nat_beq_iff dep d).0 _),
        ap (dict_has a.results) ((nat_beq_iff dep d).0 _),
      ),
    )

    module _ (config : Config) (shown : ℕ → Text) (task : Task) where
      at_start-IsSound :
          (a : Chain) (s : Subtask) (done : Option Text)
          → IsSound a
          → Memᴰ s subtasks
          → is_over (place_of a s.step) ≡ false
          → IsSound (at_start config shown task s done a)
      unfolding effective_deps
      at_start-IsSound a s (some o) ok m active = settle_value-IsSound a s o ok m
      at_start-IsSound a s none ok m active =
          move_to-IsSound a s (awaiting (deps_of s) []) ok m active refl
            (λ d h. h, λ d h. ground (arith, contains-keep (known) (deps_of s) d))

      dict_has_get : (d : Dict ℕ Future) (k : ℕ) → dict_get d k ≡ none → dict_has d k ≡ false
      dict_has_get d k e = elim (Bool-cases (dict_has d k)) [
        | inl h ↦ absurd (dict_get_of_has d k h e)
        | inr h ↦ h
      ]

      at_dependency-IsSound :
          (a b : Chain) (s : Subtask) (dep : ℕ) (deps : List ℕ) (got : List (ℕ × Text))
          (f : Option Future) (o : Option Text)
          → IsSound a
          → Memᴰ s subtasks
          → is_over (place_of a s.step) ≡ false
          → IsDue a s (awaiting (dep ∷ deps) got)
          → dict_get a.futures dep ≡ f
          → dict_get a.results dep ≡ o
          → at_dependency config shown task s dep deps got f a ≡ some b
          → IsSound b
      unfolding effective_deps
      at_dependency-IsSound a b s dep deps got none o ok m active due e q h =
          subst IsSound (ap (chain_in a) h) (
            move_to-IsSound a s (awaiting deps got) ok m active refl (
              skipped-IsDue a s dep deps got got
                (λ k. absurd (
                  ground (
                    arith,
                    ok.there dep,
                    contains-keep known (deps_of s) dep,
                    dict_has_get a.futures dep,
                  )))
                due))
      at_dependency-IsSound a b s dep deps got (some pending) o ok m active due e q h =
          absurd (ground arith)
      at_dependency-IsSound a b s dep deps got (some (failed x)) o ok m active due e q h =
          subst IsSound (ap (chain_in a) h)
            (settle_failure-IsSound a s (dependency_failed dep) ok m active)
      at_dependency-IsSound a b s dep deps got (some (value x)) none ok m active due e q h =
          subst IsSound
            (sym (ap (λ r. with_dependency config shown task s dep deps got r a) q)
              ∙ ap (chain_in a) h)
            (settle_failure-IsSound a s (missing_result dep) ok m active)
      at_dependency-IsSound a b s dep deps got (some (value x)) (some o) ok m active due e q h =
          subst IsSound
            (sym (ap (λ r. with_dependency config shown task s dep deps got r a) q)
              ∙ ap (chain_in a) h)
            (move_to-IsSound a s (awaiting deps (got ++ ((dep, o) ∷ []))) ok m active refl (
              skipped-IsDue a s dep deps got (got ++ ((dep, o) ∷ []))
                (λ k. dict_has_of_get a.results dep o q) due))

      move_from-IsSound :
          (a b : Chain) (s : Subtask) (p : Place)
          → IsSound a
          → Memᴰ s subtasks
          → place_of a s.step ≡ p
          → move_from config shown task s p a ≡ some b
          → IsSound b
      move_from-IsSound a b s unstarted ok m e h =
          subst IsSound (ap (chain_in a) h)
            (at_start-IsSound a s (dict_get task.completed_steps s.step) ok m (ap is_over e))
      move_from-IsSound a b s (awaiting [] got) ok m e h = subst IsSound (ap (chain_in a) h) (
          hand_out-IsSound a s (request_of config shown task s got) ok m (ap is_over e)
            (subst (IsDue a s) e (ok.due s m)).1)
      move_from-IsSound a b s (awaiting (dep ∷ deps) got) ok m e h =
          at_dependency-IsSound a b s dep deps got (dict_get a.futures dep) (dict_get a.results dep)
            ok m (ap is_over e) (subst (IsDue a s) e (ok.due s m)) refl refl h
      move_from-IsSound a b s at_worker ok m e h = absurd (ground arith)
      move_from-IsSound a b s over ok m e h = absurd (ground arith)

      create_futures-get :
          (ss : List Subtask) (fs : Dict ℕ Future) (v : ℕ)
          → (is_settled (dict_get fs v) ≡ false)
          → (is_settled (dict_get (create_futures ss fs) v) ≡ false)
      create_futures-get [] fs v h = h
      create_futures-get (s ∷ ss) fs v h =
          create_futures-get ss (dict_set fs s.step pending) v
            (ground (arith, dict_get-dict_set fs s.step v pending))

      create_futures-has :
          (ss : List Subtask) (fs : Dict ℕ Future) (v : ℕ)
          → dict_has (create_futures ss fs) v ≡ (dict_has fs v || contains (steps_of ss) v)
      create_futures-has [] fs v = ground arith
      create_futures-has (s ∷ ss) fs v = ground (
        arith,
        create_futures-has ss (dict_set fs s.step pending) v,
        dict_has-dict_set fs s.step v pending,
      )

      -- In every run of a plan with distinct step numbers the results and the futures agree, and a
      -- step is handed to a worker only when each dependency that counts has its result.
      pub Reaches-IsSound :
          {chain : Chain} → Reaches config shown task subtasks chain → IsSound chain
      unfolding advance
      Reaches-IsSound begins = record {
        agree = λ v. ground (arith, create_futures-get subtasks [] v refl);
        there = λ v. create_futures-has subtasks [] v;
        settled = λ v. create_futures-get subtasks [] v refl;
        due = λ s m. tt;
        asked = λ s m h. absurd (ground arith);
      }
      Reaches-IsSound (moves {chain} {after} s r m e) =
          move_from-IsSound chain after s (place_of chain s.step) (Reaches-IsSound r) m refl e
      Reaches-IsSound (answers {chain} s (gave o) r m e) =
          settle_value-IsSound chain s o (Reaches-IsSound r) m
      Reaches-IsSound (answers {chain} s (broke x) r m e) =
          settle_failure-IsSound chain s x (Reaches-IsSound r) m (ap is_over e)
