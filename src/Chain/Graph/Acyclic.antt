-- ===== src/Chain/Graph/Acyclic.antt =====
-- What a plan is that the checks on its dependencies accept.
use mathlib.Core.Path.{subst}
use mathlib.Core.List.{Memᴰ}
use taka_ma.Common.{
  beq_refl, ◌≡◌, refl, sym, ap, ◌∙◌, inl, inr, ℕ, suc, ◌≤◌, ◌<◌, true, false, Option, none, some,
  List, [], ◌∷◌, if◌then◌else◌, contains, Dict, dict_get, nat_eq, ◌==◌, nat_beq_iff, length, or_nil,
  all, arith, Bool-cases, all-contains, IsDistinct, beq_of_absent, contains-keep, Option-cases, ◌↔◌,
}
use taka_ma.Plan.Model.{Subtask, deps_of}
use taka_ma.Plan.Waves.{steps_of, effective_deps, remaining_from, compute_waves}
use taka_ma.Plan.Waves.Sources.{entry_source, dict_get-remaining_from, contains-steps_of}
use taka_ma.Plan.Waves.Loop.{OnWaves}
use taka_ma.Plan.Waves.Layers.{IsRanked, wave_number, compute_waves-order}
use taka_ma.Chain.Graph.{
  Color, white, gray, black, Colors, color_of, Search, cycle, clear, spent, visit, at_root,
  search_all, dups_from, first_self, after_dups, validate_subtask_graph,
}
use taka_ma.Chain.Graph.Whites.{IsDescending, search_all-clear}
use taka_ma.Chain.Graph.Finish.{
  all_cons, Grows-refl, is_black, is_gray, IsFinished, Fits, Grows, visit-IsSearch, next_of,
}

-- How early the search finishes a step: those finished first are lowest.
abbrev pub finish_rank : List ℕ → ℕ → ℕ
finish_rank [] v = 0
finish_rank (u ∷ order) v = if u == v then suc (length order) else finish_rank order v

finish_rank-le : (order : List ℕ) (v : ℕ) → finish_rank order v ≤ length order
finish_rank-le [] v = omega arith
finish_rank-le (u ∷ order) v = ground (arith, finish_rank-le order v)

module _ (graph : Dict ℕ (List ℕ)) where
  finished_closed :
      (order : List ℕ) (u d : ℕ)
      → IsFinished graph order
      → contains order u ≡ true
      → contains (next_of graph u) d ≡ true
      → contains order d ≡ true
  finished_closed [] u d f h m = absurd (ground arith)
  finished_closed (w ∷ order) u d (fresh, behind, f) h m = elim (Bool-cases (w == u)) [
    | inl here ↦ ground (
      arith,
      all-contains (contains order) (next_of graph u) d
          (subst (λ x. all (contains order) (next_of graph x) ≡ true) ((nat_beq_iff w u).0 here)
            behind)
          m,
    )
    | inr away ↦ ground (arith, finished_closed order u d f (ground arith) m)
  ]

  finish_rank-lt :
      (order : List ℕ) (u d : ℕ)
      → IsFinished graph order
      → contains order u ≡ true
      → contains (next_of graph u) d ≡ true
      → finish_rank order d < finish_rank order u
  finish_rank-lt [] u d f h m = absurd (ground arith)
  finish_rank-lt (w ∷ order) u d (fresh, behind, f) h m = elim (Bool-cases (w == u)) [
    | inl here ↦
        let at : contains order d ≡ true =
          all-contains (contains order) (next_of graph u) d
            (subst (λ x. all (contains order) (next_of graph x) ≡ true) ((nat_beq_iff w u).0 here)
              behind)
            m in
        ground (arith, finish_rank-le order d, beq_of_absent order w d fresh at)
    | inr away ↦
        let within : contains order u ≡ true = ground arith in
        let at = finished_closed order u d f within m in
        ground (arith, finish_rank-lt order u d f within m, beq_of_absent order w d fresh at)
  ]

  -- What the loop over all steps leaves, if it finds no cycle.
  abbrev IsSearched : List ℕ → List ℕ → Type 0
  IsSearched order steps =
      (done : List ℕ) × IsFinished graph done
      × ((v : ℕ) → contains order v ≡ true → contains done v ≡ true)
      × (all (contains done) steps ≡ true)

  -- The rest of the loop, from the colors that the search from a step leaves.
  abbrev IsRest : ℕ → List ℕ → Type 0
  IsRest fuel steps =
      (colors : Colors) (order : List ℕ)
      → Fits graph colors order
      → ((v : ℕ) → is_gray (color_of colors v) ≡ false)
      → search_all graph fuel steps colors ≡ none
      → IsSearched order steps

  search_all-IsSearched_next :
      (fuel st : ℕ) (steps : List ℕ) (colors after : Colors) (order : List ℕ)
      → IsRest fuel steps
      → ((v : ℕ) → is_gray (color_of colors v) ≡ false)
      → (g : Grows graph colors after order) → contains g.order_after st ≡ true
      → search_all graph fuel steps after ≡ none
      → IsSearched order (st ∷ steps)
  search_all-IsSearched_next fuel st steps colors after order rest clean g here e =
      let (done, f, keeps, every) = rest after g.order_after g.fits (λ v. g.grays v ∙ clean v) e in
      (done, f, λ v m. keeps v (g.keeps v m), all_cons graph st steps done (keeps st here) every)

  search_all-IsSearched_root :
      (fuel st : ℕ) (steps : List ℕ) (colors : Colors) (order : List ℕ)
      → IsRest fuel steps
      → Fits graph colors order
      → ((v : ℕ) → is_gray (color_of colors v) ≡ false)
      → search_all graph fuel (st ∷ steps) colors ≡ none
      → IsSearched order (st ∷ steps)
  search_all-IsSearched_root fuel st steps colors order rest f clean e =
      go (color_of colors st) (visit graph fuel st colors) refl refl e
    where
      go :
          (c : Color) (r : Search)
          → color_of colors st ≡ c
          → visit graph fuel st colors ≡ r
          → at_root graph c st r (search_all graph fuel steps) colors ≡ none
          → IsSearched order (st ∷ steps)
      go white (clear after) w q h =
          let (g, here) = visit-IsSearch graph fuel st colors after order w f q in
          search_all-IsSearched_next fuel st steps colors after order rest clean g here h
      go white cycle w q h = absurd (ground arith)
      go white spent w q h = absurd (ground arith)
      go gray r w q h = absurd (ground (arith, clean st))
      go black r w q h =
          search_all-IsSearched_next fuel st steps colors colors order rest clean
            (Grows-refl graph colors order f) (sym (f.blacks st) ∙ ap is_black w) h

  search_all-IsSearched : (fuel : ℕ) (steps : List ℕ) → IsRest fuel steps
  search_all-IsSearched fuel [] colors order f clean e = (order, f.finished, λ v m. m, refl)
  search_all-IsSearched fuel (st ∷ steps) colors order f clean e =
      search_all-IsSearched_root fuel st steps colors order (search_all-IsSearched fuel steps) f
        clean e

-- The tests before the search.
distinct_of_dups :
    (seen dups steps : List ℕ)
    → dups_from seen dups steps ≡ []
    → (dups ≡ []) × IsDistinct steps × ((v : ℕ) → contains seen v ≡ true → contains steps v ≡ false)
distinct_of_dups seen dups [] e = (e, tt, λ v m. refl)
distinct_of_dups seen dups (st ∷ steps) e =
    let (h, distinct, apart) =
      distinct_of_dups (st ∷ seen)
        (if contains seen st then (if contains dups st then dups else st ∷ dups) else dups) steps
        e in
    elim (Bool-cases (contains seen st)) [
      | inl m ↦ elim (Bool-cases (contains dups st)) [
        | inl n ↦ absurd (ground (arith, ap (λ xs. contains xs st) h))
        | inr n ↦ absurd (ground arith)
      ]
      | inr m ↦ (
        ground arith,
        (ground (arith, beq_refl st, apart st), distinct),
        λ v at. ground (arith, apart v, beq_of_absent seen st v m at),
      )
    ]

search_all-IsRanked :
    (subtasks : List Subtask)
    → IsDistinct (steps_of subtasks)
    → search_all
        (remaining_from (steps_of subtasks) subtasks [])
        (length (steps_of subtasks))
        (steps_of subtasks)
        []
      ≡ none
    → (rank : ℕ → ℕ) × IsRanked rank subtasks
search_all-IsRanked subtasks distinct e =
    let steps = steps_of subtasks in
    let graph = remaining_from steps subtasks [] in
    let (done, f, _, every) =
      search_all-IsSearched graph (length steps) steps [] []
        (record { finished = tt; blacks = λ v. refl }) (λ v. refl) e in
    (
      finish_rank done,
      λ s d m h.
          finish_rank-lt graph done s.step d f
            (all-contains (contains done) steps s.step every (contains-steps_of subtasks s m))
            (subst (λ o. contains (or_nil o) d ≡ true)
              (sym (dict_get-remaining_from steps subtasks [] s distinct m)) h),
    )

-- The checks accept only a plan whose step numbers are distinct, and whose dependencies have no
-- cycle: some numbering puts each dependency that counts below its step.
pub validate_subtask_graph-IsRanked :
    (subtasks : List Subtask)
    → validate_subtask_graph subtasks ≡ none
    → IsDistinct (steps_of subtasks) × ((rank : ℕ → ℕ) × IsRanked rank subtasks)
unfolding validate_subtask_graph
validate_subtask_graph-IsRanked subtasks e =
    go (dups_from [] [] (steps_of subtasks)) (first_self subtasks) refl refl e
  where
    go :
        (dups : List ℕ) (own : Option ℕ)
        → dups_from [] [] (steps_of subtasks) ≡ dups
        → first_self subtasks ≡ own
        → after_dups dups subtasks ≡ none
        → IsDistinct (steps_of subtasks) × ((rank : ℕ → ℕ) × IsRanked rank subtasks)
    go (st ∷ dups) own p q h = absurd (ground arith)
    go [] (some st) p q h = absurd (ground arith)
    go [] none p q h =
        let distinct = (distinct_of_dups [] [] (steps_of subtasks) p).1 in
        (distinct, search_all-IsRanked subtasks distinct (ground arith))

dups_of_distinct :
    (seen steps : List ℕ)
    → IsDistinct steps
    → ((v : ℕ) → contains seen v ≡ true → contains steps v ≡ false)
    → dups_from seen [] steps ≡ []
dups_of_distinct seen [] distinct apart = refl
dups_of_distinct seen (st ∷ steps) (fresh, distinct) apart =
    let more = dups_of_distinct (st ∷ seen) steps distinct (λ v m. elim (Bool-cases (st == v)) [
      | inl here ↦ subst (λ x. contains steps x ≡ false) ((nat_beq_iff st v).0 here) fresh
      | inr away ↦ ground (arith, apart v)
    ]) in
    ground (arith, beq_refl st, apart st, more)

first_self_of_ranked :
    (rank : ℕ → ℕ) (step_set : List ℕ) (subtasks : List Subtask)
    → ((s : Subtask) → Memᴰ s subtasks → contains step_set s.step ≡ true)
    → ((s : Subtask) (d : ℕ)
        → Memᴰ s subtasks
        → contains (effective_deps s step_set) d ≡ true
        → rank d < rank s.step)
    → first_self subtasks ≡ none
unfolding effective_deps
first_self_of_ranked rank step_set [] inside ranked = refl
first_self_of_ranked rank step_set (s ∷ subtasks) inside ranked =
    let more =
      first_self_of_ranked rank step_set subtasks (λ t m. inside t (Memᴰ.tail m))
        (λ t d m. ranked t d (Memᴰ.tail m)) in
    ground (
      arith,
      more,
      inside s (Memᴰ.head refl),
      ranked s s.step (Memᴰ.head refl),
      contains-keep (contains step_set) (deps_of s) s.step,
    )

descending_of_ranked :
    (rank : ℕ → ℕ) (subtasks : List Subtask)
    → IsRanked rank subtasks
    → IsDescending (remaining_from (steps_of subtasks) subtasks []) (steps_of subtasks) rank
unfolding effective_deps
descending_of_ranked rank subtasks ranked u d m =
    let steps = steps_of subtasks in
    elim (Option-cases (dict_get (remaining_from steps subtasks []) u)) [
      | inl absent ↦ absurd (ground arith)
      | inr (ds, e) ↦ elim (entry_source steps subtasks [] u ds e) [
        | inl start ↦ absurd (ground arith)
        | inr (s, at, here, same) ↦
            let mem : contains (effective_deps s steps) d ≡ true =
              sym (ap (λ o. contains (or_nil o) d) e ∙ ap (λ xs. contains xs d) same) ∙ m in
            (
              ground (arith, contains-keep (contains steps) (deps_of s) d, mem),
              subst (λ x. rank d < rank x) here (ranked s d at mem),
            )
      ]
    ]

-- The checks before a plan is run accept it exactly if its step numbers are distinct and its
-- dependencies have no cycle: some numbering puts each dependency that counts below its step.
pub validate_subtask_graph_iff :
    (subtasks : List Subtask)
    → (validate_subtask_graph subtasks ≡ none)
      ↔ (IsDistinct (steps_of subtasks) × ((rank : ℕ → ℕ) × IsRanked rank subtasks))
unfolding validate_subtask_graph
validate_subtask_graph_iff subtasks = (
  validate_subtask_graph-IsRanked subtasks,
  λ (distinct, (rank, ranked)).
      let steps = steps_of subtasks in
      ground (
        arith,
        dups_of_distinct [] steps distinct (λ v m. absurd (ground arith)),
        first_self_of_ranked rank steps subtasks (contains-steps_of subtasks) ranked,
        search_all-clear (remaining_from steps subtasks []) steps rank
            (descending_of_ranked rank subtasks ranked) steps [] [] (λ v m. m)
            (record { finished = tt; blacks = λ v. refl }) (λ v. refl),
      ),
)

-- In the waves of a plan that the checks accept, each dependency that counts stands in an earlier
-- wave than its step.
pub compute_waves-validated :
    (subtasks : List Subtask)
    → validate_subtask_graph subtasks ≡ none
    → OnWaves
        (λ ws.
          (s : Subtask) (x : ℕ)
          → Memᴰ s subtasks
          → contains (effective_deps s (steps_of subtasks)) x ≡ true
          → wave_number ws x < wave_number ws s.step)
        (compute_waves subtasks)
compute_waves-validated subtasks e =
    let (distinct, (rank, ranked)) = validate_subtask_graph-IsRanked subtasks e in
    compute_waves-order rank subtasks distinct ranked
