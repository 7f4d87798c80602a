-- ===== src/Chain/Graph/Finish.antt =====
-- The order in which the search finishes the steps: each after its dependencies.
use mathlib.Core.Path.{subst}
use taka_ma.Common.{
  ◌≡◌, refl, sym, ap, ◌∙◌, ℕ, zero, suc, Bool, true, false, List, [], ◌∷◌, if◌then◌else◌, contains,
  Dict, dict_get, dict_set, dict_get-dict_set, nat_eq, ◌==◌, nat_beq_iff, or_nil, all, arith,
}
use taka_ma.Chain.Graph.{
  Color, white, gray, black, Colors, color_of, Search, cycle, clear, spent, then_search, at_edge,
  visit_each, visit,
}

abbrev pub is_black : Color → Bool
is_black black = true
is_black _ = false

-- The colors that a search ends with.
abbrev pub colors_in : Search → Colors
colors_in (clear colors) = colors
colors_in _ = []

abbrev pub is_gray : Color → Bool
is_gray gray = true
is_gray _ = false

module _ (graph : Dict ℕ (List ℕ)) where
  abbrev pub next_of : ℕ → List ℕ
  next_of u = or_nil (dict_get graph u)

  -- Each step of the list has all its dependencies behind it.
  abbrev pub IsFinished : List ℕ → Type 0
  IsFinished [] = Unit
  IsFinished (u ∷ order) =
      (contains order u ≡ false) × (all (contains order) (next_of u) ≡ true) × IsFinished order

  -- The black steps are the finished ones.
  pub record Fits (colors : Colors) (order : List ℕ) : Type 0 where
    pub finished : IsFinished order
    pub blacks : (v : ℕ) → is_black (color_of colors v) ≡ contains order v

  -- What a search adds to the order: it keeps what was finished, and the gray steps.
  pub record Grows (colors after : Colors) (order : List ℕ) : Type 0 where
    pub order_after : List ℕ
    pub fits : Fits after order_after
    pub keeps : (v : ℕ) → contains order v ≡ true → contains order_after v ≡ true
    pub grays : (v : ℕ) → is_gray (color_of after v) ≡ is_gray (color_of colors v)

  pub color_of-dict_set :
      (colors : Colors) (u v : ℕ) (c : Color)
      → color_of (dict_set colors u c) v ≡ (if u == v then c else color_of colors v)
  color_of-dict_set colors u v c = ground (arith, dict_get-dict_set colors u v c)

  -- The search from a step keeps the order and finishes the step.
  abbrev pub IsSearch : (ℕ → Colors → Search) → Type 0
  IsSearch search =
      (u : ℕ) (colors after : Colors) (order : List ℕ)
      → color_of colors u ≡ white
      → Fits colors order
      → search u colors ≡ clear after
      → (g : Grows colors after order) × (contains g.order_after u ≡ true)

  abbrev pub Grows-refl :
      (colors : Colors) (order : List ℕ) → Fits colors order → Grows colors colors order
  Grows-refl colors order f = record {
    order_after = order;
    fits = f;
    keeps = λ v h. h;
    grays = λ v. refl;
  }

  Grows-trans :
      (a b c : Colors) (order : List ℕ) (g : Grows a b order)
      → Grows b c g.order_after
      → Grows a c order
  Grows-trans a b c order g h = record {
    order_after = h.order_after;
    fits = h.fits;
    keeps = λ v m. h.keeps v (g.keeps v m);
    grays = λ v. h.grays v ∙ g.grays v;
  }

  visit_each-Grows_nil :
      (colors after : Colors) (order : List ℕ)
      → Fits colors order
      → colors ≡ after
      → (g : Grows colors after order) × (all (contains g.order_after) [] ≡ true)
  visit_each-Grows_nil colors after order f e =
      (subst (λ c. Grows colors c order) e (Grows-refl colors order f), refl)

  all_kept :
      (vs xs ys : List ℕ)
      → ((v : ℕ) → contains xs v ≡ true → contains ys v ≡ true)
      → all (contains xs) vs ≡ true
      → all (contains ys) vs ≡ true
  all_kept [] xs ys keeps h = refl
  all_kept (v ∷ vs) xs ys keeps h = ground (arith, keeps v, all_kept vs xs ys keeps)

  pub all_cons :
      (v : ℕ) (vs order : List ℕ)
      → contains order v ≡ true
      → all (contains order) vs ≡ true
      → all (contains order) (v ∷ vs) ≡ true
  all_cons v vs order a b = ground arith

  -- What the rest of the loop adds, after an edge whose end is finished.
  abbrev IsRest : (ℕ → Colors → Search) → List ℕ → Colors → Type 0
  IsRest trace vs after =
      (colors : Colors) (order : List ℕ)
      → Fits colors order
      → visit_each trace vs colors ≡ clear after
      → (g : Grows colors after order) × (all (contains g.order_after) vs ≡ true)

  visit_each-Grows_next :
      (trace : ℕ → Colors → Search) (v : ℕ) (vs : List ℕ) (colors mid after : Colors)
      (order : List ℕ)
      → IsRest trace vs after
      → (g : Grows colors mid order) → contains g.order_after v ≡ true
      → visit_each trace vs mid ≡ clear after
      → (h : Grows colors after order) × (all (contains h.order_after) (v ∷ vs) ≡ true)
  unfolding Grows-trans
  visit_each-Grows_next trace v vs colors mid after order rest g here e =
      let (more, every) = rest mid g.order_after g.fits e in
      (
        Grows-trans colors mid after order g more,
        all_cons v vs more.order_after (more.keeps v here) every,
      )

  visit_each-Grows_edge :
      (trace : ℕ → Colors → Search) (v : ℕ) (vs : List ℕ) (colors after : Colors) (order : List ℕ)
      → IsSearch trace
      → IsRest trace vs after
      → Fits colors order
      → visit_each trace (v ∷ vs) colors ≡ clear after
      → (g : Grows colors after order) × (all (contains g.order_after) (v ∷ vs) ≡ true)
  visit_each-Grows_edge trace v vs colors after order ok rest f e = go (color_of colors v) refl e
    where
      inner :
          (r : Search)
          → color_of colors v ≡ white
          → trace v colors ≡ r
          → then_search r (visit_each trace vs) ≡ clear after
          → (g : Grows colors after order) × (all (contains g.order_after) (v ∷ vs) ≡ true)
      inner cycle w q h = absurd (ground arith)
      inner spent w q h = absurd (ground arith)
      inner (clear mid) w q h =
          let (g, here) = ok v colors mid order w f q in
          visit_each-Grows_next trace v vs colors mid after order rest g here h

      go :
          (c : Color)
          → color_of colors v ≡ c
          → at_edge c (trace v colors) (visit_each trace vs) colors ≡ clear after
          → (g : Grows colors after order) × (all (contains g.order_after) (v ∷ vs) ≡ true)
      go white w h = inner (trace v colors) w refl h
      go gray w h = absurd (ground arith)
      go black w h =
          visit_each-Grows_next trace v vs colors colors after order rest
            (Grows-refl colors order f) (sym (f.blacks v) ∙ ap is_black w) h

  visit_each-Grows :
      (trace : ℕ → Colors → Search)
      → IsSearch trace
      → (vs : List ℕ) (after : Colors) → IsRest trace vs after
  visit_each-Grows trace ok [] after colors order f e =
      visit_each-Grows_nil colors after order f (ap colors_in e)
  visit_each-Grows trace ok (v ∷ vs) after colors order f e =
      visit_each-Grows_edge trace v vs colors after order ok (visit_each-Grows trace ok vs after) f
        e

  -- Coloring an unfinished step gray finishes nothing.
  pub gray-Fits :
      (u : ℕ) (colors : Colors) (order : List ℕ)
      → color_of colors u ≡ white
      → Fits colors order
      → Fits (dict_set colors u gray) order
  gray-Fits u colors order w f = record {
    finished = f.finished;
    blacks = λ v. ground (
      arith,
      color_of-dict_set colors u v gray,
      f.blacks v,
      f.blacks u,
      nat_beq_iff u v,
      ap (contains order) ((nat_beq_iff u v).0 _),
    );
  }

  -- A gray step whose dependencies are finished may be finished.
  black-Fits :
      (u : ℕ) (colors : Colors) (order : List ℕ)
      → is_gray (color_of colors u) ≡ true
      → Fits colors order
      → all (contains order) (next_of u) ≡ true
      → Fits (dict_set colors u black) (u ∷ order)
  black-Fits u colors order gr f h = record {
    finished = (ground (arith, f.blacks u), h, f.finished);
    blacks = λ v. ground (arith, color_of-dict_set colors u v black, f.blacks v, nat_beq_iff u v);
  }

  visit-Grows :
      (u : ℕ) (colors mid : Colors) (order : List ℕ)
      → color_of colors u ≡ white
      → (g : Grows (dict_set colors u gray) mid order)
      → all (contains g.order_after) (next_of u) ≡ true
      → (h : Grows colors (dict_set mid u black) order) × (contains h.order_after u ≡ true)
  visit-Grows u colors mid order w g every = (
    record {
      order_after = u ∷ g.order_after;
      fits =
          black-Fits u mid g.order_after
            (ground (arith, g.grays u, color_of-dict_set colors u u gray, nat_beq_iff u u)) g.fits
            every;
      keeps = λ v m. ground (arith, g.keeps v m);
      grays = λ v. ground (
        arith,
        g.grays v,
        color_of-dict_set colors u v gray,
        color_of-dict_set mid u v black,
        nat_beq_iff u v,
        ap (color_of colors) ((nat_beq_iff u v).0 _),
      );
    },
    ground (arith, nat_beq_iff u u),
  )

  visit-IsSearch_next :
      (trace : ℕ → Colors → Search)
      → IsSearch trace
      → (u : ℕ) (colors after : Colors) (order : List ℕ) → color_of colors u ≡ white
      → Fits colors order
      → then_search
          (visit_each trace (next_of u) (dict_set colors u gray))
          (λ mid. clear (dict_set mid u black))
        ≡ clear after
      → (g : Grows colors after order) × (contains g.order_after u ≡ true)
  visit-IsSearch_next trace ok u colors after order w f e =
      go (visit_each trace (next_of u) (dict_set colors u gray)) refl e
    where
      go :
          (r : Search)
          → visit_each trace (next_of u) (dict_set colors u gray) ≡ r
          → then_search r (λ mid. clear (dict_set mid u black)) ≡ clear after
          → (g : Grows colors after order) × (contains g.order_after u ≡ true)
      go cycle q h = absurd (ground arith)
      go spent q h = absurd (ground arith)
      go (clear mid) q h =
          let (g, every) =
            visit_each-Grows trace ok (next_of u) mid (dict_set colors u gray) order
              (gray-Fits u colors order w f) q in
          subst (λ c. (g : Grows colors c order) × (contains g.order_after u ≡ true))
            (ap colors_in h) (visit-Grows u colors mid order w g every)

  pub visit-IsSearch : (fuel : ℕ) → IsSearch (visit graph fuel)
  unfolding visit
  visit-IsSearch zero u colors after order w f e = absurd (ground arith)
  visit-IsSearch (suc fuel) u colors after order w f e =
      visit-IsSearch_next (visit graph fuel) (visit-IsSearch fuel) u colors after order w f e
