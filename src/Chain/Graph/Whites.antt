-- ===== src/Chain/Graph/Whites.antt =====
-- The fuel of the search: a round for each step that is not colored yet. With a numbering of the
-- steps, the search finds no cycle.
use taka_ma.Common.{
  beq_refl, ◌≡◌, refl, sym, ap, ◌∙◌, inl, inr, ℕ, zero, suc, ◌≤◌, ◌<◌, Bool, true, false, none,
  List, [], ◌∷◌, if◌then◌else◌, contains, Dict, dict_set, nat_eq, ◌==◌, nat_beq_iff, length, arith,
  Bool-cases,
}
use taka_ma.Chain.Graph.{
  Color, white, gray, black, Colors, color_of, Search, clear, then_search, at_edge, visit_each,
  visit, at_root, search_all,
}
use taka_ma.Chain.Graph.Finish.{
  is_gray, Fits, Grows, gray-Fits, color_of-dict_set, IsSearch, visit-IsSearch, next_of,
}

abbrev pub is_white : Color → Bool
is_white white = true
is_white _ = false

-- How many steps of the list are not colored.
abbrev pub whites : List ℕ → Colors → ℕ
whites [] colors = 0
whites (v ∷ vs) colors =
    if is_white (color_of colors v) then suc (whites vs colors) else whites vs colors

whites-le :
    (vs : List ℕ) (a b : Colors)
    → ((v : ℕ) → is_white (color_of b v) ≡ true → is_white (color_of a v) ≡ true)
    → whites vs b ≤ whites vs a
whites-le [] a b h = omega arith
whites-le (v ∷ vs) a b h = ground (arith, h v, whites-le vs a b h)

whites-lt :
    (vs : List ℕ) (a b : Colors) (u : ℕ)
    → ((v : ℕ) → is_white (color_of b v) ≡ true → is_white (color_of a v) ≡ true)
    → contains vs u ≡ true
    → is_white (color_of a u) ≡ true
    → is_white (color_of b u) ≡ false
    → whites vs b < whites vs a
whites-lt [] a b u h m wa wb = absurd (ground arith)
whites-lt (v ∷ vs) a b u h m wa wb = elim (Bool-cases (v == u)) [
  | inl here ↦ ground (
    arith,
    whites-le vs a b h,
    ap (color_of a) ((nat_beq_iff v u).0 here),
    ap (color_of b) ((nat_beq_iff v u).0 here),
  )
  | inr away ↦ ground (arith, h v, whites-lt vs a b u h)
]

whites-le-length : (vs : List ℕ) (colors : Colors) → whites vs colors ≤ length vs
whites-le-length [] colors = omega arith
whites-le-length (v ∷ vs) colors = ground (arith, whites-le-length vs colors)

module _ (graph : Dict ℕ (List ℕ)) (steps : List ℕ) (rank : ℕ → ℕ) where
  -- Each edge ends at a step, and goes down in the numbering.
  abbrev pub IsDescending : Type 0
  IsDescending =
      (u d : ℕ)
      → contains (next_of graph u) d ≡ true
      → (contains steps d ≡ true) × (rank d < rank u)

  Grows-whites :
      (colors after : Colors) (order : List ℕ)
      → Fits graph colors order
      → Grows graph colors after order
      → (v : ℕ) → is_white (color_of after v) ≡ true
      → is_white (color_of colors v) ≡ true
  Grows-whites colors after order f g v h =
      ground (arith, g.grays v, g.keeps v, g.fits.blacks v, f.blacks v)

  -- Coloring a step gray leaves fewer.
  gray-whites :
      (u : ℕ) (colors : Colors)
      → color_of colors u ≡ white
      → contains steps u ≡ true
      → whites steps (dict_set colors u gray) < whites steps colors
  gray-whites u colors w m =
      whites-lt steps colors (dict_set colors u gray) u
        (λ v. ground (arith, color_of-dict_set graph colors u v gray)) m (ap is_white w)
        (ground (arith, color_of-dict_set graph colors u u gray, beq_refl u))

  -- The steps on the way to here are above it.
  abbrev IsAbove : Colors → ℕ → Type 0
  IsAbove colors r = (v : ℕ) → is_gray (color_of colors v) ≡ true → r ≤ rank v

  abbrev IsSmooth : ℕ → (ℕ → Colors → Search) → Type 0
  IsSmooth fuel trace =
      (u : ℕ) (colors : Colors) (order : List ℕ)
      → color_of colors u ≡ white
      → contains steps u ≡ true
      → Fits graph colors order
      → IsAbove colors (suc (rank u))
      → whites steps colors ≤ fuel
      → (after : Colors) × (trace u colors ≡ clear after)

  visit_each-clear :
      (fuel : ℕ) (trace : ℕ → Colors → Search)
      → IsSearch graph trace
      → IsSmooth fuel trace
      → (r : ℕ) (vs : List ℕ) (colors : Colors) (order : List ℕ)
      → ((v : ℕ) → contains vs v ≡ true → (contains steps v ≡ true) × (rank v < r))
      → Fits graph colors order
      → IsAbove colors r
      → whites steps colors ≤ fuel
      → (after : Colors) × (visit_each trace vs colors ≡ clear after)
  visit_each-clear fuel trace ok smooth r [] colors order low f above few = (colors, refl)
  visit_each-clear fuel trace ok smooth r (v ∷ vs) colors order low f above few =
      go (color_of colors v) refl (visit_each-clear fuel trace ok smooth r vs)
    where
      later : (w : ℕ) → contains vs w ≡ true → (contains steps w ≡ true) × (rank w < r)
      later w m = low w (ground arith)

      first : (contains steps v ≡ true) × (rank v < r)
      first = low v (ground (arith, beq_refl v))

      go :
          (c : Color)
          → color_of colors v ≡ c
          → ((colors : Colors) (order : List ℕ)
              → ((w : ℕ) → contains vs w ≡ true → (contains steps w ≡ true) × (rank w < r))
              → Fits graph colors order
              → IsAbove colors r
              → whites steps colors ≤ fuel
              → (after : Colors) × (visit_each trace vs colors ≡ clear after))
          → (after : Colors) × (at_edge c (trace v colors) (visit_each trace vs) colors
              ≡ clear after)
      go black e rest = rest colors order later f above few
      go gray e rest = absurd (ground (arith, above v, first.1))
      go white e rest =
          let (mid, q) =
            smooth v colors order e first.0 f (λ w h. ground (arith, above w h, first.1)) few in
          let (g, _) = ok v colors mid order e f q in
          let (after, p) =
            rest mid g.order_after later g.fits (λ w h. above w (sym (g.grays w) ∙ h))
              (ground (arith, whites-le steps colors mid (Grows-whites colors mid order f g))) in
          (after, ap (λ s. then_search s (visit_each trace vs)) q ∙ p)

  visit-IsSmooth_next :
      (fuel : ℕ) (trace : ℕ → Colors → Search)
      → IsSearch graph trace
      → IsSmooth fuel trace
      → IsDescending
      → (u : ℕ) (colors : Colors) (order : List ℕ) → color_of colors u ≡ white
      → contains steps u ≡ true
      → Fits graph colors order
      → IsAbove colors (suc (rank u))
      → whites steps colors ≤ suc fuel
      → (after : Colors) × (then_search
            (visit_each trace (next_of graph u) (dict_set colors u gray))
            (λ mid. clear (dict_set mid u black))
          ≡ clear after)
  visit-IsSmooth_next fuel trace ok smooth down u colors order w m f above few =
      let (mid, q) =
        visit_each-clear fuel trace ok smooth (rank u) (next_of graph u) (dict_set colors u gray)
          order (down u) (gray-Fits graph u colors order w f)
          (λ v h. ground (
            arith,
            color_of-dict_set graph colors u v gray,
            above v,
            ap rank ((nat_beq_iff u v).0 _),
          ))
          (ground (arith, gray-whites u colors w m)) in
      (dict_set mid u black, ap (λ s. then_search s (λ mid. clear (dict_set mid u black))) q)

  visit-IsSmooth : (fuel : ℕ) → IsDescending → IsSmooth fuel (visit graph fuel)
  unfolding visit
  visit-IsSmooth zero down u colors order w m f above few =
      absurd (ground (arith, gray-whites u colors w m))
  visit-IsSmooth (suc fuel) down u colors order w m f above few =
      visit-IsSmooth_next fuel (visit graph fuel) (visit-IsSearch graph fuel)
        (visit-IsSmooth fuel down) down u colors order w m f above few

  pub search_all-clear :
      IsDescending
      → (todo : List ℕ) (colors : Colors) (order : List ℕ)
      → ((v : ℕ) → contains todo v ≡ true → contains steps v ≡ true)
      → Fits graph colors order
      → ((v : ℕ) → is_gray (color_of colors v) ≡ false)
      → search_all graph (length steps) todo colors ≡ none
  search_all-clear down [] colors order inside f clean = refl
  search_all-clear down (st ∷ todo) colors order inside f clean =
      go (color_of colors st) refl (search_all-clear down todo)
    where
      later : (v : ℕ) → contains todo v ≡ true → contains steps v ≡ true
      later v m = inside v (ground arith)

      go :
          (c : Color)
          → color_of colors st ≡ c
          → ((colors : Colors) (order : List ℕ)
              → ((v : ℕ) → contains todo v ≡ true → contains steps v ≡ true)
              → Fits graph colors order
              → ((v : ℕ) → is_gray (color_of colors v) ≡ false)
              → search_all graph (length steps) todo colors ≡ none)
          → at_root graph c st
              (visit graph (length steps) st colors)
              (search_all graph (length steps) todo)
              colors
            ≡ none
      go black e rest = rest colors order later f clean
      go gray e rest = rest colors order later f clean
      go white e rest =
          let (after, q) =
            visit-IsSmooth (length steps) down st colors order e
              (inside st (ground (arith, beq_refl st))) f (λ v h. absurd (ground (arith, clean v)))
              (whites-le-length steps colors) in
          let (g, _) = visit-IsSearch graph (length steps) st colors after order e f q in
          ap (λ s. at_root graph white st s (search_all graph (length steps) todo) colors) q
          ∙ rest after g.order_after later g.fits (λ v. g.grays v ∙ clean v)
