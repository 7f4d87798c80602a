-- ===== src/Approval/Safety/Found.antt =====
-- Where the safety check finds a rule.
use mathlib.Core.Path.{subst}
use taka_ma.Common.{
  ◌↔◌, ◌≡◌, refl, sym, ap, inl, inr, ℕ, Bool, true, false, ◌&&◌, Option, none, some, [], ◌∷◌, ◌++◌,
  Text, CharTable, arith, Bool-cases, head?,
}
use taka_ma.Approval.Safety.{found, ends_here, is_open}

-- The last character in front of a position.
abbrev last_before : Option ℕ → Text → Option ℕ
last_before before [] = before
last_before before (c ∷ cs) = last_before (some c) cs

-- The rule letter by letter.
abbrev is_same : CharTable → Text → Text → Bool
is_same t [] [] = true
is_same t (r ∷ rs) (c ∷ cs) = t.same_letter r c && is_same t rs cs
is_same t _ _ = false

module _ (t : CharTable) where
  -- The rule stands in the text as a word of its own.
  pub record StandsIn (before : Option ℕ) (text rule : Text) : Type 0 where
    pub front : Text
    pub word : Text
    pub back : Text
    pub parts : text ≡ front ++ (word ++ back)
    pub same : is_same t rule word ≡ true
    pub open_front : is_open t (last_before before front) ≡ true
    pub open_back : is_open t (head? back) ≡ true

  ends_here_split :
      (text rule : Text)
      → ends_here t text rule ≡ true
      → (word : Text) × (back : Text) × (text ≡ word ++ back)
        × (is_same t rule word ≡ true)
        × (is_open t (head? back) ≡ true)
  ends_here_split [] [] h = ([], [], refl, refl, refl)
  ends_here_split (c ∷ cs) [] h = ([], c ∷ cs, refl, refl, h)
  ends_here_split [] (r ∷ rs) h = absurd (ground arith)
  ends_here_split (c ∷ cs) (r ∷ rs) h =
      let (word, back, parts, same, ends) = ends_here_split cs rs (ground arith) in
      (c ∷ word, back, ap (λ x. c ∷ x) parts, ground arith, ends)

  ends_here_join :
      (word back rule : Text)
      → is_same t rule word ≡ true
      → is_open t (head? back) ≡ true
      → ends_here t (word ++ back) rule ≡ true
  ends_here_join [] [] [] h o = refl
  ends_here_join [] (b ∷ bs) [] h o = o
  ends_here_join [] back (r ∷ rs) h o = absurd (ground arith)
  ends_here_join (c ∷ cs) back [] h o = absurd (ground arith)
  ends_here_join (c ∷ cs) back (r ∷ rs) h o = ground (arith, ends_here_join cs back rs)

  found_split :
      (before : Option ℕ) (text rule : Text)
      → found t before text rule ≡ true
      → StandsIn before text rule
  found_split before [] rule h =
      let (word, back, parts, same, ends) = ends_here_split [] rule (ground arith) in
      record {
        front = [];
        word = word;
        back = back;
        parts = parts;
        same = same;
        open_front = ground arith;
        open_back = ends;
      }
  found_split before (c ∷ cs) rule h =
      elim (Bool-cases (is_open t before && ends_here t (c ∷ cs) rule)) [
        | inl here ↦
            let (word, back, parts, same, ends) = ends_here_split (c ∷ cs) rule (ground arith) in
            record {
              front = [];
              word = word;
              back = back;
              parts = parts;
              same = same;
              open_front = ground arith;
              open_back = ends;
            }
        | inr away ↦
            let r = found_split (some c) cs rule (ground arith) in
            record {
              front = c ∷ r.front;
              word = r.word;
              back = r.back;
              parts = ap (λ x. c ∷ x) r.parts;
              same = r.same;
              open_front = r.open_front;
              open_back = r.open_back;
            }
      ]

  found_here :
      (before : Option ℕ) (text rule : Text)
      → is_open t before ≡ true
      → ends_here t text rule ≡ true
      → found t before text rule ≡ true
  found_here before [] rule o h = ground arith
  found_here before (c ∷ cs) rule o h = ground arith

  found_join :
      (before : Option ℕ) (front rest rule : Text)
      → is_open t (last_before before front) ≡ true
      → ends_here t rest rule ≡ true
      → found t before (front ++ rest) rule ≡ true
  found_join before [] rest rule o h = found_here before rest rule o h
  found_join before (c ∷ cs) rest rule o h = ground (arith, found_join (some c) cs rest rule o h)

-- The search finds a rule exactly where it stands as a word of its own: what it matches is the rule
-- up to the case of letters, and neither the character before nor the one after is a letter, a
-- digit, `_`, `/` or `-`.
pub found_iff :
    (t : CharTable) (text rule : Text) → (found t none text rule ≡ true) ↔ StandsIn t none text rule
found_iff t text rule = (found_split t none text rule, λ s. joined s)
  where
    joined : StandsIn t none text rule → found t none text rule ≡ true
    joined s =
        subst (λ x. found t none x rule ≡ true) (sym s.parts)
          (found_join t none s.front (s.word ++ s.back) rule s.open_front
            (ends_here_join t s.word s.back rule s.same s.open_back))
