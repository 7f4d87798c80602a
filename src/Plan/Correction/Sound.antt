-- ===== src/Plan/Correction/Sound.antt =====
-- What the short notation of orchestrator/plan.py yields, and what `apply_patches` answers to it.
use taka_ma.Common.{
  String, ◌⊎◌, ◌<◌, ◌≡◌, refl, Bool, true, false, Option, none, some, List, [], ◌∷◌, ◌&&◌,
  if◌then◌else◌, all, length, contains, Text, codes, CharTable, arith, list_eq, nat_eq,
  Option-cases, inl, inr,
}
use taka_ma.Plan.Model.{Subtask, Patch, Targets}
use taka_ma.Plan.Correction.{
  depth_word, targets, before_gap, last_word, valued, parse_line, parse_lines, lines_of, if_any,
  parse_simple_correction,
}
use taka_ma.Plan.Patches.{apply_patches, is_depth}
use taka_ma.Plan.Patches.Errors.{is_known_model, is_known_depth}
use taka_ma.Plan.Patches.Refusals.{only_steps, apply_patches-only_steps}

-- A patch that names what to change: a registered model or a depth, and not both.
abbrev pub is_proper : List Text → Patch → Bool
is_proper valid patch = is_known_model valid patch.model && is_known_depth patch.depth

three_tests :
    {A : Type 0} {x y z n : A} (a b c : Bool)
    → (((if a then x else if b then y else if c then z else n) ≡ x)
        ⊎ ((if a then x else if b then y else if c then z else n) ≡ y))
      ⊎ (((if a then x else if b then y else if c then z else n) ≡ z)
          ⊎ ((if a then x else if b then y else if c then z else n) ≡ n))
three_tests true b c = inl (inl refl)
three_tests false true c = inl (inr refl)
three_tests false false true = inr (inl refl)
three_tests false false false = inr (inr refl)

depth_word-cases :
    (w : Text)
    → ((depth_word w ≡ some (some "deep")) ⊎ (depth_word w ≡ some (some "shallow")))
      ⊎ ((depth_word w ≡ some none) ⊎ (depth_word w ≡ none))
unfolding depth_word
depth_word-cases w =
    three_tests (contains (codes "deep" ∷ codes "重い" ∷ codes "重" ∷ codes "深い" ∷ codes "深く" ∷ []) w)
      (contains (codes "shallow" ∷ codes "軽い" ∷ codes "軽" ∷ codes "浅い" ∷ codes "浅く" ∷ []) w)
      (contains (codes "中" ∷ codes "普通" ∷ codes "ふつう" ∷ []) w)

-- A depth word stands for a depth.
depth_word-is_depth : (w : Text) (d : Option String) → depth_word w ≡ some d → is_depth d ≡ true
unfolding depth_word is_depth
depth_word-is_depth w d e =
    let deep : is_depth (some "deep") ≡ true = refl in
    let shallow : is_depth (some "shallow") ≡ true = refl in
    let empty : is_depth none ≡ true = refl in
    elim (depth_word-cases w) [
      | inl (inl h) ↦ cc
      | inl (inr h) ↦ cc
      | inr (inl h) ↦ cc
      | inr (inr h) ↦ cc
    ]

valued-is_proper :
    (t : CharTable) (valid : List Text) (steps : Targets) (value : Text) (p : Patch)
    → valued t valid steps value ≡ some p
    → is_proper valid p ≡ true
unfolding valued
valued-is_proper t valid steps value p e = elim (Option-cases (depth_word value)) [
  | inl no_word ↦ ground arith
  | inr (d, word) ↦ ground (arith, depth_word-is_depth value d word)
]

parse_line-is_proper :
    (t : CharTable) (valid : List Text) (line : Text) (p : Patch)
    → parse_line t valid line ≡ some p
    → is_proper valid p ≡ true
unfolding parse_line
parse_line-is_proper t valid line p e = elim (Option-cases (before_gap t line)) [
  | inl absent ↦ absurd (ground arith)
  | inr (before, e1) ↦ elim (Option-cases (targets t before)) [
    | inl absent ↦ absurd (ground arith)
    | inr (steps, e2) ↦ valued-is_proper t valid steps (last_word t line) p (ground arith)
  ]
]

parse_lines-is_proper :
    (t : CharTable) (valid lines : List Text) (ps : List Patch)
    → parse_lines t valid lines ≡ some ps
    → (all (is_proper valid) ps ≡ true) × (length ps ≡ length lines)
unfolding parse_lines
parse_lines-is_proper t valid [] ps e = ground arith
parse_lines-is_proper t valid (line ∷ lines) ps e = elim (Option-cases (parse_line t valid line)) [
  | inl absent ↦ absurd (ground arith)
  | inr (p, e1) ↦ elim (Option-cases (parse_lines t valid lines)) [
    | inl absent ↦ absurd (ground arith)
    | inr (qs, e2) ↦
        ground
          (arith, parse_line-is_proper t valid line p e1, parse_lines-is_proper t valid lines qs e2)
  ]
]

-- A text that is accepted as short notation has at least one line that is not blank and yields one
-- patch for each such line, each with a registered model or a depth: no line is skipped.
pub parse_simple_correction-length :
    (t : CharTable) (text : Text) (valid : List Text) (ps : List Patch)
    → parse_simple_correction t text valid ≡ some ps
    → (all (is_proper valid) ps ≡ true) × (length ps ≡ length (lines_of t text)) × (0 < length ps)
unfolding parse_simple_correction
parse_simple_correction-length t text valid ps e = go (lines_of t text) e
  where
    go :
        (lines : List Text)
        → if_any lines (parse_lines t valid lines) ≡ some ps
        → (all (is_proper valid) ps ≡ true) × (length ps ≡ length lines) × (0 < length ps)
    go [] h = absurd (ground arith)
    go (l ∷ ls) h = ground (arith, parse_lines-is_proper t valid (l ∷ ls) ps h)

-- The errors of a plan that is corrected by short notation are only ever steps that are not there.
pub parse_simple_correction-only_steps :
    (t : CharTable) (text : Text) (valid : List Text) (ps : List Patch) (ss : List Subtask)
    → parse_simple_correction t text valid ≡ some ps
    → all only_steps (apply_patches valid ps ss).1 ≡ true
parse_simple_correction-only_steps t text valid ps ss e =
    apply_patches-only_steps valid ps ss (parse_simple_correction-length t text valid ps e).0
