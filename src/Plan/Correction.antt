-- ===== src/Plan/Correction.antt =====
-- `parse_simple_correction` of orchestrator/plan.py: the short notation of a correction, such as
-- `2,4 sonnet`. The regular expression is read off as a split at the last gap of the line.
pub mod Sound
use mathlib.Core.List.{reverse}
use taka_ma.Common.{
  ℕ, zero, suc, ◌+◌, ◌*◌, String, Bool, true, false, Option, none, some, List, [], ◌∷◌, map, not,
  ◌&&◌, ◌||◌, if◌then◌else◌, keep, contains, Text, codes, nat_eq, string_eq, list_eq, ◌==◌,
  CharTable, strip, strip_left, strip_right, split_at, lower_text, first_piece,
}
use taka_ma.Plan.Model.{Patch, Targets, all_steps, listed}

-- `DEPTH_WORDS`; the inner `none` is the depth that is left out
pub depth_word : Text → Option (Option String)
depth_word w =
    if contains (codes "deep" ∷ codes "重い" ∷ codes "重" ∷ codes "深い" ∷ codes "深く" ∷ []) w
    then some (some "deep")
    else if contains (codes "shallow" ∷ codes "軽い" ∷ codes "軽" ∷ codes "浅い" ∷ codes "浅く" ∷ []) w
    then some (some "shallow")
    else if contains (codes "中" ∷ codes "普通" ∷ codes "ふつう" ∷ []) w
    then some none
    else none

abbrev pub cons_number : Option ℕ → Option (List ℕ) → Option (List ℕ)
cons_number (some n) (some ns) = some (n ∷ ns)
cons_number _ _ = none

abbrev pub as_listed : Option (List ℕ) → Option Targets
as_listed none = none
as_listed (some ns) = some (listed ns)

abbrev pub cons_patch : Option Patch → Option (List Patch) → Option (List Patch)
cons_patch (some p) (some ps) = some (p ∷ ps)
cons_patch _ _ = none

abbrev pub is_blank : Text → Bool
is_blank [] = true
is_blank (c ∷ cs) = false

abbrev pub if_any : List Text → Option (List Patch) → Option (List Patch)
if_any [] r = none
if_any (l ∷ ls) r = r

module _ (t : CharTable) where
  -- `\d+` to the end, and its value
  pub digits : ℕ → Text → Option ℕ
  digits n [] = some n
  digits n (c ∷ cs) = elim (t.digit c) [ none ↦ none | some d ↦ digits (n * 10 + d) cs ]

  pub number : Text → Option ℕ
  unfolding digits
  number [] = none
  number (c ∷ cs) = digits 0 (c ∷ cs)

  -- `\d+(?:\s*,\s*\d+)*`, cut at the commas
  pub numbers : List Text → Option (List ℕ)
  unfolding number
  numbers [] = some []
  numbers (piece ∷ rest) = cons_number (number (strip t piece)) (numbers rest)

  -- the group `targets`
  pub targets : Text → Option Targets
  unfolding numbers
  targets text =
      let low = lower_text t text in
      if low == codes "all" || low == codes "全部"
      then some all_steps
      else as_listed (numbers (split_at (λ c. c == 44) text))

  -- the group `value`: what stands behind the last gap
  pub last_word : Text → Text
  last_word line = reverse (first_piece t.is_space (reverse line))

  -- of the line read backwards: what stands behind the first gap; nothing if there is no gap
  pub behind_gap : Text → Option Text
  behind_gap [] = none
  behind_gap (c ∷ cs) =
      let further = behind_gap cs in
      if t.is_space c then some (reverse (strip_left t cs)) else further

  -- what stands before the last gap
  pub before_gap : Text → Option Text
  unfolding behind_gap
  before_gap line = behind_gap (reverse line)

  pub valued : List Text → Targets → Text → Option Patch
  unfolding depth_word
  valued valid steps value =
      if contains valid value
      then some (record { steps = some steps; model = some (some value); depth = none })
      else elim (depth_word value) [
        | none ↦ none
        | some d ↦ some (record { steps = some steps; model = none; depth = some d })
      ]

  -- the body of the loop over the lines
  pub parse_line : List Text → Text → Option Patch
  unfolding targets last_word before_gap valued
  parse_line valid line = elim (before_gap line) [
    | none ↦ none
    | some before ↦ elim (targets before) [
      | none ↦ none
      | some steps ↦ valued valid steps (last_word line)
    ]
  ]

  pub parse_lines : List Text → List Text → Option (List Patch)
  unfolding parse_line
  parse_lines valid [] = some []
  parse_lines valid (line ∷ lines) = cons_patch (parse_line valid line) (parse_lines valid lines)

  -- `[ln.strip() for ln in text.strip().splitlines() if ln.strip()]`
  pub lines_of : Text → List Text
  lines_of text = keep (λ l. not (is_blank l)) (map (strip t) (split_at t.is_break (strip t text)))

  unfoldable pub parse_simple_correction : Text → List Text → Option (List Patch)
  unfolding lines_of parse_lines
  parse_simple_correction text valid =
      let lines = lines_of text in if_any lines (parse_lines valid lines)
