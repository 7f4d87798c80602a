-- ===== src/Common/Texts.antt =====
-- Text that the program walks: a list of code points. Literals are written through `codes`.
use Prim.Native.Nat.{ℕ}
use Prim.Native.Char.{code}
use Prim.Native.String.{String}
use mathlib.Core.Bool.{Bool, true, false, ◌&&◌, ◌||◌}
use mathlib.Core.Option.{Option, none, some}
use mathlib.Core.List.{List, [], ◌∷◌, ◌++◌}
use taka_ma.Common.Tests.{if◌then◌else◌, leb}
use taka_ma.Common.Tests.{◌==◌, nat_eq, list_eq, list_beq_iff}
use mathlib.Core.Path.{◌≡◌}
use mathlib.Core.Logic.{◌↔◌}

abbrev pub Text : Type 0
Text = List ℕ

abbrev pub codes : String → Text
codes String.[] = []
codes (String.◌∷◌ c s) = code c ∷ codes s

-- `text.startswith(prefix)`
abbrev pub starts_with : Text → Text → Bool
starts_with text [] = true
starts_with [] (p ∷ ps) = false
starts_with (c ∷ cs) (p ∷ ps) = c == p && starts_with cs ps

-- `part in text`, which is also the search for a regular expression that is a literal
abbrev pub has_part : Text → Text → Bool
has_part [] part = starts_with [] part
has_part (c ∷ cs) part = starts_with (c ∷ cs) part || has_part cs part

-- `text[len(prefix):]` where the text starts with the prefix
abbrev pub after_prefix : Text → Text → Option Text
after_prefix text [] = some text
after_prefix [] (p ∷ ps) = none
after_prefix (c ∷ cs) (p ∷ ps) = if c == p then after_prefix cs ps else none

-- `sep.join(pieces)`
abbrev pub joined : Text → List Text → Text
joined sep [] = []
joined sep (piece ∷ []) = piece
joined sep (piece ∷ more ∷ rest) = piece ++ (sep ++ joined sep (more ∷ rest))

pub text_eq_iff : (a b : Text) → ((a == b) ≡ true) ↔ (a ≡ b)
text_eq_iff = list_beq_iff nat_eq

abbrev pub insert : ℕ → Text → Text
insert c [] = c ∷ []
insert c (d ∷ ds) = let rest = insert c ds in if leb c d then c ∷ d ∷ ds else d ∷ rest

-- `sorted(text)`
abbrev pub sorted : Text → Text
sorted [] = []
sorted (c ∷ cs) = insert c (sorted cs)
