-- ===== src/Common/Unicode.antt =====
-- What the program relies on of Python's character tables, which are not part of the repository.
-- A table is an argument of the functions that read text.
use taka_ma.Common.Tests.{◌==◌, nat_eq, leb, if◌then◌else◌}
use taka_ma.Common.Texts.{Text}
use taka_ma.Common.Lists.{join}
use Prim.Native.Nat.{ℕ, ◌+◌, ◌-◌}
use mathlib.Core.Bool.{Bool, ◌&&◌, ◌||◌}
use mathlib.Core.Option.{Option, none, some}
use mathlib.Core.List.{List, [], ◌∷◌, map, reverse}

pub record CharTable : Type 0 where
  -- `\s`, and what `str.strip` takes off
  pub is_space : ℕ → Bool
  -- where `str.splitlines` breaks
  pub is_break : ℕ → Bool
  -- `\d`, with the value that `int` gives it
  pub digit : ℕ → Option ℕ
  -- `str.lower`, which may give more than one character
  pub lower : ℕ → Text
  -- `\w`
  pub is_word : ℕ → Bool
  -- whether `re.IGNORECASE` takes the one for the other
  pub same_letter : ℕ → ℕ → Bool

abbrev pub lower_text : CharTable → Text → Text
lower_text t text = join (map t.lower text)

-- `text.lstrip()`
abbrev pub strip_left : CharTable → Text → Text
strip_left t [] = []
strip_left t (c ∷ cs) = if t.is_space c then strip_left t cs else c ∷ cs

-- `text.rstrip()`
abbrev pub strip_right : CharTable → Text → Text
strip_right t text = reverse (strip_left t (reverse text))

abbrev pub strip : CharTable → Text → Text
strip t text = strip_right t (strip_left t text)

-- The text up to the first character that passes the test, and the text after it.
abbrev pub first_piece : (ℕ → Bool) → Text → Text
first_piece p [] = []
first_piece p (c ∷ cs) = if p c then [] else c ∷ first_piece p cs

abbrev pub into_first : ℕ → List Text → List Text
into_first c [] = (c ∷ []) ∷ []
into_first c (piece ∷ rest) = (c ∷ piece) ∷ rest

-- Cut at each character that passes the test: one piece more than there are such characters.
abbrev pub split_at : (ℕ → Bool) → Text → List Text
split_at p [] = [] ∷ []
split_at p (c ∷ cs) = let rest = split_at p cs in if p c then [] ∷ rest else into_first c rest

-- The characters of ASCII, and of the wide digits and the ideographic space of Japanese input.
abbrev pub ascii_digit : ℕ → Option ℕ
ascii_digit c =
    if leb 48 c && leb c 57
    then some (c - 48)
    else if leb 65296 c && leb c 65305
    then some (c - 65296)
    else none

abbrev ascii_lower : ℕ → ℕ
ascii_lower c = if leb 65 c && leb c 90 then c + 32 else c

abbrev pub ascii : CharTable
ascii = record {
  is_space = λ c. (leb 9 c && leb c 13) || c == 32 || c == 12288;
  is_break = λ c. leb 10 c && leb c 13;
  digit = ascii_digit;
  lower = λ c. ascii_lower c ∷ [];
  is_word = λ c.
      (leb 48 c && leb c 57)
      || (leb 65 c && leb c 90)
      || (leb 97 c && leb c 122)
      || c == 95
      || leb 128 c;
  same_letter = λ c d. ascii_lower c == ascii_lower d;
}
