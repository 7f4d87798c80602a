-- ===== src/Common/Lists.antt =====
-- Lists with Boolean tests and native lengths; membership and counting as numbers and Booleans.
use Prim.Native.Nat.{zero, ◌<◌, ℕ, suc, ◌+◌, ◌≤◌}
use mathlib.Core.Path.{◌≡◌, refl, ap}
use mathlib.Core.Logic.{inl, inr}
use mathlib.Core.Bool.{Bool, true, false, not, ◌&&◌, ◌||◌}
use mathlib.Core.Option.{Option, none, some}
use mathlib.Core.List.{List, [], ◌∷◌, ◌++◌}
use native.Mathlib.Omega.{arith}
use taka_ma.Common.Tests.{if◌then◌else◌, Eq, ◌==◌, Bool-cases, nat_eq}

module _ {ℓ} {A : Type ℓ} where
  abbrev pub length : List A → ℕ
  length [] = 0
  length (x ∷ xs) = suc (length xs)

  pub length-append : (xs ys : List A) → length (xs ++ ys) ≡ length xs + length ys
  length-append [] ys = omega arith
  length-append (x ∷ xs) ys = omega (arith, length-append xs ys)

  abbrev pub head? : List A → Option A
  head? [] = none
  head? (x ∷ xs) = some x

  abbrev pub take : ℕ → List A → List A
  take zero xs = []
  take (suc n) [] = []
  take (suc n) (x ∷ xs) = x ∷ take n xs

  -- `[x for x in xs if p(x)]`
  abbrev pub keep : (A → Bool) → List A → List A
  keep p [] = []
  keep p (x ∷ xs) = let rest = keep p xs in if p x then x ∷ rest else rest

  -- `all(p(x) for x in xs)` and `any(...)`
  abbrev pub all : (A → Bool) → List A → Bool
  all p [] = true
  all p (x ∷ xs) = p x && all p xs

  abbrev pub any : (A → Bool) → List A → Bool
  any p [] = false
  any p (x ∷ xs) = p x || any p xs

  abbrev pub join : List (List A) → List A
  join [] = []
  join (xs ∷ rest) = xs ++ join rest

  pub length-keep-le : (p : A → Bool) (xs : List A) → length (keep p xs) ≤ length xs
  length-keep-le p [] = omega arith
  length-keep-le p (x ∷ xs) = ground (arith, length-keep-le p xs)

module _ {ℓ} {A : Type ℓ} ⦃e : Eq A⦄ where
  -- `a in xs`
  abbrev pub contains : List A → A → Bool
  contains [] a = false
  contains (x ∷ xs) a = x == a || contains xs a

  -- How often `a` stands in the list.
  abbrev pub count : A → List A → ℕ
  count a [] = 0
  count a (x ∷ xs) = let rest = count a xs in if x == a then suc rest else rest

  pub contains-append :
      (xs ys : List A) (a : A) → contains (xs ++ ys) a ≡ (contains xs a || contains ys a)
  contains-append [] ys a = refl
  contains-append (x ∷ xs) ys a = ground (arith, contains-append xs ys a)

  pub count-append : (a : A) (xs ys : List A) → count a (xs ++ ys) ≡ count a xs + count a ys
  count-append a [] ys = omega arith
  count-append a (x ∷ xs) ys = ground (arith, count-append a xs ys)

  pub contains-keep :
      (p : A → Bool) (xs : List A) (a : A) → contains (keep p xs) a ≡ (contains xs a && p a)
  contains-keep p [] a = refl
  contains-keep p (x ∷ xs) a = elim (Bool-cases (x == a)) [
    | inl same ↦ ground (arith, contains-keep p xs a, ap p ((e.beq_iff x a).0 same))
    | inr other ↦ ground (arith, contains-keep p xs a)
  ]

  pub count-keep :
      (p : A → Bool) (xs : List A) (a : A) → count a (keep p xs) ≡ (if p a then count a xs else 0)
  count-keep p [] a = ground arith
  count-keep p (x ∷ xs) a = elim (Bool-cases (x == a)) [
    | inl same ↦ ground (arith, count-keep p xs a, ap p ((e.beq_iff x a).0 same))
    | inr other ↦ ground (arith, count-keep p xs a)
  ]

  pub count_absent : (xs : List A) (a : A) → contains xs a ≡ false → count a xs ≡ 0
  count_absent [] a h = refl
  count_absent (x ∷ xs) a h = ground (arith, count_absent xs a)

  pub count_present : (xs : List A) (a : A) → contains xs a ≡ true → 0 < count a xs
  count_present [] a h = absurd (ground arith)
  count_present (x ∷ xs) a h = ground (arith, count_present xs a)

  pub beq_of_absent :
      (w : List A) (x k : A) → contains w x ≡ false → contains w k ≡ true → (x == k) ≡ false
  beq_of_absent w x k absent present = elim (Bool-cases (x == k)) [
    | inl same ↦ absurd (grind (arith, ap (contains w) ((e.beq_iff x k).0 same)))
    | inr other ↦ other
  ]

  -- No element stands twice.
  abbrev pub IsDistinct : List A → Type 0
  IsDistinct [] = Unit
  IsDistinct (x ∷ xs) = (contains xs x ≡ false) × IsDistinct xs

  pub keep-IsDistinct : (p : A → Bool) (xs : List A) → IsDistinct xs → IsDistinct (keep p xs)
  keep-IsDistinct p [] h = tt
  keep-IsDistinct p (x ∷ xs) h = ground (arith, contains-keep p xs x, keep-IsDistinct p xs h.1)

module _ {ℓ} {A : Type ℓ} where
  pub all-append : (p : A → Bool) (xs ys : List A) → all p (xs ++ ys) ≡ (all p xs && all p ys)
  all-append p [] ys = refl
  all-append p (x ∷ xs) ys = ground (arith, all-append p xs ys)

  pub all-contains :
      ⦃e : Eq A⦄ (p : A → Bool) (xs : List A) (a : A)
      → all p xs ≡ true
      → contains xs a ≡ true
      → p a ≡ true
  all-contains p [] a h m = absurd (ground arith)
  all-contains ⦃e⦄ p (x ∷ xs) a h m = elim (Bool-cases (x == a)) [
    | inl same ↦ ground (arith, ap p ((e.beq_iff x a).0 same))
    | inr other ↦ all-contains p xs a (ground arith) (ground arith)
  ]

  pub keep_nil : (p : A → Bool) (xs : List A) → all (λ x. not (p x)) xs ≡ true → keep p xs ≡ []
  keep_nil p [] h = refl
  keep_nil p (x ∷ xs) h = ground (arith, keep_nil p xs)

-- `x or []`
abbrev pub or_nil {ℓ} : {A : Type ℓ} → Option (List A) → List A
or_nil none = []
or_nil (some xs) = xs
