-- ===== src/Contract/Checks.antt =====
-- The values that the checks of a contract give, in lists and options.
use taka_ma.Common.{
  ◌≡◌, refl, inl, inr, suc, ◌≤◌, Option, none, some, List, [], ◌∷◌, map, contains, length, list_eq,
  nat_eq, Text, arith, Bool-cases,
}
use taka_ma.Routing.{dedup_from}
use taka_ma.Contract.{Checked, absent, good, bad, value_of, values_in}

abbrev pub Each {ℓ} : {A : Type ℓ} → (A → Type 0) → List A → Type 0
Each P [] = Unit
Each P (x ∷ xs) = P x × Each P xs

abbrev pub IfSome {ℓ} : {A : Type ℓ} → (A → Type 0) → Option A → Type 0
IfSome P none = Unit
IfSome P (some a) = P a

-- A value that a check gives has a property.
abbrev pub Gives : {A : Type 0} → (A → Type 0) → Checked A → Type 0
Gives P (good a) = P a
Gives P _ = Unit

pub values_in-Each :
    {A B : Type 0} (P : B → Type 0) (check : A → Checked B) (xs : List A)
    → ((a : A) → Gives P (check a))
    → Each P (values_in (map check xs))
values_in-Each P check [] k = tt
values_in-Each {A} {B} P check (x ∷ xs) k = go (check x) (k x) (values_in-Each P check xs k)
  where
    go :
        (c : Checked B)
        → Gives P c
        → Each P (values_in (map check xs))
        → Each P (values_in (c ∷ map check xs))
    go (good v) h rest = (h, rest)
    go absent h rest = rest
    go (bad p) h rest = rest

pub gives : {A : Type 0} (P : A → Type 0) (c : Checked A) → ((a : A) → c ≡ good a → P a) → Gives P c
gives P (good a) k = k a refl
gives P absent k = tt
gives P (bad p) k = tt

pub gives_value :
    {A : Type 0} (P : A → Type 0) (c : Checked A)
    → ((a : A) → value_of c ≡ some a → P a)
    → IfSome P (value_of c)
gives_value P (good a) k = k a refl
gives_value P absent k = tt
gives_value P (bad p) k = tt

pub dedup_from-Each :
    (P : Text → Type 0) (seen ps : List Text) → Each P ps → Each P (dedup_from seen ps)
dedup_from-Each P seen [] h = tt
dedup_from-Each P seen (x ∷ ps) (here, rest) = elim (Bool-cases (contains seen x)) [
  | inl old ↦ rw old (dedup_from-Each P seen ps rest)
  | inr new ↦ rw new (here, dedup_from-Each P (x ∷ seen) ps rest)
]

pub length-dedup_from : (seen ps : List Text) → length (dedup_from seen ps) ≤ length ps
length-dedup_from seen [] = omega arith
length-dedup_from seen (x ∷ ps) =
    ground (arith, length-dedup_from seen ps, length-dedup_from (x ∷ seen) ps)

pub length-values_in :
    {A B : Type 0} (check : A → Checked B) (xs : List A)
    → length (values_in (map check xs)) ≤ length xs
length-values_in check [] = omega arith
length-values_in {A} {B} check (x ∷ xs) = go (check x) (length-values_in check xs)
  where
    go :
        (c : Checked B)
        → length (values_in (map check xs)) ≤ length xs
        → length (values_in (c ∷ map check xs)) ≤ suc (length xs)
    go (good v) h = omega (arith, h)
    go absent h = omega (arith, h)
    go (bad p) h = omega (arith, h)
