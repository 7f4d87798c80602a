-- ===== src/Common/Dicts.antt =====
-- Python's `dict` in insertion order, as an association list.
use mathlib.Core.Path.{◌≡◌, refl, ap}
use mathlib.Core.Bool.{true, Bool, ◌||◌, ◌&&◌, not}
use mathlib.Core.Option.{Option, none, some}
use mathlib.Core.List.{List, [], ◌∷◌, map}
use native.Mathlib.Omega.{arith}
use mathlib.Core.Logic.{◌≢◌, inl, inr}
use taka_ma.Common.Tests.{if◌then◌else◌, Eq, ◌==◌, Bool-cases, beq_refl}
use Prim.Native.Nat.{suc, ◌≤◌, ◌<◌}
use taka_ma.Common.Lists.{contains, length, IsDistinct, beq_of_absent}

abbrev pub Dict {ℓ κ} : Type ℓ → Type κ → Type (ℓ ⊔ κ)
Dict K V = List (K × V)

module _ {ℓ κ} {K : Type ℓ} {V : Type κ} where
  abbrev pub dict_keys : Dict K V → List K
  dict_keys d = map (λ e. e.0) d

  abbrev pub dict_values : Dict K V → List V
  dict_values d = map (λ e. e.1) d

module _ {ℓ κ} {K : Type ℓ} {V : Type κ} ⦃e : Eq K⦄ where
  -- `d.get(k)`
  abbrev pub dict_get : Dict K V → K → Option V
  dict_get [] k = none
  dict_get ((j, v) ∷ d) k = if j == k then some v else dict_get d k

  -- `d[k] = v`: a key that is there keeps its place
  abbrev pub dict_set : Dict K V → K → V → Dict K V
  dict_set [] k v = (k, v) ∷ []
  dict_set ((j, w) ∷ d) k v =
      let rest = dict_set d k v in if j == k then (j, v) ∷ d else (j, w) ∷ rest

  -- the entries without the key
  abbrev pub dict_without : Dict K V → K → Dict K V
  dict_without [] k = []
  dict_without ((j, w) ∷ d) k =
      let rest = dict_without d k in if j == k then rest else (j, w) ∷ rest

  -- `k in d`
  abbrev pub dict_has : Dict K V → K → Bool
  dict_has d k = contains (dict_keys d) k

  pub dict_get-dict_set :
      (d : Dict K V) (k j : K) (v : V)
      → dict_get (dict_set d k v) j ≡ (if k == j then some v else dict_get d j)
  dict_get-dict_set [] k j v = refl
  dict_get-dict_set ((i, w) ∷ d) k j v = elim (Bool-cases (i == k)) [
    | inl same ↦ ground (arith, same, ap (λ x. x == j) ((e.beq_iff i k).0 same))
    | inr other ↦ elim (Bool-cases (i == j)) [
      | inl here ↦
          ground (arith, dict_get-dict_set d k j v, e.beq_iff k j, e.beq_iff i k, e.beq_iff i j)
      | inr away ↦ ground (arith, dict_get-dict_set d k j v)
    ]
  ]

  pub dict_has-dict_without :
      (d : Dict K V) (k j : K) → dict_has (dict_without d k) j ≡ (dict_has d j && not (k == j))
  dict_has-dict_without [] k j = refl
  dict_has-dict_without ((i, w) ∷ d) k j =
      ground (arith, dict_has-dict_without d k j, e.beq_iff i j, e.beq_iff i k, e.beq_iff k j)

  pub dict_has-dict_set :
      (d : Dict K V) (k j : K) (v : V) → dict_has (dict_set d k v) j ≡ (dict_has d j || k == j)
  dict_has-dict_set [] k j v = ground arith
  dict_has-dict_set ((i, w) ∷ d) k j v =
      ground (arith, dict_has-dict_set d k j v, e.beq_iff i j, e.beq_iff i k, e.beq_iff k j)

  pub dict_set-IsDistinct :
      (d : Dict K V) (k : K) (v : V)
      → IsDistinct (dict_keys d)
      → IsDistinct (dict_keys (dict_set d k v))
  dict_set-IsDistinct [] k v h = (refl, tt)
  dict_set-IsDistinct ((j, w) ∷ d) k v h =
      ground
        (arith, dict_set-IsDistinct d k v, dict_has-dict_set d k j v, e.beq_iff k j, e.beq_iff j k)

  pub dict_get-dict_without :
      (d : Dict K V) (k j : K)
      → dict_get (dict_without d k) j ≡ (if k == j then none else dict_get d j)
  dict_get-dict_without [] k j = ground arith
  dict_get-dict_without ((i, w) ∷ d) k j =
      ground (arith, dict_get-dict_without d k j, e.beq_iff i j, e.beq_iff i k, e.beq_iff k j)

  pub dict_has_of_get : (d : Dict K V) (k : K) (v : V) → dict_get d k ≡ some v → dict_has d k ≡ true
  dict_has_of_get [] k v h = absurd (ground arith)
  dict_has_of_get ((i, w) ∷ d) k v h = ground (arith, dict_has_of_get d k v)

  pub dict_get_of_has : (d : Dict K V) (k : K) → dict_has d k ≡ true → dict_get d k ≢ none
  dict_get_of_has [] k h = absurd (ground arith)
  dict_get_of_has ((i, w) ∷ d) k h = ground (arith, dict_get_of_has d k)

  pub length-dict_without-le : (d : Dict K V) (k : K) → length (dict_without d k) ≤ length d
  length-dict_without-le [] k = omega arith
  length-dict_without-le ((j, v) ∷ d) k = ground (arith, length-dict_without-le d k)

  pub length-dict_without-lt :
      (d : Dict K V) (k : K) → dict_has d k ≡ true → length (dict_without d k) < length d
  length-dict_without-lt [] k h = absurd (ground arith)
  length-dict_without-lt ((j, v) ∷ d) k h =
      ground (arith, length-dict_without-le d k, length-dict_without-lt d k)

  -- Distinct keys are no more than the entries.
  pub length-le-dict :
      (d : Dict K V) (ks : List K)
      → IsDistinct ks
      → ((k : K) → contains ks k ≡ true → dict_has d k ≡ true)
      → length ks ≤ length d
  length-le-dict d [] distinct inside = omega arith
  length-le-dict d (k ∷ ks) distinct inside = omega (
    arith,
    length-dict_without-lt d k (inside k (ground (arith, beq_refl k))),
    length-le-dict (dict_without d k) ks distinct.1 (λ j m.
        ground (arith, dict_has-dict_without d k j, inside j, beq_of_absent ks k j distinct.0 m)),
  )

  pub length-dict_set :
      (d : Dict K V) (k : K) (v : V)
      → length (dict_set d k v) ≡ (if dict_has d k then length d else suc (length d))
  length-dict_set [] k v = refl
  length-dict_set ((j, w) ∷ d) k v = ground (arith, length-dict_set d k v)
