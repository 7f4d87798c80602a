-- ===== src/Plan/Verification/Resolve.antt =====
-- `_resolve` in `drop_verification_subtasks` (orchestrator/plan.py) against its meaning: the steps
-- that are kept and can be reached from the dependencies through dropped steps.
use taka_ma.Common.{
  ◌≡◌, refl, ap, ◌↔◌, inl, inr, ℕ, zero, suc, ◌≤◌, true, false, Option, none, some, List, [], ◌∷◌,
  not, ◌&&◌, length, contains, dict_get, dict_has, nat_eq, ◌==◌, arith, Bool-cases, beq_of_absent,
  length-le-dict, Dict, contains-append, nat_beq_iff, dict_has_of_get, IsDistinct, beq_refl,
}
use taka_ma.Plan.Verification.{resolve_one, resolve_each, resolve, unique, unique_from}

contains-unique_from :
    (seen xs : List ℕ) (x : ℕ)
    → contains (unique_from seen xs) x ≡ (contains xs x && not (contains seen x))
contains-unique_from seen [] x = refl
contains-unique_from seen (y ∷ xs) x = elim (Bool-cases (contains seen y)) [
  | inl old ↦ elim (Bool-cases (y == x)) [
    | inl same ↦
        ground
          (arith, contains-unique_from seen xs x, ap (contains seen) ((nat_beq_iff y x).0 same))
    | inr other ↦ ground (arith, contains-unique_from seen xs x)
  ]
  | inr new ↦ elim (Bool-cases (y == x)) [
    | inl same ↦
        ground (
          arith,
          contains-unique_from (y ∷ seen) xs x,
          ap (contains seen) ((nat_beq_iff y x).0 same),
        )
    | inr other ↦ ground (arith, contains-unique_from (y ∷ seen) xs x)
  ]
]

contains-unique : (xs : List ℕ) (x : ℕ) → contains (unique xs) x ≡ contains xs x
contains-unique xs x = ground (arith, contains-unique_from [] xs x)

pub unique_from-IsDistinct : (seen xs : List ℕ) → IsDistinct (unique_from seen xs)
unique_from-IsDistinct seen [] = tt
unique_from-IsDistinct seen (y ∷ xs) = elim (Bool-cases (contains seen y)) [
  | inl old ↦ rw old (unique_from-IsDistinct seen xs)
  | inr new ↦ rw new (
    ground (arith, contains-unique_from (y ∷ seen) xs y, beq_refl y),
    unique_from-IsDistinct (y ∷ seen) xs,
  )
]

module _ (dropped : Dict ℕ (List ℕ)) where
  -- `x` is kept, and is reached from `deps` through the dropped steps of the path, in this order.
  abbrev pub Chain : List ℕ → List ℕ → ℕ → Type 0
  Chain deps [] x = (contains deps x ≡ true) × (dict_get dropped x ≡ none)
  Chain deps (p ∷ path) x =
      (ds : List ℕ) × (contains deps p ≡ true) × (dict_get dropped p ≡ some ds) × Chain ds path x

  Chain-weaken :
      (few more path : List ℕ) (x : ℕ)
      → ((y : ℕ) → contains few y ≡ true → contains more y ≡ true)
      → Chain few path x
      → Chain more path x
  Chain-weaken few more [] x f (m, kept) = (f x m, kept)
  Chain-weaken few more (p ∷ path) x f (ds, m, e, rest) = (ds, f p m, e, rest)

  -- A call that finds only what a chain reaches.
  abbrev IsSound : (List ℕ → List ℕ → List ℕ) → Type 0
  IsSound inner =
      (deps seen : List ℕ) (x : ℕ)
      → contains (inner deps seen) x ≡ true
      → (path : List ℕ) × Chain deps path x

  resolve_one_sound :
      (inner : List ℕ → List ℕ → List ℕ) (seen deps : List ℕ) (d x : ℕ) (o : Option (List ℕ))
      → IsSound inner
      → dict_get dropped d ≡ o
      → contains (resolve_one inner seen d o) x ≡ true
      → contains deps d ≡ true
      → (path : List ℕ) × Chain deps path x
  unfolding resolve_one
  resolve_one_sound inner seen deps d x none sound e m here =
      let same : d ≡ x = (nat_beq_iff d x).0 (ground arith) in ([], rw (← same) (here, e))
  resolve_one_sound inner seen deps d x (some ds) sound e m here =
      elim (Bool-cases (contains seen d)) [
        | inl old ↦ absurd (ground arith)
        | inr new ↦
            let (path, c) = sound ds (d ∷ seen) x (ground arith) in (d ∷ path, (ds, here, e, c))
      ]

  resolve_each_sound :
      (inner : List ℕ → List ℕ → List ℕ) (deps seen : List ℕ) (x : ℕ)
      → IsSound inner
      → contains (resolve_each dropped inner deps seen) x ≡ true
      → (path : List ℕ) × Chain deps path x
  unfolding resolve_each
  resolve_each_sound inner [] seen x sound m = absurd (ground arith)
  resolve_each_sound inner (d ∷ deps) seen x sound m =
      let one = resolve_one inner seen d (dict_get dropped d) in
      elim (Bool-cases (contains one x)) [
        | inl now ↦
            resolve_one_sound inner seen (d ∷ deps) d x (dict_get dropped d) sound refl now
              (ground (arith, beq_refl d))
        | inr later ↦
            let (path, c) =
              resolve_each_sound inner deps seen x sound
                (ground (arith, contains-append one (resolve_each dropped inner deps seen) x)) in
            (path, Chain-weaken deps (d ∷ deps) path x (λ y h. ground arith) c)
      ]

  resolve-IsSound : (fuel : ℕ) → IsSound (resolve dropped fuel)
  unfolding resolve
  resolve-IsSound zero deps seen x m =
      resolve_each_sound (λ _ _. []) deps seen x (λ _ _ y h. absurd (ground arith))
        (ground (arith, contains-unique (resolve_each dropped (λ _ _. []) deps seen) x))
  resolve-IsSound (suc fuel) deps seen x m =
      resolve_each_sound (resolve dropped fuel) deps seen x (resolve-IsSound fuel)
        (ground (arith, contains-unique (resolve_each dropped (resolve dropped fuel) deps seen) x))

  -- What lies on a chain that does not come back to where it has been is found.
  abbrev Avoids : List ℕ → List ℕ → Type 0
  Avoids seen path = (p : ℕ) → contains path p ≡ true → contains seen p ≡ false

  resolve_each-here :
      (inner : List ℕ → List ℕ → List ℕ) (deps seen : List ℕ) (d x : ℕ)
      → contains deps d ≡ true
      → contains (resolve_one inner seen d (dict_get dropped d)) x ≡ true
      → contains (resolve_each dropped inner deps seen) x ≡ true
  unfolding resolve_each
  resolve_each-here inner [] seen d x m h = absurd (ground arith)
  resolve_each-here inner (y ∷ deps) seen d x m h = elim (Bool-cases (y == d)) [
    | inl same ↦ ground (
      arith,
      contains-append (resolve_one inner seen y (dict_get dropped y))
          (resolve_each dropped inner deps seen) x,
      ap (λ z. contains (resolve_one inner seen z (dict_get dropped z)) x)
          ((nat_beq_iff y d).0 same),
    )
    | inr other ↦ ground (
      arith,
      contains-append (resolve_one inner seen y (dict_get dropped y))
          (resolve_each dropped inner deps seen) x,
      resolve_each-here inner deps seen d x,
    )
  ]

  resolve_complete :
      (fuel : ℕ) (deps seen path : List ℕ) (x : ℕ)
      → IsDistinct path
      → Avoids seen path
      → length path ≤ fuel
      → Chain deps path x
      → contains (resolve dropped fuel deps seen) x ≡ true
  unfolding resolve resolve_one
  resolve_complete zero deps seen [] x distinct fresh fits (m, kept) = ground (
    arith,
    contains-unique (resolve_each dropped (λ _ _. []) deps seen) x,
    resolve_each-here (λ _ _. []) deps seen x x m (rw kept (ground (arith, beq_refl x))),
  )
  resolve_complete (suc fuel) deps seen [] x distinct fresh fits (m, kept) = ground (
    arith,
    contains-unique (resolve_each dropped (resolve dropped fuel) deps seen) x,
    resolve_each-here (resolve dropped fuel) deps seen x x m (rw kept (ground (arith, beq_refl x))),
  )
  resolve_complete zero deps seen (p ∷ path) x distinct fresh fits c = absurd (omega arith)
  resolve_complete (suc fuel) deps seen (p ∷ path) x distinct fresh fits (ds, m, e, c) =
      let away : Avoids (p ∷ seen) path =
        λ q mq. ground (arith, fresh q, distinct.0, beq_of_absent path p q) in
      let found : contains (resolve dropped fuel ds (p ∷ seen)) x ≡ true =
        resolve_complete fuel ds (p ∷ seen) path x distinct.1 away (omega arith) c in
      let one : contains (resolve_one (resolve dropped fuel) seen p (dict_get dropped p)) x ≡ true =
        rw e (ground (arith, fresh p, beq_refl p)) in
      ground (
        arith,
        contains-unique (resolve_each dropped (resolve dropped fuel) deps seen) x,
        resolve_each-here (resolve dropped fuel) deps seen p x m one,
      )

  -- A chain that comes back can be cut to one that does not.
  suffix :
      (path : List ℕ) (p x : ℕ) (ds deps : List ℕ)
      → contains path p ≡ true
      → dict_get dropped p ≡ some ds
      → IsDistinct path
      → Chain deps path x
      → (rest : List ℕ) × (contains rest p ≡ false) × IsDistinct rest × Chain ds rest x
  suffix [] p x ds deps m e distinct c = absurd (ground arith)
  suffix (q ∷ path) p x ds deps m e distinct (es, mq, eq, c) = elim (Bool-cases (q == p)) [
    | inl same ↦
        let at : q ≡ p = (nat_beq_iff q p).0 same in
        let both : es ≡ ds = cc (ap (dict_get dropped) at) in
        (path, rw (← at) distinct.0, distinct.1, rw (← both) c)
    | inr other ↦ suffix path p x ds es (ground arith) e distinct.1 c
  ]

  shorten :
      (path deps : List ℕ) (x : ℕ)
      → Chain deps path x
      → (short : List ℕ) × IsDistinct short × Chain deps short x
  shorten [] deps x c = ([], tt, c)
  shorten (p ∷ path) deps x (ds, m, e, c) =
      let (short, distinct, c') = shorten path ds x c in
      elim (Bool-cases (contains short p)) [
        | inl again ↦
            let (rest, fresh, distinct', c'') = suffix short p x ds ds again e distinct c' in
            (p ∷ rest, (fresh, distinct'), (ds, m, e, c''))
        | inr fresh ↦ (p ∷ short, (fresh, distinct), (ds, m, e, c'))
      ]

  Chain-dropped :
      (path deps : List ℕ) (x p : ℕ)
      → Chain deps path x
      → contains path p ≡ true
      → dict_has dropped p ≡ true
  Chain-dropped [] deps x p c m = absurd (ground arith)
  Chain-dropped (q ∷ path) deps x p (ds, mq, e, c) m = elim (Bool-cases (q == p)) [
    | inl same ↦ rw ((nat_beq_iff q p).0 same) at (dict_has_of_get dropped q ds e)
    | inr other ↦ Chain-dropped path ds x p c (ground arith)
  ]

-- `_resolve`, with the fuel that the model gives it, yields exactly the steps that are not dropped
-- and are reached from the dependencies through a chain of dropped steps.
pub resolve_iff_Chain :
    (dropped : Dict ℕ (List ℕ)) (deps : List ℕ) (x : ℕ)
    → (contains (resolve dropped (length dropped) deps []) x ≡ true)
      ↔ ((path : List ℕ) × Chain dropped deps path x)
resolve_iff_Chain dropped deps x = (
  resolve-IsSound dropped (length dropped) deps [] x,
  λ (path, c).
      let (short, distinct, c') = shorten dropped path deps x c in
      resolve_complete dropped (length dropped) deps [] short x distinct (λ p m. refl)
        (length-le-dict dropped short distinct (λ p. Chain-dropped dropped short deps x p c')) c',
)
