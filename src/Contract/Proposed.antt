-- ===== src/Contract/Proposed.antt =====
-- The paths that a contract proposes for quotes without a field of their own, and the target paths.
use mathlib.Core.List.{Memᴰ}
use taka_ma.Common.{
  ◌≡◌, refl, sym, ap, ◌⊎◌, inl, inr, ◌≤◌, Bool, true, false, not, ◌&&◌, ◌||◌, Option, none, some,
  List, [], ◌∷◌, ◌++◌, contains, length, ltb, list_eq, nat_eq, text_eq_iff, Text, strip, CharTable,
  Dict, arith, IsDistinct, length-append, contains-append, if◌then◌else◌,
}
use taka_ma.Contract.{
  RawUnmapped, bare, item, no_item, Way, proposed, asked, Unmapped, is_blank, good_target,
  verbatim_in, max_target_paths, add_path, merged_way, merged, noted_in, safe_proposal, way_of,
  noted_quote, noted, merge_unmapped,
}
use taka_ma.Contract.Checks.{Each}
use taka_ma.Contract.Said.{IsQuoted, verbatim_in-IsQuoted}

pub Each-map :
    {A : Type 0} (P Q : A → Type 0) → ((a : A) → P a → Q a) → (xs : List A) → Each P xs → Each Q xs
Each-map P Q f [] h = tt
Each-map P Q f (x ∷ xs) (h, rest) = (f x h, Each-map P Q f xs rest)

Each-append :
    {A : Type 0} (P : A → Type 0) (xs : List A) (a : A) → Each P xs → P a → Each P (xs ++ (a ∷ []))
Each-append P [] a h k = (k, tt)
Each-append P (x ∷ xs) a (h, rest) k = (h, Each-append P xs a rest k)

Each-add_path :
    (P : Text → Type 0) (path : Text) (targets : List Text)
    → P path
    → Each P targets
    → Each P (add_path path targets)
Each-add_path P path targets k h = go (contains targets path)
  where
    go : (there : Bool) → Each P (if there then targets else targets ++ (path ∷ []))
    go true = h
    go false = Each-append P targets path h k

IsDistinct-append :
    (xs : List Text) (a : Text)
    → contains xs a ≡ false
    → IsDistinct xs
    → IsDistinct (xs ++ (a ∷ []))
IsDistinct-append [] a new h = (refl, tt)
IsDistinct-append (x ∷ xs) a new (h, rest) = (
  ground (arith, contains-append xs (a ∷ []) x, text_eq_iff a x, text_eq_iff x a),
  IsDistinct-append xs a (ground arith) rest,
)

-- Distinct target paths, as many as a contract may have.
abbrev pub IsSmall : List Text → Type 0
IsSmall targets = IsDistinct targets × (length targets ≤ 5)

add_path-IsSmall :
    (path : Text) (targets : List Text)
    → (contains targets path || ltb (length targets) max_target_paths) ≡ true
    → IsSmall targets
    → IsSmall (add_path path targets)
add_path-IsSmall path targets room (distinct, few) = go (contains targets path) refl
  where
    go :
        (there : Bool)
        → contains targets path ≡ there
        → IsSmall (if there then targets else targets ++ (path ∷ []))
    go true e = (distinct, few)
    go false e = (
      IsDistinct-append targets path e distinct,
      ground (arith, e, length-append targets (path ∷ [])),
    )

module _ (t : CharTable) (source_text : Text) (utterances : Option (Dict Text Text))
    (can_merge : Bool) where
  -- A path that is proposed for a quote of the users, among others that are shown.
  abbrev pub IsProposed : List Unmapped → Text → Type 0
  IsProposed us path =
      (can_merge ≡ true)
      × (quote : Text) × IsQuoted t source_text utterances quote
      × Memᴰ (record { quote = quote; way = proposed path }) us

  -- A proposal is for a quote, safe, and within the bound.
  abbrev IsSoundWay : List Text → Text → Way → Type 0
  IsSoundWay targets quote (proposed path) =
      (can_merge ≡ true)
      × IsQuoted t source_text utterances quote
      × (good_target path ≡ true)
      × ((contains targets path || ltb (length targets) max_target_paths) ≡ true)
  IsSoundWay targets quote (asked question) = Unit

  abbrev IsSound : List Text → Option Unmapped → Type 0
  IsSound targets none = Unit
  IsSound targets (some u) = IsSoundWay targets u.quote u.way

  safe_proposal-IsSound :
      (targets : List Text) (quote : Text) (proposal question : Option Text)
      → can_merge ≡ true
      → IsQuoted t source_text utterances quote
      → IsSoundWay targets quote (way_of t (safe_proposal t targets proposal) question)
  safe_proposal-IsSound targets quote none question can said = tt
  safe_proposal-IsSound targets quote (some p) question can said = go _ refl
    where
      go :
          (safe : Bool)
          → (not (is_blank t p)
              && (good_target (strip t p)
                  && (contains targets (strip t p) || ltb (length targets) max_target_paths)))
            ≡ safe
          → IsSoundWay targets quote (way_of t (if safe then some (strip t p) else none) question)
      go true e = (can, said, ground (arith, e), ground (arith, e))
      go false e = tt

  noted_quote-IsSound :
      (targets : List Text) (quote : Text) (src proposal question : Option Text)
      → IsSound targets (
          some (noted_quote t source_text utterances can_merge targets quote src proposal question))
  noted_quote-IsSound targets quote src proposal question = go _ refl
    where
      go :
          (may : Bool)
          → (can_merge && verbatim_in t source_text utterances quote src) ≡ may
          → IsSoundWay targets quote
              (way_of t (if may then safe_proposal t targets proposal else none) question)
      go true e =
          safe_proposal-IsSound targets quote proposal question (ground (arith, e))
            (verbatim_in-IsQuoted t source_text utterances quote src (ground (arith, e)))
      go false e = tt

  unless-IsSound :
      (blank : Bool) (targets : List Text) (u : Unmapped)
      → IsSound targets (some u)
      → IsSound targets (if blank then none else some u)
  unless-IsSound true targets u h = tt
  unless-IsSound false targets u h = h

  noted-IsSound :
      (targets : List Text) (raw : RawUnmapped)
      → IsSound targets (noted t source_text utterances can_merge targets raw)
  unfolding noted
  noted-IsSound targets (bare text) = unless-IsSound (is_blank t text) targets _ tt
  noted-IsSound targets (item none src proposal question) = tt
  noted-IsSound targets (item (some quote) src proposal question) =
      unless-IsSound (is_blank t quote) targets _
        (noted_quote-IsSound targets (strip t quote) src proposal question)
  noted-IsSound targets no_item = tt

  -- A target path has a property, or is proposed; in either case it is a safe relative path.
  abbrev pub IsTarget : (Text → Type 0) → List Unmapped → Text → Type 0
  IsTarget P us path = (P path ⊎ IsProposed us path) × (good_target path ≡ true)

  merged-IsTarget :
      (P : Text → Type 0) (targets : List Text) (u : Option Unmapped)
      → IsSound targets u
      → Each (λ p. P p × (good_target p ≡ true)) targets
      → IsSmall targets
      → Each (λ p. IsTarget P (noted_in u []) p) (merged u targets) × IsSmall (merged u targets)
  merged-IsTarget P targets none sound each small =
      (Each-map _ _ (λ p h. (inl h.0, h.1)) targets each, small)
  merged-IsTarget P targets (some u) sound each small = go u.way refl sound
    where
      go :
          (way : Way)
          → u.way ≡ way
          → IsSoundWay targets u.quote way
          → Each (λ p. IsTarget P (u ∷ []) p) (merged_way way targets)
            × IsSmall (merged_way way targets)
      go (proposed path) e (can, said, good, room) = (
        Each-add_path _ path targets
            (
              inr (
                can,
                u.quote,
                said,
                Memᴰ.head (sym (ap (λ w. record { quote = u.quote; way = w }) e)),
              ),
              good,
            )
            (Each-map _ _ (λ p h. (inl h.0, h.1)) targets each),
        add_path-IsSmall path targets room small,
      )
      go (asked question) e h = (Each-map _ _ (λ p h. (inl h.0, h.1)) targets each, small)

  later-IsTarget :
      (P : Text → Type 0) (u : Option Unmapped) (us : List Unmapped) (path : Text)
      → IsTarget (λ p. P p ⊎ IsProposed (noted_in u []) p) us path
      → IsTarget P (noted_in u us) path
  later-IsTarget P u us path (inl (inl h), good) = (inl h, good)
  later-IsTarget P none us path (inl (inr (can, quote, said, m)), good) = elim m [ ]
  later-IsTarget P (some u) us path (inl (inr (can, quote, said, Memᴰ.head e)), good) =
      (inr (can, quote, said, Memᴰ.head e), good)
  later-IsTarget P (some u) us path (inl (inr (can, quote, said, Memᴰ.tail m)), good) = elim m [ ]
  later-IsTarget P none us path (inr (can, quote, said, m), good) =
      (inr (can, quote, said, m), good)
  later-IsTarget P (some u) us path (inr (can, quote, said, m), good) =
      (inr (can, quote, said, Memᴰ.tail m), good)

  pub merge_unmapped-IsTarget :
      (P : Text → Type 0) (raws : List RawUnmapped) (targets : List Text)
      → Each (λ p. P p × (good_target p ≡ true)) targets
      → IsSmall targets
      → let merge = merge_unmapped t source_text utterances can_merge raws targets in
        Each (IsTarget P merge.0) merge.1 × IsSmall merge.1
  merge_unmapped-IsTarget P [] targets each small =
      (Each-map _ _ (λ p h. (inl h.0, h.1)) targets each, small)
  merge_unmapped-IsTarget P (raw ∷ raws) targets each small =
      let u = noted t source_text utterances can_merge targets raw in
      let (first, less) = merged-IsTarget P targets u (noted-IsSound targets raw) each small in
      let (rest, few) =
        merge_unmapped-IsTarget (λ p. P p ⊎ IsProposed (noted_in u []) p) raws (merged u targets)
          first less in
      (
        Each-map _ _
            (later-IsTarget P u
              (merge_unmapped t source_text utterances can_merge raws (merged u targets)).0)
            _ rest,
        few,
      )
