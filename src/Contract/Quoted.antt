-- ===== src/Contract/Quoted.antt =====
-- The checks of a contract, and what the users said.
use mathlib.Core.Path.{subst}
use taka_ma.Common.{
  ◌⊎◌, ◌≡◌, refl, sym, ap, ◌∙◌, inl, inr, ℕ, ◌≤◌, Bool, true, false, Option, none, some, List, [],
  ◌∷◌, map, length, if◌then◌else◌, leb, list_eq, nat_eq, Text, CharTable, strip, Dict, arith,
  Bool-cases, IsDistinct,
}
use taka_ma.Routing.Ladder.{dedup_from-IsDistinct}
use taka_ma.Runbook.Catalogue.{good_param}
use taka_ma.Contract.Checks.{
  Each, IfSome, values_in-Each, gives, gives_value, dedup_from-Each, length-dedup_from,
  length-values_in,
}
use taka_ma.Contract.Proposed.{Each-map, merge_unmapped-IsTarget}
use mathlib.Core.List.{Memᴰ}
use taka_ma.Routing.{dedup_from}
use taka_ma.Contract.Said.{IsQuoted, verbatim_in-IsQuoted}
use taka_ma.Contract.{
  Quotes, proposed, is_none, RawField, RawConstraint, raw_constraint, no_constraint, RawTargets,
  target_list, no_target_list, RawContract, Constraint, too_many_targets, constraint_form,
  constraint_not_quoted, Checked, good, bad, value_of, values_in, is_blank, split_sourced,
  verbatim_in, directive_text, check_directive, patterns_of, constraint_text, check_constraint,
  branch_text, check_branch, good_target, target_text, check_target, check_targets, quotes_of,
}

module _ (t : CharTable) (source_text : Text) (utterances : Option (Dict Text Text)) where
  directive_text-IsQuoted :
      (text src : Option Text) (d : Text)
      → value_of (directive_text t source_text utterances text src) ≡ some d
      → (x : Text) × (d ≡ strip t x) × IsQuoted t source_text utterances x
  directive_text-IsQuoted none src d h = absurd (ground arith)
  directive_text-IsQuoted (some x) src d h = elim (Bool-cases (is_blank t x)) [
    | inl blank ↦ absurd (ground arith)
    | inr full ↦ elim (Bool-cases (verbatim_in t source_text utterances x src)) [
      | inr free ↦ absurd (ground arith)
      | inl quoted ↦ (x, ground arith, verbatim_in-IsQuoted t source_text utterances x src quoted)
    ]
  ]

  branch_text-IsQuoted :
      (text src : Option Text) (b : Text)
      → value_of (branch_text t source_text utterances text src) ≡ some b
      → IsQuoted t source_text utterances b × (good_param b ≡ true)
  branch_text-IsQuoted none src b h = absurd (ground arith)
  branch_text-IsQuoted (some x) src b h = elim (Bool-cases (is_blank t x)) [
    | inl blank ↦ absurd (ground arith)
    | inr full ↦ elim (Bool-cases (good_param (strip t x))) [
      | inr unsafe ↦ absurd (ground arith)
      | inl safe ↦ elim (Bool-cases (verbatim_in t source_text utterances (strip t x) src)) [
        | inr free ↦ absurd (ground arith)
        | inl quoted ↦
            let e : strip t x ≡ b = ground arith in
            (
              subst (IsQuoted t source_text utterances) e
                  (verbatim_in-IsQuoted t source_text utterances (strip t x) src quoted),
              subst (λ y. good_param y ≡ true) e safe,
            )
      ]
    ]
  ]

  target_text-IsQuoted :
      (text src : Option Text) (p : Text)
      → target_text t source_text utterances text src ≡ good p
      → IsQuoted t source_text utterances p × (good_target p ≡ true)
  target_text-IsQuoted none src p h = absurd (ground arith)
  target_text-IsQuoted (some x) src p h = elim (Bool-cases (is_blank t x)) [
    | inl blank ↦ absurd (ground arith)
    | inr full ↦ elim (Bool-cases (good_target (strip t x))) [
      | inr unsafe ↦ absurd (ground arith)
      | inl safe ↦ elim (Bool-cases (verbatim_in t source_text utterances (strip t x) src)) [
        | inr free ↦ absurd (ground arith)
        | inl quoted ↦
            let e : strip t x ≡ p = ground arith in
            (
              subst (IsQuoted t source_text utterances) e
                  (verbatim_in-IsQuoted t source_text utterances (strip t x) src quoted),
              subst (λ y. good_target y ≡ true) e safe,
            )
      ]
    ]
  ]

  check_target-IsQuoted :
      (raw : RawField) (p : Text)
      → check_target t source_text utterances raw ≡ good p
      → IsQuoted t source_text utterances p × (good_target p ≡ true)
  unfolding check_target
  check_target-IsQuoted raw p h =
      let (text, src) = split_sourced t raw in target_text-IsQuoted text src p h

  abbrev checked_text : Checked Constraint → Text
  checked_text (good c) = c.text
  checked_text _ = []

  check_constraint-IsQuoted :
      (raw : RawConstraint) (c : Constraint)
      → check_constraint t source_text utterances raw ≡ good c
      → IsQuoted t source_text utterances c.text
  unfolding check_constraint
  check_constraint-IsQuoted no_constraint c h = absurd (ground arith)
  check_constraint-IsQuoted (raw_constraint none src forbid patterns) c h = absurd (ground arith)
  check_constraint-IsQuoted (raw_constraint (some x) src forbid patterns) c h =
      elim (Bool-cases (is_blank t x)) [
        | inl blank ↦ absurd (ground arith)
        | inr full ↦ elim (Bool-cases (verbatim_in t source_text utterances (strip t x) src)) [
          | inr free ↦ absurd (ground arith)
          | inl quoted ↦
              let e : strip t x ≡ c.text =
                sym (
                  ap
                    (λ b. checked_text (
                      if b
                      then bad constraint_form
                      else constraint_text t source_text utterances (strip t x) src forbid
                          patterns))
                    full
                  ∙ ap
                      (λ b. checked_text (
                        if b
                        then good (record {
                          text = strip t x;
                          forbid = forbid;
                          patterns = if forbid then patterns_of t patterns else [];
                        })
                        else bad (constraint_not_quoted (strip t x))))
                      quoted)
                ∙ ap checked_text h in
              subst (IsQuoted t source_text utterances) e
                (verbatim_in-IsQuoted t source_text utterances (strip t x) src quoted)
        ]
      ]

  abbrev IsTarget : Text → Type 0
  IsTarget p = IsQuoted t source_text utterances p × (good_target p ≡ true)

  -- The checked target paths, by whether there are few enough.
  few_targets :
      (fields : List RawField) (few : Bool) (n : ℕ)
      → leb (length fields) 5 ≡ few
      → Each IsTarget (
          values_in (
            if few
            then map (check_target t source_text utterances) fields
            else bad (too_many_targets n) ∷ []))
        × (length (
              values_in (
                if few
                then map (check_target t source_text utterances) fields
                else bad (too_many_targets n) ∷ []))
            ≤ 5)
  few_targets fields true n e = (
    values_in-Each IsTarget (check_target t source_text utterances) fields
        (λ f. gives IsTarget (check_target t source_text utterances f) (check_target-IsQuoted f)),
    ground (arith, e, length-values_in (check_target t source_text utterances) fields),
  )
  few_targets fields false n e = (tt, omega arith)

  check_targets-Each :
      (raw : RawTargets)
      → Each IsTarget (values_in (check_targets t source_text utterances raw))
        × (length (values_in (check_targets t source_text utterances raw)) ≤ 5)
  check_targets-Each no_target_list = (tt, omega arith)
  check_targets-Each (target_list fields) =
      few_targets fields (leb (length fields) 5) (length fields) refl

  check_directive-IsQuoted :
      (f : Option RawField)
      → IfSome
          (λ d. (x : Text) × (d ≡ strip t x) × IsQuoted t source_text utterances x)
          (value_of (check_directive t source_text utterances f))
  unfolding check_directive
  check_directive-IsQuoted none = tt
  check_directive-IsQuoted (some f) =
      let (text, src) = split_sourced t f in
      gives_value (λ d. (x : Text) × (d ≡ strip t x) × IsQuoted t source_text utterances x)
        (directive_text t source_text utterances text src) (directive_text-IsQuoted text src)

  check_branch-IsQuoted :
      (f : Option RawField)
      → IfSome
          (λ b. IsQuoted t source_text utterances b × (good_param b ≡ true))
          (value_of (check_branch t source_text utterances f))
  unfolding check_branch
  check_branch-IsQuoted none = tt
  check_branch-IsQuoted (some f) =
      let (text, src) = split_sourced t f in
      gives_value (λ b. IsQuoted t source_text utterances b × (good_param b ≡ true))
        (branch_text t source_text utterances text src) (branch_text-IsQuoted text src)

  -- Where a contract may propose paths: where the checks left it no directive.
  is_none_of : (o : Option Text) → is_none o ≡ true → o ≡ none
  is_none_of none h = refl
  is_none_of (some text) h = absurd (ground arith)

  -- A target path was said, or is proposed for a quote that was said, and shown as a proposal, in a
  -- contract without a directive.
  abbrev pub IsTargetOf : Quotes → Text → Type 0
  IsTargetOf q path =
      IsQuoted t source_text utterances path
      ⊎ ((q.directive ≡ none)
          × (quote : Text) × IsQuoted t source_text utterances quote
          × Memᴰ (record { quote = quote; way = proposed path }) q.unmapped)

  -- Whatever the model gives: the directive, up to the white space around it, each constraint and the
  -- branch that the checks let through were said. Each target path was said, or is proposed, where
  -- there is no directive, for a quote that was said, and stands with it among the unmapped. The
  -- branch and the paths are of safe characters, and the paths relative, distinct, and at most five.
  pub quotes_of-IsQuoted :
      (raw : RawContract)
      → let q = quotes_of t source_text utterances raw in
        IfSome (λ d. (x : Text) × (d ≡ strip t x) × IsQuoted t source_text utterances x) q.directive
        × Each (λ c. IsQuoted t source_text utterances c.text) q.constraints
        × IfSome (λ b. IsQuoted t source_text utterances b × (good_param b ≡ true)) q.branch
        × Each (λ p. IsTargetOf q p × (good_target p ≡ true)) q.target_paths
        × IsDistinct q.target_paths
        × (length q.target_paths ≤ 5)
  unfolding quotes_of
  quotes_of-IsQuoted raw =
      let spoken = values_in (check_targets t source_text utterances raw.target_paths) in
      let (each, few) = check_targets-Each raw.target_paths in
      let directive = value_of (check_directive t source_text utterances raw.directive) in
      let (targets, small) =
        merge_unmapped-IsTarget t source_text utterances (is_none directive)
          (IsQuoted t source_text utterances) raw.unmapped (dedup_from [] spoken)
          (dedup_from-Each IsTarget [] spoken each)
          (dedup_from-IsDistinct [] spoken, omega (arith, length-dedup_from [] spoken, few)) in
      (
        check_directive-IsQuoted raw.directive,
        values_in-Each (λ c. IsQuoted t source_text utterances c.text)
            (check_constraint t source_text utterances) raw.constraints
            (λ c.
              gives (λ x. IsQuoted t source_text utterances x.text)
                (check_constraint t source_text utterances c) (check_constraint-IsQuoted c)),
        check_branch-IsQuoted raw.branch,
        Each-map _ _
            (λ p h. (
              elim h.0 [
                | inl said ↦ inl said
                | inr (can, quote, said, m) ↦ inr (is_none_of directive can, quote, said, m)
              ],
              h.1,
            ))
            _ targets,
        small.0,
        small.1,
      )
