-- ===== src/Contract.antt =====
-- The quotes of a contract, orchestrator/contract.py: `_norm_ws`, `is_verbatim`, `_split_sourced`,
-- `_verbatim_in`, and of `validate_contract` the checks of `directive`, `constraints`, `branch`,
-- `target_paths` and `unmapped`. The form of names and paths is that of orchestrator/runbook.py, as the source says.
pub mod Checks
pub mod Said
pub mod Proposed
pub mod Quoted
use taka_ma.Common.{
  ℕ, Bool, true, false, not, ◌&&◌, ◌||◌, Option, none, some, List, [], ◌∷◌, ◌++◌, map, keep,
  contains, length, if◌then◌else◌, ◌==◌, leb, ltb, list_eq, nat_eq, Text, codes, joined, has_part,
  starts_with, CharTable, strip, split_at, lower_text, Dict, dict_get,
}
use taka_ma.Routing.{truthy, dedup_from}
use taka_ma.Runbook.{is_empty}
use taka_ma.Runbook.Catalogue.{good_param}

-- A value of the model: a text, a dictionary with `text` and `src` (each `none` if it is no text), or
-- something else.
pub data RawField : Type 0 where
  plain : Text → RawField
  sourced : Option Text → Option Text → RawField
  no_text : RawField

-- An element of `constraints`; `patterns` has `none` for what is no text.
pub data RawConstraint : Type 0 where
  raw_constraint : Option Text → Option Text → Bool → List (Option Text) → RawConstraint
  no_constraint : RawConstraint

-- `raw["target_paths"]`
pub data RawTargets : Type 0 where
  target_list : List RawField → RawTargets
  no_target_list : RawTargets

-- An element of `unmapped`: a text, a dictionary with `quote`, `src`, `proposal_path` and `question`
-- (each `none` if it is no text), or something else.
pub data RawUnmapped : Type 0 where
  bare : Text → RawUnmapped
  item : Option Text → Option Text → Option Text → Option Text → RawUnmapped
  no_item : RawUnmapped

pub record RawContract : Type 0 where
  pub directive : Option RawField
  pub constraints : List RawConstraint
  pub branch : Option RawField
  pub target_paths : RawTargets
  pub unmapped : List RawUnmapped

pub record Constraint : Type 0 where
  pub text : Text
  pub forbid : Bool
  pub patterns : List Text

-- What becomes of a quote without a field of its own: a path is proposed for it, or the user is asked.
pub data Way : Type 0 where
  proposed asked : Text → Way

pub record Unmapped : Type 0 where
  pub quote : Text
  pub way : Way

pub data Problem : Type 0 where
  directive_no_text directive_not_quoted : Problem
  constraint_form : Problem
  constraint_not_quoted : Text → Problem
  branch_no_text : Problem
  branch_unsafe branch_not_quoted : Text → Problem
  targets_no_list : Problem
  too_many_targets : ℕ → Problem
  target_no_text : Problem
  target_unsafe target_not_quoted : Text → Problem

-- What a check comes to: a value, or a problem.
pub data Checked (A : Type 0) : Type 0 where
  absent : Checked A
  good : A → Checked A
  bad : Problem → Checked A

abbrev pub value_of : {A : Type 0} → Checked A → Option A
value_of (good a) = some a
value_of _ = none

abbrev pub problem_of : {A : Type 0} → Checked A → List Problem
problem_of (bad p) = p ∷ []
problem_of _ = []

abbrev pub env_mutation_commands : List Text
env_mutation_commands =
    codes "git init"
    ∷ codes "git remote add"
    ∷ codes "git remote set-url"
    ∷ codes "git remote remove"
    ∷ codes "git config"
    ∷ []

abbrev pub values_in : {A : Type 0} → List (Checked A) → List A
values_in [] = []
values_in (good a ∷ cs) = a ∷ values_in cs
values_in (c ∷ cs) = values_in cs

abbrev pub problems_in : {A : Type 0} → List (Checked A) → List Problem
problems_in [] = []
problems_in (c ∷ cs) = problem_of c ++ problems_in cs

-- A relative path of safe characters.
abbrev pub good_target : Text → Bool
good_target path = good_param path && not (starts_with path (codes "/"))

abbrev pub max_target_paths : ℕ
max_target_paths = 5

abbrev pub unmapped_default_question : Text
unmapped_default_question = codes "この指定をどう扱いますか？（訂正の返信で指示できます）"

abbrev pub add_path : Text → List Text → List Text
add_path path targets = if contains targets path then targets else targets ++ (path ∷ [])

abbrev pub merged_way : Way → List Text → List Text
merged_way (proposed path) targets = add_path path targets
merged_way (asked question) targets = targets

-- The target paths after an element of `unmapped`.
abbrev pub merged : Option Unmapped → List Text → List Text
merged none targets = targets
merged (some u) targets = merged_way u.way targets

abbrev pub noted_in : Option Unmapped → List Unmapped → List Unmapped
noted_in none us = us
noted_in (some u) us = u ∷ us

abbrev pub is_none : Option Text → Bool
is_none none = true
is_none (some text) = false

pub record Quotes : Type 0 where
  pub directive : Option Text
  pub constraints : List Constraint
  pub branch : Option Text
  pub target_paths : List Text
  pub unmapped : List Unmapped
  pub problems : List Problem

module _ (t : CharTable) where
  -- `" ".join(text.split())`
  abbrev pub norm_ws : Text → Text
  norm_ws text = joined (codes " ") (keep (λ w. not (is_empty w)) (split_at t.is_space text))

  abbrev pub is_blank : Text → Bool
  is_blank text = is_empty (strip t text)

  unfoldable pub is_verbatim : Text → Text → Bool
  is_verbatim candidate source =
      not (is_blank candidate) && has_part (norm_ws source) (norm_ws candidate)

  abbrev pub mutations_in : Option Text → List Text
  mutations_in none = []
  mutations_in (some directive) =
      keep (has_part (lower_text t (norm_ws directive))) env_mutation_commands

  pub env_mutation_allows : Option Text → List Text
  env_mutation_allows directive = mutations_in (truthy directive)

  abbrev pub unless_blank : Option Text → Option Text
  unless_blank none = none
  unless_blank (some src) = if is_blank src then none else some src

  unfoldable pub split_sourced : RawField → Option Text × Option Text
  split_sourced (plain text) = (some text, none)
  split_sourced (sourced text src) = (text, unless_blank src)
  split_sourced no_text = (none, none)

  -- `is_verbatim(candidate, utterances[src])`, where there is such an utterance
  abbrev pub verbatim_at : Text → Option Text → Bool
  verbatim_at candidate none = false
  verbatim_at candidate (some utterance) = is_verbatim candidate utterance

  -- The patterns of a prohibition that are long enough, in one line.
  abbrev pub patterns_of : List (Option Text) → List Text
  patterns_of [] = []
  patterns_of (none ∷ ps) = patterns_of ps
  patterns_of (some p ∷ ps) =
      let rest = patterns_of ps in
      if not (contains p 10) && leb 4 (length (strip t p)) then strip t p ∷ rest else rest

  abbrev pub question_or_default : Option Text → Text
  question_or_default none = unmapped_default_question
  question_or_default (some question) =
      if is_blank question then unmapped_default_question else strip t question

  -- A proposed path that may be added; it need not be quoted.
  abbrev pub safe_proposal : List Text → Option Text → Option Text
  safe_proposal targets none = none
  safe_proposal targets (some proposal) =
      if not (is_blank proposal)
        && (good_target (strip t proposal)
            && (contains targets (strip t proposal) || ltb (length targets) max_target_paths))
      then some (strip t proposal)
      else none

  abbrev pub way_of : Option Text → Option Text → Way
  way_of (some path) question = proposed path
  way_of none question = asked (question_or_default question)

  module _ (source_text : Text) (utterances : Option (Dict Text Text)) where
    abbrev pub verbatim_by : Text → Option Text → Option (Dict Text Text) → Bool
    verbatim_by candidate (some src) (some us) = verbatim_at candidate (dict_get us src)
    verbatim_by candidate _ _ = is_verbatim candidate source_text

    unfoldable pub verbatim_in : Text → Option Text → Bool
    unfolding is_verbatim
    verbatim_in candidate src = verbatim_by candidate (truthy src) utterances

    abbrev pub directive_text : Option Text → Option Text → Checked Text
    directive_text none src = bad directive_no_text
    directive_text (some text) src =
        if is_blank text
        then bad directive_no_text
        else if verbatim_in text src
        then good (strip t text)
        else bad directive_not_quoted

    unfoldable pub check_directive : Option RawField → Checked Text
    unfolding verbatim_in split_sourced
    check_directive none = absent
    check_directive (some raw) = let (text, src) = split_sourced raw in directive_text text src

    abbrev pub constraint_text : Text → Option Text → Bool → List (Option Text) → Checked Constraint
    constraint_text text src forbid patterns =
        if verbatim_in text src
        then good (record {
          text = text;
          forbid = forbid;
          patterns = if forbid then patterns_of patterns else [];
        })
        else bad (constraint_not_quoted text)

    unfoldable pub check_constraint : RawConstraint → Checked Constraint
    unfolding verbatim_in
    check_constraint no_constraint = bad constraint_form
    check_constraint (raw_constraint none src forbid patterns) = bad constraint_form
    check_constraint (raw_constraint (some text) src forbid patterns) =
        if is_blank text
        then bad constraint_form
        else constraint_text (strip t text) src forbid patterns

    abbrev pub branch_text : Option Text → Option Text → Checked Text
    branch_text none src = bad branch_no_text
    branch_text (some text) src =
        if is_blank text
        then bad branch_no_text
        else if not (good_param (strip t text))
        then bad (branch_unsafe (strip t text))
        else if verbatim_in (strip t text) src
        then good (strip t text)
        else bad (branch_not_quoted (strip t text))

    unfoldable pub check_branch : Option RawField → Checked Text
    unfolding verbatim_in split_sourced
    check_branch none = absent
    check_branch (some raw) = let (text, src) = split_sourced raw in branch_text text src

    abbrev pub target_text : Option Text → Option Text → Checked Text
    target_text none src = bad target_no_text
    target_text (some text) src =
        if is_blank text
        then bad target_no_text
        else if not (good_target (strip t text))
        then bad (target_unsafe (strip t text))
        else if verbatim_in (strip t text) src
        then good (strip t text)
        else bad (target_not_quoted (strip t text))

    unfoldable pub check_target : RawField → Checked Text
    unfolding verbatim_in split_sourced
    check_target raw = let (text, src) = split_sourced raw in target_text text src

    abbrev pub check_targets : RawTargets → List (Checked Text)
    check_targets no_target_list = bad targets_no_list ∷ []
    check_targets (target_list fields) =
        let checks = map check_target fields in
        if leb (length fields) max_target_paths
        then checks
        else bad (too_many_targets (length fields)) ∷ []

    abbrev pub noted_quote :
        Bool → List Text → Text → Option Text → Option Text → Option Text → Unmapped
    noted_quote can_merge targets quote src proposal question = record {
      quote = quote;
      way =
          way_of
            (if can_merge && verbatim_in quote src then safe_proposal targets proposal else none)
            question;
    }

    -- What an element of `unmapped` comes to, given the target paths so far.
    unfoldable pub noted : Bool → List Text → RawUnmapped → Option Unmapped
    unfolding verbatim_in
    noted can_merge targets (bare text) =
        if is_blank text
        then none
        else some (record { quote = strip t text; way = asked unmapped_default_question })
    noted can_merge targets (item none src proposal question) = none
    noted can_merge targets (item (some quote) src proposal question) =
        if is_blank quote
        then none
        else some (noted_quote can_merge targets (strip t quote) src proposal question)
    noted can_merge targets no_item = none

    abbrev pub merge_unmapped : Bool → List RawUnmapped → List Text → List Unmapped × List Text
    merge_unmapped can_merge [] targets = ([], targets)
    merge_unmapped can_merge (raw ∷ raws) targets =
        let first = noted can_merge targets raw in
        let rest = merge_unmapped can_merge raws (merged first targets) in
        (noted_in first rest.0, rest.1)

    -- The fields with quotes, and what is wrong with them, in the order of the code. A path that is
    -- there already is not added to the target paths again; paths are proposed only where there is no
    -- directive.
    unfoldable pub quotes_of : RawContract → Quotes
    unfolding check_directive check_constraint check_branch check_target noted
    quotes_of raw =
        let directive = check_directive raw.directive in
        let constraints = map check_constraint raw.constraints in
        let branch = check_branch raw.branch in
        let targets = check_targets raw.target_paths in
        let merge =
          merge_unmapped (is_none (value_of directive)) raw.unmapped
            (dedup_from [] (values_in targets)) in
        record {
          directive = value_of directive;
          constraints = values_in constraints;
          branch = value_of branch;
          target_paths = merge.1;
          unmapped = merge.0;
          problems =
              problem_of directive
              ++ (problems_in constraints ++ (problem_of branch ++ problems_in targets));
        }
