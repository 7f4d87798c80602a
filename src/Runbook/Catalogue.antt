-- ===== src/Runbook/Catalogue.antt =====
-- `validate_runbook` of orchestrator/runbook.py, on what it reads of a decoded JSON value.
pub mod Accepted
use taka_ma.Common.{
  ℕ, Bool, true, false, not, ◌&&◌, ◌||◌, Option, none, some, List, [], ◌∷◌, ◌++◌, map, keep, all,
  any, contains, length, if◌then◌else◌, ◌==◌, leb, list_eq, nat_eq, Text, codes, starts_with,
  CharTable, strip, split_at, Dict, dict_get, dict_keys,
}
use taka_ma.Runbook.{Operation, commit_paths, push, merge_ff, branch_create, switch, is_empty}

-- A parameter: a text, a list (of which an element that is no text is `none`), or something else.
pub data Value : Type 0 where
  text : Text → Value
  list : List (Option Text) → Value
  other : Value

-- `entry.get("params") or {}`
pub data Params : Type 0 where
  params : Dict Text Value → Params
  no_dict : Params

-- An entry of the runbook; a `kind` that is no text is `none`.
pub data Entry : Type 0 where
  entry : Option Text → Params → Entry
  no_entry : Entry

pub data Raw : Type 0 where
  absent : Raw
  entries : List Entry → Raw
  no_list : Raw

pub record RunbookStep : Type 0 where
  pub kind : Text
  pub values : Dict Text Value

-- What is wrong with an entry: an unknown kind, parameters that are no dictionary, or those that are
-- missing, unknown and not valid.
pub data Problem : Type 0 where
  no_runbook_list : Problem
  too_many_steps : ℕ → Problem
  unknown_kind : Option Text → Problem
  params_no_dict : Text → Problem
  bad_params : Text → List Text → List Text → List Text → Problem

-- `RUNBOOK_KINDS`: the required and the optional parameters of a kind
pub record Spec : Type 0 where
  pub required : List Text
  pub optional : List Text

abbrev spec : List Text → List Text → Spec
spec r o = record { required = r; optional = o }

abbrev pub runbook_kinds : Dict Text Spec
runbook_kinds =
    (codes "commit_paths", spec (codes "paths" ∷ codes "message" ∷ []) [])
    ∷ (codes "push", spec [] (codes "branch" ∷ []))
    ∷ (codes "merge_ff", spec (codes "source" ∷ codes "target" ∷ []) [])
    ∷ (codes "branch_create", spec (codes "name" ∷ codes "base" ∷ []) [])
    ∷ (codes "switch", spec (codes "branch" ∷ []) [])
    ∷ []

-- `[A-Za-z0-9._/\-]`
abbrev pub is_safe_char : ℕ → Bool
is_safe_char c =
    (leb 65 c && leb c 90)
    || ((leb 97 c && leb c 122)
        || ((leb 48 c && leb c 57) || (c == 45 || (c == 46 || (c == 47 || c == 95)))))

-- `_SAFE_PARAM_RE.match(v)`
abbrev pub is_safe : Text → Bool
is_safe v = not (is_empty v) && all is_safe_char v

-- `".." in v.split("/")`
abbrev pub climbs : Text → Bool
climbs v = contains (split_at (λ c. c == 47) v) (codes "..")

abbrev pub good_param : Text → Bool
good_param v = is_safe v && not (climbs v)

abbrev pub good_path : Option Text → Bool
good_path none = false
good_path (some p) = is_safe p && (not (climbs p) && not (starts_with p (codes "/")))

module _ (t : CharTable) where
  abbrev pub good_message : Text → Bool
  good_message v = not (is_empty (strip t v)) && (not (contains v 10) && leb (length v) 200)

  abbrev pub good_paths : List (Option Text) → Bool
  good_paths ps = leb 1 (length ps) && (leb (length ps) 20 && all good_path ps)

  abbrev pub good_list : Text → List (Option Text) → Bool
  good_list key ps = key == codes "paths" && good_paths ps

  abbrev pub good_text : Text → Text → Bool
  good_text key v =
      if key == codes "paths"
      then false
      else if key == codes "message"
      then good_message v
      else good_param v

  -- Whether the loop over the parameters leaves a value out of `bad`.
  abbrev pub good_value : Text → Value → Bool
  good_value key (text v) = good_text key v
  good_value key (list ps) = good_list key ps
  good_value key other = false

  abbrev pub missing_of : Spec → Dict Text Value → List Text
  missing_of s values = keep (λ k. not (contains (dict_keys values) k)) s.required

  abbrev pub unknown_of : Spec → Dict Text Value → List Text
  unknown_of s values =
      keep (λ k. not (contains s.required k || contains s.optional k)) (dict_keys values)

  abbrev pub bad_of : Dict Text Value → List Text
  bad_of [] = []
  bad_of ((k, v) ∷ values) = let rest = bad_of values in if good_value k v then rest else k ∷ rest

  -- A step, or what is wrong.
  pub data Checked : Type 0 where
    good : RunbookStep → Checked
    bad : Problem → Checked

  abbrev pub checked_params : Text → Dict Text Value → List Text → List Text → List Text → Checked
  checked_params kind values [] [] [] = good (record { kind = kind; values = values })
  checked_params kind values missing unknown bads = bad (bad_params kind missing unknown bads)

  abbrev pub with_spec : Text → Params → Option Spec → Checked
  with_spec kind ps none = bad (unknown_kind (some kind))
  with_spec kind no_dict (some s) = bad (params_no_dict kind)
  with_spec kind (params values) (some s) =
      checked_params kind values (missing_of s values) (unknown_of s values) (bad_of values)

  unfoldable pub check_entry : Entry → Checked
  check_entry no_entry = bad (unknown_kind none)
  check_entry (entry none ps) = bad (unknown_kind none)
  check_entry (entry (some kind) ps) = with_spec kind ps (dict_get runbook_kinds kind)

  abbrev pub steps_in : List Checked → List RunbookStep
  steps_in [] = []
  steps_in (good s ∷ cs) = s ∷ steps_in cs
  steps_in (bad p ∷ cs) = steps_in cs

  abbrev pub problems_in : List Checked → List Problem
  problems_in [] = []
  problems_in (good s ∷ cs) = problems_in cs
  problems_in (bad p ∷ cs) = p ∷ problems_in cs

  -- `(steps, [])` or `(None, problems)`
  pub data Validated : Type 0 where
    accepted : List RunbookStep → Validated
    refused : List Problem → Validated

  abbrev pub by_problems : List Problem → List RunbookStep → Validated
  by_problems [] steps = accepted steps
  by_problems (p ∷ ps) steps = refused (p ∷ ps)

  unfoldable pub validate_runbook : Raw → Validated
  unfolding check_entry
  validate_runbook absent = accepted []
  validate_runbook no_list = refused (no_runbook_list ∷ [])
  validate_runbook (entries es) =
      let checked = map check_entry es in
      if leb (length es) 10
      then by_problems (problems_in checked) (steps_in checked)
      else refused (too_many_steps (length es) ∷ [])

-- The parameters that `build_commands` and `run_step` read by `params["..."]`: none where a key is
-- missing or its value is of the wrong type.
abbrev pub text_in : Option Value → Option Text
text_in (some (text v)) = some v
text_in _ = none

abbrev pub text_at : Dict Text Value → Text → Option Text
text_at values key = text_in (dict_get values key)

abbrev pub all_texts : List (Option Text) → Option (List Text)
all_texts [] = some []
all_texts (none ∷ ps) = none
all_texts (some p ∷ ps) = elim (all_texts ps) [ none ↦ none | some rest ↦ some (p ∷ rest) ]

abbrev pub paths_in : Option Value → Option (List Text)
paths_in (some (list ps)) = all_texts ps
paths_in _ = none

abbrev pub paths_at : Dict Text Value → Option (List Text)
paths_at values = paths_in (dict_get values (codes "paths"))

abbrev pub both : {A B : Type 0} → (A → B → Operation) → Option A → Option B → Option Operation
both f (some a) (some b) = some (f a b)
both f _ _ = none

abbrev pub one : (Text → Operation) → Option Text → Option Operation
one f none = none
one f (some a) = some (f a)

unfoldable pub operation_of : RunbookStep → Option Operation
operation_of s =
    if s.kind == codes "commit_paths"
    then both commit_paths (paths_at s.values) (text_at s.values (codes "message"))
    else if s.kind == codes "push"
    then some (push (text_at s.values (codes "branch")))
    else if s.kind == codes "merge_ff"
    then both merge_ff (text_at s.values (codes "source")) (text_at s.values (codes "target"))
    else if s.kind == codes "branch_create"
    then both branch_create (text_at s.values (codes "name")) (text_at s.values (codes "base"))
    else if s.kind == codes "switch"
    then one switch (text_at s.values (codes "branch"))
    else none
