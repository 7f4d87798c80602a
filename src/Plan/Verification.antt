-- ===== src/Plan/Verification.antt =====
-- `is_verification_subtask` and `drop_verification_subtasks` of orchestrator/plan.py: the subtasks
-- that the exit gate does by itself are taken out of the plan, and what depended on one of them
-- takes over its dependencies.
pub mod Resolve
pub mod Dropped
use taka_ma.Common.{
  ◌≡◌, refl, ap, ◌∙◌, ◌≢◌, ◌⊎◌, inl, inr, ℕ, zero, suc, ◌+◌, ◌≤◌, ◌<◌, Bool, true, false, Option,
  none, some, List, [], ◌∷◌, ◌++◌, map, not, ◌&&◌, ◌||◌, if◌then◌else◌, length, keep, all, any,
  contains, dict_get, dict_has, dict_set, nat_eq, ◌==◌, arith, Bool-cases, Option-cases, Text,
  codes, has_part, Dict, contains-append, nat_beq_iff, dict_has_of_get, dict_has-dict_set,
  dict_get-dict_set, dict_get_of_has,
}
use taka_ma.Plan.Model.{Subtask, deps_of, command_of}

-- `_VERIFICATION_SUBTASK_RE`, an alternation of literals
abbrev verification_words : List Text
verification_words =
    codes "独立検証"
    ∷ codes "検証レポート"
    ∷ codes "検証報告"
    ∷ codes "検証結果レポート"
    ∷ codes "レビューレポート"
    ∷ codes "レビュー結果報告"
    ∷ codes "判定表"
    ∷ codes "全件突合"
    ∷ []

pub is_verification_text : Text → Bool
is_verification_text text = any (has_part text) verification_words

unfoldable pub is_verification_subtask : Subtask → Bool
unfolding is_verification_text
is_verification_subtask s = is_verification_text (command_of s)

-- `{s["step"]: list(s.get("depends_on") or []) for s in subtasks if ...}`
pub dropped_from : List Subtask → Dict ℕ (List ℕ) → Dict ℕ (List ℕ)
dropped_from [] d = d
dropped_from (s ∷ rest) d =
    dropped_from rest (if is_verification_subtask s then dict_set d s.step (deps_of s) else d)

-- `list(dict.fromkeys(out))`: each element at its first place
abbrev pub unique_from : List ℕ → List ℕ → List ℕ
unique_from seen [] = []
unique_from seen (x ∷ xs) =
    let old = unique_from seen xs in
    let new = unique_from (x ∷ seen) xs in if contains seen x then old else x ∷ new

abbrev pub unique : List ℕ → List ℕ
unique xs = unique_from [] xs

-- What one dependency adds to `out` in `_resolve`: the step itself, what its dependencies resolve to
-- if it is dropped (`inner` is the recursive call), or nothing if the chain has been there.
pub resolve_one : (List ℕ → List ℕ → List ℕ) → List ℕ → ℕ → Option (List ℕ) → List ℕ
resolve_one inner seen d none = d ∷ []
resolve_one inner seen d (some ds) = if contains seen d then [] else inner ds (d ∷ seen)

module _ (dropped : Dict ℕ (List ℕ)) where
  pub resolve_each : (List ℕ → List ℕ → List ℕ) → List ℕ → List ℕ → List ℕ
  unfolding resolve_one
  resolve_each inner [] seen = []
  resolve_each inner (d ∷ deps) seen =
      resolve_one inner seen d (dict_get dropped d) ++ resolve_each inner deps seen

  -- `_resolve`. `seen` grows along a chain of dropped steps and never holds a step twice, so the
  -- number of dropped steps bounds the depth (`resolve_iff_Chain` in the module Resolve).
  pub resolve : ℕ → List ℕ → List ℕ → List ℕ
  unfolding resolve_each
  resolve zero deps seen = unique (resolve_each (λ _ _. []) deps seen)
  resolve (suc fuel) deps seen = unique (resolve_each (resolve fuel) deps seen)

abbrev pub with_deps : Subtask → List ℕ → Subtask
with_deps s deps = record s { depends_on = some deps }

-- The comprehension that builds the new plan.
pub rewire : Dict ℕ (List ℕ) → List Subtask → List Subtask
unfolding resolve
rewire dropped [] = []
rewire dropped (s ∷ rest) =
    let others = rewire dropped rest in
    if dict_has dropped s.step
    then others
    else with_deps s (resolve dropped (length dropped) (deps_of s) []) ∷ others

pub drop_verification_subtasks : List Subtask → List Subtask
unfolding dropped_from rewire is_verification_subtask
drop_verification_subtasks subtasks =
    let dropped = dropped_from subtasks [] in
    if length dropped == 0 || length dropped == length subtasks
    then subtasks
    else rewire dropped subtasks
