-- ===== src/Examples/Contract.antt =====
-- A contract of which only what was said is let through.
use taka_ma.Common.{
  ◌≡◌, refl, ◌≤◌, true, none, some, [], ◌∷◌, Text, codes, ascii, strip, length, IsDistinct, list_eq,
  nat_eq,
}
use taka_ma.Runbook.Catalogue.{good_param}
use taka_ma.Contract.{
  RawContract, raw_constraint, plain, item, target_list, sourced, quotes_of, good_target,
  check_directive, check_constraint, check_branch, check_target, noted, verbatim_in, is_verbatim,
  split_sourced,
}
use taka_ma.Contract.Quoted.{IsTargetOf, quotes_of-IsQuoted}
use taka_ma.Contract.Said.{IsQuoted}
use taka_ma.Contract.Checks.{Each, IfSome}

abbrev said : Text
said = codes "push src/a.py to main, but never rebase"

abbrev proposal : RawContract
proposal = record {
  directive = none;
  constraints = raw_constraint (some (codes "never rebase")) none true [] ∷ [];
  branch = some (plain (codes "main"));
  target_paths =
      target_list (sourced (some (codes "src/a.py")) none ∷ plain (codes "src/b.py") ∷ []);
  unmapped =
      item (some (codes "never rebase")) none (some (codes "docs/note.md")) none
      ∷ item (some (codes "by tomorrow")) none (some (codes "docs/plan.md")) none
      ∷ [];
}

-- A path of the conversation, and one that is proposed.
paths_let_through :
    (quotes_of ascii said none proposal).target_paths ≡ codes "src/a.py" ∷ codes "docs/note.md" ∷ []
unfolding quotes_of check_directive check_constraint check_branch check_target noted verbatim_in
    is_verbatim split_sourced
paths_let_through = refl

quotes_of-IsQuoted_example :
    let q = quotes_of ascii said none proposal in
    IfSome (λ d. (x : Text) × (d ≡ strip ascii x) × IsQuoted ascii said none x) q.directive
    × Each (λ c. IsQuoted ascii said none c.text) q.constraints
    × IfSome (λ b. IsQuoted ascii said none b × (good_param b ≡ true)) q.branch
    × Each (λ p. IsTargetOf ascii said none q p × (good_target p ≡ true)) q.target_paths
    × IsDistinct q.target_paths
    × (length q.target_paths ≤ 5)
quotes_of-IsQuoted_example = quotes_of-IsQuoted ascii said none proposal
