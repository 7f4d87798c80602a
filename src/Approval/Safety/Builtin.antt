-- ===== src/Approval/Safety/Builtin.antt =====
-- The rules that stand in the code stay in force.
use taka_ma.Common.{
  ◌≡◌, true, not, ◌&&◌, Option, none, some, List, [], ◌∷◌, ◌++◌, Text, CharTable, ◌==◌, nat_eq,
  list_eq, if◌then◌else◌, contains, arith, text_eq_iff,
}
use taka_ma.Approval.Safety.{
  match_rule, first_match, union, union_from, normalize_command, is_match,
}

module _ (t : CharTable) where
  first_match-append :
      (command : Text) (xs ys : List Text) (r : Text)
      → first_match t command xs ≡ some r
      → first_match t command (xs ++ ys) ≡ some r
  first_match-append command [] ys r h = absurd (ground arith)
  first_match-append command (x ∷ xs) ys r h = ground (arith, first_match-append command xs ys r)

  first_match-union_from :
      (command : Text) (merged extra : List Text) (r : Text)
      → first_match t command merged ≡ some r
      → first_match t command (union_from merged extra) ≡ some r
  first_match-union_from command merged [] r h = h
  first_match-union_from command merged (rule ∷ extra) r h =
      first_match-union_from command
        (if not (rule == []) && not (contains merged rule) then merged ++ (rule ∷ []) else merged)
        extra r (ground (arith, first_match-append command merged (rule ∷ []) r h))

  -- A rule of the code's own list that matches is still the one that is found when the configuration
  -- adds rules, whatever they are.
  pub match_rule-union :
      (command : Text) (defaults : List Text) (extra : Option (List Text)) (r : Text)
      → match_rule t command defaults ≡ some r
      → match_rule t command (union defaults extra) ≡ some r
  unfolding match_rule union
  match_rule-union command defaults none r h = h
  match_rule-union command defaults (some extra) r h =
      first_match-union_from (normalize_command t command) defaults extra r h

  -- What is found is one of the rules, and it matches.
  pub match_rule_lem :
      (command rule : Text) (rules : List Text)
      → match_rule t command rules ≡ some rule
      → (contains rules rule ≡ true) × (is_match t (normalize_command t command) rule ≡ true)
  unfolding match_rule
  match_rule_lem command rule [] h = absurd (ground arith)
  match_rule_lem command rule (r ∷ rs) h =
      ground (arith, text_eq_iff r rule, match_rule_lem command rule rs)
