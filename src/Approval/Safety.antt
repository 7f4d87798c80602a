-- ===== src/Approval/Safety.antt =====
-- The static safety check of approval-pipeline/main.py: `_normalize_command`, `_union`,
-- `_match_rule` and the rules that stand in the code. The rules of the configuration are texts.
pub mod Found
pub mod Flags
pub mod Builtin
use taka_ma.Common.{
  ℕ, Bool, true, false, not, ◌&&◌, ◌||◌, Option, none, some, List, [], ◌∷◌, ◌++◌, map, Text, codes,
  CharTable, ◌==◌, nat_eq, list_eq, if◌then◌else◌, leb, ltb, strip, split_at, after_prefix, joined,
  lower_text, sorted, contains, all, length,
}

-- `DEFAULT_ALWAYS_DENY` and `DEFAULT_ALWAYS_ESCALATE`
abbrev pub default_always_deny : List Text
default_always_deny =
    codes "rm -rf /" ∷ codes "mkfs" ∷ codes "dd if=/dev/zero" ∷ codes ":(){:|:&};:" ∷ []

abbrev pub default_always_escalate : List Text
default_always_escalate = codes "sudo" ∷ codes "deploy" ∷ codes "production" ∷ []

abbrev pub exec_path_prefixes : List Text
exec_path_prefixes =
    codes "/usr/local/bin/"
    ∷ codes "/usr/bin/"
    ∷ codes "/usr/sbin/"
    ∷ codes "/bin/"
    ∷ codes "/sbin/"
    ∷ []

abbrev pub directive_prefixes : List Text
directive_prefixes = codes "Write to:" ∷ codes "Run:" ∷ codes "Execute:" ∷ []

-- The text after the first of the prefixes that it starts with.
abbrev pub after_first : List Text → Text → Option Text
after_first [] text = none
after_first (p ∷ ps) text =
    let rest = after_first ps text in
    elim (after_prefix text p) [ some tail ↦ some tail | none ↦ rest ]

abbrev is_ascii_letter : ℕ → Bool
is_ascii_letter c = (leb 65 c && leb c 90) || (leb 97 c && leb c 122)

-- `re.fullmatch(r"-[A-Za-z]{2,}", tok)`
abbrev pub is_flags : Text → Bool
is_flags [] = false
is_flags (c ∷ letters) = c == 45 && ltb 1 (length letters) && all is_ascii_letter letters

module _ (t : CharTable) where
  abbrev leads_space : Text → Bool
  leads_space [] = false
  leads_space (c ∷ cs) = t.is_space c

  -- `re.sub(r"\s+", " ", command)`
  abbrev pub collapse : Text → Text
  collapse [] = []
  collapse (c ∷ cs) =
      let rest = collapse cs in
      if t.is_space c then (if leads_space cs then rest else 32 ∷ rest) else c ∷ rest

  abbrev pub sorted_flags : Text → Text
  sorted_flags [] = []
  sorted_flags (c ∷ letters) =
      if is_flags (c ∷ letters) then 45 ∷ sorted (lower_text t letters) else c ∷ letters

  abbrev or_same : Text → Option Text → Text
  or_same text none = text
  or_same text (some tail) = tail

  abbrev on_first : List Text → List Text
  on_first [] = []
  on_first (token ∷ rest) = or_same token (after_first exec_path_prefixes token) ∷ rest

  abbrev pub normalize_tokens : Text → Text
  normalize_tokens [] = []
  normalize_tokens (c ∷ cs) =
      joined (32 ∷ []) (map sorted_flags (on_first (split_at (λ d. d == 32) (c ∷ cs))))

  abbrev without_directive : Text → Option Text → Text
  without_directive text none = text
  without_directive text (some tail) = strip t tail

  unfoldable pub normalize_command : Text → Text
  normalize_command command =
      let collapsed = strip t (collapse command) in
      normalize_tokens (without_directive collapsed (after_first directive_prefixes collapsed))

  -- `[\w/-]`
  abbrev pub is_part : ℕ → Bool
  is_part c = t.is_word c || c == 47 || c == 45

  abbrev pub is_open : Option ℕ → Bool
  is_open none = true
  is_open (some c) = not (is_part c)

  -- Whether the text starts with the rule, letters by `re.IGNORECASE`, and no word goes on after it.
  abbrev pub ends_here : Text → Text → Bool
  ends_here [] [] = true
  ends_here (c ∷ cs) [] = not (is_part c)
  ends_here [] (r ∷ rs) = false
  ends_here (c ∷ cs) (r ∷ rs) = t.same_letter r c && ends_here cs rs

  -- `re.search` of the rule with its two lookarounds, from a position on; `before` is the character
  -- in front of it.
  abbrev pub found : Option ℕ → Text → Text → Bool
  found before [] rule = is_open before && ends_here [] rule
  found before (c ∷ cs) rule = (is_open before && ends_here (c ∷ cs) rule) || found (some c) cs rule

  abbrev pub is_match : Text → Text → Bool
  is_match norm_command [] = false
  is_match norm_command (r ∷ rs) = found none norm_command (normalize_command (r ∷ rs))

  abbrev pub first_match : Text → List Text → Option Text
  first_match norm_command [] = none
  first_match norm_command (rule ∷ rules) =
      let rest = first_match norm_command rules in
      if is_match norm_command rule then some rule else rest

  unfoldable pub match_rule : Text → List Text → Option Text
  match_rule command rules = first_match (normalize_command command) rules

-- The loop of `_union`; `merged` holds the same rules as `seen`.
abbrev pub union_from : List Text → List Text → List Text
union_from merged [] = merged
union_from merged (rule ∷ extra) =
    union_from
      (if not (rule == []) && not (contains merged rule) then merged ++ (rule ∷ []) else merged)
      extra

-- `extra` is `none` where it is not a list.
unfoldable pub union : List Text → Option (List Text) → List Text
union defaults none = defaults
union defaults (some extra) = union_from defaults extra
