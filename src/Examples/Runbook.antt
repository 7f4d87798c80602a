-- ===== src/Examples/Runbook.antt =====
-- A runbook of one step, at a concrete host.
use mathlib.Core.List.{Memᴰ}
use taka_ma.Common.{
  ◌≡◌, refl, ◌≤◌, true, some, List, [], ◌∷◌, codes, ascii, length, if◌then◌else◌, has_part,
}
use taka_ma.Runbook.{Host, Operation, switch}
use taka_ma.Runbook.Catalogue.{
  Entry, entry, params, text, entries, RunbookStep, validate_runbook, check_entry, accepted,
  operation_of,
}
use taka_ma.Runbook.Catalogue.Accepted.{is_sound, validate_runbook-accepted}

-- Each command succeeds, and the branch is main.
abbrev host : Host
host = record {
  State = Unit;
  run = λ w command timeout.
      (w, true, if has_part command (codes "--abbrev-ref") then codes "main" else []);
  quote = λ word. word;
  chars = ascii;
}

abbrev to_main : Operation
to_main = switch (codes "main")

abbrev proposal : List Entry
proposal = entry (some (codes "switch")) (params ((codes "branch", text (codes "main")) ∷ [])) ∷ []

abbrev taken : List RunbookStep
taken = record { kind = codes "switch"; values = (codes "branch", text (codes "main")) ∷ [] } ∷ []

proposal-accepted : validate_runbook ascii (entries proposal) ≡ accepted taken
unfolding validate_runbook check_entry
proposal-accepted = refl

validate_runbook-accepted_example :
    (length proposal ≤ 10)
    × (length taken ≡ length proposal)
    × ((s : RunbookStep)
        → Memᴰ s taken
        → (op : Operation) × (operation_of s ≡ some op) × (is_sound ascii op ≡ true))
validate_runbook-accepted_example = validate_runbook-accepted ascii proposal taken proposal-accepted
