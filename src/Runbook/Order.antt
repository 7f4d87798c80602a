-- ===== src/Runbook/Order.antt =====
-- Which commands that change the repository a step of a runbook runs.
use taka_ma.Common.{
  ◌≡◌, Bool, true, false, List, [], ◌∷◌, ◌++◌, map, all, ◌⊎◌, Text, list_eq, nat_eq,
}
use taka_ma.Runbook.Quiet.{Run}
use taka_ma.Runbook.{precondition, failed, Host, Runner, Result, done, stopped, before}

module _ (host : Host) where
  abbrev pub commands_of : List Run → List Text
  commands_of runs = map (λ x. x.0) runs

  abbrev pub all_ok : List Run → Bool
  all_ok runs = all (λ x. x.1) runs

  -- All of the runs succeed but the last.
  abbrev pub IsFirstFailure : List Run → Type 0
  IsFirstFailure runs =
      (oks : List Run) × (command : Text) × (output : Text) × (runs
        ≡ oks ++ ((command, false, output) ∷ []))
      × (all_ok oks ≡ true)

  -- How the commands end: all of them succeed, or the last that runs is the first that fails.
  abbrev IsEnd : {A : Type 0} → List Run → List Text → Result host A → Type 0
  IsEnd ran left (done a) = (left ≡ []) × (all_ok ran ≡ true)
  IsEnd ran left (stopped p cause) = (p ≡ failed) × IsFirstFailure ran

  -- What the commands that ran are of those there are.
  record IsRan {A : Type 0} (commands : List Text) (r : Runner host)
      (out : Runner host × Result host A) : Type 0 where
    ran : List Run
    left : List Text
    parts : commands_of ran ++ left ≡ commands
    recorded : out.0.executed ≡ r.executed ++ commands_of ran
    noted : out.0.transcript ≡ r.transcript ++ ran
    end : IsEnd ran left out.1

  -- By the result of a step: on success all of its commands ran, and each succeeded; none ran if a
  -- precondition failed; else all ran and succeeded and a measurement after them failed, or the last
  -- that ran, and nothing after it, is the first that failed.
  abbrev pub IsOutcome : List Run → List Run → List Text → Result host Unit → Type 0
  IsOutcome runs later left (done u) = (left ≡ []) × (all_ok runs ≡ true)
  IsOutcome runs later left (stopped precondition cause) = runs ≡ []
  IsOutcome runs later left (stopped failed cause) =
      ((left ≡ []) × (all_ok runs ≡ true)) ⊎ ((later ≡ []) × IsFirstFailure runs)

  -- The runs of the commands stand in a row in the transcript, between what was measured before and
  -- after them.
  abbrev pub IsOrdered : List Text → Runner host × Result host Unit → Type 0
  IsOrdered commands out =
      (before : List Run) × (runs : List Run) × (later : List Run) × (left : List Text)
      × (out.0.transcript ≡ before ++ (runs ++ later))
      × (out.0.executed ≡ commands_of runs)
      × (commands_of runs ++ left ≡ commands)
      × IsOutcome runs later left out.1
