-- ===== src/Examples/Approval.antt =====
-- Requests for approval at concrete inputs.
use taka_ma.Common.{
  ◌==◌, ◌≡◌, ◌≢◌, ◌↔◌, ◌⊎◌, inl, refl, ℕ, zero, suc, ◌≤◌, not, ◌&&◌, ◌||◌, if◌then◌else◌, List, [],
  ◌∷◌, ◌++◌, some, none, codes, true, false, Text, arith, ascii, nat_eq, list_eq,
}
use taka_ma.Approval.Types.{PendingApproval, headless, operation_str, decision_of, safety_deny}
use taka_ma.Approval.Safety.{match_rule, union, normalize_command, default_always_deny, found}
use taka_ma.Approval.Safety.Found.{StandsIn, found_iff}
use taka_ma.Approval.Store.{
  Store, Record, Status, pending, approved, rejected, read, find_held, find_carryover, claim_hold,
  resolve_approval,
}
use taka_ma.Approval.Store.Once.{Move, press, claim, finish, run_moves, is_open, run_moves-accepts}
use taka_ma.Approval.Store.Kept.{
  IsKeptBut, Writing, by_move, mark, run_writings, run_writings-IsKept,
}
use taka_ma.Approval.Tier2.{Parsed, Run, timed_out, exited, verdict, review}
use taka_ma.Approval.Tier2.Allowed.{is_timeout, review_lem, approves}
use taka_ma.Approval.Tier3.{World, Context, ask_human, poll_from, poll_decision, collected}
use taka_ma.Approval.Tier3.Waiting.{poll_decision-enough}
use taka_ma.Approval.Tier3.Answered.{
  approved_record, done_record, same_evidence, held_record, ask_human-allow, ask_human-hold,
}
use taka_ma.Approval.Tier3.Human.{ask_human-unapproved}
use taka_ma.Approval.Decide.{
  pipeline_of, SafetyConfig, Request, Collaborators, State, audited, decide, process, entry_of,
}
use taka_ma.Approval.Decide.Denied.{
  decide-builtin, is_for_human, carries_approval, decide-unapproved,
}
use taka_ma.Approval.Decide.Audited.{keys_for, process-audit}
use taka_ma.Approval.Decide.Allowed.{IsAllowed, decide-IsAllowed}

abbrev bash : Text → PendingApproval
bash text = record {
  tool_name = codes "Bash";
  tool_input = (codes "command", text) ∷ [];
  tool_use_id = [];
  context = [];
  source = headless;
  cwd = [];
}

abbrev request : Request
request = record {
  instance_id = codes "w1";
  team_id = none;
  channel = none;
  task_id = codes "T1";
  thread_ts = none;
}

-- The button is pressed before the first reading, or by nobody.
abbrev pressed : ℕ → List Move
pressed zero = press (codes "r1") approved (codes "U1") ∷ []
pressed (suc n) = []

abbrev nobody : ℕ → List Move
nobody n = []

abbrev world : (ℕ → List Move) → World
world moves = record {
  hold_grace = 3;
  poll_interval = 1;
  time_left = none;
  run_probe = none;
  sends = true;
  moves = moves;
  last_moves = [];
  dumps = λ d. [];
}

abbrev collaborators : (ℕ → List Move) → ℕ → Collaborators
collaborators moves tier = record {
  chars = ascii;
  world = world moves;
  new_id = codes "r1";
  parse = λ out. verdict ((codes "decision", out) ∷ []);
  seconds = codes "60";
  runs = λ p n. exited true (codes "approve") [];
  classify = λ p. record { tier = some tier; reason = [] };
}

abbrev empty : Store
empty = record { waiting = []; done = [] }

abbrev start : State
start = record { store = empty; audit = []; posts = [] }

abbrev yaml : SafetyConfig
yaml = record { always_deny = none; always_escalate_to_human = some (codes "git push" ∷ []) }

-- The padded command, with its flags the other way round, is the one of the rule.
denied_rule :
    match_rule ascii (operation_str (λ d. []) (bash (codes "/bin/rm   -fr  /"))) default_always_deny
    ≡ some (codes "rm -rf /")
unfolding match_rule normalize_command operation_str
denied_rule = refl

decide-builtin_example :
    decide
      (pipeline_of none)
      (collaborators nobody 1)
      request
      (bash (codes "/bin/rm   -fr  /"))
      start
    ≡ audited
        (pipeline_of none)
        (collaborators nobody 1)
        request
        (bash (codes "/bin/rm   -fr  /"))
        0
        (decision_of false safety_deny (codes "always_deny: " ++ codes "rm -rf /"))
        start
decide-builtin_example =
    decide-builtin none (collaborators nobody 1) request (bash (codes "/bin/rm   -fr  /")) start
      (codes "rm -rf /") denied_rule

found_iff_example :
    (found ascii none (codes "cat /etc/sudoers") (codes "sudo") ≡ true)
    ↔ StandsIn ascii none (codes "cat /etc/sudoers") (codes "sudo")
found_iff_example = found_iff ascii (codes "cat /etc/sudoers") (codes "sudo")

abbrev printed : Text → Parsed
printed out = verdict ((codes "decision", out) ∷ [])

-- The first attempt times out and the second one approves.
abbrev second : ℕ → Run
second n = if n == 1 then timed_out else exited true (codes "approve") []

review_lem_example :
    let allowed =
      approves printed (second 1) || (is_timeout (second 1) && approves printed (second 2)) in
    ((review printed (codes "60") second).allow ≡ allowed)
    × ((review printed (codes "60") second).escalate ≡ not allowed)
review_lem_example = review_lem printed (codes "60") second

-- Both buttons, and the end of the wait in between.
abbrev moves : List Move
moves =
    claim (codes "r1")
    ∷ press (codes "r1") rejected (codes "U2")
    ∷ press (codes "r1") approved (codes "U1")
    ∷ finish (codes "r1")
    ∷ []

abbrev filed : Status → Record
filed status = record {
  request_id = codes "r1";
  task_id = codes "T1";
  instance_id = codes "w1";
  command = codes "ls";
  tool_name = codes "Bash";
  tool_input = [];
  context = [];
  risk_reason = [];
  status = status;
  held_at = false;
  decided_by = none;
  toctou_mismatch = false;
}

abbrev waiting : Status → Store
waiting status = record { waiting = (codes "r1", some (filed status)) ∷ []; done = [] }

run_moves-accepts_example :
    (run_moves (codes "r1") moves (waiting pending)).0
    ≤ (if is_open (read (waiting pending) (codes "r1")) then 1 else 0)
run_moves-accepts_example = run_moves-accepts (codes "r1") moves (waiting pending)

abbrev writings : List Writing
writings =
    by_move (press (codes "r1") rejected (codes "U2"))
    ∷ mark (codes "r1")
    ∷ by_move (claim (codes "r1"))
    ∷ by_move (finish (codes "r1"))
    ∷ []

run_writings-IsKept_example :
    IsKeptBut (codes "r1") (filed approved) (run_writings (codes "r1") writings (waiting approved))
run_writings-IsKept_example =
    run_writings-IsKept (codes "r1") (filed approved) writings (waiting approved) refl (inl refl)

abbrev context : Context
context = record {
  instance_id = codes "w1";
  risk_reason = [];
  team_id = none;
  channel = none;
  task_id = codes "T1";
  thread_ts = none;
}

allowed_now :
    (ask_human (world pressed) (codes "r1") (bash (codes "ls")) context empty).decision.allow ≡ true
unfolding ask_human poll_decision resolve_approval operation_str find_held
allowed_now = refl

ask_human-allow_example :
    let result = ask_human (world pressed) (codes "r1") (bash (codes "ls")) context empty in
    (find_held (codes "T1") empty ≡ none)
    × ((world pressed).sends ≡ true)
    × (approved_record (done_record (codes "r1") result.store) ≡ true)
    × (same_evidence none (collected (world pressed) (codes "r1") none (bash (codes "ls"))) ≡ true)
ask_human-allow_example =
    ask_human-allow (world pressed) (codes "r1") (bash (codes "ls")) context empty allowed_now

held_now :
    (ask_human (world nobody) (codes "r1") (bash (codes "ls")) context empty).decision.hold ≡ true
unfolding ask_human poll_decision claim_hold operation_str find_held
held_now = refl

ask_human-hold_example :
    let result = ask_human (world nobody) (codes "r1") (bash (codes "ls")) context empty in
    ((find_held (codes "T1") empty ≢ none) × (result.store ≡ empty) × (result.posts ≡ []))
    ⊎ (held_record (read result.store (codes "r1")) ≡ true)
ask_human-hold_example =
    ask_human-hold (world nobody) (codes "r1") (bash (codes "ls")) context empty held_now

ask_human-unapproved_example :
    (ask_human (world nobody) (codes "r1") (bash (codes "ls")) context empty).decision.allow ≡ false
ask_human-unapproved_example =
    ask_human-unapproved (world nobody) (codes "r1") (bash (codes "ls")) context empty (λ n. refl)
      refl

poll_decision-enough_example :
    poll_from (world pressed) (codes "r1") 9 0 0 3 (waiting pending)
    ≡ poll_decision (world pressed) (codes "r1") 3 (waiting pending)
poll_decision-enough_example =
    poll_decision-enough (world pressed) (codes "r1") 9 3 (waiting pending) (omega arith)
      (omega arith)

escalated :
    is_for_human
      (pipeline_of (some yaml))
      (collaborators nobody 1)
      request
      (bash (codes "git push"))
    ≡ true
unfolding match_rule normalize_command operation_str union pipeline_of
escalated = refl

uncarried : carries_approval (find_carryover (codes "T1") (bash (codes "git push")) empty) ≡ false
unfolding find_carryover
uncarried = refl

decide-unapproved_example :
    (decide
      (pipeline_of (some yaml))
      (collaborators nobody 1)
      request
      (bash (codes "git push"))
      start).0.allow
    ≡ false
decide-unapproved_example =
    decide-unapproved (pipeline_of (some yaml)) (collaborators nobody 1) request
      (bash (codes "git push")) start (λ n. refl) refl uncarried escalated

process-audit_example :
    let ((d, after), keys) =
      process (pipeline_of none) (collaborators nobody 1) request (bash (codes "ls")) start in
    (tier : ℕ) × (after.audit
      ≡ []
        ++ (entry_of (pipeline_of none) (collaborators nobody 1) request (bash (codes "ls")) tier d
            ∷ []))
    × (keys
        ≡ keys_for
            (entry_of
              (pipeline_of none)
              (collaborators nobody 1)
              request
              (bash (codes "ls"))
              tier
              d).decision)
process-audit_example =
    process-audit (pipeline_of none) (collaborators nobody 1) request (bash (codes "ls")) start

allowed_by_model :
    (decide
      (pipeline_of (some yaml))
      (collaborators nobody 1)
      request
      (bash (codes "ls"))
      start).0.allow
    ≡ true
unfolding decide match_rule normalize_command operation_str union pipeline_of find_carryover
allowed_by_model = refl

decide-IsAllowed_example :
    (match_rule ascii
        (operation_str (λ d. []) (bash (codes "ls")))
        (pipeline_of (some yaml)).always_deny
      ≡ none)
    × IsAllowed (pipeline_of (some yaml)) (collaborators nobody 1) request (bash (codes "ls")) start
decide-IsAllowed_example =
    decide-IsAllowed (pipeline_of (some yaml)) (collaborators nobody 1) request (bash (codes "ls"))
      start allowed_by_model
