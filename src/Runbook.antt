-- ===== src/Runbook.antt =====
-- The execution of a step of a runbook, orchestrator/runbook.py: `build_commands`, `render_step`,
-- and `run_step` with its runner. A step is one of the catalogue; the shell of
-- the host (`run`) and `shlex.quote` are parameters, and so is Python's character table. Of a return
-- code the code reads only whether it is 0. The wording of the report is left out, not its content:
-- the transcript has each command with what it gave.
pub mod Quiet
pub mod Order
pub mod Catalogue
use taka_ma.Common.{
  ℕ, Bool, true, false, not, ◌&&◌, ◌||◌, Option, none, some, List, [], ◌∷◌, ◌++◌, map,
  if◌then◌else◌, ◌==◌, list_eq, nat_eq, Text, codes, joined, CharTable, strip, strip_left,
  first_piece,
}
use taka_ma.Routing.{truthy}

-- `kind` and `params` of a step
pub data Operation : Type 0 where
  commit_paths : List Text → Text → Operation
  push : Option Text → Operation
  merge_ff : Text → Text → Operation
  branch_create : Text → Text → Operation
  switch : Text → Operation

abbrev pub kind_of : Operation → Text
kind_of (commit_paths paths message) = codes "commit_paths"
kind_of (push branch) = codes "push"
kind_of (merge_ff source target) = codes "merge_ff"
kind_of (branch_create name base) = codes "branch_create"
kind_of (switch branch) = codes "switch"

-- What a RunbookError says of a step: its phase.
pub data Phase : Type 0 where
  precondition failed : Phase

abbrev phase_name : Phase → Text
phase_name precondition = codes "precondition"
phase_name failed = codes "failed"

-- The cause that `_fail` gives the error
pub cause_of : Phase → Operation → Text
cause_of phase op = codes "runbook_" ++ (phase_name phase ++ (codes ":" ++ kind_of op))

abbrev pub is_empty : Text → Bool
is_empty [] = true
is_empty (c ∷ cs) = false

abbrev exec_timeout_sec : ℕ
exec_timeout_sec = 30

abbrev push_timeout_sec : ℕ
push_timeout_sec = 60

-- What the steps of a runbook use of the host: the state of the world, and what a command with its
-- time limit does to it, with whether its return code is 0, and its output.
pub record Host : Type 1 where
  pub State : Type 0
  pub run : State → Text → ℕ → State × Bool × Text
  pub quote : Text → Text
  pub chars : CharTable

module _ (host : Host) where
  -- `_Runner`
  pub record Runner : Type 0 where
    pub state : host.State
    pub transcript : List (Text × Bool × Text)
    pub executed : List Text

  -- A result, or a RunbookError: its phase and its cause.
  pub data Result (A : Type 0) : Type 0 where
    done : A → Result A
    stopped : Phase → Text → Result A

  abbrev pub Step : Type 0 → Type 0
  Step A = Runner → Runner × Result A

  abbrev pub then_result : {A B : Type 0} → Runner → Result A → (A → Step B) → Runner × Result B
  then_result r (done a) next = next a r
  then_result r (stopped phase cause) next = (r, stopped phase cause)

  infixl 5 ◌>>=◌ ◌>>◌
  abbrev pub ◌>>=◌ : {A B : Type 0} → Step A → (A → Step B) → Step B
  step >>= next = λ r. let (after, a) = step r in then_result after a next

  abbrev pub ◌>>◌ : {B : Type 0} → Step Unit → Step B → Step B
  step >> next = step >>= λ _. next

  abbrev pub give : {A : Type 0} → A → Step A
  give a = λ r. (r, done a)

  -- `raise _fail(kind, phase, ...)`
  abbrev pub fail_unless : Bool → Phase → Operation → Step Unit
  fail_unless true phase op = give tt
  fail_unless false phase op = λ r. (r, stopped phase (cause_of phase op))

  pub probe : Text → ℕ → Step (Bool × Text)
  probe command timeout = λ r.
      let (after, ok, output) = host.run r.state command timeout in
      let out = strip host.chars output in
      (
        record r { state = after; transcript = r.transcript ++ ((command, ok, out) ∷ []) },
        done (ok, out),
      )

  pub exec : Text → ℕ → Step (Bool × Text)
  exec command timeout =
      λ r. probe command timeout (record r { executed = r.executed ++ (command ∷ []) })

  abbrev pub git : Text → List Text → Text
  git workspace parts = joined (codes " ") (codes "git" ∷ codes "-C" ∷ host.quote workspace ∷ parts)

  abbrev pub quoted_paths : List Text → Text
  quoted_paths paths = joined (codes " ") (map host.quote paths)

  abbrev pub quoted_or_head : Option Text → Text
  quoted_or_head none = codes "HEAD"
  quoted_or_head (some branch) = host.quote branch

  unfoldable pub build_commands : Text → Operation → List Text
  build_commands ws (commit_paths paths message) =
      git ws (codes "add" ∷ quoted_paths paths ∷ [])
      ∷ git ws (codes "commit" ∷ codes "-m" ∷ host.quote message ∷ [])
      ∷ []
  build_commands ws (push branch) =
      git ws (codes "push" ∷ codes "origin" ∷ quoted_or_head (truthy branch) ∷ []) ∷ []
  build_commands ws (merge_ff source target) =
      git ws (codes "switch" ∷ host.quote target ∷ [])
      ∷ git ws (codes "merge" ∷ codes "--ff-only" ∷ host.quote source ∷ [])
      ∷ []
  build_commands ws (branch_create name base) =
      git ws (codes "switch" ∷ codes "-c" ∷ host.quote name ∷ host.quote base ∷ []) ∷ []
  build_commands ws (switch branch) = git ws (codes "switch" ∷ host.quote branch ∷ []) ∷ []

  pub render_step : Text → Operation → Text
  unfolding build_commands
  render_step ws op = joined (codes "\n") (build_commands ws op)

  abbrev pub status_of : Text → List Text → Text
  status_of ws paths =
      git ws (codes "status" ∷ codes "--porcelain" ∷ codes "--" ∷ quoted_paths paths ∷ [])

  abbrev pub head_name : Text → Text
  head_name ws = git ws (codes "rev-parse" ∷ codes "--abbrev-ref" ∷ codes "HEAD" ∷ [])

  abbrev pub tip_of : Text → Text → Text
  tip_of ws ref = git ws (codes "rev-parse" ∷ host.quote ref ∷ [])

  abbrev pub branch_exists : Text → Text → Text
  branch_exists ws branch =
      git ws
        (codes "rev-parse" ∷ codes "--verify" ∷ (codes "refs/heads/" ++ host.quote branch) ∷ [])

  abbrev pub remote_tip : Text → Text → Text
  remote_tip ws branch = git ws (codes "ls-remote" ∷ codes "origin" ∷ host.quote branch ∷ [])

  -- `text.split()[0]` of a text that is not blank
  abbrev pub first_word : Text → Text
  first_word text = first_piece host.chars.is_space (strip_left host.chars text)

  abbrev pub word_if : Bool × Text → Text
  word_if (ok, out) = if ok && not (is_empty out) then first_word out else []

  -- The conditions before the commands.
  abbrev pub require : Text → Operation → Step Unit
  require command op = do p ← probe command exec_timeout_sec; fail_unless p.0 precondition op

  -- The working tree has no changes.
  abbrev pub clean : Text → Operation → Step Unit
  clean ws op = do
    p ← probe (git ws (codes "status" ∷ codes "--porcelain" ∷ [])) exec_timeout_sec
    fail_unless (p.0 && is_empty p.1) precondition op

  abbrev pub before_push : Text → Option Text → Option Text → Step Unit
  before_push ws branch none = give tt
  before_push ws branch (some b) = require (branch_exists ws b) (push branch)

  abbrev pub before_kind : Text → Operation → Step Unit
  before_kind ws (commit_paths paths message) = do
    p ← probe (status_of ws paths) exec_timeout_sec
    fail_unless (p.0 && not (is_empty p.1)) precondition (commit_paths paths message)
  before_kind ws (push branch) = before_push ws branch (truthy branch)
  before_kind ws (merge_ff source target) = do
    clean ws (merge_ff source target)
    require (branch_exists ws source) (merge_ff source target)
    require (branch_exists ws target) (merge_ff source target)
    require
        (git ws
          (codes "merge-base" ∷ codes "--is-ancestor" ∷ host.quote target ∷ host.quote source ∷ []))
        (merge_ff source target)
  before_kind ws (branch_create name base) = do
    p ← probe (branch_exists ws name) exec_timeout_sec
    fail_unless (not p.0) precondition (branch_create name base)
    require (git ws (codes "rev-parse" ∷ codes "--verify" ∷ host.quote base ∷ []))
        (branch_create name base)
  before_kind ws (switch branch) = do
    clean ws (switch branch)
    require (branch_exists ws branch) (switch branch)

  abbrev pub before : Text → Operation → Step Unit
  before ws op = do
    require (git ws (codes "rev-parse" ∷ codes "--is-inside-work-tree" ∷ [])) op
    before_kind ws op

  -- The commands, up to the first that fails.
  pub exec_all : Operation → ℕ → List Text → Step Unit
  unfolding exec
  exec_all op timeout [] = give tt
  exec_all op timeout (command ∷ commands) = do
    p ← exec command timeout
    fail_unless p.0 failed op
    exec_all op timeout commands

  abbrev pub timeout_of : Operation → ℕ
  timeout_of (push branch) = push_timeout_sec
  timeout_of _ = exec_timeout_sec

  -- `out if rc == 0 and out else None`
  abbrev pub branch_if : Bool × Text → Option Text
  branch_if (ok, []) = none
  branch_if (ok, c ∷ cs) = if ok then some (c ∷ cs) else none

  abbrev pub pushed_branch : Text → Option Text → Step (Option Text)
  pushed_branch ws (some b) = give (some b)
  pushed_branch ws none = do p ← probe (head_name ws) exec_timeout_sec; give (branch_if p)

  -- The tips of the branch, here and on the remote.
  abbrev pub tips : Text → Option Text → Step (Text × Text)
  tips ws none = give ([], [])
  tips ws (some b) = do
    local ← probe (tip_of ws b) exec_timeout_sec
    remote ← probe (remote_tip ws b) push_timeout_sec
    give (word_if local, word_if remote)

  abbrev pub same_tips : Text × Text → Bool
  same_tips (local, remote) = not (is_empty local) && (not (is_empty remote) && local == remote)

  -- The measurements after the commands.
  abbrev pub after_kind : Text → Operation → Step Unit
  after_kind ws (commit_paths paths message) = do
    p ← probe (status_of ws paths) exec_timeout_sec
    fail_unless (p.0 && is_empty p.1) failed (commit_paths paths message)
  after_kind ws (push branch) = do
    b ← pushed_branch ws (truthy branch)
    both ← tips ws b
    fail_unless (same_tips both) failed (push branch)
  after_kind ws (merge_ff source target) = do
    head ← probe (head_name ws) exec_timeout_sec
    there ← probe (tip_of ws target) exec_timeout_sec
    here ← probe (tip_of ws source) exec_timeout_sec
    fail_unless ((head.0 && head.1 == target) && (there.0 && (here.0 && there.1 == here.1))) failed
        (merge_ff source target)
  after_kind ws (branch_create name base) = do
    head ← probe (head_name ws) exec_timeout_sec
    there ← probe (git ws (codes "rev-parse" ∷ codes "HEAD" ∷ [])) exec_timeout_sec
    here ← probe (tip_of ws base) exec_timeout_sec
    fail_unless ((head.0 && head.1 == name) && (there.0 && (here.0 && there.1 == here.1))) failed
        (branch_create name base)
  after_kind ws (switch branch) = do
    head ← probe (head_name ws) exec_timeout_sec
    fail_unless (head.0 && head.1 == branch) failed (switch branch)

  pub new_runner : host.State → Runner
  new_runner state = record { state = state; transcript = []; executed = [] }

  unfoldable pub steps_of_run : Text → Operation → Step Unit
  unfolding probe exec_all build_commands
  steps_of_run ws op = do
    before ws op
    exec_all op (timeout_of op) (build_commands ws op)
    after_kind ws op

  pub run_step : host.State → Text → Operation → Runner × Result Unit
  unfolding steps_of_run new_runner
  run_step state ws op = steps_of_run ws op (new_runner state)
