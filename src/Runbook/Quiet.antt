-- ===== src/Runbook/Quiet.antt =====
-- The measurements before and after the commands of a step of a runbook.
use mathlib.Core.List.{append_assoc, append-nil}
use taka_ma.Common.{
  ◌≡◌, refl, sym, ap, ◌∙◌, ℕ, Bool, true, false, not, ◌&&◌, Option, none, some, List, [], ◌++◌,
  Text, ◌==◌, list_eq, nat_eq, arith,
}
use taka_ma.Routing.{truthy}
use taka_ma.Runbook.{
  Operation, commit_paths, push, merge_ff, branch_create, switch, Phase, precondition, failed, Host,
  Runner, Result, done, stopped, Step, ◌>>=◌, ◌>>◌, then_result, give, fail_unless, probe, require,
  clean, before_push, before_kind, before, pushed_branch, tips, after_kind, is_empty, same_tips,
}

-- A command of the transcript, with whether its return code is 0, and its output.
abbrev pub Run : Type 0
Run = Text × Bool × Text

module _ (host : Host) where
  -- What is added to the transcript.
  abbrev pub IsLonger : List Run → List Run → Type 0
  IsLonger before after = (more : List Run) × (after ≡ before ++ more)

  IsLonger-trans : (xs ys zs : List Run) → IsLonger xs ys → IsLonger ys zs → IsLonger xs zs
  IsLonger-trans xs ys zs (a, e) (b, h) = (a ++ b, h ∙ ap (λ l. l ++ b) e ∙ append_assoc xs a b)

  IsLonger-refl : (xs : List Run) → IsLonger xs xs
  IsLonger-refl xs = ([], sym (append-nil xs))

  -- A step that runs no command that changes the repository, and stops only in one phase.
  pub record IsQuiet {A : Type 0} (phase : Phase) (step : Step host A) : Type 0 where
    pub same : (r : Runner host) → (step r).0.executed ≡ r.executed
    pub longer : (r : Runner host) → IsLonger r.transcript (step r).0.transcript
    pub phased :
        (r : Runner host) (p : Phase) (cause : Text) → (step r).1 ≡ stopped p cause → p ≡ phase

  abbrev phase_in : {A : Type 0} → Phase → Result host A → Phase
  phase_in other (done a) = other
  phase_in other (stopped p c) = p

  bind-IsQuiet :
      {A B : Type 0} (phase : Phase) (step : Step host A) (next : A → Step host B)
      → IsQuiet phase step
      → ((a : A) → IsQuiet phase (next a))
      → IsQuiet phase (◌>>=◌ host step next)
  bind-IsQuiet {A} {B} phase step next q k = record {
    same = λ r. after_same r (step r).1 refl;
    longer = λ r. after_longer r (step r).1 refl;
    phased = λ r p c h. after_phased r (step r).1 p c refl h;
  }
    where
      after_same :
          (r : Runner host) (a : Result host A)
          → (step r).1 ≡ a
          → (then_result host (step r).0 a next).0.executed ≡ r.executed
      after_same r (done a) e = (k a).same (step r).0 ∙ q.same r
      after_same r (stopped p c) e = q.same r

      after_longer :
          (r : Runner host) (a : Result host A)
          → (step r).1 ≡ a
          → IsLonger r.transcript (then_result host (step r).0 a next).0.transcript
      after_longer r (done a) e = IsLonger-trans _ _ _ (q.longer r) ((k a).longer (step r).0)
      after_longer r (stopped p c) e = q.longer r

      after_phased :
          (r : Runner host) (a : Result host A) (p : Phase) (c : Text)
          → (step r).1 ≡ a
          → (then_result host (step r).0 a next).1 ≡ stopped p c
          → p ≡ phase
      after_phased r (done a) p c e h = (k a).phased (step r).0 p c h
      after_phased r (stopped o d) p c e h = sym (ap (phase_in p) h) ∙ q.phased r o d e

  give-IsQuiet : {A : Type 0} (phase : Phase) (a : A) → IsQuiet phase (give host a)
  give-IsQuiet phase a = record {
    same = λ r. refl;
    longer = λ r. IsLonger-refl r.transcript;
    phased = λ r p c h. absurd (ground arith);
  }

  probe-IsQuiet :
      (phase : Phase) (command : Text) (timeout : ℕ) → IsQuiet phase (probe host command timeout)
  unfolding probe
  probe-IsQuiet phase command timeout = record {
    same = λ r. refl;
    longer = λ r. (_, refl);
    phased = λ r p c h. absurd (ground arith);
  }

  fail_unless-IsQuiet :
      (ok : Bool) (phase : Phase) (op : Operation) → IsQuiet phase (fail_unless host ok phase op)
  fail_unless-IsQuiet true phase op = give-IsQuiet phase tt
  fail_unless-IsQuiet false phase op = record {
    same = λ r. refl;
    longer = λ r. IsLonger-refl r.transcript;
    phased = λ r p c h. sym (ap (phase_in p) h);
  }

  check-IsQuiet :
      (phase : Phase) (command : Text) (timeout : ℕ) (passes : Bool × Text → Bool) (op : Operation)
      → IsQuiet phase
          (◌>>=◌ host (probe host command timeout) (λ p. fail_unless host (passes p) phase op))
  check-IsQuiet phase command timeout passes op =
      bind-IsQuiet phase (probe host command timeout) (λ p. fail_unless host (passes p) phase op)
        (probe-IsQuiet phase command timeout) (λ p. fail_unless-IsQuiet (passes p) phase op)

  require-IsQuiet :
      (command : Text) (op : Operation) → IsQuiet precondition (require host command op)
  require-IsQuiet command op = check-IsQuiet precondition command 30 (λ p. p.0) op

  clean-IsQuiet : (ws : Text) (op : Operation) → IsQuiet precondition (clean host ws op)
  clean-IsQuiet ws op = check-IsQuiet precondition _ 30 (λ p. p.0 && is_empty p.1) op

  then-IsQuiet :
      {B : Type 0} (phase : Phase) (step : Step host Unit) (next : Step host B)
      → IsQuiet phase step
      → IsQuiet phase next
      → IsQuiet phase (◌>>◌ host step next)
  then-IsQuiet phase step next q k = bind-IsQuiet phase step (λ _. next) q (λ _. k)

  before_push-IsQuiet :
      (ws : Text) (branch b : Option Text) → IsQuiet precondition (before_push host ws branch b)
  before_push-IsQuiet ws branch none = give-IsQuiet precondition tt
  before_push-IsQuiet ws branch (some b) = require-IsQuiet _ (push branch)

  before_kind-IsQuiet : (ws : Text) (op : Operation) → IsQuiet precondition (before_kind host ws op)
  before_kind-IsQuiet ws (commit_paths paths message) =
      check-IsQuiet precondition _ 30 (λ p. p.0 && not (is_empty p.1)) (commit_paths paths message)
  before_kind-IsQuiet ws (push branch) = before_push-IsQuiet ws branch (truthy branch)
  before_kind-IsQuiet ws (merge_ff source target) =
      let op = merge_ff source target in
      then-IsQuiet precondition _ _ (clean-IsQuiet ws op) (
        then-IsQuiet precondition _ _ (require-IsQuiet _ op)
          (then-IsQuiet precondition _ _ (require-IsQuiet _ op) (require-IsQuiet _ op)))
  before_kind-IsQuiet ws (branch_create name base) =
      let op = branch_create name base in
      bind-IsQuiet precondition (probe host _ 30) _ (probe-IsQuiet precondition _ 30) (λ p.
        then-IsQuiet precondition _ _ (fail_unless-IsQuiet (not p.0) precondition op)
          (require-IsQuiet _ op))
  before_kind-IsQuiet ws (switch branch) =
      then-IsQuiet precondition _ _ (clean-IsQuiet ws (switch branch))
        (require-IsQuiet _ (switch branch))

  pub before-IsQuiet : (ws : Text) (op : Operation) → IsQuiet precondition (before host ws op)
  before-IsQuiet ws op =
      then-IsQuiet precondition _ _ (require-IsQuiet _ op) (before_kind-IsQuiet ws op)

  pushed_branch-IsQuiet : (ws : Text) (b : Option Text) → IsQuiet failed (pushed_branch host ws b)
  pushed_branch-IsQuiet ws none =
      bind-IsQuiet failed (probe host _ 30) _ (probe-IsQuiet failed _ 30)
        (λ p. give-IsQuiet failed _)
  pushed_branch-IsQuiet ws (some b) = give-IsQuiet failed (some b)

  tips-IsQuiet : (ws : Text) (b : Option Text) → IsQuiet failed (tips host ws b)
  tips-IsQuiet ws none = give-IsQuiet failed ([], [])
  tips-IsQuiet ws (some b) =
      bind-IsQuiet failed (probe host _ 30) _ (probe-IsQuiet failed _ 30) (λ l.
        bind-IsQuiet failed (probe host _ 60) _ (probe-IsQuiet failed _ 60)
          (λ r. give-IsQuiet failed _))

  three-IsQuiet :
      (a b c : Text) (passes : Bool × Text → Bool × Text → Bool × Text → Bool) (op : Operation)
      → IsQuiet failed (
          ◌>>=◌ host (probe host a 30) (λ x.
            ◌>>=◌ host
              (probe host b 30)
              (λ y. ◌>>=◌ host (probe host c 30) (λ z. fail_unless host (passes x y z) failed op))))
  three-IsQuiet a b c passes op =
      bind-IsQuiet failed (probe host a 30) _ (probe-IsQuiet failed a 30) (λ x.
        bind-IsQuiet failed (probe host b 30) _ (probe-IsQuiet failed b 30)
          (λ y. check-IsQuiet failed c 30 (passes x y) op))

  pub after_kind-IsQuiet : (ws : Text) (op : Operation) → IsQuiet failed (after_kind host ws op)
  after_kind-IsQuiet ws (commit_paths paths message) =
      check-IsQuiet failed _ 30 (λ p. p.0 && is_empty p.1) (commit_paths paths message)
  after_kind-IsQuiet ws (push branch) =
      bind-IsQuiet failed (pushed_branch host ws (truthy branch)) _
        (pushed_branch-IsQuiet ws (truthy branch))
        (λ b.
          bind-IsQuiet failed (tips host ws b) _ (tips-IsQuiet ws b)
            (λ both. fail_unless-IsQuiet (same_tips host both) failed (push branch)))
  after_kind-IsQuiet ws (merge_ff source target) =
      three-IsQuiet _ _ _
        (λ head there here.
          (head.0 && head.1 == target) && (there.0 && (here.0 && there.1 == here.1)))
        (merge_ff source target)
  after_kind-IsQuiet ws (branch_create name base) =
      three-IsQuiet _ _ _
        (λ head there here.
          (head.0 && head.1 == name) && (there.0 && (here.0 && there.1 == here.1)))
        (branch_create name base)
  after_kind-IsQuiet ws (switch branch) =
      check-IsQuiet failed _ 30 (λ p. p.0 && p.1 == branch) (switch branch)
