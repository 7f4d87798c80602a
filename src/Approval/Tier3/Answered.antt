-- ===== src/Approval/Tier3/Answered.antt =====
-- What the asking of a human answers.
use taka_ma.Common.{
  ◌≡◌, refl, ◌⊎◌, inl, inr, ◌≢◌, Bool, true, false, ◌&&◌, Option, none, some, List, [], ◌∷◌, Text,
  arith, dict_get, dict_get-dict_set, beq_refl, nat_eq, list_eq,
}
use taka_ma.Approval.Types.{PendingApproval}
use taka_ma.Approval.Store.{
  pending, approved, rejected, timeout, error, is_pending, is_approved, Store, read, readable,
  Record, Claim, hold, there, lost, write, find_held, finalize,
}
use taka_ma.Approval.Tier3.{
  World, Context, Probe, Post, claimed, settle, checked, by_verify, asked, by_held, ask_human,
  collected, poll_decision, budget_of, record_of,
}
use taka_ma.Approval.Tier3.Waiting.{fits, claimed-fits}

-- The record that `done/` holds of a request.
abbrev pub done_record : Text → Store → Option Record
done_record id s = readable (dict_get s.done id)

abbrev pub approved_record : Option Record → Bool
approved_record none = false
approved_record (some r) = is_approved r.status

-- The verification of the evidence finds nothing changed, where there is any evidence.
abbrev pub same_evidence : Option Probe → List Text → Bool
same_evidence none files = true
same_evidence (some probe) [] = true
same_evidence (some probe) (f ∷ fs) = elim (probe.verify (f ∷ fs)) [ some [] ↦ true | _ ↦ false ]

abbrev pub held_record : Option Record → Bool
held_record none = false
held_record (some r) = is_pending r.status && r.held_at

module _ (w : World) (id : Text) where
  finalize-done :
      (r : Record) (s : Store) → read s id ≡ some r → done_record id (finalize id s) ≡ some r
  unfolding finalize
  finalize-done r s e = ground (arith, dict_get-dict_set s.done id id (some r), beq_refl id)

  finalize-approved :
      (o : Option Record) (s : Store)
      → read s id ≡ o
      → approved_record o ≡ true
      → approved_record (done_record id (finalize id s)) ≡ true
  finalize-approved none s e h = absurd (ground arith)
  finalize-approved (some r) s e h = rw (finalize-done r s e) h

  checked-allow :
      (probe : Option Probe) (files : List Text) (s : Store) (posts : List Post)
      → approved_record (read s id) ≡ true
      → (checked w id probe files s posts).decision.allow ≡ true
      → (approved_record (done_record id (checked w id probe files s posts).store) ≡ true)
        × (same_evidence probe files ≡ true)
  checked-allow none files s posts a h = (finalize-approved (read s id) s refl a, refl)
  checked-allow (some probe) [] s posts a h = (finalize-approved (read s id) s refl a, refl)
  checked-allow (some probe) (f ∷ fs) s posts a h = go (probe.verify (f ∷ fs)) refl h
    where
      go :
          (v : Option (List Text))
          → probe.verify (f ∷ fs) ≡ v
          → (by_verify w id v s posts).decision.allow ≡ true
          → (approved_record (done_record id (by_verify w id (probe.verify (f ∷ fs)) s posts).store)
              ≡ true)
            × (same_evidence (some probe) (f ∷ fs) ≡ true)
      go none e k = absurd (ground arith)
      go (some (x ∷ xs)) e k = absurd (ground arith)
      go (some []) e k = rw e (finalize-approved (read s id) s refl a, refl)

  settle-allow :
      (files : List Text) (c : Claim) (s : Store) (posts : List Post)
      → fits c (read s id) ≡ true
      → (settle w id files (c, s) posts).decision.allow ≡ true
      → (approved_record (done_record id (settle w id files (c, s) posts).store) ≡ true)
        × (same_evidence w.run_probe files ≡ true)
  settle-allow files (there approved) s posts f h =
      checked-allow w.run_probe files s posts (ground arith) h
  settle-allow files (there rejected) s posts f h = absurd (ground arith)
  settle-allow files (there pending) s posts f h = absurd (ground arith)
  settle-allow files (there timeout) s posts f h = absurd (ground arith)
  settle-allow files (there error) s posts f h = absurd (ground arith)
  settle-allow files hold s posts f h = absurd (ground arith)
  settle-allow files lost s posts f h = absurd (ground arith)

  settle-hold :
      (files : List Text) (c : Claim) (s : Store) (posts : List Post)
      → fits c (read s id) ≡ true
      → (settle w id files (c, s) posts).decision.hold ≡ true
      → held_record (read (settle w id files (c, s) posts).store id) ≡ true
  settle-hold files (there approved) s posts f h = absurd (checked-hold w.run_probe files h)
    where
      checked-hold :
          (probe : Option Probe) (files : List Text)
          → (checked w id probe files s posts).decision.hold ≡ true
          → ⊥
      checked-hold none fs k = ground arith
      checked-hold (some probe) [] k = ground arith
      checked-hold (some probe) (x ∷ xs) k = ground arith
  settle-hold files (there rejected) s posts f h = absurd (ground arith)
  settle-hold files (there pending) s posts f h = absurd (ground arith)
  settle-hold files (there timeout) s posts f h = absurd (ground arith)
  settle-hold files (there error) s posts f h = absurd (ground arith)
  settle-hold files hold s posts f h = ground arith
  settle-hold files lost s posts f h = absurd (ground arith)

  asked_facts :
      (files : List Text) (s : Store)
      → let result = asked w id files s in
        (result.decision.allow ≡ true
          → (approved_record (done_record id result.store) ≡ true)
            × (same_evidence w.run_probe files ≡ true))
        × (result.decision.hold ≡ true → held_record (read result.store id) ≡ true)
  asked_facts files s =
      let budget = budget_of w id w.time_left in
      let c = claimed w id (poll_decision w id budget s) in
      let posts = Post.approval_request id ∷ [] in
      (
        settle-allow files c.0 c.1 posts (claimed-fits w id budget s),
        settle-hold files c.0 c.1 posts (claimed-fits w id budget s),
      )

-- An operation is allowed only where nothing else of the task was held, the request was sent, its
-- record stands approved in `done/`, and the evidence, where there is any, is what it was.
pub ask_human-allow :
    (w : World) (id : Text) (p : PendingApproval) (ctx : Context) (s : Store)
    → let result = ask_human w id p ctx s in
      result.decision.allow ≡ true
      → (find_held ctx.task_id s ≡ none)
        × (w.sends ≡ true)
        × (approved_record (done_record id result.store) ≡ true)
        × (same_evidence w.run_probe (collected w id w.run_probe p) ≡ true)
unfolding ask_human
ask_human-allow w id p ctx s h =
    ground
      (arith, asked_facts w id (collected w id w.run_probe p) (write id (record_of w id p ctx) s))

-- The decision is to hold only in two cases: the task was held already, and then neither the files
-- change nor is anything sent; or the record of the new request still waits, pending, with the
-- mark of the hold, so that the buttons still work.
pub ask_human-hold :
    (w : World) (id : Text) (p : PendingApproval) (ctx : Context) (s : Store)
    → let result = ask_human w id p ctx s in
      result.decision.hold ≡ true
      → ((find_held ctx.task_id s ≢ none) × (result.store ≡ s) × (result.posts ≡ []))
        ⊎ (held_record (read result.store id) ≡ true)
unfolding ask_human
ask_human-hold w id p ctx s h = go (find_held ctx.task_id s) refl h
  where
    files : List Text
    files = collected w id w.run_probe p

    go :
        (o : Option Text)
        → find_held ctx.task_id s ≡ o
        → (by_held w id o p ctx s).decision.hold ≡ true
        → ((o ≢ none)
            × ((by_held w id o p ctx s).store ≡ s)
            × ((by_held w id o p ctx s).posts ≡ []))
          ⊎ (held_record (read (by_held w id o p ctx s).store id) ≡ true)
    go (some held) e k = inl (ground arith, refl, refl)
    go none e k = inr (
        ground (
          arith,
          asked_facts w id (collected w id w.run_probe p) (write id (record_of w id p ctx) s),
        ))
