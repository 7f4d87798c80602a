-- ===== src/Approval/Tier3/Human.antt =====
-- No approval without a press of the button.
use taka_ma.Common.{
  ◌≡◌, refl, ℕ, zero, suc, ◌+◌, Bool, true, false, Option, none, some, List, [], ◌∷◌, Text, arith,
  any, dict_get, dict_get-dict_without, ◌==◌, nat_eq, list_eq, beq_refl,
}
use taka_ma.Approval.Types.{PendingApproval}
use taka_ma.Approval.Store.{
  Status, pending, approved, rejected, timeout, error, Store, read, Record, Claim, hold, there,
  lost, claim_hold, claim_read, write, finalize, moved, resolve_approval, resolve_read, decided,
}
use taka_ma.Approval.Store.Once.{Move, press, claim, finish, run_move, run_moves, read-write}
use taka_ma.Approval.Tier3.{
  World, Context, Post, approval_request, claimed, settle, asked, ask_human, collected, poll_from,
  poll_decision, budget_of, record_of,
}
use taka_ma.Approval.Tier3.Waiting.{fits, claimed-fits}
use taka_ma.Approval.Tier3.Answered.{approved_record}

-- The move approves this request.
abbrev pub is_approval_of : Text → Move → Bool
is_approval_of id (press other approved user) = other == id
is_approval_of id _ = false

module _ (id : Text) where
  resolve_read-unapproved :
      (other : Text) (decision : Status) (user : Text) (o : Option Record) (s : Store)
      → is_approval_of id (press other decision user) ≡ false
      → approved_record (read s id) ≡ false
      → approved_record (read (resolve_read other decision user o s).1 id) ≡ false
  resolve_read-unapproved other decision user none s n a = a
  resolve_read-unapproved other decision user (some r) s n a =
      ground (arith, read-write id other (decided decision user r) s)

  press-unapproved :
      (other : Text) (decision : Status) (user : Text) (s : Store)
      → is_approval_of id (press other decision user) ≡ false
      → approved_record (read s id) ≡ false
      → approved_record (read (resolve_approval other decision user s).1 id) ≡ false
  unfolding resolve_approval
  press-unapproved other decision user s n a =
      ground (arith, resolve_read-unapproved other decision user (read s other) s n a)

  claim_read-unapproved :
      (other : Text) (o : Option Record) (s : Store)
      → read s other ≡ o
      → approved_record (read s id) ≡ false
      → approved_record (read (claim_read other o s).1 id) ≡ false
  claim_read-unapproved other none s e a = a
  claim_read-unapproved other (some r) s e a =
      ground (arith, read-write id other (record r { held_at = true }) s)

  moved-unapproved :
      (other : Text) (file : Option (Option Record)) (s : Store)
      → approved_record (read s id) ≡ false
      → approved_record (read (moved other file s) id) ≡ false
  moved-unapproved other none s a = a
  moved-unapproved other (some file) s a = ground (arith, dict_get-dict_without s.waiting other id)

  run_move-unapproved :
      (m : Move) (s : Store)
      → is_approval_of id m ≡ false
      → approved_record (read s id) ≡ false
      → approved_record (read (run_move id m s).1 id) ≡ false
  unfolding claim_hold finalize
  run_move-unapproved (press other decision user) s n a = press-unapproved other decision user s n a
  run_move-unapproved (claim other) s n a = claim_read-unapproved other (read s other) s refl a
  run_move-unapproved (finish other) s n a = moved-unapproved other (dict_get s.waiting other) s a

  run_moves-unapproved :
      (ms : List Move) (s : Store)
      → any (is_approval_of id) ms ≡ false
      → approved_record (read s id) ≡ false
      → approved_record (read (run_moves id ms s).1 id) ≡ false
  run_moves-unapproved [] s n a = a
  run_moves-unapproved (m ∷ ms) s n a =
      run_moves-unapproved ms (run_move id m s).1 (ground arith)
        (run_move-unapproved m s (ground arith) a)

module _ (w : World) (id : Text) (unasked : (n : ℕ) → any (is_approval_of id) (w.moves n) ≡ false)
    (unasked_last : any (is_approval_of id) w.last_moves ≡ false) where
  poll_from-unapproved :
      (fuel n elapsed budget : ℕ) (s : Store)
      → approved_record (read s id) ≡ false
      → approved_record (read (poll_from w id fuel n elapsed budget s).1 id) ≡ false
  poll_from-unapproved zero n elapsed budget s a = a
  poll_from-unapproved (suc fuel) n elapsed budget s a =
      let now = run_moves-unapproved id (w.moves n) s (unasked n) a in
      ground (
        arith,
        poll_from-unapproved fuel (suc n) (elapsed + w.poll_interval) budget
            (run_moves id (w.moves n) s).1 now,
      )

  claimed-unapproved :
      (o : Option Status) (s : Store)
      → approved_record (read s id) ≡ false
      → approved_record (read (claimed w id (o, s)).1 id) ≡ false
  unfolding claim_hold
  claimed-unapproved none s a =
      let last = (run_moves id w.last_moves s).1 in
      claim_read-unapproved id id (read last id) last refl
        (run_moves-unapproved id w.last_moves s unasked_last a)
  claimed-unapproved (some status) s a = a

  settle-unapproved :
      (files : List Text) (c : Claim) (s : Store) (posts : List Post)
      → fits c (read s id) ≡ true
      → approved_record (read s id) ≡ false
      → (settle w id files (c, s) posts).decision.allow ≡ false
  settle-unapproved files (there approved) s posts f a = absurd (ground arith)
  settle-unapproved files (there rejected) s posts f a = refl
  settle-unapproved files (there pending) s posts f a = refl
  settle-unapproved files (there timeout) s posts f a = refl
  settle-unapproved files (there error) s posts f a = refl
  settle-unapproved files hold s posts f a = refl
  settle-unapproved files lost s posts f a = refl

  asked-unapproved :
      (files : List Text) (s : Store)
      → approved_record (read s id) ≡ false
      → (asked w id files s).decision.allow ≡ false
  unfolding poll_decision
  asked-unapproved files s a =
      let budget = budget_of w id w.time_left in
      let polled = poll_from w id budget 0 0 budget s in
      let c = claimed w id polled in
      settle-unapproved files c.0 c.1 (approval_request id ∷ []) (claimed-fits w id budget s)
        (claimed-unapproved polled.0 polled.1 (poll_from-unapproved budget 0 0 budget s a))

-- Where nobody presses the button that approves this request, the operation is not allowed,
-- whatever else happens to the files in the meantime.
pub ask_human-unapproved :
    (w : World) (id : Text) (p : PendingApproval) (ctx : Context) (s : Store)
    → ((n : ℕ) → any (is_approval_of id) (w.moves n) ≡ false)
    → any (is_approval_of id) w.last_moves ≡ false
    → (ask_human w id p ctx s).decision.allow ≡ false
unfolding ask_human
ask_human-unapproved w id p ctx s unasked unasked_last = ground (
  arith,
  asked-unapproved w id unasked unasked_last (collected w id w.run_probe p)
      (write id (record_of w id p ctx) s)
      (ground (arith, read-write id id (record_of w id p ctx) s, beq_refl id)),
)
