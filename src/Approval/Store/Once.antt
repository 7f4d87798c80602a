-- ===== src/Approval/Store/Once.antt =====
-- A decision on an approval is taken once and kept, however its readers and writers interleave.
use taka_ma.Common.{
  ◌≡◌, refl, ◌⊎◌, inr, ◌≤◌, ◌+◌, ℕ, Bool, true, false, ◌&&◌, Option, none, some, List, [], ◌∷◌,
  Text, arith, dict_get, dict_get-dict_set, dict_get-dict_without, ◌==◌, nat_eq, list_eq,
  text_eq_iff, if◌then◌else◌,
}
use taka_ma.Approval.Store.{
  Status, is_decision, is_pending, Record, Store, read, write, resolve_approval, resolve_read,
  claim_hold, claim_read, finalize, moved, decided,
}

-- What the button and the end of the wait do, and the way of a file to `done/`. What a handler writes
-- into the record of its own request before that is not among these.
pub data Move : Type 0 where
  press : Text → Status → Text → Move
  claim : Text → Move
  finish : Text → Move

-- The store after a move, and how many presses of this request it accepted.
abbrev pub run_move : Text → Move → Store → ℕ × Store
run_move id (press other decision user) s =
    let result = resolve_approval other decision user s in
    (if result.0 && other == id then 1 else 0, result.1)
run_move id (claim other) s = (0, (claim_hold other s).1)
run_move id (finish other) s = (0, finalize other s)

abbrev pub run_moves : Text → List Move → Store → ℕ × Store
run_moves id [] s = (0, s)
run_moves id (m ∷ ms) s =
    let first = run_move id m s in let rest = run_moves id ms first.1 in (first.0 + rest.0, rest.1)

-- Whether the request can still be decided: its record waits, with the status pending.
abbrev pub is_open : Option Record → Bool
is_open none = false
is_open (some r) = is_pending r.status

module _ (id : Text) where
  pub read-write :
      (other : Text) (r : Record) (s : Store)
      → read (write other r s) id ≡ (if other == id then some r else read s id)
  read-write other r s = ground (arith, dict_get-dict_set s.waiting other id (some r))

  read-moved :
      (other : Text) (file : Option (Option Record)) (s : Store)
      → read (moved other file s) id ≡ none ⊎ read (moved other file s) id ≡ read s id
  read-moved other none s = inr refl
  read-moved other (some file) s = ground (arith, dict_get-dict_without s.waiting other id)

  -- What is left to accept: one press while the request is open, none after.
  abbrev left_to_accept : Store → ℕ
  left_to_accept s = if is_open (read s id) then 1 else 0

  resolve_read-le :
      (other : Text) (decision : Status) (user : Text) (o : Option Record) (s : Store)
      → read s other ≡ o
      → is_decision decision ≡ true
      → let result = resolve_read other decision user o s in
        (if result.0 && other == id then 1 else 0) + left_to_accept result.1 ≤ left_to_accept s
  resolve_read-le other decision user none s e d = ground arith
  resolve_read-le other decision user (some r) s e d =
      ground (arith, read-write other (decided decision user r) s, text_eq_iff other id)

  press-le :
      (other : Text) (decision : Status) (user : Text) (s : Store)
      → let result = resolve_approval other decision user s in
        (if result.0 && other == id then 1 else 0) + left_to_accept result.1 ≤ left_to_accept s
  unfolding resolve_approval
  press-le other decision user s =
      ground (arith, resolve_read-le other decision user (read s other) s refl)

  claim_read-le :
      (other : Text) (o : Option Record) (s : Store)
      → read s other ≡ o
      → left_to_accept (claim_read other o s).1 ≤ left_to_accept s
  claim_read-le other none s e = ground arith
  claim_read-le other (some r) s e =
      ground (arith, read-write other (record r { held_at = true }) s, text_eq_iff other id)

  moved-le :
      (other : Text) (file : Option (Option Record)) (s : Store)
      → left_to_accept (moved other file s) ≤ left_to_accept s
  moved-le other none s = omega arith
  moved-le other (some file) s = ground (arith, read-moved other (some file) s)

  run_move-le :
      (m : Move) (s : Store)
      → (run_move id m s).0 + left_to_accept (run_move id m s).1 ≤ left_to_accept s
  unfolding claim_hold finalize
  run_move-le (press other decision user) s = press-le other decision user s
  run_move-le (claim other) s = omega (arith, claim_read-le other (read s other) s refl)
  run_move-le (finish other) s = omega (arith, moved-le other (dict_get s.waiting other) s)

  run_moves-le :
      (ms : List Move) (s : Store)
      → (run_moves id ms s).0 + left_to_accept (run_moves id ms s).1 ≤ left_to_accept s
  run_moves-le [] s = omega arith
  run_moves-le (m ∷ ms) s = omega (arith, run_move-le m s, run_moves-le ms (run_move id m s).1)

-- However presses of the buttons, ends of waits and moves to `done/` interleave, at most one press of
-- a request is accepted, and none where its record is not waiting with the status pending.
pub run_moves-accepts :
    (id : Text) (moves : List Move) (s : Store)
    → (run_moves id moves s).0 ≤ (if is_open (read s id) then 1 else 0)
run_moves-accepts id moves s = omega (arith, run_moves-le id moves s)
