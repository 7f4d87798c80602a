-- ===== src/Approval/Store/Kept.antt =====
-- What was decided on an approval stays, in the directory or in its `done/`.
use taka_ma.Common.{
  ◌≡◌, refl, ap, ◌∙◌, ◌==◌, ◌⊎◌, inl, inr, true, false, Option, none, some, List, [], ◌∷◌, Text,
  arith, Bool-cases, dict_get, dict_get-dict_set, dict_get-dict_without, nat_eq, list_eq,
  text_eq_iff,
}
use taka_ma.Approval.Store.{
  Status, is_pending, Record, Store, read, write, resolve_approval, resolve_read, claim_hold,
  claim_read, finalize, moved, decided, with_mark,
}
use taka_ma.Approval.Store.Once.{Move, press, claim, finish, run_move}

-- The record stands in the directory, or it was taken to `done/`.
abbrev pub IsKept : Text → Record → Store → Type 0
IsKept id r s =
    (dict_get s.waiting id ≡ some (some r))
    ⊎ ((dict_get s.waiting id ≡ none) × (dict_get s.done id ≡ some (some r)))

module _ (id : Text) (r : Record) (decided_already : is_pending r.status ≡ false) where
  -- A write to another request, or over a pending record, leaves this one.
  write-IsKept :
      (other : Text) (q new : Record) (s : Store)
      → read s other ≡ some q
      → is_pending q.status ≡ true
      → IsKept id r s
      → IsKept id r (write other new s)
  write-IsKept other q new s e p (inl here) =
      inl (ground (arith, dict_get-dict_set s.waiting other id (some new), text_eq_iff other id))
  write-IsKept other q new s e p (inr (gone, there)) =
      inr (ground (arith, dict_get-dict_set s.waiting other id (some new), text_eq_iff other id))

  resolve_read-IsKept :
      (other : Text) (decision : Status) (user : Text) (o : Option Record) (s : Store)
      → read s other ≡ o
      → IsKept id r s
      → IsKept id r (resolve_read other decision user o s).1
  resolve_read-IsKept other decision user none s e k = k
  resolve_read-IsKept other decision user (some q) s e k = elim (Bool-cases (is_pending q.status)) [
    | inl p ↦ rw p (write-IsKept other q (decided decision user q) s e p k)
    | inr n ↦ rw n k
  ]

  press-IsKept :
      (other : Text) (decision : Status) (user : Text) (s : Store)
      → IsKept id r s
      → IsKept id r (resolve_approval other decision user s).1
  unfolding resolve_approval
  press-IsKept other decision user s k =
      ground (arith, resolve_read-IsKept other decision user (read s other) s refl k)

  claim_read-IsKept :
      (other : Text) (o : Option Record) (s : Store)
      → read s other ≡ o
      → IsKept id r s
      → IsKept id r (claim_read other o s).1
  claim_read-IsKept other none s e k = k
  claim_read-IsKept other (some q) s e k = elim (Bool-cases (is_pending q.status)) [
    | inl p ↦ rw p (write-IsKept other q (record q { held_at = true }) s e p k)
    | inr n ↦ rw n k
  ]

  moved-IsKept :
      (other : Text) (file : Option (Option Record)) (s : Store)
      → dict_get s.waiting other ≡ file
      → IsKept id r s
      → IsKept id r (moved other file s)
  moved-IsKept other none s e k = k
  moved-IsKept other (some file) s e k = ground (
    arith,
    dict_get-dict_without s.waiting other id,
    dict_get-dict_set s.done other id file,
    text_eq_iff other id,
  )

  run_move-IsKept : (m : Move) (s : Store) → IsKept id r s → IsKept id r (run_move id m s).1
  unfolding claim_hold finalize
  run_move-IsKept (press other decision user) s k = press-IsKept other decision user s k
  run_move-IsKept (claim other) s k = claim_read-IsKept other (read s other) s refl k
  run_move-IsKept (finish other) s k = moved-IsKept other (dict_get s.waiting other) s refl k

-- A record but for the mark of a mismatch.
abbrev pub unmarked : Record → Record
unmarked r = record r { toctou_mismatch = false }

-- What writes to the store: what `Move` has, and the mark of a mismatch.
pub data Writing : Type 0 where
  by_move : Move → Writing
  mark : Text → Writing

abbrev pub run_writing : Text → Writing → Store → Store
run_writing id (by_move m) s = (run_move id m s).1
run_writing id (mark other) s = with_mark other (read s other) s

abbrev pub run_writings : Text → List Writing → Store → Store
run_writings id [] s = s
run_writings id (w ∷ ws) s = run_writings id ws (run_writing id w s)

-- The record is there, but for the mark.
abbrev pub IsKeptBut : Text → Record → Store → Type 0
IsKeptBut id r s = (q : Record) × (unmarked q ≡ unmarked r) × IsKept id q s

with_mark-IsKeptBut :
    (id other : Text) (r : Record) (o : Option Record) (s : Store)
    → read s other ≡ o
    → IsKept id r s
    → IsKeptBut id r (with_mark other o s)
with_mark-IsKeptBut id other r none s e k = (r, refl, k)
with_mark-IsKeptBut id other r (some p) s e k = elim (Bool-cases (other == id)) [
  | inl same ↦ at_id k same
  | inr apart ↦ (r, refl, leave k apart)
]
  where
    new : Record
    new = record p { toctou_mismatch = true }

    leave : IsKept id r s → (other == id) ≡ false → IsKept id r (write other new s)
    leave (inl here) apart =
        inl (ground (arith, dict_get-dict_set s.waiting other id (some new), apart))
    leave (inr (gone, there)) apart =
        inr (ground (arith, dict_get-dict_set s.waiting other id (some new), apart), there)

    at_id : IsKept id r s → (other == id) ≡ true → IsKeptBut id r (write other new s)
    at_id (inl here) same = (
      new,
      ground (arith, ap (dict_get s.waiting) ((text_eq_iff other id).0 same)),
      inl (ground (arith, dict_get-dict_set s.waiting other id (some new), same)),
    )
    at_id (inr (gone, there)) same =
        absurd (ground (arith, ap (dict_get s.waiting) ((text_eq_iff other id).0 same)))

run_writing-IsKeptBut :
    (id : Text) (r : Record) (w : Writing) (s : Store)
    → is_pending r.status ≡ false
    → IsKept id r s
    → IsKeptBut id r (run_writing id w s)
run_writing-IsKeptBut id r (by_move m) s d k = (r, refl, run_move-IsKept id r d m s k)
run_writing-IsKeptBut id r (mark other) s d k =
    with_mark-IsKeptBut id other r (read s other) s refl k

-- Once a record is decided, no sequence of presses, ends of waits, moves to `done/` and marks of a
-- mismatch changes it but for such a mark: it waits in the directory, or stands in `done/`, as it was
-- decided. (Where the message with the buttons could not be sent, `handle` sets the status `error`
-- whatever is there; that is not among these.)
pub run_writings-IsKept :
    (id : Text) (r : Record) (writings : List Writing) (s : Store)
    → is_pending r.status ≡ false
    → IsKept id r s
    → IsKeptBut id r (run_writings id writings s)
run_writings-IsKept id r [] s d k = (r, refl, k)
run_writings-IsKept id r (w ∷ ws) s d k =
    let (q, e, kept) = run_writing-IsKeptBut id r w s d k in
    let (last, f, still) =
      run_writings-IsKept id q ws (run_writing id w s) (ap (λ x. is_pending x.status) e ∙ d) kept in
    (last, f ∙ e, still)
