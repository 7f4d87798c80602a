-- ===== src/Runtime/Holds/Archived.antt =====
-- Held tasks, and the approval records that hold them.
use taka_ma.Common.{
  ◌≡◌, refl, sym, ap, ◌⊎◌, inl, inr, ℕ, suc, ◌≤◌, Bool, true, false, not, ◌&&◌, ◌||◌, Option, none,
  some, List, [], ◌∷◌, contains, Text, Dict, dict_get, dict_without, if◌then◌else◌, ◌==◌, ltb,
  list_eq, nat_eq, text_eq_iff, arith,
}
use taka_ma.Approval.Store.{
  Status, pending, approved, rejected, timeout, error, Record, Store, is_request_id, is_held,
  request_or, first_held, find_held, moved, finalize,
}
use taka_ma.Runtime.Holds.{
  Held, Outcome, undecided, resumed, not_converged, no_record, odd_status, ids_of_held,
  archive_each, archive_held_records, read_approval_record, next_count, reinjected, on_status,
  status_of, after_outcome, resolve_hold,
}

module _ (task_id : Text) where
  -- Each held record is in its own file, and the name of the file is one of a request.
  abbrev pub is_named : Dict Text (Option Record) → Bool
  is_named [] = true
  is_named ((id, file) ∷ files) =
      (not (is_held task_id file) || (request_or id file == id && is_request_id id))
      && is_named files

  -- Each held record is one of these requests.
  abbrev is_covered : List Text → Dict Text (Option Record) → Bool
  is_covered ids [] = true
  is_covered ids ((id, file) ∷ files) =
      (not (is_held task_id file) || (contains ids id && is_request_id id)) && is_covered ids files

  is_covered_more :
      (x : Text) (ids : List Text) (files : Dict Text (Option Record))
      → is_covered ids files ≡ true
      → is_covered (x ∷ ids) files ≡ true
  is_covered_more x ids [] h = refl
  is_covered_more x ids ((id, file) ∷ files) h = ground (arith, is_covered_more x ids files)

  is_covered-ids_of_held :
      (files : Dict Text (Option Record))
      → is_named files ≡ true
      → is_covered (ids_of_held task_id files) files ≡ true
  is_covered-ids_of_held [] h = refl
  is_covered-ids_of_held ((id, file) ∷ files) h = ground (
    arith,
    is_covered-ids_of_held files,
    is_covered_more (request_or id file) (ids_of_held task_id files) files,
  )

  is_covered-dict_without :
      (i : Text) (ids : List Text) (files : Dict Text (Option Record))
      → is_covered (i ∷ ids) files ≡ true
      → is_covered ids (dict_without files i) ≡ true
  is_covered-dict_without i ids [] h = refl
  is_covered-dict_without i ids ((id, file) ∷ files) h =
      ground (arith, is_covered-dict_without i ids files, text_eq_iff id i, text_eq_iff i id)

  is_covered_skip :
      (i : Text) (ids : List Text) (files : Dict Text (Option Record))
      → is_request_id i ≡ false
      → is_covered (i ∷ ids) files ≡ true
      → is_covered ids files ≡ true
  is_covered_skip i ids [] bad h = refl
  is_covered_skip i ids ((id, file) ∷ files) bad h =
      ground (arith, is_covered_skip i ids files bad, text_eq_iff i id, text_eq_iff id i, bad)

  first_held_covered :
      (files : Dict Text (Option Record))
      → is_covered [] files ≡ true
      → first_held task_id files ≡ none
  first_held_covered [] h = refl
  first_held_covered ((id, file) ∷ files) h = ground (arith, first_held_covered files)

  dict_without_absent :
      (files : Dict Text (Option Record)) (i : Text)
      → dict_get files i ≡ none
      → dict_without files i ≡ files
  dict_without_absent [] i h = refl
  dict_without_absent ((id, file) ∷ files) i h = ground (arith, dict_without_absent files i)

  moved-waiting :
      (i : Text) (o : Option (Option Record)) (s : Store)
      → dict_get s.waiting i ≡ o
      → (moved i o s).waiting ≡ dict_without s.waiting i
  moved-waiting i none s e = sym (dict_without_absent s.waiting i e)
  moved-waiting i (some file) s e = refl

  is_covered-finalize :
      (i : Text) (ids : List Text) (s : Store)
      → is_covered (i ∷ ids) s.waiting ≡ true
      → is_covered ids (finalize i s).waiting ≡ true
  unfolding finalize
  is_covered-finalize i ids s h =
      rw (moved-waiting i (dict_get s.waiting i) s refl) (is_covered-dict_without i ids s.waiting h)

  is_covered_step :
      (i : Text) (ids : List Text) (s : Store) (ok : Bool)
      → is_request_id i ≡ ok
      → is_covered (i ∷ ids) s.waiting ≡ true
      → is_covered ids (if ok then finalize i s else s).waiting ≡ true
  is_covered_step i ids s true e h = is_covered-finalize i ids s h
  is_covered_step i ids s false e h = is_covered_skip i ids s.waiting e h

  archive_each-covered :
      (ids : List Text) (s : Store)
      → is_covered ids s.waiting ≡ true
      → first_held task_id (archive_each ids s).waiting ≡ none
  archive_each-covered [] s h = first_held_covered s.waiting h
  archive_each-covered (i ∷ ids) s h =
      archive_each-covered ids (if is_request_id i then finalize i s else s)
        (is_covered_step i ids s (is_request_id i) refl h)

find_held-archive_held_records :
    (task_id request_id : Text) (s : Store)
    → is_named task_id s.waiting ≡ true
    → find_held task_id (archive_held_records task_id request_id s) ≡ none
unfolding find_held
find_held-archive_held_records [] request_id s named = refl
find_held-archive_held_records (c ∷ cs) request_id s named =
    archive_each-covered (c ∷ cs) (request_id ∷ ids_of_held (c ∷ cs) s.waiting) s (
      is_covered_more (c ∷ cs) request_id (ids_of_held (c ∷ cs) s.waiting) s.waiting
        (is_covered-ids_of_held (c ∷ cs) s.waiting named))

-- What a status of the record and the count of resumptions call for.
abbrev pub IsCalled : ℕ → Held → Option Status → Outcome → Type 0
IsCalled max_reinject task status undecided = status ≡ some pending
IsCalled max_reinject task status (resumed answer n) =
    (status ≡ some answer)
    × ((answer ≡ approved) ⊎ (answer ≡ rejected))
    × ((k : ℕ) × (task.reinject_count ≡ some k) × (n ≡ suc k))
    × (n ≤ max_reinject)
IsCalled max_reinject task status not_converged =
    ((status ≡ some approved) ⊎ (status ≡ some rejected))
    × ((task.reinject_count ≡ none)
        ⊎ ((k : ℕ) × (task.reinject_count ≡ some k) × (max_reinject ≤ k)))
IsCalled max_reinject task status no_record = status ≡ none
IsCalled max_reinject task status (odd_status answer) =
    (status ≡ some answer) × ((answer ≡ timeout) ⊎ (answer ≡ error))

reinjected-IsCalled :
    (max_reinject : ℕ) (task : Held) (answer : Status)
    → ((answer ≡ approved) ⊎ (answer ≡ rejected))
    → IsCalled max_reinject task (some answer) (reinjected max_reinject task answer)
reinjected-IsCalled max_reinject task answer final =
    over task.reinject_count (ltb max_reinject (next_count max_reinject task.reinject_count)) refl
      refl
  where
    settled : (some answer ≡ some approved) ⊎ (some answer ≡ some rejected)
    settled = elim final [ inl e ↦ inl (ap some e) | inr e ↦ inr (ap some e) ]

    over :
        (count : Option ℕ) (much : Bool)
        → task.reinject_count ≡ count
        → ltb max_reinject (next_count max_reinject count) ≡ much
        → IsCalled max_reinject task
            (some answer)
            (if much then not_converged else resumed answer (next_count max_reinject count))
    over none true e h = (settled, inl e)
    over none false e h = absurd (ground arith)
    over (some k) true e h = (settled, inr (k, e, ground arith))
    over (some k) false e h = (refl, final, (k, e, refl), ground arith)

on_status-IsCalled :
    (max_reinject : ℕ) (task : Held) (status : Option Status)
    → IsCalled max_reinject task status (on_status max_reinject task status)
on_status-IsCalled max_reinject task none = refl
on_status-IsCalled max_reinject task (some pending) = refl
on_status-IsCalled max_reinject task (some approved) =
    reinjected-IsCalled max_reinject task approved (inl refl)
on_status-IsCalled max_reinject task (some rejected) =
    reinjected-IsCalled max_reinject task rejected (inr refl)
on_status-IsCalled max_reinject task (some timeout) = (refl, inl refl)
on_status-IsCalled max_reinject task (some error) = (refl, inr refl)

-- The store is as it was where the task goes on waiting; otherwise nothing holds the task.
abbrev pub IsReleased : Text → Store → Outcome × Store → Type 0
IsReleased task_id s (undecided, after) = after ≡ s
IsReleased task_id s (_, after) = find_held task_id after ≡ none

after_outcome-IsReleased :
    (task : Held) (s : Store) (outcome : Outcome)
    → is_named task.task_id s.waiting ≡ true
    → IsReleased task.task_id s (outcome, after_outcome task outcome s)
after_outcome-IsReleased task s undecided named = refl
after_outcome-IsReleased task s (resumed a n) named =
    find_held-archive_held_records task.task_id task.held_approval_id s named
after_outcome-IsReleased task s not_converged named =
    find_held-archive_held_records task.task_id task.held_approval_id s named
after_outcome-IsReleased task s no_record named =
    find_held-archive_held_records task.task_id task.held_approval_id s named
after_outcome-IsReleased task s (odd_status a) named =
    find_held-archive_held_records task.task_id task.held_approval_id s named

-- Where the held records of a task stand in files of their own names, a held task goes on waiting
-- only while its record is pending, and then nothing is changed; it is resumed only after an approval
-- or a rejection, with a count that is one higher and at most the limit; it fails where the count is
-- at the limit or cannot be read, where there is no record, and where the status is a time-out or an
-- error. In all of these cases but the first no record holds the task any more.
pub resolve_hold_lem :
    (max_reinject : ℕ) (task : Held) (s : Store)
    → is_named task.task_id s.waiting ≡ true
    → IsCalled max_reinject task
        (status_of (read_approval_record task.held_approval_id s))
        (resolve_hold max_reinject task s).0
      × IsReleased task.task_id s (resolve_hold max_reinject task s)
unfolding resolve_hold
resolve_hold_lem max_reinject task s named =
    let status = status_of (read_approval_record task.held_approval_id s) in
    (
      on_status-IsCalled max_reinject task status,
      after_outcome-IsReleased task s (on_status max_reinject task status) named,
    )
