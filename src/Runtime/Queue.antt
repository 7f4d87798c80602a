-- ===== src/Runtime/Queue.antt =====
-- The queue of files, `FileQueue` of orchestrator/file_queue.py: a directory in the order of its
-- names, where `none` is a file that cannot be read, with the names that were taken to `done/` and
-- `failed/`. A record keeps the status that the queue reads and, as one text, all else; time stamps
-- are left out, and moves of files succeed.
pub mod Claimed
use taka_ma.Common.{
  ℕ, ◌+◌, Bool, true, false, Option, none, some, List, [], ◌∷◌, ◌++◌, Text, ◌==◌, nat_eq, list_eq,
  if◌then◌else◌, contains, suc, Dict, dict_without,
}

pub record Record : Type 0 where
  pub status : Text
  pub content : Text

abbrev pub Files : Type 0
Files = Dict Text (Option Record)

pub record Queue : Type 0 where
  pub files : Files
  pub done : List Text
  pub failed : List Text

abbrev pub reserved : Option Text → Record → Record
reserved none r = r
reserved (some status) r = record r { status = status }

-- What a scan leaves: the record that it stopped at, the files, and the names of broken ones.
pub record Scan : Type 0 where
  pub found : Option (Text × Record)
  pub kept : Files
  pub broken : List Text

-- The loop of `claim`; `_read` takes broken files out of the way on the way.
abbrev pub claim_in : Text → Option Text → Files → Scan
claim_in ready reserve [] = record { found = none; kept = []; broken = [] }
claim_in ready reserve ((path, none) ∷ files) =
    let rest = claim_in ready reserve files in
    record { found = rest.found; kept = rest.kept; broken = path ∷ rest.broken }
claim_in ready reserve ((path, some r) ∷ files) =
    let rest = claim_in ready reserve files in
    if r.status == ready
    then record {
      found = some (path, reserved reserve r);
      kept = (path, some (reserved reserve r)) ∷ files;
      broken = [];
    }
    else record { found = rest.found; kept = (path, some r) ∷ rest.kept; broken = rest.broken }

abbrev after_scan : Scan → Queue → Queue
after_scan scan q = record { files = scan.kept; done = q.done; failed = q.failed ++ scan.broken }

pub claim : Text → Option Text → Queue → Option (Text × Record) × Queue
claim ready reserve q = let scan = claim_in ready reserve q.files in (scan.found, after_scan scan q)

-- The loop of `reclaim`: how many were reset, the files, and the names of broken ones.
abbrev pub reclaim_in : List Text → Text → Files → ℕ × Files × List Text
reclaim_in statuses reset [] = (0, [], [])
reclaim_in statuses reset ((path, none) ∷ files) =
    let (n, kept, broken) = reclaim_in statuses reset files in (n, kept, path ∷ broken)
reclaim_in statuses reset ((path, some r) ∷ files) =
    let (n, kept, broken) = reclaim_in statuses reset files in
    if contains statuses r.status
    then (suc n, (path, some (record r { status = reset })) ∷ kept, broken)
    else (n, (path, some r) ∷ kept, broken)

pub reclaim : List Text → Text → Queue → ℕ × Queue
reclaim statuses reset q =
    let (n, kept, broken) = reclaim_in statuses reset q.files in
    (n, record { files = kept; done = q.done; failed = q.failed ++ broken })

pub mark_done : Text → Queue → Queue
mark_done path q = record {
  files = dict_without q.files path;
  done = q.done ++ (path ∷ []);
  failed = q.failed;
}

pub quarantine : Text → Queue → Queue
quarantine path q = record {
  files = dict_without q.files path;
  done = q.done;
  failed = q.failed ++ (path ∷ []);
}

abbrev settled : Bool → Bool → Text → Queue → Queue
settled true on_error path q = mark_done path q
settled false true path q = quarantine path q
settled false false path q = q

abbrev pub ran : Bool → (Text → Record → Bool) → Option (Text × Record) × Queue → Queue
ran on_error handler (none, q) = q
ran on_error handler (some (path, r), q) = settled (handler path r) on_error path q

-- One round of `run`; the handler answers whether it ended without an exception.
pub run_once : Bool → (Text → Record → Bool) → Text → Option Text → Queue → Queue
run_once on_error handler ready reserve q = ran on_error handler (claim ready reserve q)
