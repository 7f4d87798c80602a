-- ===== src/Examples/Runtime.antt =====
-- The queue, the limiter and the watchdog at concrete inputs.
use taka_ma.Common.{
  Text, Option, ◌≡◌, refl, ℕ, ◌+◌, ◌≤◌, List, [], ◌∷◌, some, none, codes, true, false, Bool, arith,
}
use taka_ma.Runtime.Queue.{Queue, claim, reclaim}
use taka_ma.Runtime.Queue.Claimed.{reclaim-claim, count_status}
use taka_ma.Runtime.Limiter.{
  Limiter, Reaches, begins, acquires, limits, new_limiter, acquired, with_limit, Reaches-bounded,
}
use taka_ma.Runtime.Liveness.{Watchdog, Round, watch}
use taka_ma.Runtime.Liveness.Limited.{
  watch_all, watch_all-limited, stamps_since, exits_since, faults_since,
}
use taka_ma.Approval.Store.{Status, pending, approved, Record, Store, find_held}
use taka_ma.Runtime.Holds.{Held, resumed, read_approval_record, status_of, resolve_hold}
use taka_ma.Runtime.Holds.Archived.{IsCalled, IsReleased, resolve_hold_lem}

abbrev queue : Queue
queue = record {
  files =
      (codes "a", none)
      ∷ (codes "b", some (record { status = codes "accepted"; content = [] }))
      ∷ (codes "c", some (record { status = codes "init"; content = [] }))
      ∷ [];
  done = [];
  failed = [];
}

reclaim-claim_example :
    let after = (claim (codes "init") (some (codes "accepted")) queue).1 in
    let (n, back) = reclaim (codes "accepted" ∷ []) (codes "init") after in
    (count_status (codes "init") back.files
      ≡ count_status (codes "init") queue.files + count_status (codes "accepted") queue.files)
    × (count_status (codes "accepted") back.files ≡ 0)
    × (n ≡ count_status (codes "accepted") after.files)
reclaim-claim_example = reclaim-claim (codes "init") (codes "accepted") queue refl

abbrev lowered : Limiter
lowered = with_limit 0 (acquired (acquired (new_limiter 2)))

lowered_run : Reaches 2 lowered 2
lowered_run = limits 0 (acquires (acquires begins (omega arith)) (omega arith))

Reaches-bounded_example : (1 ≤ lowered.limit) × (lowered.limit ≤ 2) × (lowered.active ≤ 2)
Reaches-bounded_example = Reaches-bounded 2 lowered 2 lowered_run

abbrev round_at : Bool → ℕ → Bool → Round
round_at stale now writable = record {
  raises = false;
  stale = stale;
  now = now;
  writable = writable;
}

abbrev rounds : List Round
rounds =
    round_at true 1000 true
    ∷ round_at true 1100 false
    ∷ round_at false 1200 true
    ∷ record { raises = true; stale = true; now = 1300; writable = true }
    ∷ round_at true 2000 true
    ∷ round_at true 2100 true
    ∷ []

abbrev quiet : Watchdog
quiet = record { stamps = 900 ∷ []; cutoff_notified = false }

four_exits : exits_since 500 (watch_all 3 rounds quiet).0 ≡ 4
unfolding watch
four_exits = refl

watch_all-limited_example :
    stamps_since 500 quiet.stamps + exits_since 500 (watch_all 3 rounds quiet).0
    ≤ 3 + faults_since 500 rounds
watch_all-limited_example = watch_all-limited 500 3 rounds quiet refl (omega arith)

abbrev filed : Text → Status → (Text × Option Record)
filed id status = (
  id,
  some (record {
    request_id = id;
    task_id = codes "T1";
    instance_id = codes "w1";
    command = codes "git push";
    tool_name = codes "Bash";
    tool_input = [];
    context = [];
    risk_reason = [];
    status = status;
    held_at = true;
    decided_by = none;
    toctou_mismatch = false;
  }),
)

abbrev approvals : Store
approvals = record {
  waiting = filed (codes "r1") approved ∷ filed (codes "r2") pending ∷ [];
  done = [];
}

abbrev held_task : Held
held_task = record { task_id = codes "T1"; held_approval_id = codes "r1"; reinject_count = some 1 }

held_before : find_held (codes "T1") approvals ≡ some (codes "r2")
unfolding find_held
held_before = refl

resumed_twice : (resolve_hold 3 held_task approvals).0 ≡ resumed approved 2
unfolding resolve_hold
resumed_twice = refl

resolve_hold_lem_example :
    IsCalled 3 held_task
      (status_of (read_approval_record (codes "r1") approvals))
      (resolve_hold 3 held_task approvals).0
    × IsReleased (codes "T1") approvals (resolve_hold 3 held_task approvals)
resolve_hold_lem_example = resolve_hold_lem 3 held_task approvals refl
