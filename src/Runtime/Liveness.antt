-- ===== src/Runtime/Liveness.antt =====
-- The watchdog of orchestrator/liveness.py: `Heartbeat.beat_once`, `is_stale`, `RestartLimiter` and
-- the loop of `run_watchdog`, one round at a time. The stamps are those of the file, which is taken
-- to be readable; an exit is followed by the start of a new process on the same file.
pub mod Limited
use taka_ma.Common.{
  ℕ, ◌+◌, ◌-◌, Bool, true, false, not, ◌&&◌, ◌||◌, Option, none, some, List, [], ◌∷◌, ◌++◌,
  if◌then◌else◌, leb, ltb, keep, length, nat_eq, ◌==◌,
}

pub record Heartbeat : Type 0 where
  pub last_ok : ℕ
  pub pool_ok : Option Bool
  pub beats : ℕ

-- `beat_once`, given what the probe of the thread pool answers and the time after it
abbrev pub beat_once : Bool → ℕ → Heartbeat → Heartbeat
beat_once pool_ok now hb = record {
  last_ok = if pool_ok then now else hb.last_ok;
  pool_ok = some pool_ok;
  beats = hb.beats + 1;
}

abbrev pub is_stale : ℕ → ℕ → Heartbeat → Bool
is_stale threshold now hb = ltb threshold (now - hb.last_ok)

abbrev pub window_sec : ℕ
window_sec = 3600

-- `RestartLimiter.recent`, `.record` and `.exceeded`
abbrev pub recent : ℕ → List ℕ → List ℕ
recent now stamps = keep (λ t. leb (now - t) window_sec) stamps

abbrev pub record_restart : ℕ → List ℕ → List ℕ
record_restart now stamps = recent now stamps ++ (now ∷ [])

abbrev pub exceeded : ℕ → ℕ → List ℕ → Bool
exceeded limit now stamps = leb limit (length (recent now stamps))

-- What one round does: nothing, hold back the restart (with a notice, or without one), exit (with a
-- notice on the first restart within the window), or exit because of an exception.
pub data Event : Type 0 where
  healthy : Event
  cutoff : Bool → Event
  exits : Bool → Event
  fails_closed : Event

-- What a round meets with: an exception that comes before a restart is recorded, whether the
-- heartbeat is stale, the time, and whether the file of the stamps can be written.
pub record Round : Type 0 where
  pub raises : Bool
  pub stale : Bool
  pub now : ℕ
  pub writable : Bool

pub record Watchdog : Type 0 where
  pub stamps : List ℕ
  pub cutoff_notified : Bool

-- The stamps of the file after `record`, which only logs that it cannot write.
abbrev pub written : Bool → ℕ → List ℕ → List ℕ
written writable now stamps = if writable then record_restart now stamps else stamps

-- One round of `run_watchdog`; after an exit the new process has notified nobody.
unfoldable pub watch : ℕ → Round → Watchdog → Event × Watchdog
watch limit r w =
    if r.raises
    then (fails_closed, record { stamps = w.stamps; cutoff_notified = false })
    else if not r.stale
    then (healthy, record { stamps = w.stamps; cutoff_notified = false })
    else if exceeded limit r.now w.stamps
    then (cutoff (not w.cutoff_notified), record { stamps = w.stamps; cutoff_notified = true })
    else (
      exits (length (record_restart r.now w.stamps) == 1),
      record { stamps = written r.writable r.now w.stamps; cutoff_notified = false },
    )
