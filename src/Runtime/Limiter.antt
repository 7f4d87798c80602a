-- ===== src/Runtime/Limiter.antt =====
-- `DynamicConcurrencyLimiter` of orchestrator/concurrency.py. Each operation runs under the
-- condition's lock, and waiting is that a step is not possible yet.
use taka_ma.Common.{ℕ, ◌+◌, ◌-◌, ◌≤◌, ◌<◌, max, arith}

pub record Limiter : Type 0 where
  pub limit : ℕ
  pub active : ℕ

-- `__init__`, and `set_limit`
abbrev pub new_limiter : ℕ → Limiter
new_limiter limit = record { limit = max 1 limit; active = 0 }

abbrev pub with_limit : ℕ → Limiter → Limiter
with_limit new_limit l = record { limit = max 1 new_limit; active = l.active }

abbrev pub acquired : Limiter → Limiter
acquired l = record { limit = l.limit; active = l.active + 1 }

abbrev pub released : Limiter → Limiter
released l = record { limit = l.limit; active = l.active - 1 }

-- A run of the limiter, with the highest limit that it had. `acquire` waits while the active ones
-- reach the limit; only a holder releases, as `async with` does.
pub data Reaches (start : ℕ) : Limiter → ℕ → Type 0 where
  begins : Reaches start (new_limiter start) (max 1 start)
  acquires :
      {l : Limiter} {top : ℕ}
      → Reaches start l top
      → l.active < l.limit
      → Reaches start (acquired l) top
  releases :
      {l : Limiter} {top : ℕ} → Reaches start l top → 0 < l.active → Reaches start (released l) top
  limits :
      {l : Limiter} {top : ℕ} (new_limit : ℕ)
      → Reaches start l top
      → Reaches start (with_limit new_limit l) (max top (max 1 new_limit))

-- In every run the limit is at least 1, so that the limiter never blocks for good, and the active
-- ones are never more than the highest limit that was set.
pub Reaches-bounded :
    (start : ℕ) (l : Limiter) (top : ℕ)
    → Reaches start l top
    → (1 ≤ l.limit) × (l.limit ≤ top) × (l.active ≤ top)
Reaches-bounded start _ _ begins = omega arith
Reaches-bounded start _ _ (acquires {l} {top} r free) =
    let (a, b, c) = Reaches-bounded start l top r in (a, b, omega arith)
Reaches-bounded start _ _ (releases {l} {top} r held) =
    let (a, b, c) = Reaches-bounded start l top r in (a, b, omega arith)
Reaches-bounded start _ _ (limits {l} {top} n r) =
    let (a, b, c) = Reaches-bounded start l top r in (omega arith, omega arith, omega arith)
