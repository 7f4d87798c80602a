-- ===== src/Plan/Waves.antt =====
-- `effective_deps` and `compute_waves` of orchestrator/plan.py.
pub mod Loop
pub mod Partition
pub mod Sources
pub mod Layers
pub mod Repeats
pub mod Core
use taka_ma.Common.{
  ℕ, zero, suc, Bool, true, false, Option, none, some, List, [], ◌∷◌, ◌++◌, map, not, ◌&&◌,
  if◌then◌else◌, length, keep, all, any, contains, Dict, dict_get, dict_set, dict_has, dict_keys,
  dict_without, nat_eq, ◌==◌,
}
use taka_ma.Plan.Model.{Subtask, deps_of}

abbrev pub steps_of : List Subtask → List ℕ
steps_of subtasks = map (λ s. s.step) subtasks

-- Dependencies on a step that is not there are left out.
unfoldable pub effective_deps : Subtask → List ℕ → List ℕ
effective_deps s step_set = keep (λ d. contains step_set d) (deps_of s)

-- `{s["step"]: set(effective_deps(s, step_set)) for s in subtasks}`, entry by entry
unfoldable pub remaining_from : List ℕ → List Subtask → Dict ℕ (List ℕ) → Dict ℕ (List ℕ)
remaining_from step_set [] d = d
remaining_from step_set (s ∷ rest) d =
    remaining_from step_set rest (dict_set d s.step (effective_deps s step_set))

-- `remaining[st] <= done`
abbrev pub within : List ℕ → Option (List ℕ) → Bool
within done none = false
within done (some deps) = all (λ d. contains done d) deps

-- `st in remaining and remaining[st] <= done`: an absent key has no dependencies to test
abbrev pub is_ready : Dict ℕ (List ℕ) → List ℕ → ℕ → Bool
is_ready remaining done st = within done (dict_get remaining st)

-- `for st in ready: del remaining[st]`: the entries that are left, or the KeyError
pub data Deleted : Type 0 where
  left : Dict ℕ (List ℕ) → Deleted
  missing : ℕ → Deleted

pub delete_all : List ℕ → Dict ℕ (List ℕ) → Deleted
delete_all [] d = left d
delete_all (st ∷ rest) d =
    let after = delete_all rest (dict_without d st) in if dict_has d st then after else missing st

-- One round of the loop: it ends with what is left as the last wave, goes on with the steps that
-- are ready, or stops at a KeyError.
pub data Round : Type 0 where
  last_wave : List ℕ → Round
  next_wave : List ℕ → Dict ℕ (List ℕ) → Round
  raised : ℕ → Round

abbrev pub after_delete : List ℕ → Deleted → Round
after_delete ready (left rest) = next_wave ready rest
after_delete ready (missing st) = raised st

abbrev pub round_of : List ℕ → List ℕ → Dict ℕ (List ℕ) → Round
round_of [] order remaining = last_wave (keep (dict_has remaining) order)
round_of (x ∷ xs) order remaining = after_delete (x ∷ xs) (delete_all (x ∷ xs) remaining)

pub round : List ℕ → Dict ℕ (List ℕ) → List ℕ → Round
unfolding delete_all
round order remaining done = round_of (keep (is_ready remaining done) order) order remaining

-- What the loop ends with: the waves, the KeyError of a key deleted twice, or no fuel.
pub data Outcome : Type 0 where
  waves : List (List ℕ) → Outcome
  key_error : ℕ → Outcome
  spent : Outcome

abbrev pub cons_wave : List ℕ → Outcome → Outcome
cons_wave w (waves ws) = waves (w ∷ ws)
cons_wave w (key_error st) = key_error st
cons_wave w spent = spent

-- The `while remaining` loop: the waves from here on. Each round that goes on deletes an entry, so
-- a round of fuel for each entry is enough (`Loop`).
pub wave_loop : ℕ → List ℕ → Dict ℕ (List ℕ) → List ℕ → Outcome
unfolding round
wave_loop fuel order [] done = waves []
wave_loop zero order (e ∷ es) done = spent
wave_loop (suc fuel) order (e ∷ es) done = elim (round order (e ∷ es) done) [
  | last_wave w ↦ waves (w ∷ [])
  | next_wave w rest ↦ cons_wave w (wave_loop fuel order rest (done ++ w))
  | raised st ↦ key_error st
]

pub compute_waves : List Subtask → Outcome
unfolding wave_loop remaining_from effective_deps
compute_waves subtasks =
    let steps = steps_of subtasks in
    let remaining = remaining_from steps subtasks [] in
    wave_loop (length remaining) steps remaining []
