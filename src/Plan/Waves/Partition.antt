-- ===== src/Plan/Waves/Partition.antt =====
-- How often a step stands in the waves of `compute_waves` (orchestrator/plan.py), and that no
-- KeyError is raised where the steps are distinct.
use taka_ma.Common.{
  beq_refl, beq_of_absent, ◌≡◌, refl, ap, ◌∙◌, ◌≢◌, inl, inr, ℕ, true, List, [], ◌∷◌, ◌&&◌, ◌||◌,
  if◌then◌else◌, length, keep, join, contains, count, dict_get, dict_set, dict_has, dict_without,
  nat_eq, arith, Option-cases, count-append, count-keep, contains-keep, count_absent, IsDistinct,
  keep-IsDistinct, dict_has-dict_set, dict_has-dict_without, dict_has_of_get,
}
use native.Mathlib.Nat.{le_refl}
use taka_ma.Plan.Model.{Subtask}
use taka_ma.Plan.Waves.{
  steps_of, effective_deps, remaining_from, is_ready, missing, delete_all, last_wave, next_wave,
  round, Outcome, waves, key_error, spent, cons_wave, compute_waves,
}
use taka_ma.Plan.Waves.Loop.{
  Entries, dict_has-delete_all, round-next, round-last, round-raised, Rule, wave_loop_ind, OnWaves,
}

abbrev Counts : List ℕ → Entries → List (List ℕ) → Type 0
Counts order d ws =
    (k : ℕ)
    → (dict_has d k ≡ true → contains order k ≡ true)
    → count k (join ws) ≡ (if dict_has d k then count k order else 0)

abbrev Counted : List ℕ → Entries → Outcome → Type 0
Counted order d o = OnWaves (Counts order d) o

is_ready-has :
    (d : Entries) (done : List ℕ) (k : ℕ) → is_ready d done k ≡ true → dict_has d k ≡ true
is_ready-has d done k h = elim (Option-cases (dict_get d k)) [
  | inl absent ↦ absurd (ground arith)
  | inr (v, e) ↦ dict_has_of_get d k v e
]

Counts-next :
    (order done w : List ℕ) (d rest : Entries) (ws : List (List ℕ))
    → round order d done ≡ next_wave w rest
    → Counts order rest ws
    → Counts order d (w ∷ ws)
Counts-next order done w d rest ws q ih k inside =
    let (e, del) = round-next order done w d rest q in
    let in_w : contains w k ≡ (contains order k && is_ready d done k) =
      ap (λ l. contains l k) e ∙ contains-keep (is_ready d done) order k in
    let of_w : count k w ≡ (if is_ready d done k then count k order else 0) =
      ap (count k) e ∙ count-keep (is_ready d done) order k in
    ground (
      arith,
      count-append k w (join ws),
      dict_has-delete_all w d rest k del,
      ih k,
      is_ready-has d done k,
    )

cons_wave-Counted :
    (order w : List ℕ) (d rest : Entries) (o : Outcome)
    → ((ws : List (List ℕ)) → Counts order rest ws → Counts order d (w ∷ ws))
    → Counted order rest o
    → Counted order d (cons_wave w o)
cons_wave-Counted order w d rest (waves ws) f h = f ws h
cons_wave-Counted order w d rest (key_error st) f h = tt
cons_wave-Counted order w d rest spent f h = h

Counts-last :
    (order done w : List ℕ) (d : Entries)
    → round order d done ≡ last_wave w
    → Counts order d (w ∷ [])
Counts-last order done w d q k inside =
    let (e, _) = round-last order done w d q in
    let of_w : count k w ≡ (if dict_has d k then count k order else 0) =
      ap (count k) e ∙ count-keep (dict_has d) order k in
    ground (arith, count-append k w [])

counting : (order : List ℕ) → Rule order (λ d done o. Counted order d o)
counting order = record {
  finish = λ done k inside. refl;
  last = λ d done w q. Counts-last order done w d q;
  next = λ d rest done w o q ih.
      cons_wave-Counted order w d rest o (λ ws. Counts-next order done w d rest ws q) ih;
  failed = λ d done st q. tt;
}

-- The keys of `remaining` are the steps.
pub dict_has-remaining_from :
    (step_set : List ℕ) (ss : List Subtask) (d : Entries) (k : ℕ)
    → dict_has (remaining_from step_set ss d) k ≡ (dict_has d k || contains (steps_of ss) k)
unfolding remaining_from
dict_has-remaining_from step_set [] d k = ground arith
dict_has-remaining_from step_set (s ∷ ss) d k = ground (
  arith,
  dict_has-remaining_from step_set ss (dict_set d s.step (effective_deps s step_set)) k,
  dict_has-dict_set d s.step k (effective_deps s step_set),
)

-- Distinct steps are never deleted twice.
delete_all-ne-missing :
    (w : List ℕ) (d : Entries) (st : ℕ)
    → IsDistinct w
    → ((k : ℕ) → contains w k ≡ true → dict_has d k ≡ true)
    → delete_all w d ≢ missing st
unfolding delete_all
delete_all-ne-missing [] d st distinct inside e = ground arith
delete_all-ne-missing (x ∷ w) d st distinct inside e =
    delete_all-ne-missing w (dict_without d x) st distinct.1
      (λ k m.
        ground (arith, dict_has-dict_without d x k, inside k, beq_of_absent w x k distinct.0 m))
      (ground (arith, inside x, beq_refl x))

abbrev Keeps : List ℕ → Outcome → Type 0
Keeps order o = IsDistinct order → (st : ℕ) → o ≢ key_error st

cons_wave-ne-key_error :
    (w : List ℕ) (o : Outcome) (st : ℕ) → ((x : ℕ) → o ≢ key_error x) → cons_wave w o ≢ key_error st
cons_wave-ne-key_error w (waves ws) st h e = ground arith
cons_wave-ne-key_error w (key_error x) st h e = h x refl
cons_wave-ne-key_error w spent st h e = ground arith

no_key_error : (order : List ℕ) → Rule order (λ d done o. Keeps order o)
no_key_error order = record {
  finish = λ done distinct st e. cc;
  last = λ d done w q distinct st e. cc;
  next = λ d rest done w o q ih distinct st. cons_wave-ne-key_error w o st (ih distinct);
  failed = λ d done st q distinct st' e.
      delete_all-ne-missing (keep (is_ready d done) order) d st
        (keep-IsDistinct (is_ready d done) order distinct)
        (λ k m. is_ready-has d done k (ground (arith, contains-keep (is_ready d done) order k)))
        (round-raised order done st d q);
}

OnWaves-map :
    (P Q : List (List ℕ) → Type 0) (o : Outcome)
    → ((ws : List (List ℕ)) → P ws → Q ws)
    → OnWaves P o
    → OnWaves Q o
OnWaves-map P Q (waves ws) f h = f ws h
OnWaves-map P Q (key_error st) f h = tt
OnWaves-map P Q spent f h = h

waves_of :
    (P : List (List ℕ) → Type 0) (o : Outcome)
    → OnWaves P o
    → ((st : ℕ) → o ≢ key_error st)
    → (ws : List (List ℕ)) × (o ≡ waves ws)
waves_of P (waves ws) h no_error = (ws, refl)
waves_of P (key_error st) h no_error = absurd (no_error st refl)
waves_of P spent h no_error = absurd h

pub OnWaves-both :
    (P Q R : List (List ℕ) → Type 0) (o : Outcome)
    → ((ws : List (List ℕ)) → P ws → Q ws → R ws)
    → OnWaves P o
    → OnWaves Q o
    → OnWaves R o
OnWaves-both P Q R (waves ws) f p q = f ws p q
OnWaves-both P Q R (key_error st) f p q = tt
OnWaves-both P Q R spent f p q = p

-- Whatever the plan, cyclic or with repeated steps, `compute_waves` ends by its own tests; if it
-- returns waves, each step number stands in them exactly as often as in the plan.
pub compute_waves-counts :
    (subtasks : List Subtask)
    → OnWaves
        (λ ws. (k : ℕ) → count k (join ws) ≡ count k (steps_of subtasks))
        (compute_waves subtasks)
unfolding compute_waves
compute_waves-counts subtasks =
    let steps = steps_of subtasks in
    let start = remaining_from steps subtasks [] in
    OnWaves-map (Counts steps start) (λ ws. (k : ℕ) → count k (join ws) ≡ count k steps)
      (compute_waves subtasks)
      (λ ws all_counts k.
        ground
          (arith, dict_has-remaining_from steps subtasks [] k, all_counts k, count_absent steps k))
      (wave_loop_ind (counting steps) (length start) start [] (le_refl _))

-- A plan whose step numbers are distinct is split into waves; no KeyError is raised.
pub compute_waves-distinct :
    (subtasks : List Subtask)
    → IsDistinct (steps_of subtasks)
    → (ws : List (List ℕ)) × (compute_waves subtasks ≡ waves ws)
unfolding compute_waves
compute_waves-distinct subtasks distinct =
    let steps = steps_of subtasks in
    let start = remaining_from steps subtasks [] in
    waves_of (Counts steps start) (compute_waves subtasks)
      (wave_loop_ind (counting steps) (length start) start [] (le_refl _))
      (wave_loop_ind (no_key_error steps) (length start) start [] (le_refl _) distinct)
