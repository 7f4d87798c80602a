-- ===== src/Plan/Waves/Layers.antt =====
-- The order that the waves of orchestrator/plan.py promise: a dependency stands in an earlier wave.
use native.Mathlib.Nat.{le_refl}
use mathlib.Core.List.{Memᴰ}
use taka_ma.Common.{
  beq_refl, ◌≡◌, refl, ap, ◌⊎◌, inl, inr, ℕ, zero, suc, ◌<◌, Bool, true, false, some, List, [], ◌∷◌,
  ◌++◌, ◌&&◌, ◌||◌, if◌then◌else◌, length, keep, all, join, contains, count, dict_get, dict_has,
  nat_eq, arith, Bool-cases, Option-cases, contains-keep, count_absent, count_present, IsDistinct,
  dict_get_of_has, contains-append, all-contains,
}
use taka_ma.Plan.Model.{Subtask, deps_of}
use taka_ma.Plan.Waves.{
  steps_of, effective_deps, remaining_from, within, is_ready, next_wave, round, Outcome, waves,
  key_error, spent, cons_wave, compute_waves,
}
use taka_ma.Plan.Waves.Loop.{
  Entries, Rule, wave_loop_ind, round-next, round-last, dict_get-delete_all, dict_has-delete_all,
  OnWaves,
}
use taka_ma.Plan.Waves.Partition.{OnWaves-both, compute_waves-counts, dict_has-remaining_from}
use taka_ma.Plan.Waves.Sources.{entry_source, dict_get-remaining_from, contains-steps_of}

-- The wave in which a step stands, counted from 0; the number of waves if it stands in none.
abbrev pub wave_number : List (List ℕ) → ℕ → ℕ
wave_number [] k = 0
wave_number (w ∷ ws) k = let later = wave_number ws k in if contains w k then 0 else suc later

-- A numbering in which each dependency that counts lies below its step: there is no cycle.
abbrev pub IsRanked : (ℕ → ℕ) → List Subtask → Type 0
IsRanked rank subtasks =
    (s : Subtask) (d : ℕ)
    → Memᴰ s subtasks
    → contains (effective_deps s (steps_of subtasks)) d ≡ true
    → rank d < rank s.step

all_of {ℓ} :
    {A : Type ℓ} (p : A → Bool) (inside : A → Bool) (xs : List A)
    → all inside xs ≡ true
    → ((x : A) → inside x ≡ true → p x ≡ true)
    → all p xs ≡ true
all_of p inside [] h f = refl
all_of p inside (x ∷ xs) h f = ground (arith, f x, all_of p inside xs (ground arith) f)

all-contains_self : (xs ys : List ℕ) → all (contains (ys ++ xs)) xs ≡ true
all-contains_self [] ys = refl
all-contains_self (x ∷ xs) ys = ground (
  arith,
  contains-append ys (x ∷ xs) x,
  beq_refl x,
  all_of (contains (ys ++ x ∷ xs)) (contains (ys ++ xs)) xs (all-contains_self xs ys)
      (λ y m. ground (arith, contains-append ys (x ∷ xs) y, contains-append ys xs y)),
)

-- To show a test of each element it is enough to show it of what the list contains.
all_of_contains :
    (p : ℕ → Bool) (xs : List ℕ) → ((x : ℕ) → contains xs x ≡ true → p x ≡ true) → all p xs ≡ true
all_of_contains p xs f = all_of p (contains xs) xs (all-contains_self xs []) f

-- Each step of a wave has its dependencies in the waves before it.
abbrev layered : Entries → List ℕ → List (List ℕ) → Bool
layered d done [] = true
layered d done (w ∷ ws) = all (is_ready d done) w && layered d (done ++ w) ws

module _ (rank : ℕ → ℕ) (order : List ℕ) (whole : Entries) where
  -- What the entries left are, and where their dependencies stand.
  record Left (d : Entries) (done : List ℕ) : Type 0 where
    same : (k : ℕ) (ds : List ℕ) → dict_get d k ≡ some ds → dict_get whole k ≡ some ds
    known : (k : ℕ) → dict_has d k ≡ true → contains order k ≡ true
    ranked :
        (k : ℕ) (ds : List ℕ) (x : ℕ)
        → dict_get d k ≡ some ds
        → contains ds x ≡ true
        → rank x < rank k
    placed :
        (k : ℕ) (ds : List ℕ) (x : ℕ)
        → dict_get d k ≡ some ds
        → contains ds x ≡ true
        → (contains done x || dict_has d x) ≡ true

  -- If no entry is ready, no entry is left: else one of least rank would be ready.
  module _ {d : Entries} {done : List ℕ} (l : Left d done)
      (idle : keep (is_ready d done) order ≡ []) where
    not_ready : (k : ℕ) → contains order k ≡ true → is_ready d done k ≡ false
    not_ready k m =
        ground (arith, contains-keep (is_ready d done) order k, ap (λ xs. contains xs k) idle)

    descent : (n k : ℕ) → dict_has d k ≡ true → rank k < n → ⊥
    descent zero k m below = omega arith
    descent (suc n) k m below = elim (Option-cases (dict_get d k)) [
      | inl absent ↦ ground (arith, dict_get_of_has d k m)
      | inr (ds, e) ↦
          let all_done : within done (some ds) ≡ true = all_of_contains (contains done) ds λ x mx.
            ground (
              arith,
              l.placed k ds x e mx,
              λ (h : dict_has d x ≡ true). descent n x h (omega (arith, l.ranked k ds x e mx)),
            ) in
          ground (arith, not_ready k (l.known k m))
    ]

  Left-round :
      (d rest : Entries) (done w : List ℕ)
      → round order d done ≡ next_wave w rest
      → Left d done
      → Left rest (done ++ w)
  Left-round d rest done w q l =
      let (_, del) = round-next order done w d rest q in
      let had : (k : ℕ) (ds : List ℕ) → dict_get rest k ≡ some ds → dict_get d k ≡ some ds =
        λ k ds e. ground (arith, dict_get-delete_all w d rest k del) in
      record {
        same = λ k ds e. l.same k ds (had k ds e);
        known = λ k m. l.known k (ground (arith, dict_has-delete_all w d rest k del));
        ranked = λ k ds x e. l.ranked k ds x (had k ds e);
        placed = λ k ds x e mx. ground (
          arith,
          l.placed k ds x (had k ds e) mx,
          contains-append done w x,
          dict_has-delete_all w d rest x del,
        );
      }

  wave_ready :
      (d rest : Entries) (done w : List ℕ)
      → round order d done ≡ next_wave w rest
      → Left d done
      → all (is_ready whole done) w ≡ true
  wave_ready d rest done w q l =
      let (e, _) = round-next order done w d rest q in
      all_of_contains (is_ready whole done) w λ k m.
        let ready : is_ready d done k ≡ true =
          ground (arith, contains-keep (is_ready d done) order k, ap (λ xs. contains xs k) e) in
        elim (Option-cases (dict_get d k)) [
          | inl absent ↦ absurd (ground arith)
          | inr (ds, found) ↦ ground (arith, l.same k ds found)
        ]

  abbrev Layers : Entries → List ℕ → Outcome → Type 0
  Layers d done o = Left d done → OnWaves (λ ws. layered whole done ws ≡ true) o

  cons_wave-Layers :
      (done w : List ℕ) (o : Outcome)
      → all (is_ready whole done) w ≡ true
      → OnWaves (λ ws. layered whole (done ++ w) ws ≡ true) o
      → OnWaves (λ ws. layered whole done ws ≡ true) (cons_wave w o)
  cons_wave-Layers done w (waves ws) ready h = ground arith
  cons_wave-Layers done w (key_error st) ready h = tt
  cons_wave-Layers done w spent ready h = h

  layering : Rule order Layers
  layering = record {
    finish = λ done l. refl;
    last = λ d done w q l.
        let (e, idle) = round-last order done w d q in
        ground (
          arith,
          all_of_contains (is_ready whole done) w λ k m. absurd (
              descent l idle (suc (rank k)) k
                (ground (arith, contains-keep (dict_has d) order k, ap (λ xs. contains xs k) e))
                (le_refl _)),
        );
    next = λ d rest done w o q ih l.
        cons_wave-Layers done w o (wave_ready d rest done w q l)
          (ih (Left-round d rest done w q l));
    failed = λ d done st q l. tt;
  }

wave_number-lt :
    (d : Entries) (done : List ℕ) (ws : List (List ℕ)) (k x : ℕ) (ds : List ℕ)
    → layered d done ws ≡ true
    → dict_get d k ≡ some ds
    → contains ds x ≡ true
    → contains (join ws) k ≡ true
    → (contains done x ≡ true) ⊎ (wave_number ws x < wave_number ws k)
wave_number-lt d done [] k x ds l e mx m = absurd (ground arith)
wave_number-lt d done (w ∷ ws) k x ds l e mx m = elim (Bool-cases (contains w k)) [
  | inl here ↦ inl (
      all-contains (contains done) ds x
        (ground (arith, all-contains (is_ready d done) w k (ground arith) here)) mx)
  | inr later ↦ ground (
    arith,
    contains-append w (join ws) k,
    contains-append done w x,
    wave_number-lt d (done ++ w) ws k x ds,
  )
]

module _ (rank : ℕ → ℕ) (subtasks : List Subtask) (ranked : IsRanked rank subtasks) where
  abbrev start : Entries
  start = remaining_from (steps_of subtasks) subtasks []

  Left-start : Left rank (steps_of subtasks) start start []
  unfolding effective_deps
  Left-start = record {
    same = λ k ds e. e;
    known = λ k m. ground (arith, dict_has-remaining_from (steps_of subtasks) subtasks [] k);
    ranked = λ k ds x e mx. elim (entry_source (steps_of subtasks) subtasks [] k ds e) [
      | inl absent ↦ absurd (ground arith)
      | inr (s, m, at, same) ↦ rw (← at) (ranked s x m (rw same at mx))
    ];
    placed = λ k ds x e mx. elim (entry_source (steps_of subtasks) subtasks [] k ds e) [
      | inl absent ↦ absurd (ground arith)
      | inr (s, m, at, same) ↦ ground (
        arith,
        dict_has-remaining_from (steps_of subtasks) subtasks [] x,
        contains-keep (λ y. contains (steps_of subtasks) y) (deps_of s) x,
        ap (λ l. contains l x) same,
      )
    ];
  }

-- If the step numbers are distinct and some numbering puts each dependency that counts below its
-- step, then in the waves each such dependency stands in an earlier wave than its step.
pub compute_waves-order :
    (rank : ℕ → ℕ) (subtasks : List Subtask)
    → IsDistinct (steps_of subtasks)
    → IsRanked rank subtasks
    → OnWaves
        (λ ws.
          (s : Subtask) (x : ℕ)
          → Memᴰ s subtasks
          → contains (effective_deps s (steps_of subtasks)) x ≡ true
          → wave_number ws x < wave_number ws s.step)
        (compute_waves subtasks)
unfolding compute_waves
compute_waves-order rank subtasks distinct ranked =
    let steps = steps_of subtasks in
    let whole = remaining_from steps subtasks [] in
    OnWaves-both (λ ws. layered whole [] ws ≡ true)
      (λ ws. (k : ℕ) → count k (join ws) ≡ count k steps)
      (λ ws.
        (s : Subtask) (x : ℕ)
        → Memᴰ s subtasks
        → contains (effective_deps s steps) x ≡ true
        → wave_number ws x < wave_number ws s.step)
      (compute_waves subtasks)
      (λ ws l c s x m mx.
        let at : contains (join ws) s.step ≡ true = ground (
          arith,
          c s.step,
          contains-steps_of subtasks s m,
          count_present steps s.step,
          count_absent (join ws) s.step,
        ) in
        ground (
          arith,
          wave_number-lt whole [] ws s.step x (effective_deps s steps) l
              (dict_get-remaining_from steps subtasks [] s distinct m) mx at,
        ))
      (wave_loop_ind (layering rank steps whole) (length whole) whole [] (le_refl _)
        (Left-start rank subtasks ranked))
      (compute_waves-counts subtasks)
