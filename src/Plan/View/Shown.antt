-- ===== src/Plan/View/Shown.antt =====
-- The numbers that the preview of orchestrator/plan.py shows are those of the waves.
use mathlib.Core.List.{Memᴰ}
use mathlib.Core.Path.{subst}
use taka_ma.Common.{
  ℕ, suc, ◌+◌, ◌≡◌, refl, ap, ◌∙◌, inl, inr, true, false, some, List, [], ◌∷◌, map, Dict, dict_get,
  dict_set, ◌==◌, nat_eq, if◌then◌else◌, length, contains, count, join, arith, Bool-cases,
  dict_get-dict_set, nat_beq_iff, contains-append, count-append, count_absent, count_present,
  IsDistinct,
}
use taka_ma.Plan.Model.{Subtask, ViewItem}
use taka_ma.Plan.Waves.{waves, compute_waves, steps_of}
use taka_ma.Plan.Waves.Loop.{OnWaves}
use taka_ma.Plan.Waves.Partition.{compute_waves-counts, compute_waves-distinct}
use taka_ma.Plan.Waves.Sources.{contains-steps_of}
use taka_ma.Plan.Waves.Layers.{wave_number}
use taka_ma.Plan.View.{
  Resolve, mark_all, wave_of, width_of, or_one, shown, view_of, on_waves, build_view,
}

dict_get-mark_all :
    (v : ℕ) (w : List ℕ) (d : Dict ℕ ℕ) (k : ℕ)
    → dict_get (mark_all v w d) k ≡ (if contains w k then some v else dict_get d k)
dict_get-mark_all v [] d k = refl
dict_get-mark_all v (st ∷ w) d k =
    ground (arith, dict_get-mark_all v w (dict_set d st v) k, dict_get-dict_set d st k v)

dict_get-wave_of_absent :
    (i : ℕ) (ws : List (List ℕ)) (d : Dict ℕ ℕ) (k : ℕ)
    → contains (join ws) k ≡ false
    → dict_get (wave_of i ws d) k ≡ dict_get d k
dict_get-wave_of_absent i [] d k h = refl
dict_get-wave_of_absent i (w ∷ ws) d k h = ground (
  arith,
  dict_get-wave_of_absent (suc i) ws (mark_all i w d) k,
  dict_get-mark_all i w d k,
  contains-append w (join ws) k,
)

absent_of_count : (xs : List ℕ) (k : ℕ) → count k xs ≡ 0 → contains xs k ≡ false
absent_of_count xs k h = elim (Bool-cases (contains xs k)) [
  | inl inside ↦ absurd (omega (arith, count_present xs k inside))
  | inr outside ↦ outside
]

-- A step that stands once in the waves is given the number of its wave, counted from `i`.
dict_get-wave_of :
    (i : ℕ) (ws : List (List ℕ)) (d : Dict ℕ ℕ) (k : ℕ)
    → count k (join ws) ≡ 1
    → dict_get (wave_of i ws d) k ≡ some (i + wave_number ws k)
dict_get-wave_of i [] d k h = absurd (ground arith)
dict_get-wave_of i (w ∷ ws) d k h = elim (Bool-cases (contains w k)) [
  | inl here ↦
      let gone : contains (join ws) k ≡ false =
        absent_of_count (join ws) k
          (omega (arith, count-append k w (join ws), count_present w k here)) in
      ground (
        arith,
        dict_get-wave_of_absent (suc i) ws (mark_all i w d) k gone,
        dict_get-mark_all i w d k,
      )
  | inr later ↦ ground (
    arith,
    count-append k w (join ws),
    count_absent w k later,
    dict_get-wave_of (suc i) ws (mark_all i w d) k,
  )
]

-- How many steps run beside a step: the length of its wave.
abbrev pub wave_width : List (List ℕ) → ℕ → ℕ
wave_width [] k = 1
wave_width (w ∷ ws) k = let later = wave_width ws k in if contains w k then length w else later

dict_get-width_of_absent :
    (ws : List (List ℕ)) (d : Dict ℕ ℕ) (k : ℕ)
    → contains (join ws) k ≡ false
    → dict_get (width_of ws d) k ≡ dict_get d k
dict_get-width_of_absent [] d k h = refl
dict_get-width_of_absent (w ∷ ws) d k h = ground (
  arith,
  dict_get-width_of_absent ws (mark_all (length w) w d) k,
  dict_get-mark_all (length w) w d k,
  contains-append w (join ws) k,
)

dict_get-width_of :
    (ws : List (List ℕ)) (d : Dict ℕ ℕ) (k : ℕ)
    → count k (join ws) ≡ 1
    → dict_get (width_of ws d) k ≡ some (wave_width ws k)
dict_get-width_of [] d k h = absurd (ground arith)
dict_get-width_of (w ∷ ws) d k h = elim (Bool-cases (contains w k)) [
  | inl here ↦
      let gone : contains (join ws) k ≡ false =
        absent_of_count (join ws) k
          (omega (arith, count-append k w (join ws), count_present w k here)) in
      ground (
        arith,
        dict_get-width_of_absent ws (mark_all (length w) w d) k gone,
        dict_get-mark_all (length w) w d k,
      )
  | inr later ↦ ground (
    arith,
    count-append k w (join ws),
    count_absent w k later,
    dict_get-width_of ws (mark_all (length w) w d) k,
  )
]

count_once : (xs : List ℕ) (k : ℕ) → IsDistinct xs → contains xs k ≡ true → count k xs ≡ 1
count_once [] k distinct m = absurd (ground arith)
count_once (x ∷ xs) k distinct m = elim (Bool-cases (x == k)) [
  | inl same ↦ ground (arith, count_absent xs k, ap (contains xs) ((nat_beq_iff x k).0 same))
  | inr other ↦ ground (arith, count_once xs k distinct.1)
]

map_mem :
    (f g : Subtask → ViewItem) (ss : List Subtask)
    → ((s : Subtask) → Memᴰ s ss → f s ≡ g s)
    → map f ss ≡ map g ss
map_mem f g [] h = refl
map_mem f g (s ∷ ss) h =
    ground (arith, h s (Memᴰ.head refl), map_mem f g ss (λ t m. h t (Memᴰ.tail m)))

one_add : (n : ℕ) → 1 + n ≡ suc n
one_add n = omega arith

shown_waves :
    (resolve : Resolve) (subtasks : List Subtask) (ws : List (List ℕ))
    → ((s : Subtask) → Memᴰ s subtasks → count s.step (join ws) ≡ 1)
    → view_of resolve ws subtasks
      ≡ map (λ s. shown resolve (suc (wave_number ws s.step)) (wave_width ws s.step) s) subtasks
unfolding view_of
shown_waves resolve subtasks ws once = map_mem _ _ subtasks λ s m.
    ap (λ n. shown resolve (or_one n) (or_one (dict_get (width_of ws []) s.step)) s)
      (dict_get-wave_of 1 ws [] s.step (once s m))
    ∙ ap (λ n. shown resolve (1 + wave_number ws s.step) (or_one n) s)
        (dict_get-width_of ws [] s.step (once s m))
    ∙ ap (λ n. shown resolve n (wave_width ws s.step) s) (one_add (wave_number ws s.step))

-- A plan of distinct step numbers has waves, and its preview has an item for each subtask, in the
-- order of the plan, which shows the number of its wave, counted from 1, and how many steps run in
-- that wave.
pub build_view-waves :
    (resolve : Resolve) (subtasks : List Subtask)
    → IsDistinct (steps_of subtasks)
    → (ws : List (List ℕ)) × (compute_waves subtasks ≡ waves ws)
      × (build_view resolve subtasks
          ≡ some (
              map
                (λ s. shown resolve (suc (wave_number ws s.step)) (wave_width ws s.step) s)
                subtasks))
unfolding build_view
build_view-waves resolve subtasks distinct =
    let (ws, e) = compute_waves-distinct subtasks distinct in
    let counts : (k : ℕ) → count k (join ws) ≡ count k (steps_of subtasks) =
      subst (OnWaves (λ xs. (k : ℕ) → count k (join xs) ≡ count k (steps_of subtasks))) e
        (compute_waves-counts subtasks) in
    (
      ws,
      e,
      ap (on_waves resolve subtasks) e
          ∙ ap some (
              shown_waves resolve subtasks ws λ s m.
                counts s.step
                ∙ count_once (steps_of subtasks) s.step distinct (contains-steps_of subtasks s m)),
    )

pub build_view-some :
    (resolve : Resolve) (subtasks : List Subtask)
    → IsDistinct (steps_of subtasks)
    → (v : List ViewItem) × (build_view resolve subtasks ≡ some v)
build_view-some resolve subtasks distinct =
    let (ws, e, v) = build_view-waves resolve subtasks distinct in (_, v)
