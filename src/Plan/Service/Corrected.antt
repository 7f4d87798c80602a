-- ===== src/Plan/Service/Corrected.antt =====
-- What `PlanService.correct` of orchestrator/plan.py answers, on each of its routes.
use mathlib.Core.Option.{some-injective}
use mathlib.Core.Path.{subst}
use taka_ma.Common.{
  ◌≡◌, refl, Option, none, some, List, [], ◌∷◌, map, Text, CharTable, arith, IsDistinct, nat_eq,
}
use taka_ma.Plan.Model.{Subtask, Patch, ViewItem, core}
use taka_ma.Plan.Waves.{steps_of, compute_waves}
use taka_ma.Plan.Waves.Core.{compute_waves-core, steps_of-map-core}
use taka_ma.Plan.Patches.{Refusal, apply_patches}
use taka_ma.Plan.Patches.Kept.{map-apply_patches}
use taka_ma.Plan.Correction.{parse_simple_correction}
use taka_ma.Plan.View.Shown.{build_view-some}
use taka_ma.Plan.Service.{
  Echo, Route, simple, llm, Answer, Collaborators, answer_of, between, apply_route, by_model,
  by_notation, correct, unchanged,
}

-- What holds of an answer to a correction of the plan: it is another plan over the same steps, or
-- it is no correction, and then the plan is as it was and nothing is echoed.
pub record IsFair (subtasks : List Subtask) (a : Answer) : Type 0 where
  pub same_core : map core a.plan ≡ map core subtasks
  pub untouched : a.route ≡ none → (a.plan ≡ subtasks) × (a.echoes ≡ [])

module _ (t : CharTable) (c : Collaborators) (subtasks : List Subtask) where
  unchanged-IsFair : IsFair subtasks (unchanged t c subtasks)
  unchanged-IsFair = record { same_core = refl; untouched = λ e. (refl, refl) }

  answer_of-IsFair :
      (route : Route) (new : List Subtask) (echoes : List Echo)
      → map core new ≡ map core subtasks
      → IsFair subtasks (answer_of t c route subtasks new echoes)
  answer_of-IsFair llm new [] same = unchanged-IsFair
  answer_of-IsFair llm new (x ∷ xs) same = record { same_core = same; untouched = λ e. cc }
  answer_of-IsFair simple new echoes same = record { same_core = same; untouched = λ e. cc }

  between-IsFair :
      (route : Route) (result : List Subtask × List Refusal) (before after : Option (List ViewItem))
      (a : Answer)
      → map core result.0 ≡ map core subtasks
      → between t c route subtasks result before after ≡ some a
      → IsFair subtasks a
  between-IsFair route (new, errors) none after a same e = absurd (ground arith)
  between-IsFair route (new, errors) (some b) none a same e = absurd (ground arith)
  between-IsFair route (new, errors) (some b) (some v) a same e =
      subst (IsFair subtasks) (some-injective _ _ e) (answer_of-IsFair route new _ same)

  apply_route-IsFair :
      (route : Route) (patches : List Patch) (a : Answer)
      → apply_route t c route subtasks patches ≡ some a
      → IsFair subtasks a
  unfolding apply_route
  apply_route-IsFair route patches a e =
      between-IsFair route (apply_patches c.valid_models patches subtasks) _ _ a
        (map-apply_patches c.valid_models patches subtasks) e

  by_notation-IsFair :
      (text : Text) (o : Option (List Patch)) (a : Answer)
      → by_notation t c subtasks text o ≡ some a
      → IsFair subtasks a
  by_notation-IsFair text (some patches) a e = apply_route-IsFair simple patches a e
  by_notation-IsFair text none a e = go (c.correct subtasks text) e
    where
      go : (ps : List Patch) → by_model t c subtasks ps ≡ some a → IsFair subtasks a
      go [] h = subst (IsFair subtasks) (some-injective _ _ h) unchanged-IsFair
      go (p ∷ ps) h = apply_route-IsFair llm (p ∷ ps) a h

-- Whatever the text and whatever the model answers: a correction changes nothing of the plan but
-- depths and model overrides, it leaves the waves as they were, and where it counts as no
-- correction the plan is the one that was given and nothing is echoed.
pub correct_lem :
    (t : CharTable) (c : Collaborators) (subtasks : List Subtask) (text : Text) (a : Answer)
    → correct t c subtasks text ≡ some a
    → (map core a.plan ≡ map core subtasks)
      × (compute_waves a.plan ≡ compute_waves subtasks)
      × (a.route ≡ none → (a.plan ≡ subtasks) × (a.echoes ≡ []))
unfolding correct
correct_lem t c subtasks text a e =
    let fair =
      by_notation-IsFair t c subtasks text (parse_simple_correction t text c.valid_models) a e in
    (fair.same_core, compute_waves-core a.plan subtasks fair.same_core, fair.untouched)

module _ (t : CharTable) (c : Collaborators) (subtasks : List Subtask)
    (distinct : IsDistinct (steps_of subtasks)) where
  apply_route_total :
      (route : Route) (patches : List Patch)
      → (a : Answer) × (apply_route t c route subtasks patches ≡ some a)
  unfolding apply_route
  apply_route_total route patches =
      let result = apply_patches c.valid_models patches subtasks in
      let (before, e1) = build_view-some c.resolve subtasks distinct in
      let (after, e2) = build_view-some c.resolve result.0 (
        rw (steps_of-map-core result.0 subtasks (map-apply_patches c.valid_models patches subtasks))
          distinct) in
      rw (e1, e2) (_, refl)

  by_model_total : (ps : List Patch) → (a : Answer) × (by_model t c subtasks ps ≡ some a)
  by_model_total [] = (unchanged t c subtasks, refl)
  by_model_total (p ∷ ps) = apply_route_total llm (p ∷ ps)

  by_notation_total :
      (text : Text) (o : Option (List Patch))
      → (a : Answer) × (by_notation t c subtasks text o ≡ some a)
  by_notation_total text (some ps) = apply_route_total simple ps
  by_notation_total text none = by_model_total (c.correct subtasks text)

-- On a plan whose step numbers are distinct, every text gets an answer.
pub correct_total :
    (t : CharTable) (c : Collaborators) (subtasks : List Subtask) (text : Text)
    → IsDistinct (steps_of subtasks)
    → (a : Answer) × (correct t c subtasks text ≡ some a)
unfolding correct
correct_total t c subtasks text distinct =
    by_notation_total t c subtasks distinct text (parse_simple_correction t text c.valid_models)
