-- ===== src/Plan/View.antt =====
-- `build_view` and `diff_view` of orchestrator/plan.py: what the preview shows of each step, and what
-- a correction changes in it. The resolution of models is a parameter, as in the code.
pub mod Shown
use taka_ma.Common.{
  ℕ, suc, ◌+◌, String, Bool, true, false, not, ◌&&◌, ◌||◌, Option, none, some, List, [], ◌∷◌, ◌++◌,
  map, Text, Dict, dict_get, dict_set, ◌==◌, string_eq, list_eq, nat_eq, if◌then◌else◌, length,
  or_nil, option_eq, head?,
}
use taka_ma.Plan.Model.{
  Subtask, ViewItem, Weight, runbook_weight, derive_weight, UserModel, command_of, weight_eq,
}
use taka_ma.Plan.Waves.{Outcome, waves, key_error, spent, compute_waves}
use taka_ma.Routing.{Execution, truthy}

-- `resolve`: execution, depth, confidence, the model of the request, the override
abbrev pub Resolve : Type 0
Resolve = String → Option String → Option ℕ → Option UserModel → Option Text → Execution

-- `{st: v for st in wave}` on top of what is there
abbrev pub mark_all : ℕ → List ℕ → Dict ℕ ℕ → Dict ℕ ℕ
mark_all v [] d = d
mark_all v (st ∷ wave) d = mark_all v wave (dict_set d st v)

-- `wave_of`, counted from 1
abbrev pub wave_of : ℕ → List (List ℕ) → Dict ℕ ℕ → Dict ℕ ℕ
wave_of i [] d = d
wave_of i (w ∷ ws) d = wave_of (suc i) ws (mark_all i w d)

abbrev pub width_of : List (List ℕ) → Dict ℕ ℕ → Dict ℕ ℕ
width_of [] d = d
width_of (w ∷ ws) d = width_of ws (mark_all (length w) w d)

abbrev pub or_one : Option ℕ → ℕ
or_one none = 1
or_one (some n) = n

-- `s.get("execution", "agent")`
abbrev pub or_agent : Option String → String
or_agent none = "agent"
or_agent (some e) = e

abbrev pub execution_of : Subtask → String
execution_of s = or_agent s.execution

abbrev pub is_some {ℓ} : {A : Type ℓ} → Option A → Bool
is_some none = false
is_some (some x) = true

abbrev pub tail : List Text → List Text
tail [] = []
tail (m ∷ ms) = ms

pub shown : Resolve → ℕ → ℕ → Subtask → ViewItem
shown resolve wave parallel s =
    let execution = execution_of s in
    if execution == "runbook"
    then record {
      step = s.step;
      overview = command_of s;
      execution = execution;
      depth = none;
      weight = runbook_weight;
      model = none;
      escalation = [];
      user_specified = false;
      overridden = false;
      wave = wave;
      parallel = parallel;
    }
    else (let r = resolve execution s.depth s.confidence s.model s.model_override in
        record {
          step = s.step;
          overview = command_of s;
          execution = execution;
          depth = s.depth;
          weight = derive_weight execution s.depth;
          model = head? r.candidates;
          escalation = tail r.candidates;
          user_specified = r.user_specified;
          overridden = is_some (truthy s.model_override);
          wave = wave;
          parallel = parallel;
        })

pub view_of : Resolve → List (List ℕ) → List Subtask → List ViewItem
unfolding shown
view_of resolve ws subtasks =
    map
      (λ s.
        shown resolve (or_one (dict_get (wave_of 1 ws []) s.step))
          (or_one (dict_get (width_of ws []) s.step)) s)
      subtasks

-- `none` is the KeyError of `compute_waves`.
abbrev pub on_waves : Resolve → List Subtask → Outcome → Option (List ViewItem)
on_waves resolve subtasks (waves ws) = some (view_of resolve ws subtasks)
on_waves resolve subtasks (key_error st) = none
on_waves resolve subtasks spent = none

pub build_view : Resolve → List Subtask → Option (List ViewItem)
unfolding view_of
build_view resolve subtasks = on_waves resolve subtasks (compute_waves subtasks)

-- One entry of `changes`, with the old and the new value.
pub data Change : Type 0 where
  depth_change : Option String → Option String → Change
  weight_change : Weight → Weight → Change
  model_change : Option Text → Option Text → Change

abbrev pub changed : Bool → Change → List Change
changed true c = []
changed false c = c ∷ []

-- What differs between two items of one step, in the order of the code.
pub changes_of : ViewItem → ViewItem → List Change
changes_of old new =
    changed (old.depth == new.depth) (depth_change old.depth new.depth)
    ++ (changed (old.weight == new.weight) (weight_change old.weight new.weight)
        ++ changed (old.model == new.model) (model_change old.model new.model))

pub by_step : List ViewItem → Dict ℕ ViewItem → Dict ℕ ViewItem
by_step [] d = d
by_step (item ∷ items) d = by_step items (dict_set d item.step item)

abbrev pub line_of : ℕ → List Change → List (ℕ × List Change) → List (ℕ × List Change)
line_of step [] rest = rest
line_of step (c ∷ cs) rest = (step, c ∷ cs) ∷ rest

pub diff_items : Dict ℕ ViewItem → List ViewItem → List (ℕ × List Change)
unfolding changes_of
diff_items prev [] = []
diff_items prev (item ∷ items) =
    let rest = diff_items prev items in
    elim (dict_get prev item.step) [
      | none ↦ rest
      | some old ↦ line_of item.step (changes_of old item) rest
    ]

pub diff_view : List ViewItem → List ViewItem → List (ℕ × List Change)
unfolding diff_items by_step
diff_view before after = diff_items (by_step before []) after
