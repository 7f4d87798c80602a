-- ===== src/Chain/Graph.antt =====
-- `Orchestrator._validate_subtask_graph` of orchestrator/__init__.py: the checks on the dependencies
-- before a plan is run. The depth-first search has fuel for its depth, and goes through the steps in
-- the order of the plan, where the code's set of numbers has an order of its own. `graph` has the
-- entries that `compute_waves` starts from. A `depends_on` that is null, for which the code would
-- raise a TypeError, is read as empty, as the decomposer makes it.
pub mod Whites
pub mod Finish
pub mod Acyclic
use taka_ma.Common.{
  ℕ, zero, suc, Bool, true, false, Option, none, some, List, [], ◌∷◌, ◌++◌, if◌then◌else◌, contains,
  Dict, dict_get, dict_set, nat_eq, ◌==◌, length, or_nil, sorted,
}
use taka_ma.Plan.Model.{Subtask, deps_of}
use taka_ma.Plan.Waves.{steps_of, remaining_from}

-- What is wrong with a plan: repeated step numbers, a step that depends on itself, or a cycle that
-- the search from a step runs into.
pub data GraphError : Type 0 where
  repeated : List ℕ → GraphError
  self_dependent : ℕ → GraphError
  cyclic_at : ℕ → GraphError

-- The set `dups`
abbrev pub dups_from : List ℕ → List ℕ → List ℕ → List ℕ
dups_from seen dups [] = dups
dups_from seen dups (st ∷ steps) =
    dups_from (st ∷ seen)
      (if contains seen st then (if contains dups st then dups else st ∷ dups) else dups) steps

-- The first step that depends on itself.
abbrev pub first_self : List Subtask → Option ℕ
first_self [] = none
first_self (s ∷ rest) =
    let later = first_self rest in if contains (deps_of s) s.step then some s.step else later

pub data Color : Type 0 where
  white gray black : Color

abbrev pub Colors : Type 0
Colors = Dict ℕ Color

abbrev pub or_white : Option Color → Color
or_white none = white
or_white (some c) = c

abbrev pub color_of : Colors → ℕ → Color
color_of colors v = or_white (dict_get colors v)

-- What the search from a step ends with: a cycle, the colors, or no fuel.
pub data Search : Type 0 where
  cycle : Search
  clear : Colors → Search
  spent : Search

abbrev pub then_search : Search → (Colors → Search) → Search
then_search cycle next = cycle
then_search (clear colors) next = next colors
then_search spent next = spent

-- What the loop does at an edge, by the color at its end.
abbrev pub at_edge : Color → Search → (Colors → Search) → Colors → Search
at_edge white inner next colors = then_search inner next
at_edge gray inner next colors = cycle
at_edge black inner next colors = next colors

abbrev pub visit_each : (ℕ → Colors → Search) → List ℕ → Colors → Search
visit_each visit [] colors = clear colors
visit_each visit (v ∷ vs) colors =
    at_edge (color_of colors v) (visit v colors) (visit_each visit vs) colors

module _ (graph : Dict ℕ (List ℕ)) where
  -- `_has_cycle`
  unfoldable pub visit : ℕ → ℕ → Colors → Search
  visit zero u colors = spent
  visit (suc fuel) u colors =
      then_search (visit_each (visit fuel) (or_nil (dict_get graph u)) (dict_set colors u gray))
        (λ after. clear (dict_set after u black))

  abbrev pub at_root :
      Color → ℕ → Search → (Colors → Option GraphError) → Colors → Option GraphError
  at_root white st (clear after) next colors = next after
  at_root white st cycle next colors = some (cyclic_at st)
  at_root white st spent next colors = some (cyclic_at st)
  at_root _ st search next colors = next colors

  -- The loop over all steps.
  abbrev pub search_all : ℕ → List ℕ → Colors → Option GraphError
  search_all fuel [] colors = none
  search_all fuel (st ∷ steps) colors =
      at_root (color_of colors st) st (visit fuel st colors) (search_all fuel steps) colors

abbrev pub after_self : Option ℕ → List Subtask → Option GraphError
after_self (some st) subtasks = some (self_dependent st)
after_self none subtasks =
    let steps = steps_of subtasks in
    search_all (remaining_from steps subtasks []) (length steps) steps []

abbrev pub after_dups : List ℕ → List Subtask → Option GraphError
after_dups [] subtasks = after_self (first_self subtasks) subtasks
after_dups (st ∷ dups) subtasks = some (repeated (sorted (st ∷ dups)))

unfoldable pub validate_subtask_graph : List Subtask → Option GraphError
validate_subtask_graph subtasks = after_dups (dups_from [] [] (steps_of subtasks)) subtasks
