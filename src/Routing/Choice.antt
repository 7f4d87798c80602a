-- ===== src/Routing/Choice.antt =====
-- `Orchestrator._plan_execution` of orchestrator/__init__.py: who decides on the model.
use taka_ma.Common.{
  ℕ, String, ◌≡◌, refl, true, false, Option, none, some, [], ◌∷◌, Text, string_eq, head?,
}
use taka_ma.Plan.Model.{UserModel}
use taka_ma.Routing.{
  Config, executed, by_ladder, truthy, plan_execution, resolve_model, review_of, one_model,
}
use taka_ma.Routing.Ladder.{head-escalation_chain}

-- An override from the plan's confirmation wins over the model that the request names and over the
-- table: it is tried first, and the ladder stays open above it.
pub plan_execution_override :
    (config : Config) (execution : String) (depth : Option String) (confidence : Option ℕ)
    (user : Option UserModel) (override : Option Text) (m : Text)
    → truthy override ≡ some m
    → (head? (plan_execution config execution depth confidence user override).candidates ≡ some m)
      × ((plan_execution config execution depth confidence user override).user_specified ≡ false)
unfolding plan_execution by_ladder executed
plan_execution_override config execution depth confidence user override m h =
    rw h (head-escalation_chain config.routing m config.max_fallback_attempts, refl)

-- Without an override, a single model that the request names is the only candidate.
pub plan_execution_user :
    (config : Config) (execution : String) (depth : Option String) (confidence : Option ℕ)
    (user : Option UserModel) (override : Option Text) (m : Text)
    → truthy override ≡ none
    → review_of user ≡ none
    → one_model user ≡ some m
    → ((plan_execution config execution depth confidence user override).candidates ≡ m ∷ [])
      × ((plan_execution config execution depth confidence user override).user_specified ≡ true)
unfolding plan_execution by_ladder executed
plan_execution_user config execution depth confidence user override m h k e =
    rw (h, k, e) (refl, refl)

-- Without either, the table decides what is tried first, and nothing is marked as specified.
pub plan_execution_table :
    (config : Config) (execution : String) (depth : Option String) (confidence : Option ℕ)
    (user : Option UserModel) (override : Option Text) (m : Text)
    → truthy override ≡ none
    → review_of user ≡ none
    → one_model user ≡ none
    → resolve_model config.routing execution depth confidence ≡ some m
    → (head? (plan_execution config execution depth confidence user override).candidates ≡ some m)
      × ((plan_execution config execution depth confidence user override).user_specified ≡ false)
unfolding plan_execution by_ladder executed
plan_execution_table config execution depth confidence user override m h k e r =
    rw (h, k, e, r) (head-escalation_chain config.routing m config.max_fallback_attempts, refl)
