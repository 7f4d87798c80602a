-- ===== src/Examples/Routing.antt =====
-- The choice of models at a concrete configuration.
use taka_ma.Common.{◌≡◌, refl, [], ◌∷◌, some, none, codes, IsDistinct, nat_eq, list_eq}
use taka_ma.Routing.{Routing, Config, escalation_chain, resolve_model}
use taka_ma.Routing.Ladder.{FitsLimit, escalation_chain-IsDistinct}

abbrev pub routing : Routing
routing = record {
  threshold = 700;
  inline_row = some (record { high = some (codes "haiku"); low = some (codes "sonnet") });
  agent_rows = ("deep", record { high = some (codes "opus"); low = none }) ∷ [];
  ladder = codes "haiku" ∷ codes "sonnet" ∷ codes "opus" ∷ [];
}

abbrev pub config : Config
config = record { routing = routing; models = []; max_fallback_attempts = some 1 }

escalation_chain-IsDistinct_example :
    IsDistinct (escalation_chain routing (some (codes "sonnet")) (some 1))
    × FitsLimit (some 1) (escalation_chain routing (some (codes "sonnet")) (some 1))
escalation_chain-IsDistinct_example =
    escalation_chain-IsDistinct routing (some (codes "sonnet")) (some 1)

resolved : resolve_model routing "agent" (some "deep") (some 900) ≡ some (codes "opus")
unfolding resolve_model
resolved = refl
