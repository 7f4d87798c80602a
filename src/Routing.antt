-- ===== src/Routing.antt =====
-- The choice of models in orchestrator/__init__.py: the routing table (`_resolve_model`), the ladder
-- of escalation (`_escalation_chain`), the way to call a model (`_select_method`), and
-- `Orchestrator._plan_execution`, which the preview and the execution share. The configuration
-- (ai_gateway/config/ya-ta.yaml) is a record; a model's name is a text.
pub mod Ladder
pub mod Choice
use taka_ma.Common.{
  ℕ, zero, suc, String, Bool, true, false, not, ◌&&◌, ◌||◌, Option, none, some, List, [], ◌∷◌, ◌++◌,
  Text, Dict, dict_get, ◌==◌, string_eq, list_eq, nat_eq, if◌then◌else◌, leb, contains, take,
}
use taka_ma.Plan.Model.{UserModel, single, several}

-- A row of the table: `high` and `low`.
pub record Band : Type 0 where
  pub high : Option Text
  pub low : Option Text

-- `routing`; the rows of `matrix.agent` are by depth. The threshold is in thousandths.
pub record Routing : Type 0 where
  pub threshold : ℕ
  pub inline_row : Option Band
  pub agent_rows : Dict String Band
  pub ladder : List Text

-- `models[name]`: the key `methods`, and the older `method`
pub record ModelConf : Type 0 where
  pub methods : Option (List String)
  pub method : Option String

pub record Config : Type 0 where
  pub routing : Routing
  pub models : Dict Text ModelConf
  pub max_fallback_attempts : Option ℕ

-- `confidence is None or confidence >= threshold`
abbrev pub is_high : Option ℕ → ℕ → Bool
is_high none threshold = true
is_high (some c) threshold = leb threshold c

abbrev pub in_band : Option Band → Bool → Option Text
in_band none high = none
in_band (some row) high = if high then row.high else row.low

abbrev pub depth_key : Option String → String
depth_key none = "unspecified"
depth_key (some d) = if d == "shallow" || d == "deep" then d else "unspecified"

unfoldable pub resolve_model : Routing → String → Option String → Option ℕ → Option Text
resolve_model r execution depth confidence =
    let high = is_high confidence r.threshold in
    if execution == "inline"
    then in_band r.inline_row high
    else in_band (dict_get r.agent_rows (depth_key depth)) high

-- `ladder[ladder.index(primary):]`
abbrev pub from_first : Text → List Text → List Text
from_first m [] = []
from_first m (x ∷ xs) = let rest = from_first m xs in if x == m then x ∷ xs else rest

abbrev pub chain_from : Option Text → List Text → List Text
chain_from none ladder = ladder
chain_from (some m) ladder = if contains ladder m then from_first m ladder else m ∷ ladder

-- The loop that takes out repetitions.
abbrev pub dedup_from : List Text → List Text → List Text
dedup_from seen [] = []
dedup_from seen (m ∷ ms) =
    let old = dedup_from seen ms in
    let new = dedup_from (m ∷ seen) ms in if contains seen m then old else m ∷ new

abbrev pub limited : Option ℕ → List Text → List Text
limited none ms = ms
limited (some n) ms = take (suc n) ms

pub escalation_chain : Routing → Option Text → Option ℕ → List Text
escalation_chain r primary max_steps =
    limited max_steps (dedup_from [] (chain_from primary r.ladder))

abbrev pub methods_or_legacy : Option (List String) → Option String → List String
methods_or_legacy (some ms) m = ms
methods_or_legacy none (some m) = if m == "" then [] else m ∷ []
methods_or_legacy none none = []

abbrev pub methods_of : ModelConf → List String
methods_of c = methods_or_legacy c.methods c.method

pub select_method : ModelConf → String → String
select_method c use_case =
    let methods = methods_of c in
    if (use_case == "cross_review" || use_case == "multimodal") && contains methods "subprocess"
    then "subprocess"
    else if contains methods "headless"
    then "headless"
    else if contains methods "pty"
    then "pty"
    else if contains methods "subprocess"
    then "subprocess"
    else "pty"

pub data Lane : Type 0 where
  inline_lane agent_lane : Lane

pub record Execution : Type 0 where
  pub lane : Lane
  pub candidates : List Text
  pub user_specified : Bool

-- `if model_override`: an empty text counts as none, as with `if user_model`.
abbrev pub truthy : Option Text → Option Text
truthy none = none
truthy (some []) = none
truthy (some (c ∷ cs)) = some (c ∷ cs)

-- `user_model` once a list of one element is that element
abbrev pub one_model : Option UserModel → Option Text
one_model none = none
one_model (some (single m)) = truthy (some m)
one_model (some (several [])) = none
one_model (some (several (m ∷ ms))) = truthy (some m)

pub no_conf : ModelConf
no_conf = record { methods = none; method = none }

abbrev pub conf_or_empty : Option ModelConf → ModelConf
conf_or_empty none = no_conf
conf_or_empty (some c) = c

-- The lane goes by the method of the first candidate.
pub lane_of : Config → List Text → Lane
unfolding select_method no_conf
lane_of config [] = agent_lane
lane_of config ([] ∷ ms) = agent_lane
lane_of config ((c ∷ cs) ∷ ms) =
    if select_method (conf_or_empty (dict_get config.models (c ∷ cs))) "default" == "subprocess"
    then inline_lane
    else agent_lane

pub executed : Config → List Text → Bool → Execution
unfolding lane_of
executed config candidates user = record {
  lane = lane_of config candidates;
  candidates = candidates;
  user_specified = user;
}

-- The choice by the ladder, from the override or the table.
pub by_ladder : Config → String → Option String → Option ℕ → Option Text → Execution
unfolding resolve_model escalation_chain executed
by_ladder config execution depth confidence (some m) =
    executed config (escalation_chain config.routing (some m) config.max_fallback_attempts) false
by_ladder config execution depth confidence none =
    let primary = resolve_model config.routing execution depth confidence in
    executed config (escalation_chain config.routing primary config.max_fallback_attempts) false

abbrev pub review_of : Option UserModel → Option (List Text)
review_of (some (several (m ∷ n ∷ ms))) = some (m ∷ n ∷ ms)
review_of _ = none

abbrev pub by_user :
    Config → String → Option String → Option ℕ → Option (List Text) → Option Text → Execution
by_user config execution depth confidence (some ms) one = record {
  lane = agent_lane;
  candidates = ms;
  user_specified = true;
}
by_user config execution depth confidence none (some m) = executed config (m ∷ []) true
by_user config execution depth confidence none none =
    by_ladder config execution depth confidence none

abbrev pub unless_overridden :
    Config → String → Option String → Option ℕ → Option UserModel → Option Text → Execution
unless_overridden config execution depth confidence user none =
    by_user config execution depth confidence (review_of user) (one_model user)
unless_overridden config execution depth confidence user (some m) =
    by_ladder config execution depth confidence (some m)

pub plan_execution :
    Config → String → Option String → Option ℕ → Option UserModel → Option Text → Execution
unfolding by_ladder
plan_execution config execution depth confidence user override =
    unless_overridden config execution depth confidence user (truthy override)
