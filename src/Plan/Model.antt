-- ===== src/Plan/Model.antt =====
-- The data of orchestrator/plan.py: a subtask (a `dict` there, a field per key), a patch, an item
-- of the view. A key that the code reads by `.get` is an `Option`.
use taka_ma.Common.{
  Eq, ◌≡◌, ◌↔◌, arith, true, nat_eq, ℕ, String, Bool, Option, none, some, List, Text, ◌==◌,
  if◌then◌else◌, or_nil, string_eq,
}

-- A `:model` mention in the request: one name, or a list for a cross review.
pub data UserModel : Type 0 where
  single : Text → UserModel
  several : List Text → UserModel

pub record Subtask : Type 0 where
  pub step : ℕ
  pub command : Option Text
  pub execution : Option String
  pub depth : Option String
  -- in thousandths
  pub confidence : Option ℕ
  pub model : Option UserModel
  pub model_override : Option Text
  pub depends_on : Option (List ℕ)

-- `patch["steps"]`
pub data Targets : Type 0 where
  all_steps : Targets
  listed : List ℕ → Targets

-- The outer `Option` of a field says whether the key is there, the inner whether it is `None`.
pub record Patch : Type 0 where
  pub steps : Option Targets
  pub model : Option (Option Text)
  pub depth : Option (Option String)

-- The labels 機械的, 軽, 中, 重 and 決定的.
pub data Weight : Type 0 where
  inline_weight shallow_weight unspecified_weight deep_weight runbook_weight : Weight

abbrev weight_rank : Weight → ℕ
weight_rank inline_weight = 0
weight_rank shallow_weight = 1
weight_rank unspecified_weight = 2
weight_rank deep_weight = 3
weight_rank runbook_weight = 4

abbrev pub weight_beq : Weight → Weight → Bool
weight_beq a b = weight_rank a == weight_rank b

pub weight_beq_iff : (a b : Weight) → (weight_beq a b ≡ true) ↔ (a ≡ b)
weight_beq_iff a b = ground arith

instance abbrev pub weight_eq : Eq Weight
weight_eq = record { beq = weight_beq; beq_iff = weight_beq_iff }

-- The tests of `derive_weight` on the depth, in their order.
abbrev pub depth_weight : Option String → Weight
depth_weight none = unspecified_weight
depth_weight (some d) =
    if d == "shallow"
    then shallow_weight
    else if d == "deep"
    then deep_weight
    else unspecified_weight

pub derive_weight : String → Option String → Weight
derive_weight execution depth = if execution == "inline" then inline_weight else depth_weight depth

pub record ViewItem : Type 0 where
  pub step : ℕ
  pub overview : Text
  pub execution : String
  pub depth : Option String
  pub weight : Weight
  pub model : Option Text
  pub escalation : List Text
  pub user_specified : Bool
  pub overridden : Bool
  pub wave : ℕ
  pub parallel : ℕ

-- `s.get("depends_on") or []`
abbrev pub deps_of : Subtask → List ℕ
deps_of s = or_nil s.depends_on

-- `s.get("command") or ""`
abbrev pub command_of : Subtask → Text
command_of s = or_nil s.command

-- All of a subtask but its depth and its model override.
pub record Core : Type 0 where
  pub step : ℕ
  pub command : Option Text
  pub execution : Option String
  pub confidence : Option ℕ
  pub model : Option UserModel
  pub depends_on : Option (List ℕ)

abbrev pub core : Subtask → Core
core s = record {
  step = s.step;
  command = s.command;
  execution = s.execution;
  confidence = s.confidence;
  model = s.model;
  depends_on = s.depends_on;
}
