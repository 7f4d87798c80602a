-- ===== src/Chain/Prompt.antt =====
-- What a worker is asked: `_discretion_note`, `tree_closure_applies` and the texts of
-- orchestrator/__init__.py, `directive_command` and `build_constraints_block` of
-- orchestrator/contract.py, and the composition in `_execute_subtask_in_chain`.
use taka_ma.Common.{
  ℕ, Bool, not, ◌&&◌, ◌||◌, Option, none, some, List, [], ◌∷◌, ◌++◌, map, any, contains,
  if◌then◌else◌, String, string_eq, Text, codes, joined, Dict,
}
use taka_ma.Plan.Model.{UserModel}
use taka_ma.Routing.{truthy}

-- An entry of `task["constraints"]`
pub record Constraint : Type 0 where
  pub forbid : Bool
  pub text : Text

-- What the execution reads of a task. `acceptance` has the kind of each entry; `runbook_steps` are
-- the steps whose subtask has a `_runbook`.
pub record Task : Type 0 where
  pub completed_steps : Dict ℕ Text
  pub directive : Option Text
  pub exit_gate_findings : Option Text
  pub constraints : List Constraint
  pub acceptance : List String
  pub runbook : Bool
  pub runbook_steps : List ℕ
  pub model : Option UserModel

abbrev pub creation_kinds : List String
creation_kinds = "file" ∷ "file_min_bytes" ∷ "remote_file" ∷ []

abbrev pub modification_kinds : List String
modification_kinds =
    "file_changed" ∷ "head_touches" ∷ "diff_limit" ∷ "pushed" ∷ "branch_merged" ∷ []

-- `kinds & of`, as a test
abbrev pub has_kind : List String → List String → Bool
has_kind kinds of = any (contains of) kinds

pub tree_closure_applies : List String → Bool → Bool
tree_closure_applies kinds runbook =
    contains kinds "answered" && (not (has_kind kinds modification_kinds) && not runbook)

pub data Note : Type 0 where
  default_discretion answer_discretion mixed_discretion modify_answer_discretion : Note

unfoldable pub discretion_note : Task → Note
unfolding tree_closure_applies
discretion_note task =
    let artifact =
      (has_kind task.acceptance creation_kinds || has_kind task.acceptance modification_kinds)
      || task.runbook in
    if not (contains task.acceptance "answered")
    then default_discretion
    else if not artifact
    then answer_discretion
    else if tree_closure_applies task.acceptance task.runbook
    then mixed_discretion
    else modify_answer_discretion

abbrev pub note_text : Note → Text
note_text default_discretion =
    codes
      "\n\n（この実行は非対話です。確認の質問への回答は届きません。実装の細部（内容・文言・書式・命名等）は妥当な既定で自ら決めて成果物を作成してください。作業を妨げる前提の欠落（対象の不在等）がある場合のみ、作業せず理由を報告してください）"
note_text answer_discretion =
    codes
      "\n\n（この実行は非対話です。確認の質問への回答は届きません。成果物は回答の本文です。workspace のファイル作成・変更・コミットを行わないでください。回答のみを報告してください。作業を妨げる前提の欠落（対象の不在等）がある場合のみ、作業せず理由を報告してください）"
note_text mixed_discretion =
    codes
      "\n\n（この実行は非対話です。確認の質問への回答は届きません。約束された成果物を作り、あわせて回答を報告してください。**約束にないファイルは作らないでください。**実装の細部（内容・文言・書式・命名等）は妥当な既定で自ら決めてください。作業を妨げる前提の欠落（対象の不在等）がある場合のみ、作業せず理由を報告してください）"
note_text modify_answer_discretion =
    codes
      "\n\n（この実行は非対話です。確認の質問への回答は届きません。実装の細部（内容・文言・書式・命名等）は妥当な既定で自ら決めて成果物を作り、**あわせて回答を報告してください。**作業を妨げる前提の欠落（対象の不在等）がある場合のみ、作業せず理由を報告してください）"

pub directive_command : Text → Text
directive_command directive =
    codes "以下のコマンドを記載どおり逐語実行し、実行したコマンドと実出力のみを報告せよ。別の手順への置き換え・追加の作業を禁ずる。\n\n" ++ directive

abbrev pub constraint_line : Constraint → Text
constraint_line c = codes "- " ++ ((if c.forbid then codes "禁止: " else []) ++ c.text)

pub build_constraints_block : List Constraint → Text
build_constraints_block [] = []
build_constraints_block (c ∷ cs) =
    joined (codes "\n") (codes "【拘束条件（厳守）】" ∷ map constraint_line (c ∷ cs)) ++ codes "\n\n"

-- The results of the steps before, each with its number, which `shown` prints.
abbrev pub with_results : (ℕ → Text) → List (ℕ × Text) → Text → Text
with_results shown [] command = command
with_results shown (r ∷ rs) command =
    codes "前のステップの結果:\n"
    ++ (joined (codes "\n")
          (map (λ p. codes "Step " ++ (shown p.0 ++ (codes ": " ++ p.1))) (r ∷ rs))
        ++ (codes "\n\n上記を踏まえて: " ++ command))

abbrev pub or_directive : Option Text → Text → Text
or_directive none command = command
or_directive (some d) command = directive_command d

-- The findings of the exit gate, but not before a directive.
abbrev pub with_findings : Option Text → Option Text → Text → Text
with_findings none directive command = command
with_findings (some f) (some d) command = command
with_findings (some f) none command =
    codes "前回実行は独立検証で未達と判定された。以下の指摘を解消せよ:\n" ++ (f ++ (codes "\n\n" ++ command))

pub worker_command : (ℕ → Text) → Task → List (ℕ × Text) → Text → Text
worker_command shown task dep_results command =
    let directive = truthy task.directive in
    build_constraints_block task.constraints
    ++ (with_findings (truthy task.exit_gate_findings) directive
          (or_directive directive (with_results shown dep_results command))
        ++ note_text (discretion_note task))
