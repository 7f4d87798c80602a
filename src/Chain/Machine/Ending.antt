-- ===== src/Chain/Machine/Ending.antt =====
-- Each move and each answer brings the end of the execution of a plan nearer.
use mathlib.Core.Path.{subst}
use mathlib.Core.List.{Memᴰ}
use taka_ma.Common.{
  ◌≡◌, length, refl, sym, ap, ◌∙◌, ℕ, suc, ◌+◌, ◌≤◌, ◌<◌, false, Option, none, some, List, [], ◌∷◌,
  ◌++◌, contains, if◌then◌else◌, ◌==◌, Text, dict_get, dict_get-dict_set, dict_set, beq_of_absent,
  nat_eq, nat_beq_iff, beq_refl, arith, IsDistinct,
}
use taka_ma.Plan.Model.{Subtask, deps_of}
use taka_ma.Plan.Waves.{steps_of}
use taka_ma.Plan.Waves.Sources.{contains-steps_of}
use taka_ma.Routing.{Config}
use taka_ma.Chain.Prompt.{Task}
use taka_ma.Chain.Machine.{
  Future, pending, value, failed, Place, or_unstarted, unstarted, awaiting, at_worker, over, Chain,
  place_of, new_chain, advance, move_from, at_start, at_dependency, with_dependency, Answer, gave,
  broke, answered, Reaches, begins, moves, answers,
}
use taka_ma.Chain.Machine.Invariant.{chain_in}

-- How many moves and answers a coroutine has still before it.
abbrev pub moves_left : Subtask → Place → ℕ
moves_left s unstarted = length (deps_of s) + 3
moves_left s (awaiting deps got) = length deps + 2
moves_left s at_worker = 1
moves_left s over = 0

abbrev pub total_left : List Subtask → Chain → ℕ
total_left [] chain = 0
total_left (s ∷ ss) chain = moves_left s (place_of chain s.step) + total_left ss chain

-- A change of the place of one subtask.
abbrev IsMove : Chain → Chain → Subtask → Place → Type 0
IsMove a b s p = (v : ℕ) → place_of b v ≡ (if s.step == v then p else place_of a v)

beq_comm : (a b : ℕ) → (a == b) ≡ (b == a)
beq_comm a b = ground arith

IsMove-set :
    (a : Chain) (s : Subtask) (p : Place) (v : ℕ)
    → or_unstarted (dict_get (dict_set a.places s.step p) v)
      ≡ (if s.step == v then p else place_of a v)
IsMove-set a s p v = ground (arith, dict_get-dict_set a.places s.step v p)

total_left_same :
    (ss : List Subtask) (a b : Chain) (s : Subtask) (p : Place)
    → contains (steps_of ss) s.step ≡ false
    → IsMove a b s p
    → total_left ss b ≡ total_left ss a
total_left_same [] a b s p absent m = refl
total_left_same (t ∷ ss) a b s p absent m = ground (
  arith,
  total_left_same ss a b s p (ground arith) m,
  m t.step,
  nat_beq_iff s.step t.step,
  beq_comm s.step t.step,
)

total_left_less :
    (ss : List Subtask) (a b : Chain) (s : Subtask) (p : Place)
    → IsDistinct (steps_of ss)
    → Memᴰ s ss
    → IsMove a b s p
    → moves_left s p < moves_left s (place_of a s.step)
    → total_left ss b < total_left ss a
total_left_less [] a b s p distinct at m less = elim at [ ]
total_left_less (t ∷ ss) a b s p distinct (Memᴰ.head e) m less = ground (
  arith,
  total_left_same ss a b s p (subst (λ x. contains (steps_of ss) x.step ≡ false) (sym e) distinct.0)
      m,
  m t.step,
  ap (λ x. moves_left x p) e,
  ap (λ x. moves_left x (place_of a x.step)) e,
  beq_refl t.step,
  ap (λ x. x.step == t.step) e,
)
total_left_less (t ∷ ss) a b s p distinct (Memᴰ.tail at) m less = ground (
  arith,
  total_left_less ss a b s p distinct.1 at m less,
  m t.step,
  beq_of_absent (steps_of ss) t.step s.step distinct.0 (contains-steps_of ss s at),
  nat_beq_iff s.step t.step,
  nat_beq_iff t.step s.step,
  beq_comm s.step t.step,
)

module _ (config : Config) (shown : ℕ → Text) (task : Task) where
  abbrev IsShorter : Chain → Chain → Subtask → Place → Type 0
  IsShorter a b s p = (after : Place) × IsMove a b s after × (moves_left s after < moves_left s p)

  at_dependency-IsShorter :
      (a b : Chain) (s : Subtask) (dep : ℕ) (deps : List ℕ) (got : List (ℕ × Text))
      (f : Option Future) (o : Option Text)
      → dict_get a.results dep ≡ o
      → at_dependency config shown task s dep deps got f a ≡ some b
      → IsShorter a b s (awaiting (dep ∷ deps) got)
  at_dependency-IsShorter a b s dep deps got none o q h =
      subst (λ b. IsShorter a b s (awaiting (dep ∷ deps) got)) (ap (chain_in a) h)
        (awaiting deps got, IsMove-set a s (awaiting deps got), omega arith)
  at_dependency-IsShorter a b s dep deps got (some pending) o q h = absurd (ground arith)
  at_dependency-IsShorter a b s dep deps got (some (failed x)) o q h =
      subst (λ b. IsShorter a b s (awaiting (dep ∷ deps) got)) (ap (chain_in a) h)
        (over, IsMove-set a s (over), omega arith)
  at_dependency-IsShorter a b s dep deps got (some (value x)) none q h =
      subst (λ b. IsShorter a b s (awaiting (dep ∷ deps) got))
        (sym (ap (λ r. with_dependency config shown task s dep deps got r a) q) ∙ ap (chain_in a) h)
        (over, IsMove-set a s (over), omega arith)
  at_dependency-IsShorter a b s dep deps got (some (value x)) (some o) q h =
      subst (λ b. IsShorter a b s (awaiting (dep ∷ deps) got))
        (sym (ap (λ r. with_dependency config shown task s dep deps got r a) q) ∙ ap (chain_in a) h)
        (
          awaiting deps (got ++ ((dep, o) ∷ [])),
          IsMove-set a s (awaiting deps (got ++ ((dep, o) ∷ []))),
          omega arith,
        )

  start-IsShorter :
      (a b : Chain) (s : Subtask) (done : Option Text)
      → some (at_start config shown task s done a) ≡ some b
      → IsShorter a b s unstarted
  start-IsShorter a b s (some o) h =
      subst (λ b. IsShorter a b s (unstarted)) (ap (chain_in a) h)
        (over, IsMove-set a s (over), omega arith)
  start-IsShorter a b s none h =
      subst (λ b. IsShorter a b s (unstarted)) (ap (chain_in a) h)
        (awaiting (deps_of s) [], IsMove-set a s (awaiting (deps_of s) []), omega arith)

  move_from-IsShorter :
      (a b : Chain) (s : Subtask) (p : Place)
      → move_from config shown task s p a ≡ some b
      → IsShorter a b s p
  move_from-IsShorter a b s unstarted h =
      start-IsShorter a b s (dict_get task.completed_steps s.step) h
  move_from-IsShorter a b s (awaiting [] got) h =
      subst (λ b. IsShorter a b s (awaiting [] got)) (ap (chain_in a) h)
        (at_worker, IsMove-set a s (at_worker), omega arith)
  move_from-IsShorter a b s (awaiting (dep ∷ deps) got) h =
      at_dependency-IsShorter a b s dep deps got (dict_get a.futures dep) (dict_get a.results dep)
        refl h
  move_from-IsShorter a b s at_worker h = absurd (ground arith)
  move_from-IsShorter a b s over h = absurd (ground arith)

  answered-IsMove : (a : Chain) (s : Subtask) (x : Answer) → IsMove a (answered s.step x a) s over
  answered-IsMove a s (gave o) = IsMove-set a s over
  answered-IsMove a s (broke e) = IsMove-set a s over

  module _ (subtasks : List Subtask) where
    -- How many moves and answers a run has.
    abbrev pub moves_made : {chain : Chain} → Reaches config shown task subtasks chain → ℕ
    moves_made begins = 0
    moves_made (moves s r m e) = suc (moves_made r)
    moves_made (answers s a r m e) = suc (moves_made r)

    -- A run of a plan with distinct step numbers has no more moves and answers than three for each
    -- subtask and one for each of its dependencies: whatever the order, it ends.
    pub moves_made-bounded :
        {chain : Chain} (r : Reaches config shown task subtasks chain)
        → IsDistinct (steps_of subtasks)
        → moves_made r + total_left subtasks chain ≤ total_left subtasks (new_chain subtasks)
    unfolding advance
    moves_made-bounded begins distinct = omega arith
    moves_made-bounded (moves {chain} {after} s r m e) distinct =
        let (p, moved, less) = move_from-IsShorter chain after s (place_of chain s.step) e in
        omega (
          arith,
          moves_made-bounded r distinct,
          total_left_less subtasks chain after s p distinct m moved less,
        )
    moves_made-bounded (answers {chain} s a r m e) distinct = omega (
      arith,
      moves_made-bounded r distinct,
      total_left_less subtasks chain (answered s.step a chain) s over distinct m
          (answered-IsMove chain s a) (ground (arith, e)),
    )
