-- ===== src/Worker/Ladder.antt =====
-- The models that the loop of the agent lane in `_execute_worker_task` runs.
use mathlib.Core.Path.{subst}
use taka_ma.Common.{
  ◌≡◌, ◌≢◌, refl, ap, Bool, true, false, not, ◌&&◌, Option, none, some, List, [], ◌∷◌, ◌++◌, map,
  Text, CharTable, arith,
}
use taka_ma.Worker.{
  printed, stream_read_error, crashed, Candidate, hold, ran, WorkError, escalated, unsolved_at_top,
  run_failed, approval_hold, End, result, raised, enqueued, World, Item, escalate_reason, Traced,
  run_candidate, with_run, at_candidate, at_output, climb,
}

abbrev pub trace_of {ℓ κ} :
    {S : Type ℓ} {R : Type κ} → S × List (Text × Candidate) × R → List (Text × Candidate)
trace_of p = p.1

abbrev pub end_of {ℓ κ} : {S : Type ℓ} {R : Type κ} → S × List (Text × Candidate) × R → R
end_of p = p.2

abbrev output_in : Text → End → Text
output_in other (result out) = out
output_in other _ = other

abbrev pub names : List (Text × Candidate) → List Text
names trace = map (λ p. p.0) trace

module _ (t : CharTable) (world : World) where
  abbrev is_some : Option Text → Bool
  is_some none = false
  is_some (some x) = true

  -- What makes the loop go on: a crash or a request to escalate, where the user named no model.
  abbrev pub goes_on : Bool → Candidate → Bool
  goes_on user (ran (printed out)) = not user && is_some (escalate_reason t out)
  goes_on user (ran (crashed e)) = not user
  goes_on user _ = false

  -- All but the last go on.
  abbrev pub all_go_on : Bool → List (Text × Candidate) → Bool
  all_go_on user [] = true
  all_go_on user (p ∷ []) = true
  all_go_on user (p ∷ q ∷ trace) = goes_on user p.1 && all_go_on user (q ∷ trace)

  abbrev pub last_run : List (Text × Candidate) → Option Candidate
  last_run [] = none
  last_run (p ∷ []) = some p.1
  last_run (p ∷ q ∷ trace) = last_run (q ∷ trace)

  -- What a run of the loop is, from the candidates.
  pub record IsClimb (user : Bool) (candidates : List Text) (r : Traced t world End) : Type 0 where
    pub untried : List Text
    pub in_order : names (trace_of r) ++ untried ≡ candidates
    pub going_on : all_go_on user (trace_of r) ≡ true
    pub settles : (item : Item) → end_of r ≢ enqueued item
    pub ends_with :
        (out : Text)
        → end_of r ≡ result out
        → (last_run (trace_of r) ≡ some (ran (printed out))) × (escalate_reason t out ≡ none)

  stop-IsClimb :
      (user : Bool) (m : Text) (ms : List Text) (c : Candidate) (w : world.State) (end : End)
      → ((item : Item) → end ≢ enqueued item)
      → ((out : Text) → end ≡ result out → (c ≡ ran (printed out)) × (escalate_reason t out ≡ none))
      → IsClimb user (m ∷ ms) (with_run t world m c (w, [], end))
  stop-IsClimb user m ms c w end settled whole = record {
    untried = ms;
    in_order = refl;
    going_on = refl;
    settles = settled;
    ends_with = λ out e. (ap some (whole out e).0, (whole out e).1);
  }

  next-IsClimb :
      (user : Bool) (m : Text) (ms : List Text) (c : Candidate) (r : Traced t world End)
      → goes_on user c ≡ true
      → IsClimb user ms r
      → IsClimb user (m ∷ ms) (with_run t world m c r)
  next-IsClimb user m ms c (w, [], end) go k = record {
    untried = k.untried;
    in_order = ap (λ l. m ∷ l) k.in_order;
    going_on = refl;
    settles = k.settles;
    ends_with = λ out e. absurd (ground (arith, (k.ends_with out e).0));
  }
  next-IsClimb user m ms c (w, p ∷ trace, end) go k = record {
    untried = k.untried;
    in_order = ap (λ l. m ∷ l) k.in_order;
    going_on = ground (arith, go, k.going_on);
    settles = k.settles;
    ends_with = k.ends_with;
  }

  raised-IsClimb :
      (user : Bool) (m : Text) (ms : List Text) (c : Candidate) (w : world.State) (e : WorkError)
      → IsClimb user (m ∷ ms) (with_run t world m c (w, [], raised e))
  raised-IsClimb user m ms c w e =
      stop-IsClimb user m ms c w (raised e) (λ item h. ground arith)
        (λ out h. absurd (ground arith))

  -- The outputs of which the loop reads a reason.
  at_output-IsClimb :
      (user : Bool) (m out : Text) (ms : List Text) (w : world.State) (reason : Option Text)
      (next : Option WorkError → Traced t world End)
      → escalate_reason t out ≡ reason
      → ((last : Option WorkError) → IsClimb user ms (next last))
      → IsClimb user
          (m ∷ ms)
          (with_run t world m (ran (printed out)) (at_output t world w m out user ms reason next))
  at_output-IsClimb user m out ms w none next e k =
      stop-IsClimb user m ms (ran (printed out)) w (result out) (λ item h. ground arith)
        (λ o h.
          (ground (arith, h), subst (λ x. escalate_reason t x ≡ none) (ap (output_in out) h) e))
  at_output-IsClimb true m out ms w (some r) next e k =
      raised-IsClimb true m ms (ran (printed out)) w (unsolved_at_top m r)
  at_output-IsClimb false m out [] w (some r) next e k =
      raised-IsClimb false m [] (ran (printed out)) w (unsolved_at_top m r)
  at_output-IsClimb false m out (n ∷ ms) w (some r) next e k =
      next-IsClimb false m (n ∷ ms) (ran (printed out)) (next (some (escalated m r))) (ap is_some e)
        (k (some (escalated m r)))

  at_candidate-IsClimb :
      (user : Bool) (m : Text) (ms : List Text) (w : world.State) (c : Candidate)
      (next : Option WorkError → Traced t world End)
      → ((last : Option WorkError) → IsClimb user ms (next last))
      → IsClimb user (m ∷ ms) (with_run t world m c (at_candidate t world w m user ms c next))
  at_candidate-IsClimb user m ms w (hold id) next k =
      raised-IsClimb user m ms (hold id) w (approval_hold id)
  at_candidate-IsClimb user m ms w (ran (printed out)) next k =
      at_output-IsClimb user m out ms w (escalate_reason t out) next refl k
  at_candidate-IsClimb user m ms w (ran (stream_read_error e)) next k =
      raised-IsClimb user m ms (ran (stream_read_error e)) w (run_failed (stream_read_error e))
  at_candidate-IsClimb true m ms w (ran (crashed e)) next k =
      raised-IsClimb true m ms (ran (crashed e)) w (run_failed (crashed e))
  at_candidate-IsClimb false m ms w (ran (crashed e)) next k =
      next-IsClimb false m ms (ran (crashed e)) (next (some (run_failed (crashed e)))) refl
        (k (some (run_failed (crashed e))))

  -- The loop of the agent lane runs the candidates in their order, each once. It goes on from a model
  -- only if that crashed or asked to escalate, and never where the user named the model; a result is
  -- the output of the last model that ran, without a request to escalate; the item is not put on the
  -- queue again.
  pub climb-IsClimb :
      (command : Text) (user : Bool) (candidates : List Text) (w : world.State)
      (last : Option WorkError)
      → IsClimb user candidates (climb t world command user candidates w last)
  unfolding climb
  climb-IsClimb command user [] w last = record {
    untried = [];
    in_order = refl;
    going_on = refl;
    settles = λ item h. ground arith;
    ends_with = λ out h. absurd (ground arith);
  }
  climb-IsClimb command user (m ∷ ms) w last =
      let (after, c) = run_candidate t world w m command in
      at_candidate-IsClimb user m ms after c (climb t world command user ms after)
        (climb-IsClimb command user ms after)
