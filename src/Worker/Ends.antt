-- ===== src/Worker/Ends.antt =====
-- What `_execute_worker_task` does with an item: it settles the future, or puts the item on the
-- queue for the agent lane, which settles it.
use taka_ma.Common.{
  ◌≡◌, ◌≢◌, refl, sym, ap, ◌∙◌, Bool, true, false, Option, none, some, List, [], ◌∷◌, ◌++◌,
  if◌then◌else◌, Text, CharTable, Bool-cases, inl, inr, arith,
}
use taka_ma.Routing.{Lane, inline_lane, agent_lane, review_of}
use taka_ma.Worker.{
  Ran, printed, stream_read_error, crashed, Candidate, hold, ran, End, result, raised, run_failed,
  enqueued, cancelled_future, World, Item, escalate_reason, escalate_to_agent_lane, Traced,
  run_candidate, in_lane, inline_end, inline_output, inline_failure, by_models,
  execute_cross_review, integrated, of_successes, unless_held_reviews, successes, run_reviews,
  execute_worker_task,
}
use taka_ma.Worker.Ladder.{names, trace_of, end_of, climb-IsClimb}

-- The item that an end puts on the queue, if any.
abbrev pub again : End → Option Item
again (enqueued item) = some item
again _ = none

abbrev item_in : Item → Option Item → Item
item_in other none = other
item_in other (some item) = item

again_of_settled : (end : End) → ((item : Item) → end ≢ enqueued item) → again end ≡ none
again_of_settled (result out) h = refl
again_of_settled (raised e) h = refl
again_of_settled cancelled_future h = refl
again_of_settled (enqueued item) h = absurd (h item refl)

module _ (t : CharTable) (world : World) where
  integrated-settles : (r : Ran) → again (integrated t world r) ≡ none
  integrated-settles (printed out) = refl
  integrated-settles (stream_read_error e) = refl
  integrated-settles (crashed e) = refl

  unless_held-settles :
      (held : Option Text) (command : Text) (rs : List (Text × Ran)) (ss : List (Text × Text))
      (w : world.State)
      → successes t world rs ≡ ss
      → again (unless_held_reviews t world held command rs w).1 ≡ none
  unless_held-settles (some id) command rs ss w e = refl
  unless_held-settles none command rs [] w e =
      ap (λ l. again (of_successes t world command rs l w).1) e
  unless_held-settles none command rs (s ∷ ss) w e =
      ap (λ l. again (of_successes t world command rs l w).1) e
      ∙ integrated-settles (world.integrate w command (s ∷ ss)).1

  execute_cross_review-settles :
      (command : Text) (models : List Text) (w : world.State)
      → again (execute_cross_review t world command models w).1 ≡ none
  unfolding execute_cross_review
  execute_cross_review-settles command models w =
      let (after, rs) = run_reviews t world command models w in
      unless_held-settles (world.held_approval after) command rs (successes t world rs) after refl

  -- The item that the inline lane puts on the queue.
  inline_output-again :
      (item : Item) (rest : List Text) (out : Text) (reason : Option Text) (next : Item)
      → again (inline_output t world item rest out reason) ≡ some next
      → (item.user_specified ≡ false) × (next ≡ escalate_to_agent_lane item rest)
  inline_output-again item rest out none next h = absurd (ground arith)
  inline_output-again item [] out (some r) next h = absurd (ground arith)
  inline_output-again item (m ∷ ms) out (some r) next h = elim (Bool-cases item.user_specified) [
    | inl user ↦ absurd (ground arith)
    | inr free ↦ (
      free,
      sym (
          ap (item_in item) (
            sym (
              ap
                (λ u.
                  again (if u then result out else enqueued (escalate_to_agent_lane item (m ∷ ms))))
                free)
            ∙ h)),
    )
  ]

  inline_failure-again :
      (item : Item) (rest : List Text) (r : Ran) (next : Item)
      → again (inline_failure t world item rest r) ≡ some next
      → (item.user_specified ≡ false) × (next ≡ escalate_to_agent_lane item rest)
  inline_failure-again item [] r next h = absurd (ground arith)
  inline_failure-again item (m ∷ ms) r next h = elim (Bool-cases item.user_specified) [
    | inl user ↦ absurd (ground arith)
    | inr free ↦ (
      free,
      sym (
          ap (item_in item) (
            sym (
              ap
                (λ u. again (
                  if u
                  then raised (run_failed r)
                  else enqueued (escalate_to_agent_lane item (m ∷ ms))))
                free)
            ∙ h)),
    )
  ]

  inline_end-again :
      (item : Item) (rest : List Text) (c : Candidate) (next : Item)
      → again (inline_end t world item rest c) ≡ some next
      → (item.user_specified ≡ false) × (next ≡ escalate_to_agent_lane item rest)
  inline_end-again item rest (hold id) next h = absurd (ground arith)
  inline_end-again item rest (ran (printed out)) next h =
      inline_output-again item rest out (escalate_reason t out) next h
  inline_end-again item rest (ran (stream_read_error e)) next h =
      inline_failure-again item rest (stream_read_error e) next h
  inline_end-again item rest (ran (crashed e)) next h =
      inline_failure-again item rest (crashed e) next h

  agent_lane-settles :
      (lane : Lane) (item : Item) (cs : List Text) (w : world.State)
      → lane ≡ agent_lane
      → again (end_of (in_lane t world lane item cs w)) ≡ none
  agent_lane-settles lane item [] w h = refl
  agent_lane-settles inline_lane item (m ∷ ms) w h = absurd (ground arith)
  agent_lane-settles agent_lane item (m ∷ ms) w h =
      let k = climb-IsClimb t world item.command item.user_specified (m ∷ ms) w none in
      again_of_settled _ k.settles

  by_models-settles :
      (cancelled : Bool) (models : Option (List Text)) (item : Item) (w : world.State)
      → item.lane ≡ agent_lane
      → again (
          end_of (if cancelled then (w, [], cancelled_future) else by_models t world models item w))
        ≡ none
  by_models-settles true models item w h = refl
  by_models-settles false (some models) item w h =
      execute_cross_review-settles item.command models w
  by_models-settles false none item w h = agent_lane-settles item.lane item item.candidates w h

  -- What is put on the queue again.
  abbrev IsRest : Item → Traced t world End → Item → List Text → Type 0
  IsRest item r next cs =
      (item.user_specified ≡ false)
      × (names (trace_of r) ++ next.candidates ≡ cs)
      × (next.lane ≡ agent_lane)

  in_lane-IsRest :
      (lane : Lane) (item next : Item) (cs : List Text) (w : world.State)
      → again (end_of (in_lane t world lane item cs w)) ≡ some next
      → IsRest item (in_lane t world lane item cs w) next cs
  unfolding escalate_to_agent_lane
  in_lane-IsRest lane item next [] w h = absurd (ground arith)
  in_lane-IsRest agent_lane item next (m ∷ ms) w h =
      absurd (ground (arith, sym (agent_lane-settles agent_lane item (m ∷ ms) w refl) ∙ h))
  in_lane-IsRest inline_lane item next (m ∷ ms) w h =
      let (free, e) = inline_end-again item ms (run_candidate t world w m item.command).1 next h in
      (free, ap (λ x. m ∷ x.candidates) e, ap (λ x. x.lane) e)

  by_models-IsRest :
      (cancelled : Bool) (models : Option (List Text)) (item next : Item) (w : world.State)
      → again (
          end_of (if cancelled then (w, [], cancelled_future) else by_models t world models item w))
        ≡ some next
      → IsRest item
          (if cancelled then (w, [], cancelled_future) else by_models t world models item w)
          next
          item.candidates
  by_models-IsRest true models item next w h = absurd (ground arith)
  by_models-IsRest false (some models) item next w h =
      absurd (ground (arith, sym (execute_cross_review-settles item.command models w) ∙ h))
  by_models-IsRest false none item next w h = in_lane-IsRest item.lane item next item.candidates w h

  -- An item that is not settled comes back once: where the user named no model, with the candidates
  -- that have not been run, on the agent lane; and there it is settled.
  pub execute_worker_task-again :
      (item next : Item) (w after : world.State)
      → again (end_of (execute_worker_task t world item w)) ≡ some next
      → (item.user_specified ≡ false)
        × (names (trace_of (execute_worker_task t world item w)) ++ next.candidates
            ≡ item.candidates)
        × (next.lane ≡ agent_lane)
        × (again (end_of (execute_worker_task t world next after)) ≡ none)
  unfolding execute_worker_task
  execute_worker_task-again item next w after h =
      let (free, rest, lane) =
        by_models-IsRest item.cancelled (review_of item.model) item next w h in
      (free, rest, lane, by_models-settles next.cancelled (review_of next.model) next after lane)
