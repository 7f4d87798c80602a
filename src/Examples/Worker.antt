-- ===== src/Examples/Worker.antt =====
-- An item with two candidates, of which the first asks to escalate, at a concrete world.
use taka_ma.Common.{
  ◌≡◌, refl, false, none, some, [], ◌∷◌, ◌++◌, Text, codes, ascii, if◌then◌else◌, ◌==◌, list_eq,
  nat_eq,
}
use taka_ma.Routing.{inline_lane, agent_lane}
use taka_ma.Worker.{
  World, Ran, printed, Item, climb, execute_worker_task, run_candidate, escalate_reason,
  escalate_to_agent_lane,
}
use taka_ma.Worker.Ladder.{IsClimb, climb-IsClimb, names, trace_of, end_of}
use taka_ma.Worker.Ends.{again, execute_worker_task-again}

abbrev answer_of : Text → Ran
answer_of model =
    if model == codes "haiku" then printed (codes "ESCALATE: hard") else printed (codes "done")

abbrev world : World
world = record {
  State = Unit;
  run_model = λ w model command. (w, answer_of model);
  held_approval = λ w. none;
  integrate = λ w command outputs. (w, printed []);
}

abbrev item : Item
item = record {
  command = codes "write";
  execution = "inline";
  lane = inline_lane;
  candidates = codes "haiku" ∷ codes "opus" ∷ [];
  user_specified = false;
  model = none;
  cancelled = false;
}

abbrev next : Item
next = record {
  command = codes "write";
  execution = "agent";
  lane = agent_lane;
  candidates = codes "opus" ∷ [];
  user_specified = false;
  model = none;
  cancelled = false;
}

climb-IsClimb_example :
    IsClimb ascii world false item.candidates
      (climb ascii world item.command false item.candidates tt none)
climb-IsClimb_example = climb-IsClimb ascii world item.command false item.candidates tt none

comes_back : again (end_of (execute_worker_task ascii world item tt)) ≡ some next
unfolding execute_worker_task run_candidate escalate_to_agent_lane escalate_reason
comes_back = refl

execute_worker_task-again_example :
    (item.user_specified ≡ false)
    × (names (trace_of (execute_worker_task ascii world item tt)) ++ next.candidates
        ≡ item.candidates)
    × (next.lane ≡ agent_lane)
    × (again (end_of (execute_worker_task ascii world next tt)) ≡ none)
execute_worker_task-again_example = execute_worker_task-again ascii world item next tt tt comes_back
