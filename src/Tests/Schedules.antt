-- ===== src/Tests/Schedules.antt =====
-- internal/agent: two tasks, of which one fails.
use safe_road.Base.{
  ◌+◌, Bool, true, false, some, none, [], ◌∷◌, ◌≡◌, refl, arith, Text, codes, text_eq,
  if◌then◌else◌,
}
use safe_road.Engine.{RegisteredTask, Engine, Tasks, idle, new_engine, register, tick, turn}
use safe_road.Engine.Rounds.{ServesAll, turn-ServesAll}

abbrev fresh_task : Text → Bool → RegisteredTask
fresh_task name enabled = record {
  name = name;
  interval = 60;
  enabled = enabled;
  last_run = none;
  last_err = [];
  run_count = 0;
  err_count = 0;
  state = idle;
}

abbrev two_tasks : Engine
two_tasks = record {
  tasks = fresh_task (codes "feed") true ∷ fresh_task (codes "alert") false ∷ [];
  triggers = [];
  started = true;
  stopped = false;
}

registered :
    (register (register new_engine (codes "feed") 60 true) (codes "alert") 60 false).tasks
    ≡ two_tasks.tasks
unfolding register new_engine
registered = refl

-- Each run takes three; those of the feed fail.
abbrev runs : Tasks
runs t now = record {
  ended = now + 3;
  error = if text_eq t.name (codes "feed") then some (codes "down") else none;
}

turn-ServesAll_example : ServesAll 100 two_tasks.tasks (turn runs 2 two_tasks 100 tick).0.tasks
turn-ServesAll_example = turn-ServesAll runs 2 two_tasks 100 (λ t now. omega arith) (omega arith)

abbrev full_engine : Engine
full_engine = record two_tasks {
  triggers =
      codes "feed"
      ∷ codes "feed"
      ∷ codes "feed"
      ∷ codes "feed"
      ∷ codes "feed"
      ∷ codes "feed"
      ∷ codes "feed"
      ∷ codes "feed"
      ∷ [];
}
