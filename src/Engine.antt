-- ===== src/Engine.antt =====
-- The scheduler of internal/agent/engine.go. The loop goroutine is the only one that runs tasks, so
-- its turns are functions on the state; what a task does, how long it takes and when `Stop` is seen
-- are arguments. Times are nanoseconds; `last_run` is `none` for the zero time.
pub mod Rounds
pub mod Triggers
use safe_road.Base.{
  ℕ, zero, suc, ◌+◌, ◌-◌, Bool, true, false, not, ◌&&◌, ◌||◌, Option, none, some, List, [], ◌∷◌,
  ◌++◌, ltb, leb, ◌==◌, if◌then◌else◌, Text, text_eq, length, any,
}

pub data TaskState : Type 0 where
  idle running failed : TaskState

pub record RegisteredTask : Type 0 where
  pub name : Text
  pub interval : ℕ
  pub enabled : Bool
  pub last_run : Option ℕ
  pub last_err : Text
  pub run_count : ℕ
  pub err_count : ℕ
  pub state : TaskState

-- `triggers` is the buffer of the channel `triggerCh`, oldest first.
pub record Engine : Type 0 where
  pub tasks : List RegisteredTask
  pub triggers : List Text
  pub started : Bool
  pub stopped : Bool

-- A run that began at a time: when it ended, and its error.
pub record Run : Type 0 where
  pub ended : ℕ
  pub error : Option Text

abbrev pub trigger_capacity : ℕ
trigger_capacity = 8

unfoldable pub new_engine : Engine
new_engine = record { tasks = []; triggers = []; started = false; stopped = false }

unfoldable pub register : Engine → Text → ℕ → Bool → Engine
register e name interval enabled = record e {
  tasks =
      e.tasks
      ++ record {
        name = name;
        interval = interval;
        enabled = enabled;
        last_run = none;
        last_err = [];
        run_count = 0;
        err_count = 0;
        state = idle;
      }
        ∷ [];
}

-- The engine, and whether a loop was launched.
unfoldable pub start : Engine → Engine × Bool
start e = if e.started then (e, false) else (record e { started = true }, true)

-- The engine, and whether the loop was told to end.
unfoldable pub stop : Engine → Engine × Bool
stop e = if not e.started || e.stopped then (e, false) else (record e { stopped = true }, true)

abbrev pub is_named : Text → RegisteredTask → Bool
is_named name t = text_eq t.name name

-- A send on a full channel takes the `default` case.
unfoldable pub trigger : Engine → Text → Engine × Bool
trigger e name =
    if any (is_named name) e.tasks
    then if ltb (length e.triggers) trigger_capacity
      then (record e { triggers = e.triggers ++ name ∷ [] }, true)
      else (e, true)
    else (e, false)

abbrev pub finish_run : RegisteredTask → Run → RegisteredTask
finish_run t r = elim r.error [
  | none ↦ record t {
    last_run = some r.ended;
    run_count = t.run_count + 1;
    state = idle;
    last_err = [];
  }
  | some e ↦ record t {
    last_run = some r.ended;
    run_count = t.run_count + 1;
    state = failed;
    last_err = e;
    err_count = t.err_count + 1;
  }
]

-- What the tasks do: the run of a task that is started at a time.
abbrev pub Tasks : Type 0
Tasks = RegisteredTask → ℕ → Run

unfoldable pub execute_task : Tasks → RegisteredTask → ℕ → RegisteredTask × ℕ
execute_task run t now = let r = run t now in (finish_run (record t { state = running }) r, r.ended)

-- Whether a tick at a time runs the task.
unfoldable pub is_due : RegisteredTask → ℕ → Bool
is_due t now =
    t.enabled && (elim t.last_run [ none ↦ true | some last ↦ not (ltb (now - last) t.interval) ])

abbrev pub run_if_due : Tasks → RegisteredTask → ℕ → RegisteredTask × ℕ
run_if_due run t now = if is_due t now then execute_task run t now else (t, now)

-- The loop of `runDueTasks`: `seen` is how many tasks it takes up before it sees `done` closed.
unfoldable pub run_due_from : Tasks → ℕ → List RegisteredTask → ℕ → List RegisteredTask × ℕ
run_due_from run seen [] now = ([], now)
run_due_from run zero (t ∷ ts) now = (t ∷ ts, now)
run_due_from run (suc seen) (t ∷ ts) now =
    let (t', later) = run_if_due run t now in
    let (ts', last) = run_due_from run seen ts later in (t' ∷ ts', last)

unfoldable pub run_due_tasks : Tasks → ℕ → Engine → ℕ → Engine × ℕ
unfolding run_due_from
run_due_tasks run seen e now =
    let (ts, last) = run_due_from run seen e.tasks now in (record e { tasks = ts }, last)

-- The first task of that name runs, enabled or not.
unfoldable pub run_named : Tasks → Text → List RegisteredTask → ℕ → List RegisteredTask × ℕ
run_named run name [] now = ([], now)
run_named run name (t ∷ ts) now =
    let (ts', last) = run_named run name ts now in
    let (t', later) = execute_task run t now in
    if is_named name t then (t' ∷ ts, later) else (t ∷ ts', last)

unfoldable pub run_task_by_name : Tasks → Engine → Text → ℕ → Engine × ℕ
unfolding run_named
run_task_by_name run e name now =
    let (ts, last) = run_named run name e.tasks now in (record e { tasks = ts }, last)

-- One turn of the `select` in `loop`: the case for `done` ends the loop.
pub data Turn : Type 0 where
  tick : Turn
  receive : Turn

abbrev pub receive_trigger : Tasks → Engine → List Text → ℕ → Engine × ℕ
receive_trigger run e [] now = (e, now)
receive_trigger run e (name ∷ rest) now =
    run_task_by_name run (record e { triggers = rest }) name now

unfoldable pub turn : Tasks → ℕ → Engine → ℕ → Turn → Engine × ℕ
unfolding run_due_tasks run_task_by_name
turn run seen e now tick = run_due_tasks run seen e now
turn run seen e now receive = receive_trigger run e e.triggers now
