-- ===== src/Engine/Rounds.antt =====
-- The rounds of `runDueTasks` in internal/agent/engine.go.
use safe_road.Base.{
  ℕ, zero, suc, ◌+◌, ◌≤◌, ◌<◌, true, false, refl, sym, ◌∙◌, ◌-◌, not, ltb, Bool, Option-cases, none,
  some, List, [], ◌∷◌, ◌≡◌, ◌≢◌, arith, Text, length, Bool-cases, inl, inr, ◌⊎◌,
}
use safe_road.Engine.{
  running, RegisteredTask, Engine, Tasks, execute_task, is_due, run_if_due, run_due_from, turn,
  tick, receive, Turn, run_named, receive_trigger,
}

-- Between two turns no task is running, errors are among the runs, and a task without a last run
-- has no runs.
pub record IsSettled (t : RegisteredTask) : Type 0 where
  pub at_rest : t.state ≢ running
  pub errors : t.err_count ≤ t.run_count
  pub ran : t.last_run ≡ none → t.run_count ≡ 0

abbrev pub AllSettled : List RegisteredTask → Type 0
AllSettled [] = Unit {0}
AllSettled (t ∷ ts) = IsSettled t × AllSettled ts

execute_task-IsSettled :
    (run : Tasks) (t : RegisteredTask) (now : ℕ)
    → IsSettled t
    → IsSettled (execute_task run t now).0
unfolding execute_task
execute_task-IsSettled run t now h = ground arith

run_if_due-IsSettled :
    (run : Tasks) (t : RegisteredTask) (now : ℕ) → IsSettled t → IsSettled (run_if_due run t now).0
run_if_due-IsSettled run t now h = elim (Bool-cases (is_due t now)) [
  | inl due ↦ rw due (execute_task-IsSettled run t now h)
  | inr early ↦ rw early h
]

run_due_from-AllSettled :
    (run : Tasks) (seen : ℕ) (ts : List RegisteredTask) (now : ℕ)
    → AllSettled ts
    → AllSettled (run_due_from run seen ts now).0
unfolding run_due_from
run_due_from-AllSettled run zero [] now h = tt
run_due_from-AllSettled run (suc seen) [] now h = tt
run_due_from-AllSettled run zero (t ∷ ts) now h = h
run_due_from-AllSettled run (suc seen) (t ∷ ts) now h = (
  run_if_due-IsSettled run t now h.0,
  run_due_from-AllSettled run seen ts (run_if_due run t now).1 h.1,
)

run_named-AllSettled :
    (run : Tasks) (name : Text) (ts : List RegisteredTask) (now : ℕ)
    → AllSettled ts
    → AllSettled (run_named run name ts now).0
unfolding run_named
run_named-AllSettled run name [] now h = tt
run_named-AllSettled run name (t ∷ ts) now h =
    ground (arith, execute_task-IsSettled run t now h.0, run_named-AllSettled run name ts now h.1)

-- Every turn of the loop, complete or cut short by `Stop`, keeps all tasks settled: none is
-- running, errors are among the runs, and a task without a last run has no runs.
pub turn-AllSettled :
    (run : Tasks) (seen : ℕ) (e : Engine) (now : ℕ) (t : Turn)
    → AllSettled e.tasks
    → AllSettled (turn run seen e now t).0.tasks
unfolding turn
turn-AllSettled run seen e now tick h = run_due_from-AllSettled run seen e.tasks now h
turn-AllSettled run seen e now receive h = received e.triggers
  where
    received : (names : List Text) → AllSettled (receive_trigger run e names now).0.tasks
    received [] = h
    received (name ∷ names) = run_named-AllSettled run name e.tasks now h

-- A run ends no earlier than it begins.
abbrev pub GoForward : Tasks → Type 0
GoForward run = (t : RegisteredTask) (now : ℕ) → now ≤ (run t now).ended

-- At the time the task was disabled, or its last run was less than the interval ago.
pub data IsEarly (now : ℕ) (t : RegisteredTask) : Type 0 where
  disabled : t.enabled ≡ false → IsEarly now t
  recent : (last : ℕ) → t.last_run ≡ some last → now < last + t.interval → IsEarly now t

-- The task is the same as before, and it was enabled and has run once, at the time or since.
pub record HasRun (now : ℕ) (t t' : RegisteredTask) : Type 0 where
  pub enabled : t.enabled ≡ true
  pub name : t'.name ≡ t.name
  pub interval : t'.interval ≡ t.interval
  pub still_enabled : t'.enabled ≡ true
  pub last : ℕ
  pub ended : t'.last_run ≡ some last
  pub since : now ≤ last
  pub once : t'.run_count ≡ suc t.run_count

-- What a tick at the time makes of a task: nothing where it was early, or it has run.
abbrev pub Serves : ℕ → RegisteredTask → RegisteredTask → Type 0
Serves now t t' = (IsEarly now t × (t' ≡ t)) ⊎ HasRun now t t'

-- The same of all the tasks, one by one.
abbrev pub ServesAll : ℕ → List RegisteredTask → List RegisteredTask → Type 0
ServesAll now [] [] = Unit {0}
ServesAll now [] (t' ∷ ts') = ⊥
ServesAll now (t ∷ ts) [] = ⊥
ServesAll now (t ∷ ts) (t' ∷ ts') = Serves now t t' × ServesAll now ts ts'

is_due-new :
    (t : RegisteredTask) (now : ℕ) → t.enabled ≡ true → t.last_run ≡ none → is_due t now ≡ true
unfolding is_due
is_due-new t now on new = rw (on, is_due, new) refl

is_due-ran :
    (t : RegisteredTask) (now last : ℕ)
    → t.enabled ≡ true
    → t.last_run ≡ some last
    → is_due t now ≡ not (ltb (now - last) t.interval)
unfolding is_due
is_due-ran t now last on ran = rw (on, is_due, ran) refl

soon :
    (now later last interval : ℕ)
    → now ≤ later
    → not (ltb (later - last) interval) ≡ false
    → now < last + interval
soon now later last interval h e = ground (arith, h, e)

true-false : (b : Bool) → b ≡ true → b ≡ false → ⊥
true-false b h k = absurd cc

IsEarly-later :
    (t : RegisteredTask) (now later : ℕ) → now ≤ later → is_due t later ≡ false → IsEarly now t
IsEarly-later t now later h e = elim (Bool-cases t.enabled) [
  | inr off ↦ disabled off
  | inl on ↦ elim (Option-cases t.last_run) [
    | inl new ↦ absurd (true-false (is_due t later) (is_due-new t later on new) e)
    | inr (last, ran) ↦
        recent last ran
          (soon now later last t.interval h (sym (is_due-ran t later last on ran) ∙ e))
  ]
]

enabled-is_due : (t : RegisteredTask) (now : ℕ) → is_due t now ≡ true → t.enabled ≡ true
unfolding is_due
enabled-is_due t now h = ground (arith, h)

execute_task-HasRun :
    (run : Tasks) (t : RegisteredTask) (now later : ℕ)
    → t.enabled ≡ true
    → now ≤ (run t later).ended
    → HasRun now t (execute_task run t later).0
unfolding execute_task
execute_task-HasRun run t now later on h = elim (Option-cases (run t later).error) [
  | inl e ↦
      rw (e, execute_task)
        (record {
          enabled = on;
          name = refl;
          interval = refl;
          still_enabled = on;
          last = (run t later).ended;
          ended = refl;
          since = h;
          once = omega arith;
        })
  | inr (err, e) ↦
      rw (e, execute_task)
        (record {
          enabled = on;
          name = refl;
          interval = refl;
          still_enabled = on;
          last = (run t later).ended;
          ended = refl;
          since = h;
          once = omega arith;
        })
]

later-execute_task :
    (run : Tasks) (t : RegisteredTask) (now : ℕ) → (execute_task run t now).1 ≡ (run t now).ended
unfolding execute_task
later-execute_task run t now = ground arith

run_if_due-Serves :
    (run : Tasks) (t : RegisteredTask) (now later : ℕ)
    → GoForward run
    → now ≤ later
    → Serves now t (run_if_due run t later).0 × (later ≤ (run_if_due run t later).1)
run_if_due-Serves run t now later forward h = elim (Bool-cases (is_due t later)) [
  | inl due ↦ rw due (
    inr (
        execute_task-HasRun run t now later (enabled-is_due t later due)
          (omega (arith, h, forward t later))),
    omega (arith, later-execute_task run t later, forward t later),
  )
  | inr early ↦ rw early (inl (IsEarly-later t now later h early, refl), omega arith)
]

run_due_from-ServesAll :
    (run : Tasks) (seen : ℕ) (ts : List RegisteredTask) (now later : ℕ)
    → GoForward run
    → now ≤ later
    → length ts ≤ seen
    → ServesAll now ts (run_due_from run seen ts later).0
unfolding run_due_from
run_due_from-ServesAll run zero [] now later forward h k = tt
run_due_from-ServesAll run (suc seen) [] now later forward h k = tt
run_due_from-ServesAll run zero (t ∷ ts) now later forward h k = absurd (omega arith)
run_due_from-ServesAll run (suc seen) (t ∷ ts) now later forward h k =
    let (served, on) = run_if_due-Serves run t now later forward h in
    (
      served,
      run_due_from-ServesAll run seen ts now (run_if_due run t later).1 forward
          (omega (arith, h, on)) (omega arith),
    )

-- A tick that `Stop` does not cut short makes of each task in turn the same task as before, where
-- it was disabled or its last run was less than the interval before the tick, or one that was
-- enabled and has run once more, with an end no earlier than the tick, where runs end no earlier
-- than they begin.
pub turn-ServesAll :
    (run : Tasks) (seen : ℕ) (e : Engine) (now : ℕ)
    → GoForward run
    → length e.tasks ≤ seen
    → ServesAll now e.tasks (turn run seen e now tick).0.tasks
unfolding turn
turn-ServesAll run seen e now forward h =
    run_due_from-ServesAll run seen e.tasks now now forward (omega arith) h
