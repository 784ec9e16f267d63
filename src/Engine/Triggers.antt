-- ===== src/Engine/Triggers.antt =====
-- Manual triggers of the scheduler of internal/agent/engine.go.
use safe_road.Base.{
  ℕ, ◌+◌, ◌≤◌, true, List, [], ◌∷◌, ◌≡◌, refl, arith, if◌then◌else◌, Text, length, length-append,
  any, Bool-cases, inl, inr,
}
use safe_road.Engine.{
  RegisteredTask, Engine, Tasks, trigger_capacity, is_named, trigger, execute_task, run_named, turn,
  receive,
}

-- The buffer of the channel is never over its capacity.
pub length-trigger :
    (e : Engine) (name : Text)
    → length e.triggers ≤ trigger_capacity
    → length (trigger e name).0.triggers ≤ trigger_capacity
unfolding trigger
length-trigger e name h = ground (arith, length-append e.triggers (name ∷ []))

-- With a full buffer, a request for a task that exists is answered by true and changes nothing of
-- the engine.
pub trigger_full :
    (e : Engine) (name : Text)
    → trigger_capacity ≤ length e.triggers
    → any (is_named name) e.tasks ≡ true
    → trigger e name ≡ (e, true)
unfolding trigger
trigger_full e name full there = rw there (ground (arith, full))

-- How often the first task of a name has run.
abbrev pub runs_in : Text → List RegisteredTask → ℕ
runs_in name [] = 0
runs_in name (t ∷ ts) = if is_named name t then t.run_count else runs_in name ts

name-execute_task :
    (run : Tasks) (t : RegisteredTask) (now : ℕ) → (execute_task run t now).0.name ≡ t.name
unfolding execute_task
name-execute_task run t now = ground arith

run_count-execute_task :
    (run : Tasks) (t : RegisteredTask) (now : ℕ)
    → (execute_task run t now).0.run_count ≡ t.run_count + 1
unfolding execute_task
run_count-execute_task run t now = ground arith

runs_in-run_named :
    (run : Tasks) (name : Text) (ts : List RegisteredTask) (now : ℕ)
    → any (is_named name) ts ≡ true
    → runs_in name (run_named run name ts now).0 ≡ runs_in name ts + 1
unfolding run_named
runs_in-run_named run name [] now h = cc
runs_in-run_named run name (t ∷ ts) now h = elim (Bool-cases (is_named name t)) [
  | inl same ↦
      rw same (rw (name-execute_task run t now) (rw same (run_count-execute_task run t now)))
  | inr other ↦ rw other (rw other (runs_in-run_named run name ts now (rw other at h)))
]

trigger_empty :
    (e : Engine) (name : Text)
    → e.triggers ≡ []
    → any (is_named name) e.tasks ≡ true
    → trigger e name ≡ (record e { triggers = name ∷ [] }, true)
unfolding trigger
trigger_empty e name empty there = rw there (rw empty refl)

-- A request for a task that exists, which meets an empty buffer, runs the first task of its name
-- once when the loop next receives, also a disabled one, and leaves the buffer empty.
pub trigger-receive :
    (run : Tasks) (seen now : ℕ) (e : Engine) (name : Text)
    → e.triggers ≡ []
    → any (is_named name) e.tasks ≡ true
    → let e' = (turn run seen (trigger e name).0 now receive).0 in
      (runs_in name e'.tasks ≡ runs_in name e.tasks + 1) × (e'.triggers ≡ [])
unfolding turn
trigger-receive run seen now e name empty there =
    rw (trigger_empty e name empty there) (runs_in-run_named run name e.tasks now there, refl)
