-- ===== src/Supervisor.antt =====
-- `LoopSupervisor` of src/versarr/application/supervision.py: the loops by name, each with its count of
-- failures and whether its task has ended. Seconds are in microseconds.
pub mod Failures
pub mod Health
mod Tests
use versarr.Base.{
  Bool, List, String, [], any, false, if◌then◌else◌, keyed, leb, min, nat_eq, not, path_eq,
  string_eq, true, update, upsert, ℕ, ◌*◌, ◌+◌, ◌-◌, ◌^◌, ◌∷◌,
}
use versarr.Domain.{seconds}

-- `MAX_BACKOFF_SECONDS`.
abbrev pub max_backoff : ℕ
max_backoff = seconds 60

pub record Loop : Type 0 where
  pub name : String
  pub failures : ℕ
  pub task_done : Bool

pub record Supervisor : Type 0 where
  pub stop_requested : Bool
  pub failure_threshold : ℕ
  pub backoff : ℕ
  pub loops : List Loop

abbrev pub with_name : String → Loop → Bool
with_name = keyed (λ l. l.name)

-- `spawn`: a loop of a name that is there is replaced.
unfoldable pub spawn : String → Supervisor → Supervisor
spawn name s = record s {
  loops = upsert (λ l. l.name) (record { name = name; failures = 0; task_done = false }) s.loops;
}

-- `healthy`.
unfoldable pub healthy : Supervisor → Bool
healthy s =
    if any (λ l. leb s.failure_threshold l.failures) s.loops
    then false
    else if s.stop_requested
    then true
    else not (any (λ l. l.task_done) s.loops)

-- How a step ends.
pub data StepEnd : Type 0 where
  returned failed cancelled : StepEnd

-- The sleep after a step that failed, with the failures counted up to it.
unfoldable pub delay_after : ℕ → ℕ → ℕ
delay_after backoff failures = min (backoff * 2 ^ (failures - 1)) max_backoff

-- `2 ** (failures - 1)` as an `int` that no `float` can hold: its product with a `float` raises an
-- `OverflowError`.
abbrev pub overflows : ℕ → Bool
overflows failures = leb 1025 failures

-- One round of `_run`: the sleep, and the loop. A cancellation ends the task, and so does the overflow,
-- which is raised in the handler.
unfoldable pub after_step : ℕ → StepEnd → Loop → ℕ × Loop
after_step backoff StepEnd.returned l = (0, record l { failures = 0 })
after_step backoff StepEnd.failed l =
    if overflows (l.failures + 1)
    then (0, record l { failures = l.failures + 1; task_done = true })
    else (delay_after backoff (l.failures + 1), record l { failures = l.failures + 1 })
after_step backoff StepEnd.cancelled l = (0, record l { task_done = true })

-- The rounds of `_run` of one loop, up to the one that ends its task: the sleeps, and the loop. A round
-- begins only while no stop is requested, so that a list ends where the stop event is set.
unfoldable pub run_steps : ℕ → List StepEnd → Loop → List ℕ × Loop
run_steps backoff [] l = ([], l)
run_steps backoff (e ∷ t) l =
    let (slept, l') = after_step backoff e l in
    let (rest, l'') = run_steps backoff t l' in
    if l'.task_done then (slept ∷ [], l') else (slept ∷ rest, l'')

-- The round of one loop of the supervisor.
unfoldable pub step_loop : String → StepEnd → Supervisor → Supervisor
step_loop name e s = record s {
  loops = update (with_name name) (λ l. (after_step s.backoff e l).1) s.loops;
}

-- `stop`: every task is cancelled and forgotten.
unfoldable pub stop : Supervisor → Supervisor
stop s = record s { loops = [] }
