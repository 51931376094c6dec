-- ===== src/Supervisor/Tests.antt =====
-- Tests of the supervisor.
use versarr.Base.{List, [], false, refl, ◌++◌, ◌∷◌, ◌≡◌}
use versarr.Supervisor.{Loop, StepEnd, after_step, run_steps}
use versarr.Supervisor.Failures.{failures_of, run_steps-ends}

abbrev idle : Loop
idle = record { name = "worker-0"; failures = 0; task_done = false }

abbrev mixed : List StepEnd
mixed = StepEnd.failed ∷ StepEnd.returned ∷ StepEnd.failed ∷ []

still_up : (run_steps 2 mixed idle).1.task_done ≡ false
unfolding run_steps after_step
still_up = refl

run_steps-ends_example :
    (run_steps 2 (mixed ++ StepEnd.returned ∷ failures_of 3) idle).1.task_done ≡ false
run_steps-ends_example = run_steps-ends 2 3 mixed idle still_up
