-- ===== src/Lifecycle/Tests.antt =====
-- Tests of the lifecycle.
use versarr.Base.{
  FilePath, List, String, [], arith, false, if◌then◌else◌, nat_eq, none, path_eq, refl, some,
  string_eq, true, ℕ, ◌==◌, ◌↔◌, ◌∷◌, ◌≡◌, ◌≢◌,
}
use versarr.Domain.{Raised, ok, raised}
use versarr.Examples.{database, services, settings, song, working, world}
use versarr.Lifecycle.{
  Phase, StageInputs, StateDir, advance, new_runtime, ready, ready_response, runtime_healthy,
}
use versarr.Lifecycle.Instances.{
  IsNew, Processes, one_ready, run_stage, run_stages, run_stages-ready_iff,
}
use versarr.Lifecycle.Once.{OnceInputs, run_scan_once}
use versarr.Lifecycle.Released.{IsRestored, run_scan_once-releases}
use versarr.Lifecycle.Start.{start}
use versarr.Lifecycle.Works.{AllWork, start_works}
use versarr.Lock.{ThreadWait, acquire, acquire_sync, new_manager, release, release_sync}
use versarr.Lock.Kernel.{one_lock, one_lock-IsLawful}
use versarr.Reconciliation.Scan.{ScanInputs}
use versarr.Settings.{Settings, default_scan}

abbrev worker_id : ℕ → String
worker_id n = if n == 0 then "worker-0" else "worker-1"

-- A root whose scan finds one song.
abbrev scan_of : FilePath → ScanInputs
scan_of root = record {
  started_at = 1;
  evaluated_at = 2;
  queued_at = λ _. 3;
  marked_at = 4;
  finished_at = 5;
  scanned = ok (song ∷ []);
  root_is_dir = true;
  stat = λ _. some (record { size = 1000; mtime_ns = 5; sidecar_exists = false });
}

-- Every call works.
abbrev inputs : StageInputs
inputs = record {
  directories = ok tt;
  lock_wait = ThreadWait.awaited;
  lock_calls = working;
  migrated = ok tt;
  engine = ok tt;
  recovered_at = 1;
  watcher_started = ok tt;
  scans = scan_of;
  watcher_stopped = ok tt;
  tasks_ended = ok tt;
  provider_closed = ok tt;
}

abbrev state_dir : StateDir one_lock
state_dir = record { file = record { kernel = none; text = ""; next_handle = 0 }; db = database }

inputs-AllWork : AllWork inputs
inputs-AllWork = record {
  directories = refl;
  awaited = refl;
  makes_parent = refl;
  opens = refl;
  writes = refl;
  migrated = refl;
  engine = refl;
  watcher_started = refl;
  scanned = λ root. (song ∷ [], refl);
}

start_works_example :
    let r = (start one_lock settings worker_id inputs (new_runtime "first") state_dir).0 in
    (r.phase ≡ Phase.running) × (ready r.readiness ≡ true) × (r.lock_manager.file_handle ≢ none)
start_works_example =
    start_works one_lock one_lock-IsLawful settings worker_id inputs "first" state_dir
      inputs-AllWork (λ h. refl)

abbrev no_startup_scan : Settings
no_startup_scan = record settings { scan = record default_scan { startup_reconciliation = false } }

-- Two processes that start at once.
abbrev processes : Processes one_lock
processes = record { runtime = λ j. new_runtime "process"; dir = state_dir }

processes-IsNew : IsNew one_lock no_startup_scan worker_id processes
processes-IsNew = ((λ j. ("process", refl)), λ h. refl)

abbrev race : List (ℕ × StageInputs)
race =
    (0, inputs)
    ∷ (1, inputs)
    ∷ (0, inputs)
    ∷ (1, inputs)
    ∷ (0, inputs)
    ∷ (0, inputs)
    ∷ (0, inputs)
    ∷ (0, inputs)
    ∷ (0, inputs)
    ∷ []

first_ready :
    ready ((run_stages one_lock no_startup_scan worker_id race processes).runtime 0).readiness
    ≡ true
unfolding run_stages run_stage advance acquire acquire_sync ready
first_ready = refl

second_refused :
    ((run_stages one_lock no_startup_scan worker_id race processes).runtime 1).phase
    ≡ Phase.failed_with (Raised.other_error "RuntimeError")
unfolding run_stages run_stage advance acquire acquire_sync ready
second_refused = refl

one_ready_example : ◌≡◌ {A = ℕ} 0 0
one_ready_example =
    one_ready one_lock one_lock-IsLawful no_startup_scan worker_id race processes 0 0
      processes-IsNew first_ready first_ready

run_stages-ready_iff_example :
    let r = (run_stages one_lock no_startup_scan worker_id race processes).runtime 0 in
    (ready_response r ≡ (200, "ready")) ↔ ((r.phase ≡ Phase.running) × (runtime_healthy r ≡ true))
run_stages-ready_iff_example =
    run_stages-ready_iff one_lock one_lock-IsLawful no_startup_scan worker_id race processes 0
      processes-IsNew

abbrev once : OnceInputs
once = record {
  directories = ok tt;
  acquire_wait = ThreadWait.awaited;
  acquire_calls = working;
  prepared = raised (Raised.os_error "OSError");
  scans = scan_of;
  turns = [];
  provider_closed = ok tt;
  release_wait = ThreadWait.awaited;
  release_calls = working;
}

-- The database cannot be made ready: the run raises.
once_raises :
    (run_scan_once one_lock services settings 21600 once
      (new_manager "first")
      state_dir.file
      world).0
    ≢ none
unfolding run_scan_once acquire acquire_sync release release_sync
once_raises e = absurd (ground (arith, e))

run_scan_once-releases_example :
    let (_, m, f, _) =
      run_scan_once one_lock services settings 21600 once
        (new_manager "first")
        state_dir.file
        world in
    IsRestored one_lock state_dir.file.kernel m f
run_scan_once-releases_example =
    run_scan_once-releases one_lock one_lock-IsLawful services settings 21600 once
      (new_manager "first") state_dir.file world refl refl (λ e. absurd (ground (arith, e)))
      (λ e. absurd (ground (arith, e))) refl once_raises

-- A run that is cancelled while its acquire takes the lock leaves it with the manager.
cancelled_keeps :
    (run_scan_once one_lock services settings 21600
      (record once { acquire_wait = ThreadWait.cancelled_running })
      (new_manager "first")
      state_dir.file
      world).1.file_handle
    ≡ some 0
unfolding run_scan_once acquire acquire_sync
cancelled_keeps = refl
