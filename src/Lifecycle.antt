-- ===== src/Lifecycle.antt =====
-- `VersarrRuntime.start` and `stop` of src/versarr/bootstrap.py, with the readiness of
-- src/versarr/observability/metrics.py and the answers of src/versarr/interfaces/http/app.py.
--
-- A start or a stop is a sequence of stages, up to each call that may raise or hands over to other
-- code, so that the stages of several processes can come in any order.
pub mod Phases
pub mod Stages
pub mod Instances
pub mod Start
pub mod Works
pub mod Once
pub mod Released
mod Tests
use versarr.Base.{
  Bool, FilePath, List, String, [], false, if◌then◌else◌, length, not, suc, true, zero, ℕ, ◌&&◌,
  ◌+◌, ◌∷◌,
}
use versarr.Domain.{Raised, Result, ScanKind, TriggerKind, ok, raised, seconds}
use versarr.Jobs.{recover_stale_jobs}
use versarr.Lock.{
  AcquireEnd, Flock, LockFile, Manager, SystemCalls, ThreadWait, acquire, new_manager, release,
}
use versarr.Reconciliation.Scan.{ScanInputs, scan_root}
use versarr.Schema.{Database}
use versarr.Settings.{Settings}
use versarr.Supervisor.{Supervisor, healthy, spawn, stop}

-- `RuntimeReadiness`.
pub record Readiness : Type 0 where
  pub config_loaded : Bool
  pub migrations_complete : Bool
  pub database_ready : Bool
  pub lock_held : Bool
  pub worker_active : Bool
  pub discovery_active : Bool

unfoldable pub ready : Readiness → Bool
ready r =
    r.config_loaded && r.migrations_complete && r.database_ready && r.lock_held && r.worker_active
    && r.discovery_active

abbrev pub not_started : Readiness
not_started = record {
  config_loaded = false;
  migrations_complete = false;
  database_ready = false;
  lock_held = false;
  worker_active = false;
  discovery_active = false;
}

-- The stage that comes next. `at_scans` has the roots that the startup scans have left, and `running`
-- is between the two methods.
pub data Phase : Type 0 where
  at_directories at_lock at_migrations at_engine at_recovery at_watcher : Phase
  at_scans : List FilePath → Phase
  at_tasks running at_watcher_stop at_supervisor_stop at_provider_close at_release stopped : Phase
  failed_with : Raised → Phase

pub record Runtime : Type 0 where
  pub phase : Phase
  pub readiness : Readiness
  pub status_healthy : Bool
  pub readiness_state : Bool
  pub watcher_roots_active : ℕ
  pub lock_manager : Manager
  pub watching : Bool
  pub supervisor : Supervisor

abbrev pub new_runtime : String → Runtime
new_runtime metadata = record {
  phase = Phase.at_directories;
  readiness = not_started;
  status_healthy = true;
  readiness_state = false;
  watcher_roots_active = 0;
  lock_manager = new_manager metadata;
  watching = false;
  supervisor = record {
    stop_requested = false;
    failure_threshold = 3;
    backoff = seconds 5;
    loops = [];
  };
}

-- What a stage hears from outside; `tasks_ended` is raised where a task of a loop had ended with an
-- exception, which the stop of the supervisor raises again.
pub record StageInputs : Type 0 where
  pub directories : Result (Unit {0})
  pub lock_wait : ThreadWait
  pub lock_calls : SystemCalls
  pub migrated : Result (Unit {0})
  pub engine : Result (Unit {0})
  pub recovered_at : ℕ
  pub watcher_started : Result (Unit {0})
  pub scans : FilePath → ScanInputs
  pub watcher_stopped : Result (Unit {0})
  pub tasks_ended : Result (Unit {0})
  pub provider_closed : Result (Unit {0})

-- What the processes of one state directory share.
pub record StateDir (F : Flock) : Type 0 where
  pub file : LockFile F
  pub db : Database

-- A stage that returned goes on, one that raised ends the method.
abbrev pub after_stage {ℓ} : {A : Type ℓ} → Result A → Runtime → Runtime → Runtime
after_stage (ok _) next r = next
after_stage (raised e) next r = record r { phase = Phase.failed_with e }

abbrev pub after_acquire : AcquireEnd → Runtime → Runtime
after_acquire (AcquireEnd.acquired _) r = record r {
  readiness = record r.readiness { lock_held = true };
  phase = Phase.at_migrations;
}
after_acquire (AcquireEnd.held _) r = record r {
  phase = Phase.failed_with (Raised.other_error "RuntimeError");
}
after_acquire AcquireEnd.failed r = record r {
  phase = Phase.failed_with (Raised.os_error "OSError");
}
after_acquire AcquireEnd.cancelled r = record r { phase = Phase.failed_with Raised.cancelled }

-- `scan.startup_reconciliation`, and the loop over the roots.
abbrev pub next_scan : List FilePath → Phase
next_scan [] = Phase.at_tasks
next_scan (root ∷ t) = Phase.at_scans (root ∷ t)

abbrev pub startup_roots : Settings → List FilePath
startup_roots settings = if settings.scan.startup_reconciliation then settings.library_roots else []

-- `_spawn_worker` of each index below the concurrency, from `index` on.
unfoldable pub spawn_workers : (ℕ → String) → ℕ → ℕ → Supervisor → Supervisor
spawn_workers worker_id index zero s = s
spawn_workers worker_id index (suc n) s =
    spawn_workers worker_id (index + 1) n (spawn (worker_id index) s)

unfoldable pub spawn_loops : (ℕ → String) → ℕ → Supervisor → Supervisor
spawn_loops worker_id n s =
    spawn "metrics"
      (spawn "reconciliation" (spawn "control" (spawn "stability" (spawn_workers worker_id 0 n s))))

abbrev pub request_stop : Supervisor → Supervisor
request_stop s = record s { stop_requested = true }

-- `set_readiness`.
abbrev pub set_readiness : Bool → Runtime → Runtime
set_readiness b r = record r { readiness_state = b }

abbrev pub released : Manager → Runtime → Runtime
released m r = record r {
  lock_manager = m;
  readiness = record r.readiness { lock_held = false };
  phase = Phase.stopped;
}

module _ (F : Flock) (settings : Settings) (worker_id : ℕ → String) where
  abbrev pub acquire_stage : StageInputs → Runtime → StateDir F → Runtime × StateDir F
  acquire_stage i r w =
      let (done, m, file) = acquire F i.lock_wait i.lock_calls r.lock_manager w.file in
      (after_acquire done (record r { lock_manager = m }), record w { file = file })

  abbrev pub scan_stage :
      StageInputs → FilePath → List FilePath → Runtime → StateDir F → Runtime × StateDir F
  scan_stage i root t r w =
      let (done, d) =
        scan_root settings.scan.revisit_after_seconds (i.scans root) root ScanKind.startup
          TriggerKind.startup false w.db in
      (after_stage done (record r { phase = next_scan t }) r, record w { db = d })

  abbrev pub tasks_stage : Runtime → Runtime
  tasks_stage r =
      let readiness = record r.readiness { worker_active = true } in
      set_readiness (ready readiness) (record r {
        supervisor = spawn_loops worker_id settings.worker_concurrency r.supervisor;
        readiness = readiness;
        phase = Phase.running;
      })

  abbrev pub begin_stop : Runtime → Runtime
  begin_stop r = set_readiness false (record r {
    readiness = record r.readiness { worker_active = false; discovery_active = false };
    supervisor = request_stop r.supervisor;
    phase = Phase.at_watcher_stop;
  })

  abbrev pub release_stage : StageInputs → Runtime → StateDir F → Runtime × StateDir F
  release_stage i r w =
      let (done, m, file) = release F i.lock_wait i.lock_calls r.lock_manager w.file in
      (after_stage done (released m r) (record r { lock_manager = m }), record w { file = file })

  abbrev pub advance_at : StageInputs → Phase → Runtime → StateDir F → Runtime × StateDir F
  advance_at i Phase.at_directories r w = (
    after_stage i.directories
        (set_readiness false (record r {
          readiness = record r.readiness { config_loaded = true };
          phase = Phase.at_lock;
        }))
        r,
    w,
  )
  advance_at i Phase.at_lock r w = acquire_stage i r w
  advance_at i Phase.at_migrations r w = (
    after_stage i.migrated
        (record r {
          readiness = record r.readiness { migrations_complete = true };
          phase = Phase.at_engine;
        })
        r,
    w,
  )
  advance_at i Phase.at_engine r w = (
    after_stage i.engine
        (record r {
          readiness = record r.readiness { database_ready = true };
          phase = Phase.at_recovery;
        })
        r,
    w,
  )
  advance_at i Phase.at_recovery r w = (
    record r { phase = Phase.at_watcher },
    record w { db = record w.db { jobs = (recover_stale_jobs i.recovered_at w.db.jobs).1 } },
  )
  advance_at i Phase.at_watcher r w = (
    after_stage i.watcher_started
        (record r {
          watching = true;
          watcher_roots_active = length settings.library_roots;
          readiness = record r.readiness { discovery_active = true };
          phase = next_scan (startup_roots settings);
        })
        r,
    w,
  )
  advance_at i (Phase.at_scans []) r w = (record r { phase = Phase.at_tasks }, w)
  advance_at i (Phase.at_scans (root ∷ t)) r w = scan_stage i root t r w
  advance_at i Phase.at_tasks r w = (tasks_stage r, w)
  advance_at i Phase.running r w = (begin_stop r, w)
  advance_at i Phase.at_watcher_stop r w = (
    after_stage i.watcher_stopped (record r { watching = false; phase = Phase.at_supervisor_stop })
        r,
    w,
  )
  advance_at i Phase.at_supervisor_stop r w = (
    after_stage i.tasks_ended
        (record r { supervisor = stop r.supervisor; phase = Phase.at_provider_close }) r,
    w,
  )
  advance_at i Phase.at_provider_close r w =
      (after_stage i.provider_closed (record r { phase = Phase.at_release }) r, w)
  advance_at i Phase.at_release r w = release_stage i r w
  advance_at i Phase.stopped r w = (r, w)
  advance_at i (Phase.failed_with e) r w = (r, w)

  -- The next stage of `start`, or of `stop` where the runtime runs.
  unfoldable pub advance : StageInputs → Runtime → StateDir F → Runtime × StateDir F
  advance i r w = advance_at i r.phase r w

-- `VersarrRuntime.healthy`.
unfoldable pub runtime_healthy : Runtime → Bool
runtime_healthy r = r.status_healthy && healthy r.supervisor

-- `/health`.
unfoldable pub health_response : Runtime → String
health_response r = if runtime_healthy r then "ok" else "degraded"

-- `/ready`: the status code and the body's status.
unfoldable pub ready_response : Runtime → ℕ × String
ready_response r =
    if not (ready r.readiness && runtime_healthy r) then (503, "not_ready") else (200, "ready")
