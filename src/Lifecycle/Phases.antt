-- ===== src/Lifecycle/Phases.antt =====
-- The readiness of each phase, and the lock.
use versarr.Base.{
  Bool, FilePath, List, String, [], ap, arith, false, none, refl, true, ℕ, ◌↔◌, ◌∙◌, ◌∷◌, ◌≡◌, ◌≢◌,
}
use versarr.Domain.{Result, ok, raised}
use versarr.Lifecycle.{
  Phase, Readiness, Runtime, StageInputs, StateDir, advance, advance_at, after_acquire, after_stage,
  new_runtime, next_scan, not_started, ready, startup_roots,
}
use versarr.Lock.{AcquireEnd, Flock, LockHandle, acquire, acquire-acquired, release}
use versarr.Settings.{Settings}

-- The flags that a phase has set: config, migrations, database, lock, worker, discovery.
abbrev flags : Bool → Bool → Bool → Bool → Bool → Bool → Readiness
flags c m d l w v = record {
  config_loaded = c;
  migrations_complete = m;
  database_ready = d;
  lock_held = l;
  worker_active = w;
  discovery_active = v;
}

-- What is known of the flags at a phase.
abbrev pub IsFlagged : Phase → Readiness → Type 0
IsFlagged Phase.at_directories r = r ≡ not_started
IsFlagged Phase.at_lock r = r ≡ flags true false false false false false
IsFlagged Phase.at_migrations r = r ≡ flags true false false true false false
IsFlagged Phase.at_engine r = r ≡ flags true true false true false false
IsFlagged Phase.at_recovery r = r ≡ flags true true true true false false
IsFlagged Phase.at_watcher r = r ≡ flags true true true true false false
IsFlagged (Phase.at_scans _) r = r ≡ flags true true true true false true
IsFlagged Phase.at_tasks r = r ≡ flags true true true true false true
IsFlagged Phase.running r = r ≡ flags true true true true true true
IsFlagged _ r = r.worker_active ≡ false

-- Whether the lock must be held at a phase.
abbrev pub keeps_lock : Phase → Bool
keeps_lock Phase.at_directories = false
keeps_lock Phase.at_lock = false
keeps_lock Phase.stopped = false
keeps_lock (Phase.failed_with _) = false
keeps_lock _ = true

abbrev pub is_running : Phase → Bool
is_running Phase.running = true
is_running _ = false

pub record IsOnTrack (r : Runtime) : Type 0 where
  pub flagged : IsFlagged r.phase r.readiness
  pub locked : keeps_lock r.phase ≡ true → r.lock_manager.file_handle ≢ none

pub flagged-ready :
    (p : Phase) (r : Readiness) → IsFlagged p r → (ready r ≡ true) ↔ (is_running p ≡ true)
unfolding ready
flagged-ready p r h = ground arith

-- A stage that raises leaves the runtime off track in no way, as no worker is active yet, or any more.
after_stage-IsOnTrack :
    {A : Type 0} (x : Result A) (next r : Runtime)
    → r.readiness.worker_active ≡ false
    → IsOnTrack next
    → IsOnTrack (after_stage x next r)
after_stage-IsOnTrack (ok _) next r idle t = t
after_stage-IsOnTrack (raised e) next r idle t = record {
  flagged = idle;
  locked = λ h. absurd (ground arith);
}

abbrev inactive :
    (r : Readiness) (v : Readiness) → r ≡ v → v.worker_active ≡ false → r.worker_active ≡ false
inactive r v e h = ap (λ (x : Readiness). x.worker_active) e ∙ h

next_scan-IsFlagged :
    (roots : List FilePath) (r : Readiness)
    → r ≡ flags true true true true false true
    → IsFlagged (next_scan roots) r
next_scan-IsFlagged [] r e = e
next_scan-IsFlagged (x ∷ t) r e = e

after_acquire-IsOnTrack :
    (done : AcquireEnd) (r : Runtime)
    → r.readiness ≡ flags true false false false false false
    → ((x : LockHandle) → done ≡ AcquireEnd.acquired x → r.lock_manager.file_handle ≢ none)
    → IsOnTrack (after_acquire done r)
after_acquire-IsOnTrack (AcquireEnd.acquired x) r e h = record {
  flagged = ap (λ (v : Readiness). record v { lock_held = true }) e;
  locked = λ _. h x refl;
}
after_acquire-IsOnTrack (AcquireEnd.held _) r e h = record {
  flagged = inactive r.readiness _ e refl;
  locked = λ k. absurd (ground arith);
}
after_acquire-IsOnTrack AcquireEnd.failed r e h = record {
  flagged = inactive r.readiness _ e refl;
  locked = λ k. absurd (ground arith);
}
after_acquire-IsOnTrack AcquireEnd.cancelled r e h = record {
  flagged = inactive r.readiness _ e refl;
  locked = λ k. absurd (ground arith);
}

module _ (F : Flock) (settings : Settings) (worker_id : ℕ → String) (i : StageInputs) where
  -- A stage keeps the runtime on track.
  advance_at-IsOnTrack :
      (p : Phase) (r : Runtime) (w : StateDir F)
      → IsFlagged p r.readiness
      → (keeps_lock p ≡ true → r.lock_manager.file_handle ≢ none)
      → r.phase ≡ p
      → IsOnTrack (advance_at F settings worker_id i p r w).0
  unfolding ready
  advance_at-IsOnTrack Phase.at_directories r w f l e =
      after_stage-IsOnTrack i.directories _ r (inactive r.readiness _ f refl) (record {
        flagged = ap (λ (v : Readiness). record v { config_loaded = true }) f;
        locked = λ k. absurd (ground arith);
      })
  advance_at-IsOnTrack Phase.at_lock r w f l e =
      after_acquire-IsOnTrack (acquire F i.lock_wait i.lock_calls r.lock_manager w.file).0 _ f
        (acquire-acquired F i.lock_wait i.lock_calls r.lock_manager w.file)
  advance_at-IsOnTrack Phase.at_migrations r w f l e =
      after_stage-IsOnTrack i.migrated _ r (inactive r.readiness _ f refl) (record {
        flagged = ap (λ (v : Readiness). record v { migrations_complete = true }) f;
        locked = λ k. l refl;
      })
  advance_at-IsOnTrack Phase.at_engine r w f l e =
      after_stage-IsOnTrack i.engine _ r (inactive r.readiness _ f refl) (record {
        flagged = ap (λ (v : Readiness). record v { database_ready = true }) f;
        locked = λ k. l refl;
      })
  advance_at-IsOnTrack Phase.at_recovery r w f l e = record { flagged = f; locked = λ k. l refl }
  advance_at-IsOnTrack Phase.at_watcher r w f l e =
      after_stage-IsOnTrack i.watcher_started _ r (inactive r.readiness _ f refl) (record {
        flagged =
            next_scan-IsFlagged (startup_roots settings) _
              (ap (λ (v : Readiness). record v { discovery_active = true }) f);
        locked = λ k. l refl;
      })
  advance_at-IsOnTrack (Phase.at_scans []) r w f l e = record { flagged = f; locked = λ k. l refl }
  advance_at-IsOnTrack (Phase.at_scans (root ∷ t)) r w f l e =
      after_stage-IsOnTrack _ _ r (inactive r.readiness _ f refl)
        (record { flagged = next_scan-IsFlagged t _ f; locked = λ k. l refl })
  advance_at-IsOnTrack Phase.at_tasks r w f l e = record {
    flagged = ap (λ (v : Readiness). record v { worker_active = true }) f;
    locked = λ k. l refl;
  }
  advance_at-IsOnTrack Phase.running r w f l e = record { flagged = refl; locked = λ k. l refl }
  advance_at-IsOnTrack Phase.at_watcher_stop r w f l e =
      after_stage-IsOnTrack i.watcher_stopped _ r f (record { flagged = f; locked = λ k. l refl })
  advance_at-IsOnTrack Phase.at_supervisor_stop r w f l e =
      after_stage-IsOnTrack i.tasks_ended _ r f (record { flagged = f; locked = λ k. l refl })
  advance_at-IsOnTrack Phase.at_provider_close r w f l e =
      after_stage-IsOnTrack i.provider_closed _ r f (record { flagged = f; locked = λ k. l refl })
  advance_at-IsOnTrack Phase.at_release r w f l e =
      after_stage-IsOnTrack (release F i.lock_wait i.lock_calls r.lock_manager w.file).0 _ _ f
        (record { flagged = f; locked = λ k. absurd (ground arith) })
  advance_at-IsOnTrack Phase.stopped r w f l e = record { flagged = rw e f; locked = rw e l }
  advance_at-IsOnTrack (Phase.failed_with x) r w f l e = record {
    flagged = rw e f;
    locked = rw e l;
  }

  pub advance-IsOnTrack :
      (r : Runtime) (w : StateDir F)
      → IsOnTrack r
      → IsOnTrack (advance F settings worker_id i r w).0
  unfolding advance
  advance-IsOnTrack r w t = advance_at-IsOnTrack r.phase r w t.flagged t.locked refl

-- Before the first stage.
pub new-IsOnTrack : (metadata : String) → IsOnTrack (new_runtime metadata)
new-IsOnTrack metadata = record { flagged = refl; locked = λ k. absurd (ground arith) }
