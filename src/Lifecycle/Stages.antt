-- ===== src/Lifecycle/Stages.antt =====
-- What one stage does to the lock.
use versarr.Base.{Bool, Option, String, [], arith, false, inl, inr, refl, true, ℕ, ◌∷◌, ◌≡◌}
use versarr.Domain.{Result, Result-cases, ScanKind, TriggerKind, ok, raised}
use versarr.Lifecycle.{
  Phase, Runtime, StageInputs, StateDir, advance_at, after_acquire, after_stage, ready, released,
}
use versarr.Lock.{AcquireEnd, Flock, IsLawful, LockFile, acquire, release}
use versarr.Lock.Guard.{replaced}
use versarr.Lock.Moves.{Guards, acquire-IsGuarded, kept-IsGuarded, release-IsGuarded}
use versarr.Reconciliation.Scan.{scan_root}
use versarr.Settings.{Settings}

abbrev pub file_of : Runtime → Option ℕ
file_of r = r.lock_manager.file_handle

after_stage-file :
    {A : Type 0} (x : Result A) (next r : Runtime)
    → file_of next ≡ file_of r
    → file_of (after_stage x next r) ≡ file_of r
after_stage-file (ok _) next r e = e
after_stage-file (raised _) next r e = refl

after_acquire-file : (done : AcquireEnd) (r : Runtime) → file_of (after_acquire done r) ≡ file_of r
after_acquire-file (AcquireEnd.acquired _) r = refl
after_acquire-file (AcquireEnd.held _) r = refl
after_acquire-file AcquireEnd.failed r = refl
after_acquire-file AcquireEnd.cancelled r = refl

module _ (F : Flock) (settings : Settings) (worker_id : ℕ → String) where
  -- Whether a phase's stage calls the lock.
  abbrev moves : Phase → Bool
  moves Phase.at_lock = true
  moves Phase.at_release = true
  moves _ = false

  advance_at-file :
      (i : StageInputs) (p : Phase) (r : Runtime) (w : StateDir F)
      → moves p ≡ false
      → file_of (advance_at F settings worker_id i p r w).0 ≡ file_of r
  unfolding ready
  advance_at-file i Phase.at_lock r w e = absurd (ground arith)
  advance_at-file i Phase.at_release r w e = absurd (ground arith)
  advance_at-file i Phase.at_directories r w e = elim (Result-cases i.directories) [
    | inl (a, h) ↦ rw h refl
    | inr (a, h) ↦ rw h refl
  ]
  advance_at-file i Phase.at_migrations r w e = elim (Result-cases i.migrated) [
    | inl (a, h) ↦ rw h refl
    | inr (a, h) ↦ rw h refl
  ]
  advance_at-file i Phase.at_engine r w e = elim (Result-cases i.engine) [
    | inl (a, h) ↦ rw h refl
    | inr (a, h) ↦ rw h refl
  ]
  advance_at-file i Phase.at_watcher r w e = elim (Result-cases i.watcher_started) [
    | inl (a, h) ↦ rw h refl
    | inr (a, h) ↦ rw h refl
  ]
  advance_at-file i Phase.at_watcher_stop r w e = elim (Result-cases i.watcher_stopped) [
    | inl (a, h) ↦ rw h refl
    | inr (a, h) ↦ rw h refl
  ]
  advance_at-file i Phase.at_supervisor_stop r w e = elim (Result-cases i.tasks_ended) [
    | inl (a, h) ↦ rw h refl
    | inr (a, h) ↦ rw h refl
  ]
  advance_at-file i Phase.at_provider_close r w e = elim (Result-cases i.provider_closed) [
    | inl (a, h) ↦ rw h refl
    | inr (a, h) ↦ rw h refl
  ]
  advance_at-file i (Phase.at_scans (root ∷ t)) r w e =
      elim (Result-cases
        (scan_root settings.scan.revisit_after_seconds (i.scans root) root ScanKind.startup
          TriggerKind.startup false w.db).0) [ inl (a, h) ↦ rw h refl | inr (a, h) ↦ rw h refl ]
  advance_at-file i p r w e = refl

  module _ (law : IsLawful F) (j : ℕ) (fs : ℕ → Option ℕ) (i : StageInputs) where
    unmoved :
        (r r' : Runtime) (w : LockFile F)
        → file_of r' ≡ file_of r
        → fs j ≡ file_of r
        → Guards F law fs w
        → Guards F law (replaced j (file_of r') fs) w
    unmoved r r' w e own g =
        rw e
          (kept-IsGuarded F law fs j r.lock_manager i.lock_calls w own g w.kernel w.next_handle g)

    pub advance_at-Guards :
        (p : Phase) (r : Runtime) (w : StateDir F)
        → fs j ≡ file_of r
        → Guards F law fs w.file
        → let (r', w') = advance_at F settings worker_id i p r w in
          Guards F law (replaced j (file_of r') fs) w'.file
    unfolding ready
    advance_at-Guards Phase.at_lock r w own g =
        let (done, m, file) = acquire F i.lock_wait i.lock_calls r.lock_manager w.file in
        rw (after_acquire-file done (record r { lock_manager = m }))
          (acquire-IsGuarded F law fs j r.lock_manager i.lock_calls w.file own g i.lock_wait)
    advance_at-Guards Phase.at_release r w own g =
        let (done, m, file) = release F i.lock_wait i.lock_calls r.lock_manager w.file in
        rw (after_stage-file done (released m r) (record r { lock_manager = m }) refl)
          (release-IsGuarded F law fs j r.lock_manager i.lock_calls w.file own g i.lock_wait)
    advance_at-Guards (Phase.at_scans []) r w own g =
        unmoved r (advance_at F settings worker_id i (Phase.at_scans []) r w).0 w.file
          (advance_at-file i (Phase.at_scans []) r w refl) own g
    advance_at-Guards (Phase.at_scans (root ∷ t)) r w own g =
        unmoved r (advance_at F settings worker_id i (Phase.at_scans (root ∷ t)) r w).0 w.file
          (advance_at-file i (Phase.at_scans (root ∷ t)) r w refl) own g
    advance_at-Guards p r w own g =
        unmoved r (advance_at F settings worker_id i p r w).0 w.file (advance_at-file i p r w refl)
          own g
