-- ===== src/Lifecycle/Works.antt =====
-- A start in which every call works.
use versarr.Base.{
  Bool, Bool-cases, FilePath, List, String, [], arith, false, inl, inr, length, none, refl, suc,
  true, zero, ℕ, ◌+◌, ◌||◌, ◌∷◌, ◌≡◌, ◌≢◌,
}
use versarr.Domain.{ScanKind, TriggerKind, ok}
use versarr.Lifecycle.{
  Phase, Runtime, StageInputs, StateDir, advance, advance_at, new_runtime, next_scan, ready,
  startup_roots,
}
use versarr.Lifecycle.Phases.{
  IsOnTrack, advance-IsOnTrack, flagged-ready, is_running, new-IsOnTrack,
}
use versarr.Lifecycle.Start.{is_starting, start, start-ends, start_on}
use versarr.Lock.{Flock, IsLawful, ThreadWait, acquire, acquire_sync}
use versarr.Reconciliation.Scan.{ScanInputs, scan_root}
use versarr.Schema.{Database}
use versarr.Settings.{Settings}

-- What the stages of a start hear where every call works.
pub record AllWork (i : StageInputs) : Type 0 where
  pub directories : i.directories ≡ ok tt
  pub awaited : i.lock_wait ≡ ThreadWait.awaited
  pub makes_parent : i.lock_calls.makes_parent ≡ true
  pub opens : i.lock_calls.opens ≡ true
  pub writes : i.lock_calls.failed_write ≡ none
  pub migrated : i.migrated ≡ ok tt
  pub engine : i.engine ≡ ok tt
  pub watcher_started : i.watcher_started ≡ ok tt
  pub scanned : (root : FilePath) → (paths : List FilePath) × ((i.scans root).scanned ≡ ok paths)

-- The start goes on, or has ended well.
abbrev goes : Phase → Bool
goes p = is_starting p || is_running p

abbrev before_lock : Phase → Bool
before_lock Phase.at_directories = true
before_lock Phase.at_lock = true
before_lock _ = false

next_scan-goes :
    (roots : List FilePath)
    → (goes (next_scan roots) ≡ true) × (before_lock (next_scan roots) ≡ false)
next_scan-goes [] = (refl, refl)
next_scan-goes (x ∷ t) = (refl, refl)

scan_works :
    (revisit : ℕ) (i : ScanInputs) (root : FilePath) (d : Database) (paths : List FilePath)
    → i.scanned ≡ ok paths
    → (n : ℕ) × ((scan_root revisit i root ScanKind.startup TriggerKind.startup false d).0 ≡ ok n)
unfolding scan_root
scan_works revisit i root d paths e = rw e (_, refl)

module _ (F : Flock) (law : IsLawful F) (settings : Settings) (worker_id : ℕ → String)
    (i : StageInputs) (works : AllWork i) where
  abbrev IsFree : StateDir F → Type 0
  IsFree w = (h : ℕ) → F.holds w.file.kernel h ≡ false

  -- The start goes on, and the lock is free as long as it was not asked for.
  abbrev Goes : Runtime × StateDir F → Type 0
  Goes (r, w) = (goes r.phase ≡ true) × (before_lock r.phase ≡ true → IsFree w)

  advance_at-Goes :
      (p : Phase) (r : Runtime) (w : StateDir F)
      → is_starting p ≡ true
      → (before_lock p ≡ true → IsFree w)
      → Goes (advance_at F settings worker_id i p r w)
  unfolding ready acquire acquire_sync
  advance_at-Goes Phase.at_directories r w s free = rw works.directories (refl, λ _. free refl)
  advance_at-Goes Phase.at_lock r w s free =
      let got = law.granted_free w.file.next_handle w.file.kernel (free refl) in
      rw (works.awaited, works.makes_parent, works.opens, got, works.writes)
        ((refl, λ e. absurd (ground arith)))
  advance_at-Goes Phase.at_migrations r w s free =
      rw works.migrated ((refl, λ e. absurd (ground arith)))
  advance_at-Goes Phase.at_engine r w s free = rw works.engine ((refl, λ e. absurd (ground arith)))
  advance_at-Goes Phase.at_recovery r w s free = (refl, λ e. absurd (ground arith))
  advance_at-Goes Phase.at_watcher r w s free =
      let (g, b) = next_scan-goes (startup_roots settings) in
      rw works.watcher_started ((g, λ e. absurd (ground (arith, b))))
  advance_at-Goes (Phase.at_scans []) r w s free = (refl, λ e. absurd (ground arith))
  advance_at-Goes (Phase.at_scans (root ∷ t)) r w s free =
      let (g, b) = next_scan-goes t in
      let (paths, e) = works.scanned root in
      let (n, done) =
        scan_works settings.scan.revisit_after_seconds (i.scans root) root w.db paths e in
      rw done ((g, λ e. absurd (ground (arith, b))))
  advance_at-Goes Phase.at_tasks r w s free = (refl, λ e. absurd (ground arith))
  advance_at-Goes p r w s free = absurd (ground arith)

  start_on-goes :
      (n : ℕ) (r : Runtime) (w : StateDir F)
      → Goes (r, w)
      → goes (start_on F settings worker_id n i r w).0.phase ≡ true
  unfolding start_on advance
  start_on-goes zero r w g = g.0
  start_on-goes (suc n) r w g = elim (Bool-cases (is_starting r.phase)) [
    | inl b ↦
        let (r', w') = advance F settings worker_id i r w in
        rw b (start_on-goes n r' w' (advance_at-Goes r.phase r w b g.1))
    | inr b ↦ rw b g.0
  ]

  start_on-IsOnTrack :
      (n : ℕ) (r : Runtime) (w : StateDir F)
      → IsOnTrack r
      → IsOnTrack (start_on F settings worker_id n i r w).0
  unfolding start_on
  start_on-IsOnTrack zero r w t = t
  start_on-IsOnTrack (suc n) r w t = elim (Bool-cases (is_starting r.phase)) [
    | inl b ↦
        let (r', w') = advance F settings worker_id i r w in
        rw b (start_on-IsOnTrack n r' w' (advance-IsOnTrack F settings worker_id i r w t))
    | inr b ↦ rw b t
  ]

runs : (p : Phase) → is_starting p ≡ false → goes p ≡ true → p ≡ Phase.running
runs p s g = ground arith

-- A start that nothing interrupts, in which every call and every scan works, of a runtime that is
-- new and a lock that nobody has, comes to its end: the runtime runs, is ready and keeps the lock's
-- file.
pub start_works :
    (F : Flock) (law : IsLawful F) (settings : Settings) (worker_id : ℕ → String) (i : StageInputs)
    (metadata : String) (w : StateDir F)
    → AllWork i
    → ((h : ℕ) → F.holds w.file.kernel h ≡ false)
    → let r = (start F settings worker_id i (new_runtime metadata) w).0 in
      (r.phase ≡ Phase.running) × (ready r.readiness ≡ true) × (r.lock_manager.file_handle ≢ none)
unfolding start
start_works F law settings worker_id i metadata w works free =
    let n = 7 + length (startup_roots settings) in
    let r = (start_on F settings worker_id n i (new_runtime metadata) w).0 in
    let t : IsOnTrack r =
      start_on-IsOnTrack F law settings worker_id i works n (new_runtime metadata) w
        (new-IsOnTrack metadata) in
    let running = runs r.phase (start-ends F settings worker_id i metadata w) (
      start_on-goes F law settings worker_id i works n (new_runtime metadata) w
        (refl, λ _. free)) in
    (
      running,
      (flagged-ready r.phase r.readiness t.flagged).1 (rw running refl),
      t.locked (rw running refl),
    )
