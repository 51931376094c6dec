-- ===== src/Lifecycle/Start.antt =====
-- A start that no other process interrupts: it ends, and where every call works the runtime runs.
use versarr.Base.{
  Bool, Bool-cases, FilePath, List, String, [], arith, false, if◌then◌else◌, inl, inr, length, suc,
  true, zero, ℕ, ◌+◌, ◌<◌, ◌∷◌, ◌≡◌, ◌≤◌,
}
use versarr.Domain.{Result, ok, raised}
use versarr.Lifecycle.{
  Phase, Runtime, StageInputs, StateDir, advance, advance_at, after_acquire, after_stage,
  new_runtime, next_scan, ready, startup_roots,
}
use versarr.Lock.{AcquireEnd, Flock, acquire}
use versarr.Settings.{Settings}

-- Whether a stage of `start` comes next.
abbrev pub is_starting : Phase → Bool
is_starting Phase.at_directories = true
is_starting Phase.at_lock = true
is_starting Phase.at_migrations = true
is_starting Phase.at_engine = true
is_starting Phase.at_recovery = true
is_starting Phase.at_watcher = true
is_starting (Phase.at_scans _) = true
is_starting Phase.at_tasks = true
is_starting _ = false

module _ (F : Flock) (settings : Settings) (worker_id : ℕ → String) where
  -- The stages of `start` one after another, on fuel.
  unfoldable pub start_on : ℕ → StageInputs → Runtime → StateDir F → Runtime × StateDir F
  start_on zero i r w = (r, w)
  start_on (suc n) i r w =
      let (r', w') = advance F settings worker_id i r w in
      let rest = start_on n i r' w' in if is_starting r.phase then rest else (r, w)

  -- `start`: seven stages, and one for each root that is scanned.
  unfoldable pub start : StageInputs → Runtime → StateDir F → Runtime × StateDir F
  start i r w = start_on (7 + length (startup_roots settings)) i r w

  -- How many stages of `start` are left.
  abbrev stages_left : Phase → ℕ
  stages_left Phase.at_directories = 7 + length (startup_roots settings)
  stages_left Phase.at_lock = 6 + length (startup_roots settings)
  stages_left Phase.at_migrations = 5 + length (startup_roots settings)
  stages_left Phase.at_engine = 4 + length (startup_roots settings)
  stages_left Phase.at_recovery = 3 + length (startup_roots settings)
  stages_left Phase.at_watcher = 2 + length (startup_roots settings)
  stages_left (Phase.at_scans []) = 2
  stages_left (Phase.at_scans (root ∷ t)) = 2 + length t
  stages_left Phase.at_tasks = 1
  stages_left _ = 0

  -- How many the next one leaves at most.
  abbrev left_after : Phase → ℕ
  left_after Phase.at_directories = 6 + length (startup_roots settings)
  left_after Phase.at_lock = 5 + length (startup_roots settings)
  left_after Phase.at_migrations = 4 + length (startup_roots settings)
  left_after Phase.at_engine = 3 + length (startup_roots settings)
  left_after Phase.at_recovery = 2 + length (startup_roots settings)
  left_after Phase.at_watcher = 1 + length (startup_roots settings)
  left_after (Phase.at_scans []) = 1
  left_after (Phase.at_scans (root ∷ t)) = 1 + length t
  left_after _ = 0

  left_after_less : (p : Phase) → is_starting p ≡ true → left_after p < stages_left p
  left_after_less p e = ground arith

  next_scan-left : (roots : List FilePath) → stages_left (next_scan roots) ≤ 1 + length roots
  next_scan-left [] = omega arith
  next_scan-left (x ∷ t) = omega arith

  after_stage-left :
      {A : Type 0} (n : ℕ) (x : Result A) (next r : Runtime)
      → stages_left next.phase ≤ n
      → stages_left (after_stage x next r).phase ≤ n
  after_stage-left n (ok _) next r h = h
  after_stage-left n (raised _) next r h = omega arith

  after_acquire-left :
      (done : AcquireEnd) (r : Runtime)
      → stages_left (after_acquire done r).phase ≤ 5 + length (startup_roots settings)
  after_acquire-left (AcquireEnd.acquired _) r = omega arith
  after_acquire-left (AcquireEnd.held _) r = omega arith
  after_acquire-left AcquireEnd.failed r = omega arith
  after_acquire-left AcquireEnd.cancelled r = omega arith

  advance_at-left :
      (i : StageInputs) (p : Phase) (r : Runtime) (w : StateDir F)
      → is_starting p ≡ true
      → stages_left (advance_at F settings worker_id i p r w).0.phase ≤ left_after p
  unfolding ready
  advance_at-left i Phase.at_directories r w e = after_stage-left _ i.directories _ r (omega arith)
  advance_at-left i Phase.at_lock r w e =
      after_acquire-left (acquire F i.lock_wait i.lock_calls r.lock_manager w.file).0 _
  advance_at-left i Phase.at_migrations r w e = after_stage-left _ i.migrated _ r (omega arith)
  advance_at-left i Phase.at_engine r w e = after_stage-left _ i.engine _ r (omega arith)
  advance_at-left i Phase.at_recovery r w e = omega arith
  advance_at-left i Phase.at_watcher r w e =
      after_stage-left _ i.watcher_started _ r (next_scan-left (startup_roots settings))
  advance_at-left i (Phase.at_scans []) r w e = omega arith
  advance_at-left i (Phase.at_scans (root ∷ t)) r w e = after_stage-left _ _ _ r (next_scan-left t)
  advance_at-left i Phase.at_tasks r w e = omega arith
  advance_at-left i p r w e = absurd (ground arith)

  none_left : (p : Phase) → stages_left p ≤ 0 → is_starting p ≡ false
  none_left p h = ground arith

  start_on-ends :
      (n : ℕ) (i : StageInputs) (r : Runtime) (w : StateDir F)
      → stages_left r.phase ≤ n
      → is_starting (start_on n i r w).0.phase ≡ false
  unfolding start_on advance
  start_on-ends zero i r w h = none_left r.phase h
  start_on-ends (suc n) i r w h = elim (Bool-cases (is_starting r.phase)) [
    | inl b ↦
        let (r', w') = advance F settings worker_id i r w in
        let left = advance_at-left i r.phase r w b in
        let less = left_after_less r.phase b in rw b (start_on-ends n i r' w' (omega arith))
    | inr b ↦ rw b b
  ]

-- Whatever its calls answer, a start that nothing interrupts ends after seven stages and one for
-- each root to be scanned: no stage of it is left.
pub start-ends :
    (F : Flock) (settings : Settings) (worker_id : ℕ → String) (i : StageInputs) (metadata : String)
    (w : StateDir F)
    → is_starting (start F settings worker_id i (new_runtime metadata) w).0.phase ≡ false
unfolding start
start-ends F settings worker_id i metadata w =
    start_on-ends F settings worker_id (7 + length (startup_roots settings)) i
      (new_runtime metadata) w (omega arith)
