-- ===== src/Lifecycle/Instances.antt =====
-- Several processes on one state directory, each with a runtime, whose stages come in any order.
use versarr.Base.{
  Bool, List, Option, Option-cases, String, [], ap, arith, false, if◌then◌else◌, inl, inr, nat_eq,
  not, path_eq, refl, some, string_eq, true, ℕ, ◌&&◌, ◌==◌, ◌↔◌, ◌∷◌, ◌≡◌,
}
use versarr.Lifecycle.{
  Phase, Runtime, StageInputs, StateDir, advance, advance_at, new_runtime, ready, ready_response,
  runtime_healthy,
}
use versarr.Lifecycle.Phases.{
  IsOnTrack, advance-IsOnTrack, flagged-ready, is_running, keeps_lock, new-IsOnTrack,
}
use versarr.Lifecycle.Stages.{advance_at-Guards, file_of}
use versarr.Lock.{Flock, IsLawful}
use versarr.Lock.Guard.{free-IsGuarded, replaced, same-IsGuarded}
use versarr.Lock.Moves.{Guards}
use versarr.Settings.{Settings}

-- The runtimes by number, and what they share.
pub record Processes (F : Flock) : Type 0 where
  pub runtime : ℕ → Runtime
  pub dir : StateDir F

replaced-all :
    {A : Type 0} (P : A → Type 0) (j : ℕ) (a : A) (f : ℕ → A)
    → P a
    → ((k : ℕ) → P (f k))
    → (k : ℕ) → P (replaced j a f k)
replaced-all P j a f p all k = either_way (k == j)
  where
    either_way : (b : Bool) → P (if b then a else f k)
    either_way true = p
    either_way false = all k

file-if :
    (b : Bool) (r q : Runtime) → file_of (if b then r else q) ≡ (if b then file_of r else file_of q)
file-if true r q = refl
file-if false r q = refl

file-replaced :
    (j k : ℕ) (r : Runtime) (f : ℕ → Runtime)
    → file_of (replaced j r f k) ≡ replaced j (file_of r) (λ x. file_of (f x)) k
file-replaced j k r f = file-if (k == j) r (f k)

running_keeps : (p : Phase) → is_running p ≡ true → keeps_lock p ≡ true
running_keeps p h = ground arith

-- A runtime that is ready keeps the lock's file.
ready_file : (r : Runtime) → IsOnTrack r → ready r.readiness ≡ true → (h : ℕ) × (file_of r ≡ some h)
ready_file r t e =
    let runs = (flagged-ready r.phase r.readiness t.flagged).0 e in
    elim (Option-cases (file_of r)) [
      | inl free ↦ absurd (t.locked (running_keeps r.phase runs) free)
      | inr kept ↦ kept
    ]

module _ (F : Flock) (settings : Settings) (worker_id : ℕ → String) where
  unfoldable pub run_stage : ℕ × StageInputs → Processes F → Processes F
  run_stage (j, i) s =
      let (r, w) = advance F settings worker_id i (s.runtime j) s.dir in
      record { runtime = replaced j r s.runtime; dir = w }

  unfoldable pub run_stages : List (ℕ × StageInputs) → Processes F → Processes F
  run_stages [] s = s
  run_stages (x ∷ t) s = run_stages t (run_stage x s)

  -- Every runtime is new, and nobody has the lock.
  abbrev pub IsNew : Processes F → Type 0
  IsNew s =
      ((j : ℕ) → (metadata : String) × (s.runtime j ≡ new_runtime metadata))
      × ((h : ℕ) → F.holds s.dir.file.kernel h ≡ false)

  abbrev files : (ℕ → Runtime) → ℕ → Option ℕ
  files f j = file_of (f j)

  -- Every runtime is on track, and the lock is guarded.
  pub record IsConsistent (law : IsLawful F) (s : Processes F) : Type 0 where
    pub tracked : (j : ℕ) → IsOnTrack (s.runtime j)
    pub guarded : Guards F law (files s.runtime) s.dir.file

  module _ (law : IsLawful F) where
    run_stage-IsConsistent :
        (x : ℕ × StageInputs) (s : Processes F)
        → IsConsistent law s
        → IsConsistent law (run_stage x s)
    unfolding run_stage advance
    run_stage-IsConsistent (j, i) s t =
        let r = s.runtime j in
        let (r', w) = advance_at F settings worker_id i r.phase r s.dir in
        record {
          tracked = λ k.
              replaced-all IsOnTrack j r' s.runtime
                (advance-IsOnTrack F settings worker_id i r s.dir (t.tracked j)) t.tracked k;
          guarded =
              same-IsGuarded F law (replaced j (file_of r') (files s.runtime))
                (files (replaced j r' s.runtime)) w.file.kernel w.file.next_handle
                (λ k. file-replaced j k r' s.runtime)
                (advance_at-Guards F settings worker_id law j (files s.runtime) i r.phase r s.dir
                  refl t.guarded);
        }

    run_stages-IsConsistent :
        (xs : List (ℕ × StageInputs)) (s : Processes F)
        → IsConsistent law s
        → IsConsistent law (run_stages xs s)
    unfolding run_stages
    run_stages-IsConsistent [] s t = t
    run_stages-IsConsistent (x ∷ xs) s t =
        run_stages-IsConsistent xs (run_stage x s) (run_stage-IsConsistent x s t)

    new-IsConsistent : (s : Processes F) → IsNew s → IsConsistent law s
    new-IsConsistent s (new, unlocked) = record {
      tracked = λ j. let (metadata, e) = new j in rw e (new-IsOnTrack metadata);
      guarded =
          free-IsGuarded F law (files s.runtime) s.dir.file.kernel s.dir.file.next_handle
            (λ j. let (metadata, e) = new j in rw e refl) unlocked;
    }

running_iff : (p : Phase) → (is_running p ≡ true) ↔ (p ≡ Phase.running)
running_iff p = ground arith

both_iff : (a b : Bool) → (a && b ≡ true) ↔ ((a ≡ true) × (b ≡ true))
both_iff a b = ground arith

answer_iff :
    (b : Bool)
    → ◌≡◌ {A = ℕ × String} (if not b then (503, "not_ready") else (200, "ready")) (200, "ready")
      ↔ (b ≡ true)
answer_iff true = (λ _. refl, λ _. refl)
answer_iff false = (
  λ e. absurd (let c : ◌≡◌ {A = ℕ} 503 200 = ap (λ (x : ℕ × String). x.0) e in omega (arith, c)),
  λ e. absurd (ground arith),
)

ready_response_iff :
    (r : Runtime)
    → IsOnTrack r
    → (ready_response r ≡ (200, "ready")) ↔ ((r.phase ≡ Phase.running) × (runtime_healthy r ≡ true))
unfolding ready_response
ready_response_iff r t =
    let answer = answer_iff (ready r.readiness && runtime_healthy r) in
    let both = both_iff (ready r.readiness) (runtime_healthy r) in
    let flagged = flagged-ready r.phase r.readiness t.flagged in
    let runs = running_iff r.phase in
    (
      λ e. let (a, b) = both.0 (answer.0 e) in (runs.0 (flagged.0 a), b),
      λ (e, h). answer.1 (both.1 (flagged.1 (runs.1 e), h)),
    )

-- Whatever stages of starts and stops the processes of one state directory have gone through, /ready
-- answers 200 of a runtime exactly if its start has come to its end, its stop has not begun and it
-- is healthy, where every runtime was new and nobody had the lock.
pub run_stages-ready_iff :
    (F : Flock) (law : IsLawful F) (settings : Settings) (worker_id : ℕ → String)
    (xs : List (ℕ × StageInputs)) (s : Processes F) (j : ℕ)
    → IsNew F settings worker_id s
    → let r = (run_stages F settings worker_id xs s).runtime j in
      (ready_response r ≡ (200, "ready")) ↔ ((r.phase ≡ Phase.running) × (runtime_healthy r ≡ true))
unfolding ready_response
run_stages-ready_iff F law settings worker_id xs s j new =
    let t =
      run_stages-IsConsistent F settings worker_id law xs s
        (new-IsConsistent F settings worker_id law s new) in
    ready_response_iff ((run_stages F settings worker_id xs s).runtime j) (t.tracked j)

-- Whatever stages of starts and stops the processes of one state directory have gone through, in
-- whatever order, two runtimes that are ready are the same one, where every runtime was new, nobody
-- had the lock, and the kernel's lock behaves as documented.
pub one_ready :
    (F : Flock) (law : IsLawful F) (settings : Settings) (worker_id : ℕ → String)
    (xs : List (ℕ × StageInputs)) (s : Processes F) (j k : ℕ)
    → IsNew F settings worker_id s
    → let s' = run_stages F settings worker_id xs s in
      ready (s'.runtime j).readiness ≡ true → ready (s'.runtime k).readiness ≡ true → j ≡ k
one_ready F law settings worker_id xs s j k new a b =
    let s' = run_stages F settings worker_id xs s in
    let t =
      run_stages-IsConsistent F settings worker_id law xs s
        (new-IsConsistent F settings worker_id law s new) in
    let (h, x) = ready_file (s'.runtime j) (t.tracked j) a in
    let (g, y) = ready_file (s'.runtime k) (t.tracked k) b in t.guarded.one j k h g x y
