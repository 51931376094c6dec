-- ===== src/Lifecycle/Released.antt =====
-- What a single scan queues, and that it gives the lock back.
use versarr.Base.{
  Bool-cases, FilePath, List, Option, [], arith, beq→eq, false, inl, inr, member, nat_eq, none,
  path_eq, refl, some, string_eq, subst, sym, true, ℕ, ◌==◌, ◌∙◌, ◌∷◌, ◌≡◌, ◌≢◌,
}
use versarr.Domain.{Result, Result-cases, ScanKind, TriggerKind, ok, raised}
use versarr.Lifecycle.Once.{
  OnceInputs, end_once, once_with, run_scan_once, scan_all, scan_and_process, with_lock,
}
use versarr.Lock.{
  AcquireEnd, Flock, IsLawful, LockFile, LockHandle, Manager, ThreadWait, acquire, release,
}
use versarr.Lock.Restores.{acquire-restores, release-restores}
use versarr.Processor.Inputs.{Services}
use versarr.Processor.Monad.{World}
use versarr.Reconciliation.Queued.{has_queued, ingest_all-queues}
use versarr.Reconciliation.Scan.{
  ScanInputs, ingest_all, mark_gone, scan_enqueue, scan_root, scan_started, scan_with, to_evaluate,
}
use versarr.Runtime.Scans.{mark_gone-jobs, scan_with-keeps}
use versarr.Schema.{Database}
use versarr.Settings.{Settings}

abbrev scanned_all : ℕ → (FilePath → ScanInputs) → FilePath → Database → Result ℕ × Database
scanned_all revisit inputs root =
    scan_root revisit (inputs root) root ScanKind.reconciliation TriggerKind.manual_rescan true

module _ (revisit : ℕ) (inputs : FilePath → ScanInputs) where
  scanned_all-keeps :
      (root k : FilePath) (d : Database)
      → has_queued k d.jobs ≡ true
      → has_queued k (scanned_all revisit inputs root d).1.jobs ≡ true
  unfolding scan_root
  scanned_all-keeps root k d h =
      scan_with-keeps revisit (inputs root) root ScanKind.reconciliation TriggerKind.manual_rescan
        (inputs root).scanned true k (scan_started (inputs root) root ScanKind.reconciliation d) h

  scanned_all-queues :
      (root k : FilePath) (candidates : List FilePath) (d : Database)
      → (inputs root).scanned ≡ ok candidates
      → member k candidates ≡ true
      → has_queued k (scanned_all revisit inputs root d).1.jobs ≡ true
  unfolding scan_root to_evaluate
  scanned_all-queues root k candidates d c found =
      let i = inputs root in
      let call = scan_enqueue root ScanKind.reconciliation TriggerKind.manual_rescan in
      let d0 = scan_started i root ScanKind.reconciliation d in
      let gone : has_queued k
            (mark_gone i root candidates (ingest_all i.queued_at call candidates d0)).jobs
          ≡ true =
        rw (mark_gone-jobs i root candidates (ingest_all i.queued_at call candidates d0))
          (ingest_all-queues i.queued_at call candidates k d0 (λ _. refl) found) in
      subst
        (λ r.
          has_queued k
            (scan_with revisit i root ScanKind.reconciliation TriggerKind.manual_rescan true r
              d0).1.jobs
          ≡ true)
        (sym c) gone

  scan_all-keeps :
      (k : FilePath) (roots : List FilePath) (d : Database)
      → has_queued k d.jobs ≡ true
      → has_queued k (scan_all revisit inputs roots d).1.jobs ≡ true
  unfolding scan_all
  scan_all-keeps k [] d h = h
  scan_all-keeps k (root ∷ t) d h =
      let kept = scanned_all-keeps root k d h in
      elim (Result-cases (scanned_all revisit inputs root d).0) [
        | inl (n, e) ↦ rw (scan_all, e) (scan_all-keeps k t _ kept)
        | inr (x, e) ↦ rw (scan_all, e) kept
      ]

  scanned_all-ok :
      (root : FilePath) (d : Database) (candidates : List FilePath)
      → (inputs root).scanned ≡ ok candidates
      → (n : ℕ) × ((scanned_all revisit inputs root d).0 ≡ ok n)
  unfolding scan_root
  scanned_all-ok root d candidates e = rw e (_, refl)

-- Where every root can be scanned, the scans of a single run leave each file that one of them finds
-- with a job that is pending, or processing and dirty.
pub scan_all-queues :
    (revisit : ℕ) (inputs : FilePath → ScanInputs) (roots : List FilePath) (root k : FilePath)
    (candidates : List FilePath) (d : Database)
    → ((r : FilePath) → (paths : List FilePath) × ((inputs r).scanned ≡ ok paths))
    → member root roots ≡ true
    → (inputs root).scanned ≡ ok candidates
    → member k candidates ≡ true
    → has_queued k (scan_all revisit inputs roots d).1.jobs ≡ true
unfolding member scan_all
scan_all-queues revisit inputs [] root k candidates d works m c found = absurd (cc)
scan_all-queues revisit inputs (r ∷ t) root k candidates d works m c found =
    let (paths, here) = works r in
    let (n, e) = scanned_all-ok revisit inputs r d paths here in
    elim (Bool-cases (root == r)) [
      | inl same ↦
          rw (scan_all, e)
            (scan_all-keeps revisit inputs k t _ (
              subst (λ j. has_queued k (scanned_all revisit inputs j d).1.jobs ≡ true)
                (beq→eq root r same)
                (scanned_all-queues revisit inputs root k candidates d c found)))
      | inr other ↦
          rw (scan_all, e)
            (scan_all-queues revisit inputs t root k candidates _ works (rw other at m) c found)
    ]

-- The manager has no file, and the kernel holds what it held.
abbrev pub IsRestored : (F : Flock) → F.State → Manager → LockFile F → Type 0
IsRestored F k m f = (m.file_handle ≡ none) × ((h : ℕ) → F.holds f.kernel h ≡ F.holds k h)

module _ (F : Flock) (k : F.State) (i : OnceInputs) (closes : i.provider_closed ≡ ok tt) where
  end_once-restores :
      (x : Option (Result ℕ) × World) (m : Manager) (f : LockFile F)
      → let (_, m', f') = release F i.release_wait i.release_calls m f in
        IsRestored F k m' f'
        → let (done, m'', f'', _) = end_once F i x m f in done ≢ none → IsRestored F k m'' f''
  end_once-restores (none, w) m f h ends = absurd (ends refl)
  end_once-restores (some done, w) m f h ends = rw closes h

  with_lock-restores :
      (services : Services) (settings : Settings) (revisit : ℕ) (a : AcquireEnd) (m : Manager)
      (f : LockFile F) (w : World)
      → (((x : LockHandle) → a ≢ AcquireEnd.acquired x) → IsRestored F k m f)
      → ((x : LockHandle)
          → a ≡ AcquireEnd.acquired x
          → let (_, m', f') = release F i.release_wait i.release_calls m f in IsRestored F k m' f')
      → let (done, m', f', _) = with_lock F services settings revisit i a m f w in
        done ≢ none → IsRestored F k m' f'
  with_lock-restores services settings revisit (AcquireEnd.acquired x) m f w idle kept ends =
      end_once-restores (scan_and_process services settings revisit i i.prepared w) m f
        (kept x refl) ends
  with_lock-restores services settings revisit (AcquireEnd.held x) m f w idle kept ends =
      idle (λ y e. absurd (ground arith))
  with_lock-restores services settings revisit AcquireEnd.failed m f w idle kept ends =
      idle (λ y e. absurd (ground arith))
  with_lock-restores services settings revisit AcquireEnd.cancelled m f w idle kept ends =
      idle (λ y e. absurd (ground arith))

module _ (F : Flock) (law : IsLawful F) (services : Services) (settings : Settings) (revisit : ℕ)
    (i : OnceInputs) (m : Manager) (f : LockFile F) (w : World)
    (unused : F.holds f.kernel f.next_handle ≡ false) (closes : i.provider_closed ≡ ok tt)
    (made : i.release_wait ≢ ThreadWait.cancelled_queued) (free : m.file_handle ≡ none) where
  once_with-restores :
      (r : Result (Unit {0}))
      → i.acquire_wait ≢ ThreadWait.cancelled_running
      → let (done, m', f', _) = once_with F services settings revisit i r m f w in
        done ≢ none → IsRestored F f.kernel m' f'
  once_with-restores (raised e) q ends = (free, λ h. refl)
  once_with-restores (ok _) q ends =
      let (a, m', f') = acquire F i.acquire_wait i.acquire_calls m f in
      with_lock-restores F f.kernel i closes services settings revisit a m' f' w
        (λ idle.
          let (same, held) =
            acquire-restores F law i.acquire_calls m f unused i.acquire_wait q idle in
          (same ∙ free, held))
        (release-restores F law i.acquire_calls m f unused i.acquire_wait i.release_wait made
          i.release_calls)
        ends

-- However a single scan ends, also by an error, a refused or failed acquire or a cancellation of its
-- work, its manager has no file afterwards and the kernel holds the lock for exactly the open files
-- that it held it for before, where the manager had no file, the next file's number is not in use,
-- the provider can be closed, no cancellation falls into the acquire while its thread makes it or
-- into the release before its thread makes it, no other process calls the lock meanwhile, and the
-- kernel's lock behaves as documented.
pub run_scan_once-releases :
    (F : Flock) (law : IsLawful F) (services : Services) (settings : Settings) (revisit : ℕ)
    (i : OnceInputs) (m : Manager) (f : LockFile F) (w : World)
    → F.holds f.kernel f.next_handle ≡ false
    → i.provider_closed ≡ ok tt
    → i.acquire_wait ≢ ThreadWait.cancelled_running
    → i.release_wait ≢ ThreadWait.cancelled_queued
    → m.file_handle ≡ none
    → let (done, m', f', _) = run_scan_once F services settings revisit i m f w in
      done ≢ none → IsRestored F f.kernel m' f'
unfolding run_scan_once
run_scan_once-releases F law services settings revisit i m f w unused closes waits made free =
    once_with-restores F law services settings revisit i m f w unused closes made free i.directories
      waits
