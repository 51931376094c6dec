-- ===== src/Lifecycle/Once.antt =====
-- `VersarrRuntime.run_scan_once` of src/versarr/bootstrap.py: a scan of every root, and turns of a
-- worker until no job is ready.
use versarr.Base.{FilePath, List, Option, [], if◌then◌else◌, none, some, suc, true, ℕ, ◌∷◌}
use versarr.Domain.{Raised, Result, ScanKind, TriggerKind, ok, raised}
use versarr.Lifecycle.{released}
use versarr.Lock.{AcquireEnd, Flock, LockFile, Manager, SystemCalls, ThreadWait, acquire, release}
use versarr.Processor.Inputs.{Inputs, Services}
use versarr.Processor.Monad.{World}
use versarr.Processor.Worker.{Clock, process_next}
use versarr.Reconciliation.Scan.{ScanInputs, scan_root}
use versarr.Schema.{Database}
use versarr.Settings.{Settings}

-- What one turn of the worker hears.
pub record Turn : Type 0 where
  pub inputs : Inputs
  pub clock : Clock

-- What the run hears. The turns are as many as are looked at.
pub record OnceInputs : Type 0 where
  pub directories : Result (Unit {0})
  pub acquire_wait : ThreadWait
  pub acquire_calls : SystemCalls
  pub prepared : Result (Unit {0})
  pub scans : FilePath → ScanInputs
  pub turns : List Turn
  pub provider_closed : Result (Unit {0})
  pub release_wait : ThreadWait
  pub release_calls : SystemCalls

-- The loop over the roots: the first error ends it.
unfoldable pub scan_all :
    ℕ → (FilePath → ScanInputs) → List FilePath → Database → Result (Unit {0}) × Database
scan_all revisit inputs [] d = (ok tt, d)
scan_all revisit inputs (root ∷ t) d =
    let (done, d') =
      scan_root revisit (inputs root) root ScanKind.reconciliation TriggerKind.manual_rescan true
        d in
    elim done [ ok n ↦ scan_all revisit inputs t d' | raised e ↦ (raised e, d') ]

abbrev pub count_job : Option (Result ℕ) × World → Option (Result ℕ) × World
count_job (some (ok n), w) = (some (ok (suc n)), w)
count_job (some (raised e), w) = (some (raised e), w)
count_job (none, w) = (none, w)

module _ (services : Services) (settings : Settings) where
  -- The loop over the jobs: their number, none where it goes on after the turns that are given.
  unfoldable pub process_all : List Turn → World → Option (Result ℕ) × World
  process_all [] w = (none, w)
  process_all (turn ∷ t) w =
      let (done, w') = process_next services settings turn.inputs turn.clock "scan-once" w in
      elim done [
        | ok more ↦ if more then count_job (process_all t w') else (some (ok 0), w')
        | raised e ↦ (some (raised e), w')
      ]

  abbrev pub process_scanned :
      List Turn → Result (Unit {0}) × Database → World → Option (Result ℕ) × World
  process_scanned turns (ok _, d) w = process_all turns (record w { db = d })
  process_scanned turns (raised e, d) w = (some (raised e), record w { db = d })

  -- The body of the `try`.
  abbrev pub scan_and_process :
      ℕ → OnceInputs → Result (Unit {0}) → World → Option (Result ℕ) × World
  scan_and_process revisit i (raised e) w = (some (raised e), w)
  scan_and_process revisit i (ok _) w =
      process_scanned i.turns (scan_all revisit i.scans settings.library_roots w.db) w

-- How a `finally` that may raise leaves the end of its `try`.
abbrev pub finally_raised : {A : Type 0} → Result (Unit {0}) → Result A → Result A
finally_raised (ok _) done = done
finally_raised (raised e) done = raised e

module _ (F : Flock) where
  -- The `finally`: a provider that cannot be closed keeps the lock from being released.
  abbrev pub close_once :
      OnceInputs
      → Result (Unit {0})
      → Result ℕ
      → Manager
      → LockFile F
      → Result ℕ × Manager × LockFile F
  close_once i (raised e) done m f = (raised e, m, f)
  close_once i (ok _) done m f =
      let (released, m', f') = release F i.release_wait i.release_calls m f in
      (finally_raised released done, m', f')

  abbrev pub end_once :
      OnceInputs
      → Option (Result ℕ) × World
      → Manager
      → LockFile F
      → Option (Result ℕ) × Manager × LockFile F × World
  end_once i (none, w) m f = (none, m, f, w)
  end_once i (some done, w) m f =
      let (done', m', f') = close_once i i.provider_closed done m f in (some done', m', f', w)

  -- From the acquire on. Where it ends in any other way the `try` is not entered.
  abbrev pub with_lock :
      Services
      → Settings
      → ℕ
      → OnceInputs
      → AcquireEnd
      → Manager
      → LockFile F
      → World
      → Option (Result ℕ) × Manager × LockFile F × World
  with_lock services settings revisit i (AcquireEnd.acquired _) m f w =
      end_once i (scan_and_process services settings revisit i i.prepared w) m f
  with_lock services settings revisit i (AcquireEnd.held _) m f w =
      (some (raised (Raised.other_error "RuntimeError")), m, f, w)
  with_lock services settings revisit i AcquireEnd.failed m f w =
      (some (raised (Raised.os_error "OSError")), m, f, w)
  with_lock services settings revisit i AcquireEnd.cancelled m f w =
      (some (raised Raised.cancelled), m, f, w)

  abbrev pub once_with :
      Services
      → Settings
      → ℕ
      → OnceInputs
      → Result (Unit {0})
      → Manager
      → LockFile F
      → World
      → Option (Result ℕ) × Manager × LockFile F × World
  once_with services settings revisit i (raised e) m f w = (some (raised e), m, f, w)
  once_with services settings revisit i (ok _) m f w =
      let (done, m', f') = acquire F i.acquire_wait i.acquire_calls m f in
      with_lock services settings revisit i done m' f' w

  -- `run_scan_once`: how it ends, none where it goes on, with the lock and the database.
  unfoldable pub run_scan_once :
      Services
      → Settings
      → ℕ
      → OnceInputs
      → Manager
      → LockFile F
      → World
      → Option (Result ℕ) × Manager × LockFile F × World
  run_scan_once services settings revisit i m f w =
      once_with services settings revisit i i.directories m f w
