-- ===== src/Lock.antt =====
-- `FileLockManager` of src/versarr/infrastructure/filesystem/locking.py, in its branch for systems with
-- `flock`. What the kernel does with the lock is an interface.
pub mod Kernel
pub mod Guard
pub mod Moves
pub mod Restores
pub mod Exclusion
mod Tests
use versarr.Base.{
  Bool, Bool-cases, Option, Option-cases, String, arith, false, if◌then◌else◌, inl, inr, nat_eq,
  none, not, path_eq, refl, some, string_eq, true, ℕ, ◌+◌, ◌==◌, ◌||◌, ◌≡◌, ◌≢◌,
}
use versarr.Domain.{Raised, Result, ok, raised}

-- `flock` on open files, each named by a number: `lock` with LOCK_EX and LOCK_NB, `unlock` with
-- LOCK_UN, and `close`; whether the kernel holds the lock for an open file is what it answers by.
pub record Flock : Type 1 where
  pub State : Type 0
  pub lock : ℕ → State → Bool × State
  pub unlock : ℕ → State → State
  pub close : ℕ → State → State
  pub holds : State → ℕ → Bool

-- The documented behaviour: an exclusive lock is granted if no open file has it, and only if no other
-- one has, a refused call changes nothing, and the lock goes with LOCK_UN and with the last close.
pub record IsLawful (F : Flock) : Type 0 where
  pub holds-lock :
      (h j : ℕ) (k : F.State)
      → (F.lock h k).0 ≡ true
      → F.holds (F.lock h k).1 j ≡ (if j == h then true else F.holds k j)
  pub granted_alone : (h j : ℕ) (k : F.State) → (F.lock h k).0 ≡ true → F.holds k j ≡ true → j ≡ h
  pub holds-refused :
      (h j : ℕ) (k : F.State) → (F.lock h k).0 ≡ false → F.holds (F.lock h k).1 j ≡ F.holds k j
  pub granted_free : (h : ℕ) (k : F.State) → ((j : ℕ) → F.holds k j ≡ false) → (F.lock h k).0 ≡ true
  pub holds-unlock :
      (h j : ℕ) (k : F.State) → F.holds (F.unlock h k) j ≡ (if j == h then false else F.holds k j)
  pub holds-close :
      (h j : ℕ) (k : F.State) → F.holds (F.close h k) j ≡ (if j == h then false else F.holds k j)

pub record Manager : Type 0 where
  pub file_handle : Option ℕ
  pub holder_metadata : String

abbrev pub new_manager : String → Manager
new_manager metadata = record { file_handle = none; holder_metadata = metadata }

-- The other calls of an acquire or a release, each of which may raise an `OSError`: the directory, the
-- file's opening, its text where it can be read, what a failing write leaves in it (none where the
-- write works), and LOCK_UN.
pub record SystemCalls : Type 0 where
  pub makes_parent : Bool
  pub opens : Bool
  pub reads : Bool
  pub failed_write : Option String
  pub unlocks : Bool

pub record LockHandle : Type 0 where
  pub holder_metadata : String

-- How the wait for a call in a thread ends (`asyncio.to_thread`): with the call, or cancelled before
-- the thread took the call up, which is then never made, or while it makes it, which it goes on with.
pub data ThreadWait : Type 0 where
  awaited cancelled_queued cancelled_running : ThreadWait

-- How an acquire ends: with the handle, with the `RuntimeError` that names the holder, with an
-- `OSError`, or cancelled.
pub data AcquireEnd : Type 0 where
  acquired : LockHandle → AcquireEnd
  held : String → AcquireEnd
  failed cancelled : AcquireEnd

-- What the managers share: the kernel, the text of the lock file, and the number of the next file
-- to be opened.
pub record LockFile (F : Flock) : Type 0 where
  pub kernel : F.State
  pub text : String
  pub next_handle : ℕ

module _ (F : Flock) where
  -- `_read_holder_metadata`.
  abbrev pub read_holder_metadata : SystemCalls → LockFile F → String
  read_holder_metadata c w = if c.reads then w.text else "unknown"

  -- The kernel granted the lock of the file that was opened: the manager and the end. Where the write
  -- fails, nothing but the exception has the file, and with it Python closes it.
  abbrev pub take_lock :
      ℕ → Option String → Manager → LockFile F → AcquireEnd × Manager × LockFile F
  take_lock h none m w = (
    AcquireEnd.acquired (record { holder_metadata = m.holder_metadata }),
    record m { file_handle = some h },
    record w { text = m.holder_metadata },
  )
  take_lock h (some left) m w =
      (AcquireEnd.failed, m, record w { kernel = F.close h w.kernel; text = left })

  abbrev pub ask_lock : SystemCalls → Manager → LockFile F → AcquireEnd × Manager × LockFile F
  ask_lock c m w =
      let h = w.next_handle in
      let (granted, kernel) = F.lock h w.kernel in
      if granted
      then take_lock h c.failed_write m (record w { kernel = kernel; next_handle = h + 1 })
      else (
        AcquireEnd.held (read_holder_metadata c w),
        m,
        record w { kernel = F.close h kernel; next_handle = h + 1 },
      )

  -- `_acquire_sync`.
  unfoldable pub acquire_sync :
      SystemCalls → Manager → LockFile F → AcquireEnd × Manager × LockFile F
  acquire_sync c m w =
      if not c.makes_parent || not c.opens then (AcquireEnd.failed, m, w) else ask_lock c m w

  abbrev pub release_handle :
      SystemCalls → Option ℕ → Manager → LockFile F → Result (Unit {0}) × Manager × LockFile F
  release_handle c none m w = (ok tt, m, w)
  release_handle c (some h) m w =
      if c.unlocks
      then (
        ok tt,
        record m { file_handle = none },
        record w { kernel = F.close h (F.unlock h w.kernel) },
      )
      else (
        raised (Raised.os_error "OSError"),
        record m { file_handle = none },
        record w { kernel = F.close h w.kernel },
      )

  -- `_release_sync`: the file is closed also where LOCK_UN fails.
  unfoldable pub release_sync :
      SystemCalls → Manager → LockFile F → Result (Unit {0}) × Manager × LockFile F
  release_sync c m w = release_handle c m.file_handle m w

  -- `acquire`: a file that the thread locks after a cancellation stays with the manager.
  unfoldable pub acquire :
      ThreadWait → SystemCalls → Manager → LockFile F → AcquireEnd × Manager × LockFile F
  acquire ThreadWait.awaited c m w = acquire_sync c m w
  acquire ThreadWait.cancelled_queued c m w = (AcquireEnd.cancelled, m, w)
  acquire ThreadWait.cancelled_running c m w =
      let (_, m', w') = acquire_sync c m w in (AcquireEnd.cancelled, m', w')

  -- `release`.
  unfoldable pub release :
      ThreadWait → SystemCalls → Manager → LockFile F → Result (Unit {0}) × Manager × LockFile F
  release ThreadWait.awaited c m w = release_sync c m w
  release ThreadWait.cancelled_queued c m w = (raised Raised.cancelled, m, w)
  release ThreadWait.cancelled_running c m w =
      let (_, m', w') = release_sync c m w in (raised Raised.cancelled, m', w')

  -- An acquire that succeeds keeps the file.
  acquire_sync-acquired :
      (c : SystemCalls) (m : Manager) (w : LockFile F) (x : LockHandle)
      → (acquire_sync c m w).0 ≡ AcquireEnd.acquired x
      → (acquire_sync c m w).1.file_handle ≢ none
  unfolding acquire_sync
  acquire_sync-acquired c m w x e none_kept = ground arith

  pub acquire-acquired :
      (wait : ThreadWait) (c : SystemCalls) (m : Manager) (w : LockFile F) (x : LockHandle)
      → (acquire wait c m w).0 ≡ AcquireEnd.acquired x
      → (acquire wait c m w).1.file_handle ≢ none
  unfolding acquire
  acquire-acquired ThreadWait.awaited c m w x e = acquire_sync-acquired c m w x e
  acquire-acquired ThreadWait.cancelled_queued c m w x e = absurd (ground (arith, e))
  acquire-acquired ThreadWait.cancelled_running c m w x e = absurd (ground (arith, e))

  -- One that does not succeed keeps what the manager had.
  pub acquire_sync-unacquired :
      (c : SystemCalls) (m : Manager) (w : LockFile F)
      → ((x : LockHandle) → (acquire_sync c m w).0 ≢ AcquireEnd.acquired x)
      → (acquire_sync c m w).1.file_handle ≡ m.file_handle
  unfolding acquire_sync
  acquire_sync-unacquired c m w idle = elim (Bool-cases (not c.makes_parent || not c.opens)) [
    | inl early ↦ rw early refl
    | inr goes ↦ elim (Bool-cases (F.lock w.next_handle w.kernel).0) [
      | inl got ↦ elim (Option-cases c.failed_write) [
        | inl works ↦ absurd (rw (goes, got, works) at idle _ refl)
        | inr (left, fails) ↦ rw (goes, got, fails) refl
      ]
      | inr refused ↦ rw (goes, refused) refl
    ]
  ]
