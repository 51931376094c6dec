-- ===== src/Lock/Restores.antt =====
-- What the kernel holds after an acquire that failed, or after one and a release.
use versarr.Base.{
  Bool-cases, Option-cases, arith, beq→eq, false, inl, inr, nat_eq, none, not, path_eq, refl,
  string_eq, sym, true, ℕ, ◌==◌, ◌||◌, ◌∙◌, ◌≡◌, ◌≢◌,
}
use versarr.Lock.{
  AcquireEnd, Flock, IsLawful, LockFile, LockHandle, Manager, SystemCalls, ThreadWait, acquire,
  acquire_sync, acquire_sync-unacquired, release, release_sync,
}

module _ (F : Flock) (law : IsLawful F) where
  -- A kernel that holds what another one held, but for one file, which is closed.
  closed_same :
      (k k' : F.State) (n : ℕ)
      → F.holds k n ≡ false
      → ((j : ℕ) → (j == n) ≡ false → F.holds k' j ≡ F.holds k j)
      → (j : ℕ) → F.holds (F.close n k') j ≡ F.holds k j
  closed_same k k' n unused others j = elim (Bool-cases (j == n)) [
    | inl same ↦ law.holds-close n j k' ∙ rw (same, beq→eq j n same) (sym unused)
    | inr other ↦ law.holds-close n j k' ∙ rw other (others j other)
  ]

  granted_others :
      (k : F.State) (n j : ℕ)
      → (F.lock n k).0 ≡ true
      → (j == n) ≡ false
      → F.holds (F.lock n k).1 j ≡ F.holds k j
  granted_others k n j got other = law.holds-lock n j k got ∙ rw other refl

  unlocked_others :
      (k : F.State) (n j : ℕ)
      → (F.lock n k).0 ≡ true
      → (j == n) ≡ false
      → F.holds (F.unlock n (F.lock n k).1) j ≡ F.holds k j
  unlocked_others k n j got other =
      law.holds-unlock n j (F.lock n k).1 ∙ rw other (granted_others k n j got other)

  module _ (c : SystemCalls) (m : Manager) (w : LockFile F)
      (unused : F.holds w.kernel w.next_handle ≡ false) where
    acquire_sync-restores :
        ((x : LockHandle) → (acquire_sync F c m w).0 ≢ AcquireEnd.acquired x)
        → (j : ℕ) → F.holds (acquire_sync F c m w).2.kernel j ≡ F.holds w.kernel j
    unfolding acquire_sync
    acquire_sync-restores idle j = elim (Bool-cases (not c.makes_parent || not c.opens)) [
      | inl early ↦ rw early refl
      | inr goes ↦ elim (Bool-cases (F.lock w.next_handle w.kernel).0) [
        | inl got ↦ elim (Option-cases c.failed_write) [
          | inl works ↦ absurd (rw (goes, got, works) at idle _ refl)
          | inr (left, fails) ↦
              rw (goes, got, fails)
                (closed_same _ _ _ unused (λ a. granted_others w.kernel w.next_handle a got) j)
        ]
        | inr refused ↦
            rw (goes, refused)
              (closed_same _ _ _ unused (λ a b. law.holds-refused w.next_handle a w.kernel refused)
                j)
      ]
    ]

    -- An acquire that fails leaves no lock behind, nor does one that is cancelled before its thread
    -- makes it.
    pub acquire-restores :
        (wait : ThreadWait)
        → wait ≢ ThreadWait.cancelled_running
        → ((x : LockHandle) → (acquire F wait c m w).0 ≢ AcquireEnd.acquired x)
        → let (_, m', w') = acquire F wait c m w in
          (m'.file_handle ≡ m.file_handle) × ((j : ℕ) → F.holds w'.kernel j ≡ F.holds w.kernel j)
    unfolding acquire
    acquire-restores ThreadWait.awaited q idle =
        (acquire_sync-unacquired F c m w idle, acquire_sync-restores idle)
    acquire-restores ThreadWait.cancelled_queued q idle = (refl, λ j. refl)
    acquire-restores ThreadWait.cancelled_running q idle = absurd (q refl)

    -- One that succeeds leaves none after the release that follows it, also one in which LOCK_UN
    -- fails.
    release_sync-restores :
        (d : SystemCalls) (x : LockHandle)
        → let (done, m', w') = acquire_sync F c m w in
          let (_, m'', w'') = release_sync F d m' w' in
          done ≡ AcquireEnd.acquired x
          → (m''.file_handle ≡ none) × ((j : ℕ) → F.holds w''.kernel j ≡ F.holds w.kernel j)
    unfolding acquire_sync release_sync
    release_sync-restores d x e = elim (Bool-cases (not c.makes_parent || not c.opens)) [
      | inl early ↦ absurd (ground (arith, rw early at e))
      | inr goes ↦ elim (Bool-cases (F.lock w.next_handle w.kernel).0) [
        | inl got ↦ elim (Option-cases c.failed_write) [
          | inl works ↦ elim (Bool-cases d.unlocks) [
            | inl unlocks ↦
                rw (goes, got, works, unlocks)
                  (
                    refl,
                    λ j.
                        closed_same _ _ _ unused (λ a. unlocked_others w.kernel w.next_handle a got)
                          j,
                  )
            | inr kept ↦
                rw (goes, got, works, kept)
                  (
                    refl,
                    λ j.
                        closed_same _ _ _ unused (λ a. granted_others w.kernel w.next_handle a got)
                          j,
                  )
          ]
          | inr (left, fails) ↦ absurd (ground (arith, rw (goes, got, fails) at e))
        ]
        | inr refused ↦ absurd (ground (arith, rw (goes, refused) at e))
      ]
    ]

    pub release-restores :
        (wait wait' : ThreadWait)
        → wait' ≢ ThreadWait.cancelled_queued
        → (d : SystemCalls) (x : LockHandle)
        → let (done, m', w') = acquire F wait c m w in
          let (_, m'', w'') = release F wait' d m' w' in
          done ≡ AcquireEnd.acquired x
          → (m''.file_handle ≡ none) × ((j : ℕ) → F.holds w''.kernel j ≡ F.holds w.kernel j)
    unfolding acquire release
    release-restores ThreadWait.awaited ThreadWait.awaited q d x = release_sync-restores d x
    release-restores ThreadWait.awaited ThreadWait.cancelled_queued q d x = absurd (q refl)
    release-restores ThreadWait.awaited ThreadWait.cancelled_running q d x =
        release_sync-restores d x
    release-restores ThreadWait.cancelled_queued wait' q d x = λ e. absurd (ground (arith, e))
    release-restores ThreadWait.cancelled_running wait' q d x = λ e. absurd (ground (arith, e))
