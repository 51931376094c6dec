-- ===== src/Lock/Exclusion.antt =====
-- Several managers over one lock file, as those of several processes, which acquire and release in any
-- order.
use versarr.Base.{
  Bool, List, Option, Option-cases, [], arith, beq_self, false, if◌then◌else◌, inl, inr, nat_eq,
  none, path_eq, refl, string_eq, true, ℕ, ◌==◌, ◌∷◌, ◌≡◌, ◌≢◌,
}
use versarr.Lock.{Flock, IsLawful, LockFile, Manager, SystemCalls, acquire_sync, release_sync}
use versarr.Lock.Guard.{IsGuarded, free-IsGuarded, replaced, same-IsGuarded}
use versarr.Lock.Moves.{Guards, acquire_sync-IsGuarded, release_sync-IsGuarded, release_sync-free}

-- The managers by number, and what they share.
pub record System (F : Flock) : Type 0 where
  pub manager : ℕ → Manager
  pub file : LockFile F

pub data LockCall : Type 0 where
  acquire release : ℕ → SystemCalls → LockCall

file-if :
    (b : Bool) (m n : Manager)
    → (if b then m else n).file_handle ≡ (if b then m.file_handle else n.file_handle)
file-if true m n = refl
file-if false m n = refl

module _ (F : Flock) where
  unfoldable pub lock_call : LockCall → System F → System F
  lock_call (LockCall.acquire i c) s =
      let (_, m, w) = acquire_sync F c (s.manager i) s.file in
      record { manager = replaced i m s.manager; file = w }
  lock_call (LockCall.release i c) s =
      let (_, m, w) = release_sync F c (s.manager i) s.file in
      record { manager = replaced i m s.manager; file = w }

  unfoldable pub lock_calls : List LockCall → System F → System F
  lock_calls [] s = s
  lock_calls (c ∷ t) s = lock_calls t (lock_call c s)

  abbrev pub files_of : (ℕ → Manager) → ℕ → Option ℕ
  files_of manager i = (manager i).file_handle

  abbrev pub IsGuardedSystem : System F → Type 0
  IsGuardedSystem s = IsGuarded F (files_of s.manager) s.file.kernel s.file.next_handle

  -- Nobody has the lock yet.
  abbrev pub IsFree : System F → Type 0
  IsFree s =
      ((i : ℕ) → (s.manager i).file_handle ≡ none) × ((h : ℕ) → F.holds s.file.kernel h ≡ false)

  replaced-file :
      (i j : ℕ) (m : Manager) (f : ℕ → Manager)
      → files_of (replaced i m f) j ≡ replaced i m.file_handle (files_of f) j
  replaced-file i j m f = file-if (j == i) m (f j)

  module _ (law : IsLawful F) where
    replaced-IsGuarded :
        (i : ℕ) (m : Manager) (f : ℕ → Manager) (w : LockFile F)
        → Guards F law (replaced i m.file_handle (files_of f)) w
        → Guards F law (files_of (replaced i m f)) w
    replaced-IsGuarded i m f w =
        same-IsGuarded F law (replaced i m.file_handle (files_of f)) (files_of (replaced i m f))
          w.kernel w.next_handle (λ j. replaced-file i j m f)

    lock_call-IsGuarded :
        (c : LockCall) (s : System F) → IsGuardedSystem s → IsGuardedSystem (lock_call c s)
    unfolding lock_call
    lock_call-IsGuarded (LockCall.acquire i c) s g =
        let (_, m, w) = acquire_sync F c (s.manager i) s.file in
        replaced-IsGuarded i m s.manager w
          (acquire_sync-IsGuarded F law (files_of s.manager) i (s.manager i) c s.file refl g)
    lock_call-IsGuarded (LockCall.release i c) s g =
        let (_, m, w) = release_sync F c (s.manager i) s.file in
        replaced-IsGuarded i m s.manager w
          (release_sync-IsGuarded F law (files_of s.manager) i (s.manager i) c s.file refl g)

    lock_calls-IsGuarded :
        (cs : List LockCall) (s : System F) → IsGuardedSystem s → IsGuardedSystem (lock_calls cs s)
    unfolding lock_calls
    lock_calls-IsGuarded [] s g = g
    lock_calls-IsGuarded (c ∷ cs) s g =
        lock_calls-IsGuarded cs (lock_call c s) (lock_call-IsGuarded c s g)

-- Managers that acquire and release one lock in any order, whatever calls of the system fail, have
-- it one at a time, where none had it before and the kernel's lock behaves as documented.
pub one_holder :
    (F : Flock) (law : IsLawful F) (cs : List LockCall) (s : System F) (i j : ℕ)
    → IsFree F s
    → ((lock_calls F cs s).manager i).file_handle ≢ none
    → ((lock_calls F cs s).manager j).file_handle ≢ none
    → i ≡ j
one_holder F law cs s i j free a b =
    let g = lock_calls-IsGuarded F law cs s (
      free-IsGuarded F law (files_of F s.manager) s.file.kernel s.file.next_handle free.0 free.1) in
    let m = (lock_calls F cs s).manager in
    elim (Option-cases (m i).file_handle) [
      | inl e ↦ absurd (a e)
      | inr (h, x) ↦ elim (Option-cases (m j).file_handle) [
        | inl e ↦ absurd (b e)
        | inr (k, y) ↦ g.one i j h k x y
      ]
    ]

-- An acquire of a lock that nobody has, whose other calls work.
acquire-free :
    (F : Flock) (law : IsLawful F) (c : SystemCalls) (m : Manager) (w : LockFile F)
    → ((h : ℕ) → F.holds w.kernel h ≡ false)
    → c.makes_parent ≡ true
    → c.opens ≡ true
    → c.failed_write ≡ none
    → ((acquire_sync F c m w).1.file_handle ≢ none)
      × ((acquire_sync F c m w).2.text ≡ m.holder_metadata)
unfolding acquire_sync
acquire-free F law c m w free makes opens writes =
    let got = law.granted_free w.next_handle w.kernel free in
    rw (makes, opens, got, writes) ((λ e. absurd (ground (arith, e))), refl)

-- After a release by the manager that has the lock, also one in which LOCK_UN fails, the next
-- acquire gets it, whoever makes it, and the lock file names its holder, where the directory, the
-- file and the write work.
pub release-acquire :
    (F : Flock) (law : IsLawful F) (cs : List LockCall) (s : System F) (i j : ℕ) (c d : SystemCalls)
    → IsFree F s
    → ((lock_calls F cs s).manager i).file_handle ≢ none
    → d.makes_parent ≡ true
    → d.opens ≡ true
    → d.failed_write ≡ none
    → let t = lock_call F (LockCall.release i c) (lock_calls F cs s) in
      let s' = lock_call F (LockCall.acquire j d) t in
      ((s'.manager j).file_handle ≢ none) × (s'.file.text ≡ (t.manager j).holder_metadata)
unfolding lock_call
release-acquire F law cs s i j c d free held makes opens writes =
    let g = lock_calls-IsGuarded F law cs s (
      free-IsGuarded F law (files_of F s.manager) s.file.kernel s.file.next_handle free.0 free.1) in
    let t = lock_calls F cs s in
    elim (Option-cases (t.manager i).file_handle) [
      | inl e ↦ absurd (held e)
      | inr (h, e) ↦
          let unlocked =
            release_sync-free F law (files_of F t.manager) i (t.manager i) c t.file refl g h e in
          let m = (lock_call F (LockCall.release i c) t).manager j in
          let w = (release_sync F c (t.manager i) t.file).2 in
          rw (beq_self j) (acquire-free F law d m w unlocked makes opens writes)
    ]
