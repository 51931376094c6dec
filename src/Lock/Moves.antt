-- ===== src/Lock/Moves.antt =====
-- What an acquire and a release of one manager keep of the guard.
use versarr.Base.{
  Bool, Bool-cases, Option, Option-cases, beq_self, beq→eq, false, if◌then◌else◌, inl, inr, nat_eq,
  none, not, path_eq, refl, some, string_eq, sym, true, ℕ, ◌==◌, ◌||◌, ◌∙◌, ◌≡◌,
}
use versarr.Lock.{
  Flock, IsLawful, LockFile, Manager, SystemCalls, ThreadWait, acquire, acquire_sync, release,
  release_handle, release_sync,
}
use versarr.Lock.Guard.{
  IsGuarded, granted-IsGuarded, left-IsGuarded, refused-IsGuarded, released-IsGuarded, replaced,
  same-IsGuarded,
}

if_again : (b x : Bool) → (if b then false else (if b then false else x)) ≡ (if b then false else x)
if_again true x = refl
if_again false x = refl

if_same : (b : Bool) → (if b then false else false) ≡ false
if_same true = refl
if_same false = refl

module _ (F : Flock) (law : IsLawful F) where
  replaced_self :
      (i : ℕ) (f : ℕ → Option ℕ) (o : Option ℕ) → f i ≡ o → (j : ℕ) → replaced i o f j ≡ f j
  replaced_self i f o e j = elim (Bool-cases (j == i)) [
    | inl same ↦ rw (same, beq→eq j i same) (sym e)
    | inr other ↦ rw other refl
  ]

  holds-unlock_close :
      (h : ℕ) (k : F.State) (j : ℕ)
      → F.holds (F.close h (F.unlock h k)) j ≡ (if j == h then false else F.holds k j)
  holds-unlock_close h k j =
      law.holds-close h j (F.unlock h k)
      ∙ rw (law.holds-unlock h j k) (if_again (j == h) (F.holds k j))

  abbrev pub Guards : (ℕ → Option ℕ) → LockFile F → Type 0
  Guards files w = IsGuarded F files w.kernel w.next_handle

  module _ (files : ℕ → Option ℕ) (i : ℕ) (m : Manager) (c : SystemCalls) (w : LockFile F)
      (own : files i ≡ m.file_handle) (g : Guards files w) where
    pub kept-IsGuarded :
        (k : F.State) (n : ℕ)
        → IsGuarded F files k n
        → IsGuarded F (replaced i m.file_handle files) k n
    kept-IsGuarded k n =
        same-IsGuarded F law files (replaced i m.file_handle files) k n
          (replaced_self i files m.file_handle own)

    pub acquire_sync-IsGuarded :
        let (_, m', w') = acquire_sync F c m w in Guards (replaced i m'.file_handle files) w'
    unfolding acquire_sync
    acquire_sync-IsGuarded = elim (Bool-cases (not c.makes_parent || not c.opens)) [
      | inl early ↦ rw early (kept-IsGuarded w.kernel w.next_handle g)
      | inr goes ↦ elim (Bool-cases (F.lock w.next_handle w.kernel).0) [
        | inl got ↦ elim (Option-cases c.failed_write) [
          | inl works ↦
              rw (goes, got, works) (granted-IsGuarded F law files w.kernel w.next_handle g i got)
          | inr (left, fails) ↦
              rw (goes, got, fails)
                (kept-IsGuarded _ _ (left-IsGuarded F law files w.kernel w.next_handle g got))
        ]
        | inr refused ↦
            rw (goes, refused)
              (kept-IsGuarded _ _ (refused-IsGuarded F law files w.kernel w.next_handle g refused))
      ]
    ]

    pub acquire-IsGuarded :
        (wait : ThreadWait)
        → let (_, m', w') = acquire F wait c m w in Guards (replaced i m'.file_handle files) w'
    unfolding acquire
    acquire-IsGuarded ThreadWait.awaited = acquire_sync-IsGuarded
    acquire-IsGuarded ThreadWait.cancelled_queued = kept-IsGuarded w.kernel w.next_handle g
    acquire-IsGuarded ThreadWait.cancelled_running = acquire_sync-IsGuarded

    release_handle-IsGuarded :
        (o : Option ℕ)
        → m.file_handle ≡ o
        → let (_, m', w') = release_handle F c o m w in Guards (replaced i m'.file_handle files) w'
    release_handle-IsGuarded none e = kept-IsGuarded w.kernel w.next_handle g
    release_handle-IsGuarded (some h) e = elim (Bool-cases c.unlocks) [
      | inl works ↦ rw works (
          released-IsGuarded F law files w.kernel w.next_handle g i h _ (own ∙ e)
            (holds-unlock_close h w.kernel))
      | inr fails ↦ rw fails (
          released-IsGuarded F law files w.kernel w.next_handle g i h _ (own ∙ e)
            (λ j. law.holds-close h j w.kernel))
    ]

    pub release_sync-IsGuarded :
        let (_, m', w') = release_sync F c m w in Guards (replaced i m'.file_handle files) w'
    unfolding release_sync
    release_sync-IsGuarded = release_handle-IsGuarded m.file_handle refl

    pub release-IsGuarded :
        (wait : ThreadWait)
        → let (_, m', w') = release F wait c m w in Guards (replaced i m'.file_handle files) w'
    unfolding release
    release-IsGuarded ThreadWait.awaited = release_sync-IsGuarded
    release-IsGuarded ThreadWait.cancelled_queued = kept-IsGuarded w.kernel w.next_handle g
    release-IsGuarded ThreadWait.cancelled_running = release_sync-IsGuarded

    module _ (a : ℕ) (e : m.file_handle ≡ some a) where
      closed_free :
          (k : F.State)
          → ((j : ℕ) → F.holds k j ≡ (if j == a then false else F.holds w.kernel j))
          → (j : ℕ) → F.holds k j ≡ false
      closed_free k gone j = elim (Bool-cases (F.holds w.kernel j)) [
        | inl h ↦
            let same = g.alone j a h (g.held i a (own ∙ e)) in gone j ∙ rw (same, beq_self a) refl
        | inr h ↦ gone j ∙ rw h (if_same (j == a))
      ]

      release_handle-free : (j : ℕ) → F.holds (release_handle F c (some a) m w).2.kernel j ≡ false
      release_handle-free j = elim (Bool-cases c.unlocks) [
        | inl works ↦ rw works (closed_free _ (holds-unlock_close a w.kernel) j)
        | inr fails ↦ rw fails (closed_free _ (λ x. law.holds-close a x w.kernel) j)
      ]

      -- After a release by the manager that has the lock, nobody has it.
      pub release_sync-free : (j : ℕ) → F.holds (release_sync F c m w).2.kernel j ≡ false
      unfolding release_sync
      release_sync-free j = rw e (release_handle-free j)
