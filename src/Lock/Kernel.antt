-- ===== src/Lock/Kernel.antt =====
-- The kernel's lock as one cell: an implementation of the interface.
use versarr.Base.{
  Bool, Option, arith, false, if◌then◌else◌, nat_eq, none, path_eq, refl, some, string_eq, true, ℕ,
  ◌==◌, ◌≡◌,
}
use versarr.Lock.{Flock, IsLawful}

-- The open file that has the lock.
abbrev try_lock : ℕ → Option ℕ → Bool × Option ℕ
try_lock h none = (true, some h)
try_lock h (some j) = (j == h, some j)

abbrev drop_lock : ℕ → Option ℕ → Option ℕ
drop_lock h none = none
drop_lock h (some j) = if j == h then none else some j

abbrev has_lock : Option ℕ → ℕ → Bool
has_lock none j = false
has_lock (some h) j = j == h

abbrev pub one_lock : Flock
one_lock = record {
  State = Option ℕ;
  lock = try_lock;
  unlock = drop_lock;
  close = drop_lock;
  holds = has_lock;
}

has_lock-try_lock :
    (h j : ℕ) (k : Option ℕ)
    → (try_lock h k).0 ≡ true
    → has_lock (try_lock h k).1 j ≡ (if j == h then true else has_lock k j)
has_lock-try_lock h j none g = ground arith
has_lock-try_lock h j (some a) g = ground arith

has_lock-refused :
    (h j : ℕ) (k : Option ℕ) → (try_lock h k).0 ≡ false → has_lock (try_lock h k).1 j ≡ has_lock k j
has_lock-refused h j none g = absurd (ground arith)
has_lock-refused h j (some a) g = refl

try_lock_alone : (h j : ℕ) (k : Option ℕ) → (try_lock h k).0 ≡ true → has_lock k j ≡ true → j ≡ h
try_lock_alone h j none g e = absurd (ground arith)
try_lock_alone h j (some a) g e = ground arith

try_lock_free : (h : ℕ) (k : Option ℕ) → ((j : ℕ) → has_lock k j ≡ false) → (try_lock h k).0 ≡ true
try_lock_free h none free = refl
try_lock_free h (some a) free = absurd (ground (arith, free a))

has_lock-drop_lock :
    (h j : ℕ) (k : Option ℕ) → has_lock (drop_lock h k) j ≡ (if j == h then false else has_lock k j)
has_lock-drop_lock h j none = ground arith
has_lock-drop_lock h j (some a) = ground arith

pub one_lock-IsLawful : IsLawful one_lock
one_lock-IsLawful = record {
  holds-lock = has_lock-try_lock;
  granted_alone = try_lock_alone;
  holds-refused = has_lock-refused;
  granted_free = try_lock_free;
  holds-unlock = has_lock-drop_lock;
  holds-close = has_lock-drop_lock;
}
