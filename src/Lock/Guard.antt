-- ===== src/Lock/Guard.antt =====
-- What one call of a manager keeps of the files that all managers have.
use versarr.Base.{
  Bool-cases, Option, arith, beq_self, beq→eq, false, if◌then◌else◌, inl, inr, nat_eq, none,
  path_eq, refl, some, string_eq, sym, true, ℕ, ◌+◌, ◌<◌, ◌==◌, ◌∙◌, ◌≡◌, ◌≢◌,
}
use versarr.Lock.{Flock, IsLawful}

abbrev pub replaced : {A : Type 0} → ℕ → A → (ℕ → A) → ℕ → A
replaced i a f j = if j == i then a else f j

-- The files that the managers keep, by manager: the kernel holds the lock for each of them, and for
-- one open file at most, all open files have been given a number, and one manager at most keeps one.
pub record IsGuarded (F : Flock) (files : ℕ → Option ℕ) (k : F.State) (next : ℕ) : Type 0 where
  pub held : (i h : ℕ) → files i ≡ some h → F.holds k h ≡ true
  pub alone : (h j : ℕ) → F.holds k h ≡ true → F.holds k j ≡ true → h ≡ j
  pub opened : (h : ℕ) → F.holds k h ≡ true → h < next
  pub one : (i j h g : ℕ) → files i ≡ some h → files j ≡ some g → i ≡ j

some_same : (a b : ℕ) → some a ≡ some b → b ≡ a
some_same a b e = ground arith

differ : (a b : ℕ) → a ≢ b → (a == b) ≡ false
differ a b h = ground arith

differs : (a b : ℕ) → (a == b) ≡ false → a ≢ b
differs a b h e = ground arith

module _ (F : Flock) (law : IsLawful F) where
  module _ (files : ℕ → Option ℕ) (k : F.State) (n : ℕ) (g : IsGuarded F files k n) where
    -- Where the lock is granted, no manager kept a file.
    granted_none : (F.lock n k).0 ≡ true → (i h : ℕ) → files i ≢ some h
    granted_none got i h e =
        let kept = g.held i h e in
        let below = g.opened h kept in
        let same = law.granted_alone n h k got kept in absurd (omega arith)

    granted_only : (F.lock n k).0 ≡ true → (j : ℕ) → F.holds (F.lock n k).1 j ≡ true → j ≡ n
    granted_only got j e = elim (Bool-cases (F.holds k j)) [
      | inl held ↦ law.granted_alone n j k got held
      | inr free ↦
          let l = law.holds-lock n j k got in
          elim (Bool-cases (j == n)) [
            | inl same ↦ beq→eq j n same
            | inr other ↦ absurd (grind arith)
          ]
    ]

    granted_self : (F.lock n k).0 ≡ true → F.holds (F.lock n k).1 n ≡ true
    granted_self got = law.holds-lock n n k got ∙ rw (beq_self n) refl

    granted_kept :
        (i j h : ℕ)
        → (F.lock n k).0 ≡ true
        → replaced i (some n) files j ≡ some h
        → (j ≡ i) × (h ≡ n)
    granted_kept i j h got e = elim (Bool-cases (j == i)) [
      | inl same ↦ (beq→eq j i same, some_same n h (rw same at e))
      | inr other ↦ absurd (granted_none got j h (rw other at e))
    ]

    pub granted-IsGuarded :
        (i : ℕ)
        → (F.lock n k).0 ≡ true
        → IsGuarded F (replaced i (some n) files) (F.lock n k).1 (n + 1)
    granted-IsGuarded i got = record {
      held = λ j h e. rw (granted_kept i j h got e).1 (granted_self got);
      alone = λ h j a b. granted_only got h a ∙ sym (granted_only got j b);
      opened = λ h e. let same = granted_only got h e in omega arith;
      one = λ j l h c a b. (granted_kept i j h got a).0 ∙ sym (granted_kept i l c got b).0;
    }

    left_free : (F.lock n k).0 ≡ true → (j : ℕ) → F.holds (F.close n (F.lock n k).1) j ≡ false
    left_free got j = elim (Bool-cases (j == n)) [
      | inl same ↦ law.holds-close n j (F.lock n k).1 ∙ rw same refl
      | inr other ↦ elim (Bool-cases (F.holds (F.lock n k).1 j)) [
        | inl held ↦ absurd (differs j n other (granted_only got j held))
        | inr free ↦ law.holds-close n j (F.lock n k).1 ∙ rw (other, free) refl
      ]
    ]

    -- A lock that was granted, and whose file is closed as its text cannot be written.
    pub left-IsGuarded :
        (F.lock n k).0 ≡ true → IsGuarded F files (F.close n (F.lock n k).1) (n + 1)
    left-IsGuarded got = record {
      held = λ j h e. absurd (granted_none got j h e);
      alone = λ h j a b. absurd (ground (arith, left_free got h));
      opened = λ h e. absurd (ground (arith, left_free got h));
      one = λ j l h c a b. absurd (granted_none got j h a);
    }

    -- What the kernel holds after a file was closed, it held before.
    held_before :
        (k' : F.State) (h : ℕ)
        → ((j : ℕ) → F.holds k' j ≡ (if j == h then false else F.holds k j))
        → (j : ℕ) → F.holds k' j ≡ true
        → F.holds k j ≡ true
    held_before k' h gone j e = elim (Bool-cases (j == h)) [
      | inl same ↦ absurd (ground (arith, gone j))
      | inr other ↦ let l = gone j in ground arith
    ]

    closed_refused :
        (F.lock n k).0 ≡ false
        → (h : ℕ) → F.holds (F.close n (F.lock n k).1) h ≡ (if h == n then false else F.holds k h)
    closed_refused refused h =
        law.holds-close n h (F.lock n k).1 ∙ rw (law.holds-refused n h k refused) refl

    -- A refused lock whose file is closed.
    pub refused-IsGuarded :
        (F.lock n k).0 ≡ false → IsGuarded F files (F.close n (F.lock n k).1) (n + 1)
    refused-IsGuarded refused =
        let k' = F.close n (F.lock n k).1 in
        let gone = closed_refused refused in
        record {
          held = λ j h e.
              (let old = g.held j h e in
                let below = g.opened h old in gone h ∙ rw (differ h n (omega arith)) old);
          alone = λ h j a b. g.alone h j (held_before k' n gone h a) (held_before k' n gone j b);
          opened = λ h e. let below = g.opened h (held_before k' n gone h e) in omega arith;
          one = g.one;
        }

    other_file :
        (i h j a : ℕ)
        → files i ≡ some h
        → replaced i none files j ≡ some a
        → (j ≢ i) × (files j ≡ some a)
    other_file i h j a e x = elim (Bool-cases (j == i)) [
      | inl same ↦ absurd (ground (arith, rw same at x))
      | inr other ↦ ((λ q. differs j i other q), rw other at x)
    ]

    -- A manager that gives up its file, which is closed, with LOCK_UN before or without it.
    pub released-IsGuarded :
        (i h : ℕ) (k' : F.State)
        → files i ≡ some h
        → ((j : ℕ) → F.holds k' j ≡ (if j == h then false else F.holds k j))
        → IsGuarded F (replaced i none files) k' n
    released-IsGuarded i h k' e gone = record {
      held = λ j a x. absurd (let (other, y) = other_file i h j a e x in other (g.one j i a h y e));
      alone = λ a j x y. g.alone a j (held_before k' h gone a x) (held_before k' h gone j y);
      opened = λ a x. g.opened a (held_before k' h gone a x);
      one = λ j l a c x y. g.one j l a c (other_file i h j a e x).1 (other_file i h l c e y).1;
    }

  -- Nobody has the lock, and no manager keeps a file.
  pub free-IsGuarded :
      (f : ℕ → Option ℕ) (k : F.State) (n : ℕ)
      → ((i : ℕ) → f i ≡ none)
      → ((h : ℕ) → F.holds k h ≡ false)
      → IsGuarded F f k n
  free-IsGuarded f k n free unlocked = record {
    held = λ i h e. absurd (ground (arith, free i));
    alone = λ h j a b. absurd (ground (arith, unlocked h));
    opened = λ h e. absurd (ground (arith, unlocked h));
    one = λ i j h g a b. absurd (ground (arith, free i));
  }

  pub same-IsGuarded :
      (f g : ℕ → Option ℕ) (k : F.State) (n : ℕ)
      → ((j : ℕ) → g j ≡ f j)
      → IsGuarded F f k n
      → IsGuarded F g k n
  same-IsGuarded f g k n same s = record {
    held = λ i h e. s.held i h (sym (same i) ∙ e);
    alone = s.alone;
    opened = s.opened;
    one = λ i j h c a b. s.one i j h c (sym (same i) ∙ a) (sym (same j) ∙ b);
  }
