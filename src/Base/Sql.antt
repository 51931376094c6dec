-- ===== src/Base/Sql.antt =====
-- What the program uses of SQL: tables as lists of rows, SELECT, INSERT, UPDATE and rowcount.
use mathlib.Core.Path.{◌≡◌, refl, sym, ap, ◌∙◌, subst}
use mathlib.Core.Logic.{◌≢◌, inl, inr}
use mathlib.Core.Bool.{Bool, true, false, ◌||◌}
use mathlib.Core.Option
use mathlib.Core.Option.{Option, none, some, some-injective}
use mathlib.Core.List.{List, [], ◌∷◌, ◌++◌}
use native.Mathlib.Omega.{arith}
use versarr.Base.Tests.{
  is_some, if◌then◌else◌, Option-cases, Bool-cases, Eq, ◌==◌, beq→eq, beq_self,
}
use versarr.Base.Lists.{All, All-imp, length}

module _ {A : Type 0} where
  -- SELECT … WHERE, first row.
  unfoldable pub first : (A → Bool) → List A → Option A
  first p [] = none
  first p (r ∷ t) = if p r then some r else first p t

  -- UPDATE … WHERE … VALUES.
  unfoldable pub update : (A → Bool) → (A → A) → List A → List A
  update p f [] = []
  update p f (r ∷ t) = (if p r then f r else r) ∷ update p f t

  -- INSERT … VALUES.
  unfoldable pub insert : A → List A → List A
  insert a t = t ++ a ∷ []

  pub length-update : (p : A → Bool) (f : A → A) (t : List A) → length (update p f t) ≡ length t
  unfolding update
  length-update p f [] = refl
  length-update p f (r ∷ t) = ground (arith, length-update p f t)

  pub first-eq-some : (p : A → Bool) (t : List A) (a : A) → first p t ≡ some a → p a ≡ true
  unfolding first
  first-eq-some p [] a h = ground arith
  first-eq-some p (r ∷ t) a h = ground (arith, first-eq-some p t a)

  pub update-All :
      (P : A → Type 0) (p : A → Bool) (f : A → A) (t : List A)
      → ((a : A) → p a ≡ true → P a → P (f a))
      → All P t
      → All P (update p f t)
  unfolding update
  update-All P p f [] h all = tt
  update-All P p f (r ∷ t) h all = elim (Bool-cases (p r)) [
    | inl e ↦ rw e (h r e all.0, update-All P p f t h all.1)
    | inr e ↦ rw e (all.0, update-All P p f t h all.1)
  ]

  -- The same where the rows that are hit and the others keep different things.
  pub update-All_map :
      (P Q : A → Type 0) (p : A → Bool) (f : A → A) (t : List A)
      → ((a : A) → p a ≡ true → P a → Q (f a))
      → ((a : A) → p a ≡ false → P a → Q a)
      → All P t
      → All Q (update p f t)
  unfolding update
  update-All_map P Q p f [] hit miss all = tt
  update-All_map P Q p f (r ∷ t) hit miss all = elim (Bool-cases (p r)) [
    | inl e ↦ rw e (hit r e all.0, update-All_map P Q p f t hit miss all.1)
    | inr e ↦ rw e (miss r e all.0, update-All_map P Q p f t hit miss all.1)
  ]

  -- The row that a search finds, after an update of what it finds.
  pub update-found :
      (p : A → Bool) (f : A → A) (t : List A) (x : A)
      → ((a : A) → p a ≡ true → p (f a) ≡ true)
      → first p t ≡ some x
      → first p (update p f t) ≡ some (f x)
  unfolding first update
  update-found p f [] x h e = absurd (cc)
  update-found p f (r ∷ t) x h e = elim (Bool-cases (p r)) [
    | inl m ↦ rw m (rw (h r m) (ap (λ a. some (f a)) (some-injective r x (rw m at e))))
    | inr m ↦ rw m (rw m (update-found p f t x h (rw m at e)))
  ]

  -- Two updates that write the same are one.
  pub update-update :
      (p q u : A → Bool) (f : A → A) (t : List A)
      → ((a : A) → q (f a) ≡ q a)
      → ((a : A) → f (f a) ≡ f a)
      → ((a : A) → u a ≡ (p a || q a))
      → update q f (update p f t) ≡ update u f t
  unfolding update
  update-update p q u f [] hq hf hu = refl
  update-update p q u f (r ∷ t) hq hf hu =
      ground (arith, hq r, hf r, hu r, update-update p q u f t hq hf hu)

  pub insert-All : (P : A → Type 0) (a : A) (t : List A) → P a → All P t → All P (insert a t)
  unfolding insert
  insert-All P a [] h all = (h, tt)
  insert-All P a (r ∷ t) h all = (all.0, insert-All P a t h all.1)

  pub first-All :
      (P : A → Type 0) (p : A → Bool) (t : List A) (a : A) → All P t → first p t ≡ some a → P a
  unfolding first
  first-All P p [] a all h = absurd (cc)
  first-All P p (r ∷ t) a all h = elim (Bool-cases (p r)) [
    | inl e ↦ subst P (some-injective r a (rw e at h)) all.0
    | inr e ↦ first-All P p t a all.1 (rw e at h)
  ]

  -- Where the insertion is of a row that a search would find, it finds it if it found none before.
  pub first-insert :
      (p : A → Bool) (a : A) (t : List A)
      → first p (insert a t)
        ≡ (if is_some (first p t) then first p t else if p a then some a else none)
  unfolding first insert
  first-insert p a [] = refl
  first-insert p a (r ∷ t) = ground (arith, first-insert p a t)

module _ {A K : Type 0} where
  -- No two rows have one key: a PRIMARY KEY.
  abbrev pub Unique : (A → K) → List A → Type 0
  Unique key [] = Unit
  Unique key (r ∷ t) = All (λ s. key s ≢ key r) t × Unique key t

-- Rows found by a key.
module _ {A K : Type 0} ⦃e : Eq K⦄ where
  abbrev pub keyed : (A → K) → K → A → Bool
  keyed key k a = key a == k

  -- An update that leaves the keys alone, seen through a search by key.
  pub first-update :
      (key : A → K) (k : K) (p : A → Bool) (f : A → A) (t : List A)
      → ((a : A) → key (f a) ≡ key a)
      → first (keyed key k) (update p f t)
        ≡ Option.map (λ a. if p a then f a else a) (first (keyed key k) t)
  unfolding first update
  first-update key k p f [] h = refl
  first-update key k p f (r ∷ t) h = ground (arith, h r, first-update key k p f t h)

  pub first-update_self :
      (key : A → K) (k : K) (f : A → A) (t : List A)
      → ((a : A) → key (f a) ≡ key a)
      → first (keyed key k) (update (keyed key k) f t) ≡ Option.map f (first (keyed key k) t)
  unfolding first update
  first-update_self key k f [] h = refl
  first-update_self key k f (r ∷ t) h = ground (arith, h r, first-update_self key k f t h)

  pub first-update_ne :
      (key : A → K) (j k : K) (f : A → A) (t : List A)
      → j ≢ k
      → ((a : A) → key (f a) ≡ key a)
      → first (keyed key j) (update (keyed key k) f t) ≡ first (keyed key j) t
  unfolding first update
  first-update_ne key j k f [] ne h = refl
  first-update_ne key j k f (r ∷ t) ne h =
      ground
        (arith, h r, e.beq_iff (key r) j, e.beq_iff (key r) k, first-update_ne key j k f t ne h)

  -- The condition on the keys is wanted only where the update hits.
  pub update-Unique_hit :
      (key : A → K) (p : A → Bool) (f : A → A) (t : List A)
      → ((a : A) → p a ≡ true → key (f a) ≡ key a)
      → Unique key t
      → Unique key (update p f t)
  unfolding update
  update-Unique_hit key p f [] h u = tt
  update-Unique_hit key p f (r ∷ t) h u = (
    elim (Bool-cases (p r)) [
      | inl e ↦ rw (e, h r e) (ne (key r) u.0)
      | inr e ↦ rw e (ne (key r) u.0)
    ],
    update-Unique_hit key p f t h u.1,
  )
    where
      ne : (k : K) → All (λ s. key s ≢ k) t → All (λ s. key s ≢ k) (update p f t)
      ne k all = update-All (λ s. key s ≢ k) p f t (λ a m n. rw (h a m) n) all

  pub update-Unique :
      (key : A → K) (p : A → Bool) (f : A → A) (t : List A)
      → ((a : A) → key (f a) ≡ key a)
      → Unique key t
      → Unique key (update p f t)
  update-Unique key p f t h u = update-Unique_hit key p f t (λ a _. h a) u

  first-none_ne :
      (key : A → K) (k : K) (t : List A) → first (keyed key k) t ≡ none → All (λ s. key s ≢ k) t
  unfolding first
  first-none_ne key k [] h = tt
  first-none_ne key k (r ∷ t) h = elim (Bool-cases (key r == k)) [
    | inl m ↦ absurd (cc (rw m at h))
    | inr m ↦ (λ q. cc (m, (e.beq_iff (key r) k).1 q), first-none_ne key k t (rw m at h))
  ]

  insert-Unique_ne :
      (key : A → K) (a : A) (t : List A)
      → All (λ s. key s ≢ key a) t
      → Unique key t
      → Unique key (insert a t)
  unfolding insert
  insert-Unique_ne key a [] ne u = (tt, tt)
  insert-Unique_ne key a (r ∷ t) ne u = (
    insert-All (λ s. key s ≢ key r) a t (λ q. ne.0 (sym q)) u.0,
    insert-Unique_ne key a t ne.1 u.1,
  )

  pub insert-Unique :
      (key : A → K) (a : A) (t : List A)
      → first (keyed key (key a)) t ≡ none
      → Unique key t
      → Unique key (insert a t)
  insert-Unique key a t none_yet u =
      insert-Unique_ne key a t (first-none_ne key (key a) t none_yet) u

  -- The row that a search by key finds is the only one of that key.
  pub first-Unique :
      (key : A → K) (k : K) (t : List A) (x : A)
      → Unique key t
      → first (keyed key k) t ≡ some x
      → All (λ r. keyed key k r ≡ true → r ≡ x) t
  unfolding first
  first-Unique key k [] x u h = tt
  first-Unique key k (r ∷ t) x u h = elim (Bool-cases (key r == k)) [
    | inl m ↦ (
      (λ _. some-injective r x (rw m at h)),
      All-imp (λ s. key s ≢ key r) (λ s. keyed key k s ≡ true → s ≡ x)
          (λ s ne m'. absurd (ne (beq→eq (key s) k m' ∙ sym (beq→eq (key r) k m)))) t u.0,
    )
    | inr m ↦ ((λ m'. absurd (cc (m, m'))), first-Unique key k t x u.1 (rw m at h))
  ]

  -- SELECT, then INSERT or UPDATE of every column: the `record_…` methods.
  unfoldable pub upsert : (A → K) → A → List A → List A
  upsert key a t =
      if is_some (first (keyed key (key a)) t)
      then update (keyed key (key a)) (λ _. a) t
      else insert a t

  overwrite-hit :
      (key : A → K) (a : A) (t : List A) (x : A)
      → first (keyed key (key a)) t ≡ some x
      → first (keyed key (key a)) (update (keyed key (key a)) (λ _. a) t) ≡ some a
  unfolding first update
  overwrite-hit key a [] x h = absurd (cc)
  overwrite-hit key a (r ∷ t) x h = elim (Bool-cases (key r == key a)) [
    | inl m ↦ rw m (rw (beq_self (key a)))
    | inr m ↦ rw m (rw m (overwrite-hit key a t x (rw m at h)))
  ]

  overwrite-miss :
      (key : A → K) (a : A) (k : K) (t : List A)
      → (key a == k) ≡ false
      → first (keyed key k) (update (keyed key (key a)) (λ _. a) t) ≡ first (keyed key k) t
  unfolding first update
  overwrite-miss key a k [] m = refl
  overwrite-miss key a k (r ∷ t) m = ground (
    arith,
    e.beq_iff (key r) (key a),
    e.beq_iff (key a) k,
    e.beq_iff (key r) k,
    overwrite-miss key a k t m,
  )

  -- What was written is found under its key; every other key finds what it found.
  pub first-upsert :
      (key : A → K) (a : A) (k : K) (t : List A)
      → first (keyed key k) (upsert key a t)
        ≡ (if key a == k then some a else first (keyed key k) t)
  unfolding upsert
  first-upsert key a k t = elim (Option-cases (first (keyed key (key a)) t)) [
    | inl n ↦ rw n (
        rw (first-insert (keyed key k) a t) (elim (Bool-cases (key a == k)) [
          | inl m ↦
              let n' = subst (λ j. first (keyed key j) t ≡ none) (beq→eq (key a) k m) n in
              rw (n', m)
          | inr m ↦ rw m (ground arith)
        ]))
    | inr (x, n) ↦ rw n (elim (Bool-cases (key a == k)) [
      | inl m ↦ rw m (
          subst (λ j. first (keyed key j) (update (keyed key (key a)) (λ _. a) t) ≡ some a)
            (beq→eq (key a) k m) (overwrite-hit key a t x n))
      | inr m ↦ rw m (overwrite-miss key a k t m)
    ])
  ]

  pub upsert-Unique :
      (key : A → K) (a : A) (t : List A) → Unique key t → Unique key (upsert key a t)
  unfolding upsert
  upsert-Unique key a t u = elim (Option-cases (first (keyed key (key a)) t)) [
    | inl n ↦ rw n (insert-Unique key a t n u)
    | inr (x, n) ↦ rw n (
        update-Unique_hit key (keyed key (key a)) (λ _. a) t (λ r m. sym (beq→eq (key r) (key a) m))
          u)
  ]
