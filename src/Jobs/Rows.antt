-- ===== src/Jobs/Rows.antt =====
-- What a selection of the next ready row finds, and what a lease writes.
use versarr.Base.{
  All, All-imp, Bool-cases, List, Option-cases, Unique, [], ap, arith, beq_self, count, false,
  first, inl, inr, nat_eq, none, path_beq_iff, path_eq, some, some-injective, string_eq, subst,
  true, ℕ, ◌<◌, ◌∙◌, ◌∷◌, ◌≡◌, ◌≢◌, ◌⊎◌,
}
use versarr.Jobs.{is_before, is_ready, next_ready, still_ready, with_key}
use versarr.Schema.{JobRow}

-- `is_before` is a strict order whose complement is transitive.
is_before_irrefl : (a : JobRow) → is_before a a ≡ false
unfolding is_before
is_before_irrefl a = ground arith

is_before_asym : (a b : JobRow) → is_before a b ≡ true → is_before b a ≡ false
unfolding is_before
is_before_asym a b h = ground arith

is_before_trans_neg :
    (a b c : JobRow) → is_before a b ≡ false → is_before b c ≡ false → is_before a c ≡ false
unfolding is_before
is_before_trans_neg a b c h k = ground arith

-- No ready row of the list comes before `x`.
abbrev pub IsEarliest : ℕ → JobRow → List JobRow → Type 0
IsEarliest now x = All (λ r. is_ready now r ≡ true → is_before r x ≡ false)

pub next_ready-none :
    (now : ℕ) (t : List JobRow) → next_ready now t ≡ none → All (λ r. is_ready now r ≡ false) t
unfolding next_ready
next_ready-none now [] h = tt
next_ready-none now (r ∷ t) h = elim (Bool-cases (is_ready now r)) [
  | inl e ↦ absurd (cc (rw e at h))
  | inr e ↦ (e, next_ready-none now t (rw e at h))
]

-- The selected row is the one of the tail, or the head, with what decided it.
next_ready-cases :
    (now : ℕ) (r : JobRow) (t : List JobRow) (x : JobRow)
    → next_ready now (r ∷ t) ≡ some x
    → (next_ready now t ≡ some x) × ((is_ready now r ≡ false) ⊎ (is_before x r ≡ true))
      ⊎ (r ≡ x)
        × (is_ready now r ≡ true)
        × ((next_ready now t ≡ none)
            ⊎ ((s : JobRow) × (next_ready now t ≡ some s) × (is_before s r ≡ false)))
unfolding next_ready
next_ready-cases now r t x h = elim (Bool-cases (is_ready now r)) [
  | inr e ↦ inl (rw e at h, inl e)
  | inl e ↦ elim (Option-cases (next_ready now t)) [
    | inl n ↦ inr (some-injective r x (rw (e, n) at h), e, inl n)
    | inr (s, n) ↦ elim (Bool-cases (is_before s r)) [
      | inl b ↦
          let q : s ≡ x = some-injective s x (rw (e, n, b) at h) in
          inl (n ∙ ap some q, inr (subst (λ y. is_before y r ≡ true) q b))
      | inr b ↦ inr (some-injective r x (rw (e, n, b) at h), e, inr (s, n, b))
    ]
  ]
]

pub next_ready-All :
    (P : JobRow → Type 0) (now : ℕ) (t : List JobRow) (x : JobRow)
    → All P t
    → next_ready now t ≡ some x
    → P x
unfolding next_ready
next_ready-All P now [] x all h = absurd (cc)
next_ready-All P now (r ∷ t) x all h = elim (next_ready-cases now r t x h) [
  | inl (n, _) ↦ next_ready-All P now t x all.1 n
  | inr (q, _, _) ↦ subst P q all.0
]

pub next_ready-ready :
    (now : ℕ) (t : List JobRow) (x : JobRow) → next_ready now t ≡ some x → is_ready now x ≡ true
unfolding next_ready
next_ready-ready now [] x h = ground arith
next_ready-ready now (r ∷ t) x h = elim (next_ready-cases now r t x h) [
  | inl (n, _) ↦ next_ready-ready now t x n
  | inr (q, e, _) ↦ subst (λ y. is_ready now y ≡ true) q e
]

pub next_ready-IsEarliest :
    (now : ℕ) (t : List JobRow) (x : JobRow) → next_ready now t ≡ some x → IsEarliest now x t
unfolding next_ready
next_ready-IsEarliest now [] x h = tt
next_ready-IsEarliest now (r ∷ t) x h = elim (next_ready-cases now r t x h) [
  | inl (n, inl e) ↦ ((λ e'. absurd (cc (e, e'))), next_ready-IsEarliest now t x n)
  | inl (n, inr b) ↦ ((λ _. is_before_asym x r b), next_ready-IsEarliest now t x n)
  | inr (q, e, inl n) ↦ (
    (λ _. subst (λ y. is_before r y ≡ false) q (is_before_irrefl r)),
    All-imp (λ y. is_ready now y ≡ false) (λ y. is_ready now y ≡ true → is_before y x ≡ false)
        (λ y f e'. absurd (cc (f, e'))) t (next_ready-none now t n),
  )
  | inr (q, e, inr (s, n, b)) ↦ (
    (λ _. subst (λ y. is_before r y ≡ false) q (is_before_irrefl r)),
    All-imp (λ y. is_ready now y ≡ true → is_before y s ≡ false)
        (λ y. is_ready now y ≡ true → is_before y x ≡ false)
        (λ y f e'. is_before_trans_neg y s x (f e') (subst (λ z. is_before s z ≡ false) q b)) t
        (next_ready-IsEarliest now t s n),
  )
]

-- With unique keys the selected row is the one that its key finds.
pub next_ready-first :
    (now : ℕ) (t : List JobRow) (x : JobRow)
    → Unique (λ r. r.job_key) t
    → next_ready now t ≡ some x
    → first (with_key x.job_key) t ≡ some x
unfolding next_ready first
next_ready-first now [] x u h = absurd (cc)
next_ready-first now (r ∷ t) x u h = elim (next_ready-cases now r t x h) [
  | inl (n, _) ↦
      let ne = next_ready-All (λ s. s.job_key ≢ r.job_key) now t x u.0 n in
      ground (arith, path_beq_iff r.job_key x.job_key, next_ready-first now t x u.1 n)
  | inr (q, _, _) ↦
      subst (λ y. first (with_key y.job_key) (r ∷ t) ≡ some y) q (rw (beq_self r.job_key))
]

-- The update of a lease hits at least the selected row.
pub next_ready-count :
    (now : ℕ) (t : List JobRow) (x : JobRow)
    → next_ready now t ≡ some x
    → 0 < count (still_ready now x) t
unfolding next_ready count
next_ready-count now [] x h = absurd (cc)
next_ready-count now (r ∷ t) x h = elim (next_ready-cases now r t x h) [
  | inl (n, _) ↦ ground (arith, next_ready-count now t x n)
  | inr (q, e, _) ↦
      subst (λ y. 0 < count (still_ready now y) (r ∷ t)) q
        (ground (arith, path_beq_iff r.job_key r.job_key))
]
