-- ===== src/Requests/Claims.antt =====
-- A control request is claimed once.
use mathlib.Core.Option
use versarr.Base.{
  All, Bool, Bool-cases, List, Option-cases, Unique, [], arith, beq→eq, count, false, first,
  first-eq-some, first-update, if◌then◌else◌, inl, inr, nat_beq, nat_eq, not, path_eq, refl, some,
  some-injective, string_eq, subst, update, ℕ, ◌∷◌, ◌≡◌, ◌≢◌,
}
use versarr.Domain.{ControlRequestStatus}
use versarr.Requests.{claim_control_request, claimable, is_open, with_id}
use versarr.Schema.{ControlRow}

abbrev pub claimed_row : ℕ → ControlRow → ControlRow
claimed_row at r = record r { status = ControlRequestStatus.claimed; claimed_at = some at }

-- After a claim nothing of that id is open.
claim_closes :
    (i at : ℕ) (rows : List ControlRow)
    → count (claimable i) (claim_control_request i at rows).1 ≡ 0
unfolding claim_control_request count update
claim_closes i at [] = refl
claim_closes i at (r ∷ t) = ground (arith, claim_closes i at t)

count-zero :
    (p : ControlRow → Bool) (rows : List ControlRow)
    → count p rows ≡ 0
    → All (λ r. p r ≡ false) rows
unfolding count
count-zero p [] h = tt
count-zero p (r ∷ t) h = elim (Bool-cases (p r)) [
  | inl m ↦ absurd (omega (arith, rw m at h))
  | inr m ↦ (m, count-zero p t (rw m at h))
]

refused :
    (i at : ℕ) (rows : List ControlRow)
    → count (claimable i) rows ≡ 0
    → (claim_control_request i at rows).0 ≡ false
unfolding claim_control_request
refused i at rows h = rw h

-- Of two claims of one request in a row the second is refused.
pub claim_once :
    (i at at' : ℕ) (rows : List ControlRow)
    → (claim_control_request i at' (claim_control_request i at rows).1).0 ≡ false
claim_once i at at' rows =
    refused i at' (claim_control_request i at rows).1 (claim_closes i at rows)

absent-count :
    (i : ℕ) (rows : List ControlRow) → All (λ r. r.id ≢ i) rows → count (claimable i) rows ≡ 0
unfolding count
absent-count i [] all = refl
absent-count i (r ∷ t) all = ground (arith, all.0, absent-count i t all.1)

counted :
    (i : ℕ) (rows : List ControlRow) (x : ControlRow)
    → Unique (λ r. r.id) rows
    → first (with_id i) rows ≡ some x
    → not (nat_beq (count (claimable i) rows) 0) ≡ is_open x
unfolding count first
counted i [] x u f = absurd (cc)
counted i (r ∷ t) x u f = elim (Bool-cases (nat_beq r.id i)) [
  | inl m ↦
      let same : r ≡ x = some-injective r x (rw m at f) in
      let e : r.id ≡ i = beq→eq r.id i m in
      let gone = absent-count i t (subst (λ k. All (λ s. s.id ≢ k) t) e u.0) in
      subst (λ y. not (nat_beq (count (claimable i) (r ∷ t)) 0) ≡ is_open y) same (ground arith)
  | inr m ↦ let rest = counted i t x u.1 (rw m at f) in ground arith
]

other :
    (i j at : ℕ) (rows : List ControlRow)
    → i ≢ j
    → Option.map (λ a. if claimable i a then claimed_row at a else a) (first (with_id j) rows)
      ≡ first (with_id j) rows
other i j at rows ne = elim (Option-cases (first (with_id j) rows)) [
  | inl f ↦ rw f
  | inr (y, f) ↦ let e = first-eq-some (with_id j) rows y f in rw f (ground arith)
]

-- With unique ids, a claim of a request that is there succeeds exactly if it is pending; it then
-- marks it claimed at that time, and leaves other requests as they are.
pub claim-first :
    (i at j : ℕ) (rows : List ControlRow) (x : ControlRow)
    → Unique (λ r. r.id) rows
    → first (with_id i) rows ≡ some x
    → ((claim_control_request i at rows).0 ≡ is_open x)
      × (first (with_id i) (claim_control_request i at rows).1
          ≡ some (if is_open x then claimed_row at x else x))
      × (i ≢ j → first (with_id j) (claim_control_request i at rows).1 ≡ first (with_id j) rows)
unfolding claim_control_request
claim-first i at j rows x u f = (
  counted i rows x u f,
  rw (first-update (λ r. r.id) i (claimable i) (claimed_row at) rows (λ _. refl))
      (rw f (rw (first-eq-some (with_id i) rows x f))),
  (λ ne.
      rw (first-update (λ r. r.id) j (claimable i) (claimed_row at) rows (λ _. refl))
        (other i j at rows ne)),
)
