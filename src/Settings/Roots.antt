-- ===== src/Settings/Roots.antt =====
-- What `validate_library_roots` accepts.
use versarr.Base.{
  All, All-both, Bool, Bool-cases, FilePath, List, Option, [], any, arith, false, if◌then◌else◌,
  inl, inr, length, map, member, nat_eq, none, not, path_beq_iff, path_eq, some, some-injective,
  string_eq, true, ◌<◌, ◌∷◌, ◌≡◌, ◌≢◌,
}
use versarr.Settings.{any_overlap, has_duplicates, overlap, validate_library_roots}

-- Each root differs from every later one, and neither lies under the other by the resolved paths.
abbrev pub Apart : (FilePath → Option FilePath) → List FilePath → Type 0
Apart resolve [] = Unit
Apart resolve (r ∷ rs) = All (λ o. (r ≢ o) × (overlap resolve r o ≡ false)) rs × Apart resolve rs

none_pass :
    (p : FilePath → Bool) (rs : List FilePath) → any p rs ≡ false → All (λ o. p o ≡ false) rs
unfolding any
none_pass p [] h = tt
none_pass p (r ∷ rs) h = (ground arith, none_pass p rs (ground arith))

All-there :
    (exists : FilePath → Bool) (rs : List FilePath)
    → any (λ r. not (exists r)) rs ≡ false
    → All (λ r. exists r ≡ true) rs
unfolding any
All-there exists [] h = tt
All-there exists (r ∷ rs) h = (ground arith, All-there exists rs (ground arith))

All-differ : (r : FilePath) (rs : List FilePath) → member r rs ≡ false → All (λ o. r ≢ o) rs
unfolding member
All-differ r [] h = tt
All-differ r (o ∷ rs) h = ((λ e. ground (arith, path_beq_iff r o)), All-differ r rs (ground arith))

pairwise :
    (resolve : FilePath → Option FilePath) (rs : List FilePath)
    → has_duplicates rs ≡ false
    → any_overlap resolve rs ≡ false
    → Apart resolve rs
unfolding has_duplicates any_overlap
pairwise resolve [] d o = tt
pairwise resolve (r ∷ rs) d o = (
  All-both (λ o'. r ≢ o') (λ o'. overlap resolve r o' ≡ false) rs (All-differ r rs (ground arith))
      (none_pass (overlap resolve r) rs (ground arith)),
  pairwise resolve rs (ground arith) (ground arith),
)

checked :
    (exists : FilePath → Bool) (resolve : FilePath → Option FilePath) (rs out : List FilePath)
    → (if has_duplicates rs
        then none
        else if any (λ r. not (exists r)) rs
        then none
        else if any_overlap resolve rs
        then none
        else some rs)
      ≡ some out
    → (rs ≡ out) × Apart resolve rs × All (λ r. exists r ≡ true) rs
checked exists resolve rs out h = elim (Bool-cases (has_duplicates rs)) [
  | inl a ↦ absurd (cc (rw a at h))
  | inr a ↦ elim (Bool-cases (any (λ r. not (exists r)) rs)) [
    | inl b ↦ absurd (cc (rw (a, b) at h))
    | inr b ↦ elim (Bool-cases (any_overlap resolve rs)) [
      | inl c ↦ absurd (cc (rw (a, b, c) at h))
      | inr c ↦ (
        some-injective rs out (rw (a, b, c) at h),
        pairwise resolve rs a c,
        All-there exists rs b,
      )
    ]
  ]
]

-- Accepted library roots are the expanded ones, at least one, all existing, and pairwise different
-- with neither resolved path under the other.
pub validate_library_roots-accepts :
    (expanduser : FilePath → FilePath) (exists : FilePath → Bool)
    (resolve : FilePath → Option FilePath) (roots out : List FilePath)
    → validate_library_roots expanduser exists resolve roots ≡ some out
    → (0 < length roots)
      × (map expanduser roots ≡ out)
      × Apart resolve (map expanduser roots)
      × All (λ r. exists r ≡ true) (map expanduser roots)
unfolding validate_library_roots
validate_library_roots-accepts expanduser exists resolve [] out h = absurd (cc)
validate_library_roots-accepts expanduser exists resolve (r ∷ rs) out h =
    let c = checked exists resolve (map expanduser (r ∷ rs)) out h in (omega arith, c.0, c.1, c.2)
