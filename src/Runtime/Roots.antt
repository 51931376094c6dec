-- ===== src/Runtime/Roots.antt =====
-- Which root a file is matched with.
use versarr.Base.{
  Bool-cases, FilePath, List, Option, Option-cases, [], arith, beq_self, inl, inr, member, nat_eq,
  path_eq, refl, some, string_eq, true, ◌==◌, ◌||◌, ◌∷◌, ◌≡◌,
}
use versarr.Domain.{ok}
use versarr.Runtime.{first_root, match_root}
use versarr.Settings.{is_under}

-- The resolved file is the resolved root or lies under it.
abbrev pub IsWithin : (FilePath → Option FilePath) → FilePath → FilePath → Type 0
IsWithin resolve path root =
    (r : FilePath) × (resolve root ≡ some r) × ((path == r || is_under r path) ≡ true)

first_root-IsWithin :
    (resolve : FilePath → Option FilePath) (path root : FilePath) (roots : List FilePath)
    → first_root resolve path roots ≡ ok (some root)
    → (member root roots ≡ true) × IsWithin resolve path root
unfolding first_root member
first_root-IsWithin resolve path root [] h = absurd (ground arith)
first_root-IsWithin resolve path root (r ∷ t) h = elim (Option-cases (resolve r)) [
  | inl n ↦ absurd (ground arith)
  | inr (p, e) ↦ elim (Bool-cases (path == p || is_under p path)) [
    | inl within ↦
        let same : root ≡ r = ground arith in (rw (same, beq_self r) refl, (p, rw same e, within))
    | inr without ↦
        let later : first_root resolve path t ≡ ok (some root) = ground arith in
        let (m, w) = first_root-IsWithin resolve path root t later in (ground (arith, m), w)
  ]
]

-- A file is matched with one of the roots, and its resolved path is that of the root or lies
-- under it.
pub match_root-IsWithin :
    (resolve : FilePath → Option FilePath) (roots : List FilePath) (media root : FilePath)
    → match_root resolve roots media ≡ ok (some root)
    → (path : FilePath) × (resolve media ≡ some path)
      × (member root roots ≡ true)
      × IsWithin resolve path root
unfolding match_root
match_root-IsWithin resolve roots media root h = elim (Option-cases (resolve media)) [
  | inl n ↦ absurd (ground arith)
  | inr (path, e) ↦
      let (m, w) = first_root-IsWithin resolve path root roots (ground arith) in (path, e, m, w)
]
