-- ===== src/Snapshots/Present.antt =====
-- Tombstones: the chunked updates are one update, and what it leaves alive is present.
use versarr.Base.{
  All, Bool, Bool-cases, FilePath, List, Unique, [], ap, arith, beq→eq, drop, false, first,
  first-eq-some, first-update, if◌then◌else◌, inl, inr, keep, le_refl, length, member, nat_eq, not,
  path_beq_iff, path_eq, refl, some, some-injective, string_eq, subst, suc, sym, take, update,
  update-update, zero, ℕ, ◌&&◌, ◌++◌, ◌<◌, ◌==◌, ◌||◌, ◌∙◌, ◌∷◌, ◌≡◌, ◌≢◌, ◌≤◌,
}
use versarr.Schema.{SnapshotRow}
use versarr.Snapshots.{
  chunk_size, is_tracked, mark_missing_snapshots_deleted, missing_paths, paths_of, tombstone,
  tombstone_chunks, with_path,
}

member-append :
    (a : FilePath) (xs ys : List FilePath) → member a (xs ++ ys) ≡ (member a xs || member a ys)
unfolding member
member-append a [] ys = refl
member-append a (x ∷ xs) ys = ground (arith, member-append a xs ys)

take-append-drop : (n : ℕ) (xs : List FilePath) → take n xs ++ drop n xs ≡ xs
take-append-drop zero xs = refl
take-append-drop (suc n) [] = refl
take-append-drop (suc n) (x ∷ xs) = rw (take-append-drop n xs)

length-drop-le :
    (n : ℕ) (x : FilePath) (xs : List FilePath) → length (drop (suc n) (x ∷ xs)) ≤ length xs
length-drop-le zero x xs = omega arith
length-drop-le (suc n) x [] = omega arith
length-drop-le (suc n) x (y ∷ xs) = omega (arith, length-drop-le n y xs)

-- Two updates of tombstones at one time are one.
tombstone-tombstone :
    (at : ℕ) (xs ys : List FilePath) (rows : List SnapshotRow)
    → tombstone at ys (tombstone at xs rows) ≡ tombstone at (xs ++ ys) rows
unfolding tombstone
tombstone-tombstone at xs ys rows =
    update-update (λ r. member r.media_path xs) (λ r. member r.media_path ys)
      (λ r. member r.media_path (xs ++ ys)) _ rows (λ _. refl) (λ _. refl)
      (λ r. member-append r.media_path xs ys)

tombstone-nil : (at : ℕ) (rows : List SnapshotRow) → tombstone at [] rows ≡ rows
unfolding tombstone update member
tombstone-nil at [] = refl
tombstone-nil at (r ∷ t) = ap (λ u. r ∷ u) (tombstone-nil at t)

-- With enough fuel and slices of at least one, the loop over slices of paths does what one update
-- over all of them does.
pub tombstone_chunks-eq :
    (fuel size at : ℕ) (paths : List FilePath) (rows : List SnapshotRow)
    → 0 < size
    → length paths ≤ fuel
    → tombstone_chunks fuel size at paths rows ≡ tombstone at paths rows
unfolding tombstone_chunks
tombstone_chunks-eq zero size at [] rows h k = sym (tombstone-nil at rows)
tombstone_chunks-eq zero size at (p ∷ ps) rows h k = absurd (omega arith)
tombstone_chunks-eq (suc fuel) size at [] rows h k = sym (tombstone-nil at rows)
tombstone_chunks-eq (suc fuel) zero at (p ∷ ps) rows h k = absurd (omega arith)
tombstone_chunks-eq (suc fuel) (suc size) at (p ∷ ps) rows h k =
    tombstone_chunks-eq fuel (suc size) at (drop (suc size) (p ∷ ps)) _ h
      (omega (arith, length-drop-le size p ps))
    ∙ tombstone-tombstone at (take (suc size) (p ∷ ps)) (drop (suc size) (p ∷ ps)) rows
    ∙ ap (λ ys. tombstone at ys rows) (take-append-drop (suc size) (p ∷ ps))

member-keep :
    (k : FilePath) (p : FilePath → Bool) (xs : List FilePath)
    → member k (keep p xs) ≡ (member k xs && p k)
unfolding member keep
member-keep k p [] = refl
member-keep k p (x ∷ xs) = ground (arith, path_beq_iff k x, member-keep k p xs)

member-absent :
    (k : FilePath) (q : SnapshotRow → Bool) (rows : List SnapshotRow)
    → All (λ r. r.media_path ≢ k) rows
    → member k (paths_of (keep q rows)) ≡ false
unfolding member keep paths_of
member-absent k q [] all = refl
member-absent k q (r ∷ t) all =
    ground (arith, all.0, path_beq_iff k r.media_path, member-absent k q t all.1)

member-kept :
    (k : FilePath) (q : SnapshotRow → Bool) (rows : List SnapshotRow) (x : SnapshotRow)
    → Unique (λ r. r.media_path) rows
    → first (with_path k) rows ≡ some x
    → member k (paths_of (keep q rows)) ≡ q x
unfolding member keep paths_of first
member-kept k q [] x u f = absurd (cc)
member-kept k q (r ∷ t) x u f = elim (Bool-cases (r.media_path == k)) [
  | inl m ↦
      let same : r ≡ x = some-injective r x (rw m at f) in
      let e : r.media_path ≡ k = beq→eq r.media_path k m in
      let gone = member-absent k q t (subst (λ j. All (λ s. s.media_path ≢ j) t) e u.0) in
      subst (λ y. member k (paths_of (keep q (r ∷ t))) ≡ q y) same
        (ground (arith, path_beq_iff k r.media_path))
  | inr m ↦
      let rest = member-kept k q t x u.1 (rw m at f) in
      ground (arith, path_beq_iff k r.media_path, path_beq_iff r.media_path k)
]

tombstone-first :
    (at : ℕ) (paths : List FilePath) (rows : List SnapshotRow) (k : FilePath) (x : SnapshotRow)
    {b : Bool}
    → first (with_path k) rows ≡ some x
    → member x.media_path paths ≡ b
    → first (with_path k) (tombstone at paths rows)
      ≡ some (if b then record x { deleted_at = some at } else x)
unfolding tombstone
tombstone-first at paths rows k x f m =
    rw
      (first-update (λ r. r.media_path) k (λ r. member r.media_path paths)
        (λ r. record r { deleted_at = some at }) rows (λ _. refl))
      (rw f (rw m))

-- With unique paths, marking the missing files sets the deletion time of a row exactly if it is of
-- the root, alive and not present, and leaves it as it is otherwise.
pub mark_missing-first :
    (root : FilePath) (present : List FilePath) (at : ℕ) (rows : List SnapshotRow) (k : FilePath)
    (x : SnapshotRow)
    → Unique (λ r. r.media_path) rows
    → first (with_path k) rows ≡ some x
    → first (with_path k) (mark_missing_snapshots_deleted root present at rows).1
      ≡ some (
          if is_tracked root x && not (member k present)
          then record x { deleted_at = some at }
          else x)
unfolding mark_missing_snapshots_deleted missing_paths
mark_missing-first root present at rows k x u f =
    let missing = missing_paths root present rows in
    let p : x.media_path ≡ k = beq→eq x.media_path k (first-eq-some (with_path k) rows x f) in
    let listed : member k missing ≡ (is_tracked root x && not (member k present)) =
      rw
        (member-keep k (λ path. not (member path present)) (paths_of (keep (is_tracked root) rows)))
        (rw (member-kept k (is_tracked root) rows x u f)) in
    rw (tombstone_chunks-eq (length missing) chunk_size at missing rows (omega arith) (le_refl _)) (
      tombstone-first at missing rows k x f (
        subst (λ j. member j missing ≡ (is_tracked root x && not (member k present))) (sym p)
          listed))
