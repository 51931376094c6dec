-- ===== src/Gaps/Order.antt =====
-- What sorting the summaries keeps.
use versarr.Base.{
  Bool, Bool-cases, FilePath, List, Option, [], arith, beq_self, beq→eq, false, first,
  if◌then◌else◌, inl, inr, nat_eq, path_eq, refl, some, string_eq, true, ℕ, ◌+◌, ◌∷◌, ◌≡◌,
}
use versarr.Domain.{DirectoryGapSummary}
use versarr.Gaps.{
  comes_before, count_rows, gap_facts, is_for, list_directory_gap_summaries, insert_sorted,
  snapshot_rows, sorted, summaries_of,
}
use versarr.Gaps.Report.{sum_of}
use versarr.Schema.{Database, SnapshotRow}

key_of :
    (s : DirectoryGapSummary) (root directory : FilePath)
    → is_for root directory s ≡ true
    → (s.library_root ≡ root) × (s.directory_path ≡ directory)
key_of s root directory h = (beq→eq _ _ (ground arith), beq→eq _ _ (ground arith))

module _ (text_lt : FilePath → FilePath → Bool) where
  sum-insert_sorted :
      (field : DirectoryGapSummary → ℕ) (s : DirectoryGapSummary) (t : List DirectoryGapSummary)
      → sum_of field (insert_sorted text_lt s t) ≡ field s + sum_of field t
  unfolding insert_sorted
  sum-insert_sorted field s [] = refl
  sum-insert_sorted field s (x ∷ t) = elim (Bool-cases (comes_before text_lt x s)) [
    | inl m ↦ rw (m, sum-insert_sorted field s t) (omega arith)
    | inr m ↦ rw m refl
  ]

  pub sum-sorted :
      (field : DirectoryGapSummary → ℕ) (t : List DirectoryGapSummary)
      → sum_of field (sorted text_lt t) ≡ sum_of field t
  unfolding sorted
  sum-sorted field [] = refl
  sum-sorted field (s ∷ t) =
      rw (sum-insert_sorted field s (sorted text_lt t), sum-sorted field t) refl

  -- No text comes before itself.
  abbrev pub Irreflexive : Type 0
  Irreflexive = (p : FilePath) → text_lt p p ≡ false

  before_other_key :
      (x s : DirectoryGapSummary) (root directory : FilePath)
      → Irreflexive
      → comes_before text_lt x s ≡ true
      → is_for root directory s ≡ true
      → is_for root directory x ≡ false
  before_other_key x s root directory irreflexive h m =
      elim (Bool-cases (is_for root directory x)) [
        | inl n ↦
            let (a, b) = key_of s root directory m in
            let (c, e) = key_of x root directory n in
            absurd (cc (rw (c, a, e, b, beq_self root, irreflexive directory) at h))
        | inr n ↦ n
      ]

  first-insert_sorted :
      (s : DirectoryGapSummary) (root directory : FilePath) (t : List DirectoryGapSummary)
      → Irreflexive
      → first (is_for root directory) (insert_sorted text_lt s t)
        ≡ (if is_for root directory s then some s else first (is_for root directory) t)
  unfolding first insert_sorted
  first-insert_sorted s root directory [] irreflexive = refl
  first-insert_sorted s root directory (x ∷ t) irreflexive =
      elim (Bool-cases (comes_before text_lt x s)) [
        | inl m ↦
            let rest = first-insert_sorted s root directory t irreflexive in
            elim (Bool-cases (is_for root directory s)) [
              | inl n ↦
                  rw (m, n, before_other_key x s root directory irreflexive m n) (rw (rest, n) refl)
              | inr n ↦ rw (m, n) (ground (arith, rest))
            ]
        | inr m ↦ rw m refl
      ]

  pub first-sorted :
      (root directory : FilePath) (t : List DirectoryGapSummary)
      → Irreflexive
      → first (is_for root directory) (sorted text_lt t) ≡ first (is_for root directory) t
  unfolding first sorted
  first-sorted root directory [] irreflexive = refl
  first-sorted root directory (s ∷ t) irreflexive =
      rw
        (
          first-insert_sorted s root directory (sorted text_lt t) irreflexive,
          first-sorted root directory t irreflexive,
        )
        refl

summaries_of-eq :
    (text_lt : FilePath → FilePath → Bool) (now : ℕ) (rows : List SnapshotRow) (d : Database)
    → summaries_of text_lt now rows d ≡ sorted text_lt (count_rows (gap_facts now rows d) rows [])
unfolding sorted count_rows
summaries_of-eq text_lt now [] d = refl
summaries_of-eq text_lt now (r ∷ t) d = refl

-- The early answer for no rows is what the loop gives.
pub list_directory_gap_summaries-eq :
    (text_lt : FilePath → FilePath → Bool) (now : ℕ) (library_root : Option FilePath) (d : Database)
    → list_directory_gap_summaries text_lt now library_root d
      ≡ sorted text_lt (
          count_rows
            (gap_facts now (snapshot_rows library_root d) d)
            (snapshot_rows library_root d)
            [])
unfolding list_directory_gap_summaries
list_directory_gap_summaries-eq text_lt now library_root d =
    summaries_of-eq text_lt now (snapshot_rows library_root d) d
