-- ===== src/Runtime/Scans.antt =====
-- What one scan does to the queue and to what the database has seen.
use versarr.Base.{
  Bool, Bool-cases, FilePath, List, [], arith, drop, first, inl, inr, nat_eq, none, path_eq, refl,
  string_eq, suc, true, update, zero, ℕ, ◌&&◌, ◌==◌, ◌∷◌, ◌≡◌,
}
use versarr.Domain.{Raised, Result, ScanKind, TriggerKind, is_exception, ok, raised}
use versarr.Jobs.{Enqueue}
use versarr.Reconciliation.Queued.{has_queued, ingest_all-keeps}
use versarr.Reconciliation.Scan.{
  ScanInputs, ingest_all, ingest_candidate, mark_gone, scan_enqueue, scan_with, to_evaluate,
}
use versarr.Schema.{Database, SnapshotRow}
use versarr.Snapshots.{
  chunk_size, mark_missing_snapshots_deleted, tombstone, tombstone_chunks, with_path,
}

first-update-none :
    {A : Type 0} (p q : A → Bool) (f : A → A) (t : List A)
    → ((a : A) → p (f a) ≡ p a)
    → first p t ≡ none
    → first p (update q f t) ≡ none
unfolding first update
first-update-none p q f [] same h = refl
first-update-none p q f (a ∷ t) same h = elim (Bool-cases (p a)) [
  | inl m ↦ absurd (ground arith)
  | inr m ↦
      let rest = first-update-none p q f t same (rw m at h) in
      elim (Bool-cases (q a)) [ inl b ↦ rw (b, same a, m) rest | inr b ↦ rw (b, m) rest ]
]

abbrev tracked_as : FilePath → FilePath → SnapshotRow → Bool
tracked_as root k r = r.library_root == root && with_path k r

-- The table has no row of that root and path.
abbrev pub IsUnseen : FilePath → FilePath → Database → Type 0
IsUnseen root k d = first (tracked_as root k) d.track_snapshots ≡ none

chunks-IsUnseen :
    (root k : FilePath) (fuel size at : ℕ) (paths : List FilePath) (rows : List SnapshotRow)
    → first (tracked_as root k) rows ≡ none
    → first (tracked_as root k) (tombstone_chunks fuel size at paths rows) ≡ none
unfolding tombstone_chunks tombstone
chunks-IsUnseen root k zero size at paths rows h = h
chunks-IsUnseen root k (suc n) size at [] rows h = h
chunks-IsUnseen root k (suc n) size at (p ∷ ps) rows h =
    chunks-IsUnseen root k n size at (drop size (p ∷ ps)) _
      (first-update-none (tracked_as root k) _ _ rows (λ _. refl) h)

ingest_all-snapshots :
    (queued_at : FilePath → ℕ) (call : FilePath → Enqueue) (ps : List FilePath) (d : Database)
    → (ingest_all queued_at call ps d).track_snapshots ≡ d.track_snapshots
unfolding ingest_all ingest_candidate
ingest_all-snapshots queued_at call [] d = refl
ingest_all-snapshots queued_at call (p ∷ ps) d = ingest_all-snapshots queued_at call ps _

mark_gone-IsUnseen :
    (i : ScanInputs) (at : FilePath) (candidates : List FilePath) (root k : FilePath) (d : Database)
    → IsUnseen root k d
    → IsUnseen root k (mark_gone i at candidates d)
unfolding mark_gone mark_missing_snapshots_deleted
mark_gone-IsUnseen i at candidates root k d h = elim (Bool-cases i.root_is_dir) [
  | inl b ↦ rw b (chunks-IsUnseen root k _ chunk_size i.marked_at _ d.track_snapshots h)
  | inr b ↦ rw b h
]

pub mark_gone-jobs :
    (i : ScanInputs) (at : FilePath) (candidates : List FilePath) (d : Database)
    → (mark_gone i at candidates d).jobs ≡ d.jobs
unfolding mark_gone
mark_gone-jobs i at candidates d = elim (Bool-cases i.root_is_dir) [
  | inl b ↦ rw b refl
  | inr b ↦ rw b refl
]

module _ (revisit : ℕ) (i : ScanInputs) (at : FilePath) (kind : ScanKind)
    (trigger : TriggerKind) where
  pub scan_with-IsUnseen :
      (r : Result (List FilePath)) (all : Bool) (root k : FilePath) (d : Database)
      → IsUnseen root k d
      → IsUnseen root k (scan_with revisit i at kind trigger all r d).1
  scan_with-IsUnseen (ok candidates) all root k d h =
      let paths = to_evaluate revisit i at all candidates d in
      let queued = ingest_all i.queued_at (scan_enqueue at kind trigger) paths d in
      let e : queued.track_snapshots ≡ d.track_snapshots =
        ingest_all-snapshots i.queued_at (scan_enqueue at kind trigger) paths d in
      mark_gone-IsUnseen i at candidates root k queued (rw e h)
  scan_with-IsUnseen (raised e) all root k d h = elim (Bool-cases (is_exception e)) [
    | inl b ↦ rw b h
    | inr b ↦ rw b h
  ]

  pub scan_with-keeps :
      (r : Result (List FilePath)) (all : Bool) (k : FilePath) (d : Database)
      → has_queued k d.jobs ≡ true
      → has_queued k (scan_with revisit i at kind trigger all r d).1.jobs ≡ true
  scan_with-keeps (ok candidates) all k d h =
      let paths = to_evaluate revisit i at all candidates d in
      let queued = ingest_all i.queued_at (scan_enqueue at kind trigger) paths d in
      rw (mark_gone-jobs i at candidates queued)
        (ingest_all-keeps i.queued_at (scan_enqueue at kind trigger) paths k d h)
  scan_with-keeps (raised e) all k d h = elim (Bool-cases (is_exception e)) [
    | inl b ↦ rw b h
    | inr b ↦ rw b h
  ]

  pub scan_with-raises :
      (r : Result (List FilePath)) (all : Bool) (d : Database) (e : Raised)
      → (scan_with revisit i at kind trigger all r d).0 ≡ raised e
      → r ≡ raised e
  scan_with-raises (ok candidates) all d e h = absurd (ground arith)
  scan_with-raises (raised x) all d e h = ground arith
