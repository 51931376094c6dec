-- ===== src/Provenance/Refinement.antt =====
-- The provenance table as a map from tracks to records: what the operations promise, with no rows.
use mathlib.Core.Option
use versarr.Base.{
  FilePath, List, Option, Option-cases, [], arith, beq→eq, first, first-eq-some, if◌then◌else◌, inl,
  inr, nat_eq, path_eq, refl, some, some-injective, string_eq, true, ℕ, ◌==◌, ◌∙◌, ◌∷◌, ◌≡◌,
}
use versarr.Domain.{ProvenanceRecord}
use versarr.Provenance.{
  get_provenance, mark_manual_diverged, mark_sidecar_deleted, record_provenance, row_to_provenance,
  with_media,
}
use versarr.Provenance.Laws.{get-mark, get-record_provenance}
use versarr.Schema.{ProvenanceRow}

-- The abstract state, and the operations on it.
abbrev pub Records : Type 0
Records = FilePath → Option ProvenanceRecord

pub data Operation : Type 0 where
  record_of : ProvenanceRecord → Operation
  diverged : FilePath → Operation
  sidecar_gone : FilePath → Operation

abbrev pub changed_at : FilePath → (ProvenanceRecord → ProvenanceRecord) → Records → Records
changed_at path f s = λ p. if p == path then Option.map f (s p) else s p

abbrev pub promised : Operation → Records → Records
promised (Operation.record_of r) s = λ path. if r.media_path == path then some r else s path
promised (Operation.diverged path) s = changed_at path (λ r. record r { manual_diverged = true }) s
promised (Operation.sidecar_gone path) s =
    changed_at path (λ r. record r { sidecar_deleted = true }) s

unfoldable pub promised_all : List (ℕ × Operation) → Records → Records
promised_all [] s = s
promised_all ((now, op) ∷ ops) s = promised_all ops (promised op s)

-- The same operations on the table, each at its time.
abbrev pub run_operation : ℕ → Operation → List ProvenanceRow → List ProvenanceRow
run_operation now (Operation.record_of r) rows = record_provenance now r rows
run_operation now (Operation.diverged path) rows = mark_manual_diverged now path rows
run_operation now (Operation.sidecar_gone path) rows = mark_sidecar_deleted now path rows

unfoldable pub run_operations : List (ℕ × Operation) → List ProvenanceRow → List ProvenanceRow
run_operations [] rows = rows
run_operations ((now, op) ∷ ops) rows = run_operations ops (run_operation now op rows)

-- The table holds the map.
abbrev pub Refines : List ProvenanceRow → Records → Type 0
Refines rows s = (path : FilePath) → get_provenance path rows ≡ s path

get-media_path :
    (path : FilePath) (rows : List ProvenanceRow) (r : ProvenanceRecord)
    → get_provenance path rows ≡ some r
    → r.media_path ≡ path
unfolding get_provenance
get-media_path path rows r h = elim (Option-cases (first (with_media path) rows)) [
  | inl n ↦ absurd (cc (rw n at h))
  | inr (x, e) ↦
      let m = first-eq-some (with_media path) rows x e in
      let same : row_to_provenance x ≡ r = some-injective _ _ (rw e at h) in
      rw⁻¹ same (beq→eq x.media_path path m)
]

-- An update of the record of one track, told by its key or by its path, is one.
mark-by_path :
    (f : ProvenanceRecord → ProvenanceRecord) (path p : FilePath) (rows : List ProvenanceRow)
    → Option.map (λ r. if r.media_path == path then f r else r) (get_provenance p rows)
      ≡ (if p == path then Option.map f (get_provenance p rows) else get_provenance p rows)
mark-by_path f path p rows = elim (Option-cases (get_provenance p rows)) [
  | inl n ↦ rw n (ground arith)
  | inr (r, e) ↦ rw (e, get-media_path p rows r e) (ground arith)
]

-- One operation on the table does to the map what is promised.
run_operation-Refines :
    (now : ℕ) (op : Operation) (rows : List ProvenanceRow) (s : Records)
    → Refines rows s
    → Refines (run_operation now op rows) (promised op s)
run_operation-Refines now (Operation.record_of r) rows s h path =
    rw (get-record_provenance now r path rows, h path) refl
run_operation-Refines now (Operation.diverged path) rows s h p =
    (get-mark now path p rows).0
    ∙ mark-by_path (λ r. record r { manual_diverged = true }) path p rows
    ∙ rw (h p) refl
run_operation-Refines now (Operation.sidecar_gone path) rows s h p =
    (get-mark now path p rows).1
    ∙ mark-by_path (λ r. record r { sidecar_deleted = true }) path p rows
    ∙ rw (h p) refl

-- The provenance table refines a map from tracks to records: if it holds the map, it holds it after
-- any sequence of records, divergence marks and deletion marks on both.
pub run_operations-Refines :
    (ops : List (ℕ × Operation)) (rows : List ProvenanceRow) (s : Records)
    → Refines rows s
    → Refines (run_operations ops rows) (promised_all ops s)
unfolding run_operations promised_all
run_operations-Refines [] rows s h = h
run_operations-Refines ((now, op) ∷ ops) rows s h =
    run_operations-Refines ops (run_operation now op rows) (promised op s)
      (run_operation-Refines now op rows s h)
