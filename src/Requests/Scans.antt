-- ===== src/Requests/Scans.antt =====
-- The checkpoint of a scan.
use versarr.Base.{
  FilePath, List, Option, Option-cases, String, beq_self, first, first-insert, inl, inr, nat_eq,
  none, path_eq, refl, some, string_eq, true, update-found, ℕ, ◌&&◌, ◌==◌, ◌∙◌, ◌≡◌,
}
use versarr.Domain.{ScanKind, scan_kind_beq}
use versarr.Jobs.{completed}
use versarr.Requests.{
  new_scan, record_scan_finish, record_scan_start, record_scan_state, scan_values, with_scan,
}
use versarr.Schema.{ScanStateRow}

scan_self : (root : FilePath) (kind : ScanKind) → (root == root && scan_kind_beq kind kind) ≡ true
scan_self root ScanKind.startup = rw (beq_self root)
scan_self root ScanKind.reconciliation = rw (beq_self root)

abbrev written :
    FilePath
    → ScanKind
    → Option ℕ
    → Option ℕ
    → Option String
    → Option String
    → Option ScanStateRow
    → ScanStateRow
written root kind started completed status error_code none =
    new_scan root kind started completed status error_code
written root kind started completed status error_code (some r) =
    scan_values root kind started completed status error_code r

-- The checkpoint after a write, from the one before it.
record_scan_state-first :
    (root : FilePath) (kind : ScanKind) (started completed : Option ℕ)
    (status error_code : Option String) (rows : List ScanStateRow)
    → first
        (with_scan root kind)
        (record_scan_state root kind started completed status error_code rows)
      ≡ some
          (written root kind started completed status error_code (first (with_scan root kind) rows))
unfolding record_scan_state
record_scan_state-first root kind started completed status error_code rows =
    elim (Option-cases (first (with_scan root kind) rows)) [
      | inl n ↦
          rw n (rw (first-insert (with_scan root kind) _ rows) (rw n (rw (scan_self root kind))))
      | inr (x, n) ↦ rw n (
          update-found (with_scan root kind)
            (scan_values root kind started completed status error_code) rows x
            (λ _ _. scan_self root kind) n)
    ]

-- After a scan is recorded as started and finished, its checkpoint has both times, the status and
-- the error code given.
pub scan_start-finish :
    (root : FilePath) (kind : ScanKind) (started finished : ℕ) (status : String)
    (error_code : Option String) (rows : List ScanStateRow)
    → (r : ScanStateRow) × (first (with_scan root kind) (
          record_scan_finish root kind finished status error_code
            (record_scan_start root kind started rows))
        ≡ some r)
      × (r.last_started_at ≡ some started)
      × (r.last_completed_at ≡ some finished)
      × (r.last_status ≡ some status)
      × (r.last_error_code ≡ error_code)
unfolding record_scan_finish record_scan_start record_scan_state
scan_start-finish root kind started finished status error_code rows =
    let begun = record_scan_start root kind started rows in
    let before = record_scan_state-first root kind (some started) none none none rows in
    let old = first (with_scan root kind) rows in
    let z = written root kind (some started) none none none old in
    (
      scan_values root kind none (some finished) (some status) error_code z,
      record_scan_state-first root kind none (some finished) (some status) error_code begun
          ∙ rw before,
      started_kept old,
      refl,
      refl,
      refl,
    )
  where
    started_kept :
        (old : Option ScanStateRow)
        → (written root kind (some started) none none none old).last_started_at ≡ some started
    started_kept none = refl
    started_kept (some r) = refl
