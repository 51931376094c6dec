-- ===== src/Runtime/Queued.antt =====
-- What a reconciliation step of all roots leaves in the queue.
use versarr.Base.{
  All, Bool-cases, FilePath, List, Option, [], ap, arith, beq→eq, false, inl, inr, member, nat_eq,
  none, path_eq, refl, some, string_eq, subst, true, ℕ, ◌==◌, ◌∙◌, ◌∷◌, ◌≡◌, ◌≢◌,
}
use versarr.Domain.{Raised, Result, Result-cases, ScanKind, TriggerKind, is_exception, ok, raised}
use versarr.Reconciliation.{FileFacts, needs_evaluation}
use versarr.Reconciliation.Queued.{has_queued, scan_root-queues}
use versarr.Reconciliation.Scan.{ScanInputs, scan_root, scan_started}
use versarr.Runtime.Scans.{IsUnseen, scan_with-IsUnseen, scan_with-keeps, scan_with-raises}
use versarr.Runtime.Steps.{first_error, raise_first, reconciliation_step, scan_roots}
use versarr.Schema.{Database}
use versarr.Snapshots.{list_reconciliation_records}

cancelled_only : (e : Raised) → is_exception e ≡ false → e ≡ Raised.cancelled
cancelled_only e h = ground arith

abbrev reconciled : ℕ → (FilePath → ScanInputs) → FilePath → Database → Result ℕ × Database
reconciled revisit inputs root =
    scan_root revisit (inputs root) root ScanKind.reconciliation TriggerKind.reconciliation false

module _ (revisit : ℕ) (inputs : FilePath → ScanInputs) where
  reconciled-keeps :
      (root k : FilePath) (d : Database)
      → has_queued k d.jobs ≡ true
      → has_queued k (reconciled revisit inputs root d).1.jobs ≡ true
  unfolding scan_root
  reconciled-keeps root k d h =
      scan_with-keeps revisit (inputs root) root ScanKind.reconciliation TriggerKind.reconciliation
        (inputs root).scanned false k (scan_started (inputs root) root ScanKind.reconciliation d) h

  reconciled-IsUnseen :
      (at root k : FilePath) (d : Database)
      → IsUnseen root k d
      → IsUnseen root k (reconciled revisit inputs at d).1
  unfolding scan_root
  reconciled-IsUnseen at root k d h =
      scan_with-IsUnseen revisit (inputs at) at ScanKind.reconciliation TriggerKind.reconciliation
        (inputs at).scanned false root k (scan_started (inputs at) at ScanKind.reconciliation d) h

  reconciled-queues :
      (root k : FilePath) (candidates : List FilePath) (f : FileFacts) (d : Database)
      → (inputs root).scanned ≡ ok candidates
      → member k candidates ≡ true
      → (inputs root).stat k ≡ some f
      → IsUnseen root k d
      → has_queued k (reconciled revisit inputs root d).1.jobs ≡ true
  unfolding list_reconciliation_records needs_evaluation
  reconciled-queues root k candidates f d c found stat unseen =
      scan_root-queues revisit (inputs root) root ScanKind.reconciliation TriggerKind.reconciliation
        d candidates k f c found stat (rw unseen refl)

  reconciled-raises :
      (root : FilePath) (d : Database) (e : Raised)
      → (reconciled revisit inputs root d).0 ≡ raised e
      → (inputs root).scanned ≡ raised e
  unfolding scan_root
  reconciled-raises root d e h =
      scan_with-raises revisit (inputs root) root ScanKind.reconciliation TriggerKind.reconciliation
        (inputs root).scanned false (scan_started (inputs root) root ScanKind.reconciliation d) e h

  scan_roots-keeps :
      (k : FilePath) (error : Option Raised) (roots : List FilePath) (d : Database)
      → has_queued k d.jobs ≡ true
      → has_queued k (scan_roots revisit inputs error roots d).1.jobs ≡ true
  unfolding scan_roots
  scan_roots-keeps k error [] d h = h
  scan_roots-keeps k error (root ∷ t) d h =
      let kept = reconciled-keeps root k d h in
      let go_on =
        λ (e : Option Raised). scan_roots-keeps k e t (reconciled revisit inputs root d).1 kept in
      elim (Result-cases (reconciled revisit inputs root d).0) [
        | inl (n, e) ↦ rw (scan_roots, e) (go_on error)
        | inr (x, e) ↦ elim (Bool-cases (is_exception x)) [
          | inl b ↦ rw (scan_roots, e, b) (go_on (first_error error x))
          | inr b ↦ rw (scan_roots, e, b) kept
        ]
      ]

  -- No scan of these roots is cancelled.
  abbrev pub RunsOn : List FilePath → Type 0
  RunsOn roots = All (λ root. (inputs root).scanned ≢ raised Raised.cancelled) roots

  -- The loop goes on with the other roots after a scan that is not cancelled.
  scan_roots-goes_on :
      (error : Option Raised) (root : FilePath) (t : List FilePath) (d : Database)
      → (inputs root).scanned ≢ raised Raised.cancelled
      → (e : Option Raised) × (scan_roots revisit inputs error (root ∷ t) d
          ≡ scan_roots revisit inputs e t (reconciled revisit inputs root d).1)
  unfolding scan_roots
  scan_roots-goes_on error root t d runs =
      elim (Result-cases (reconciled revisit inputs root d).0) [
        | inl (n, e) ↦ (error, rw (scan_roots, e) refl)
        | inr (x, e) ↦ elim (Bool-cases (is_exception x)) [
          | inl b ↦ (first_error error x, rw (scan_roots, e, b) refl)
          | inr b ↦ absurd (runs (reconciled-raises root d x e ∙ ap raised (cancelled_only x b)))
        ]
      ]

  module _ (root k : FilePath) (candidates : List FilePath) (f : FileFacts) where
    scan_roots-queues :
        (roots : List FilePath) (error : Option Raised) (d : Database)
        → RunsOn roots
        → member root roots ≡ true
        → (inputs root).scanned ≡ ok candidates
        → member k candidates ≡ true
        → (inputs root).stat k ≡ some f
        → IsUnseen root k d
        → has_queued k (scan_roots revisit inputs error roots d).1.jobs ≡ true
    unfolding member
    scan_roots-queues [] error d runs m c found stat unseen = absurd (cc)
    scan_roots-queues (r ∷ t) error d (runs, later) m c found stat unseen =
        let (e', step) = scan_roots-goes_on error r t d runs in
        rw step (elim (Bool-cases (root == r)) [
          | inl same ↦ scan_roots-keeps k e' t _ (
              subst (λ j. has_queued k (reconciled revisit inputs j d).1.jobs ≡ true)
                (beq→eq root r same) (reconciled-queues root k candidates f d c found stat unseen))
          | inr other ↦
              scan_roots-queues t e' _ later (rw other at m) c found stat
                (reconciled-IsUnseen r root k d unseen)
        ])

raise_first-database : (x : Result (Option Raised) × Database) → (raise_first x).1 ≡ x.1
raise_first-database (ok none, d) = refl
raise_first-database (ok (some e), d) = refl
raise_first-database (raised e, d) = refl

-- After a reconciliation step of which no scan is cancelled, a readable file that the scan of one
-- root finds, and that the database has no snapshot of under that root, has a job that is pending,
-- or processing and dirty, also where the scans of other roots raise.
pub reconciliation_step-queues :
    (revisit : ℕ) (inputs : FilePath → ScanInputs) (roots : List FilePath) (root k : FilePath)
    (candidates : List FilePath) (f : FileFacts) (d : Database)
    → RunsOn revisit inputs roots
    → member root roots ≡ true
    → (inputs root).scanned ≡ ok candidates
    → member k candidates ≡ true
    → (inputs root).stat k ≡ some f
    → IsUnseen root k d
    → has_queued k (reconciliation_step revisit inputs roots d).1.jobs ≡ true
unfolding reconciliation_step
reconciliation_step-queues revisit inputs roots root k candidates f d runs m c found stat unseen =
    let scanned = scan_roots revisit inputs none roots d in
    rw (raise_first-database scanned)
      (scan_roots-queues revisit inputs root k candidates f roots none d runs m c found stat unseen)
