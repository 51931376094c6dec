-- ===== src/Jobs.antt =====
-- The jobs table of src/versarr/infrastructure/persistence/repository.py: the operations of
-- `SqliteStateRepository` on it. Each is one transaction; `now` is the `datetime.now(UTC)` that it
-- reads. A row is named by `job_key`, which is `str(media_path)`.
pub mod Rows
pub mod Invariant
pub mod Lease
pub mod Lifecycle
pub mod Attempts
pub mod Flags
pub mod Orphans
mod Tests
use versarr.Base.{
  Bool, FilePath, List, Option, String, [], count, false, first, if◌then◌else◌, insert, keyed, leb,
  ltb, nat_beq, nat_eq, none, not, path_eq, some, string_eq, suc, update, zero, ℕ, ◌&&◌, ◌+◌, ◌-◌,
  ◌||◌, ◌∷◌,
}
use versarr.Domain.{
  EnrichmentJob, JobPriority, JobState, ReasonCode, TriggerKind, is_pending, is_processing, seconds,
}
use versarr.Schema.{JobRow}

abbrev pub with_key : FilePath → JobRow → Bool
with_key = keyed (λ r. r.job_key)

-- The arguments of `enqueue_path`.
pub record Enqueue : Type 0 where
  pub library_root : FilePath
  pub media_path : FilePath
  pub trigger : TriggerKind
  pub priority : JobPriority
  pub event_kind : String
  pub force : Bool
  pub overwrite_existing : Bool
  pub allow_manual_overwrite : Bool

-- The row that a first enqueue inserts; columns with no value are NULL.
abbrev pub new_row : ℕ → Enqueue → JobRow
new_row now e = record {
  job_key = e.media_path;
  library_root = e.library_root;
  media_path = e.media_path;
  trigger = e.trigger;
  priority = e.priority;
  state = JobState.pending;
  attempt_count = 0;
  next_attempt_at = some now;
  lease_owner = none;
  lease_until = none;
  dirty = false;
  force = e.force;
  overwrite_existing = e.overwrite_existing;
  allow_manual_overwrite = e.allow_manual_overwrite;
  last_reason_code = none;
  last_error_class = none;
  last_event_kind = some e.event_kind;
  last_event_at = some now;
  created_at = now;
  updated_at = now;
}

-- The values that a further enqueue writes, from the row `x` that it has read.
abbrev pub enqueued : ℕ → Enqueue → JobRow → JobRow → JobRow
enqueued now e x r =
    let busy = is_processing x.state in
    record r {
      trigger = e.trigger;
      priority = e.priority;
      dirty = (if busy then busy else false);
      force = e.force || x.force;
      overwrite_existing = e.overwrite_existing || x.overwrite_existing;
      allow_manual_overwrite = e.allow_manual_overwrite || x.allow_manual_overwrite;
      last_event_kind = some e.event_kind;
      last_event_at = some now;
      next_attempt_at = (if not busy then some now else x.next_attempt_at);
      attempt_count = (if busy then x.attempt_count else 0);
      state = (if not busy then JobState.pending else x.state);
      updated_at = now;
    }

unfoldable pub enqueue_path : ℕ → Enqueue → List JobRow → List JobRow
enqueue_path now e jobs = elim (first (with_key e.media_path) jobs) [
  | none ↦ insert (new_row now e) jobs
  | some x ↦ update (with_key e.media_path) (enqueued now e x) jobs
]

-- `next_attempt_at <= now`, which NULL does not pass.
abbrev pub due : Option ℕ → ℕ → Bool
due none now = false
due (some t) now = leb t now

abbrev pub is_ready : ℕ → JobRow → Bool
is_ready now r = is_pending r.state && due r.next_attempt_at now

-- The CASE of the ORDER BY.
abbrev pub rank : JobPriority → ℕ
rank JobPriority.force_manual = 0
rank JobPriority.manual = 1
rank JobPriority.watcher = 2
rank JobPriority.reconciliation = 3

-- A NULL sorts first; no ready row has one.
abbrev pub time_of : Option ℕ → ℕ
time_of none = 0
time_of (some t) = t

-- Strictly before, in the order of the ORDER BY: rank, then next_attempt_at, then created_at.
pub is_before : JobRow → JobRow → Bool
is_before a b =
    ltb (rank a.priority) (rank b.priority)
    || nat_beq (rank a.priority) (rank b.priority)
      && (ltb (time_of a.next_attempt_at) (time_of b.next_attempt_at)
          || nat_beq (time_of a.next_attempt_at) (time_of b.next_attempt_at)
            && ltb a.created_at b.created_at)

-- The earlier of a row and a candidate; of equals the one further up in the table.
abbrev pub better : JobRow → Option JobRow → JobRow
better r none = r
better r (some s) = if is_before s r then s else r

-- SELECT … WHERE ready ORDER BY … LIMIT 1.
unfoldable pub next_ready : ℕ → List JobRow → Option JobRow
next_ready now [] = none
next_ready now (r ∷ t) =
    let rest = next_ready now t in if is_ready now r then some (better r rest) else rest

-- The values that the UPDATE of a lease writes, from the row `x` that was selected.
abbrev pub leased : String → ℕ → ℕ → JobRow → JobRow → JobRow
leased worker now ttl x r = record r {
  state = JobState.processing;
  lease_owner = some worker;
  lease_until = some (now + seconds ttl);
  attempt_count = x.attempt_count + 1;
  updated_at = now;
}

abbrev pub row_to_job : JobRow → EnrichmentJob
row_to_job r = record {
  job_key = r.job_key;
  library_root = r.library_root;
  media_path = r.media_path;
  trigger = r.trigger;
  priority = r.priority;
  state = r.state;
  attempt_count = r.attempt_count;
  next_attempt_at = r.next_attempt_at;
  lease_until = r.lease_until;
  dirty = r.dirty;
  force = r.force;
  overwrite_existing = r.overwrite_existing;
  allow_manual_overwrite = r.allow_manual_overwrite;
  last_reason_code = r.last_reason_code;
}

-- The WHERE of the UPDATE: still the selected row, and still ready.
abbrev pub still_ready : ℕ → JobRow → JobRow → Bool
still_ready now x r = with_key x.job_key r && is_ready now r

-- The job that a lease returns: the row read, with three columns as they were written.
abbrev pub leased_job : ℕ → ℕ → JobRow → EnrichmentJob
leased_job now ttl x = row_to_job (record x {
  state = JobState.processing;
  lease_until = some (now + seconds ttl);
  attempt_count = x.attempt_count + 1;
})

-- The `while True` of a lease, on fuel; the outer `none` is that the fuel ran out.
unfoldable pub lease_loop :
    ℕ → String → ℕ → ℕ → List JobRow → Option (Option EnrichmentJob × List JobRow)
lease_loop zero worker now ttl jobs = none
lease_loop (suc fuel) worker now ttl jobs = elim (next_ready now jobs) [
  | none ↦ some (none, jobs)
  | some x ↦
      let jobs' = update (still_ready now x) (leased worker now ttl x) jobs in
      let rest = lease_loop fuel worker now ttl jobs' in
      if nat_beq (count (still_ready now x) jobs) 0
      then rest
      else some (some (leased_job now ttl x), jobs')
]

unfoldable pub heartbeat_job : ℕ → FilePath → ℕ → List JobRow → List JobRow
heartbeat_job now key lease_until =
    update (with_key key) (λ r. record r { lease_until = some lease_until; updated_at = now })

-- What `complete_job` reads first: the dirty flag and the attempts, of a row that may be missing.
abbrev pub read_dirty : Option JobRow → Bool
read_dirty none = false
read_dirty (some x) = x.dirty

abbrev pub read_attempts : Option JobRow → ℕ
read_attempts none = 0
read_attempts (some x) = x.attempt_count

abbrev pub completed : ℕ → ReasonCode → Bool → ℕ → JobRow → JobRow
completed now reason dirty attempts r = record r {
  state = (if dirty then JobState.pending else JobState.completed);
  dirty = false;
  next_attempt_at = (if dirty then some now else none);
  lease_owner = none;
  lease_until = none;
  last_reason_code = some reason;
  attempt_count = (if dirty then 0 else attempts);
  updated_at = now;
}

unfoldable pub complete_job : ℕ → FilePath → ReasonCode → List JobRow → List JobRow
complete_job now key reason jobs =
    let existing = first (with_key key) jobs in
    update (with_key key) (completed now reason (read_dirty existing) (read_attempts existing)) jobs

abbrev pub retried : ℕ → ReasonCode → String → ℕ → JobRow → JobRow
retried now reason error_class next_at r = record r {
  state = JobState.pending;
  lease_owner = none;
  lease_until = none;
  next_attempt_at = some next_at;
  last_reason_code = some reason;
  last_error_class = some error_class;
  updated_at = now;
}

unfoldable pub retry_job : ℕ → FilePath → ReasonCode → String → ℕ → List JobRow → List JobRow
retry_job now key reason error_class next_at =
    update (with_key key) (retried now reason error_class next_at)

-- `attempt_count - 1` where it is above 0, else 0: truncated subtraction.
abbrev pub deferred : ℕ → ReasonCode → ℕ → JobRow → JobRow
deferred now reason next_at r = record r {
  state = JobState.pending;
  lease_owner = none;
  lease_until = none;
  next_attempt_at = some next_at;
  attempt_count = (if ltb 0 r.attempt_count then r.attempt_count - 1 else 0);
  last_reason_code = some reason;
  updated_at = now;
}

unfoldable pub defer_job : ℕ → FilePath → ReasonCode → ℕ → List JobRow → List JobRow
defer_job now key reason next_at = update (with_key key) (deferred now reason next_at)

abbrev pub failed : ℕ → ReasonCode → String → JobRow → JobRow
failed now reason error_class r = record r {
  state = JobState.failed;
  lease_owner = none;
  lease_until = none;
  next_attempt_at = none;
  last_reason_code = some reason;
  last_error_class = some error_class;
  updated_at = now;
}

unfoldable pub fail_job : ℕ → FilePath → ReasonCode → String → List JobRow → List JobRow
fail_job now key reason error_class = update (with_key key) (failed now reason error_class)

-- `lease_until < now`, which NULL does not pass.
abbrev pub expired : Option ℕ → ℕ → Bool
expired none now = false
expired (some t) now = ltb t now

abbrev pub is_stale : ℕ → JobRow → Bool
is_stale now r = is_processing r.state && expired r.lease_until now

abbrev pub recovered : ℕ → JobRow → JobRow
recovered now r = record r {
  state = JobState.pending;
  lease_owner = none;
  lease_until = none;
  next_attempt_at = some now;
  last_reason_code = some ReasonCode.orphan_recovered;
  updated_at = now;
}

-- The count of the rows that were recovered, and the table.
unfoldable pub recover_stale_jobs : ℕ → List JobRow → ℕ × List JobRow
recover_stale_jobs now jobs =
    (count (is_stale now) jobs, update (is_stale now) (recovered now) jobs)

-- A call of `lease_next_ready_job`: the loop on fuel 1, since its first round returns.
unfoldable pub lease_next_ready_job :
    String → ℕ → ℕ → List JobRow → Option (Option EnrichmentJob × List JobRow)
lease_next_ready_job worker now ttl jobs = lease_loop 1 worker now ttl jobs

-- The calls that change the table, as values.
pub data Call : Type 0 where
  enqueue : ℕ → Enqueue → Call
  lease : String → ℕ → ℕ → Call
  heartbeat : ℕ → FilePath → ℕ → Call
  complete : ℕ → FilePath → ReasonCode → Call
  retry : ℕ → FilePath → ReasonCode → String → ℕ → Call
  defer : ℕ → FilePath → ReasonCode → ℕ → Call
  fail : ℕ → FilePath → ReasonCode → String → Call
  recover : ℕ → Call

abbrev pub table_after : List JobRow → Option (Option EnrichmentJob × List JobRow) → List JobRow
table_after jobs none = jobs
table_after jobs (some (job, jobs')) = jobs'

unfoldable pub run_call : Call → List JobRow → List JobRow
run_call (Call.enqueue now e) jobs = enqueue_path now e jobs
run_call (Call.lease worker now ttl) jobs =
    table_after jobs (lease_next_ready_job worker now ttl jobs)
run_call (Call.heartbeat now key until) jobs = heartbeat_job now key until jobs
run_call (Call.complete now key reason) jobs = complete_job now key reason jobs
run_call (Call.retry now key reason error_class next_at) jobs =
    retry_job now key reason error_class next_at jobs
run_call (Call.defer now key reason next_at) jobs = defer_job now key reason next_at jobs
run_call (Call.fail now key reason error_class) jobs = fail_job now key reason error_class jobs
run_call (Call.recover now) jobs = (recover_stale_jobs now jobs).1

unfoldable pub run_calls : List Call → List JobRow → List JobRow
run_calls [] jobs = jobs
run_calls (c ∷ cs) jobs = run_calls cs (run_call c jobs)
