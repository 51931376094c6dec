-- ===== src/Lib.antt =====
-- Versarr: a service that finds lyrics for a music library and writes them as .lrc files beside the
-- tracks. This library models its core, of src/versarr.
--
-- A scan (application/services.py, ReconciliationService) or an event queues a track as a row of the
-- jobs table (infrastructure/persistence/repository.py). A worker leases the row, reads the track,
-- asks the policy (application/job_policy.py) what to do, may ask the provider behind a circuit
-- breaker (application/resilient_provider.py), may write the sidecar and its provenance record, and
-- ends the attempt: completed, failed, retried or deferred.
--
-- Files:
--   Base            shared tests, lists, paths of pathlib, and tables with their laws
--   Domain          domain/enums.py, domain/entities.py, reason codes and exceptions
--   Normalization   domain/normalization.py: the normalisation of lyrics; Tidy is what it ensures
--   Policy          application/job_policy.py: decide
--   Schema          infrastructure/persistence/schema.py: a record for a row of each table
--   Migration       the tables and indexes: Revision is the migration of alembic/versions, Declared
--                   infrastructure/persistence/schema.py, Undo and Upgrade what they have in common
--   Jobs            repository.py: enqueue_path, lease_next_ready_job, heartbeat_job, complete_job,
--                   retry_job, defer_job, fail_job, recover_stale_jobs
--   Snapshots       repository.py: snapshots, the reconciliation join, the marks of missing files
--   Provenance      repository.py: provenance records and cooldowns
--   Requests        repository.py: control requests and scan checkpoints
--   Breaker         application/resilient_provider.py: ResilientProvider. Requests are its calls of
--                   fetch by number, Circuit and Probe what holds of the circuit and of its probes
--   Pacer           application/resilient_provider.py: RequestPacer
--   Provider        infrastructure/provider/lrclib.py: LrclibProvider. Search is _search, Fetch fetch
--   Supervisor      application/supervision.py: LoopSupervisor
--   Settings        config/settings.py: the settings that the core reads, and their validators
--   Retry           application/services.py: _build_retry
--   Processor       application/services.py: JobProcessor. Monad is the state of an attempt, Inputs
--                   what it hears, Attempt _process_job, Worker process_next and _retry_or_fail
--   Stability       infrastructure/filesystem/stability.py: DebounceStabilityDetector
--   Reconciliation  application/services.py: _needs_evaluation; Scan is scan_root, Drain drain_once
--   Scanner         infrastructure/filesystem/scanner.py, and the event handler of watcher.py
--   Metadata        infrastructure/filesystem/metadata.py; Read is read_snapshot, with the hash of
--                   domain/hashing.py
--   Sidecar         infrastructure/filesystem/sidecar.py: the write of AtomicLrcWriter
--   Runtime         bootstrap.py: the handling of file events, _match_root; Steps holds the steps of
--                   the stability and the reconciliation loop
--   Lock            infrastructure/filesystem/locking.py: FileLockManager, over an interface of flock.
--                   Kernel is an implementation of it, Guard and Moves what one call keeps, Restores
--                   an acquire and its release, Exclusion several managers
--   Lifecycle       bootstrap.py: start and stop, stage by stage, with RuntimeReadiness of
--                   observability/metrics.py and the answers of interfaces/http/app.py. Phases is
--                   what each phase knows, Stages and Instances several processes, Start and Works
--                   a whole start, Once and Released run_scan_once
--   Commands        cli.py: request-rescan and request-full-scan, with enqueue_control_request of
--                   bootstrap.py; Rescan is what the service makes of a request
--   Metrics         bootstrap.py: _metrics_step, and get_queue_depths of repository.py
--   Gaps            repository.py: list_directory_gap_summaries; Report is lyrics-gaps of cli.py
--   Examples        the data of the tests; the Tests modules hold tests and examples of the theorems
--
-- How the code is modelled. A datetime, a timedelta and a monotonic time are numbers of microseconds;
-- a confidence is in hundredths. A path is the list of its names, the innermost first, and stands for
-- its own text. An enumeration's members stand for their texts. A table is the list of its rows in
-- the order of insertion. Each method of the repository is one transaction on the table, and the time
-- it reads is an argument; errors of the database are not modelled, nor is a transaction that another
-- one interrupts. Code that awaits is run as one step where only its own data is at stake, and so is
-- run_scan_once; the breaker, which the workers share, is modelled part by part (Event, RequestEvent
-- of Breaker), and so are the starts and stops of several processes, whose stages come in any order,
-- each as one step (Lifecycle). The calls of a FileLockManager are made in a thread, and the wait for one may
-- be cancelled before or while it is made (ThreadWait of Lock). The answers of the tag reader, the
-- provider, the writer and the clock are arguments (Inputs, ScanInputs, RequestInputs), and so are
-- normalisation, hashing and the random factor of a retry (Services), and the clock after a sleep
-- (Pacer). A writer that raises counts as not having written (Processor). The answers of the HTTP
-- client (Provider), of the calls of the file system (Sidecar, Files of Runtime), `str.lower` and
-- `fnmatch` (Scanner), `float`, `parsedate_to_datetime` (Provider) and `str` (Gaps) are arguments too. A
-- Retry-After that is no finite number of seconds is not modelled. A JSON object is the fields that are
-- read of it. What flock and the statements of a migration do is an interface with the documented laws
-- (Lock, Migration). The supported extensions, a set in the source, are tried in the order of their text. Logs
-- and the counters of the metrics are left out.
--
-- Loops. The loop of a lease runs on fuel 1, since within one transaction the row that was selected is
-- still there to be updated (Jobs/Lease). The loop over slices of missing paths runs on as much fuel
-- as there are paths, and each slice takes one at least (Snapshots/Present). A start runs on one unit
-- for each of its stages, seven and one for each root that it scans (Lifecycle/Start). The loop of
-- run_scan_once goes along the turns of its worker that are looked at, and is open where they come to
-- an end before it (Lifecycle/Once). All other loops go along a list.
--
-- Not modelled: the creation of tasks and objects in bootstrap.py; the branch of the lock for
-- Windows; _detect_embedded_lyrics, which asks the tag library for the class of an object;
-- normalize_lookup_text of domain, which rests on case folding, and SHA-256; the commands of cli.py that
-- call one function each; the logs, the counters of the metrics, and the connection to the database,
-- which are input and output.
pub mod Base
pub mod Domain
pub mod Normalization
pub mod Policy
pub mod Schema
pub mod Migration
pub mod Gaps
pub mod Jobs
pub mod Lock
pub mod Snapshots
pub mod Provenance
pub mod Requests
pub mod Breaker
pub mod Pacer
pub mod Provider
pub mod Supervisor
pub mod Settings
pub mod Retry
pub mod Processor
pub mod Stability
pub mod Reconciliation
pub mod Scanner
pub mod Runtime
pub mod Commands
pub mod Lifecycle
pub mod Metadata
pub mod Sidecar
pub mod Metrics
pub mod Examples
