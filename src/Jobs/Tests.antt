-- ===== src/Jobs/Tests.antt =====
-- Tests of the jobs table.
use versarr.Base.{
  FilePath, List, Option, Unique, [], any, arith, count, false, first, is_some, none, path_beq,
  path_beq_iff, refl, some, true, update, ℕ, ◌+◌, ◌∷◌, ◌≡◌, ◌≢◌,
}
use versarr.Domain.{EnrichmentJob, JobPriority, JobState, ReasonCode}
use versarr.Examples.{forced, held, job, library, queue, song, waiting}
use versarr.Jobs.{
  Call, complete_job, enqueue_path, fail_job, is_before, is_ready, lease_loop, lease_next_ready_job,
  leased, leased_job, new_row, next_ready, run_call, run_calls, with_key,
}
use versarr.Jobs.Attempts.{enqueue-complete_ready, enqueue-fail_lost}
use versarr.Jobs.Flags.{IsKept, run_calls-IsKept}
use versarr.Jobs.Invariant.{IsValid, run_calls-IsValid}
use versarr.Jobs.Lease.{lease_exclusive, lease_loop-ends, lease_takes-IsEarliest}
use versarr.Jobs.Lifecycle.{Moves, run_call-Moves}
use versarr.Jobs.Orphans.{IsLeftProcessing, orphan_stays}
use versarr.Jobs.Rows.{IsEarliest}
use versarr.Schema.{JobRow}

alone : Unique (λ r. r.job_key) queue
alone = (tt, tt)

lease_queue : lease_next_ready_job "worker-0" 10 120 queue ≡ some (some job, held ∷ [])
unfolding lease_next_ready_job lease_loop next_ready update count path_beq
lease_queue = refl

lease_takes-IsEarliest_example :
    (x : JobRow) × (first (with_key song) queue ≡ some x)
    × (is_ready 10 x ≡ true)
    × IsEarliest 10 x queue
    × (first (with_key song) (held ∷ []) ≡ some (leased "worker-0" 10 120 x x))
    × (job.attempt_count ≡ x.attempt_count + 1)
    × ((k : FilePath) → song ≢ k → first (with_key k) (held ∷ []) ≡ first (with_key k) queue)
lease_takes-IsEarliest_example =
    lease_takes-IsEarliest "worker-0" 10 120 queue (held ∷ []) job alone lease_queue

-- A second track behind the first.
abbrev other_song : FilePath
other_song = record { stem = "other"; suffix = ".flac" } ∷ library

abbrev other : JobRow
other = new_row 1 (record forced { media_path = other_song })

abbrev other_held : JobRow
other_held = leased "worker-1" 11 120 other other

differs : path_beq other_song song ≡ false
unfolding path_beq
differs = refl

two_apart : Unique (λ r. r.job_key) (waiting ∷ other ∷ [])
two_apart = (((λ e. ground (arith, differs, path_beq_iff other_song song)), tt), (tt, tt))

lease_first :
    lease_next_ready_job "worker-0" 10 120 (waiting ∷ other ∷ [])
    ≡ some (some job, held ∷ other ∷ [])
unfolding lease_next_ready_job lease_loop next_ready is_before update count path_beq
lease_first = refl

lease_second :
    lease_next_ready_job "worker-1" 11 120 (held ∷ other ∷ [])
    ≡ some (some (leased_job 11 120 other), held ∷ other_held ∷ [])
unfolding lease_next_ready_job lease_loop next_ready is_before update count path_beq
lease_second = refl

lease_exclusive_example : song ≢ other_song
lease_exclusive_example =
    lease_exclusive "worker-0" "worker-1" 10 11 120 120 (waiting ∷ other ∷ []) (held ∷ other ∷ [])
      (held ∷ other_held ∷ []) job (leased_job 11 120 other) two_apart lease_first lease_second

lease_held : lease_next_ready_job "worker-0" 10 120 (held ∷ []) ≡ some (none, held ∷ [])
unfolding lease_next_ready_job lease_loop next_ready path_beq
lease_held = refl

abbrev calls : List Call
calls =
    Call.enqueue 0 forced
    ∷ Call.lease "worker-0" 10 120
    ∷ Call.complete 20 song ReasonCode.sidecar_written
    ∷ []

run_calls-IsValid_example : IsValid (run_calls calls [])
run_calls-IsValid_example = run_calls-IsValid calls [] (tt, tt)

run_call-Moves_example :
    Moves
      (first (with_key song) queue)
      (first (with_key song) (run_call (Call.lease "worker-0" 10 120) queue))
run_call-Moves_example = run_call-Moves (Call.lease "worker-0" 10 120) queue song tt

holds : first (with_key song) (held ∷ []) ≡ some held
unfolding first path_beq
holds = refl

enqueue-complete_ready_example :
    (y : JobRow) × (first
        (with_key song)
        (complete_job 30 song ReasonCode.sidecar_written (enqueue_path 20 forced (held ∷ [])))
      ≡ some y)
    × (is_ready 30 y ≡ true)
    × (y.attempt_count ≡ 0)
    × (y.priority ≡ JobPriority.force_manual)
    × (y.force ≡ true)
enqueue-complete_ready_example =
    enqueue-complete_ready 20 30 forced ReasonCode.sidecar_written (held ∷ []) held holds refl

enqueue-fail_lost_example :
    (y : JobRow) × (first
        (with_key song)
        (fail_job 30 song ReasonCode.media_missing "terminal" (enqueue_path 20 forced (held ∷ [])))
      ≡ some y)
    × (y.state ≡ JobState.failed)
    × (y.dirty ≡ true)
    × ((later : ℕ) → is_ready later y ≡ false)
enqueue-fail_lost_example =
    enqueue-fail_lost 20 30 forced ReasonCode.media_missing "terminal" (held ∷ []) held holds refl

run_calls-IsKept_example :
    (y : JobRow) × (first
        (with_key song)
        (run_calls (Call.fail 20 song ReasonCode.media_missing "terminal" ∷ []) (held ∷ []))
      ≡ some y)
    × IsKept held y
run_calls-IsKept_example =
    run_calls-IsKept (Call.fail 20 song ReasonCode.media_missing "terminal" ∷ []) (held ∷ []) song
      held holds

-- A restart before the lease is over, a forced rescan of the file, and a lease a day later.
abbrev after_crash : List Call
after_crash =
    Call.recover 1000 ∷ Call.enqueue 2000 forced ∷ Call.lease "worker-1" 86400000000 120 ∷ []

held_left : IsLeftProcessing song 120000010 (held ∷ [])
unfolding first path_beq
held_left = (held, refl, (refl, refl))

orphan_stays_example : IsLeftProcessing song 120000010 (run_calls after_crash (held ∷ []))
orphan_stays_example =
    orphan_stays after_crash (held ∷ []) song 120000010 (omega arith, (tt, (tt, tt))) held_left

lease_loop-ends_example :
    (job : Option EnrichmentJob) × (jobs' : List JobRow) × (lease_loop 4 "worker-0" 10 120 queue
      ≡ some (job, jobs'))
    × (is_some job ≡ any (is_ready 10) queue)
lease_loop-ends_example = lease_loop-ends 3 "worker-0" 10 120 queue
