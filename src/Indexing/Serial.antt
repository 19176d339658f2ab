-- ===== src/Indexing/Serial.antt =====
-- SingleProcessIndexQueue: one job at a time, in the order of the calls of `enqueue`. The jobs that
-- `tail` chains are written out as a list: the promise of a job is settled before the next one is
-- started, which is what `then` means. A job is the number in its id, which stands for its
-- reference.
pub mod Invariant
pub mod Line
pub mod Progress
pub mod Outcomes
pub mod History
use logiclens.Shared.{
  ℕ, ◌+◌, ◌-◌, String, Bool, true, false, not, Option, none, some, List, [], ◌∷◌, ◌++◌, ◌==◌, ltb,
  filter, if◌then◌else◌, ◌≡◌, refl,
}
use logiclens.Indexing.{IndexJobStatus, pending, running, succeeded, failed}

pub data IndexQueueSource : Type 0 where
  manual watch catch_up sdk unknown : IndexQueueSource

pub record IndexQueueJobSnapshot : Type 0 where
  pub id : ℕ
  pub source : IndexQueueSource
  pub label : String
  pub status : IndexJobStatus
  pub queued_at : ℕ
  pub started_at : Option ℕ
  pub finished_at : Option ℕ
  pub error : Option String
  pub stuck : Bool

pub record SingleProcessIndexQueue : Type 0 where
  pub next_id : ℕ
  pub pending_jobs : List IndexQueueJobSnapshot
  pub running_job : Option IndexQueueJobSnapshot
  pub completed_jobs : ℕ
  pub failed_jobs : ℕ
  pub last_completed_job : Option IndexQueueJobSnapshot
  pub last_failed_job : Option IndexQueueJobSnapshot
  pub tail : List IndexQueueJobSnapshot
  -- the job of the call of `runJob` that waits for `run()`
  pub awaited : Option IndexQueueJobSnapshot
  pub timeout_ms : ℕ

unfoldable pub new : Option ℕ → SingleProcessIndexQueue
new timeout = record {
  next_id = 1;
  pending_jobs = [];
  running_job = none;
  completed_jobs = 0;
  failed_jobs = 0;
  last_completed_job = none;
  last_failed_job = none;
  tail = [];
  awaited = none;
  timeout_ms = elim timeout [ none ↦ 300_000 | some t ↦ t ];
}

unfoldable pub enqueue :
    IndexQueueSource → String → ℕ → SingleProcessIndexQueue → SingleProcessIndexQueue
enqueue source label now q =
    let job : IndexQueueJobSnapshot = record {
      id = q.next_id;
      source = source;
      label = label;
      status = pending;
      queued_at = now;
      started_at = none;
      finished_at = none;
      error = none;
      stuck = false;
    } in
    record q {
      next_id = q.next_id + 1;
      pending_jobs = q.pending_jobs ++ job ∷ [];
      tail = q.tail ++ job ∷ [];
    }

-- a === b
abbrev pub is_job : IndexQueueJobSnapshot → IndexQueueJobSnapshot → Bool
is_job a b = a.id == b.id

-- `runJob` up to the call of `run`
unfoldable pub start_job :
    ℕ → IndexQueueJobSnapshot → SingleProcessIndexQueue → SingleProcessIndexQueue
start_job now job q =
    let started = record job { status = running; started_at = some now } in
    record q {
      pending_jobs = filter (λ item. not (is_job item job)) q.pending_jobs;
      running_job = some started;
      awaited = some started;
    }

abbrev pub unless_job :
    IndexQueueJobSnapshot → Option IndexQueueJobSnapshot → Option IndexQueueJobSnapshot
unless_job job none = none
unless_job job (some r) = if is_job r job then none else some r

-- the `finally` of `runJob`
abbrev pub release : IndexQueueJobSnapshot → SingleProcessIndexQueue → SingleProcessIndexQueue
release job q = record q { running_job = unless_job job q.running_job; awaited = none }

-- `runJob` after `run()` was fulfilled
unfoldable pub complete_job :
    ℕ → IndexQueueJobSnapshot → SingleProcessIndexQueue → SingleProcessIndexQueue
complete_job now job q =
    let done = record job { status = succeeded; finished_at = some now } in
    release done
      (record q { completed_jobs = q.completed_jobs + 1; last_completed_job = some done })

-- `runJob` after `run()` was rejected
unfoldable pub fail_job :
    ℕ → String → IndexQueueJobSnapshot → SingleProcessIndexQueue → SingleProcessIndexQueue
fail_job now message job q =
    let done = record job { status = failed; error = some message; finished_at = some now } in
    release done (record q { failed_jobs = q.failed_jobs + 1; last_failed_job = some done })

abbrev pub mark :
    IndexQueueJobSnapshot → Option IndexQueueJobSnapshot → Option IndexQueueJobSnapshot
mark job none = none
mark job (some r) = if is_job r job then some (record r { stuck = true }) else some r

-- the timer of `runJob`: the job is one object, wherever it is referred to
unfoldable pub time_out : IndexQueueJobSnapshot → SingleProcessIndexQueue → SingleProcessIndexQueue
time_out job q = record q { running_job = mark job q.running_job; awaited = mark job q.awaited }

pub record IndexQueueStatusSnapshot : Type 0 where
  pub running : Bool
  pub running_job : Option IndexQueueJobSnapshot
  pub pending_jobs : List IndexQueueJobSnapshot
  pub completed_jobs : ℕ
  pub failed_jobs : ℕ
  pub last_completed_job : Option IndexQueueJobSnapshot
  pub last_failed_job : Option IndexQueueJobSnapshot

-- A time before the start has an elapsed time below 0, which is no more above the limit than 0 is.
abbrev pub is_late : ℕ → ℕ → IndexQueueJobSnapshot → Bool
is_late now limit job = elim job.started_at [ none ↦ false | some t ↦ ltb limit (now - t) ]

abbrev pub observed : ℕ → ℕ → IndexQueueJobSnapshot → IndexQueueJobSnapshot
observed now limit job = if is_late now limit job then record job { stuck = true } else job

abbrev pub reported : ℕ → ℕ → Option IndexQueueJobSnapshot → Option IndexQueueJobSnapshot
reported now limit none = none
reported now limit (some j) = some (observed now limit j)

unfoldable pub get_status : ℕ → SingleProcessIndexQueue → IndexQueueStatusSnapshot
get_status now q = record {
  running = elim q.running_job [ none ↦ false | some _ ↦ true ];
  running_job = reported now q.timeout_ms q.running_job;
  pending_jobs = q.pending_jobs;
  completed_jobs = q.completed_jobs;
  failed_jobs = q.failed_jobs;
  last_completed_job = q.last_completed_job;
  last_failed_job = q.last_failed_job;
}

-- What can happen to a queue: a call of `enqueue`, the start of the next job once the one before
-- is settled, the end of the job that runs, and its timer.
pub data Step : SingleProcessIndexQueue → SingleProcessIndexQueue → Type 0 where
  enqueued :
      (q : SingleProcessIndexQueue) (source : IndexQueueSource) (label : String) (now : ℕ)
      → Step q (enqueue source label now q)
  started :
      (q : SingleProcessIndexQueue) (now : ℕ) (job : IndexQueueJobSnapshot)
      (rest : List IndexQueueJobSnapshot)
      → q.awaited ≡ none
      → q.tail ≡ job ∷ rest
      → Step q (start_job now job (record q { tail = rest }))
  completed :
      (q : SingleProcessIndexQueue) (now : ℕ) (job : IndexQueueJobSnapshot)
      → q.awaited ≡ some job
      → Step q (complete_job now job q)
  rejected :
      (q : SingleProcessIndexQueue) (now : ℕ) (message : String) (job : IndexQueueJobSnapshot)
      → q.awaited ≡ some job
      → Step q (fail_job now message job q)
  timed_out :
      (q : SingleProcessIndexQueue) (job : IndexQueueJobSnapshot)
      → q.awaited ≡ some job
      → Step q (time_out job q)

pub data Reach (p : SingleProcessIndexQueue) : SingleProcessIndexQueue → Type 0 where
  here : Reach p p
  next : {q r : SingleProcessIndexQueue} → Reach p q → Step q r → Reach p r
