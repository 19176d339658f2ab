-- ===== src/Tests/Indexing.antt =====
-- Queues of index jobs at small inputs.
use logiclens.Shared.{
  ℕ, ◌+◌, ◌*◌, ◌≤◌, ◌<◌, String, Option, false, none, some, [], ◌∷◌, map, max, length, get_elem?,
  ◌≡◌, ◌≢◌, refl, Memᴰ,
}
use logiclens.Indexing.{pending, running, succeeded, failed}
use logiclens.Indexing.Serial.{
  SingleProcessIndexQueue, watch, sdk, new, enqueue, get_status, enqueued, Reach,
}
use logiclens.Indexing.Serial.Invariant.{IsInOrder, Reach-IsInOrder}
use logiclens.Indexing.Serial.History.{IsAccounted, Reach-IsAccounted}
use logiclens.Indexing.Serial.Line.{Serve, comes, line_of, get_status-Serve}
use logiclens.Indexing.Serial.Progress.{IsDrained, Follows, error_total, unfinished}
use logiclens.Indexing.Serial.Outcomes.{late_errors, drain}
use logiclens.Indexing.Pool
use logiclens.Indexing.Pool.{
  IndexJob, IndexQueueOptions, Pool, max_attempts, attempt, make_jobs, fulfil, reject, start,
  run_next, finish, Runs,
}
use logiclens.Indexing.Pool.Outcome.{
  run_index_queue_bounds, run_index_queue_succeeds, run_index_queue-not_pending, IsAborted,
}

-- Two jobs, of which the first is started and fails.
abbrev two_waiting : SingleProcessIndexQueue
two_waiting = enqueue sdk "b" 2 (enqueue watch "a" 1 (new none))

two_reached : Reach (new none) two_waiting
two_reached = Reach.next (Reach.next Reach.here (enqueued _ watch "a" 1)) (enqueued _ sdk "b" 2)

two-IsInOrder : IsInOrder two_waiting
two-IsInOrder = Reach-IsInOrder none two_reached

Reach-IsAccounted_example : IsAccounted two_reached
Reach-IsAccounted_example = Reach-IsAccounted none two_reached

get_status-Serve_example :
    Serve
      (line_of (get_status 5 two_waiting))
      comes
      (line_of (get_status 6 (enqueue watch "c" 3 two_waiting)))
get_status-Serve_example =
    get_status-Serve {q = two_waiting} {r = enqueue watch "c" 3 two_waiting} 5 6
      (enqueued two_waiting watch "c" 3) two-IsInOrder

abbrev fails_always : ℕ → Option String
fails_always n = some "it failed"

drain_example :
    ((r : SingleProcessIndexQueue) × IsDrained fails_always two_waiting r)
    × ((r : SingleProcessIndexQueue) (p : Reach two_waiting r)
        → Follows fails_always p
        → r.running_job ≡ none
        → r.pending_jobs ≡ []
        → r.failed_jobs
          ≡ two_waiting.failed_jobs
            + error_total fails_always (unfinished two_waiting.running_job two_waiting.pending_jobs)
            + late_errors fails_always p)
drain_example = drain fails_always 4 two_waiting two-IsInOrder

-- Two workers and one retry.
abbrev options : IndexQueueOptions
options = record { concurrency = 2; retries = some 1 }

abbrev name_of : ℕ → ℕ → String
name_of p i = "job"

abbrev first : Pool ℕ
first = Pool.started options 0 (make_jobs name_of 0 (10 ∷ 20 ∷ []))

abbrev both_done : Pool ℕ
both_done = fulfil options 2 0 (fulfil options 1 1 first)

both_run : Runs options first 2 both_done
unfolding Pool.started start fulfil run_next attempt make_jobs
both_run =
    Runs.fulfilled (Runs.fulfilled Runs.here 1 1 (Memᴰ.tail (Memᴰ.head refl))) 2 0 (Memᴰ.head refl)

both_over : both_done.awaited ≡ []
unfolding Pool.started start fulfil run_next attempt make_jobs
both_over = refl

both_on : both_done.has_failed ≡ false
unfolding Pool.started start fulfil run_next attempt make_jobs
both_on = refl

run_index_queue_bounds_example :
    (length both_done.awaited ≤ max 1 2)
    × (2 + length both_done.awaited ≤ 2 * max_attempts options)
    × ((job : IndexJob ℕ) (i : ℕ)
        → get_elem? both_done.jobs i ≡ some job
        → job.attempts ≤ max_attempts options)
run_index_queue_bounds_example =
    run_index_queue_bounds name_of options 0 (10 ∷ 20 ∷ []) 2 both_done both_run

run_index_queue_succeeds_example :
    (length (finish 0 both_done) ≡ 2)
    × ((i : ℕ) (job : IndexJob ℕ)
        → get_elem? (finish 0 both_done) i ≡ some job
        → job.status ≡ succeeded)
run_index_queue_succeeds_example =
    run_index_queue_succeeds name_of options 0 (10 ∷ 20 ∷ []) 2 both_done both_run 0 both_over
      both_on

-- The first job fails for good while the second is awaited, which then fails for the first time.
abbrev one_left : Pool ℕ
one_left = reject options 3 "no" 1 (reject options 2 "no" 0 (reject options 1 "no" 0 first))

one_run : Runs options first 3 one_left
unfolding Pool.started start reject run_next attempt make_jobs
one_run =
    Runs.rejected
      (Runs.rejected (Runs.rejected Runs.here 1 "no" 0 (Memᴰ.head refl)) 2 "no" 0
        (Memᴰ.tail (Memᴰ.head refl)))
      3 "no" 1 (Memᴰ.head refl)

one_over : one_left.awaited ≡ []
unfolding Pool.started start reject run_next attempt make_jobs
one_over = refl

-- Its status is not brought to an end.
one_left_running :
    map (λ (job : IndexJob ℕ). job.status) (finish 4 one_left) ≡ failed ∷ running ∷ []
unfolding Pool.started start reject run_next attempt make_jobs finish
one_left_running = refl

abbrev left_job : IndexJob ℕ
left_job = record {
  id = "job";
  payload = 20;
  attempts = 1;
  status = running;
  error = some "no";
  started_at = some 0;
  finished_at = none;
}

left_there : get_elem? (finish 4 one_left) 1 ≡ some left_job
unfolding Pool.started start reject run_next attempt make_jobs finish
left_there = refl

-- One worker, whose job fails for good, so that the other is never taken.
abbrev alone : IndexQueueOptions
alone = record { concurrency = 1; retries = none }

abbrev one_taken : Pool ℕ
one_taken = reject alone 1 "no" 0 (Pool.started alone 0 (make_jobs name_of 0 (10 ∷ 20 ∷ [])))

one_taken_run : Runs alone (Pool.started alone 0 (make_jobs name_of 0 (10 ∷ 20 ∷ []))) 1 one_taken
unfolding Pool.started start reject run_next attempt make_jobs
one_taken_run = Runs.rejected Runs.here 1 "no" 0 (Memᴰ.head refl)

one_taken_over : one_taken.awaited ≡ []
unfolding Pool.started start reject run_next attempt make_jobs
one_taken_over = refl

abbrev aborted_job : IndexJob ℕ
aborted_job = record {
  id = "job";
  payload = 20;
  attempts = 0;
  status = failed;
  error = some "Aborted due to preceding failure";
  started_at = none;
  finished_at = some 4;
}

aborted_there : get_elem? (finish 4 one_taken) 1 ≡ some aborted_job
unfolding Pool.started start reject run_next attempt make_jobs finish
aborted_there = refl

run_index_queue-not_pending_example :
    (one_taken.cursor ≤ 1 → IsAborted 4 aborted_job)
    × (1 < one_taken.cursor
        → (get_elem? one_taken.jobs 1 ≡ some aborted_job) × (aborted_job.status ≢ pending))
run_index_queue-not_pending_example =
    run_index_queue-not_pending name_of alone 0 (10 ∷ 20 ∷ []) 1 one_taken one_taken_run 4
      one_taken_over 1 aborted_job aborted_there
