-- ===== src/Indexing/Serial/Outcomes.antt =====
-- How many jobs fail, whatever the order of what happens to the queue.
use logiclens.Shared.{
  ℕ, ◌+◌, String, Option, none, some, List, [], ◌∷◌, ◌++◌, ◌≡◌, refl, sym, ap, inl, inr, arith,
  Bool-cases,
}
use logiclens.Indexing.Serial.{
  IndexQueueJobSnapshot, SingleProcessIndexQueue, enqueue, is_job, start_job, mark, complete_job,
  fail_job, time_out, enqueued, started, completed, rejected, timed_out, Reach, here, next,
}
use logiclens.Indexing.Serial.Invariant.{
  IsInOrder, Step-IsInOrder, unfold_start, start_job-IsInOrder, runs,
}
use logiclens.Indexing.Serial.Progress.{
  Follows, IsDrained, drained, error_count, error_total, unfinished,
}

module _ (outcome : ℕ → Option String) where
  -- how many of the jobs that are taken in during a run end with an error
  abbrev pub late_errors : {p q : SingleProcessIndexQueue} → Reach p q → ℕ
  late_errors here = 0
  late_errors (next r (enqueued q source label now)) =
      late_errors r + error_count (outcome q.next_id)
  late_errors (next r (started q now job rest idle e)) = late_errors r
  late_errors (next r (completed q now job e)) = late_errors r
  late_errors (next r (rejected q now message job e)) = late_errors r
  late_errors (next r (timed_out q job e)) = late_errors r

  -- the errors so far and those to come
  abbrev all_errors : SingleProcessIndexQueue → ℕ
  all_errors q = q.failed_jobs + error_total outcome (unfinished q.running_job q.pending_jobs)

  total-append :
      (js : List IndexQueueJobSnapshot) (j : IndexQueueJobSnapshot)
      → error_total outcome (js ++ j ∷ []) ≡ error_total outcome js + error_count (outcome j.id)
  total-append [] j = omega arith
  total-append (k ∷ js) j = omega (arith, total-append js j)

  error_total-append :
      (o : Option IndexQueueJobSnapshot) (js : List IndexQueueJobSnapshot)
      (j : IndexQueueJobSnapshot)
      → error_total outcome (unfinished o (js ++ j ∷ []))
        ≡ error_total outcome (unfinished o js) + error_count (outcome j.id)
  error_total-append none js j = total-append js j
  error_total-append (some r) js j = omega (arith, total-append js j)

  error_total-mark :
      (job : IndexQueueJobSnapshot) (o : Option IndexQueueJobSnapshot)
      (js : List IndexQueueJobSnapshot)
      → error_total outcome (unfinished (mark job o) js) ≡ error_total outcome (unfinished o js)
  error_total-mark job none js = refl
  error_total-mark job (some r) js = elim (Bool-cases (is_job r job)) [
    | inl same ↦ rw same refl
    | inr other ↦ rw other refl
  ]

  to_come :
      (q : SingleProcessIndexQueue) {o : Option IndexQueueJobSnapshot}
      {js : List IndexQueueJobSnapshot}
      → q.running_job ≡ o
      → q.pending_jobs ≡ js
      → error_total outcome (unfinished q.running_job q.pending_jobs)
        ≡ error_total outcome (unfinished o js)
  to_come q e f = λ i. error_total outcome (unfinished (e i) (f i))

  Reach_keeps_order : {q r : SingleProcessIndexQueue} → Reach q r → IsInOrder q → IsInOrder r
  Reach_keeps_order here h = h
  Reach_keeps_order (next r s) h = Step-IsInOrder s (Reach_keeps_order r h)

  errors_kept :
      (q : SingleProcessIndexQueue)
      → IsInOrder q
      → {r : SingleProcessIndexQueue} (p : Reach q r) → Follows outcome p
      → all_errors r ≡ all_errors q + late_errors p
  unfolding enqueue start_job complete_job fail_job time_out
  errors_kept q h here f = omega arith
  errors_kept q h (next r (enqueued s source label now)) f =
      omega (arith, errors_kept q h r f, error_total-append s.running_job s.pending_jobs _)
  errors_kept q h (next r (started s now job rest idle e)) f =
      let g = Reach_keeps_order r h in
      let (none_runs, jobs, _) = unfold_start s g job rest idle e in
      let left = (start_job-IsInOrder s g now job rest idle e).chained in
      omega (arith, errors_kept q h r f, to_come s none_runs jobs, ap (error_total outcome) left)
  errors_kept q h (next r (completed s now job e)) (f, good) =
      let g = Reach_keeps_order r h in
      let over = (Step-IsInOrder (completed s now job e) g).one_job in
      omega (
        arith,
        errors_kept q h r f,
        to_come s {js = s.pending_jobs} (runs s g e) refl,
        to_come (complete_job now job s) {js = s.pending_jobs} (sym over) refl,
        ap error_count good,
      )
  errors_kept q h (next r (rejected s now message job e)) (f, bad) =
      let g = Reach_keeps_order r h in
      let over = (Step-IsInOrder (rejected s now message job e) g).one_job in
      omega (
        arith,
        errors_kept q h r f,
        to_come s {js = s.pending_jobs} (runs s g e) refl,
        to_come (fail_job now message job s) {js = s.pending_jobs} (sym over) refl,
        ap error_count bad,
      )
  errors_kept q h (next r (timed_out s job e)) f =
      omega (arith, errors_kept q h r f, error_total-mark job s.running_job s.pending_jobs)

  -- A queue in order has a run in which every call of `run` ends as `outcome` says of its job, and
  -- which leaves it idle: nothing runs or waits, all the jobs taken in are done, no other was taken
  -- in, and as many more have failed as calls end with an error. In every run in which the calls
  -- end so, and after which nothing runs or waits, as many more have failed as calls end with an
  -- error, of the jobs that were not done before it and of those that are taken in during it.
  pub drain :
      (now : ℕ) (q : SingleProcessIndexQueue)
      → IsInOrder q
      → ((r : SingleProcessIndexQueue) × IsDrained outcome q r)
        × ((r : SingleProcessIndexQueue) (p : Reach q r)
            → Follows outcome p
            → r.running_job ≡ none
            → r.pending_jobs ≡ []
            → r.failed_jobs
              ≡ q.failed_jobs
                + error_total outcome (unfinished q.running_job q.pending_jobs)
                + late_errors p)
  drain now q h = (
    drained outcome now q h,
    λ r p f idle nobody. omega (arith, errors_kept q h p f, to_come r idle nobody),
  )
