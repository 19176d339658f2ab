-- ===== src/Indexing/Serial/History.antt =====
-- What a queue holds by what has happened to it: every call of `enqueue`, in the order of the calls,
-- is a job that is done, the job that runs or one that waits.
use mathlib.Core.List.{map-append, append_assoc}
use logiclens.Shared.{
  ℕ, ◌+◌, String, Option, none, some, List, [], ◌∷◌, ◌++◌, map, length, length-append, ◌≡◌, refl,
  sym, ap, ◌∙◌, arith, Bool-cases, inl, inr,
}
use logiclens.Indexing.Serial.{
  IndexQueueSource, IndexQueueJobSnapshot, SingleProcessIndexQueue, new, enqueue, is_job, start_job,
  mark, complete_job, fail_job, time_out, enqueued, started, completed, rejected, timed_out, Reach,
  here, next,
}
use logiclens.Indexing.Serial.Invariant.{
  IsInOrder, Reach-IsInOrder, unfold_start, start_job-IsInOrder, runs,
}

-- The arguments of a call of `enqueue` and its time.
pub record Request : Type 0 where
  pub source : IndexQueueSource
  pub label : String
  pub queued_at : ℕ

-- the calls of `enqueue`, in their order
abbrev pub requests : {p q : SingleProcessIndexQueue} → Reach p q → List Request
requests here = []
requests (next r (enqueued q source label now)) =
    requests r ++ record { source = source; label = label; queued_at = now } ∷ []
requests (next r (started q now job rest idle e)) = requests r
requests (next r (completed q now job e)) = requests r
requests (next r (rejected q now message job e)) = requests r
requests (next r (timed_out q job e)) = requests r

-- how many calls of `run()` were fulfilled
abbrev pub fulfilled : {p q : SingleProcessIndexQueue} → Reach p q → ℕ
fulfilled here = 0
fulfilled (next r (enqueued q source label now)) = fulfilled r
fulfilled (next r (started q now job rest idle e)) = fulfilled r
fulfilled (next r (completed q now job e)) = fulfilled r + 1
fulfilled (next r (rejected q now message job e)) = fulfilled r
fulfilled (next r (timed_out q job e)) = fulfilled r

-- how many were rejected
abbrev pub refused : {p q : SingleProcessIndexQueue} → Reach p q → ℕ
refused here = 0
refused (next r (enqueued q source label now)) = refused r
refused (next r (started q now job rest idle e)) = refused r
refused (next r (completed q now job e)) = refused r
refused (next r (rejected q now message job e)) = refused r + 1
refused (next r (timed_out q job e)) = refused r

abbrev pub request_of : IndexQueueJobSnapshot → Request
request_of job = record { source = job.source; label = job.label; queued_at = job.queued_at }

abbrev pub running_request : Option IndexQueueJobSnapshot → List Request
running_request none = []
running_request (some job) = request_of job ∷ []

-- The calls of `enqueue` by what has become of them.
pub record IsKept (asked : List Request) (ends : ℕ) (q : SingleProcessIndexQueue) : Type 0 where
  pub done : List Request
  pub all_kept : asked ≡ done ++ (running_request q.running_job ++ map request_of q.pending_jobs)
  pub counted : length done ≡ ends

running_request-mark :
    (job : IndexQueueJobSnapshot) (o : Option IndexQueueJobSnapshot)
    → running_request (mark job o) ≡ running_request o
running_request-mark job none = refl
running_request-mark job (some r) = elim (Bool-cases (is_job r job)) [
  | inl same ↦ rw same refl
  | inr other ↦ rw other refl
]

-- A job that ends is one more that is done.
ended :
    {asked : List Request} {ends : ℕ} (q r : SingleProcessIndexQueue) {job : IndexQueueJobSnapshot}
    → IsKept asked ends q
    → q.running_job ≡ some job
    → r.running_job ≡ none
    → r.pending_jobs ≡ q.pending_jobs
    → IsKept asked (ends + 1) r
ended q r {job} h runs_it over same = record {
  done = h.done ++ request_of job ∷ [];
  all_kept =
      h.all_kept
      ∙ ap (λ o. h.done ++ (running_request o ++ map request_of q.pending_jobs)) runs_it
      ∙ sym (append_assoc h.done (request_of job ∷ []) (map request_of q.pending_jobs))
      ∙ rw (over, same) refl;
  counted = omega (arith, length-append h.done (request_of job ∷ []), h.counted);
}

-- What is known of a queue and what has happened to it.
pub record IsAccounted {p q : SingleProcessIndexQueue} (r : Reach p q) : Type 0 where
  pub in_order : IsInOrder q
  pub kept : IsKept (requests r) (fulfilled r + refused r) q
  pub succeeded : q.completed_jobs ≡ fulfilled r
  pub failed : q.failed_jobs ≡ refused r

-- Whatever a new queue becomes: the calls of `enqueue`, in their order, are those of the jobs that
-- are done, then of the job that runs, if one does, then of the jobs that wait, so that none is lost
-- and none goes before another; as many jobs have succeeded and failed as calls of `run()` were
-- fulfilled and rejected; and the promises chain the jobs that wait, with the numbers in their order.
pub Reach-IsAccounted :
    (timeout : Option ℕ) {q : SingleProcessIndexQueue} (r : Reach (new timeout) q) → IsAccounted r
unfolding new enqueue start_job complete_job fail_job time_out
Reach-IsAccounted timeout here = record {
  in_order = Reach-IsInOrder timeout here;
  kept = record { done = []; all_kept = refl; counted = refl };
  succeeded = refl;
  failed = refl;
}
Reach-IsAccounted timeout (next r (enqueued q source label now)) =
    let h = Reach-IsAccounted timeout r in
    let asked : Request = record { source = source; label = label; queued_at = now } in
    record {
      in_order = Reach-IsInOrder timeout (next r (enqueued q source label now));
      kept = record {
        done = h.kept.done;
        all_kept =
            ap (λ l. l ++ asked ∷ []) h.kept.all_kept
            ∙ append_assoc h.kept.done _ (asked ∷ [])
            ∙ ap (λ l. h.kept.done ++ l)
                (append_assoc (running_request q.running_job) (map request_of q.pending_jobs)
                    (asked ∷ [])
                  ∙ ap (λ l. running_request q.running_job ++ l)
                      (sym (map-append request_of q.pending_jobs _)));
        counted = h.kept.counted;
      };
      succeeded = h.succeeded;
      failed = h.failed;
    }
Reach-IsAccounted timeout (next r (started q now job rest idle e)) =
    let h = Reach-IsAccounted timeout r in
    let (none_runs, jobs, _) = unfold_start q h.in_order job rest idle e in
    let left = (start_job-IsInOrder q h.in_order now job rest idle e).chained in
    record {
      in_order = Reach-IsInOrder timeout (next r (started q now job rest idle e));
      kept = record {
        done = h.kept.done;
        all_kept =
            h.kept.all_kept
            ∙ (λ i. h.kept.done ++ (running_request (none_runs i) ++ map request_of (jobs i)))
            ∙ ap (λ l. h.kept.done ++ (request_of job ∷ map request_of l)) left;
        counted = h.kept.counted;
      };
      succeeded = h.succeeded;
      failed = h.failed;
    }
Reach-IsAccounted timeout (next r (completed q now job e)) =
    let h = Reach-IsAccounted timeout r in
    let in_order = Reach-IsInOrder timeout (next r (completed q now job e)) in
    let kept =
      ended q (complete_job now job q) h.kept (runs q h.in_order e) (sym in_order.one_job) refl in
    record {
      in_order = in_order;
      kept = record {
        done = kept.done;
        all_kept = kept.all_kept;
        counted = omega (arith, kept.counted);
      };
      succeeded = omega (arith, h.succeeded);
      failed = h.failed;
    }
Reach-IsAccounted timeout (next r (rejected q now message job e)) =
    let h = Reach-IsAccounted timeout r in
    let in_order = Reach-IsInOrder timeout (next r (rejected q now message job e)) in
    let kept =
      ended q (fail_job now message job q) h.kept (runs q h.in_order e) (sym in_order.one_job)
        refl in
    record {
      in_order = in_order;
      kept = record {
        done = kept.done;
        all_kept = kept.all_kept;
        counted = omega (arith, kept.counted);
      };
      succeeded = h.succeeded;
      failed = omega (arith, h.failed);
    }
Reach-IsAccounted timeout (next r (timed_out q job e)) =
    let h = Reach-IsAccounted timeout r in
    record {
      in_order = Reach-IsInOrder timeout (next r (timed_out q job e));
      kept = record {
        done = h.kept.done;
        all_kept =
            h.kept.all_kept
            ∙ ap (λ l. h.kept.done ++ (l ++ map request_of q.pending_jobs))
                (sym (running_request-mark job q.running_job));
        counted = h.kept.counted;
      };
      succeeded = h.succeeded;
      failed = h.failed;
    }
