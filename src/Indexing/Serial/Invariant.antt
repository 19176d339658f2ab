-- ===== src/Indexing/Serial/Invariant.antt =====
-- What holds of a queue at any time: the jobs that wait are those that the promises chain, in the
-- order of their numbers, and no number is lost.
use logiclens.Shared.{
  String, ℕ, ◌+◌, ◌<◌, true, false, not, Option, none, some, List, [], ◌∷◌, ◌++◌, ◌≡◌, refl, sym,
  ap, subst, ◌∙◌, inl, inr, ==_iff, filter, arith, Bool-cases, length,
}
use logiclens.Indexing.{pending, running, succeeded, failed}
use logiclens.Indexing.Serial.{
  IndexQueueJobSnapshot, SingleProcessIndexQueue, new, enqueue, is_job, start_job, unless_job, mark,
  complete_job, fail_job, time_out, Step, enqueued, started, completed, rejected, timed_out, Reach,
  here, next,
}

-- The jobs wait, and have the numbers from `a` up to `b`.
abbrev pub Counts : ℕ → List IndexQueueJobSnapshot → ℕ → Type 0
Counts a [] b = a ≡ b
Counts a (j ∷ js) b = (j.id ≡ a) × (j.status ≡ pending) × Counts (a + 1) js b

Counts-append :
    (a b : ℕ) (js : List IndexQueueJobSnapshot) (j : IndexQueueJobSnapshot)
    → Counts a js b
    → j.id ≡ b
    → j.status ≡ pending
    → Counts a (js ++ j ∷ []) (b + 1)
Counts-append a b [] j e i p = (i ∙ sym e, p, ap (λ n. n + 1) e)
Counts-append a b (k ∷ js) j (i', p', h) i p = (i', p', Counts-append (a + 1) b js j h i p)

pub renumber :
    {a b : ℕ} (n : ℕ) (js : List IndexQueueJobSnapshot) → a ≡ b → Counts a js n → Counts b js n
renumber n js e = subst (λ c. Counts c js n) e

-- A job with a lower number is not among them.
filter_others :
    (a b : ℕ) (js : List IndexQueueJobSnapshot) (j : IndexQueueJobSnapshot)
    → Counts a js b
    → j.id < a
    → filter (λ item. not (is_job item j)) js ≡ js
filter_others a b [] j h l = refl
filter_others a b (k ∷ js) j (i, _, h) l =
    let other : is_job k j ≡ false = ground (arith, i) in
    let rest = filter_others (a + 1) b js j h (omega arith) in rw (other, rest)

pub Counts-le : (a b : ℕ) (js : List IndexQueueJobSnapshot) → Counts a js b → a + length js ≡ b
Counts-le a b [] h = omega (arith, h)
Counts-le a b (j ∷ js) (_, _, h) = omega (arith, Counts-le (a + 1) b js h)

-- how many jobs run
abbrev pub busy : Option IndexQueueJobSnapshot → ℕ
busy none = 0
busy (some _) = 1

-- The job that runs has the number after those that are done.
abbrev pub IsNext : ℕ → Option IndexQueueJobSnapshot → Type 0
IsNext n none = Unit
IsNext n (some j) = (j.id ≡ n) × (j.status ≡ running)

pub record IsInOrder (q : SingleProcessIndexQueue) : Type 0 where
  pub chained : q.tail ≡ q.pending_jobs
  pub one_job : q.awaited ≡ q.running_job
  pub current : IsNext (q.completed_jobs + q.failed_jobs + 1) q.running_job
  pub waiting :
      Counts (q.completed_jobs + q.failed_jobs + busy q.running_job + 1) q.pending_jobs q.next_id

module _ (q : SingleProcessIndexQueue) (h : IsInOrder q) where
  pub unfold_start :
      (job : IndexQueueJobSnapshot) (rest : List IndexQueueJobSnapshot)
      → q.awaited ≡ none
      → q.tail ≡ job ∷ rest
      → (q.running_job ≡ none)
        × (q.pending_jobs ≡ job ∷ rest)
        × Counts (q.completed_jobs + q.failed_jobs + 1) (job ∷ rest) q.next_id
  unfold_start job rest idle e =
      let none_runs : q.running_job ≡ none = sym h.one_job ∙ idle in
      let jobs : q.pending_jobs ≡ job ∷ rest = sym h.chained ∙ e in
      (
        none_runs,
        jobs,
        subst (λ js. Counts (q.completed_jobs + q.failed_jobs + 1) js q.next_id) jobs
            (renumber q.next_id q.pending_jobs (omega (arith, ap busy none_runs)) h.waiting),
      )

  pub start_job-IsInOrder :
      (now : ℕ) (job : IndexQueueJobSnapshot) (rest : List IndexQueueJobSnapshot)
      → q.awaited ≡ none
      → q.tail ≡ job ∷ rest
      → IsInOrder (start_job now job (record q { tail = rest }))
  unfolding start_job
  start_job-IsInOrder now job rest idle e =
      let (_, jobs, (number, _, counts)) = unfold_start job rest idle e in
      let same : is_job job job ≡ true = (==_iff _ _).1 refl in
      let filtered : filter (λ item. not (is_job item job)) q.pending_jobs ≡ rest =
        ap (filter (λ item. not (is_job item job))) jobs
        ∙ rw (same, filter_others _ _ rest job counts (omega (arith, number))) in
      record {
        chained = sym filtered;
        one_job = refl;
        current = (number, refl);
        waiting = rw filtered (renumber q.next_id rest (omega arith) counts);
      }

  -- The job that is awaited is the one that runs.
  pub runs : {job : IndexQueueJobSnapshot} → q.awaited ≡ some job → q.running_job ≡ some job
  runs e = sym h.one_job ∙ e

  released :
      {job : IndexQueueJobSnapshot} (done : IndexQueueJobSnapshot)
      → done.id ≡ job.id
      → q.awaited ≡ some job
      → unless_job done q.running_job ≡ none
  released {job} done e awaited =
      let same : is_job job done ≡ true = (==_iff _ _).1 (sym e) in rw (runs awaited, same)

  -- The jobs that wait have the numbers from the one after the job that runs.
  later :
      {job : IndexQueueJobSnapshot}
      → q.awaited ≡ some job
      → Counts (q.completed_jobs + q.failed_jobs + 2) q.pending_jobs q.next_id
  later e = renumber q.next_id q.pending_jobs (omega (arith, ap busy (runs e))) h.waiting

  pub complete_job-IsInOrder :
      (now : ℕ) (job : IndexQueueJobSnapshot)
      → q.awaited ≡ some job
      → IsInOrder (complete_job now job q)
  unfolding complete_job
  complete_job-IsInOrder now job e =
      let none_runs = released (record job { status = succeeded; finished_at = some now }) refl e in
      record {
        chained = h.chained;
        one_job = sym none_runs;
        current = rw none_runs tt;
        waiting = rw none_runs (renumber q.next_id q.pending_jobs (omega arith) (later e));
      }

  pub fail_job-IsInOrder :
      (now : ℕ) (message : String) (job : IndexQueueJobSnapshot)
      → q.awaited ≡ some job
      → IsInOrder (fail_job now message job q)
  unfolding fail_job
  fail_job-IsInOrder now message job e =
      let none_runs =
        released (record job { status = failed; error = some message; finished_at = some now }) refl
          e in
      record {
        chained = h.chained;
        one_job = sym none_runs;
        current = rw none_runs tt;
        waiting = rw none_runs (renumber q.next_id q.pending_jobs (omega arith) (later e));
      }

  -- The timer changes no job's number or status.
  IsNext-mark :
      (n : ℕ) (job : IndexQueueJobSnapshot) (o : Option IndexQueueJobSnapshot)
      → IsNext n o
      → IsNext n (mark job o) × (busy (mark job o) ≡ busy o)
  IsNext-mark n job none i = (tt, refl)
  IsNext-mark n job (some r) i = elim (Bool-cases (is_job r job)) [
    | inl same ↦ rw same (i, refl)
    | inr other ↦ rw other (i, refl)
  ]

  time_out-IsInOrder : (job : IndexQueueJobSnapshot) → IsInOrder (time_out job q)
  unfolding time_out
  time_out-IsInOrder job =
      let (current, same) = IsNext-mark _ job q.running_job h.current in
      record {
        chained = h.chained;
        one_job = ap (mark job) h.one_job;
        current = current;
        waiting = rw same h.waiting;
      }

new-IsInOrder : (timeout : Option ℕ) → IsInOrder (new timeout)
unfolding new
new-IsInOrder timeout = record { chained = refl; one_job = refl; current = tt; waiting = refl }

-- Whatever happens to a queue in order leaves it in order.
pub Step-IsInOrder : {q r : SingleProcessIndexQueue} → Step q r → IsInOrder q → IsInOrder r
unfolding enqueue
Step-IsInOrder (enqueued q source label now) h = record {
  chained = rw h.chained refl;
  one_job = h.one_job;
  current = h.current;
  waiting = Counts-append _ _ q.pending_jobs _ h.waiting refl refl;
}
Step-IsInOrder (started q now job rest idle e) h = start_job-IsInOrder q h now job rest idle e
Step-IsInOrder (completed q now job e) h = complete_job-IsInOrder q h now job e
Step-IsInOrder (rejected q now message job e) h = fail_job-IsInOrder q h now message job e
Step-IsInOrder (timed_out q job e) h = time_out-IsInOrder q h job

pub Reach-IsInOrder :
    (timeout : Option ℕ) {q : SingleProcessIndexQueue} → Reach (new timeout) q → IsInOrder q
Reach-IsInOrder timeout here = new-IsInOrder timeout
Reach-IsInOrder timeout (next r s) = Step-IsInOrder s (Reach-IsInOrder timeout r)
