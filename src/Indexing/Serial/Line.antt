-- ===== src/Indexing/Serial/Line.antt =====
-- What the queue promises: a line before one counter, served in the order of arrival. The status
-- that `getStatus` reports follows the line.
use logiclens.Shared.{
  ℕ, ◌+◌, Option, none, some, List, [], ◌∷◌, ◌++◌, map, ◌≡◌, refl, sym, ap, ◌∙◌, inl, inr, suc,
  length, arith, Bool-cases,
}
use mathlib.Core.List.{map-append}
use logiclens.Indexing.Serial.{
  IndexQueueJobSnapshot, SingleProcessIndexQueue, IndexQueueStatusSnapshot, enqueue, is_job,
  start_job, complete_job, mark, fail_job, time_out, is_late, reported, get_status, Step, enqueued,
  started, completed, rejected, timed_out,
}
use logiclens.Indexing.Serial.Invariant.{
  IsInOrder, Counts-le, busy, start_job-IsInOrder, unfold_start, runs, complete_job-IsInOrder,
  fail_job-IsInOrder,
}

-- The numbers of the jobs that wait and of the one that is served, and how many are done.
pub record Line : Type 0 where
  pub waiting : List ℕ
  pub serving : Option ℕ
  pub succeeded : ℕ
  pub failed : ℕ

abbrev served : Option ℕ → ℕ
served none = 0
served (some _) = 1

-- how many have come to the line so far
abbrev pub arrived : Line → ℕ
arrived l = l.succeeded + l.failed + served l.serving + length l.waiting

-- What a user of the queue sees happen: a call of `enqueue`, a job's start, the fulfilment and the
-- rejection of its `run()`, and its timer.
pub data Happening : Type 0 where
  comes is_called succeeds fails is_marked : Happening

abbrev pub happening : {q r : SingleProcessIndexQueue} → Step q r → Happening
happening (enqueued q source label now) = comes
happening (started q now job rest idle e) = is_called
happening (completed q now job e) = succeeds
happening (rejected q now message job e) = fails
happening (timed_out q job e) = is_marked

-- What becomes of a line: who comes gets the next number and goes to its end, the first that waits
-- is called when nobody is served, and who is served leaves, counted by how it ended.
pub data Serve (l : Line) : Happening → Line → Type 0 where
  join : {m : Line} → m ≡ record l { waiting = l.waiting ++ (arrived l + 1) ∷ [] } → Serve l comes m
  call :
      {m : Line} (n : ℕ) (rest : List ℕ)
      → l.waiting ≡ n ∷ rest
      → l.serving ≡ none
      → m ≡ record l { waiting = rest; serving = some n }
      → Serve l is_called m
  leave :
      {m : Line} (n : ℕ)
      → l.serving ≡ some n
      → m ≡ record l { serving = none; succeeded = l.succeeded + 1 }
      → Serve l succeeds m
  give_up :
      {m : Line} (n : ℕ)
      → l.serving ≡ some n
      → m ≡ record l { serving = none; failed = l.failed + 1 }
      → Serve l fails m
  stay : {m : Line} → m ≡ l → Serve l is_marked m

abbrev number_of : Option IndexQueueJobSnapshot → Option ℕ
number_of none = none
number_of (some j) = some j.id

abbrev numbers : List IndexQueueJobSnapshot → List ℕ
numbers = map (λ (j : IndexQueueJobSnapshot). j.id)

-- The line that a status shows.
abbrev pub line_of : IndexQueueStatusSnapshot → Line
line_of st = record {
  waiting = numbers st.pending_jobs;
  serving = number_of st.running_job;
  succeeded = st.completed_jobs;
  failed = st.failed_jobs;
}

number_of-reported :
    (now limit : ℕ) (o : Option IndexQueueJobSnapshot)
    → number_of (reported now limit o) ≡ number_of o
number_of-reported now limit none = refl
number_of-reported now limit (some j) = elim (Bool-cases (is_late now limit j)) [
  | inl late ↦ rw late refl
  | inr early ↦ rw early refl
]

number_of-mark :
    (job : IndexQueueJobSnapshot) (o : Option IndexQueueJobSnapshot)
    → number_of (mark job o) ≡ number_of o
number_of-mark job none = refl
number_of-mark job (some r) = elim (Bool-cases (is_job r job)) [
  | inl same ↦ rw same refl
  | inr other ↦ rw other refl
]

same_line :
    {l m : Line}
    → l.waiting ≡ m.waiting
    → l.serving ≡ m.serving
    → l.succeeded ≡ m.succeeded
    → l.failed ≡ m.failed
    → l ≡ m
same_line a b c d = λ i. record { waiting = a i; serving = b i; succeeded = c i; failed = d i }

length-numbers : (js : List IndexQueueJobSnapshot) → length (numbers js) ≡ length js
length-numbers [] = refl
length-numbers (j ∷ js) = ap suc (length-numbers js)

served-number_of : (o : Option IndexQueueJobSnapshot) → served (number_of o) ≡ busy o
served-number_of none = refl
served-number_of (some j) = refl

-- The number of the next job is one more than have come to the line.
next_id-arrived :
    (q : SingleProcessIndexQueue) (now : ℕ)
    → IsInOrder q
    → q.next_id ≡ arrived (line_of (get_status now q)) + 1
unfolding get_status
next_id-arrived q now h =
    let counted = Counts-le _ q.next_id q.pending_jobs h.waiting in
    let serving =
      ap served (number_of-reported now q.timeout_ms q.running_job)
      ∙ served-number_of q.running_job in
    omega (arith, counted, serving, length-numbers q.pending_jobs)

-- What happens to a queue in order is that one step of the line which its status shows: a call of
-- `enqueue` adds the next number at the end, the first that waits is started while none is served,
-- the job that is served leaves with a success where its `run()` is fulfilled and with a failure
-- where it is rejected, and the timer changes nothing; whenever the status is asked for before and
-- after it.
pub get_status-Serve :
    {q r : SingleProcessIndexQueue} (now then_now : ℕ) (s : Step q r)
    → IsInOrder q
    → Serve (line_of (get_status now q)) (happening s) (line_of (get_status then_now r))
unfolding get_status enqueue start_job complete_job fail_job time_out
get_status-Serve now later (enqueued q source label at) h = join (
    same_line
      (map-append _ q.pending_jobs _
        ∙ ap (λ n. numbers q.pending_jobs ++ n ∷ []) (next_id-arrived q now h))
      (number_of-reported later q.timeout_ms q.running_job
        ∙ sym (number_of-reported now q.timeout_ms q.running_job))
      refl refl)
get_status-Serve now later (started q at job rest idle e) h =
    let (none_runs, jobs, _) = unfold_start q h job rest idle e in
    call job.id (numbers rest) (ap numbers jobs)
      (number_of-reported now q.timeout_ms q.running_job ∙ ap number_of none_runs)
      (same_line (ap numbers (sym (start_job-IsInOrder q h at job rest idle e).chained))
        (number_of-reported later q.timeout_ms (start_job at job q).running_job) refl refl)
get_status-Serve now later (completed q at job e) h =
    leave job.id (number_of-reported now q.timeout_ms q.running_job ∙ ap number_of (runs q h e)) (
      same_line refl
        (number_of-reported later q.timeout_ms (complete_job at job q).running_job
          ∙ ap number_of (sym (complete_job-IsInOrder q h at job e).one_job))
        refl refl)
get_status-Serve now later (rejected q at message job e) h =
    give_up job.id (number_of-reported now q.timeout_ms q.running_job ∙ ap number_of (runs q h e)) (
      same_line refl
        (number_of-reported later q.timeout_ms (fail_job at message job q).running_job
          ∙ ap number_of (sym (fail_job-IsInOrder q h at message job e).one_job))
        refl refl)
get_status-Serve now later (timed_out q job e) h = stay (
    same_line refl
      (number_of-reported later q.timeout_ms _
        ∙ number_of-mark job q.running_job
        ∙ sym (number_of-reported now q.timeout_ms q.running_job))
      refl refl)
