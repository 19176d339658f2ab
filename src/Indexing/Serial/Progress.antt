-- ===== src/Indexing/Serial/Progress.antt =====
-- The queue becomes idle: every job that waits is started and ends, if each call of `run` is
-- settled.
use logiclens.Shared.{
  ℕ, ◌+◌, String, Option, none, some, List, [], ◌∷◌, ◌≡◌, refl, sym, ap, subst, ◌∙◌, inl, inr,
  arith, Option-cases,
}
use logiclens.Indexing.Serial.{
  IndexQueueJobSnapshot, SingleProcessIndexQueue, start_job, complete_job, fail_job, Step, started,
  enqueued, completed, rejected, timed_out, Reach, here, next,
}
use logiclens.Indexing.Serial.Invariant.{
  Counts, busy, IsInOrder, Step-IsInOrder, start_job-IsInOrder,
}

pub Reach-trans : {p q r : SingleProcessIndexQueue} → Reach p q → Reach q r → Reach p r
Reach-trans a here = a
Reach-trans a (next b s) = next (Reach-trans a b) s

-- 1 if `run()` ends with an error
abbrev pub error_count : Option String → ℕ
error_count none = 0
error_count (some _) = 1

-- how many of the jobs end with an error
abbrev pub error_total : (ℕ → Option String) → List IndexQueueJobSnapshot → ℕ
error_total outcome [] = 0
error_total outcome (j ∷ js) = error_count (outcome j.id) + error_total outcome js

-- the job that runs and those that wait
abbrev pub unfinished :
    Option IndexQueueJobSnapshot → List IndexQueueJobSnapshot → List IndexQueueJobSnapshot
unfinished none js = js
unfinished (some j) js = j ∷ js

-- Every call of `run` that ends in the run of the queue ends as `outcome` says of its job.
abbrev pub Follows : (ℕ → Option String) → {p q : SingleProcessIndexQueue} → Reach p q → Type 0
Follows outcome here = Unit
Follows outcome (next r (enqueued q source label now)) = Follows outcome r
Follows outcome (next r (started q now job rest idle e)) = Follows outcome r
Follows outcome (next r (completed q now job e)) = Follows outcome r × (outcome job.id ≡ none)
Follows outcome (next r (rejected q now message job e)) =
    Follows outcome r × (outcome job.id ≡ some message)
Follows outcome (next r (timed_out q job e)) = Follows outcome r

Follows-trans :
    (outcome : ℕ → Option String) {p q r : SingleProcessIndexQueue} (a : Reach p q) (b : Reach q r)
    → Follows outcome a
    → Follows outcome b
    → Follows outcome (Reach-trans a b)
unfolding Reach-trans
Follows-trans outcome a here f g = f
Follows-trans outcome a (next b (enqueued q source label now)) f g = Follows-trans outcome a b f g
Follows-trans outcome a (next b (started q now job rest idle e)) f g = Follows-trans outcome a b f g
Follows-trans outcome a (next b (completed q now job e)) f (g, good) =
    (Follows-trans outcome a b f g, good)
Follows-trans outcome a (next b (rejected q now message job e)) f (g, bad) =
    (Follows-trans outcome a b f g, bad)
Follows-trans outcome a (next b (timed_out q job e)) f g = Follows-trans outcome a b f g

-- A queue that `q` becomes by a run in which every job ends as `outcome` says, and in which nothing
-- runs and nothing waits: as many jobs are done as were
-- taken in, none was taken in since `q`, and those have failed whose `run` ends with an error.
pub record IsDrained (outcome : ℕ → Option String) (q r : SingleProcessIndexQueue) : Type 0 where
  pub reached : Reach q r
  pub follows : Follows outcome reached
  pub idle : r.running_job ≡ none
  pub nobody : r.pending_jobs ≡ []
  pub same : r.next_id ≡ q.next_id
  pub all_done : r.completed_jobs + r.failed_jobs + 1 ≡ r.next_id
  pub errors :
      r.failed_jobs ≡ q.failed_jobs + error_total outcome (unfinished q.running_job q.pending_jobs)

all_counted :
    (q : SingleProcessIndexQueue)
    → IsInOrder q
    → q.running_job ≡ none
    → q.pending_jobs ≡ []
    → q.completed_jobs + q.failed_jobs + 1 ≡ q.next_id
all_counted q h idle e =
    let counted : q.completed_jobs + q.failed_jobs + busy q.running_job + 1 ≡ q.next_id =
      subst (λ js. Counts (q.completed_jobs + q.failed_jobs + busy q.running_job + 1) js q.next_id)
        e h.waiting in
    omega (arith, counted, ap busy idle)

-- how `run()` ends for each job: with an error, or not
module _ (outcome : ℕ → Option String) (now : ℕ) where
  record IsSettled (id : ℕ) (q r : SingleProcessIndexQueue) : Type 0 where
    step : Step q r
    follows :
        {p : SingleProcessIndexQueue} (a : Reach p q)
        → Follows outcome a
        → Follows outcome (next a step)
    idle : r.awaited ≡ none
    pending_same : r.pending_jobs ≡ q.pending_jobs
    ids_same : r.next_id ≡ q.next_id
    errors : r.failed_jobs ≡ q.failed_jobs + error_count (outcome id)

  settle :
      (q : SingleProcessIndexQueue) (job : IndexQueueJobSnapshot)
      → q.awaited ≡ some job
      → (r : SingleProcessIndexQueue) × IsSettled job.id q r
  unfolding complete_job fail_job
  settle q job e = elim (Option-cases (outcome job.id)) [
    | inl good ↦ (
      complete_job now job q,
      record {
        step = completed q now job e;
        follows = λ a f. (f, good);
        idle = refl;
        pending_same = refl;
        ids_same = refl;
        errors = omega (arith, ap error_count good);
      },
    )
    | inr (message, bad) ↦ (
      fail_job now message job q,
      record {
        step = rejected q now message job e;
        follows = λ a f. (f, bad);
        idle = refl;
        pending_same = refl;
        ids_same = refl;
        errors = omega (arith, ap error_count bad);
      },
    )
  ]

  -- What is left to do, by what runs and what waits.
  to_do :
      (q : SingleProcessIndexQueue) {o : Option IndexQueueJobSnapshot}
      {js : List IndexQueueJobSnapshot}
      → q.running_job ≡ o
      → q.pending_jobs ≡ js
      → error_total outcome (unfinished q.running_job q.pending_jobs)
        ≡ error_total outcome (unfinished o js)
  to_do q e f = λ i. error_total outcome (unfinished (e i) (f i))

  drain_idle :
      (js : List IndexQueueJobSnapshot) (q : SingleProcessIndexQueue)
      → IsInOrder q
      → q.awaited ≡ none
      → q.pending_jobs ≡ js
      → (r : SingleProcessIndexQueue) × IsDrained outcome q r
  unfolding start_job
  drain_idle [] q h idle e =
      let none_runs : q.running_job ≡ none = sym h.one_job ∙ idle in
      (
        q,
        record {
          reached = here;
          follows = tt;
          idle = none_runs;
          nobody = e;
          same = refl;
          all_done = all_counted q h none_runs e;
          errors = omega (arith, to_do q none_runs e);
        },
      )
  drain_idle (j ∷ js) q h idle e =
      let chained = h.chained ∙ e in
      let begin = started q now j js idle chained in
      let p = start_job now j (record q { tail = js }) in
      let in_order = start_job-IsInOrder q h now j js idle chained in
      let (s, settled) = settle p _ refl in
      let (r, drained) =
        drain_idle js s (Step-IsInOrder settled.step in_order) settled.idle
          (settled.pending_same ∙ sym in_order.chained) in
      (
        r,
        record {
          reached = Reach-trans (next (next here begin) settled.step) drained.reached;
          follows =
              Follows-trans outcome (next (next here begin) settled.step) drained.reached
                (settled.follows (next here begin) tt) drained.follows;
          idle = drained.idle;
          nobody = drained.nobody;
          same = drained.same ∙ settled.ids_same;
          all_done = drained.all_done;
          errors =
              let before = to_do q (sym h.one_job ∙ idle) e in
              let after =
                to_do s (sym (Step-IsInOrder settled.step in_order).one_job ∙ settled.idle)
                  (settled.pending_same ∙ sym in_order.chained) in
              omega (arith, before, after, settled.errors, drained.errors);
        },
      )

  pub drained :
      (q : SingleProcessIndexQueue)
      → IsInOrder q
      → (r : SingleProcessIndexQueue) × IsDrained outcome q r
  drained q h = elim (Option-cases q.awaited) [
    | inl idle ↦ drain_idle q.pending_jobs q h idle refl
    | inr (job, e) ↦
        let (s, settled) = settle q job e in
        let (r, rest) =
          drain_idle s.pending_jobs s (Step-IsInOrder settled.step h) settled.idle refl in
        (
          r,
          record {
            reached = Reach-trans (next here settled.step) rest.reached;
            follows =
                Follows-trans outcome (next here settled.step) rest.reached
                  (settled.follows here tt) rest.follows;
            idle = rest.idle;
            nobody = rest.nobody;
            same = rest.same ∙ settled.ids_same;
            all_done = rest.all_done;
            errors =
                let before = to_do q {js = q.pending_jobs} (sym h.one_job ∙ e) refl in
                let after =
                  to_do s (sym (Step-IsInOrder settled.step h).one_job ∙ settled.idle)
                    settled.pending_same in
                omega (arith, before, after, settled.errors, rest.errors);
          },
        )
  ]
