-- ===== src/Indexing/Pool/Outcome.antt =====
-- What the jobs of runIndexQueue come to, however the workers are settled.
use mathlib.Core.List.Memᴰ
use logiclens.Shared.{
  ℕ, zero, suc, ◌+◌, ◌*◌, ◌≤◌, ◌<◌, String, false, some, List, [], ◌∷◌, map, Memᴰ, max, length,
  get_elem?, lt_of_get_elem?, ◌≡◌, ◌≢◌, refl, sym, ap, subst, ◌∙◌, inl, inr, arith, Bool-cases,
  some_inj,
}
use logiclens.Indexing.{pending, succeeded, failed}
use logiclens.Indexing.Pool.{
  IndexJob, IndexQueueOptions, Pool, max_attempts, fresh_pool, next, start, workers, started,
  make_jobs, finish, Runs, here, fulfilled, rejected, abort,
}
use logiclens.Indexing.Pool.Laws.{IsSound, calls, calls-le}
use logiclens.Indexing.Pool.Steps.{next-IsSound}
use logiclens.Indexing.Pool.Settle.{fulfil-IsSound, reject-IsSound}

module _ {T : Type 0} (id_for_payload : T → ℕ → String) where
  length-make_jobs : (i : ℕ) (ps : List T) → length (make_jobs id_for_payload i ps) ≡ length ps
  unfolding make_jobs
  length-make_jobs i [] = refl
  length-make_jobs i (p ∷ ps) = ap suc (length-make_jobs (i + 1) ps)

  make_jobs_fresh :
      (i : ℕ) (ps : List T) (k : ℕ) (job : IndexJob T)
      → get_elem? (make_jobs id_for_payload i ps) k ≡ some job
      → (job.attempts ≡ 0) × (job.status ≡ pending)
  unfolding make_jobs
  make_jobs_fresh i [] k job e = cc
  make_jobs_fresh i (p ∷ ps) zero job e = ground arith
  make_jobs_fresh i (p ∷ ps) (suc k) job e = make_jobs_fresh (i + 1) ps k job e

  calls-make_jobs : (i : ℕ) (ps : List T) → calls (make_jobs id_for_payload i ps) ≡ 0
  unfolding make_jobs
  calls-make_jobs i [] = refl
  calls-make_jobs i (p ∷ ps) = omega (arith, calls-make_jobs (i + 1) ps)

get_elem?-map :
    {A B : Type 0} (f : A → B) (xs : List A) (i : ℕ) {b : B}
    → get_elem? (map f xs) i ≡ some b
    → (a : A) × (get_elem? xs i ≡ some a) × (f a ≡ b)
get_elem?-map f [] i e = cc
get_elem?-map f (x ∷ xs) zero e = (x, refl, some_inj e)
get_elem?-map f (x ∷ xs) (suc i) e = get_elem?-map f xs i e

module _ {T : Type 0} where
  -- What a job that no worker took has come to.
  pub record IsAborted (at : ℕ) (job : IndexJob T) : Type 0 where
    pub status : job.status ≡ failed
    pub error : job.error ≡ some "Aborted due to preceding failure"
    pub finished : job.finished_at ≡ some at

  abort_pending : (at : ℕ) (job : IndexJob T) → job.status ≡ pending → IsAborted at (abort at job)
  abort_pending at job e = rw e (record { status = refl; error = refl; finished = refl })

  abort_other : (at : ℕ) (job : IndexJob T) → job.status ≢ pending → abort at job ≡ job
  abort_other at job n = ground arith

module _ {T : Type 0} (options : IndexQueueOptions) where
  start-IsSound :
      (size w n now k : ℕ) (st : Pool T)
      → IsSound options size w n k st
      → IsSound options size w n 0 (start options now k st)
  unfolding start
  start-IsSound size w n now zero st h = h
  start-IsSound size w n now (suc k) st h = start-IsSound size w n now k (next options now st) (
      next-IsSound options size w n k st
        (subst (λ c. IsSound options size w n c st) (omega arith) h) now)

module _ {T : Type 0} (id_for_payload : T → ℕ → String) (options : IndexQueueOptions) (now : ℕ)
    (payloads : List T) where
  -- the array `jobs`
  abbrev jobs : List (IndexJob T)
  jobs = make_jobs id_for_payload 0 payloads

  started-IsSound :
      IsSound options (length jobs) (workers options jobs) 0 0 (started options now jobs)
  unfolding started
  started-IsSound =
      start-IsSound options (length jobs) (workers options jobs) 0 now (workers options jobs)
        (fresh_pool jobs)
        (record {
          length_same = refl;
          tried = λ i job e.
              let (untried, _) = make_jobs_fresh id_for_payload 0 payloads i job e in
              omega (arith, untried);
          fresh = λ i job e _. make_jobs_fresh id_for_payload 0 payloads i job e;
          taken = λ i job e before. absurd (omega arith);
          held = λ i m. absurd (Memᴰ.not-nil m);
          settled = λ _ i job e before. absurd (omega arith);
          counted = calls-make_jobs id_for_payload 0 payloads;
          few = omega arith;
          many = λ _ _. omega arith;
        })

  Runs-IsSound :
      {m : ℕ} {q : Pool T}
      → Runs options (started options now jobs) m q
      → IsSound options (length jobs) (workers options jobs) m 0 q
  Runs-IsSound here = started-IsSound
  Runs-IsSound (fulfilled {n = k} {q = q} r t i m) =
      fulfil-IsSound options _ _ k t i q (Runs-IsSound r) m
  Runs-IsSound (rejected {n = k} {q = q} r t message i m) =
      reject-IsSound options _ _ k t i q (Runs-IsSound r) m message

  module _ (n : ℕ) (st : Pool T) (r : Runs options (started options now jobs) n st) where
    -- Whatever order the workers are settled in: there are at most as many workers at once as
    -- the option allows, and at least one is allowed; no job is tried more often than the option
    -- says, and so the number of settlements is bounded.
    pub run_index_queue_bounds :
        (length st.awaited ≤ max 1 options.concurrency)
        × (n + length st.awaited ≤ length payloads * max_attempts options)
        × ((job : IndexJob T) (i : ℕ)
            → get_elem? st.jobs i ≡ some job
            → job.attempts ≤ max_attempts options)
    run_index_queue_bounds =
        let h = Runs-IsSound r in
        let same = length-make_jobs id_for_payload 0 payloads in
        let le = calls-le (max_attempts options) st.jobs h.tried in
        let le' : calls st.jobs ≤ length payloads * max_attempts options =
          subst (λ l. calls st.jobs ≤ l * max_attempts options) (h.length_same ∙ same) le in
        (omega (arith, h.few), omega (arith, h.counted, le'), λ job i e. h.tried i job e)

    -- Once no worker is awaited, and unless a job failed for good, every payload's job has
    -- succeeded.
    pub run_index_queue_succeeds :
        (done_at : ℕ)
        → st.awaited ≡ []
        → st.has_failed ≡ false
        → (length (finish done_at st) ≡ length payloads)
          × ((i : ℕ) (job : IndexJob T)
              → get_elem? (finish done_at st) i ≡ some job
              → job.status ≡ succeeded)
    unfolding finish
    run_index_queue_succeeds done_at over on =
        let h = Runs-IsSound r in
        rw on (
          h.length_same ∙ length-make_jobs id_for_payload 0 payloads,
          λ i job e. elim (h.settled on i job e (all_taken i (lt_of_get_elem? st.jobs i e))) [
            | inl done ↦ done
            | inr waits ↦ absurd (Memᴰ.not-nil (subst (Memᴰ i) over waits))
          ],
        )
      where
        all_taken : (i : ℕ) → i < length st.jobs → i < st.cursor
        all_taken i lt =
            let h = Runs-IsSound r in
            grind (arith, h.many on, ap (length {A = ℕ}) over, h.length_same)

    -- Once no worker is awaited, whether a job failed for good or not, a job that no worker took has
    -- failed, with the error of an abort and the time of the end, and every other job of the result
    -- is left as it was, and is not pending.
    pub run_index_queue-not_pending :
        (done_at : ℕ)
        → st.awaited ≡ []
        → (i : ℕ) (job : IndexJob T) → get_elem? (finish done_at st) i ≡ some job
        → (st.cursor ≤ i → IsAborted done_at job)
          × (i < st.cursor → (get_elem? st.jobs i ≡ some job) × (job.status ≢ pending))
    unfolding finish
    run_index_queue-not_pending done_at over i job e =
        let h = Runs-IsSound r in
        elim (Bool-cases st.has_failed) [
          | inl stopped ↦
              let (old, there, same) = get_elem?-map (abort done_at) st.jobs i (rw stopped at e) in
              (
                λ past.
                    subst (IsAborted done_at) same
                      (abort_pending done_at old (h.fresh i old there past).1),
                λ taken.
                    let ne = h.taken i old there taken in
                    let kept = sym (abort_other done_at old ne) ∙ same in
                    (
                      there ∙ ap (λ o. some o) kept,
                      subst (λ (o : IndexJob T). o.status ≢ pending) kept ne,
                    ),
              )
          | inr on ↦
              let there : get_elem? st.jobs i ≡ some job = rw on at e in
              (
                λ past.
                    let done = (run_index_queue_succeeds done_at over on).1 i job e in
                    let waits = (h.fresh i job there past).1 in cc,
                λ taken. (there, h.taken i job there taken),
              )
        ]
