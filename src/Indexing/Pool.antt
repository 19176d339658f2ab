-- ===== src/Indexing/Pool.antt =====
-- runIndexQueue: jobs shared by calls of `runNext` that run at once, with retries, until one fails
-- for good. Between two awaits a call runs alone, so that the state changes in whole segments: from
-- the settlement of a job's worker to the next await or the end of the call. A call that waits is
-- the position of its job.
pub mod Laws
pub mod Steps
pub mod Settle
pub mod Outcome
use logiclens.Shared.{
  ℕ, zero, suc, ◌+◌, ◌-◌, String, Bool, true, false, not, ◌&&◌, Option, none, some, List, [], ◌∷◌,
  ◌++◌, map, Memᴰ, ltb, leb, min, max, get_or_else, length, get_elem?, modify, remove,
  if◌then◌else◌, ◌≡◌, refl,
}
use logiclens.Indexing.{IndexJobStatus, pending, running, succeeded, failed}

pub record IndexJob (T : Type 0) : Type 0 where
  pub id : String
  pub payload : T
  pub attempts : ℕ
  pub status : IndexJobStatus
  pub error : Option String
  pub started_at : Option ℕ
  pub finished_at : Option ℕ

pub record IndexQueueOptions : Type 0 where
  pub concurrency : ℕ
  pub retries : Option ℕ

-- The variables of the call, and the positions of the jobs whose workers are awaited.
pub record Pool (T : Type 0) : Type 0 where
  pub jobs : List (IndexJob T)
  pub cursor : ℕ
  pub has_failed : Bool
  pub awaited : List ℕ

-- if (job.status === "pending") …
abbrev pub abort : {T : Type 0} → ℕ → IndexJob T → IndexJob T
abort now job = elim job.status [
  | pending ↦ record job {
    status = failed;
    error = some "Aborted due to preceding failure";
    finished_at = some now;
  }
  | running ↦ job
  | succeeded ↦ job
  | failed ↦ job
]

module _ {T : Type 0} (id_for_payload : T → ℕ → String) where
  -- payloads.map((payload, index) => …), from an index on
  unfoldable pub make_jobs : ℕ → List T → List (IndexJob T)
  make_jobs i [] = []
  make_jobs i (p ∷ ps) =
      record {
        id = id_for_payload p i;
        payload = p;
        attempts = 0;
        status = pending;
        error = none;
        started_at = none;
        finished_at = none;
      }
      ∷ make_jobs (i + 1) ps

abbrev pub max_attempts : IndexQueueOptions → ℕ
max_attempts options = 1 + get_or_else options.retries 0

module _ {T : Type 0} where
  abbrev pub begin : ℕ → IndexJob T → IndexJob T
  begin now job = record job {
    attempts = job.attempts + 1;
    status = running;
    started_at = some now;
  }

  abbrev pub tries : Option (IndexJob T) → ℕ
  tries none = 0
  tries (some job) = job.attempts

  abbrev pub attempts_at : ℕ → Pool T → ℕ
  attempts_at i st = tries (get_elem? st.jobs i)

  -- cursor < jobs.length && !hasFailed
  abbrev pub has_next : Pool T → Bool
  has_next st = ltb st.cursor (length st.jobs) && not st.has_failed

  -- the body of the inner loop up to the await
  unfoldable pub attempt : ℕ → ℕ → Pool T → Pool T
  attempt now i st = record st {
    jobs = modify i (begin now) st.jobs;
    awaited = st.awaited ++ i ∷ [];
  }

  abbrev pub succeed : ℕ → IndexJob T → IndexJob T
  succeed now job = record job { status = succeeded; finished_at = some now }

  abbrev pub note : String → IndexJob T → IndexJob T
  note message job = record job { error = some message }

  abbrev pub give_up : ℕ → IndexJob T → IndexJob T
  give_up now job = record job { status = failed; finished_at = some now }

  abbrev pub fresh_pool : List (IndexJob T) → Pool T
  fresh_pool jobs = record { jobs = jobs; cursor = 0; has_failed = false; awaited = [] }

  -- what follows `await Promise.all(…)`
  unfoldable pub finish : ℕ → Pool T → List (IndexJob T)
  finish now st = if st.has_failed then map (abort now) st.jobs else st.jobs

module _ {T : Type 0} (options : IndexQueueOptions) where
  -- job.attempts < maxAttempts && !hasFailed
  abbrev pub may_try : ℕ → Pool T → Bool
  may_try i st = ltb (attempts_at i st) (max_attempts options) && not st.has_failed

  -- The outer loop up to an await, or to its end. The first number bounds its rounds: each takes a
  -- job, so that as many as there are jobs are enough.
  unfoldable pub run_next : ℕ → ℕ → Pool T → Pool T
  run_next zero now st = st
  run_next (suc left) now st =
      let taken = record st { cursor = st.cursor + 1 } in
      let rest = run_next left now taken in
      if has_next st
      then if may_try st.cursor taken then attempt now st.cursor taken else rest
      else st

  abbrev pub next : ℕ → Pool T → Pool T
  next now st = run_next (length st.jobs) now st

  -- `await worker(…)` was fulfilled
  unfoldable pub fulfil : ℕ → ℕ → Pool T → Pool T
  unfolding run_next
  fulfil now i st =
      next now (record st { jobs = modify i (succeed now) st.jobs; awaited = remove i st.awaited })

  -- `await worker(…)` was rejected: the last attempt stops all calls, and another is followed by
  -- the test of the inner loop
  unfoldable pub reject : ℕ → String → ℕ → Pool T → Pool T
  unfolding run_next
  reject now message i st =
      let noted = record st {
        jobs = modify i (note message) st.jobs;
        awaited = remove i st.awaited;
      } in
      if leb (max_attempts options) (attempts_at i noted)
      then next now (record noted { jobs = modify i (give_up now) noted.jobs; has_failed = true })
      else if may_try i noted
      then attempt now i noted
      else next now noted

  -- Array.from({ length: … }, () => runNext())
  unfoldable pub start : ℕ → ℕ → Pool T → Pool T
  unfolding run_next
  start now zero st = st
  start now (suc n) st = start now n (next now st)

  -- the number of calls of `runNext`
  abbrev pub workers : List (IndexJob T) → ℕ
  workers jobs = min (max 1 options.concurrency) (length jobs)

  unfoldable pub started : ℕ → List (IndexJob T) → Pool T
  unfolding start
  started now jobs = start now (workers jobs) (fresh_pool jobs)

  -- The settlements of workers, one after another, in any order; the number counts them.
  pub data Runs (p : Pool T) : ℕ → Pool T → Type 0 where
    here : Runs p 0 p
    fulfilled :
        {n : ℕ} {q : Pool T}
        → Runs p n q
        → (now i : ℕ) → Memᴰ i q.awaited
        → Runs p (n + 1) (fulfil now i q)
    rejected :
        {n : ℕ} {q : Pool T}
        → Runs p n q
        → (now : ℕ) (message : String) (i : ℕ) → Memᴰ i q.awaited
        → Runs p (n + 1) (reject now message i q)
