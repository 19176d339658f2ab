-- ===== src/Indexing/Pool/Laws.antt =====
-- What holds of the pool between two settlements.
use logiclens.Shared.{
  ℕ, zero, suc, ◌+◌, ◌*◌, ◌≤◌, ◌<◌, Bool, false, some, List, [], ◌∷◌, Memᴰ, length, get_elem?,
  modify, length-modify, get_elem?-modify, get_elem?_lt, ◌≡◌, ◌≢◌, refl, sym, subst, ◌∙◌, ◌⊎◌, inl,
  inr, arith, Bool-cases, some_inj, ◌==◌, ==_iff,
}
use logiclens.Indexing.{pending, succeeded}
use logiclens.Indexing.Pool.{IndexJob, IndexQueueOptions, Pool, max_attempts}

module _ {T : Type 0} where
  -- the calls of the worker so far
  abbrev pub calls : List (IndexJob T) → ℕ
  calls [] = 0
  calls (job ∷ jobs) = job.attempts + calls jobs

  pub calls-modify :
      (i : ℕ) (f : IndexJob T → IndexJob T) (jobs : List (IndexJob T)) {x : IndexJob T} (d : ℕ)
      → get_elem? jobs i ≡ some x
      → (f x).attempts ≡ x.attempts + d
      → calls (modify i f jobs) ≡ calls jobs + d
  calls-modify i f [] d e h = cc
  calls-modify zero f (y ∷ jobs) {x} d e h =
      let same : (f y).attempts ≡ y.attempts + d =
        subst (λ (z : IndexJob T). (f z).attempts ≡ z.attempts + d) (sym (some_inj e)) h in
      omega (arith, same)
  calls-modify (suc i) f (y ∷ jobs) d e h = omega (arith, calls-modify i f jobs d e h)

  pub calls-le :
      (m : ℕ) (jobs : List (IndexJob T))
      → ((i : ℕ) (job : IndexJob T) → get_elem? jobs i ≡ some job → job.attempts ≤ m)
      → calls jobs ≤ length jobs * m
  calls-le m [] h = omega arith
  calls-le m (job ∷ jobs) h =
      let here = h 0 job refl in
      let rest = calls-le m jobs (λ i x e. h (suc i) x e) in grind (arith, here, rest)

  pub modify-modify :
      (i : ℕ) (f g : IndexJob T → IndexJob T) (jobs : List (IndexJob T))
      → modify i f (modify i g jobs) ≡ modify i (λ x. f (g x)) jobs
  modify-modify i f g [] = refl
  modify-modify zero f g (x ∷ jobs) = refl
  modify-modify (suc i) f g (x ∷ jobs) = rw (modify-modify i f g jobs) refl

-- `size` jobs and `w` calls of `runNext`.
module _ {T : Type 0} (options : IndexQueueOptions) (size w : ℕ) where
  -- After `n` settlements, with `k` calls that have not yet looked for a job.
  pub record IsSound (n k : ℕ) (st : Pool T) : Type 0 where
    pub length_same : length st.jobs ≡ size
    pub tried :
        (i : ℕ) (job : IndexJob T)
        → get_elem? st.jobs i ≡ some job
        → job.attempts ≤ max_attempts options
    pub fresh :
        (i : ℕ) (job : IndexJob T)
        → get_elem? st.jobs i ≡ some job
        → st.cursor ≤ i
        → (job.attempts ≡ 0) × (job.status ≡ pending)
    pub taken :
        (i : ℕ) (job : IndexJob T)
        → get_elem? st.jobs i ≡ some job
        → i < st.cursor
        → job.status ≢ pending
    pub held : (i : ℕ) → Memᴰ i st.awaited → (i < st.cursor) × (i < size)
    pub settled :
        st.has_failed ≡ false
        → (i : ℕ) (job : IndexJob T) → get_elem? st.jobs i ≡ some job
        → i < st.cursor
        → (job.status ≡ succeeded) ⊎ Memᴰ i st.awaited
    pub counted : calls st.jobs ≡ n + length st.awaited
    pub few : length st.awaited + k ≤ w
    pub many : st.has_failed ≡ false → st.cursor < size → w ≤ length st.awaited + k

  module _ (n : ℕ) (st : Pool T) where
    -- A job whose worker is settled: `aw` are the positions that are awaited then.
    pub settle-IsSound :
        (k d i : ℕ) (f : IndexJob T → IndexJob T) (aw : List ℕ) (stop : Bool)
        → IsSound n 0 st
        → Memᴰ i st.awaited
        → ((job : IndexJob T)
            → get_elem? st.jobs i ≡ some job
            → ((f job).attempts ≡ job.attempts + d)
              × ((f job).attempts ≤ max_attempts options)
              × ((f job).status ≢ pending)
              × (stop ≡ false → ((f job).status ≡ succeeded) ⊎ Memᴰ i aw))
        → ((j : ℕ) → Memᴰ j aw → Memᴰ j st.awaited)
        → ((j : ℕ) → Memᴰ j st.awaited → ¬ (j ≡ i) → Memᴰ j aw)
        → length aw + k ≡ length st.awaited
        → d + k ≡ 1
        → (stop ≡ false → st.has_failed ≡ false)
        → IsSound
            (n + 1)
            k
            (record st { jobs = modify i f st.jobs; awaited = aw; has_failed = stop })
    settle-IsSound k d i f aw stop h m good old stays fewer one going = record {
      length_same = length-modify i f st.jobs ∙ h.length_same;
      tried = λ j y e.
          let (x, found, here, other) = get_elem?-modify i j f st.jobs e in
          elim (Bool-cases (i == j)) [
            | inl same ↦
                let i_is_j = (==_iff i j).0 same in
                let (_, le, _, _) = good x (rw i_is_j found) in rw (here i_is_j) le
            | inr apart ↦ rw (other (ne_of_test i j apart)) (h.tried j x found)
          ];
      fresh = λ j y e past.
          let (x, found, _, other) = get_elem?-modify i j f st.jobs e in
          let apart : ¬ (i ≡ j) = λ same. absurd (omega (arith, (h.held i m).0, same, past)) in
          rw (other apart) (h.fresh j x found past);
      taken = λ j y e before.
          let (x, found, here, other) = get_elem?-modify i j f st.jobs e in
          elim (Bool-cases (i == j)) [
            | inl same ↦
                let i_is_j = (==_iff i j).0 same in
                let (_, _, ne, _) = good x (rw i_is_j found) in rw (here i_is_j) ne
            | inr apart ↦ rw (other (ne_of_test i j apart)) (h.taken j x found before)
          ];
      held = λ j mj. h.held j (old j mj);
      settled = λ on j y e before.
          let (x, found, here, other) = get_elem?-modify i j f st.jobs e in
          elim (Bool-cases (i == j)) [
            | inl same ↦
                let i_is_j = (==_iff i j).0 same in
                let (_, _, _, out) = good x (rw i_is_j found) in
                rw (here i_is_j)
                  (subst (λ p. ((f x).status ≡ succeeded) ⊎ Memᴰ p aw) i_is_j (out on))
            | inr apart ↦
                let ne = ne_of_test i j apart in
                rw (other ne) (elim (h.settled (going on) j x found before) [
                  | inl done ↦ inl done
                  | inr waits ↦ inr (stays j waits (λ same. ne (sym same)))
                ])
          ];
      counted =
          let (x, found) = get_elem?_lt st.jobs i (omega (arith, (h.held i m).1, h.length_same)) in
          let more = calls-modify i f st.jobs d found (good x found).0 in
          omega (arith, more, h.counted, fewer, one);
      few = omega (arith, h.few, fewer);
      many = λ on left. omega (arith, h.many (going on) left, fewer);
    }
      where
        ne_of_test : (a b : ℕ) → (a == b) ≡ false → ¬ (a ≡ b)
        ne_of_test a b t e = let yes = (==_iff a b).1 e in cc
