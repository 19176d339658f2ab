-- ===== src/Indexing/Pool/Settle.antt =====
-- The settlement of a worker keeps the pool's invariant.
use mathlib.Core.List.Memᴰ
use logiclens.Shared.{
  ℕ, ◌+◌, String, true, false, some, [], ◌∷◌, ◌++◌, Memᴰ, leb, length-append, get_elem?, modify,
  get_elem?-modify_same, remove, length-remove, remove-mem, mem-remove, ◌≡◌, ◌≢◌, refl, sym, ap,
  subst, inl, inr, arith, Bool-cases,
}
use logiclens.Indexing.{pending}
use logiclens.Indexing.Pool.{
  IndexJob, IndexQueueOptions, Pool, max_attempts, begin, attempts_at, attempt, succeed, note,
  give_up, may_try, fulfil, reject, tries,
}
use logiclens.Indexing.Pool.Laws.{IsSound, settle-IsSound, modify-modify}
use logiclens.Indexing.Pool.Steps.{next-IsSound}

module _ {T : Type 0} (options : IndexQueueOptions) (size w : ℕ) where
  module _ (n now i : ℕ) (st : Pool T) (h : IsSound options size w n 0 st)
      (m : Memᴰ i st.awaited) where
    pub fulfil-IsSound : IsSound options size w (n + 1) 0 (fulfil options now i st)
    unfolding fulfil
    fulfil-IsSound =
        next-IsSound options size w (n + 1) 0 _
          (settle-IsSound options size w n st 1 0 i (succeed now) (remove i st.awaited)
            st.has_failed h m
            (λ job e. (omega arith, h.tried i job e, (λ clash. cc), λ on. inl refl))
            (λ j mj. mem-remove i st.awaited mj) (λ j mj ne. remove-mem i st.awaited mj ne)
            (length-remove i st.awaited m) refl (λ on. on))
          now

    -- A call that goes on after a job that it could not finish.
    stopped-IsSound :
        (f : IndexJob T → IndexJob T)
        → ((job : IndexJob T)
            → get_elem? st.jobs i ≡ some job
            → ((f job).attempts ≡ job.attempts) × ((f job).status ≢ pending))
        → IsSound options size w (n + 1) 1 (record st {
          jobs = modify i f st.jobs;
          awaited = remove i st.awaited;
          has_failed = true;
        })
    stopped-IsSound f good =
        settle-IsSound options size w n st 1 0 i f (remove i st.awaited) true h m
          (λ job e.
            let (same, ne) = good job e in
            (omega (arith, same), omega (arith, same, h.tried i job e), ne, λ on. cc))
          (λ j mj. mem-remove i st.awaited mj) (λ j mj ne. remove-mem i st.awaited mj ne)
          (length-remove i st.awaited m) refl (λ on. cc)

    pub reject-IsSound :
        (message : String) → IsSound options size w (n + 1) 0 (reject options now message i st)
    unfolding reject attempt
    reject-IsSound message = elim (Bool-cases (leb (max_attempts options) (attempts_at i noted))) [
      | inl last ↦ rw last (
          next-IsSound options size w (n + 1) 0 _
            (subst
              (λ js.
                IsSound options size w (n + 1) 1
                  (record st { jobs = js; awaited = remove i st.awaited; has_failed = true }))
              (sym (modify-modify i (give_up now) (note message) st.jobs))
              (stopped-IsSound (λ x. give_up now (note message x)) (λ job e. (refl, λ clash. cc))))
            now)
      | inr another ↦ elim (Bool-cases (may_try options i noted)) [
        | inl again ↦ rw (another, again) (retried again)
        | inr stop ↦
            rw (another, stop)
              (next-IsSound options size w (n + 1) 0 noted
                (subst (λ b. IsSound options size w (n + 1) 1 (record noted { has_failed = b }))
                  (sym (off another stop))
                  (stopped-IsSound (note message)
                    (λ job e. (refl, h.taken i job e (h.held i m).0))))
                now)
      ]
    ]
      where
        noted : Pool T
        noted = record st { jobs = modify i (note message) st.jobs; awaited = remove i st.awaited }

        off :
            leb (max_attempts options) (attempts_at i noted) ≡ false
            → may_try options i noted ≡ false
            → st.has_failed ≡ true
        off another stop = ground arith

        retried :
            may_try options i noted ≡ true
            → IsSound options size w (n + 1) 0 (record st {
              jobs = modify i (begin now) (modify i (note message) st.jobs);
              awaited = remove i st.awaited ++ i ∷ [];
            })
        retried again =
            subst
              (λ js.
                IsSound options size w (n + 1) 0
                  (record st { jobs = js; awaited = remove i st.awaited ++ i ∷ [] }))
              (sym (modify-modify i (begin now) (note message) st.jobs))
              (settle-IsSound options size w n st 0 1 i (λ x. begin now (note message x))
                (remove i st.awaited ++ i ∷ []) st.has_failed h m
                (λ job e.
                  let t : attempts_at i noted ≡ job.attempts =
                    ap tries (get_elem?-modify_same i (note message) st.jobs e) in
                  (
                    refl,
                    ground (arith, t, again),
                    (λ clash. cc),
                    λ on. inr (Memᴰ.append_right (remove i st.awaited) (Memᴰ.head refl)),
                  ))
                (λ j mj. elim (Memᴰ.append_cases (remove i st.awaited) mj) [
                  | inl old ↦ mem-remove i st.awaited old
                  | inr new ↦ Memᴰ.cast (Memᴰ.eq_of_singleton new) m
                ])
                (λ j mj ne. Memᴰ.append_left (i ∷ []) (remove-mem i st.awaited mj ne))
                (omega (
                  arith,
                  length-remove i st.awaited m,
                  length-append (remove i st.awaited) (i ∷ []),
                ))
                refl (λ on. on))
