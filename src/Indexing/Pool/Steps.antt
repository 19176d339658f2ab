-- ===== src/Indexing/Pool/Steps.antt =====
-- Every segment of the pool's calls keeps its invariant.
use mathlib.Core.List.Memᴰ
use logiclens.Shared.{
  ℕ, zero, suc, ◌+◌, ◌<◌, true, false, [], ◌∷◌, Memᴰ, length, length-append, length-modify,
  get_elem?-modify, get_elem?_lt, ◌≡◌, refl, sym, ap, subst, ◌∙◌, inl, inr, arith, Bool-cases, ◌==◌,
  ==_iff,
}
use logiclens.Indexing.Pool.{
  IndexQueueOptions, Pool, tries, begin, attempts_at, has_next, attempt, may_try, run_next, next,
}
use logiclens.Indexing.Pool.Laws.{IsSound, calls-modify}

module _ {T : Type 0} (options : IndexQueueOptions) (size w : ℕ) where
  abbrev advanced : Pool T → Pool T
  advanced st = record st { cursor = st.cursor + 1 }

  module _ (n k : ℕ) (st : Pool T) (h : IsSound options size w n (k + 1) st) where
    room : has_next st ≡ true → (st.cursor < size) × (st.has_failed ≡ false)
    room more = ground (arith, h.length_same)

    -- The job at the cursor was not tried.
    untried : (more : has_next st ≡ true) → may_try options st.cursor (advanced st) ≡ true
    untried more =
        let (left, on) = room more in
        let (job, found) = get_elem?_lt st.jobs st.cursor (omega (arith, left, h.length_same)) in
        let (zero_tries, _) = h.fresh st.cursor job found (omega arith) in
        let tries_zero : attempts_at st.cursor st ≡ 0 = ap tries found ∙ zero_tries in
        ground (arith, tries_zero, on)

    claim-IsSound :
        (now : ℕ)
        → has_next st ≡ true
        → IsSound options size w n k (attempt now st.cursor (advanced st))
    unfolding attempt
    claim-IsSound now more =
        let (left, on) = room more in
        record {
          length_same = length-modify st.cursor (begin now) st.jobs ∙ h.length_same;
          tried = λ j y e.
              let (x, found, here, other) = get_elem?-modify st.cursor j (begin now) st.jobs e in
              elim (Bool-cases (st.cursor == j)) [
                | inl same ↦
                    let at = (==_iff _ _).0 same in
                    let (none_yet, _) = h.fresh j x found (omega arith) in
                    rw (here at) (omega (arith, none_yet))
                | inr apart ↦ rw (other (λ s. ne_of_test st.cursor j apart s)) (h.tried j x found)
              ];
          fresh = λ j y e past.
              let (x, found, _, other) = get_elem?-modify st.cursor j (begin now) st.jobs e in
              rw (other (λ s. absurd (omega (arith, s, past)))) (h.fresh j x found (omega arith));
          taken = λ j y e before.
              let (x, found, here, other) = get_elem?-modify st.cursor j (begin now) st.jobs e in
              elim (Bool-cases (st.cursor == j)) [
                | inl same ↦ rw (here ((==_iff _ _).0 same)) (λ clash. cc)
                | inr apart ↦
                    let ne = ne_of_test st.cursor j apart in
                    rw (other ne) (h.taken j x found (below j ne before))
              ];
          held = λ j m. elim (Memᴰ.append_cases st.awaited m) [
            | inl old ↦ (omega (arith, (h.held j old).0), (h.held j old).1)
            | inr new ↦
                let e = Memᴰ.eq_of_singleton new in (omega (arith, e), omega (arith, e, left))
          ];
          settled = λ _ j y e before.
              let (x, found, here, other) = get_elem?-modify st.cursor j (begin now) st.jobs e in
              elim (Bool-cases (st.cursor == j)) [
                | inl same ↦
                    inr (Memᴰ.append_right st.awaited (Memᴰ.head (sym ((==_iff _ _).0 same))))
                | inr apart ↦
                    let ne = ne_of_test st.cursor j apart in
                    rw (other ne) (elim (h.settled on j x found (below j ne before)) [
                      | inl done ↦ inl done
                      | inr waits ↦ inr (Memᴰ.append_left (st.cursor ∷ []) waits)
                    ])
              ];
          counted =
              let (x, found) =
                get_elem?_lt st.jobs st.cursor (omega (arith, left, h.length_same)) in
              let more_calls = calls-modify st.cursor (begin now) st.jobs 1 found refl in
              omega (arith, more_calls, h.counted, length-append st.awaited (st.cursor ∷ []));
          few = omega (arith, h.few, length-append st.awaited (st.cursor ∷ []));
          many = λ _ _. omega (arith, h.many on left, length-append st.awaited (st.cursor ∷ []));
        }
      where
        ne_of_test : (a b : ℕ) → (a == b) ≡ false → ¬ (a ≡ b)
        ne_of_test a b t e = let yes = (==_iff a b).1 e in cc

        below : (j : ℕ) → ¬ (st.cursor ≡ j) → j < st.cursor + 1 → j < st.cursor
        below j ne before = grind (arith, ne)

    -- A call that looks for a job and finds none ends.
    end-IsSound : has_next st ≡ false → IsSound options size w n k st
    end-IsSound over = record {
      length_same = h.length_same;
      tried = h.tried;
      fresh = h.fresh;
      taken = h.taken;
      held = h.held;
      settled = h.settled;
      counted = h.counted;
      few = omega (arith, h.few);
      many = λ on left. absurd (ground (arith, h.length_same));
    }

    pub next-IsSound : (now : ℕ) → IsSound options size w n k (next options now st)
    unfolding run_next
    next-IsSound now = elim (Bool-cases (has_next st)) [
      | inl more ↦
          subst (IsSound options size w n k)
            (sym (go_on (length st.jobs) more (omega (arith, (room more).0, h.length_same))))
            (claim-IsSound now more)
      | inr over ↦
          subst (IsSound options size w n k) (sym (stop (length st.jobs) over)) (end-IsSound over)
    ]
      where
        go_on :
            (left : ℕ)
            → has_next st ≡ true
            → 0 < left
            → run_next options left now st ≡ attempt now st.cursor (advanced st)
        go_on zero more pos = absurd (omega arith)
        go_on (suc left) more pos = rw (more, untried more) refl

        stop : (left : ℕ) → has_next st ≡ false → run_next options left now st ≡ st
        stop zero over = refl
        stop (suc left) over = rw over refl
