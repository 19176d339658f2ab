-- ===== src/Deps/Laws.antt =====
-- What the merge of dependencies keeps.
use mathlib.Core.List.{map-append}
use mathlib.Core.List.Memᴰ
use logiclens.Shared.{
  String, List, [], ◌∷◌, ◌++◌, map, Memᴰ, ◌≡◌, refl, sym, ap, subst, ◌⊎◌, inl, inr, has, has_iff,
  for_each, for_each_keeps, for_each_reaches, Bool-cases, IsDistinct, IsDistinct-concat, ◌∙◌, ◌≢◌,
}
use logiclens.Nodes.{RepoDependencyEdge}
use logiclens.Deps.{
  structural_key, evidence_key, Merge, start, add_semantic, add_legacy, merge_and_dedupe_deps,
}

-- The cases of a round.
add_semantic_cases {κ} :
    (P : Merge → Type κ) (d : RepoDependencyEdge) (st : Merge)
    → (Memᴰ (evidence_key d) st.seen_evidence → P st)
    → (¬ Memᴰ (evidence_key d) st.seen_evidence
        → P (record {
          seen_evidence = st.seen_evidence ++ evidence_key d ∷ [];
          covered = st.covered ++ structural_key d ∷ [];
          result = st.result ++ d ∷ [];
        }))
    → P (add_semantic d st)
unfolding add_semantic
add_semantic_cases P d st old new = elim (Bool-cases (has st.seen_evidence (evidence_key d))) [
  | inl seen ↦ rw seen (old ((has_iff _ _).0 seen))
  | inr fresh ↦ rw fresh (new (λ m. let seen = (has_iff _ _).1 m in cc))
]

add_legacy_cases {κ} :
    (P : Merge → Type κ) (d : RepoDependencyEdge) (st : Merge)
    → (Memᴰ (structural_key d) st.covered ⊎ Memᴰ (evidence_key d) st.seen_evidence → P st)
    → (¬ Memᴰ (structural_key d) st.covered
        → ¬ Memᴰ (evidence_key d) st.seen_evidence
        → P (record st {
          seen_evidence = st.seen_evidence ++ evidence_key d ∷ [];
          result = st.result ++ d ∷ [];
        }))
    → P (add_legacy d st)
unfolding add_legacy
add_legacy_cases P d st old new = elim (Bool-cases (has st.covered (structural_key d))) [
  | inl covered ↦ rw covered (old (inl ((has_iff _ _).0 covered)))
  | inr gap ↦ elim (Bool-cases (has st.seen_evidence (evidence_key d))) [
    | inl seen ↦ rw (gap, seen) (old (inr ((has_iff _ _).0 seen)))
    | inr fresh ↦
        rw (gap, fresh)
          (new (λ m. let c = (has_iff _ _).1 m in cc) (λ m. let c = (has_iff _ _).1 m in cc))
  ]
]

-- The keys seen are those of the result, each once.
record IsSeen (st : Merge) : Type 0 where
  keys : st.seen_evidence ≡ map evidence_key st.result
  distinct : IsDistinct st.seen_evidence

add_one :
    (d : RepoDependencyEdge) (st : Merge) (covered : List String)
    → IsSeen st
    → ¬ Memᴰ (evidence_key d) st.seen_evidence
    → IsSeen (record {
      seen_evidence = st.seen_evidence ++ evidence_key d ∷ [];
      covered = covered;
      result = st.result ++ d ∷ [];
    })
add_one d st covered h fresh = record {
  keys =
      ap (λ l. l ++ evidence_key d ∷ []) h.keys ∙ sym (map-append evidence_key st.result (d ∷ []));
  distinct = IsDistinct-concat st.seen_evidence h.distinct fresh;
}

add_semantic-IsSeen : (d : RepoDependencyEdge) (st : Merge) → IsSeen st → IsSeen (add_semantic d st)
add_semantic-IsSeen d st h =
    add_semantic_cases IsSeen d st (λ _. h) (λ fresh. add_one d st _ h fresh)

add_legacy-IsSeen : (d : RepoDependencyEdge) (st : Merge) → IsSeen st → IsSeen (add_legacy d st)
add_legacy-IsSeen d st h = add_legacy_cases IsSeen d st (λ _. h) (λ _ fresh. add_one d st _ h fresh)

-- A key that was seen stays.
add_semantic-keeps :
    (k : String) (d : RepoDependencyEdge) (st : Merge)
    → Memᴰ k st.seen_evidence
    → Memᴰ k (add_semantic d st).seen_evidence
add_semantic-keeps k d st m =
    add_semantic_cases (λ (t : Merge). Memᴰ k t.seen_evidence) d st (λ _. m)
      (λ _. Memᴰ.append_left (evidence_key d ∷ []) m)

add_legacy-keeps :
    (k : String) (d : RepoDependencyEdge) (st : Merge)
    → Memᴰ k st.seen_evidence
    → Memᴰ k (add_legacy d st).seen_evidence
add_legacy-keeps k d st m =
    add_legacy_cases (λ (t : Merge). Memᴰ k t.seen_evidence) d st (λ _. m)
      (λ _ _. Memᴰ.append_left (evidence_key d ∷ []) m)

-- The key of what is added is seen.
add_semantic-sees :
    (d : RepoDependencyEdge) (st : Merge) → Memᴰ (evidence_key d) (add_semantic d st).seen_evidence
add_semantic-sees d st =
    add_semantic_cases (λ (t : Merge). Memᴰ (evidence_key d) t.seen_evidence) d st (λ m. m)
      (λ _. Memᴰ.append_right st.seen_evidence (Memᴰ.head refl))

covered-add_legacy : (d : RepoDependencyEdge) (st : Merge) → (add_legacy d st).covered ≡ st.covered
covered-add_legacy d st =
    add_legacy_cases (λ (t : Merge). t.covered ≡ st.covered) d st (λ _. refl) (λ _ _. refl)

module _ (semantic legacy : List RepoDependencyEdge) where
  abbrev after_semantic : Merge
  after_semantic = for_each semantic add_semantic start

  abbrev after_legacy : Merge
  after_legacy = for_each legacy add_legacy after_semantic

  -- While the dependencies of relations are added, what is covered is the result's structures.
  record IsFilling (st : Merge) : Type 0 where
    from : (d : RepoDependencyEdge) → Memᴰ d st.result → Memᴰ d semantic
    covers : st.covered ≡ map structural_key st.result

  after_semantic-IsFilling : IsFilling after_semantic
  after_semantic-IsFilling =
      for_each_keeps IsFilling semantic add_semantic
        (λ d st md h.
          add_semantic_cases IsFilling d st (λ _. h)
            (λ _. record {
              from = λ e m. elim (Memᴰ.append_cases st.result m) [
                | inl old ↦ h.from e old
                | inr new ↦ Memᴰ.cast (Memᴰ.eq_of_singleton new) md
              ];
              covers =
                  ap (λ l. l ++ structural_key d ∷ []) h.covers
                  ∙ sym (map-append structural_key st.result (d ∷ []));
            }))
        start (record { from = λ d m. absurd (Memᴰ.not-nil m); covers = refl })

  after_semantic-IsSeen : IsSeen after_semantic
  after_semantic-IsSeen =
      for_each_keeps IsSeen semantic add_semantic (λ d st _. add_semantic-IsSeen d st) start
        (record { keys = refl; distinct = tt })

  after_legacy-IsSeen : IsSeen after_legacy
  after_legacy-IsSeen =
      for_each_keeps IsSeen legacy add_legacy (λ d st _. add_legacy-IsSeen d st) after_semantic
        after_semantic-IsSeen

  -- A dependency of the older scheme whose structure no dependency of a relation has.
  FillsGap : RepoDependencyEdge → Type 0
  FillsGap d = Memᴰ d legacy × ¬ Memᴰ (structural_key d) after_semantic.covered

  record IsMerging (st : Merge) : Type 0 where
    from : (d : RepoDependencyEdge) → Memᴰ d st.result → Memᴰ d after_semantic.result ⊎ FillsGap d
    covers : st.covered ≡ after_semantic.covered

  after_legacy-IsMerging : IsMerging after_legacy
  unfolding FillsGap
  after_legacy-IsMerging =
      for_each_keeps IsMerging legacy add_legacy
        (λ d st md h.
          add_legacy_cases IsMerging d st (λ _. h)
            (λ gap _. record {
              from = λ e m. elim (Memᴰ.append_cases st.result m) [
                | inl old ↦ h.from e old
                | inr new ↦ inr (
                    subst FillsGap (sym (Memᴰ.eq_of_singleton new))
                      (md, λ c. gap (subst (Memᴰ (structural_key d)) (sym h.covers) c)))
              ];
              covers = h.covers;
            }))
        after_semantic (record { from = λ d m. inl m; covers = refl })

  -- Dependencies of relations with one key of structure and evidence have one structure.
  abbrev pub AreTold : Type 0
  AreTold =
      (r t : RepoDependencyEdge)
      → Memᴰ r semantic
      → Memᴰ t semantic
      → evidence_key r ≡ evidence_key t
      → structural_key r ≡ structural_key t

  semantic_seen :
      (d : RepoDependencyEdge)
      → Memᴰ d semantic
      → Memᴰ (evidence_key d) after_semantic.seen_evidence
  semantic_seen d m =
      for_each_reaches (λ (st : Merge). Memᴰ (evidence_key d) st.seen_evidence) semantic
        add_semantic m (add_semantic-sees d) (add_semantic-keeps (evidence_key d)) start

  -- The structure of every dependency of a relation is covered.
  semantic_covered :
      AreTold
      → (r : RepoDependencyEdge) → Memᴰ r semantic
      → Memᴰ (structural_key r) after_semantic.covered
  semantic_covered told r m =
      let (t, mt, same) =
        Memᴰ.of_map evidence_key after_semantic.result
          (subst (Memᴰ (evidence_key r)) after_semantic-IsSeen.keys (semantic_seen r m)) in
      subst (Memᴰ (structural_key r)) (sym after_semantic-IsFilling.covers) (
        Memᴰ.cast (sym (told t r (after_semantic-IsFilling.from t mt) m same))
          (Memᴰ.map structural_key mt))

  -- Where dependencies of relations with one key of structure and evidence have one structure, what
  -- is in the merge is a dependency of a relation, or one of the older scheme whose structure no
  -- dependency of a relation has.
  pub merge_and_dedupe_deps_sound :
      AreTold
      → (d : RepoDependencyEdge) → Memᴰ d (merge_and_dedupe_deps semantic legacy)
      → Memᴰ d semantic
        ⊎ (Memᴰ d legacy
            × ((r : RepoDependencyEdge) → Memᴰ r semantic → structural_key r ≢ structural_key d))
  unfolding merge_and_dedupe_deps FillsGap
  merge_and_dedupe_deps_sound told d m = elim (after_legacy-IsMerging.from d m) [
    | inl old ↦ inl (after_semantic-IsFilling.from d old)
    | inr (listed, gap) ↦
        inr (listed, λ r mr same. gap (Memᴰ.cast (sym same) (semantic_covered told r mr)))
  ]

  -- The evidence of a dependency of a relation is in the merge, and so is that of one of the older
  -- scheme whose structure none of those that the relations leave has.
  pub merge_and_dedupe_deps_complete :
      (d : RepoDependencyEdge)
      → Memᴰ d semantic
        ⊎ (Memᴰ d legacy
            × ((r : RepoDependencyEdge)
                → Memᴰ r (merge_and_dedupe_deps semantic [])
                → structural_key r ≢ structural_key d))
      → Memᴰ (evidence_key d) (map evidence_key (merge_and_dedupe_deps semantic legacy))
  unfolding merge_and_dedupe_deps
  merge_and_dedupe_deps_complete d h =
      subst (Memᴰ (evidence_key d)) after_legacy-IsSeen.keys (elim h [
        | inl m ↦
            for_each_keeps (λ (st : Merge). Memᴰ (evidence_key d) st.seen_evidence) legacy
              add_legacy (λ e st _. add_legacy-keeps (evidence_key d) e st) after_semantic
              (semantic_seen d m)
        | inr (m, gap) ↦ reached m gap
      ])
    where
      reached :
          Memᴰ d legacy
          → ((r : RepoDependencyEdge)
              → Memᴰ r after_semantic.result
              → structural_key r ≢ structural_key d)
          → Memᴰ (evidence_key d) after_legacy.seen_evidence
      reached m gap =
          for_each_reaches AddsIt legacy add_legacy m
            (λ st e.
              add_legacy_cases (λ (t : Merge). Memᴰ (evidence_key d) t.seen_evidence) d st
                (λ old. elim old [
                  | inl c ↦
                      let (r, mr, same) = Memᴰ.of_map structural_key after_semantic.result (
                        subst (Memᴰ (structural_key d)) after_semantic-IsFilling.covers (
                          subst (Memᴰ (structural_key d)) (sym (covered-add_legacy d st) ∙ e) c)) in
                      absurd (gap r mr same)
                  | inr seen ↦ seen
                ])
                (λ _ _. Memᴰ.append_right st.seen_evidence (Memᴰ.head refl)))
            (λ e st h same.
              add_legacy-keeps (evidence_key d) e st (h (sym (covered-add_legacy e st) ∙ same)))
            after_semantic after_legacy-IsMerging.covers
        where
          AddsIt : Merge → Type 0
          AddsIt st = st.covered ≡ after_semantic.covered → Memᴰ (evidence_key d) st.seen_evidence

  -- No two dependencies of the merge have the same structure and evidence.
  pub merge_and_dedupe_deps-IsDistinct :
      IsDistinct (map evidence_key (merge_and_dedupe_deps semantic legacy))
  unfolding merge_and_dedupe_deps
  merge_and_dedupe_deps-IsDistinct =
      subst IsDistinct after_legacy-IsSeen.keys after_legacy-IsSeen.distinct
