-- ===== src/Matching/Dubbo/Selection.antt =====
-- What the selection of a consumer's producers keeps.
use mathlib.Core.List.Memᴰ
use logiclens.Shared.{
  ℕ, String, Bool, true, false, not, ◌&&◌, ◌||◌, Option, List, Memᴰ, ◌≡◌, refl, ◌∙◌, ◌≤◌, ◌≢◌, ◌↔◌,
  ◌⊎◌, inl, inr, arith, ltb, ◌==◌, str_eq, eq_iff, truthy, get_or_else, filter, mem-filter, has,
  has_iff, Bool-cases, values, values-mem, mem-values, keep_best, keep_best_origin,
  keep_best_covers, lookup_of_mem, mem_of_lookup, keys-keep_best-IsDistinct,
}
use logiclens.Specs.{DubboMethodSpec, Parsed}
use logiclens.Matching.Dubbo.{
  is_any, methods_compatible, selection_key, is_preferred, repos_with_method, selected_for,
  select_producer_candidates, mismatch, compare_pairs, classify_group_version,
}

abbrev Candidate : Type 0
Candidate = Parsed DubboMethodSpec

-- The candidates kept, one for each key.
abbrev best : List Candidate → List Candidate
best cs = values (keep_best selection_key is_preferred cs)

best_sound : (cs : List Candidate) {w : Candidate} → Memᴰ w (best cs) → Memᴰ w cs
best_sound cs {w} m =
    let (k, n) = mem-values (keep_best selection_key is_preferred cs) m in
    (keep_best_origin selection_key is_preferred cs
      (lookup_of_mem _ (keys-keep_best-IsDistinct selection_key is_preferred cs) n)).0

-- Every candidate has one of its key that was kept, of no lower confidence.
record IsBest (cs : List Candidate) (q w : Candidate) : Type 0 where
  kept : Memᴰ w (best cs)
  key : selection_key w ≡ selection_key q
  confidence : q.node.confidence ≤ w.node.confidence

IsBest-covers : (cs : List Candidate) {q : Candidate} → Memᴰ q cs → (w : Candidate) × IsBest cs q w
IsBest-covers cs {q} m =
    let (w, found, above) =
      keep_best_covers selection_key is_preferred (λ v u. v.node.confidence ≤ u.node.confidence)
        (λ v. omega arith) (λ u v w p q. omega arith)
        (λ v w h. worse v.node.confidence w.node.confidence _ h)
        (λ v w h. improves v.node.confidence w.node.confidence _ h) cs m in
    (
      w,
      record {
        kept = values-mem _ (mem_of_lookup (keep_best selection_key is_preferred cs) found);
        key = (keep_best_origin selection_key is_preferred cs found).1;
        confidence = above;
      },
    )
  where
    worse : (a b : ℕ) (smaller : Bool) → (ltb b a || a == b && smaller) ≡ false → a ≤ b
    worse a b smaller h = ground arith

    improves : (a b : ℕ) (smaller : Bool) → (ltb b a || a == b && smaller) ≡ true → b ≤ a
    improves a b smaller h = ground arith

module _ (consumer : DubboMethodSpec) where
  abbrev passes : List Candidate → Candidate → Bool
  passes selected p =
      not (str_eq p.spec.method "*")
      || not (has (repos_with_method consumer.method selected) p.node.repo_id)

  -- A method-level consumer of a method other than "*" keeps a repository's exact producer.
  exact_passes :
      (selected : List Candidate) (e : Candidate)
      → is_any consumer.method ≡ false
      → e.spec.method ≡ consumer.method
      → passes selected e ≡ true
  exact_passes selected e named same =
      let other : str_eq consumer.method "*" ≡ false = ground arith in
      let other' : str_eq e.spec.method "*" ≡ false = rw same other in rw other'

  -- A producer that gave way has an exact one of its repository in its place.
  replaced :
      (selected : List Candidate) (w : Candidate)
      → is_any consumer.method ≡ false
      → passes selected w ≡ false
      → (e : Candidate) × Memᴰ e (filter (passes selected) selected)
        × (e.node.repo_id ≡ w.node.repo_id)
  replaced selected w named gone =
      let has_exact : has (repos_with_method consumer.method selected) w.node.repo_id ≡ true =
        ground arith in
      let (e, m, same) =
        Memᴰ.of_map (λ (p : Candidate). p.node.repo_id) _ ((has_iff _ _).0 has_exact) in
      let (listed, method) = (mem-filter _ selected).0 m in
      (
        e,
        (mem-filter _ selected).1 (listed, exact_passes selected e named ((eq_iff _ _).0 method)),
        same,
      )

  mem-selected_for :
      (selected : List Candidate) {w : Candidate}
      → Memᴰ w (selected_for consumer selected)
      → Memᴰ w selected
  unfolding selected_for
  mem-selected_for selected m = elim (Bool-cases (is_any consumer.method)) [
    | inl any ↦ rw any at m
    | inr named ↦ ((mem-filter _ selected).0 (rw named at m)).0
  ]

  -- Every repository of the selected producers keeps one.
  selected_for_covers :
      (selected : List Candidate) (w : Candidate)
      → Memᴰ w selected
      → (e : Candidate) × Memᴰ e (selected_for consumer selected)
        × (e.node.repo_id ≡ w.node.repo_id)
  unfolding selected_for
  selected_for_covers selected w m = elim (Bool-cases (is_any consumer.method)) [
    | inl any ↦ rw any (w, m, refl)
    | inr named ↦ elim (Bool-cases (passes selected w)) [
      | inl stays ↦ rw named (w, (mem-filter _ selected).1 (m, stays), refl)
      | inr gone ↦ rw named (replaced selected w named gone)
    ]
  ]

  abbrev compatible : List Candidate → List Candidate
  compatible cs = filter (λ p. methods_compatible consumer.method p.spec.method) cs

  -- Every selected producer was a candidate with a compatible method.
  pub select_sound :
      (cs : List Candidate) {w : Candidate}
      → Memᴰ w (select_producer_candidates consumer cs)
      → Memᴰ w cs × (methods_compatible consumer.method w.spec.method ≡ true)
  unfolding select_producer_candidates
  select_sound cs m =
      (mem-filter _ cs).0 (best_sound (compatible cs) (mem-selected_for (best (compatible cs)) m))

  -- Every candidate with a compatible method has a selected producer in its repository, if the keys
  -- of the candidates tell their repositories apart.
  pub select_covers :
      (cs : List Candidate)
      → ((v w : Candidate)
          → Memᴰ v cs
          → Memᴰ w cs
          → selection_key v ≡ selection_key w
          → v.node.repo_id ≡ w.node.repo_id)
      → (q : Candidate) → Memᴰ q cs
      → methods_compatible consumer.method q.spec.method ≡ true
      → (w : Candidate) × Memᴰ w (select_producer_candidates consumer cs)
        × (w.node.repo_id ≡ q.node.repo_id)
  unfolding select_producer_candidates
  select_covers cs apart q m fits =
      let (w, b) = IsBest-covers (compatible cs) ((mem-filter _ cs).1 (m, fits)) in
      let (listed, _) = (mem-filter _ cs).0 (best_sound (compatible cs) b.kept) in
      let (e, there, repo) = selected_for_covers (best (compatible cs)) w b.kept in
      (e, there, repo ∙ apart w q listed m b.key)

-- Both sides name a value, and not the same.
abbrev pub Clash : Option String → Option String → Type 0
Clash l r = (truthy l ≡ true) × (truthy r ≡ true) × (get_or_else l "" ≢ get_or_else r "")

-- A group or version mismatch is reported exactly where both sides name different groups, or both
-- name different versions.
pub mismatch_iff :
    (c p : DubboMethodSpec)
    → (classify_group_version c p ≡ mismatch) ↔ (Clash c.group p.group ⊎ Clash c.version p.version)
unfolding classify_group_version compare_pairs
mismatch_iff c p = ground (
  arith,
  eq_iff (get_or_else c.group "") (get_or_else p.group ""),
  eq_iff (get_or_else c.version "") (get_or_else p.version ""),
)
