-- ===== src/Impact/Items.antt =====
-- The items of an impact report: which of those for one place is kept, and what the report sums up
-- (src/core/contracts/impact/impactEngine.ts and types.ts).
use logiclens.Shared.{
  ℕ, suc, ◌+◌, ◌≤◌, ◌<◌, String, Bool, ◌&&◌, ◌||◌, Option, List, [], ◌∷◌, Memᴰ, map, ◌≡◌, refl, sym,
  ◌⊎◌, inl, inr, arith, template, ltb, leb, ◌==◌, length, get_or_else, for_each, for_each_keeps,
  for_each_settles, keep_best, keep_best_origin, keep_best_covers, values, values-mem,
  values-keep_best-IsDistinct, mem-keep_best, mem_of_lookup, IsDistinct, if◌then◌else◌,
}
use logiclens.Nodes.{SemanticRelationKind, kind_name}

pub data ImpactSeverity : Type 0 where
  breaking risky compatible : ImpactSeverity

pub record ImpactItem : Type 0 where
  pub severity : ImpactSeverity
  pub repo_id : String
  pub repo_name : Option String
  pub file_path : String
  pub line : Option ℕ
  pub symbol : String
  pub relation_kind : SemanticRelationKind
  pub description : String
  pub evidence : String
  pub spec_id : String
  pub confidence : ℕ

-- order.indexOf(s)
abbrev pub order_index : ImpactSeverity → ℕ
order_index compatible = 0
order_index risky = 1
order_index breaking = 2

abbrev pub worst_severity : ImpactSeverity → ImpactSeverity → ImpactSeverity
worst_severity a b = if leb (order_index b) (order_index a) then a else b

abbrev pub severity_rank : ImpactSeverity → ℕ
severity_rank breaking = 3
severity_rank risky = 2
severity_rank compatible = 1

abbrev pub is_worse : ImpactItem → ImpactItem → Bool
is_worse imp existing =
    ltb existing.confidence imp.confidence
    || (imp.confidence == existing.confidence)
      && ltb (severity_rank existing.severity) (severity_rank imp.severity)

-- What a report says of its items, the severest and how many there are of each severity.
pub record Summary : Type 0 where
  pub overall_severity : ImpactSeverity
  pub breaking_count : ℕ
  pub risky_count : ℕ
  pub compatible_count : ℕ

abbrev pub count_one : ImpactSeverity → Summary → Summary
count_one breaking st = record st { breaking_count = suc st.breaking_count }
count_one risky st = record st { risky_count = suc st.risky_count }
count_one compatible st = record st { compatible_count = suc st.compatible_count }

abbrev pub sum_up : ImpactItem → Summary → Summary
sum_up imp st = record (count_one imp.severity st) {
  overall_severity = worst_severity st.overall_severity imp.severity;
}

unfoldable pub summarize : List ImpactItem → Summary
summarize items = for_each items sum_up (record {
  overall_severity = compatible;
  breaking_count = 0;
  risky_count = 0;
  compatible_count = 0;
})

total : Summary → ℕ
total st = st.breaking_count + st.risky_count + st.compatible_count

total-sum_up : (imp : ImpactItem) (st : Summary) → total (sum_up imp st) ≡ suc (total st)
unfolding total
total-sum_up imp st = ground arith

total-for_each :
    (items : List ImpactItem) (st : Summary)
    → total (for_each items sum_up st) ≡ length items + total st
total-for_each [] st = omega arith
total-for_each (x ∷ items) st = omega (arith, total-for_each items (sum_up x st), total-sum_up x st)

-- The counts of a report add up to the number of its items.
pub summarize-counts :
    (items : List ImpactItem)
    → (summarize items).breaking_count
        + (summarize items).risky_count
        + (summarize items).compatible_count
      ≡ length items
unfolding summarize total
summarize-counts items = omega (arith, total-for_each items _)

rank_worst_left : (a b : ImpactSeverity) → severity_rank a ≤ severity_rank (worst_severity a b)
rank_worst_left a b = ground arith

rank_worst_right : (a b : ImpactSeverity) → severity_rank b ≤ severity_rank (worst_severity a b)
rank_worst_right a b = ground arith

overall-sum_up :
    (imp : ImpactItem) (st : Summary)
    → (sum_up imp st).overall_severity ≡ worst_severity st.overall_severity imp.severity
overall-sum_up imp st = refl

-- No item is severer than the report as a whole.
pub summarize-overall :
    (items : List ImpactItem) (i : ImpactItem)
    → Memᴰ i items
    → severity_rank i.severity ≤ severity_rank (summarize items).overall_severity
unfolding summarize
summarize-overall items i m =
    for_each_settles
      (λ (st : Summary). severity_rank i.severity ≤ severity_rank st.overall_severity) items sum_up
      m (λ st. rank_worst_right st.overall_severity i.severity)
      (λ x st _ h. omega (arith, h, rank_worst_left st.overall_severity x.severity)) _

worst_cases : (a b : ImpactSeverity) → (worst_severity a b ≡ a) ⊎ (worst_severity a b ≡ b)
worst_cases a b = ground arith

-- A report as a whole is compatible or as severe as one of its items.
pub summarize-reached :
    (items : List ImpactItem)
    → ((summarize items).overall_severity ≡ compatible)
      ⊎ ((i : ImpactItem) × Memᴰ i items × (i.severity ≡ (summarize items).overall_severity))
unfolding summarize
summarize-reached items =
    for_each_keeps
      (λ (st : Summary).
        (st.overall_severity ≡ compatible)
        ⊎ ((i : ImpactItem) × Memᴰ i items × (i.severity ≡ st.overall_severity)))
      items sum_up
      (λ x st mx h. elim (worst_cases st.overall_severity x.severity) [
        | inl old ↦ rw old h
        | inr new ↦ inr (x, mx, sym new)
      ])
      _ (inl refl)

-- `${n}` of a number is a parameter.
module _ (show_number : ℕ → String) where
  unfoldable pub item_key : ImpactItem → String
  item_key imp = template (
      imp.repo_id
      ∷ ":"
      ∷ imp.file_path
      ∷ ":"
      ∷ imp.symbol
      ∷ ":"
      ∷ kind_name imp.relation_kind
      ∷ ":"
      ∷ show_number (get_or_else imp.line 0)
      ∷ [])

  unfoldable pub deduplicate_impacts : List ImpactItem → List ImpactItem
  deduplicate_impacts impacts = values (keep_best item_key is_worse impacts)

  -- One item is no more certain than another, and if as certain no severer.
  IsBelow : ImpactItem → ImpactItem → Type 0
  IsBelow i j =
      (i.confidence < j.confidence)
      ⊎ ((i.confidence ≡ j.confidence) × (severity_rank i.severity ≤ severity_rank j.severity))

  -- Of the items for one place, the one that is kept is the surest, and the severest of those.
  pub deduplicate_impacts_covers :
      (items : List ImpactItem) (i : ImpactItem)
      → Memᴰ i items
      → (j : ImpactItem) × Memᴰ j (deduplicate_impacts items)
        × (item_key j ≡ item_key i)
        × ((i.confidence < j.confidence)
            ⊎ ((i.confidence ≡ j.confidence)
                × (severity_rank i.severity ≤ severity_rank j.severity)))
  unfolding deduplicate_impacts IsBelow
  deduplicate_impacts_covers items i m =
      let (j, found, above) =
        keep_best_covers item_key is_worse IsBelow (λ x. ground arith) (λ x y z p q. ground arith)
          (λ x y h. ground arith) (λ x y h. ground arith) items m in
      let (_, same) = keep_best_origin item_key is_worse items {w = j} found in
      (j, values-mem _ {v = j} (mem_of_lookup {v = j} _ found), same, above)

  -- The items that are kept are of the report, and no two are for one place.
  pub deduplicate_impacts-IsDistinct :
      (items : List ImpactItem)
      → IsDistinct (map item_key (deduplicate_impacts items))
        × ((i : ImpactItem) → Memᴰ i (deduplicate_impacts items) → Memᴰ i items)
  unfolding deduplicate_impacts
  deduplicate_impacts-IsDistinct items = (
    values-keep_best-IsDistinct item_key is_worse items,
    λ i m. mem-keep_best item_key is_worse items m,
  )
