-- ===== src/Extraction/Dedup.antt =====
-- Deduplication by a key (src/core/contracts/extraction/dedup.ts). An item with the key of an earlier
-- one takes its place in the list.
use logiclens.Shared.{
  String, Bool, true, List, [], ◌∷◌, ◌++◌, map, Memᴰ, ◌≡◌, ◌≢◌, refl, sym, ap, inl, inr, some,
  template, str_eq, eq_iff, eq_refl, for_each, for_each-append, for_each_keeps, StrMap, lookup,
  insert, lookup-insert, consider, keep_best, values-keep_best-IsDistinct, mem-keep_best, values,
  values-mem, mem_of_lookup, IsDistinct, Bool-cases, Option-cases,
}
use logiclens.Nodes.{
  RepoContractEdge, ContractRole, owner, producer, consumer, shared, SemanticRelationEdge,
  kind_name,
}
use logiclens.Extraction.Nodes.{
  ContractEntityEdge, OperationRepoEdge, PackageUsageEntry, ContractSpecEdge,
}

-- The text of a role.
abbrev pub role_name : ContractRole → String
role_name owner = "owner"
role_name producer = "producer"
role_name consumer = "consumer"
role_name shared = "shared"

abbrev pub repo_contract_dedup_key : RepoContractEdge → String
repo_contract_dedup_key e =
    template (e.repo_id ∷ ":" ∷ e.contract_id ∷ ":" ∷ role_name e.role ∷ ":" ∷ e.evidence_id ∷ [])

abbrev pub contract_entity_dedup_key : ContractEntityEdge → String
contract_entity_dedup_key e =
    template (e.contract_id ∷ ":" ∷ e.entity_id ∷ ":" ∷ e.evidence_id ∷ [])

abbrev pub operation_repo_dedup_key : OperationRepoEdge → String
operation_repo_dedup_key e =
    template (e.repo_id ∷ ":" ∷ e.operation_id ∷ ":" ∷ e.role ∷ ":" ∷ e.evidence_id ∷ [])

abbrev pub package_usage_dedup_key : PackageUsageEntry → String
package_usage_dedup_key e =
    template (e.repo_id ∷ ":" ∷ e.package_contract_id ∷ ":" ∷ e.evidence_id ∷ [])

abbrev pub contract_spec_edge_dedup_key : ContractSpecEdge → String
contract_spec_edge_dedup_key e =
    template (e.contract_id ∷ ":" ∷ e.spec_id ∷ ":" ∷ e.evidence_id ∷ [])

abbrev pub semantic_relation_dedup_key : SemanticRelationEdge → String
semantic_relation_dedup_key e =
    template
      (e.from_spec_id ∷ ":" ∷ e.to_spec_id ∷ ":" ∷ kind_name e.kind ∷ ":" ∷ e.evidence_id ∷ [])

module _ {ℓ} {T : Type ℓ} (key_fn : T → String) where
  -- new Map(items.map((item) => [keyFn(item), item]))
  abbrev entries : List T → StrMap T
  entries items = for_each items (λ item. insert (key_fn item) item) []

  unfoldable pub dedup_by : List T → List T
  dedup_by items = values (entries items)

  always : T → T → Bool
  always a b = true

  consider-always : (x : T) (m : StrMap T) → consider key_fn always x m ≡ insert (key_fn x) x m
  unfolding always
  consider-always x m = elim (Option-cases (lookup (key_fn x) m)) [
    | inl missing ↦ rw (consider, missing)
    | inr (old, found) ↦ rw (consider, found)
  ]

  considered :
      (items : List T) (m : StrMap T)
      → for_each items (consider key_fn always) m
        ≡ for_each items (λ item. insert (key_fn item) item) m
  considered [] m = refl
  considered (x ∷ items) m = rw consider-always (considered items (insert (key_fn x) x m))

  dedup_by_lem : (items : List T) → dedup_by items ≡ values (keep_best key_fn always items)
  unfolding dedup_by
  dedup_by_lem items = ap values (sym (considered items []))

  -- The items left have keys that differ, and are items of the list.
  pub dedup_by-IsDistinct :
      (items : List T)
      → IsDistinct (map key_fn (dedup_by items))
        × ((x : T) → Memᴰ x (dedup_by items) → Memᴰ x items)
  dedup_by-IsDistinct items =
      rw dedup_by_lem (
        values-keep_best-IsDistinct key_fn always items,
        λ x m. mem-keep_best key_fn always items m,
      )

  -- Of the items with one key, the last is left.
  pub dedup_by_last :
      (before after : List T) (x : T)
      → ((y : T) → Memᴰ y after → key_fn y ≢ key_fn x)
      → Memᴰ x (dedup_by (before ++ x ∷ after))
  unfolding dedup_by
  dedup_by_last before after x apart =
      values-mem (entries (before ++ x ∷ after))
        (mem_of_lookup (entries (before ++ x ∷ after)) found)
    where
      set : T → StrMap T → StrMap T
      set item = insert (key_fn item) item

      found : lookup (key_fn x) (entries (before ++ x ∷ after)) ≡ some x
      found = rw (for_each-append before (x ∷ after) set []) (
          for_each_keeps (λ (m : StrMap T). lookup (key_fn x) m ≡ some x) after set
            (λ y m my h. elim (Bool-cases (str_eq (key_fn y) (key_fn x))) [
              | inl same ↦ absurd (apart y my ((eq_iff _ _).0 same))
              | inr other ↦ rw (lookup-insert (key_fn y) (key_fn x) y m, other) h
            ])
            (set x (for_each before set []))
            (rw
              (lookup-insert (key_fn x) (key_fn x) x (for_each before set []), eq_refl (key_fn x))))
