-- ===== src/Matching/Roles.antt =====
-- The roles of specs, and the loop by which the resolvers split them into producers and consumers
-- (src/core/contracts/matching/types.ts and grpcResolver.ts; the dubbo, graphql and http resolvers
-- have the same loop).
use mathlib.Core.List.{append-nil, append_assoc}
use logiclens.Shared.{
  String, Bool, true, false, List, [], ◌∷◌, ◌++◌, ◌≡◌, inl, inr, arith, template, StrMap, lookup,
  get_or_else, for_each, if◌then◌else◌, Bool-cases, filter,
}
use logiclens.Nodes.{
  ContractSpecNode, ContractRole, owner, producer, consumer, shared, SpecKind, same_kind,
  same_kind_iff,
}

abbrev pub SpecRoleMap : Type 0
SpecRoleMap = StrMap ContractRole

-- `${spec.contractId}:${spec.repoId}`
abbrev pub role_key : ContractSpecNode → String
role_key s = template (s.contract_id ∷ ":" ∷ s.repo_id ∷ [])

-- specRoles.get(key) ?? "shared"
abbrev pub role_of : SpecRoleMap → ContractSpecNode → ContractRole
role_of roles s = get_or_else (lookup (role_key s) roles) shared

-- What a role lets a spec be in a pairing.
abbrev pub can_produce : ContractRole → Bool
can_produce consumer = false
can_produce _ = true

abbrev pub can_consume : ContractRole → Bool
can_consume consumer = true
can_consume shared = true
can_consume _ = false

pub record Parts : Type 0 where
  pub producers : List ContractSpecNode
  pub consumers : List ContractSpecNode

abbrev add_producer : ContractSpecNode → Parts → Parts
add_producer s p = record p { producers = p.producers ++ s ∷ [] }

abbrev add_consumer : ContractSpecNode → Parts → Parts
add_consumer s p = record p { consumers = p.consumers ++ s ∷ [] }

-- the body of the loop, after the kind's test
abbrev place : ContractRole → ContractSpecNode → Parts → Parts
place producer s p = add_producer s p
place owner s p = add_producer s p
place consumer s p = add_consumer s p
place shared s p = add_consumer s (add_producer s p)

unfoldable pub split_by_role : SpecKind → SpecRoleMap → List ContractSpecNode → Parts
split_by_role kind roles specs =
    for_each specs (λ s p. if same_kind s.spec_kind kind then place (role_of roles s) s p else p)
      (record { producers = []; consumers = [] })

abbrev extend : Parts → List ContractSpecNode → List ContractSpecNode → Parts
extend p xs ys = record { producers = p.producers ++ xs; consumers = p.consumers ++ ys }

extend-place :
    (r : ContractRole) (s : ContractSpecNode) (p : Parts) (xs ys : List ContractSpecNode)
    → extend (place r s p) xs ys
      ≡ extend p (if can_produce r then s ∷ xs else xs) (if can_consume r then s ∷ ys else ys)
extend-place owner s p xs ys = simp append_assoc
extend-place producer s p xs ys = simp append_assoc
extend-place consumer s p xs ys = simp append_assoc
extend-place shared s p xs ys = simp append_assoc

module _ (kind : SpecKind) (roles : SpecRoleMap) where
  abbrev pub produces : ContractSpecNode → Bool
  produces s = if same_kind s.spec_kind kind then can_produce (role_of roles s) else false

  abbrev pub consumes : ContractSpecNode → Bool
  consumes s = if same_kind s.spec_kind kind then can_consume (role_of roles s) else false

  abbrev visit : ContractSpecNode → Parts → Parts
  visit s p = if same_kind s.spec_kind kind then place (role_of roles s) s p else p

  split_from :
      (specs : List ContractSpecNode) (p : Parts)
      → for_each specs visit p ≡ extend p (filter produces specs) (filter consumes specs)
  split_from [] p = simp append-nil
  split_from (s ∷ specs) p = elim (Bool-cases (same_kind s.spec_kind kind)) [
    | inl same ↦
        rw (split_from specs, same)
          (extend-place (role_of roles s) s p (filter produces specs) (filter consumes specs))
    | inr other ↦ rw (split_from specs, other)
  ]

  -- The split keeps each side's specs in the order of the input.
  pub split_by_role_lem :
      (specs : List ContractSpecNode)
      → split_by_role kind roles specs
        ≡ record { producers = filter produces specs; consumers = filter consumes specs }
  unfolding split_by_role
  split_by_role_lem specs = split_from specs (record { producers = []; consumers = [] })

  pub produces-kind : (s : ContractSpecNode) → produces s ≡ true → s.spec_kind ≡ kind
  produces-kind s h = (same_kind_iff s.spec_kind kind).0 (ground arith)

  pub consumes-kind : (s : ContractSpecNode) → consumes s ≡ true → s.spec_kind ≡ kind
  consumes-kind s h = (same_kind_iff s.spec_kind kind).0 (ground arith)
