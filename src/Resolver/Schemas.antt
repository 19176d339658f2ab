-- ===== src/Resolver/Schemas.antt =====
-- The schemas of endpoints in the result of the whole resolver.
use mathlib.Core.List.Memᴰ
use logiclens.Shared.{String, some, List, Memᴰ, ◌≡◌, sym, subst, ◌∙◌}
use logiclens.Nodes.{ContractSpecNode, SemanticRelationEdge, edge_key}
use logiclens.Specs.{Services}
use logiclens.Matching.Schema.Reaches.{IsRequestSchema, request_edge, resolve_schema_request}
use logiclens.Resolver.{ResolveSemanticRelationsInput, resolve_semantic_relations}
use logiclens.Resolver.Laws.{roles_of, all_edges-Found, resolved, covers}

module _ (services : Services) (input : ResolveSemanticRelationsInput)
    {es : List SemanticRelationEdge} where
  -- If the whole resolver returns and no spec stands twice in the input, an endpoint of the input
  -- whose payload parses and whose request's type, which is not empty, names a schema is related to
  -- the schema that is chosen for the name, in an edge of the result with their key, where the id of
  -- that schema is not empty.
  pub resolve_semantic_relations-schema :
      resolve_semantic_relations services input ≡ some es
      → (from : ContractSpecNode) (t : String) (to : ContractSpecNode)
      → IsRequestSchema services input.contract_specs from t to
      → (e : SemanticRelationEdge) × Memᴰ e es × (edge_key e ≡ edge_key (request_edge from t to))
  resolve_semantic_relations-schema returned from t to h =
      let (edges, all, _) = resolved services input h.listed returned in
      let found =
        all_edges-Found services input.contract_specs (roles_of input)
          input.existing_semantic_relations all in
      let (d, m, key) =
        resolve_schema_request services input.contract_specs (roles_of input)
          input.existing_semantic_relations from t to h in
      let (e, me, k, _) = covers services input h.listed returned all (
        subst (Memᴰ d) (sym found.joined) (
          Memᴰ.append_left _ (
            Memᴰ.append_left _ (
              Memᴰ.append_left _
                (Memᴰ.append_left _ (Memᴰ.append_right found.before_schema m)))))) in
      (e, me, k ∙ key)
