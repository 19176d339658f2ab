-- ===== src/Keys/Targets.antt =====
-- The text of a target in the form that specs are looked up by (normalizeSemanticTarget of
-- src/core/contracts/targetNormalization.ts).
pub mod Laws
use Prim.Native.Char.{code}
use Prim.Native.String
use logiclens.Shared.{
  ℕ, String, Bool, true, false, not, ◌&&◌, ◌||◌, Option, none, some, List, [], ◌∷◌, str_eq, ◌==◌,
  if◌then◌else◌, is_empty_text, is_space, has, template,
}
use logiclens.Keys.Paths.{trim}
use logiclens.Keys.Contracts.{
  canonical_http_contract_key, canonical_grpc_contract_key, canonical_dubbo_contract_key,
  canonical_graphql_contract_key, canonical_event_contract_key,
}

abbrev pub semantic_kinds : List String
semantic_kinds =
    "http" ∷ "api" ∷ "event" ∷ "schema" ∷ "dto" ∷ "grpc" ∷ "dubbo" ∷ "graphql" ∷ "package"
    ∷ "config" ∷ []

abbrev http_verbs : List String
http_verbs = "GET" ∷ "POST" ∷ "PUT" ∷ "PATCH" ∷ "DELETE" ∷ "OPTIONS" ∷ "HEAD" ∷ []

-- What stands before and after the first character that a test takes, if there is one.
abbrev pub split_where : (ℕ → Bool) → String → Option (String × String)
split_where test String.[] = none
split_where test (String.◌∷◌ c s) =
    let rest = split_where test s in
    if test (code c)
    then some ("", s)
    else (elim rest [ none ↦ none | some (a, b) ↦ some (String.◌∷◌ c a, b) ])

-- A text has a character that the test takes.
abbrev pub any_char : (ℕ → Bool) → String → Bool
any_char test String.[] = false
any_char test (String.◌∷◌ c s) = test (code c) || any_char test s

-- A text has a character of \s.
abbrev pub has_space : String → Bool
has_space = any_char is_space

-- { interfaceName, method } of a Dubbo target
abbrev split_dubbo_target : String → String × Option String
split_dubbo_target rest = elim (split_where (λ c. c == 35) rest) [
  | none ↦ (trim rest, none)
  | some (interface_name, method) ↦
      (trim interface_name, if is_empty_text (trim method) then none else some (trim method))
]

-- { operationType, field } of a GraphQL target
abbrev split_graphql_target : String → String × String
split_graphql_target rest = elim (split_where (λ c. c == 46) rest) [
  | none ↦ ("query", trim rest)
  | some (operation_type, field) ↦ (trim operation_type, trim field)
]

module _ (lowercase uppercase : String → String) where
  -- { method, path } of an HTTP target
  unfoldable split_method_path : String → Option String × String
  split_method_path rest = elim (split_where (λ c. is_space c || c == 58) rest) [
    | none ↦ (none, rest)
    | some (head, tail) ↦
        if has http_verbs (uppercase head) && not (is_empty_text head)
        then (some (uppercase head), trim tail)
        else (none, rest)
  ]

  -- The kind before a colon, with what stands after it.
  unfoldable pub colon_kind : String → Option (String × String)
  colon_kind trimmed = elim (split_where (λ c. c == 58) trimmed) [
    | none ↦ none
    | some (head, tail) ↦
        if has semantic_kinds (lowercase head) && not (is_empty_text head || has_space head)
        then some (lowercase head, trim tail)
        else none
  ]

  -- The kind before the first space, with what stands after it.
  unfoldable pub space_kind : String → Option (String × String)
  space_kind trimmed = elim (split_where is_space trimmed) [
    | none ↦ none
    | some (head, tail) ↦
        if has semantic_kinds (lowercase head) && not (is_empty_text head)
        then some (lowercase head, trim tail)
        else none
  ]

  -- The kind that stands first or that the verb of HTTP implies, and the rest of the target.
  unfoldable pub kind_and_rest : String → Option String × String
  unfolding colon_kind space_kind
  kind_and_rest trimmed = elim (colon_kind trimmed) [
    | some (kind, rest) ↦ (some kind, rest)
    | none ↦ elim (space_kind trimmed) [
      | some (kind, rest) ↦ (some kind, rest)
      | none ↦ elim (split_where is_space trimmed) [
        | none ↦ (none, trimmed)
        | some (head, tail) ↦
            (if has http_verbs (uppercase head) then some "http" else none, trimmed)
      ]
    ]
  ]

  -- The key of the rest of a target, after its kind.
  unfoldable pub target_key : String → String → String
  unfolding split_method_path canonical_http_contract_key canonical_event_contract_key
      canonical_grpc_contract_key canonical_dubbo_contract_key canonical_graphql_contract_key
  target_key kind rest =
      if str_eq kind "http" || str_eq kind "api"
      then (let (method, path) = split_method_path rest in
          template ("http:" ∷ canonical_http_contract_key lowercase uppercase method path ∷ []))
      else if str_eq kind "event"
      then template ("event:" ∷ canonical_event_contract_key lowercase rest ∷ [])
      else if str_eq kind "dto" || str_eq kind "schema"
      then template ("schema:" ∷ rest ∷ [])
      else if str_eq kind "grpc"
      then template ("grpc:" ∷ canonical_grpc_contract_key lowercase rest ∷ [])
      else if str_eq kind "dubbo"
      then (let (interface_name, method) = split_dubbo_target rest in
          template ("dubbo:" ∷ canonical_dubbo_contract_key lowercase interface_name method ∷ []))
      else if str_eq kind "graphql"
      then (let (operation_type, field) = split_graphql_target rest in
          template
            ("graphql:" ∷ canonical_graphql_contract_key lowercase operation_type field ∷ []))
      else template (kind ∷ ":" ∷ rest ∷ [])

  unfoldable pub normalize_trimmed : String → String
  unfolding kind_and_rest target_key
  normalize_trimmed trimmed =
      let (kind, rest) = kind_and_rest trimmed in
      elim kind [ none ↦ trimmed | some k ↦ target_key k rest ]

  unfoldable pub normalize_semantic_target : String → String
  unfolding normalize_trimmed
  normalize_semantic_target raw =
      let trimmed = trim raw in if is_empty_text trimmed then trimmed else normalize_trimmed trimmed
