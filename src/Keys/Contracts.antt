-- ===== src/Keys/Contracts.antt =====
-- The key of a contract of each kind (canonicalHttpContractKey, canonicalGrpcContractKey,
-- canonicalDubboContractKey and canonicalGraphqlContractKey of src/core/contracts/apiPath.ts, and
-- canonicalEventContractKey of event.ts). The case mappings are parameters: they rest on tables.
use Prim.Native.Char.{code}
use logiclens.Shared.{
  ℕ, String, Bool, false, ◌&&◌, ◌||◌, Option, none, some, [], ◌∷◌, ◌==◌, if◌then◌else◌,
  is_empty_text, strip_spaces, template,
}
use logiclens.Keys.Paths.{
  trim, is_letter, is_digit, after_scheme, without_query, squeeze, drop_last_slash,
  normalize_api_path,
}

-- the class [A-Za-z0-9+.-]
abbrev is_scheme_part : ℕ → Bool
is_scheme_part c = is_letter c || is_digit c || c == 43 || c == 46 || c == 45

-- A text goes on with characters of a scheme up to a colon.
abbrev ends_scheme : String → Bool
ends_scheme String.[] = false
ends_scheme (String.◌∷◌ c s) = code c == 58 || is_scheme_part (code c) && ends_scheme s

-- /^[A-Za-z][A-Za-z0-9+.-]*:/.test(s)
abbrev has_scheme : String → Bool
has_scheme String.[] = false
has_scheme (String.◌∷◌ c s) = is_letter (code c) && ends_scheme s

abbrev is_none : Option String → Bool
is_none o = elim o [ none ↦ Bool.true | some s ↦ false ]

-- What stands before and after the last occurrence of a character, if there is one.
abbrev split_last : ℕ → String → Option (String × String)
split_last c String.[] = none
split_last c (String.◌∷◌ d s) =
    let rest = split_last c s in
    elim rest [
      | some (a, b) ↦ some (String.◌∷◌ d a, b)
      | none ↦ if code d == c then some ("", s) else none
    ]

module _ (lowercase uppercase : String → String) where
  unfoldable pub canonical_http_contract_key : Option String → String → String
  canonical_http_contract_key method path =
      let trimmed = trim path in
      let normalized_path =
        if has_scheme trimmed && is_none (after_scheme trimmed)
        then lowercase (drop_last_slash (squeeze (without_query trimmed)))
        else lowercase (normalize_api_path trimmed) in
      elim method [
        | none ↦ normalized_path
        | some m ↦
            if is_empty_text m
            then normalized_path
            else template (uppercase (trim m) ∷ ":" ∷ normalized_path ∷ [])
      ]

module _ (lowercase : String → String) where
  -- The package in lower case, and the service.
  abbrev package_service : String → String
  package_service s = elim (split_last 46 s) [
    | none ↦ s
    | some (pkg, service) ↦
        let normalized_pkg = lowercase pkg in
        if is_empty_text normalized_pkg
        then service
        else template (normalized_pkg ∷ "." ∷ service ∷ [])
  ]

  unfoldable pub canonical_grpc_contract_key : String → String
  canonical_grpc_contract_key full_name =
      let cleaned = strip_spaces full_name in
      elim (split_last 47 cleaned) [
        | none ↦ package_service cleaned
        | some (service, method) ↦
            if is_empty_text method
            then package_service service
            else template (package_service service ∷ "/" ∷ method ∷ [])
      ]

  unfoldable pub canonical_dubbo_contract_key : String → Option String → String
  canonical_dubbo_contract_key interface_name method =
      let normalized_interface = lowercase (strip_spaces interface_name) in
      elim method [
        | none ↦ normalized_interface
        | some m ↦
            let normalized_method = trim m in
            if is_empty_text normalized_method
            then normalized_interface
            else template (normalized_interface ∷ "#" ∷ normalized_method ∷ [])
      ]

  unfoldable pub canonical_graphql_contract_key : String → String → String
  canonical_graphql_contract_key operation_type field =
      template (lowercase (trim operation_type) ∷ "." ∷ trim field ∷ [])

  unfoldable pub canonical_event_contract_key : String → String
  canonical_event_contract_key topic = lowercase (trim topic)
