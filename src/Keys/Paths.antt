-- ===== src/Keys/Paths.antt =====
-- The normal form of an API path (normalizeApiPath and joinApiPaths of
-- src/core/contracts/apiPath.ts). Each regular expression is a walk over the characters; an
-- expression with a greedy part that must be closed is a walk that returns one text for each state.
pub mod Laws
use Prim.Native.Char.{code}
use Prim.Native.String
use logiclens.Shared.{
  ℕ, ◌+◌, String, Bool, true, false, not, ◌&&◌, ◌||◌, Option, none, some, [], ◌∷◌, str_eq, leb,
  ◌==◌, if◌then◌else◌, is_empty_text, is_space, is_inline_text, template,
}

-- s.replace(/\s+$/, "")
abbrev pub trim_end : String → String
trim_end String.[] = ""
trim_end (String.◌∷◌ c s) =
    let rest = trim_end s in
    if is_space (code c) && is_empty_text rest then "" else String.◌∷◌ c rest

-- s.replace(/^\s+/, "")
abbrev pub trim_start : String → String
trim_start String.[] = ""
trim_start (String.◌∷◌ c s) =
    let rest = trim_start s in if is_space (code c) then rest else String.◌∷◌ c s

-- s.trim()
abbrev pub trim : String → String
trim s = trim_end (trim_start s)

-- the first character of a text is the given one
abbrev pub starts_with : ℕ → String → Bool
starts_with c String.[] = false
starts_with c (String.◌∷◌ d s) = code d == c

abbrev pub is_letter : ℕ → Bool
is_letter c = leb 65 c && leb c 90 || leb 97 c && leb c 122

abbrev pub is_digit : ℕ → Bool
is_digit c = leb 48 c && leb c 57

-- [A-Za-z_]
abbrev is_name_start : ℕ → Bool
is_name_start c = is_letter c || c == 95

-- [A-Za-z0-9_]
abbrev is_name_part : ℕ → Bool
is_name_part c = is_name_start c || is_digit c

-- a letter as the flag `i` compares it: a letter of ASCII in lower case
abbrev folded : ℕ → ℕ
folded c = if leb 65 c && leb c 90 then c + 32 else c

-- what stands after a prefix, compared with the flag `i`
abbrev pub strip_prefix_any_case : String → String → Option String
strip_prefix_any_case String.[] s = some s
strip_prefix_any_case (String.◌∷◌ c p) String.[] = none
strip_prefix_any_case (String.◌∷◌ c p) (String.◌∷◌ d s) =
    let rest = strip_prefix_any_case p s in
    if folded (code c) == folded (code d) then rest else none

-- what stands after /^https?:\/\//i
abbrev pub after_scheme : String → Option String
after_scheme s = elim (strip_prefix_any_case "https://" s) [
  | some rest ↦ some rest
  | none ↦ strip_prefix_any_case "http://" s
]

-- s.replace(/^[^/]+/, "")
abbrev drop_host : String → String
drop_host String.[] = ""
drop_host (String.◌∷◌ c s) = let rest = drop_host s in if code c == 47 then String.◌∷◌ c s else rest

-- s.replace(/^https?:\/\/[^/]+/i, "")
abbrev without_origin : String → String
without_origin s = elim (after_scheme s) [
  | none ↦ s
  | some rest ↦ if is_empty_text rest || starts_with 47 rest then s else drop_host rest
]

-- s.replace(/\?.*$/, "")
abbrev pub without_query : String → String
without_query String.[] = ""
without_query (String.◌∷◌ c s) =
    let rest = without_query s in if code c == 63 && is_inline_text s then "" else String.◌∷◌ c rest

-- A text matches /^:[A-Za-z_]/.
abbrev is_parameter : String → Bool
is_parameter String.[] = false
is_parameter (String.◌∷◌ c String.[]) = false
is_parameter (String.◌∷◌ c (String.◌∷◌ d s)) = code c == 58 && is_name_start (code d)

-- What a walk writes for the rest of a text: from outside of a match, from within it, and from the
-- character before its inner part.
record Walk : Type 0 where
  outside : String
  inside : String
  before : String

-- the walk of s.replace(/\/:([A-Za-z_][A-Za-z0-9_]*)/g, "/{$1}")
abbrev colon_walk : String → Walk
colon_walk String.[] = record { outside = ""; inside = "}"; before = "" }
colon_walk (String.◌∷◌ c s) =
    let rest = colon_walk s in
    let plain =
      if code c == 47 && is_parameter s
      then String.◌∷◌ c (template ("{" ∷ rest.before ∷ []))
      else String.◌∷◌ c rest.outside in
    record {
      outside = plain;
      inside =
          if is_name_part (code c) then String.◌∷◌ c rest.inside else template ("}" ∷ plain ∷ []);
      before = rest.inside;
    }

-- A text goes on with name characters up to a closing brace.
abbrev ends_name : String → Bool
ends_name String.[] = false
ends_name (String.◌∷◌ c s) = code c == 125 || is_name_part (code c) && ends_name s

-- A text matches /^\{[A-Za-z_][A-Za-z0-9_]*\}/.
abbrev is_braced_name : String → Bool
is_braced_name String.[] = false
is_braced_name (String.◌∷◌ c String.[]) = false
is_braced_name (String.◌∷◌ c (String.◌∷◌ d s)) =
    code c == 123 && is_name_start (code d) && ends_name s

-- s.replace(/\$\{([A-Za-z_][A-Za-z0-9_]*)\}/g, "{$1}")
abbrev unwrap_names : String → String
unwrap_names String.[] = ""
unwrap_names (String.◌∷◌ c s) =
    let rest = unwrap_names s in
    if code c == 36 && is_braced_name s then rest else String.◌∷◌ c rest

-- A text has a closing brace.
abbrev has_brace : String → Bool
has_brace String.[] = false
has_brace (String.◌∷◌ c s) = code c == 125 || has_brace s

-- A text matches /^\{[^}]+\}/.
abbrev is_braced : String → Bool
is_braced String.[] = false
is_braced (String.◌∷◌ c s) = code c == 123 && not (starts_with 125 s) && has_brace s

-- the walk of s.replace(/\$\{[^}]+\}/g, "{param}")
abbrev brace_walk : String → Walk
brace_walk String.[] = record { outside = ""; inside = ""; before = "" }
brace_walk (String.◌∷◌ c s) =
    let rest = brace_walk s in
    record {
      outside =
          if code c == 36 && is_braced s
          then template ("{param}" ∷ rest.inside ∷ [])
          else String.◌∷◌ c rest.outside;
      inside = if code c == 125 then rest.outside else rest.inside;
      before = rest.inside;
    }

-- The three replacements of parameters.
abbrev with_parameters : String → String
with_parameters s = (brace_walk (unwrap_names (colon_walk s).outside)).outside

-- s.replace(/\/+/g, "/")
abbrev pub squeeze : String → String
squeeze String.[] = ""
squeeze (String.◌∷◌ c s) =
    let rest = squeeze s in if code c == 47 && starts_with 47 s then rest else String.◌∷◌ c rest

-- s.replace(/\/$/, "")
abbrev pub drop_last_slash : String → String
drop_last_slash String.[] = ""
drop_last_slash (String.◌∷◌ c s) =
    let rest = drop_last_slash s in
    if code c == 47 && is_empty_text s then "" else String.◌∷◌ c rest

-- The last two lines of normalizeApiPath.
unfoldable pub finish_path : String → String
finish_path s =
    let prefixed = if starts_with 47 s then s else template ("/" ∷ s ∷ []) in
    let cleaned = drop_last_slash (squeeze prefixed) in
    if is_empty_text cleaned then "/" else cleaned

unfoldable pub normalize_api_path : String → String
unfolding finish_path
normalize_api_path path_value =
    finish_path (with_parameters (without_query (without_origin (trim path_value))))

unfoldable pub join_api_paths : String → String → String
unfolding normalize_api_path
join_api_paths base_path route_path =
    if is_empty_text base_path
    then normalize_api_path route_path
    else if is_empty_text route_path
    then normalize_api_path base_path
    else normalize_api_path (template (base_path ∷ "/" ∷ route_path ∷ []))
