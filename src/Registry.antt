-- ===== src/Registry.antt =====
-- The registry of language parsers (src/core/registries/registry.ts): stacks by language, by
-- repository and language, and by file extension; the parser registered last is on top.
pub mod Laws
use Prim.Native.Char.{code}
use Prim.Native.String
use logiclens.Shared.{
  ℕ, suc, String, Bool, true, false, not, ◌&&◌, ◌||◌, Option, none, some, List, [], ◌∷◌, ◌++◌, ltb,
  ◌==◌, str_eq, template, truthy, get_or_else, filter, find, for_each, map, lookup, insert, bucket,
  StrMap, is_space, flat_map, values, any, if◌then◌else◌,
}

-- A parser object. Its identity stands for the reference, by which the code compares parsers.
pub record LanguageParser : Type 0 where
  pub identity : ℕ
  pub name : String
  pub language : String
  pub extensions : List String
  pub scope_repo_id : Option String

pub record ParserRegistry : Type 0 where
  pub language_stacks : StrMap (List LanguageParser)
  pub scoped_language_stacks : StrMap (List LanguageParser)
  pub extension_stacks : StrMap (List LanguageParser)

pub record ResolveInput : Type 0 where
  pub language : Option String
  pub relative_path : Option String
  pub repo_id : Option String

abbrev trim_start : String → String
trim_start String.[] = ""
trim_start (String.◌∷◌ c s) =
    let rest = trim_start s in if is_space (code c) then rest else String.◌∷◌ c s

abbrev trim_end : String → String
trim_end String.[] = ""
trim_end (String.◌∷◌ c s) =
    let rest = trim_end s in if is_space (code c) && str_eq rest "" then "" else String.◌∷◌ c rest

abbrev starts_with_dot : String → Bool
starts_with_dot String.[] = false
starts_with_dot (String.◌∷◌ c s) = code c == b'.'

pub normalize_extension : String → String
normalize_extension extension =
    let trimmed = trim_end (trim_start extension) in
    if starts_with_dot trimmed then trimmed else template ("." ∷ trimmed ∷ [])

-- `${repoId}\0${language}`
abbrev pub scoped_language_key : String → String → String
scoped_language_key repo language = template (repo ∷ "\0" ∷ language ∷ [])

-- stack.filter((candidate) => candidate !== parser)
abbrev pub without : LanguageParser → List LanguageParser → List LanguageParser
without parser stack = filter (λ c. not (c.identity == parser.identity)) stack

unfoldable pub push_parser :
    String → LanguageParser → StrMap (List LanguageParser) → StrMap (List LanguageParser)
push_parser key parser m = insert key (without parser (bucket key m) ++ parser ∷ []) m

-- m.delete(key)
abbrev pub delete {ℓ} : {V : Type ℓ} → String → StrMap V → StrMap V
delete key [] = []
delete key ((k, v) ∷ m) = if str_eq k key then delete key m else (k, v) ∷ delete key m

abbrev pub store :
    String → List LanguageParser → StrMap (List LanguageParser) → StrMap (List LanguageParser)
store key [] m = delete key m
store key (p ∷ stack) m = insert key (p ∷ stack) m

unfoldable pub remove_parser :
    String → LanguageParser → StrMap (List LanguageParser) → StrMap (List LanguageParser)
remove_parser key parser m = store key (without parser (bucket key m)) m

-- stack?.[stack.length - 1] of a stack that may be missing, which is empty here
unfoldable pub top_parser : List LanguageParser → Option LanguageParser
top_parser [] = none
top_parser (p ∷ []) = some p
top_parser (p ∷ q ∷ stack) = top_parser (q ∷ stack)

-- Where a parser stands by language: the key, in the map of its kind.
abbrev pub in_language_map :
    (StrMap (List LanguageParser) → StrMap (List LanguageParser))
    → (StrMap (List LanguageParser) → StrMap (List LanguageParser))
    → LanguageParser
    → ParserRegistry
    → ParserRegistry
in_language_map plain scoped parser r =
    if truthy parser.scope_repo_id
    then record r { scoped_language_stacks = scoped r.scoped_language_stacks }
    else record r { language_stacks = plain r.language_stacks }

abbrev pub scoped_key : LanguageParser → String
scoped_key parser = scoped_language_key (get_or_else parser.scope_repo_id "") parser.language

unfoldable pub register : LanguageParser → ParserRegistry → ParserRegistry
unfolding push_parser normalize_extension
register parser r =
    let s =
      in_language_map (push_parser parser.language parser) (push_parser (scoped_key parser) parser)
        parser r in
    record s {
      extension_stacks =
          for_each parser.extensions (λ e. push_parser (normalize_extension e) parser)
            s.extension_stacks;
    }

unfoldable pub unregister : LanguageParser → ParserRegistry → ParserRegistry
unfolding remove_parser normalize_extension
unregister parser r =
    let s =
      in_language_map (remove_parser parser.language parser)
        (remove_parser (scoped_key parser) parser) parser r in
    record s {
      extension_stacks =
          for_each parser.extensions (λ e. remove_parser (normalize_extension e) parser)
            s.extension_stacks;
    }

unfoldable pub unregister_language :
    String → Option LanguageParser → ParserRegistry → ParserRegistry
unfolding unregister top_parser
unregister_language language (some expected) r = unregister expected r
unregister_language language none r = elim (top_parser (bucket language r.language_stacks)) [
  | some parser ↦ unregister parser r
  | none ↦ r
]

-- s.endsWith(suffix)
abbrev pub ends_with : String → String → Bool
ends_with String.[] suffix = str_eq "" suffix
ends_with (String.◌∷◌ c s) suffix =
    let rest = ends_with s suffix in str_eq (String.◌∷◌ c s) suffix || rest

abbrev text_length : String → ℕ
text_length String.[] = 0
text_length (String.◌∷◌ c s) = suc (text_length s)

-- The stable sort of entries by the length of the key, the longest first: an entry goes behind
-- those of its length.
abbrev place_entry :
    String × List LanguageParser → StrMap (List LanguageParser) → StrMap (List LanguageParser)
place_entry e [] = e ∷ []
place_entry e (f ∷ m) =
    if ltb (text_length f.0) (text_length e.0) then e ∷ f ∷ m else f ∷ place_entry e m

abbrev sorted_entries : StrMap (List LanguageParser) → StrMap (List LanguageParser)
sorted_entries m = for_each m place_entry []

-- candidate.scopeRepoId ? candidate.scopeRepoId === input.repoId : true
abbrev is_in_scope : Option String → LanguageParser → Bool
is_in_scope repo c =
    if truthy c.scope_repo_id
    then elim repo [ none ↦ false | some id ↦ str_eq (get_or_else c.scope_repo_id "") id ]
    else true

-- [...stack].reverse().find(...): the last that is in scope
abbrev last_in_scope : Option String → List LanguageParser → Option LanguageParser
unfolding top_parser
last_in_scope repo stack = top_parser (filter (is_in_scope repo) stack)

by_extension : Option String → String → StrMap (List LanguageParser) → Option LanguageParser
unfolding top_parser
by_extension repo path [] = none
by_extension repo path ((extension, stack) ∷ m) =
    let later = by_extension repo path m in
    if ends_with path extension
    then elim (last_in_scope repo stack) [ some p ↦ some p | none ↦ later ]
    else later

-- first ?? second, of two lookups in order
abbrev pub or_else {ℓ} : {A : Type ℓ} → Option A → Option A → Option A
or_else (some a) o = some a
or_else none o = o

abbrev by_language : ResolveInput → ParserRegistry → Option LanguageParser
unfolding top_parser
by_language input r =
    let language = get_or_else input.language "" in
    let scoped = top_parser (
      bucket (scoped_language_key (get_or_else input.repo_id "") language)
        r.scoped_language_stacks) in
    let plain = top_parser (bucket language r.language_stacks) in
    if truthy input.language
    then (if truthy input.repo_id then or_else scoped plain else plain)
    else none

by_path : ResolveInput → ParserRegistry → Option LanguageParser
unfolding by_extension
by_path input r =
    if truthy input.relative_path
    then by_extension input.repo_id (get_or_else input.relative_path "")
        (sorted_entries r.extension_stacks)
    else none

unfoldable pub resolve : ResolveInput → ParserRegistry → Option LanguageParser
unfolding by_language by_path top_parser
resolve input r = or_else (by_language input r) (by_path input r)
