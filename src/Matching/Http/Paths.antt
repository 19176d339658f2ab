-- ===== src/Matching/Http/Paths.antt =====
-- Path patterns (src/core/contracts/matching/httpResolver.ts): segments, templates, buckets.
pub mod Laws
use Prim.Native.Char.{Char, code}
use Prim.Native.String
use logiclens.Shared.{
  ℕ, String, Bool, true, false, not, ◌&&◌, ◌||◌, List, [], ◌∷◌, ◌==◌, str_eq, template, filter, any,
  length, if◌then◌else◌,
}

-- path.replace(/\/$/, "")
abbrev pub strip_slash : String → String
strip_slash String.[] = ""
strip_slash (String.◌∷◌ c String.[]) = if code c == b'/' then "" else String.◌∷◌ c ""
strip_slash (String.◌∷◌ c (String.◌∷◌ d s)) = String.◌∷◌ c (strip_slash (String.◌∷◌ d s))

-- path.split("/"), with the part that is being read
split_from : String → String → List String
split_from part String.[] = part ∷ []
split_from part (String.◌∷◌ c s) =
    let closed = split_from "" s in
    let longer = split_from (String.◌++◌ part (String.◌∷◌ c "")) s in
    if code c == b'/' then part ∷ closed else longer

abbrev is_filled : String → Bool
is_filled s = not (str_eq s "")

-- the segments of a path that are not empty
unfoldable pub split_path : String → List String
unfolding split_from
split_path path = filter is_filled (split_from "" (strip_slash path))

-- the characters that `.` does not match
abbrev is_line_end : ℕ → Bool
is_line_end c = c == 10 || c == 13 || c == 8232 || c == 8233

-- /.+\}$/, of which `seen` says whether something stands before what is left
closes : Bool → String → Bool
closes seen String.[] = false
closes seen (String.◌∷◌ c String.[]) = seen && code c == b'}'
closes seen (String.◌∷◌ c (String.◌∷◌ d s)) =
    not (is_line_end (code c)) && closes true (String.◌∷◌ d s)

-- /^\{.+\}$/.test(segment)
unfoldable pub is_template_segment : String → Bool
unfolding closes
is_template_segment String.[] = false
is_template_segment (String.◌∷◌ c s) = code c == b'{' && closes false s

bucket_of : List String → String
bucket_of [] = "/"
bucket_of (first ∷ _) = if is_template_segment first then "*" else template ("/" ∷ first ∷ [])

-- A stripped path with no segment is "/" or empty, and both have no segment.
unfoldable pub bucket_key : String → String
unfolding bucket_of
bucket_key path = bucket_of (split_path path)

-- the loops over the segments of two paths of the same length
segments_compatible : List String → List String → Bool
segments_compatible [] [] = true
segments_compatible (a ∷ as') (b ∷ bs) =
    (str_eq a b || is_template_segment a || is_template_segment b) && segments_compatible as' bs
segments_compatible _ _ = false

segments_fit : List String → List String → Bool
segments_fit [] [] = true
segments_fit (s ∷ ss) (t ∷ ts) = (is_template_segment t || str_eq s t) && segments_fit ss ts
segments_fit _ _ = false

unfoldable pub paths_compatible : String → String → Bool
unfolding segments_compatible
paths_compatible a b =
    let seg_a = split_path a in
    let seg_b = split_path b in
    if not (length seg_a == length seg_b) then false else segments_compatible seg_a seg_b

unfoldable pub static_fits_template : String → String → Bool
unfolding segments_fit
static_fits_template static_path template_path =
    let seg_static = split_path static_path in
    let seg_tpl = split_path template_path in
    if not (length seg_static == length seg_tpl) then false else segments_fit seg_static seg_tpl

unfoldable pub has_templates : String → Bool
has_templates path = any is_template_segment (split_path path)

-- `splitPath(path)[0]` is there and a template
unfoldable pub first_is_template : String → Bool
first_is_template path = elim (split_path path) [
  | [] ↦ false
  | first ∷ _ ↦ is_template_segment first
]
