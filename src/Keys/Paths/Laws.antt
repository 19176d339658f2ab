-- ===== src/Keys/Paths/Laws.antt =====
-- The normal form of a path (normalizeApiPath of src/core/contracts/apiPath.ts): where it starts,
-- where it ends, and that no two slashes stand side by side.
use Prim.Native.Char.{code}
use Prim.Native.String
use Prim.Native.String.append
use logiclens.Shared.{
  String, Bool, true, false, not, ◌&&◌, ◌≡◌, refl, ap, ◌⊎◌, inl, inr, ◌==◌, if◌then◌else◌,
  Bool-cases, is_empty_text, template, [], ◌∷◌, arith,
}
use logiclens.Keys.Paths.{starts_with, squeeze, drop_last_slash, finish_path, normalize_api_path}

-- No two slashes stand side by side.
abbrev pub has_single_slashes : String → Bool
has_single_slashes String.[] = true
has_single_slashes (String.◌∷◌ c s) = not (code c == 47 && starts_with 47 s) && has_single_slashes s

abbrev pub ends_in_slash : String → Bool
ends_in_slash String.[] = false
ends_in_slash (String.◌∷◌ c s) = if is_empty_text s then code c == 47 else ends_in_slash s

pub record IsCleanPath (path : String) : Type 0 where
  pub starts : starts_with 47 path ≡ true
  pub single : has_single_slashes path ≡ true
  pub ends : (path ≡ "/") ⊎ (ends_in_slash path ≡ false)

starts_with-squeeze : (s : String) → starts_with 47 (squeeze s) ≡ starts_with 47 s
starts_with-squeeze String.[] = refl
starts_with-squeeze (String.◌∷◌ c s) = let ih = starts_with-squeeze s in ground arith

squeeze-single : (s : String) → has_single_slashes (squeeze s) ≡ true
squeeze-single String.[] = refl
squeeze-single (String.◌∷◌ c s) =
    let ih = squeeze-single s in let starts = starts_with-squeeze s in ground arith

starts_with-drop_last_slash :
    (s : String)
    → is_empty_text (drop_last_slash s) ≡ false
    → starts_with 47 (drop_last_slash s) ≡ starts_with 47 s
starts_with-drop_last_slash String.[] h = refl
starts_with-drop_last_slash (String.◌∷◌ c s) h = ground arith

drop_last_slash-single :
    (s : String) → has_single_slashes s ≡ true → has_single_slashes (drop_last_slash s) ≡ true
drop_last_slash-single String.[] h = refl
drop_last_slash-single (String.◌∷◌ c String.[]) h = elim (Bool-cases (code c == 47)) [
  | inl e ↦ rw e refl
  | inr e ↦ rw e h
]
drop_last_slash-single (String.◌∷◌ c (String.◌∷◌ d s)) h =
    let ih = drop_last_slash-single (String.◌∷◌ d s) in ground arith

drop_last_slash-ends :
    (s : String) → has_single_slashes s ≡ true → ends_in_slash (drop_last_slash s) ≡ false
drop_last_slash-ends String.[] h = refl
drop_last_slash-ends (String.◌∷◌ c String.[]) h = elim (Bool-cases (code c == 47)) [
  | inl e ↦ rw e refl
  | inr e ↦ rw e e
]
drop_last_slash-ends (String.◌∷◌ c (String.◌∷◌ d s)) h =
    let ih = drop_last_slash-ends (String.◌∷◌ d s) in ground arith

slash_first : (s : String) → starts_with 47 (String.◌++◌ "/" s) ≡ true
slash_first s = ap (starts_with 47) (append.cons "/" "" s)

is_prefixed :
    (s : String) → starts_with 47 (if starts_with 47 s then s else template ("/" ∷ s ∷ [])) ≡ true
is_prefixed s = elim (Bool-cases (starts_with 47 s)) [
  | inl e ↦ rw e e
  | inr e ↦ rw e (slash_first (String.◌++◌ s ""))
]

finish_path-IsCleanPath : (s : String) → IsCleanPath (finish_path s)
unfolding finish_path
finish_path-IsCleanPath s =
    let prefixed = if starts_with 47 s then s else template ("/" ∷ s ∷ []) in
    let cleaned = drop_last_slash (squeeze prefixed) in
    elim (Bool-cases (is_empty_text cleaned)) [
      | inl e ↦ rw e (record { starts = refl; single = refl; ends = inl refl })
      | inr e ↦ rw e (record {
        starts =
            rw (starts_with-drop_last_slash (squeeze prefixed) e)
              (rw (starts_with-squeeze prefixed) (is_prefixed s));
        single = drop_last_slash-single (squeeze prefixed) (squeeze-single prefixed);
        ends = inr (drop_last_slash-ends (squeeze prefixed) (squeeze-single prefixed));
      })
    ]

-- Whatever text is given, its normal form starts with a slash, has no two slashes side by side, and
-- does not end in a slash unless it is the one slash of the root.
pub normalize_api_path-IsCleanPath :
    (path_value : String) → IsCleanPath (normalize_api_path path_value)
unfolding normalize_api_path
normalize_api_path-IsCleanPath path_value = search finish_path-IsCleanPath
