-- ===== src/Shared/Text.antt =====
-- Operations of `String.prototype` and of regular expressions that the code uses. A text is walked
-- by its characters. `toLowerCase` is not here: it rests on tables, and is a parameter where it is
-- used.
use Prim.Native.Nat.{ℕ}
use Prim.Native.Char.{Char, code}
use Prim.Native.String.{String, compare}
use Prim.Native.Nat.{Ordering}
use mathlib.Core.Bool.{Bool, true, false, not, ◌||◌, ◌&&◌}
use mathlib.Core.Option.{Option, none, some}
use text.Mathlib.Text.{◌==◌ as str_eq}
use logiclens.Shared.Tests.{leb, ◌==◌, if◌then◌else◌}

-- a < b: by code points, where the source compares UTF-16 units (they differ only between the
-- characters past U+FFFF and those from U+E000 on)
abbrev pub str_lt : String → String → Bool
str_lt a b = elim (compare a b) [ Ordering.lt ↦ true | _ ↦ false ]

-- \s
abbrev pub is_space : ℕ → Bool
is_space c =
    leb 9 c && leb c 13
    || c == 32
    || c == 160
    || c == 5760
    || leb 8192 c && leb c 8202
    || c == 8232
    || c == 8233
    || c == 8239
    || c == 8287
    || c == 12288
    || c == 65279

abbrev pub is_empty_text : String → Bool
is_empty_text String.[] = true
is_empty_text (String.◌∷◌ c s) = false

-- s.replace(/\s+/g, "")
abbrev pub strip_spaces : String → String
strip_spaces String.[] = ""
strip_spaces (String.◌∷◌ c s) =
    let rest = strip_spaces s in if is_space (code c) then rest else String.◌∷◌ c rest

-- the rest of `s` after a prefix
abbrev pub strip_prefix : String → String → Option String
strip_prefix String.[] s = some s
strip_prefix (String.◌∷◌ c p) String.[] = none
strip_prefix (String.◌∷◌ c p) (String.◌∷◌ d s) =
    let rest = strip_prefix p s in if code c == code d then rest else none

abbrev cons_some : Char → Option String → Option String
cons_some c none = none
cons_some c (some s) = some (String.◌∷◌ c s)

-- what stands before a suffix, which is not empty
abbrev pub strip_suffix : String → String → Option String
strip_suffix suffix String.[] = none
strip_suffix suffix (String.◌∷◌ c s) =
    let rest = strip_suffix suffix s in
    if str_eq (String.◌∷◌ c s) suffix then some "" else cons_some c rest

-- s.includes(".")
abbrev pub includes_dot : String → Bool
includes_dot String.[] = false
includes_dot (String.◌∷◌ c s) = code c == 46 || includes_dot s

-- a character that `.` in a regular expression stands for
abbrev is_inline : ℕ → Bool
is_inline c = not (c == 10 || c == 13 || c == 8232 || c == 8233)

abbrev pub is_inline_text : String → Bool
is_inline_text String.[] = true
is_inline_text (String.◌∷◌ c s) = is_inline (code c) && is_inline_text s

-- /^.+$/.test(s)
abbrev pub is_line : String → Bool
is_line s = not (str_eq s "") && is_inline_text s

-- s.endsWith(suffix)
abbrev pub ends_with : String → String → Bool
ends_with suffix String.[] = str_eq "" suffix
ends_with suffix (String.◌∷◌ c s) = str_eq (String.◌∷◌ c s) suffix || ends_with suffix s

-- what stands before and after the first occurrence of a character, if there is one
abbrev pub split_at : ℕ → String → Option (String × String)
split_at c String.[] = none
split_at c (String.◌∷◌ d s) =
    let rest = split_at c s in
    if code d == c
    then some ("", s)
    else (elim rest [ none ↦ none | some (a, b) ↦ some (String.◌∷◌ d a, b) ])

-- what stands after the last occurrence of a character, if there is one
abbrev last_part_of : ℕ → String → Option String
last_part_of c String.[] = none
last_part_of c (String.◌∷◌ d s) =
    let rest = last_part_of c s in
    elim rest [ none ↦ (if code d == c then some s else none) | some t ↦ some t ]

-- s.split(c).pop()
abbrev pub last_part : ℕ → String → String
last_part c s = elim (last_part_of c s) [ none ↦ s | some t ↦ t ]
