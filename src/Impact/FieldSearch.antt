-- ===== src/Impact/FieldSearch.antt =====
-- The removal of comments and strings before a field is searched for (stripCommentsAndStrings of
-- src/core/contracts/impact/fieldSearch.ts). The loop over the positions is a walk over the
-- characters; an `i++` in its body is a mode in which the next character is blanked. A character
-- past U+FFFF is one character, where the source blanks its two units.
pub mod Laws
use Prim.Native.Char.{Char, code}
use Prim.Native.String
use logiclens.Shared.{
  ℕ, String, Bool, true, false, not, ◌&&◌, ◌||◌, Option, none, some, ◌==◌, if◌then◌else◌,
  is_empty_text,
}
use logiclens.Keys.Paths.{strip_prefix_any_case, starts_with}

-- inSingleLineComment, inBlockComment, inString with isEscape, and what an `i++` has skipped to.
pub data Mode : Type 0 where
  plain : Mode
  line_comment : Mode
  block_comment : Mode
  quoted : ℕ → Bool → Mode
  to_line_comment : Mode
  to_block_comment : Mode
  to_plain : Mode

-- What one round does to its character in each of the two texts, and the mode after it.
pub record Round : Type 0 where
  pub after : Mode
  pub blank_comment : Bool
  pub blank_string : Bool

abbrev is_quote : ℕ → Bool
is_quote c = c == 34 || c == 39 || c == 96

abbrev keep : Mode → Round
keep m = record { after = m; blank_comment = false; blank_string = false }

abbrev blank : Mode → Round
blank m = record { after = m; blank_comment = true; blank_string = true }

abbrev blank_in_string : Mode → Round
blank_in_string m = record { after = m; blank_comment = false; blank_string = true }

-- A round outside of comments and strings; `rest` stands after the character.
abbrev plain_round : Bool → ℕ → String → Round
plain_round is_js_or_ts c rest =
    if c == 47 && starts_with 47 rest
    then blank to_line_comment
    else if c == 47 && starts_with 42 rest
    then blank to_block_comment
    else if c == 35 && not is_js_or_ts
    then blank line_comment
    else if is_quote c
    then keep (quoted c false)
    else keep plain

abbrev quoted_round : ℕ → Bool → ℕ → Round
quoted_round quote true c =
    if c == 10 then keep (quoted quote false) else blank_in_string (quoted quote false)
quoted_round quote false c =
    if c == 92
    then blank_in_string (quoted quote true)
    else if c == quote
    then keep plain
    else if c == 10
    then keep (quoted quote false)
    else blank_in_string (quoted quote false)

unfoldable pub round : Bool → Mode → ℕ → String → Round
round is_js_or_ts plain c rest = plain_round is_js_or_ts c rest
round is_js_or_ts line_comment c rest = if c == 10 then keep plain else blank line_comment
round is_js_or_ts block_comment c rest =
    if c == 42 && starts_with 47 rest
    then blank to_plain
    else if c == 10
    then keep block_comment
    else blank block_comment
round is_js_or_ts (quoted quote escaped) c rest = quoted_round quote escaped c
round is_js_or_ts to_line_comment c rest = blank line_comment
round is_js_or_ts to_block_comment c rest = blank block_comment
round is_js_or_ts to_plain c rest = blank plain

abbrev pub put : Bool → Char → String → String
put blanked c s = if blanked then String.◌∷◌ " " s else String.◌∷◌ c s

-- { noComments, noCommentsOrStrings }
pub record Stripped : Type 0 where
  pub no_comments : String
  pub no_comments_or_strings : String

unfoldable pub strip : Bool → Mode → String → Stripped
unfolding round
strip is_js_or_ts mode String.[] = record { no_comments = ""; no_comments_or_strings = "" }
strip is_js_or_ts mode (String.◌∷◌ c s) =
    let r = round is_js_or_ts mode (code c) s in
    let rest = strip is_js_or_ts r.after s in
    record {
      no_comments = put r.blank_comment c rest.no_comments;
      no_comments_or_strings = put r.blank_string c rest.no_comments_or_strings;
    }

abbrev is_end : Option String → Bool
is_end o = elim o [ none ↦ false | some s ↦ is_empty_text s ]

abbrev ends_any_case : String → String → Bool
ends_any_case suffix String.[] = false
ends_any_case suffix (String.◌∷◌ c s) =
    is_end (strip_prefix_any_case suffix (String.◌∷◌ c s)) || ends_any_case suffix s

-- filePath ? /\.[jt]sx?$/i.test(filePath) : false
abbrev is_js_or_ts_path : Option String → Bool
is_js_or_ts_path file_path = elim file_path [
  | none ↦ false
  | some p ↦
      ends_any_case ".js" p
      || ends_any_case ".jsx" p
      || ends_any_case ".ts" p
      || ends_any_case ".tsx" p
]

unfoldable pub strip_comments_and_strings : String → Option String → Stripped
unfolding strip
strip_comments_and_strings source_text file_path =
    strip (is_js_or_ts_path file_path) plain source_text
