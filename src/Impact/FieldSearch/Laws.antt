-- ===== src/Impact/FieldSearch/Laws.antt =====
-- The lines of a text are those of the two texts that are left of it (stripCommentsAndStrings of
-- src/core/contracts/impact/fieldSearch.ts), which findFieldReferences relies on: it reads the three
-- of them line by line.
use Prim.Native.Char.{Char, code}
use logiclens.Shared.{
  ℕ, String, Bool, true, false, not, ◌≡◌, refl, ap, ◌==◌, List, [], ◌∷◌, Bool-cases, inl, inr, ◌∙◌,
  Option, arith,
}
use logiclens.Keys.Paths.{starts_with}
use logiclens.Impact.FieldSearch.{
  Mode, plain, line_comment, block_comment, quoted, to_line_comment, to_block_comment, to_plain,
  round, put, Stripped, strip, is_js_or_ts_path, strip_comments_and_strings,
}

-- For every character of a text, whether it ends a line.
abbrev pub line_ends : String → List Bool
line_ends String.[] = []
line_ends (String.◌∷◌ c s) = (code c == 10) ∷ line_ends s

-- A mode that blanks the next character has one that ends no line before it.
abbrev is_ready : Mode → String → Bool
is_ready to_line_comment s = not (starts_with 10 s)
is_ready to_block_comment s = not (starts_with 10 s)
is_ready to_plain s = not (starts_with 10 s)
is_ready _ s = true

starts_apart :
    (a : ℕ) (s : String) → starts_with a s ≡ true → (a == 10) ≡ false → starts_with 10 s ≡ false
starts_apart a String.[] h n = refl
starts_apart a (String.◌∷◌ c s) h n = ground arith

round-ready :
    (js : Bool) (mode : Mode) (c : ℕ) (s : String) → is_ready (round js mode c s).after s ≡ true
unfolding round
round-ready js plain c s =
    let slash = starts_apart 47 s in let star = starts_apart 42 s in ground arith
round-ready js line_comment c s = ground arith
round-ready js block_comment c s = let slash = starts_apart 47 s in ground arith
round-ready js (quoted quote true) c s = ground arith
round-ready js (quoted quote false) c s = ground arith
round-ready js to_line_comment c s = refl
round-ready js to_block_comment c s = refl
round-ready js to_plain c s = refl

round-kept :
    (js : Bool) (mode : Mode) (c : Char) (s : String)
    → is_ready mode (String.◌∷◌ c s) ≡ true
    → (code c == 10) ≡ true
    → ((round js mode (code c) s).blank_comment ≡ false)
      × ((round js mode (code c) s).blank_string ≡ false)
unfolding round
round-kept js plain c s h e = ground arith
round-kept js line_comment c s h e = ground arith
round-kept js block_comment c s h e = ground arith
round-kept js (quoted quote true) c s h e = ground arith
round-kept js (quoted quote false) c s h e = ground arith
round-kept js to_line_comment c s h e = ground arith
round-kept js to_block_comment c s h e = ground arith
round-kept js to_plain c s h e = ground arith

line_ends-put :
    (blanked : Bool) (c : Char) (s : String)
    → ((code c == 10) ≡ true → blanked ≡ false)
    → line_ends (put blanked c s) ≡ (code c == 10) ∷ line_ends s
line_ends-put false c s h = refl
line_ends-put true c s h = elim (Bool-cases (code c == 10)) [
  | inl e ↦ ground arith
  | inr e ↦ rw e refl
]

record IsAligned (source_text : String) (stripped : Stripped) : Type 0 where
  comments : line_ends stripped.no_comments ≡ line_ends source_text
  strings : line_ends stripped.no_comments_or_strings ≡ line_ends source_text

strip-IsAligned :
    (js : Bool) (mode : Mode) (s : String) → is_ready mode s ≡ true → IsAligned s (strip js mode s)
unfolding strip
strip-IsAligned js mode String.[] h = record { comments = refl; strings = refl }
strip-IsAligned js mode (String.◌∷◌ c s) h =
    let r = round js mode (code c) s in
    let rest = strip js r.after s in
    let ih = strip-IsAligned js r.after s (round-ready js mode (code c) s) in
    record {
      comments =
          line_ends-put r.blank_comment c rest.no_comments (λ e. (round-kept js mode c s h e).0)
          ∙ ap (λ t. (code c == 10) ∷ t) ih.comments;
      strings =
          line_ends-put r.blank_string c rest.no_comments_or_strings
            (λ e. (round-kept js mode c s h e).1)
          ∙ ap (λ t. (code c == 10) ∷ t) ih.strings;
    }

-- The source without its comments, and without its comments and strings, has as many characters as
-- the source, and its lines end at the same places.
pub strip_comments_and_strings-line_ends :
    (source_text : String) (file_path : Option String)
    → (line_ends (strip_comments_and_strings source_text file_path).no_comments
        ≡ line_ends source_text)
      × (line_ends (strip_comments_and_strings source_text file_path).no_comments_or_strings
          ≡ line_ends source_text)
unfolding strip_comments_and_strings
strip_comments_and_strings-line_ends source_text file_path =
    let aligned = strip-IsAligned (is_js_or_ts_path file_path) plain source_text refl in
    (aligned.comments, aligned.strings)
