-- ===== src/Tests/Source.antt =====
-- Sources, and the theorem at one of them.
use logiclens.Shared.{◌≡◌, refl, none, some}
use logiclens.Impact.FieldSearch.{strip_comments_and_strings}
use logiclens.Impact.FieldSearch.Laws.{line_ends, strip_comments_and_strings-line_ends}

stripped : strip_comments_and_strings "a['b'] /* c\n */ # d" none ≡ record {
  no_comments = "a['b']     \n       ";
  no_comments_or_strings = "a[' ']     \n       ";
}
unfolding strip_comments_and_strings
stripped = refl

in_typescript :
    (strip_comments_and_strings "#a = \"\\\"x\" // y" (some "src/a.TSX")).no_comments_or_strings
    ≡ "#a = \"   \"     "
unfolding strip_comments_and_strings
in_typescript = refl

strip_comments_and_strings-line_ends_example :
    (line_ends (strip_comments_and_strings "x // y\nz" none).no_comments ≡ line_ends "x // y\nz")
    × (line_ends (strip_comments_and_strings "x // y\nz" none).no_comments_or_strings
        ≡ line_ends "x // y\nz")
strip_comments_and_strings-line_ends_example = strip_comments_and_strings-line_ends "x // y\nz" none
