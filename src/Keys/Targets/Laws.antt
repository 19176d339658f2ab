-- ===== src/Keys/Targets/Laws.antt =====
-- The two spellings of a target with its kind (normalizeSemanticTarget of
-- src/core/contracts/targetNormalization.ts): `kind:key` and `kind key`.
use Prim.Native.Char.{Char, code}
use Prim.Native.String
use Prim.Native.String.append
use logiclens.Shared.{
  ℕ, String, Bool, true, false, not, ◌&&◌, ◌||◌, ◌≡◌, refl, sym, ap, ◌∙◌, inl, inr, Option, none,
  some, Option-cases, ◌==◌, Bool-cases, is_empty_text, is_space, has, arith, Memᴰ, has_iff, List,
  [], ◌∷◌, subst,
}
use mathlib.Core.List.Memᴰ
use logiclens.Keys.Paths.{trim, trim_start, trim_end}
use logiclens.Keys.Targets.{
  split_where, any_char, has_space, semantic_kinds, colon_kind, space_kind, kind_and_rest,
  target_key, normalize_trimmed, normalize_semantic_target,
}

-- `a` and `b` with the separator between them.
abbrev pub joined : String → Char → String → String
joined a sep b = String.◌++◌ a (String.◌∷◌ sep b)

joined-cons :
    (c : Char) (a : String) (sep : Char) (b : String)
    → joined (String.◌∷◌ c a) sep b ≡ String.◌∷◌ c (joined a sep b)
joined-cons c a sep b = append.cons c a (String.◌∷◌ sep b)

or_right : (x y : Bool) → y ≡ true → (x || y) ≡ true
or_right x y h = ground arith

-- No character was found, or a space stands before it.
abbrev has_space_before : Option (String × String) → Bool
has_space_before found = elim found [ none ↦ true | some (head, tail) ↦ has_space head ]

module _ (test : ℕ → Bool) (sep : Char) where
  split_where-joined :
      test (code sep) ≡ true
      → (a b : String) → any_char test a ≡ false
      → split_where test (joined a sep b) ≡ some (a, b)
  split_where-joined t String.[] b h = rw (append.nil (String.◌∷◌ sep b)) (rw t refl)
  split_where-joined t (String.◌∷◌ c a) b h = elim (Bool-cases (test (code c))) [
    | inl e ↦ ground arith
    | inr e ↦ rw (joined-cons c a sep b) (rw e (rw (split_where-joined t a b ground arith) refl))
  ]

  split_where-behind :
      test (code sep) ≡ false
      → is_space (code sep) ≡ true
      → (a b : String) → any_char test a ≡ false
      → has_space_before (split_where test (joined a sep b)) ≡ true
  split_where-behind t s String.[] b h =
      rw (append.nil (String.◌∷◌ sep b)) (elim (Option-cases (split_where test b)) [
        | inl e ↦ rw t (rw e refl)
        | inr (p, e) ↦ rw t (rw e (rw s refl))
      ])
  split_where-behind t s (String.◌∷◌ c a) b h = elim (Bool-cases (test (code c))) [
    | inl e ↦ ground arith
    | inr e ↦
        let ih = split_where-behind t s a b ground arith in
        elim (Option-cases (split_where test (joined a sep b))) [
          | inl o ↦ rw (joined-cons c a sep b) (rw e (rw o refl))
          | inr (p, o) ↦
              rw (joined-cons c a sep b)
                (rw e (rw o (or_right (is_space (code c)) (has_space p.0) (rw o at ih))))
        ]
  ]

trim_start-joined :
    (a : String) (sep : Char) (b : String)
    → is_empty_text a ≡ false
    → any_char is_space a ≡ false
    → trim_start (joined a sep b) ≡ joined a sep b
trim_start-joined String.[] sep b n h = ground arith
trim_start-joined (String.◌∷◌ c a) sep b n h = elim (Bool-cases (is_space (code c))) [
  | inl e ↦ ground arith
  | inr e ↦ rw (joined-cons c a sep b) (rw e refl)
]

trim_end-joined :
    (a : String) (sep : Char) (b : String)
    → any_char is_space a ≡ false
    → is_empty_text (trim_end b) ≡ false
    → trim_end (joined a sep b) ≡ joined a sep (trim_end b)
trim_end-joined String.[] sep b h n =
    rw (append.nil (String.◌∷◌ sep b)) (elim (Bool-cases (is_space (code sep))) [
      | inl e ↦ rw e (rw n (sym (append.nil (String.◌∷◌ sep (trim_end b)))))
      | inr e ↦ rw e (sym (append.nil (String.◌∷◌ sep (trim_end b))))
    ])
trim_end-joined (String.◌∷◌ c a) sep b h n = elim (Bool-cases (is_space (code c))) [
  | inl e ↦ ground arith
  | inr e ↦
      rw (joined-cons c a sep b) (
        rw e (rw (trim_end-joined a sep b ground arith n) (sym (joined-cons c a sep (trim_end b)))))
]

trim-joined :
    (a : String) (sep : Char) (b : String)
    → is_empty_text a ≡ false
    → any_char is_space a ≡ false
    → is_empty_text (trim_end b) ≡ false
    → trim (joined a sep b) ≡ joined a sep (trim_end b)
trim-joined a sep b n h m = rw (trim_start-joined a sep b n h) (trim_end-joined a sep b h m)

joined-not_empty : (a : String) (sep : Char) (b : String) → is_empty_text (joined a sep b) ≡ false
joined-not_empty String.[] sep b = rw (append.nil (String.◌∷◌ sep b)) refl
joined-not_empty (String.◌∷◌ c a) sep b = rw (joined-cons c a sep b) refl

-- A text is not empty and has neither a space nor a colon.
abbrev is_word : String → Bool
is_word kind =
    not (is_empty_text kind) && not (any_char is_space kind) && not (any_char (λ c. c == 58) kind)

abbrev are_words : List String → Bool
are_words [] = true
are_words (kind ∷ kinds) = is_word kind && are_words kinds

mem-is_word :
    (kinds : List String)
    → are_words kinds ≡ true
    → {kind : String} → Memᴰ kind kinds
    → is_word kind ≡ true
mem-is_word [] h m = absurd (Memᴰ.not-nil m)
mem-is_word (k ∷ kinds) h m = elim (Memᴰ.cases_cons m) [
  | inl e ↦ subst (λ t. is_word t ≡ true) (sym e) ground arith
  | inr n ↦ mem-is_word kinds ground arith n
]

if_not_word : (b e h : Bool) → h ≡ true → (b && not (e || h)) ≡ false
if_not_word b e h p = ground arith

module _ (lowercase uppercase : String → String) {kind : String} (known : Memᴰ kind semantic_kinds)
    (lower : lowercase kind ≡ kind) where
  word : is_word kind ≡ true
  word = mem-is_word semantic_kinds refl known

  filled : is_empty_text kind ≡ false
  filled = let w = word in ground arith

  spaceless : any_char is_space kind ≡ false
  spaceless = let w = word in ground arith

  colonless : any_char (λ c. c == 58) kind ≡ false
  colonless = let w = word in ground arith

  listed : has semantic_kinds (lowercase kind) ≡ true
  listed = rw lower ((has_iff semantic_kinds kind).1 known)

  colon_kind-colon :
      (b : String) → colon_kind lowercase uppercase (joined kind ":" b) ≡ some (kind, trim b)
  unfolding colon_kind
  colon_kind-colon b =
      rw (split_where-joined (λ c. c == 58) ":" refl kind b colonless, colon_kind)
        (rw listed (rw filled (rw spaceless (rw lower refl))))

  colon_kind-space : (b : String) → colon_kind lowercase uppercase (joined kind " " b) ≡ none
  unfolding colon_kind
  colon_kind-space b =
      let found = split_where (λ c. c == 58) (joined kind " " b) in
      let behind = split_where-behind (λ c. c == 58) " " refl refl kind b colonless in
      elim (Option-cases found) [
        | inl e ↦ rw (e, colon_kind) refl
        | inr (p, e) ↦
            let spaced = rw e at behind in
            rw (e, colon_kind)
              (rw
                (if_not_word (has semantic_kinds (lowercase p.0)) (is_empty_text p.0)
                  (has_space p.0) spaced)
                refl)
      ]

  space_kind-space :
      (b : String) → space_kind lowercase uppercase (joined kind " " b) ≡ some (kind, trim b)
  unfolding space_kind
  space_kind-space b =
      rw (split_where-joined is_space " " refl kind b spaceless, space_kind)
        (rw listed (rw filled (rw lower refl)))

  kind_and_rest-colon :
      (b : String) → kind_and_rest lowercase uppercase (joined kind ":" b) ≡ (some kind, trim b)
  unfolding kind_and_rest
  kind_and_rest-colon b = rw (colon_kind-colon b, kind_and_rest) refl

  kind_and_rest-space :
      (b : String) → kind_and_rest lowercase uppercase (joined kind " " b) ≡ (some kind, trim b)
  unfolding kind_and_rest
  kind_and_rest-space b = rw (colon_kind-space b, kind_and_rest) (rw (space_kind-space b) refl)

  keyed :
      (trimmed : String) {rest : String}
      → kind_and_rest lowercase uppercase trimmed ≡ (some kind, rest)
      → normalize_trimmed lowercase uppercase trimmed ≡ target_key lowercase uppercase kind rest
  unfolding normalize_trimmed
  keyed trimmed e =
      ap
        (λ (p : Option String × String). elim p.0 [
          | none ↦ trimmed
          | some k ↦ target_key lowercase uppercase k p.1
        ])
        e

  -- A target that names a kind is normalized to the same text whether a colon or a space stands
  -- after the kind, where the mapping to lower case leaves the kind's text alone and what follows
  -- is not blank.
  pub normalize_semantic_target-separator :
      (rest : String)
      → is_empty_text (trim_end rest) ≡ false
      → normalize_semantic_target lowercase uppercase (joined kind ":" rest)
        ≡ normalize_semantic_target lowercase uppercase (joined kind " " rest)
  unfolding normalize_semantic_target normalize_trimmed
  normalize_semantic_target-separator rest n = rw (trim-joined kind ":" rest filled spaceless n) (
      rw (trim-joined kind " " rest filled spaceless n) (
        rw (joined-not_empty kind ":" (trim_end rest)) (
          rw (joined-not_empty kind " " (trim_end rest)) (
            keyed (joined kind ":" (trim_end rest)) (kind_and_rest-colon (trim_end rest))
            ∙ sym
                (keyed (joined kind " " (trim_end rest)) (kind_and_rest-space (trim_end rest)))))))
