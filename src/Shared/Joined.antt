-- ===== src/Shared/Joined.antt =====
-- Two texts that are joined by a colon: the same result has the same parts, or one first part goes on
-- with a colon after the other.
use Prim.Native.Char.{Char, code}
use Prim.Native.String
use Prim.Native.String.{String}
use Prim.Native.String.append
use mathlib.Core.Path.{◌≡◌, refl, sym, ap, ◌∙◌}
use mathlib.Core.Logic.{◌⊎◌, inl, inr}
use mathlib.Core.Bool.{Bool, true, false, ◌||◌}
use mathlib.Core.List.{[], ◌∷◌}
use logiclens.Shared.Tests.{◌==◌, template}

-- `a`, a colon and `b`
abbrev pub joined_by_colon : String → String → String
joined_by_colon a b = String.◌++◌ a (String.◌∷◌ ":" b)

abbrev pub has_colon : String → Bool
has_colon String.[] = false
has_colon (String.◌∷◌ c s) = code c == 58 || has_colon s

cons_inj : (c d : Char) (s t : String) → String.◌∷◌ c s ≡ String.◌∷◌ d t → (c ≡ d) × (s ≡ t)
cons_inj c d s t e = (cc, cc)

pub joined_cases :
    (a b x y : String)
    → joined_by_colon a x ≡ joined_by_colon b y
    → ((a ≡ b) × (x ≡ y))
      ⊎ (((z : String) × (b ≡ joined_by_colon a z) × (x ≡ joined_by_colon z y))
          ⊎ ((z : String) × (a ≡ joined_by_colon b z) × (y ≡ joined_by_colon z x)))
joined_cases String.[] String.[] x y e = inl (
  refl,
  (cons_inj ":" ":" x y
      (sym (append.nil (String.◌∷◌ ":" x)) ∙ e ∙ append.nil (String.◌∷◌ ":" y))).1,
)
joined_cases String.[] (String.◌∷◌ d b) x y e =
    let (same, rest) =
      cons_inj ":" d x (joined_by_colon b y)
        (sym (append.nil (String.◌∷◌ ":" x)) ∙ e ∙ append.cons d b (String.◌∷◌ ":" y)) in
    inr (inl (b, ap (λ k. String.◌∷◌ k b) (sym same) ∙ sym (append.nil (String.◌∷◌ ":" b)), rest))
joined_cases (String.◌∷◌ c a) String.[] x y e =
    let (same, rest) =
      cons_inj c ":" (joined_by_colon a x) y
        (sym (append.cons c a (String.◌∷◌ ":" x)) ∙ e ∙ append.nil (String.◌∷◌ ":" y)) in
    inr (inr (a, ap (λ k. String.◌∷◌ k a) same ∙ sym (append.nil (String.◌∷◌ ":" a)), sym rest))
joined_cases (String.◌∷◌ c a) (String.◌∷◌ d b) x y e =
    let (same, rest) =
      cons_inj c d (joined_by_colon a x) (joined_by_colon b y)
        (sym (append.cons c a (String.◌∷◌ ":" x)) ∙ e ∙ append.cons d b (String.◌∷◌ ":" y)) in
    elim (joined_cases a b x y rest) [
      | inl (p, q) ↦ inl ((λ i. String.◌∷◌ (same i) (p i)), q)
      | inr (inl (z, p, q)) ↦ inr (
          inl
            (z, (λ i. String.◌∷◌ (sym same i) (p i)) ∙ sym (append.cons c a (String.◌∷◌ ":" z)), q))
      | inr (inr (z, p, q)) ↦
          inr (
            inr (z, (λ i. String.◌∷◌ (same i) (p i)) ∙ sym (append.cons d b (String.◌∷◌ ":" z)), q))
    ]

or_true : (p : Bool) {q : Bool} → q ≡ true → (p || q) ≡ true
or_true true e = refl
or_true false e = e

-- A text that is joined has a colon.
pub has_colon-joined : (a b : String) → has_colon (joined_by_colon a b) ≡ true
has_colon-joined String.[] b = ap has_colon (append.nil (String.◌∷◌ ":" b))
has_colon-joined (String.◌∷◌ c a) b =
    let ih = has_colon-joined a b in
    ap has_colon (append.cons c a (String.◌∷◌ ":" b)) ∙ or_true (code c == 58) ih

append_empty : (s : String) → String.◌++◌ s "" ≡ s
append_empty String.[] = append.nil ""
append_empty (String.◌∷◌ c s) = append.cons c s "" ∙ ap (String.◌∷◌ c) (append_empty s)

-- `${a}:${b}`
pub template-joined : (a b : String) → template (a ∷ ":" ∷ b ∷ []) ≡ joined_by_colon a b
template-joined a b = ap (String.◌++◌ a) (
    append.cons ":" "" (String.◌++◌ b "")
    ∙ ap (String.◌∷◌ ":") (append.nil (String.◌++◌ b "") ∙ append_empty b))
