-- ===== src/Shared/Lists.antt =====
-- Arrays as lists: tests of membership, filters and the predicates on all elements.
use Prim.Native.Nat.{ℕ, suc, ◌+◌, ◌≤◌}
use Prim.Native.String.{String}
use mathlib.Core.Path.{◌≡◌, refl, sym, ◌∙◌, subst, ap}
use mathlib.Core.Logic.{◌↔◌, inl, inr}
use mathlib.Core.Bool.{Bool, true, false, ◌||◌, ◌&&◌}
use mathlib.Core.Option.{Option, none, some}
use mathlib.Core.List.{List, [], ◌∷◌, ◌++◌, Memᴰ, map}
use mathlib.Core.List.Memᴰ
use native.Mathlib.Omega.{arith}
use text.Mathlib.Text.{◌==◌ as str_eq}
use text.Mathlib.TextEquality.{eq_iff}
use logiclens.Shared.Tests.{if◌then◌else◌, Bool-cases}

module _ {ℓ} {A : Type ℓ} where
  abbrev pub length : List A → ℕ
  length [] = 0
  length (x ∷ xs) = suc (length xs)

  pub length-append : (xs ys : List A) → length (xs ++ ys) ≡ length xs + length ys
  length-append [] ys = omega arith
  length-append (x ∷ xs) ys = omega (arith, length-append xs ys)

  -- Two elements that differ are two.
  pub length_of_ne : (xs : List A) {a b : A} → Memᴰ a xs → Memᴰ b xs → ¬ (a ≡ b) → 2 ≤ length xs
  length_of_ne [] m n d = absurd (Memᴰ.not-nil m)
  length_of_ne (x ∷ []) m n d = absurd (d (Memᴰ.eq_of_singleton m ∙ sym (Memᴰ.eq_of_singleton n)))
  length_of_ne (x ∷ y ∷ xs) m n d = omega arith

  abbrev pub is_empty : List A → Bool
  is_empty [] = true
  is_empty (_ ∷ _) = false

  -- xs.filter(p)
  abbrev pub filter : (A → Bool) → List A → List A
  filter p [] = []
  filter p (x ∷ xs) = if p x then x ∷ filter p xs else filter p xs

  abbrev pub any : (A → Bool) → List A → Bool
  any p [] = false
  any p (x ∷ xs) = p x || any p xs

  -- xs.find(p)
  abbrev pub find : (A → Bool) → List A → Option A
  find p [] = none
  find p (x ∷ xs) = if p x then some x else find p xs

  -- Where an element satisfies a test, the first that does is found.
  pub find_of_mem :
      (p : A → Bool) (xs : List A) {a : A}
      → Memᴰ a xs
      → p a ≡ true
      → (b : A) × (find p xs ≡ some b) × Memᴰ b xs × (p b ≡ true)
  find_of_mem p [] m h = absurd (Memᴰ.not-nil m)
  find_of_mem p (x ∷ xs) m h = elim (Bool-cases (p x)) [
    | inl here ↦ rw here (x, refl, Memᴰ.head refl, here)
    | inr other ↦ rw other (elim (Memᴰ.cases_cons m) [
      | inl e ↦ let here : p x ≡ true = rw (← e) h in cc
      | inr t ↦ let (b, f, n, g) = find_of_mem p xs t h in (b, f, Memᴰ.tail n, g)
    ])
  ]

  pub find-filter :
      (p q : A → Bool) (xs : List A) → find p (filter q xs) ≡ find (λ x. q x && p x) xs
  find-filter p q [] = refl
  find-filter p q (x ∷ xs) = elim (Bool-cases (q x)) [
    | inl here ↦ rw (here, find-filter p q xs)
    | inr gone ↦ rw (gone, find-filter p q xs)
  ]

  pub mem-filter :
      (p : A → Bool) (xs : List A) {a : A} → Memᴰ a (filter p xs) ↔ (Memᴰ a xs × (p a ≡ true))
  mem-filter p [] = ((λ m. absurd (Memᴰ.not-nil m)), λ m. absurd (Memᴰ.not-nil m.0))
  mem-filter p (x ∷ xs) {a} = elim (Bool-cases (p x)) [
    | inl here ↦ rw here (
      λ m. elim (Memᴰ.cases_cons m) [
        | inl e ↦ (Memᴰ.head e, rw e here)
        | inr t ↦ let (u, v) = (mem-filter p xs).0 t in (Memᴰ.tail u, v)
      ],
      λ (m, v). elim (Memᴰ.cases_cons m) [
        | inl e ↦ Memᴰ.head e
        | inr t ↦ Memᴰ.tail ((mem-filter p xs).1 (t, v))
      ],
    )
    | inr gone ↦ rw gone (
      λ m. let (u, v) = (mem-filter p xs).0 m in (Memᴰ.tail u, v),
      λ (m, v). elim (Memᴰ.cases_cons m) [
        | inl e ↦ let w : p x ≡ true = rw (← e) v in cc
        | inr t ↦ (mem-filter p xs).1 (t, v)
      ],
    )
  ]

  pub any-mem : (p : A → Bool) (xs : List A) {a : A} → Memᴰ a xs → p a ≡ true → any p xs ≡ true
  any-mem p [] m h = absurd (Memᴰ.not-nil m)
  any-mem p (x ∷ xs) m h = elim (Memᴰ.cases_cons m) [
    | inl e ↦ let here : p x ≡ true = rw (← e) h in ground arith
    | inr t ↦ let later : any p xs ≡ true = any-mem p xs t h in ground arith
  ]

  -- What a guard lets through.
  pub mem-when :
      (b : Bool) (xs : List A) {a : A} → Memᴰ a (if b then xs else []) ↔ ((b ≡ true) × Memᴰ a xs)
  mem-when true xs = (λ m. (refl, m), λ (_, m). m)
  mem-when false xs = (λ m. absurd (Memᴰ.not-nil m), λ (e, m). cc)

  pub mem-unless :
      (b : Bool) (xs : List A) {a : A} → Memᴰ a (if b then [] else xs) ↔ ((b ≡ false) × Memᴰ a xs)
  mem-unless true xs = (λ m. absurd (Memᴰ.not-nil m), λ (e, m). cc)
  mem-unless false xs = (λ m. (refl, m), λ (_, m). m)

  pub mem-singleton : (x : A) {a : A} → Memᴰ a (x ∷ []) ↔ (a ≡ x)
  mem-singleton x = (Memᴰ.eq_of_singleton, Memᴰ.head)

module _ {ℓ κ} {A : Type ℓ} {B : Type κ} where
  -- xs.flatMap(f)
  abbrev pub flat_map : (A → List B) → List A → List B
  flat_map f [] = []
  flat_map f (x ∷ xs) = f x ++ flat_map f xs

  pub mem-flat_map :
      (f : A → List B) (xs : List A) {b : B}
      → Memᴰ b (flat_map f xs)
      → (a : A) × Memᴰ a xs × Memᴰ b (f a)
  mem-flat_map f [] m = absurd (Memᴰ.not-nil m)
  mem-flat_map f (x ∷ xs) m = elim (Memᴰ.append_cases (f x) m) [
    | inl here ↦ (x, Memᴰ.head refl, here)
    | inr later ↦ let (a, n, h) = mem-flat_map f xs later in (a, Memᴰ.tail n, h)
  ]

  pub flat_map-mem :
      (f : A → List B) (xs : List A) {a : A} {b : B}
      → Memᴰ a xs
      → Memᴰ b (f a)
      → Memᴰ b (flat_map f xs)
  flat_map-mem f [] m h = absurd (Memᴰ.not-nil m)
  flat_map-mem f (x ∷ xs) {b = b} m h = elim (Memᴰ.cases_cons m) [
    | inl e ↦ Memᴰ.append_left (flat_map f xs) (subst (λ y. Memᴰ b (f y)) e h)
    | inr t ↦ Memᴰ.append_right (f x) (flat_map-mem f xs t h)
  ]

-- set.has(k), over the elements in the order of insertion
abbrev pub has : List String → String → Bool
has [] k = false
has (x ∷ xs) k = str_eq x k || has xs k

pub has_iff : (xs : List String) (k : String) → (has xs k ≡ true) ↔ Memᴰ k xs
has_iff [] k = ((λ h. cc), λ m. absurd (Memᴰ.not-nil m))
has_iff (x ∷ xs) k = (
  λ h. elim (Bool-cases (str_eq x k)) [
    | inl same ↦ Memᴰ.head (sym ((eq_iff x k).0 same))
    | inr other ↦ Memᴰ.tail ((has_iff xs k).0 (ground arith))
  ],
  λ m. elim (Memᴰ.cases_cons m) [
    | inl e ↦ let same : str_eq x k ≡ true = (eq_iff x k).1 (sym e) in rw same
    | inr t ↦ let later : has xs k ≡ true = (has_iff xs k).1 t in ground arith
  ],
)

module _ {ℓ κ} {A : Type ℓ} (P : A → Type κ) where
  abbrev pub All : List A → Type κ
  All [] = Unit
  All (x ∷ xs) = P x × All xs

  pub All-mem : (xs : List A) {a : A} → All xs → Memᴰ a xs → P a
  All-mem [] h m = absurd (Memᴰ.not-nil m)
  All-mem (x ∷ xs) (p, h) m = elim (Memᴰ.cases_cons m) [
    | inl e ↦ subst P (sym e) p
    | inr t ↦ All-mem xs h t
  ]

  pub All-of_mem : (xs : List A) → ((a : A) → Memᴰ a xs → P a) → All xs
  All-of_mem [] h = tt
  All-of_mem (x ∷ xs) h = (h x (Memᴰ.head refl), All-of_mem xs (λ a m. h a (Memᴰ.tail m)))

module _ {ℓ} {A : Type ℓ} where
  -- No element stands twice.
  abbrev pub IsDistinct : List A → Type ℓ
  IsDistinct [] = Unit
  IsDistinct (x ∷ xs) = ¬ Memᴰ x xs × IsDistinct xs

  pub IsDistinct-concat :
      (xs : List A) {a : A} → IsDistinct xs → ¬ Memᴰ a xs → IsDistinct (xs ++ a ∷ [])
  IsDistinct-concat [] d n = (Memᴰ.not-nil, tt)
  IsDistinct-concat (x ∷ xs) (fresh, d) n = (
    λ m. elim (Memᴰ.append_cases xs m) [
      | inl old ↦ fresh old
      | inr new ↦ n (Memᴰ.head (sym (Memᴰ.eq_of_singleton new)))
    ],
    IsDistinct-concat xs d (λ m. n (Memᴰ.tail m)),
  )

module _ {ℓ κ} {A : Type ℓ} {B : Type κ} (f : A → B) where
  -- Where no value of a function stands twice, an element is told by its value.
  pub map-IsDistinct_inj :
      (xs : List A) → IsDistinct (map f xs) → {x y : A} → Memᴰ x xs → Memᴰ y xs → f x ≡ f y → x ≡ y
  map-IsDistinct_inj [] d m n e = absurd (Memᴰ.not-nil m)
  map-IsDistinct_inj (z ∷ xs) (fresh, d) {x} {y} m n e = elim (Memᴰ.cases_cons m) [
    | inl x_is ↦ elim (Memᴰ.cases_cons n) [
      | inl y_is ↦ x_is ∙ sym y_is
      | inr later ↦ absurd (fresh (Memᴰ.cast (ap f (sym x_is) ∙ e) (Memᴰ.map f later)))
    ]
    | inr later ↦ elim (Memᴰ.cases_cons n) [
      | inl y_is ↦ absurd (fresh (Memᴰ.cast (ap f (sym y_is) ∙ sym e) (Memᴰ.map f later)))
      | inr later' ↦ map-IsDistinct_inj xs d later later' e
    ]
  ]
