-- ===== src/Shared/Sorting.antt =====
-- Array.prototype.sort, which is stable: elements that compare equal keep their order.
use Prim.Native.Nat.{Ordering}
use mathlib.Core.Path.{◌≡◌}
use mathlib.Core.Logic.{◌⊎◌, inl, inr}
use mathlib.Core.Bool.{Bool, true, false}
use mathlib.Core.List.{List, [], ◌∷◌, Memᴰ}
use mathlib.Core.List.Memᴰ
use logiclens.Shared.Tests.{if◌then◌else◌, Bool-cases}

abbrev pub is_greater : Ordering → Bool
is_greater o = elim o [ Ordering.gt ↦ true | _ ↦ false ]

module _ {ℓ} {A : Type ℓ} (compare : A → A → Ordering) where
  abbrev pub put_in : A → List A → List A
  put_in x [] = x ∷ []
  put_in x (y ∷ ys) =
      let rest = put_in x ys in if is_greater (compare x y) then y ∷ rest else x ∷ y ∷ ys

  abbrev pub sort : List A → List A
  sort [] = []
  sort (x ∷ xs) = put_in x (sort xs)

  mem-put_in : (x : A) (ys : List A) {a : A} → Memᴰ a (put_in x ys) → (a ≡ x) ⊎ Memᴰ a ys
  mem-put_in x [] m = inl (Memᴰ.eq_of_singleton m)
  mem-put_in x (y ∷ ys) m = elim (Bool-cases (is_greater (compare x y))) [
    | inl after ↦ elim (Memᴰ.cases_cons (rw after at m)) [
      | inl e ↦ inr (Memᴰ.head e)
      | inr n ↦ elim (mem-put_in x ys n) [ inl e ↦ inl e | inr t ↦ inr (Memᴰ.tail t) ]
    ]
    | inr before ↦ elim (Memᴰ.cases_cons (rw before at m)) [ inl e ↦ inl e | inr n ↦ inr n ]
  ]

  put_in-mem : (x : A) (ys : List A) {a : A} → (a ≡ x) ⊎ Memᴰ a ys → Memᴰ a (put_in x ys)
  put_in-mem x [] (inl e) = Memᴰ.head e
  put_in-mem x [] (inr m) = absurd (Memᴰ.not-nil m)
  put_in-mem x (y ∷ ys) h = elim (Bool-cases (is_greater (compare x y))) [
    | inr before ↦ rw before (elim h [ inl e ↦ Memᴰ.head e | inr m ↦ Memᴰ.tail m ])
    | inl after ↦ rw after (elim h [
      | inl e ↦ Memᴰ.tail (put_in-mem x ys (inl e))
      | inr m ↦ elim (Memᴰ.cases_cons m) [
        | inl e ↦ Memᴰ.head e
        | inr n ↦ Memᴰ.tail (put_in-mem x ys (inr n))
      ]
    ])
  ]

  pub mem-sort : (xs : List A) {a : A} → Memᴰ a (sort xs) → Memᴰ a xs
  mem-sort [] m = m
  mem-sort (x ∷ xs) m = elim (mem-put_in x (sort xs) m) [
    | inl e ↦ Memᴰ.head e
    | inr n ↦ Memᴰ.tail (mem-sort xs n)
  ]

  pub sort-mem : (xs : List A) {a : A} → Memᴰ a xs → Memᴰ a (sort xs)
  sort-mem [] m = m
  sort-mem (x ∷ xs) m =
      put_in-mem x (sort xs)
        (elim (Memᴰ.cases_cons m) [ inl e ↦ inl e | inr n ↦ inr (sort-mem xs n) ])
