-- ===== src/Shared/Positions.antt =====
-- Arrays by position: reading, and changing an element in place.
use Prim.Native.Nat.{ℕ, zero, suc, ◌+◌, ◌<◌}
use mathlib.Core.Path.{◌≡◌, refl, sym, ap, subst, ◌∙◌}
use mathlib.Core.Logic.{inl, inr}
use mathlib.Core.Option.{Option, none, some}
use mathlib.Core.List.{List, [], ◌∷◌, Memᴰ}
use mathlib.Core.List.Memᴰ
use native.Mathlib.Omega.{arith}
use logiclens.Shared.Tests.{if◌then◌else◌, ◌==◌, ==_iff, Bool-cases, some_inj}
use logiclens.Shared.Lists.{length}

module _ {ℓ} {A : Type ℓ} where
  abbrev pub get_elem? : List A → ℕ → Option A
  get_elem? [] i = none
  get_elem? (x ∷ xs) zero = some x
  get_elem? (x ∷ xs) (suc i) = get_elem? xs i

  abbrev pub modify : ℕ → (A → A) → List A → List A
  modify i f [] = []
  modify zero f (x ∷ xs) = f x ∷ xs
  modify (suc i) f (x ∷ xs) = x ∷ modify i f xs

  pub length-modify : (i : ℕ) (f : A → A) (xs : List A) → length (modify i f xs) ≡ length xs
  length-modify i f [] = refl
  length-modify zero f (x ∷ xs) = refl
  length-modify (suc i) f (x ∷ xs) = ap suc (length-modify i f xs)

  -- The element at another position stays.
  pub get_elem?-modify_other :
      (i k : ℕ) (f : A → A) (xs : List A) → ¬ (i ≡ k) → get_elem? (modify i f xs) k ≡ get_elem? xs k
  get_elem?-modify_other i k f [] d = refl
  get_elem?-modify_other zero zero f (x ∷ xs) d = absurd (d refl)
  get_elem?-modify_other zero (suc k) f (x ∷ xs) d = refl
  get_elem?-modify_other (suc i) zero f (x ∷ xs) d = refl
  get_elem?-modify_other (suc i) (suc k) f (x ∷ xs) d =
      get_elem?-modify_other i k f xs (λ e. d (ap suc e))

  pub get_elem?-modify_same :
      (i : ℕ) (f : A → A) (xs : List A) {x : A}
      → get_elem? xs i ≡ some x
      → get_elem? (modify i f xs) i ≡ some (f x)
  get_elem?-modify_same i f [] e = cc
  get_elem?-modify_same zero f (y ∷ xs) e = λ j. some (f (some_inj e j))
  get_elem?-modify_same (suc i) f (y ∷ xs) e = get_elem?-modify_same i f xs e

  pub get_elem?_lt : (xs : List A) (i : ℕ) → i < length xs → (x : A) × (get_elem? xs i ≡ some x)
  get_elem?_lt [] i h = absurd (omega arith)
  get_elem?_lt (x ∷ xs) zero h = (x, refl)
  get_elem?_lt (x ∷ xs) (suc i) h = get_elem?_lt xs i (omega arith)

  pub lt_of_get_elem? : (xs : List A) (i : ℕ) {x : A} → get_elem? xs i ≡ some x → i < length xs
  lt_of_get_elem? [] i e = cc
  lt_of_get_elem? (y ∷ xs) zero e = omega arith
  lt_of_get_elem? (y ∷ xs) (suc i) e = omega (arith, lt_of_get_elem? xs i e)

  -- What was there before a change, for what is there after it.
  pub get_elem?-modify :
      (i k : ℕ) (f : A → A) (xs : List A) {y : A}
      → get_elem? (modify i f xs) k ≡ some y
      → (x : A) × (get_elem? xs k ≡ some x) × (i ≡ k → y ≡ f x) × (¬ (i ≡ k) → y ≡ x)
  get_elem?-modify i k f xs {y} e =
      let (x, found) =
        get_elem?_lt xs k (omega (arith, length-modify i f xs, lt_of_get_elem? _ k e)) in
      (
        x,
        found,
        (λ same. some_inj (
            sym e
            ∙ subst (λ n. get_elem? (modify n f xs) k ≡ some (f x)) (sym same)
                (get_elem?-modify_same k f xs found))),
        λ other. some_inj (sym e ∙ get_elem?-modify_other i k f xs other ∙ found),
      )

-- the first occurrence of a number is taken out
abbrev pub remove : ℕ → List ℕ → List ℕ
remove i [] = []
remove i (k ∷ ks) = let rest = remove i ks in if k == i then ks else k ∷ rest

pub length-remove : (i : ℕ) (ks : List ℕ) → Memᴰ i ks → length (remove i ks) + 1 ≡ length ks
length-remove i [] m = absurd (Memᴰ.not-nil m)
length-remove i (k ∷ ks) m = elim (Bool-cases (k == i)) [
  | inl same ↦ rw same (omega arith)
  | inr other ↦ elim (Memᴰ.cases_cons m) [
    | inl e ↦ let same = (==_iff k i).1 (sym e) in cc
    | inr n ↦ rw other (omega (arith, length-remove i ks n))
  ]
]

-- Another number stays.
pub remove-mem : (i : ℕ) (ks : List ℕ) {k : ℕ} → Memᴰ k ks → ¬ (k ≡ i) → Memᴰ k (remove i ks)
remove-mem i [] m d = absurd (Memᴰ.not-nil m)
remove-mem i (j ∷ ks) m d = elim (Bool-cases (j == i)) [
  | inl same ↦ elim (Memᴰ.cases_cons m) [
    | inl e ↦ absurd (d (e ∙ (==_iff j i).0 same))
    | inr n ↦ rw same n
  ]
  | inr other ↦ elim (Memᴰ.cases_cons m) [
    | inl e ↦ rw other (Memᴰ.head e)
    | inr n ↦ rw other (Memᴰ.tail (remove-mem i ks n d))
  ]
]

pub mem-remove : (i : ℕ) (ks : List ℕ) {k : ℕ} → Memᴰ k (remove i ks) → Memᴰ k ks
mem-remove i [] m = absurd (Memᴰ.not-nil m)
mem-remove i (j ∷ ks) m = elim (Bool-cases (j == i)) [
  | inl same ↦ Memᴰ.tail (rw same at m)
  | inr other ↦ elim (Memᴰ.cases_cons (rw other at m)) [
    | inl e ↦ Memᴰ.head e
    | inr n ↦ Memᴰ.tail (mem-remove i ks n)
  ]
]
