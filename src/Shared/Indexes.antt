-- ===== src/Shared/Indexes.antt =====
-- Maps of arrays whose loop skips some elements and files a part of the others, and the choice of
-- preferred elements.
use Prim.Native.String.{String}
use mathlib.Core.Path.{◌≡◌, refl, sym, ◌∙◌}
use mathlib.Core.Logic.{inl, inr, ◌↔◌}
use mathlib.Core.Bool.{Bool, true, false}
use mathlib.Core.Option.{Option, none, some}
use mathlib.Core.List.{List, [], ◌∷◌, ◌++◌, map, Memᴰ, append-nil, append_assoc}
use mathlib.Core.List.Memᴰ
use text.Mathlib.Text.{◌==◌ as str_eq}
use text.Mathlib.TextEquality.{eq_iff}
use logiclens.Shared.Tests.{if◌then◌else◌, Bool-cases, some_inj}
use logiclens.Shared.Lists.{filter, mem-filter, is_empty, IsDistinct}
use logiclens.Shared.Loops.{for_each}
use logiclens.Shared.Maps.{StrMap, bucket, push_at, bucket-push_at}

-- whether an optional key is there and is `k`
abbrev pub holds_key : String → Option String → Bool
holds_key k none = false
holds_key k (some j) = str_eq j k

pub holds_key_iff : (k : String) (o : Option String) → (holds_key k o ≡ true) ↔ (o ≡ some k)
holds_key_iff k none = ((λ h. cc), λ h. cc)
holds_key_iff k (some j) = ((λ h. λ i. some ((eq_iff j k).0 h i)), λ h. (eq_iff j k).1 (some_inj h))

module _ {κ} {B : Type κ} where
  abbrev pub file_under : Option String → B → StrMap (List B) → StrMap (List B)
  file_under none v m = m
  file_under (some k) v m = push_at k v m

  bucket-file_under :
      (k : String) (o : Option String) (v : B) (m : StrMap (List B))
      → bucket k (file_under o v m) ≡ (if holds_key k o then bucket k m ++ v ∷ [] else bucket k m)
  bucket-file_under k none v m = refl
  bucket-file_under k (some j) v m = bucket-push_at j k v m

module _ {ℓ κ} {A : Type ℓ} {B : Type κ} (key : A → Option String) (val : A → B) where
  -- the loop that files a part of each element that has a key
  abbrev pub index_by : List A → StrMap (List B)
  index_by xs = for_each xs (λ x. file_under (key x) (val x)) []

  abbrev pub at_key : String → A → Bool
  at_key k x = holds_key k (key x)

  bucket-for_each :
      (k : String) (xs : List A) (m : StrMap (List B))
      → bucket k (for_each xs (λ x. file_under (key x) (val x)) m)
        ≡ bucket k m ++ map val (filter (at_key k) xs)
  bucket-for_each k [] m = sym (append-nil _)
  bucket-for_each k (x ∷ xs) m = elim (Bool-cases (at_key k x)) [
    | inl same ↦
        bucket-for_each k xs (file_under (key x) (val x) m)
        ∙ rw (bucket-file_under k (key x) (val x) m, same, append_assoc)
    | inr other ↦
        bucket-for_each k xs (file_under (key x) (val x) m)
        ∙ rw (bucket-file_under k (key x) (val x) m, other)
  ]

  -- The array at a key holds the parts of the elements with that key, in their order.
  pub bucket-index_by :
      (k : String) (xs : List A) → bucket k (index_by xs) ≡ map val (filter (at_key k) xs)
  bucket-index_by k xs = bucket-for_each k xs []

module _ {ℓ} {A : Type ℓ} where
  pub map-id : (xs : List A) → map (λ x. x) xs ≡ xs
  map-id [] = refl
  map-id (x ∷ xs) = rw (map-id xs)

  pub filter-IsDistinct : (p : A → Bool) (xs : List A) → IsDistinct xs → IsDistinct (filter p xs)
  filter-IsDistinct p [] d = tt
  filter-IsDistinct p (x ∷ xs) (fresh, d) = elim (Bool-cases (p x)) [
    | inl here ↦ rw here ((λ m. fresh ((mem-filter p xs).0 m).0), filter-IsDistinct p xs d)
    | inr gone ↦ rw gone (filter-IsDistinct p xs d)
  ]

  -- const best = xs.filter(p); best.length > 0 ? best : xs
  abbrev pub prefer : (A → Bool) → List A → List A
  prefer p xs = if is_empty (filter p xs) then xs else filter p xs

  abbrev IsPreferred : (A → Bool) → List A → A → Type ℓ
  IsPreferred p xs a = Memᴰ a xs × ((b : A) → Memᴰ b xs → p b ≡ true → p a ≡ true)

  nobody : (xs : List A) → is_empty xs ≡ true → {a : A} → Memᴰ a xs → ⊥
  nobody [] h m = Memᴰ.not-nil m
  nobody (x ∷ xs) h m = cc

  somebody : (xs : List A) → is_empty xs ≡ false → (a : A) × Memᴰ a xs
  somebody [] h = cc
  somebody (x ∷ xs) h = (x, Memᴰ.head refl)

  -- What is left satisfies the test where any element does.
  pub mem-prefer : (p : A → Bool) (xs : List A) {a : A} → Memᴰ a (prefer p xs) ↔ IsPreferred p xs a
  mem-prefer p xs {a} = elim (Bool-cases (is_empty (filter p xs))) [
    | inl no_one ↦
        rw no_one
          (λ m. (m, λ b n h. absurd (nobody _ no_one ((mem-filter p xs).1 (n, h)))), λ (m, _). m)
    | inr some_one ↦ rw some_one (
      λ m. let (n, h) = (mem-filter p xs).0 m in (n, λ b _ _. h),
      λ (m, h).
          let (b, n) = somebody _ some_one in
          let (listed, good) = (mem-filter p xs).0 n in (mem-filter p xs).1 (m, h b listed good),
    )
  ]

  pub prefer-IsDistinct : (p : A → Bool) (xs : List A) → IsDistinct xs → IsDistinct (prefer p xs)
  prefer-IsDistinct p xs d = elim (Bool-cases (is_empty (filter p xs))) [
    | inl no_one ↦ rw no_one d
    | inr some_one ↦ rw some_one (filter-IsDistinct p xs d)
  ]

  -- xs.length === 1 ? xs[0] : undefined
  abbrev pub the_only : List A → Option A
  the_only [] = none
  the_only (x ∷ []) = some x
  the_only (_ ∷ _ ∷ _) = none

  pub the_only_sound :
      (xs : List A) {a : A} → the_only xs ≡ some a → Memᴰ a xs × ((b : A) → Memᴰ b xs → b ≡ a)
  the_only_sound [] h = cc
  the_only_sound (x ∷ []) h =
      (Memᴰ.head (sym (some_inj h)), λ b m. Memᴰ.eq_of_singleton m ∙ some_inj h)
  the_only_sound (x ∷ y ∷ xs) h = cc

  pub the_only_complete :
      (xs : List A) {a : A}
      → IsDistinct xs
      → Memᴰ a xs
      → ((b : A) → Memᴰ b xs → b ≡ a)
      → the_only xs ≡ some a
  the_only_complete [] d m h = absurd (Memᴰ.not-nil m)
  the_only_complete (x ∷ []) d m h = λ i. some (h x (Memᴰ.head refl) i)
  the_only_complete (x ∷ y ∷ xs) (fresh, _) m h =
      absurd (fresh (Memᴰ.head (h x (Memᴰ.head refl) ∙ sym (h y (Memᴰ.tail (Memᴰ.head refl))))))
