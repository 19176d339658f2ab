-- ===== src/Shared/Groups.antt =====
-- The entries of a map: each key stands once, and a grouping has an entry for the key of every
-- element, with the elements of that key.
use Prim.Native.String.{String}
use mathlib.Core.Path.{◌≡◌, sym, subst, ◌∙◌}
use mathlib.Core.Logic.{◌⊎◌, inl, inr}
use mathlib.Core.Bool.{true}
use mathlib.Core.Option.{some}
use mathlib.Core.List.{List, [], ◌∷◌, Memᴰ}
use mathlib.Core.List.Memᴰ
use text.Mathlib.Text.{◌==◌ as str_eq}
use text.Mathlib.TextEquality.{eq_iff}
use text.Mathlib.TextPositions.{eq_refl}
use logiclens.Shared.Tests.{Bool-cases, Option-cases, some_inj}
use logiclens.Shared.Lists.{IsDistinct, filter, mem-filter}
use logiclens.Shared.Loops.{for_each_keeps}
use logiclens.Shared.Maps.{StrMap, lookup, insert, bucket, group_by, bucket-group_by}

module _ {ℓ} {V : Type ℓ} where
  abbrev pub keys : StrMap V → List String
  keys [] = []
  keys ((k, v) ∷ m) = k ∷ keys m

  mem-keys-insert :
      (k : String) (v : V) (m : StrMap V) {i : String}
      → Memᴰ i (keys (insert k v m))
      → (i ≡ k) ⊎ Memᴰ i (keys m)
  mem-keys-insert k v [] h = inl (Memᴰ.eq_of_singleton h)
  mem-keys-insert k v ((j, w) ∷ m) {i} h = elim (Bool-cases (str_eq j k)) [
    | inl same ↦ inr (rw same at h)
    | inr other ↦ elim (Memᴰ.cases_cons (rw other at h)) [
      | inl e ↦ inr (Memᴰ.head e)
      | inr t ↦ elim (mem-keys-insert k v m t) [ inl e ↦ inl e | inr u ↦ inr (Memᴰ.tail u) ]
    ]
  ]

  pub keys-insert-IsDistinct :
      (k : String) (v : V) (m : StrMap V) → IsDistinct (keys m) → IsDistinct (keys (insert k v m))
  keys-insert-IsDistinct k v [] d = (Memᴰ.not-nil, tt)
  keys-insert-IsDistinct k v ((j, w) ∷ m) (fresh, d) = elim (Bool-cases (str_eq j k)) [
    | inl same ↦ rw same (fresh, d)
    | inr other ↦ rw other (
      λ h. elim (mem-keys-insert k v m h) [
        | inl e ↦ let same : str_eq j k ≡ true = (eq_iff j k).1 e in cc
        | inr t ↦ fresh t
      ],
      keys-insert-IsDistinct k v m d,
    )
  ]

  -- An entry of the map after a `set` is the one that was set, or was there.
  pub mem-insert :
      (k : String) (v : V) (m : StrMap V) {i : String} {w : V}
      → Memᴰ (i, w) (insert k v m)
      → ((i ≡ k) × (w ≡ v)) ⊎ Memᴰ (i, w) m
  mem-insert k v [] h = let e = Memᴰ.eq_of_singleton h in inl (λ t. (e t).0, λ t. (e t).1)
  mem-insert k v ((j, u) ∷ m) h = elim (Bool-cases (str_eq j k)) [
    | inl same ↦ elim (Memᴰ.cases_cons (rw same at h)) [
      | inl e ↦ inl ((λ t. (e t).0) ∙ (eq_iff j k).0 same, λ t. (e t).1)
      | inr t ↦ inr (Memᴰ.tail t)
    ]
    | inr other ↦ elim (Memᴰ.cases_cons (rw other at h)) [
      | inl e ↦ inr (Memᴰ.head e)
      | inr t ↦ elim (mem-insert k v m t) [ inl e ↦ inl e | inr n ↦ inr (Memᴰ.tail n) ]
    ]
  ]

  mem-keys : {k : String} {v : V} (m : StrMap V) → Memᴰ (k, v) m → Memᴰ k (keys m)
  mem-keys [] h = absurd (Memᴰ.not-nil h)
  mem-keys ((j, w) ∷ m) h = elim (Memᴰ.cases_cons h) [
    | inl e ↦ Memᴰ.head (λ i. (e i).0)
    | inr t ↦ Memᴰ.tail (mem-keys m t)
  ]

  pub lookup_of_mem :
      {k : String} {v : V} (m : StrMap V)
      → IsDistinct (keys m)
      → Memᴰ (k, v) m
      → lookup k m ≡ some v
  lookup_of_mem [] d h = absurd (Memᴰ.not-nil h)
  lookup_of_mem {k} {v} ((j, w) ∷ m) (fresh, d) h = elim (Memᴰ.cases_cons h) [
    | inl e ↦
        let same : str_eq j k ≡ true = (eq_iff j k).1 (λ i. (sym e i).0) in
        rw same (λ i. some ((sym e i).1))
    | inr t ↦ elim (Bool-cases (str_eq j k)) [
      | inl same ↦
          absurd (fresh (subst (λ i. Memᴰ i (keys m)) (sym ((eq_iff j k).0 same)) (mem-keys m t)))
      | inr other ↦ rw other (lookup_of_mem m d t)
    ]
  ]

  pub mem_of_lookup : {k : String} {v : V} (m : StrMap V) → lookup k m ≡ some v → Memᴰ (k, v) m
  mem_of_lookup [] h = cc
  mem_of_lookup {k} {v} ((j, w) ∷ m) h = elim (Bool-cases (str_eq j k)) [
    | inl same ↦ Memᴰ.head (λ i. (sym ((eq_iff j k).0 same) i, sym (some_inj (rw same at h)) i))
    | inr other ↦ Memᴰ.tail (mem_of_lookup m (rw other at h))
  ]

module _ {ℓ} {V : Type ℓ} (key : V → String) (xs : List V) where
  pub keys-group_by-IsDistinct : IsDistinct (keys (group_by key xs))
  keys-group_by-IsDistinct =
      for_each_keeps (λ m. IsDistinct (keys m)) xs _
        (λ x m _ d. keys-insert-IsDistinct (key x) _ m d) [] tt

  -- The elements with a key.
  abbrev pub with_key : String → List V
  with_key k = filter (λ x. str_eq (key x) k) xs

  pub mem-group_by : {k : String} {g : List V} → Memᴰ (k, g) (group_by key xs) → g ≡ with_key k
  mem-group_by {k} {g} h =
      let found = lookup_of_mem (group_by key xs) keys-group_by-IsDistinct h in
      let grouped : bucket k (group_by key xs) ≡ g = rw found in
      sym grouped ∙ bucket-group_by key k xs

  pub group_by-mem : {x : V} → Memᴰ x xs → Memᴰ (key x, with_key (key x)) (group_by key xs)
  group_by-mem {x} h = elim (Option-cases (lookup (key x) (group_by key xs))) [
    | inl missing ↦
        let nobody : bucket (key x) (group_by key xs) ≡ [] = rw missing in
        absurd (Memᴰ.not-nil (subst (Memᴰ x) (sym (bucket-group_by key (key x) xs) ∙ nobody) mine))
    | inr (g, found) ↦
        let m = mem_of_lookup (group_by key xs) found in
        subst (λ l. Memᴰ (key x, l) (group_by key xs)) (mem-group_by m) m
  ]
    where
      mine : Memᴰ x (with_key (key x))
      mine = (mem-filter _ xs).1 (h, eq_refl (key x))
