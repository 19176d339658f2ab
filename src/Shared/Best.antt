-- ===== src/Shared/Best.antt =====
-- The loop that keeps one value for each key, replaced by a later one where that is better:
-- `const existing = m.get(key); if (!existing || better(v, existing)) m.set(key, v)`.
use Prim.Native.String.{String}
use mathlib.Core.Path.{◌≡◌, refl, sym, ap, subst, ◌∙◌}
use mathlib.Core.Logic.{inl, inr}
use mathlib.Core.Bool.{Bool, true, false}
use mathlib.Core.Option.{none, some}
use mathlib.Core.List.{List, [], ◌∷◌, map, Memᴰ}
use mathlib.Core.List.Memᴰ
use text.Mathlib.Text.{◌==◌ as str_eq}
use text.Mathlib.TextEquality.{eq_iff}
use text.Mathlib.TextPositions.{eq_refl}
use logiclens.Shared.Tests.{if◌then◌else◌, Bool-cases, Option-cases, some_inj}
use logiclens.Shared.Lists.{IsDistinct}
use logiclens.Shared.Loops.{for_each, for_each_keeps, for_each_reaches}
use logiclens.Shared.Maps.{StrMap, lookup, insert, lookup-insert}
use logiclens.Shared.Groups.{keys, keys-insert-IsDistinct, lookup_of_mem}

module _ {ℓ} {V : Type ℓ} where
  -- [...m.values()]
  abbrev pub values : StrMap V → List V
  values [] = []
  values ((k, v) ∷ m) = v ∷ values m

  pub mem-values : (m : StrMap V) {v : V} → Memᴰ v (values m) → (k : String) × Memᴰ (k, v) m
  mem-values [] h = absurd (Memᴰ.not-nil h)
  mem-values ((k, w) ∷ m) h = elim (Memᴰ.cases_cons h) [
    | inl e ↦ (k, Memᴰ.head (λ i. (k, e i)))
    | inr t ↦ let (j, n) = mem-values m t in (j, Memᴰ.tail n)
  ]

  pub values-mem : (m : StrMap V) {k : String} {v : V} → Memᴰ (k, v) m → Memᴰ v (values m)
  values-mem [] h = absurd (Memᴰ.not-nil h)
  values-mem ((j, w) ∷ m) h = elim (Memᴰ.cases_cons h) [
    | inl e ↦ Memᴰ.head (λ i. (e i).1)
    | inr t ↦ Memᴰ.tail (values-mem m t)
  ]

  -- Where every value stands under its key, the values' keys are the map's.
  pub map-values :
      (key : V → String) (m : StrMap V)
      → ((k : String) (v : V) → Memᴰ (k, v) m → key v ≡ k)
      → map key (values m) ≡ keys m
  map-values key [] h = refl
  map-values key ((k, v) ∷ m) h =
      let here = h k v (Memᴰ.head refl) in
      let later = map-values key m (λ j w n. h j w (Memᴰ.tail n)) in rw (here, later)

module _ {ℓ} {V : Type ℓ} (key : V → String) (better : V → V → Bool) where
  abbrev pub consider : V → StrMap V → StrMap V
  consider v m = elim (lookup (key v) m) [
    | none ↦ insert (key v) v m
    | some old ↦ if better v old then insert (key v) v m else m
  ]

  abbrev pub keep_best : List V → StrMap V
  keep_best xs = for_each xs consider []

  -- A round either leaves the map alone or stores its value.
  consider_cases {κ} :
      (P : StrMap V → Type κ) (v : V) (m : StrMap V)
      → P m
      → P (insert (key v) v m)
      → P (consider v m)
  consider_cases P v m same new = elim (Option-cases (lookup (key v) m)) [
    | inl missing ↦ rw (missing, consider) new
    | inr (old, found) ↦ elim (Bool-cases (better v old)) [
      | inl yes_better ↦ rw (found, consider, yes_better) new
      | inr worse ↦ rw (found, consider, worse) same
    ]
  ]

  pub keys-keep_best-IsDistinct : (xs : List V) → IsDistinct (keys (keep_best xs))
  keys-keep_best-IsDistinct xs =
      for_each_keeps (λ m. IsDistinct (keys m)) xs consider
        (λ v m _ d.
          consider_cases (λ n. IsDistinct (keys n)) v m d (keys-insert-IsDistinct (key v) v m d))
        [] tt

  -- What is found under a key is an element with that key.
  pub keep_best_origin :
      (xs : List V) {k : String} {w : V}
      → lookup k (keep_best xs) ≡ some w
      → Memᴰ w xs × (key w ≡ k)
  keep_best_origin xs {k} {w} =
      for_each_keeps (λ m. lookup k m ≡ some w → Memᴰ w xs × (key w ≡ k)) xs consider
        (λ v m mv h.
          consider_cases (λ n. lookup k n ≡ some w → Memᴰ w xs × (key w ≡ k)) v m h
            (λ e. elim (Bool-cases (str_eq (key v) k)) [
              | inl same ↦
                  let v_is_w : v ≡ w =
                    some_inj (sym (rw (lookup-insert (key v) k v m, same)) ∙ e) in
                  (Memᴰ.cast (sym v_is_w) mv, ap key (sym v_is_w) ∙ (eq_iff _ _).0 same)
              | inr other ↦ h (rw (lookup-insert (key v) k v m, other) at e)
            ]))
        [] (λ e. cc)

  -- In an order that `better` decides, the value kept for a key is above every element with it.
  module _ {κ} (Below : V → V → Type κ) (below_refl : (v : V) → Below v v)
      (below_trans : (u v w : V) → Below u v → Below v w → Below u w)
      (worse : (v w : V) → better v w ≡ false → Below v w)
      (improves : (v w : V) → better v w ≡ true → Below w v) where
    abbrev Covered : V → StrMap V → Type (ℓ ⊔ κ)
    Covered x m = (w : V) × (lookup (key x) m ≡ some w) × Below x w

    covers : (x : V) (m : StrMap V) → Covered x (consider x m)
    covers x m = elim (Option-cases (lookup (key x) m)) [
      | inl missing ↦ rw (missing, consider) (x, stored, below_refl x)
      | inr (old, found) ↦ elim (Bool-cases (better x old)) [
        | inl new ↦ rw (found, consider, new) (x, stored, below_refl x)
        | inr kept ↦ rw (found, consider, kept) (old, found, worse x old kept)
      ]
    ]
      where
        stored : lookup (key x) (insert (key x) x m) ≡ some x
        stored = rw (lookup-insert (key x) (key x) x m, eq_refl (key x))

    stays : (x v : V) (m : StrMap V) → Covered x m → Covered x (consider v m)
    stays x v m (w, e, b) = elim (Option-cases (lookup (key v) m)) [
      | inl missing ↦
          rw (missing, consider)
            (over (λ same. let clash : some w ≡ none = sym e ∙ rw (← same) missing in cc))
      | inr (old, found) ↦ elim (Bool-cases (better v old)) [
        | inl new ↦
            rw (found, consider, new)
              (over (λ same.
                let old_is_w : old ≡ w = some_inj (sym found ∙ rw same e) in
                below_trans x w v b (subst (λ u. Below u v) old_is_w (improves v old new))))
        | inr kept ↦ rw (found, consider, kept) (w, e, b)
      ]
    ]
      where
        over : (key v ≡ key x → Below x v) → Covered x (insert (key v) v m)
        over above = elim (Bool-cases (str_eq (key v) (key x))) [
          | inl same ↦
              (v, rw (lookup-insert (key v) (key x) v m, same), above ((eq_iff _ _).0 same))
          | inr other ↦ (w, rw (lookup-insert (key v) (key x) v m, other) e, b)
        ]

    pub keep_best_covers : (xs : List V) {x : V} → Memᴰ x xs → Covered x (keep_best xs)
    keep_best_covers xs {x} m =
        for_each_reaches (Covered x) xs consider m (covers x) (λ v n. stays x v n) []

  pub map-values-keep_best : (xs : List V) → map key (values (keep_best xs)) ≡ keys (keep_best xs)
  map-values-keep_best xs = map-values key (keep_best xs) (λ k v m.
      (keep_best_origin xs (lookup_of_mem (keep_best xs) (keys-keep_best-IsDistinct xs) m)).1)

  -- The values that are kept have keys that differ.
  pub values-keep_best-IsDistinct : (xs : List V) → IsDistinct (map key (values (keep_best xs)))
  values-keep_best-IsDistinct xs = rw map-values-keep_best (keys-keep_best-IsDistinct xs)

  pub mem-keep_best : (xs : List V) {v : V} → Memᴰ v (values (keep_best xs)) → Memᴰ v xs
  mem-keep_best xs m =
      let (k, n) = mem-values (keep_best xs) m in
      (keep_best_origin xs (lookup_of_mem (keep_best xs) (keys-keep_best-IsDistinct xs) n)).0
