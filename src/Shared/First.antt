-- ===== src/Shared/First.antt =====
-- The loop that keeps the first value of each key:
-- `if (seen.has(key)) continue; seen.add(key); kept.push(v)`.
use Prim.Native.String.{String}
use mathlib.Core.Path.{◌≡◌, refl, sym}
use mathlib.Core.Logic.{inl, inr}
use mathlib.Core.List.{List, [], ◌∷◌, ◌++◌, Memᴰ}
use mathlib.Core.List.Memᴰ
use logiclens.Shared.Tests.{if◌then◌else◌, Bool-cases}
use logiclens.Shared.Lists.{has, has_iff}
use logiclens.Shared.Loops.{for_each, for_each_keeps, for_each_reaches}

pub record Kept {ℓ} (V : Type ℓ) : Type ℓ where
  pub items : List V
  pub seen : List String

module _ {ℓ} {V : Type ℓ} (key : V → String) where
  abbrev pub take_first : V → Kept V → Kept V
  take_first v st =
      if has st.seen (key v)
      then st
      else record { items = st.items ++ v ∷ []; seen = st.seen ++ key v ∷ [] }

  abbrev pub firsts_from : List V → Kept V → Kept V
  firsts_from xs st = for_each xs take_first st

  abbrev pub firsts : List V → List V
  firsts xs = (firsts_from xs (record { items = []; seen = [] })).items

  -- Every value kept is one of the list.
  pub firsts_sound : (xs : List V) {v : V} → Memᴰ v (firsts xs) → Memᴰ v xs
  firsts_sound xs {v} =
      for_each_keeps (λ (st : Kept V). Memᴰ v st.items → Memᴰ v xs) xs take_first
        (λ x st mx h. elim (Bool-cases (has st.seen (key x))) [
          | inl old ↦ rw old h
          | inr new ↦ rw new (λ m. elim (Memᴰ.append_cases st.items m) [
            | inl before ↦ h before
            | inr here ↦ Memᴰ.cast (Memᴰ.eq_of_singleton here) mx
          ])
        ])
        _ (λ m. absurd (Memᴰ.not-nil m))

  IsKeyedBy : Kept V → Type ℓ
  IsKeyedBy st = (k : String) → Memᴰ k st.seen → (w : V) × Memᴰ w st.items × (key w ≡ k)

  take_first-IsKeyedBy : (x : V) (st : Kept V) → IsKeyedBy st → IsKeyedBy (take_first x st)
  unfolding IsKeyedBy
  take_first-IsKeyedBy x st h k = elim (Bool-cases (has st.seen (key x))) [
    | inl old ↦ rw old (h k)
    | inr new ↦ rw new (λ m. elim (Memᴰ.append_cases st.seen m) [
      | inl before ↦ let (w, n, e) = h k before in (w, Memᴰ.append_left (x ∷ []) n, e)
      | inr here ↦ (x, Memᴰ.append_right st.items (Memᴰ.head refl), sym (Memᴰ.eq_of_singleton here))
    ])
  ]

  seen-take_first : (x : V) (st : Kept V) → Memᴰ (key x) (take_first x st).seen
  seen-take_first x st = elim (Bool-cases (has st.seen (key x))) [
    | inl old ↦ rw old ((has_iff _ _).0 old)
    | inr new ↦ rw new (Memᴰ.append_right st.seen (Memᴰ.head refl))
  ]

  seen_stays : (k : String) (x : V) (st : Kept V) → Memᴰ k st.seen → Memᴰ k (take_first x st).seen
  seen_stays k x st m = elim (Bool-cases (has st.seen (key x))) [
    | inl old ↦ rw old m
    | inr new ↦ rw new (Memᴰ.append_left (key x ∷ []) m)
  ]

  -- Every value of the list has one of its key that was kept.
  pub firsts_complete :
      (xs : List V) {x : V} → Memᴰ x xs → (w : V) × Memᴰ w (firsts xs) × (key w ≡ key x)
  unfolding IsKeyedBy
  firsts_complete xs {x} m =
      for_each_keeps IsKeyedBy xs take_first (λ y st _. take_first-IsKeyedBy y st)
        (record { items = []; seen = [] }) (λ k n. absurd (Memᴰ.not-nil n)) (key x)
        (for_each_reaches (λ (st : Kept V). Memᴰ (key x) st.seen) xs take_first m
          (seen-take_first x) (λ y st. seen_stays (key x) y st) _)
