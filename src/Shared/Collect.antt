-- ===== src/Shared/Collect.antt =====
-- A loop whose rounds may throw: the results of all rounds in order, or none if a round threw.
use mathlib.Core.Path.{◌≡◌, refl, sym, subst}
use mathlib.Core.Logic.{inl, inr, ◌≢◌}
use mathlib.Core.Option.{Option, none, some}
use mathlib.Core.List.{List, [], ◌∷◌, ◌++◌, Memᴰ}
use mathlib.Core.List.Memᴰ
use logiclens.Shared.Tests.{◌>>=◌, >>=-eq-some, some_inj, Option-cases}

module _ {ℓ κ} {A : Type ℓ} {B : Type κ} where
  abbrev pub collect : (A → Option (List B)) → List A → Option (List B)
  collect f [] = some []
  collect f (x ∷ xs) = do here ← f x; later ← collect f xs; some (here ++ later)

  -- A result of the loop is one of a round.
  pub collect_sound :
      (f : A → Option (List B)) (xs : List A) {ys : List B} {b : B}
      → collect f xs ≡ some ys
      → Memᴰ b ys
      → (a : A) × (bs : List B) × Memᴰ a xs × (f a ≡ some bs) × Memᴰ b bs
  collect_sound f [] {b = b} e m = absurd (Memᴰ.not-nil (subst (Memᴰ b) (sym (some_inj e)) m))
  collect_sound f (x ∷ xs) {b = b} e m =
      let (here, p, e') = >>=-eq-some (f x) _ e in
      let (later, q, e'') = >>=-eq-some (collect f xs) _ e' in
      elim (Memᴰ.append_cases here (subst (Memᴰ b) (sym (some_inj e'')) m)) [
        | inl h ↦ (x, here, Memᴰ.head refl, p, h)
        | inr t ↦ let (a, bs, ma, r, mb) = collect_sound f xs q t in (a, bs, Memᴰ.tail ma, r, mb)
      ]

  -- Every round has returned, and its results are among those of the loop.
  pub collect_complete :
      (f : A → Option (List B)) (xs : List A) {ys : List B} {a : A}
      → collect f xs ≡ some ys
      → Memᴰ a xs
      → (bs : List B) × (f a ≡ some bs) × ((b : B) → Memᴰ b bs → Memᴰ b ys)
  collect_complete f [] e m = absurd (Memᴰ.not-nil m)
  collect_complete f (x ∷ xs) {a = a} e m =
      let (here, p, e') = >>=-eq-some (f x) _ e in
      let (later, q, e'') = >>=-eq-some (collect f xs) _ e' in
      elim (Memᴰ.cases_cons m) [
        | inl same ↦
            (here, rw same p, λ b h. subst (Memᴰ b) (some_inj e'') (Memᴰ.append_left later h))
        | inr t ↦
            let (bs, r, keep) = collect_complete f xs q t in
            (bs, r, λ b h. subst (Memᴰ b) (some_inj e'') (Memᴰ.append_right here (keep b h)))
      ]

  pub collect_total :
      (f : A → Option (List B)) (xs : List A)
      → ((a : A) → Memᴰ a xs → f a ≢ none)
      → (ys : List B) × (collect f xs ≡ some ys)
  collect_total f [] h = ([], refl)
  collect_total f (x ∷ xs) h = elim (Option-cases (f x)) [
    | inl bad ↦ absurd (h x (Memᴰ.head refl) bad)
    | inr (here, p) ↦
        let (later, q) = collect_total f xs (λ a m. h a (Memᴰ.tail m)) in (here ++ later, rw (p, q))
  ]
