-- ===== src/Shared/Loops.antt =====
-- `for (const x of xs) body`, as a recursion on the list that carries the loop's state.
use mathlib.Core.Path.{◌≡◌, refl, subst}
use mathlib.Core.Logic.{inl, inr}
use mathlib.Core.List.{List, [], ◌∷◌, ◌++◌, Memᴰ}
use mathlib.Core.List.Memᴰ

module _ {ℓ κ} {A : Type ℓ} {S : Type κ} where
  abbrev pub for_each : List A → (A → S → S) → S → S
  for_each [] body s = s
  for_each (x ∷ xs) body s = for_each xs body (body x s)

  pub for_each-append :
      (xs ys : List A) (body : A → S → S) (s : S)
      → for_each (xs ++ ys) body s ≡ for_each ys body (for_each xs body s)
  for_each-append [] ys body s = refl
  for_each-append (x ∷ xs) ys body s = for_each-append xs ys body (body x s)

  -- What every round keeps holds at the end.
  pub for_each_keeps {μ} :
      (P : S → Type μ) (xs : List A) (body : A → S → S)
      → ((x : A) (s : S) → Memᴰ x xs → P s → P (body x s))
      → (s : S) → P s
      → P (for_each xs body s)
  for_each_keeps P [] body keep s h = h
  for_each_keeps P (x ∷ xs) body keep s h =
      for_each_keeps P xs body (λ y t m. keep y t (Memᴰ.tail m)) (body x s)
        (keep x s (Memᴰ.head refl) h)

  -- What one round establishes, and every round keeps, holds at the end.
  pub for_each_reaches {μ} :
      (P : S → Type μ) (xs : List A) (body : A → S → S) {a : A}
      → Memᴰ a xs
      → ((s : S) → P (body a s))
      → ((x : A) (s : S) → P s → P (body x s))
      → (s : S) → P (for_each xs body s)
  for_each_reaches P [] body m sets keep s = absurd (Memᴰ.not-nil m)
  for_each_reaches P (x ∷ xs) body m sets keep s = elim (Memᴰ.cases_cons m) [
    | inl e ↦
        for_each_keeps P xs body (λ y t _. keep y t) (body x s)
          (subst (λ b. P (body b s)) e (sets s))
    | inr later ↦ for_each_reaches P xs body later sets keep (body x s)
  ]

  -- The same, where the rounds are known to be of the list.
  pub for_each_settles {μ} :
      (P : S → Type μ) (xs : List A) (body : A → S → S) {a : A}
      → Memᴰ a xs
      → ((s : S) → P (body a s))
      → ((x : A) (s : S) → Memᴰ x xs → P s → P (body x s))
      → (s : S) → P (for_each xs body s)
  for_each_settles P [] body m sets keep s = absurd (Memᴰ.not-nil m)
  for_each_settles P (x ∷ xs) body m sets keep s = elim (Memᴰ.cases_cons m) [
    | inl e ↦
        for_each_keeps P xs body (λ y t n. keep y t (Memᴰ.tail n)) (body x s)
          (subst (λ b. P (body b s)) e (sets s))
    | inr later ↦ for_each_settles P xs body later sets (λ y t n. keep y t (Memᴰ.tail n)) (body x s)
  ]

  pub for_each_idle : (xs : List A) (s : S) → for_each xs (λ x t. t) s ≡ s
  for_each_idle [] s = refl
  for_each_idle (x ∷ xs) s = for_each_idle xs s
