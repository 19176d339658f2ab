-- ===== src/Shared/Maps.antt =====
-- `Map<string, V>`: the entries in the order of their first insertion.
use Prim.Native.String.{String}
use mathlib.Core.Path.{◌≡◌, refl, sym}
use mathlib.Core.Logic.{inl, inr}
use mathlib.Core.Option.{Option, none, some}
use mathlib.Core.List.{List, [], ◌∷◌, ◌++◌, append-nil, append_assoc}
use native.Mathlib.Omega.{arith}
use text.Mathlib.Text.{◌==◌ as str_eq}
use text.Mathlib.TextEquality.{eq_iff}
use logiclens.Shared.Tests.{if◌then◌else◌, get_or_else, Bool-cases}
use logiclens.Shared.Lists.{filter}
use logiclens.Shared.Loops.{for_each}

abbrev pub StrMap {ℓ} : Type ℓ → Type ℓ
StrMap V = List (String × V)

module _ {ℓ} {V : Type ℓ} where
  -- m.get(k)
  abbrev pub lookup : String → StrMap V → Option V
  lookup k [] = none
  lookup k ((j, v) ∷ m) = if str_eq j k then some v else lookup k m

  -- m.set(k, v): a key that is there keeps its place
  abbrev pub insert : String → V → StrMap V → StrMap V
  insert k v [] = (k, v) ∷ []
  insert k v ((j, w) ∷ m) = if str_eq j k then (j, v) ∷ m else (j, w) ∷ insert k v m

  pub lookup-insert :
      (k j : String) (v : V) (m : StrMap V)
      → lookup j (insert k v m) ≡ (if str_eq k j then some v else lookup j m)
  lookup-insert k j v [] = refl
  lookup-insert k j v ((i, w) ∷ m) =
      ground (arith, eq_iff k j, eq_iff i k, eq_iff i j, lookup-insert k j v m)

module _ {ℓ} {V : Type ℓ} where
  -- m.get(k) ?? [] of a map of arrays
  abbrev pub bucket : String → StrMap (List V) → List V
  bucket k m = get_or_else (lookup k m) []

  -- appends to the array at a key, which is made where it is missing
  abbrev pub push_at : String → V → StrMap (List V) → StrMap (List V)
  push_at k v m = insert k (bucket k m ++ v ∷ []) m

  -- the loop that files each element of an array under its key
  abbrev pub group_by : (V → String) → List V → StrMap (List V)
  group_by key xs = for_each xs (λ x. push_at (key x) x) []

  pub bucket-push_at :
      (k j : String) (v : V) (m : StrMap (List V))
      → bucket j (push_at k v m) ≡ (if str_eq k j then bucket j m ++ v ∷ [] else bucket j m)
  bucket-push_at k j v m = ground (arith, lookup-insert k j (bucket k m ++ v ∷ []) m, eq_iff k j)

  bucket-for_each :
      (key : V → String) (k : String) (xs : List V) (m : StrMap (List V))
      → bucket k (for_each xs (λ x. push_at (key x) x) m)
        ≡ bucket k m ++ filter (λ x. str_eq (key x) k) xs
  bucket-for_each key k [] m = sym (append-nil _)
  bucket-for_each key k (x ∷ xs) m = elim (Bool-cases (str_eq (key x) k)) [
    | inl same ↦ rw (bucket-for_each key k xs, bucket-push_at, same, append_assoc)
    | inr other ↦ rw (bucket-for_each key k xs, bucket-push_at, other)
  ]

  -- The array at a key holds the elements with that key, in their order.
  pub bucket-group_by :
      (key : V → String) (k : String) (xs : List V)
      → bucket k (group_by key xs) ≡ filter (λ x. str_eq (key x) k) xs
  bucket-group_by key k xs = bucket-for_each key k xs []
