-- ===== src/Specs/Parsing.antt =====
-- What a list of parsed nodes says of the nodes that were read.
use mathlib.Core.List.Memᴰ
use logiclens.Shared.{
  String, Option, none, some, List, [], ◌∷◌, ◌≡◌, refl, ◌≢◌, >>=-eq-some, Memᴰ, inl, inr, All,
  Option-cases, some_inj, subst, sym, ◌∙◌,
}
use logiclens.Nodes.{ContractSpecNode}
use logiclens.Specs.{Parsed, parse_all}

module _ {S : Type 0} (parse : String → Option S) where
  -- What a parsed node holds is what its text reads as.
  abbrev pub IsRead : Parsed S → Type 0
  IsRead p = parse p.node.spec_json ≡ some p.spec

  pub parse_all_sound :
      (specs : List ContractSpecNode) {ps : List (Parsed S)} {p : Parsed S}
      → parse_all parse specs ≡ some ps
      → Memᴰ p ps
      → Memᴰ p.node specs × IsRead p
  unfolding parse_all
  parse_all_sound [] {ps} {p} e m = absurd (Memᴰ.not-nil (subst (Memᴰ p) (sym (some_inj e)) m))
  parse_all_sound (s ∷ specs) {p = p} e m =
      let (spec, read, e') = >>=-eq-some (parse s.spec_json) _ e in
      let (rest, later, e'') = >>=-eq-some (parse_all parse specs) _ e' in
      elim (Memᴰ.cases_cons (subst (Memᴰ p) (sym (some_inj e'')) m)) [
        | inl same ↦ rw same (Memᴰ.head refl, read)
        | inr t ↦ let (listed, r) = parse_all_sound specs later t in (Memᴰ.tail listed, r)
      ]

  same_parsed :
      {p : Parsed S} {s : ContractSpecNode} {spec : S}
      → p.node ≡ s
      → p.spec ≡ spec
      → p ≡ record { node = s; spec = spec }
  same_parsed e f = λ i. record { node = e i; spec = f i }

  pub parse_all_complete :
      (specs : List ContractSpecNode) {ps : List (Parsed S)} {p : Parsed S}
      → parse_all parse specs ≡ some ps
      → Memᴰ p.node specs
      → IsRead p
      → Memᴰ p ps
  unfolding parse_all
  parse_all_complete [] e m r = absurd (Memᴰ.not-nil m)
  parse_all_complete (s ∷ specs) {ps} {p} e m r =
      let (spec, read, e') = >>=-eq-some (parse s.spec_json) _ e in
      let (rest, later, e'') = >>=-eq-some (parse_all parse specs) _ e' in
      subst (Memᴰ p) (some_inj e'') (elim (Memᴰ.cases_cons m) [
        | inl same ↦ Memᴰ.head (same_parsed same (some_inj (sym r ∙ rw same read)))
        | inr t ↦ Memᴰ.tail (parse_all_complete specs later t r)
      ])

  pub parse_all_total :
      (specs : List ContractSpecNode)
      → All (λ s. parse s.spec_json ≢ none) specs
      → (ps : List (Parsed S)) × (parse_all parse specs ≡ some ps)
  unfolding parse_all
  parse_all_total [] h = ([], refl)
  parse_all_total (s ∷ specs) (here, h) = elim (Option-cases (parse s.spec_json)) [
    | inl bad ↦ absurd (here bad)
    | inr (spec, read) ↦
        let (rest, later) = parse_all_total specs h in
        (record { node = s; spec = spec } ∷ rest, rw (read, later))
  ]
