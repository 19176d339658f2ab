-- ===== src/Matching/Schema/Lookup.antt =====
-- Which schema a name is resolved to (lookupSchemaId over the index of buildSchemaIndex): of the
-- schemas with the name in any case, one with the exact name goes first, then one of the same
-- repository, and the choice has to be unique.
use mathlib.Core.List.Memᴰ
use logiclens.Shared.{
  String, Bool, true, false, Option, none, some, List, [], ◌∷◌, Memᴰ, ◌≡◌, ◌≢◌, refl, sym, ◌∙◌, ◌↔◌,
  inl, inr, Bool-cases, Option-cases, some_inj, >>=-eq-some, ◌>>=◌, is_empty, filter, mem-filter,
  bucket, bucket-index_by, at_key, holds_key_iff, map-id, filter-IsDistinct, prefer, mem-prefer,
  prefer-IsDistinct, the_only, the_only_sound, the_only_complete, IsDistinct, str_eq, if◌then◌else◌,
}
use logiclens.Nodes.{ContractSpecNode, schema, same_kind, same_kind_iff}
use logiclens.Specs.{Services}
use logiclens.Matching.Schema.{
  filled, schema_name, schema_key, build_schema_index, has_name, is_near, lookup_schema_id,
}

pub filled_iff :
    (o : Option String) (s : String) → (filled o ≡ some s) ↔ ((o ≡ some s) × (str_eq s "" ≡ false))
filled_iff none s = ((λ h. cc), λ (h, _). cc)
filled_iff (some t) s = elim (Bool-cases (str_eq t "")) [
  | inl blank ↦
      rw blank
        (λ h. cc, λ (e, full). let blank' : str_eq s "" ≡ true = rw (← some_inj e) blank in cc)
  | inr full ↦ rw full (λ h. (h, rw (← some_inj h) full), λ (h, _). h)
]

module _ (services : Services) (specs : List ContractSpecNode) where
  -- A schema of the input whose payload parses, with a name that is `name` up to case.
  pub record IsNamed (name : String) (s : ContractSpecNode) : Type 0 where
    pub listed : Memᴰ s specs
    pub kind : s.spec_kind ≡ schema
    pub own : String
    pub read : schema_name services s ≡ some own
    pub full : str_eq own "" ≡ false
    pub same : services.lowercase own ≡ services.lowercase name

  -- The schema that `name` is resolved to from a spec.
  pub record IsChosen (name : String) (from : Option ContractSpecNode) (s : ContractSpecNode)
      : Type 0 where
    pub named : IsNamed name s
    pub exact_first :
        (t : ContractSpecNode)
        → IsNamed name t
        → has_name services name t ≡ true
        → has_name services name s ≡ true
    pub near_first :
        (t : ContractSpecNode)
        → IsNamed name t
        → has_name services name t ≡ has_name services name s
        → is_near services from t ≡ true
        → is_near services from s ≡ true
    pub alone :
        (t : ContractSpecNode)
        → IsNamed name t
        → has_name services name t ≡ has_name services name s
        → is_near services from t ≡ is_near services from s
        → t ≡ s

  -- A schema that no other goes before, where others may go with it.
  pub record IsBest (name : String) (from : Option ContractSpecNode) (s : ContractSpecNode)
      : Type 0 where
    pub named : IsNamed name s
    pub exact_first :
        (t : ContractSpecNode)
        → IsNamed name t
        → has_name services name t ≡ true
        → has_name services name s ≡ true
    pub near_first :
        (t : ContractSpecNode)
        → IsNamed name t
        → has_name services name t ≡ has_name services name s
        → is_near services from t ≡ true
        → is_near services from s ≡ true

  module _ (name : String) where
    abbrev candidates : List ContractSpecNode
    candidates = filter (at_key (schema_key services) (λ s. s) (services.lowercase name)) specs

    bucket-candidates :
        bucket (services.lowercase name) (build_schema_index services specs) ≡ candidates
    unfolding build_schema_index
    bucket-candidates =
        bucket-index_by (schema_key services) (λ s. s) (services.lowercase name) specs
        ∙ map-id candidates

    schema_key_iff :
        (s : ContractSpecNode) (k : String)
        → (schema_key services s ≡ some k) ↔ (
            (s.spec_kind ≡ schema)
            × ((own : String) × (schema_name services s ≡ some own)
                × (str_eq own "" ≡ false)
                × (services.lowercase own ≡ k)))
    unfolding schema_key
    schema_key_iff s k = elim (Bool-cases (same_kind s.spec_kind schema)) [
      | inl is_schema ↦ rw is_schema (
        λ h.
            let (own, e, f) = >>=-eq-some (filled (schema_name services s)) _ h in
            let (read, full) = (filled_iff _ _).0 e in
            ((same_kind_iff _ _).0 is_schema, (own, read, full, some_inj f)),
        λ (_, (own, read, full, same)).
            let e : filled (schema_name services s) ≡ some own = (filled_iff _ _).1 (read, full) in
            rw e (λ i. some (same i)),
      )
      | inr other ↦
          rw other (λ h. cc, λ (is_schema, _). let yes = (same_kind_iff _ _).1 is_schema in cc)
    ]

    mem-candidates : (s : ContractSpecNode) → Memᴰ s candidates ↔ IsNamed name s
    mem-candidates s = (
      λ m.
          let (listed, h) = (mem-filter _ specs).0 m in
          let (kind, (own, read, full, same)) = (schema_key_iff s _).0 ((holds_key_iff _ _).0 h) in
          record { listed = listed; kind = kind; own = own; read = read; full = full; same = same },
      λ h. (mem-filter _ specs).1 (
        h.listed,
        (holds_key_iff _ _).1 ((schema_key_iff s _).1 (h.kind, (h.own, h.read, h.full, h.same))),
      ),
    )

    exact : List ContractSpecNode
    exact = prefer (has_name services name) candidates

    module _ (from : Option ContractSpecNode) where
      selected : List ContractSpecNode
      unfolding exact
      selected = prefer (is_near services from) exact

      lookup_lem :
          lookup_schema_id services (build_schema_index services specs) name from
          ≡ (if is_empty candidates then none else (do s ← the_only selected; some s.id))
      unfolding lookup_schema_id selected exact
      lookup_lem = rw bucket-candidates refl

      same_test : (a b : Bool) → (a ≡ true → b ≡ true) → (b ≡ true → a ≡ true) → a ≡ b
      same_test true b f g = sym (f refl)
      same_test false true f g = g refl
      same_test false false f g = refl

      -- An element of the pool, and another candidate: it is of the pool too where both agree on
      -- the exact name.
      pool_agrees :
          (s t : ContractSpecNode)
          → Memᴰ s exact
          → Memᴰ t candidates
          → Memᴰ t exact ↔ (has_name services name t ≡ has_name services name s)
      unfolding exact
      pool_agrees s t ms mt =
          let (cs, hs) = (mem-prefer (has_name services name) candidates).0 ms in
          (
            λ m.
                let (ct, ht) = (mem-prefer (has_name services name) candidates).0 m in
                same_test _ _ (hs t ct) (ht s cs),
            λ e. (mem-prefer (has_name services name) candidates).1 (mt, λ u mu h. e ∙ hs u mu h),
          )

      in_pool :
          (s t : ContractSpecNode)
          → Memᴰ s exact
          → IsNamed name t
          → has_name services name t ≡ has_name services name s
          → Memᴰ t exact
      in_pool s t me n e = (pool_agrees s t me ((mem-candidates t).1 n)).1 e

      selected-IsChosen :
          (s : ContractSpecNode)
          → Memᴰ s selected
          → ((t : ContractSpecNode) → Memᴰ t selected → t ≡ s)
          → IsChosen name from s
      unfolding exact selected
      selected-IsChosen s m only =
          let (me, near) = (mem-prefer (is_near services from) exact).0 m in
          let (mc, best) = (mem-prefer (has_name services name) candidates).0 me in
          record {
            named = (mem-candidates s).0 mc;
            exact_first = λ t n h. best t ((mem-candidates t).1 n) h;
            near_first = λ t n e h. near t (in_pool s t me n e) h;
            alone = λ t n e f. only t (
                (mem-prefer (is_near services from) exact).1
                  (in_pool s t me n e, λ u mu h. f ∙ near u mu h));
          }

      IsChosen-selected : (s : ContractSpecNode) → IsChosen name from s → Memᴰ s selected
      unfolding exact selected
      IsChosen-selected s h =
          let mc = (mem-candidates s).1 h.named in
          let me : Memᴰ s exact =
            (mem-prefer (has_name services name) candidates).1
              (mc, λ t mt e. h.exact_first t ((mem-candidates t).0 mt) e) in
          (mem-prefer (is_near services from) exact).1 (
            me,
            λ t mt e.
                let ct = ((mem-prefer (has_name services name) candidates).0 mt).0 in
                h.near_first t ((mem-candidates t).0 ct) ((pool_agrees s t me ct).0 mt) e,
          )

      selected_alone : (s t : ContractSpecNode) → IsChosen name from s → Memᴰ t selected → t ≡ s
      unfolding exact selected
      selected_alone s t h mt =
          let (mt', near_t) = (mem-prefer (is_near services from) exact).0 mt in
          let (ms', near_s) =
            (mem-prefer (is_near services from) exact).0 (IsChosen-selected s h) in
          let ct = ((mem-prefer (has_name services name) candidates).0 mt').0 in
          h.alone t ((mem-candidates t).0 ct) ((pool_agrees s t ms' ct).0 mt')
            (same_test _ _ (near_s t mt') (near_t s ms'))

      -- A name is resolved to the id of the one schema that is chosen for it.
      pub lookup_schema_id_sound :
          {i : String}
          → lookup_schema_id services (build_schema_index services specs) name from ≡ some i
          → (s : ContractSpecNode) × IsChosen name from s × (s.id ≡ i)
      lookup_schema_id_sound {i} e = elim (Bool-cases (is_empty candidates)) [
        | inl nobody ↦ let gone : none ≡ some i = rw nobody at (sym lookup_lem ∙ e) in cc
        | inr some_one ↦
            let (s, only, same) =
              >>=-eq-some (the_only selected) _ (rw some_one at (sym lookup_lem ∙ e)) in
            let (m, alone) = the_only_sound selected only in
            (s, selected-IsChosen s m alone, some_inj same)
      ]

      -- Where no spec stands twice in the input, the schema that is chosen for a name is what the
      -- name is resolved to.
      pub lookup_schema_id_complete :
          IsDistinct specs
          → (s : ContractSpecNode) → IsChosen name from s
          → lookup_schema_id services (build_schema_index services specs) name from ≡ some s.id
      unfolding exact selected
      lookup_schema_id_complete d s h =
          lookup_lem ∙ rw (some_candidate candidates ((mem-candidates s).1 h.named), found) refl
        where
          some_candidate : (l : List ContractSpecNode) → Memᴰ s l → is_empty l ≡ false
          some_candidate [] m = absurd (Memᴰ.not-nil m)
          some_candidate (x ∷ l) m = refl

          found : the_only selected ≡ some s
          found =
              the_only_complete selected
                (prefer-IsDistinct _ exact
                  (prefer-IsDistinct _ candidates (filter-IsDistinct _ specs d)))
                (IsChosen-selected s h) (λ t m. selected_alone s t h m)

      -- A schema that no other goes before is the one that is chosen, if one is.
      best-IsChosen : (c s : ContractSpecNode) → IsChosen name from c → IsBest name from s → s ≡ c
      best-IsChosen c s h b =
          let exact_same =
            same_test (has_name services name s) (has_name services name c)
              (h.exact_first s b.named) (b.exact_first c h.named) in
          let near_same =
            same_test (is_near services from s) (is_near services from c)
              (h.near_first s b.named exact_same) (b.near_first c h.named (sym exact_same)) in
          h.alone s b.named exact_same near_same

      -- Two different schemas of the name, before neither of which another goes, leave the name
      -- unresolved: a schema with the exact name goes before one that has it in another case, and
      -- of two that agree in this, one of the repository of the spec goes before one of another.
      pub lookup_schema_id-ambiguous :
          (s t : ContractSpecNode)
          → IsBest name from s
          → IsBest name from t
          → s ≢ t
          → lookup_schema_id services (build_schema_index services specs) name from ≡ none
      lookup_schema_id-ambiguous s t best_s best_t apart =
          elim (Option-cases
            (lookup_schema_id services (build_schema_index services specs) name from)) [
              | inl missing ↦ missing
              | inr (i, found) ↦
                  let (c, h, _) = lookup_schema_id_sound found in
                  absurd (apart (best-IsChosen c s h best_s ∙ sym (best-IsChosen c t h best_t)))
            ]
