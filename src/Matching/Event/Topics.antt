-- ===== src/Matching/Event/Topics.antt =====
-- The filing of event specs by topic.
use mathlib.Core.List.Memᴰ
use logiclens.Shared.{
  String, Bool, true, false, not, Option, some, List, [], ◌∷◌, Memᴰ, ◌≡◌, sym, subst, ap, ◌≢◌, inl,
  inr, arith, str_eq, eq_iff, get_or_else, filter, mem-filter, for_each, push_at, group_by, StrMap,
  if◌then◌else◌, >>=-eq-some, some_inj, Bool-cases, mem-group_by, group_by-mem, with_key,
}
use logiclens.Nodes.{ContractSpecNode}
use logiclens.Specs.{EventSpec}
use logiclens.Matching.Pairs.{ne_of_str_eq, str_eq_of_ne}
use logiclens.Matching.Event.{topic_of, by_topic}

is_named : {b : Bool} → not b ≡ true → b ≡ false
is_named h = ground arith

module _ (parse : String → Option EventSpec) where
  abbrev topic_text : ContractSpecNode → String
  topic_text s = get_or_else (topic_of parse s) ""

  abbrev has_topic : ContractSpecNode → Bool
  has_topic s = not (str_eq (topic_text s) "")

  -- If the filing returns, every spec has a topic, and the map groups those with a topic.
  by_topic_lem :
      (specs : List ContractSpecNode) (m : StrMap (List ContractSpecNode))
      {m' : StrMap (List ContractSpecNode)}
      → by_topic parse specs m ≡ some m'
      → m' ≡ for_each (filter has_topic specs) (λ s. push_at (topic_text s) s) m
  unfolding by_topic
  by_topic_lem [] m e = sym (some_inj e)
  by_topic_lem (s ∷ specs) m {m'} e =
      let (t, known, e') = >>=-eq-some (topic_of parse s) _ e in
      let text : t ≡ topic_text s = sym (ap (λ o. get_or_else o "") known) in
      let e'' =
        subst
          (λ (u : String).
            by_topic parse specs (if str_eq u "" then m else push_at u s m) ≡ some m')
          text e' in
      elim (Bool-cases (str_eq (topic_text s) "")) [
        | inl empty ↦ rw empty (by_topic_lem specs m (rw empty at e''))
        | inr named ↦ rw named (by_topic_lem specs (push_at (topic_text s) s m) (rw named at e''))
      ]

  topic_known :
      (specs : List ContractSpecNode) (m : StrMap (List ContractSpecNode))
      {m' : StrMap (List ContractSpecNode)} {s : ContractSpecNode}
      → by_topic parse specs m ≡ some m'
      → Memᴰ s specs
      → topic_of parse s ≡ some (topic_text s)
  unfolding by_topic
  topic_known [] m e h = absurd (Memᴰ.not-nil h)
  topic_known (r ∷ specs) m {s = s} e h =
      let (t, known, e') = >>=-eq-some (topic_of parse r) _ e in
      elim (Memᴰ.cases_cons h) [
        | inl same ↦ rw same (rw known)
        | inr later ↦ topic_known specs (if str_eq t "" then m else push_at t r m) e' later
      ]

  module _ (specs : List ContractSpecNode) {topics : StrMap (List ContractSpecNode)}
      (filed : by_topic parse specs [] ≡ some topics) where
    -- The specs of an entry of the map have its topic, which is not empty.
    pub mem_of_topic :
        {t : String} {g : List ContractSpecNode} {s : ContractSpecNode}
        → Memᴰ (t, g) topics
        → Memᴰ s g
        → Memᴰ s specs × (topic_of parse s ≡ some t) × (t ≢ "")
    mem_of_topic {t} {g} {s} m n =
        let g_lem =
          mem-group_by topic_text (filter has_topic specs)
            (subst (Memᴰ (t, g)) (by_topic_lem specs [] filed) m) in
        let (l, e) = (mem-filter _ _).0 (subst (Memᴰ s) g_lem n) in
        let (l', named) = (mem-filter _ specs).0 l in
        let same = (eq_iff (topic_text s) t).0 e in
        (
          l',
          rw (← same) (topic_known specs [] filed l'),
          subst (λ u. u ≢ "") same (ne_of_str_eq (topic_text s) "" (is_named named)),
        )

    -- Specs of the same topic share an entry.
    pub topic_entry :
        {t : String}
        → t ≢ ""
        → {s : ContractSpecNode} → Memᴰ s specs
        → topic_of parse s ≡ some t
        → (g : List ContractSpecNode) × Memᴰ (t, g) topics
          × ((r : ContractSpecNode) → Memᴰ r specs → topic_of parse r ≡ some t → Memᴰ r g)
    topic_entry {t} named {s} m e = (
      with_key topic_text named_specs t,
      subst (Memᴰ (t, with_key topic_text named_specs t)) (sym (by_topic_lem specs [] filed)) (
          subst (λ u. Memᴰ (u, with_key topic_text named_specs u) (group_by topic_text named_specs))
            (text_of s e) (group_by-mem topic_text named_specs (placed m e))),
      λ r mr er. (mem-filter _ named_specs).1 (placed mr er, (eq_iff _ _).1 (text_of r er)),
    )
      where
        named_specs : List ContractSpecNode
        named_specs = filter has_topic specs

        text_of : (r : ContractSpecNode) → topic_of parse r ≡ some t → topic_text r ≡ t
        text_of r f = rw f

        placed :
            {r : ContractSpecNode} → Memᴰ r specs → topic_of parse r ≡ some t → Memᴰ r named_specs
        placed mr f =
            let other : str_eq t "" ≡ false = str_eq_of_ne t "" named in
            (mem-filter _ specs).1 (mr, rw (f, other))
