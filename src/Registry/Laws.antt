-- ===== src/Registry/Laws.antt =====
-- What registering and unregistering a parser do to what is resolved.
use logiclens.Shared.{
  String, true, false, Option, none, some, List, [], ◌∷◌, ◌++◌, ◌≡◌, refl, ap, ◌∙◌, inl, inr,
  str_eq, eq_iff, eq_refl, truthy, bucket, lookup, lookup-insert, StrMap, if◌then◌else◌, Bool-cases,
  ◌==◌, arith,
}
use logiclens.Registry.{
  LanguageParser, ParserRegistry, without, push_parser, delete, store, remove_parser, top_parser,
  scoped_key, register, unregister, resolve,
}

top-concat :
    (stack : List LanguageParser) (p : LanguageParser) → top_parser (stack ++ p ∷ []) ≡ some p
unfolding top_parser
top-concat [] p = refl
top-concat (q ∷ []) p = refl
top-concat (q ∷ s ∷ stack) p = top-concat (s ∷ stack) p

bucket-push :
    (key : String) (p : LanguageParser) (m : StrMap (List LanguageParser))
    → bucket key (push_parser key p m) ≡ without p (bucket key m) ++ p ∷ []
unfolding push_parser
bucket-push key p m =
    rw (lookup-insert key key (without p (bucket key m) ++ p ∷ []) m, eq_refl key) refl

without-concat :
    (p : LanguageParser) (stack : List LanguageParser)
    → without p (stack ++ p ∷ []) ≡ without p stack
without-concat p [] = ground arith
without-concat p (q ∷ stack) = elim (Bool-cases (q.identity == p.identity)) [
  | inl same ↦ rw same (without-concat p stack)
  | inr other ↦ rw other (ap (λ l. q ∷ l) (without-concat p stack))
]

without_twice :
    (p : LanguageParser) (stack : List LanguageParser)
    → without p (without p stack) ≡ without p stack
without_twice p [] = refl
without_twice p (q ∷ stack) = elim (Bool-cases (q.identity == p.identity)) [
  | inl same ↦ rw same (without_twice p stack)
  | inr other ↦ rw (other, other) (ap (λ l. q ∷ l) (without_twice p stack))
]

lookup-delete :
    (key k : String) (m : StrMap (List LanguageParser))
    → lookup k (delete key m) ≡ (if str_eq key k then none else lookup k m)
lookup-delete key k [] = ground arith
lookup-delete key k ((j, v) ∷ m) =
    ground (arith, eq_iff key k, eq_iff j k, eq_iff j key, lookup-delete key k m)

bucket-store :
    (key k : String) (stack : List LanguageParser) (m : StrMap (List LanguageParser))
    → bucket k (store key stack m) ≡ (if str_eq key k then stack else bucket k m)
bucket-store key k [] m = ground (arith, lookup-delete key k m)
bucket-store key k (p ∷ stack) m = ground (arith, lookup-insert key k (p ∷ stack) m)

bucket-remove-push :
    (key k : String) (p : LanguageParser) (m : StrMap (List LanguageParser))
    → without p (bucket key m) ≡ bucket key m
    → bucket k (remove_parser key p (push_parser key p m)) ≡ bucket k m
unfolding remove_parser push_parser
bucket-remove-push key k p m fresh = elim (Bool-cases (str_eq key k)) [
  | inl same ↦
      rw
        (
          bucket-store key k (without p (bucket key (push_parser key p m))) (push_parser key p m),
          same,
          bucket-push key p m,
          without-concat p (without p (bucket key m)),
        )
        (without_twice p (bucket key m) ∙ fresh ∙ ap (λ j. bucket j m) ((eq_iff key k).0 same))
  | inr other ↦
      rw
        (
          bucket-store key k (without p (bucket key (push_parser key p m))) (push_parser key p m),
          other,
        )
        (bucket-push_other key k p m other)
]
  where
    bucket-push_other :
        (key k : String) (p : LanguageParser) (m : StrMap (List LanguageParser))
        → str_eq key k ≡ false
        → bucket k (push_parser key p m) ≡ bucket k m
    bucket-push_other key k p m other =
        rw (lookup-insert key k (without p (bucket key m) ++ p ∷ []) m, other) refl

-- Of a parser that is in no stack, registering and then unregistering leaves the stack of every
-- language as it was, in and outside of the repositories.
pub unregister-register :
    (p : LanguageParser) (r : ParserRegistry)
    → ((k : String) → without p (bucket k r.language_stacks) ≡ bucket k r.language_stacks)
    → ((k : String)
        → without p (bucket k r.scoped_language_stacks) ≡ bucket k r.scoped_language_stacks)
    → (k : String)
    → (bucket k (unregister p (register p r)).language_stacks ≡ bucket k r.language_stacks)
      × (bucket k (unregister p (register p r)).scoped_language_stacks
          ≡ bucket k r.scoped_language_stacks)
unfolding register unregister
unregister-register p r fresh fresh_scoped k = elim (Bool-cases (truthy p.scope_repo_id)) [
  | inl scoped ↦ rw scoped (
    refl,
    bucket-remove-push (scoped_key p) k p r.scoped_language_stacks (fresh_scoped (scoped_key p)),
  )
  | inr plain ↦
      rw plain (bucket-remove-push p.language k p r.language_stacks (fresh p.language), refl)
]

-- After a parser with a language that is not empty is registered, the language resolves to it:
-- asked for in the parser's repository if it has one, and without a repository else.
pub resolve-register :
    (p : LanguageParser) (path : Option String) (r : ParserRegistry)
    → truthy (some p.language) ≡ true
    → resolve
        (record {
          language = some p.language;
          relative_path = path;
          repo_id = if truthy p.scope_repo_id then p.scope_repo_id else none;
        })
        (register p r)
      ≡ some p
unfolding resolve register
resolve-register p path r named = elim (Bool-cases (truthy p.scope_repo_id)) [
  | inl scoped ↦
      rw (scoped, named, bucket-push (scoped_key p) p r.scoped_language_stacks, top-concat)
        (rw scoped refl)
  | inr plain ↦ rw (plain, named, bucket-push p.language p r.language_stacks, top-concat) refl
]
