-- ===== src/Tests/Registry.antt =====
-- A parser that is registered for a repository and taken away again.
use logiclens.Shared.{none, some, [], ◌∷◌, ◌≡◌, refl, bucket}
use logiclens.Registry.{LanguageParser, ParserRegistry, register, unregister, resolve}
use logiclens.Registry.Laws.{resolve-register, unregister-register}

abbrev parser : LanguageParser
parser = record {
  identity = 1;
  name = "csharp";
  language = "csharp";
  extensions = ".cs" ∷ [];
  scope_repo_id = some "shop";
}

abbrev registry : ParserRegistry
registry = record {
  language_stacks = ("csharp", record parser { identity = 2; scope_repo_id = none } ∷ []) ∷ [];
  scoped_language_stacks = [];
  extension_stacks = [];
}

resolve-register_example :
    resolve
      (record { language = some "csharp"; relative_path = none; repo_id = some "shop" })
      (register parser registry)
    ≡ some parser
resolve-register_example = resolve-register parser none registry refl

-- The parser without a repository, which nothing has registered.
abbrev other : LanguageParser
other = record parser { identity = 3; scope_repo_id = none }

abbrev empty : ParserRegistry
empty = record { language_stacks = []; scoped_language_stacks = []; extension_stacks = [] }

unregister-register_example :
    (bucket "csharp" (unregister other (register other empty)).language_stacks ≡ [])
    × (bucket "csharp" (unregister other (register other empty)).scoped_language_stacks ≡ [])
unregister-register_example = unregister-register other empty (λ k. refl) (λ k. refl) "csharp"
