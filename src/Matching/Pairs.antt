-- ===== src/Matching/Pairs.antt =====
-- A consumer and a producer that a resolver relates: two parsed specs of the input with the roles
-- for it, different from one another and of different repositories.
use logiclens.Shared.{
  String, true, false, Option, List, [], Memᴰ, ◌≡◌, ◌≢◌, ◌↔◌, inl, inr, str_eq, eq_iff,
  if◌then◌else◌, Bool-cases, mem-unless,
}
use logiclens.Nodes.{ContractSpecNode, SpecKind}
use logiclens.Specs.{Parsed}
use logiclens.Specs.Parsing.{IsRead}
use logiclens.Matching.Roles.{SpecRoleMap, produces, consumes}

-- if (a.id === b.id) continue; if (a.repoId === b.repoId) continue;
abbrev pub across {ℓ} : {A : Type ℓ} → ContractSpecNode → ContractSpecNode → List A → List A
across a b es = if str_eq a.id b.id then [] else if str_eq a.repo_id b.repo_id then [] else es

-- Two different specs of different repositories.
pub record IsAcross (a b : ContractSpecNode) : Type 0 where
  pub ids : a.id ≢ b.id
  pub repos : a.repo_id ≢ b.repo_id

pub ne_of_str_eq : (s t : String) → str_eq s t ≡ false → s ≢ t
ne_of_str_eq s t h e = let same : str_eq s t ≡ true = (eq_iff s t).1 e in cc

pub str_eq_of_ne : (s t : String) → s ≢ t → str_eq s t ≡ false
str_eq_of_ne s t h = elim (Bool-cases (str_eq s t)) [
  | inl same ↦ absurd (h ((eq_iff s t).0 same))
  | inr other ↦ other
]

pub mem-across {ℓ} :
    {A : Type ℓ} (a b : ContractSpecNode) (es : List A) {d : A}
    → Memᴰ d (across a b es) ↔ (IsAcross a b × Memᴰ d es)
mem-across a b es = (
  λ m.
      let (i, m') = (mem-unless _ _).0 m in
      let (r, m'') = (mem-unless _ _).0 m' in
      (record { ids = ne_of_str_eq _ _ i; repos = ne_of_str_eq _ _ r }, m''),
  λ (h, m).
      (mem-unless _ _).1 (str_eq_of_ne _ _ h.ids, (mem-unless _ _).1 (str_eq_of_ne _ _ h.repos, m)),
)

module _ {S : Type 0} (parse : String → Option S) (kind : SpecKind) (roles : SpecRoleMap)
    (specs : List ContractSpecNode) where
  pub record IsConsumer (c : Parsed S) : Type 0 where
    pub listed : Memᴰ c.node specs
    pub role : consumes kind roles c.node ≡ true
    pub read : IsRead parse c

  pub record IsProducer (p : Parsed S) : Type 0 where
    pub listed : Memᴰ p.node specs
    pub role : produces kind roles p.node ≡ true
    pub read : IsRead parse p
