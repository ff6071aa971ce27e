-- ===== src/Ambiente.antt =====
-- src/ambiente: the registry of environments, a Prisma repository behind a Redis cache that the
-- dispatch reads.
pub mod Coherence
pub mod Transparent
use whiz_gateway.Base.{
  ℕ, String, ◌++◌, Bool, false, true, not, ◌&&◌, Option, none, some, List, [], ◌∷◌, eqb,
  if◌then◌else◌,
}
use whiz_gateway.Json.{non_empty}
use whiz_gateway.Effects.{Result, ok, err, Erro, http}
use whiz_gateway.Records.{Ambiente}
use whiz_gateway.Table.{Table, Redis}

-- The body of PATCH: absent fields are left as they are.
pub record UpdateAmbiente : Type 0 where
  pub nome : Option String
  pub url : Option String

-- What the service and the repository use from outside: the table, Redis, JavaScript's JSON.
pub record Services (Db C : Type 0) : Type 0 where
  pub table : Table ℕ Ambiente Db
  pub redis : Redis C
  pub cache_key : ℕ → String
  pub stringify : Ambiente → String
  pub parse : String → Result Ambiente

-- The state: the table and the cache.
pub record State (Db C : Type 0) : Type 0 where
  pub db : Db
  pub cache : C

abbrev pub or_old : Option String → String → String
or_old none old = old
or_old (some new) old = new

module _ {Db C : Type 0} (env : Services Db C) where
  abbrev pub S : Type 0
  S = State Db C

  -- AmbientePrismaRepository
  pub repo_find_all : Db → List Ambiente
  repo_find_all db = env.table.find_many db (λ a. not a.del)

  abbrev pub active : Option Ambiente → Option Ambiente
  active none = none
  active (some a) = if a.del then none else some a

  -- `findUnique({ where: { id, del: false } })`
  pub repo_find_by_id : Db → ℕ → Option Ambiente
  repo_find_by_id db id = active (env.table.find_unique db id)

  pub repo_create : Db → ℕ → String → String → Result (Ambiente × Db)
  repo_create db id nome url =
      env.table.create db (record { id = id; nome = nome; url = url; del = false })

  pub repo_update : Db → ℕ → UpdateAmbiente → Result (Ambiente × Db)
  repo_update db id dto =
      env.table.update db id
        (λ a. record a { nome = or_old dto.nome a.nome; url = or_old dto.url a.url })

  pub repo_soft_delete : Db → ℕ → Result (Ambiente × Db)
  repo_soft_delete db id = env.table.update db id (λ a. record a { del = true })

  pub put : C → Ambiente → C
  put cache a = env.redis.set cache (env.cache_key a.id) (env.stringify a)

  -- `onModuleInit`: the warm-up of the cache
  pub put_all : C → List Ambiente → C
  unfolding put
  put_all cache [] = cache
  put_all cache (a ∷ as') = put_all (put cache a) as'

  pub on_module_init : S → S
  unfolding put_all repo_find_all
  on_module_init s = record s { cache = put_all s.cache (repo_find_all s.db) }

  pub find_by_id : S → ℕ → Result Ambiente
  unfolding repo_find_by_id
  find_by_id s id = elim (repo_find_by_id s.db id) [ none ↦ err (http 404) | some a ↦ ok a ]

  abbrev pub store : S → Result (Ambiente × Db) → Result Ambiente × S
  store s (err e) = (err e, s)
  store s (ok (a, db)) = (ok a, record { db = db; cache = put s.cache a })

  pub create : S → ℕ → String → String → Result Ambiente × S
  unfolding repo_find_by_id repo_create
  create s id nome url = elim (repo_find_by_id s.db id) [
    | some _ ↦ (err (http 409), s)
    | none ↦ store s (repo_create s.db id nome url)
  ]

  pub update : S → ℕ → UpdateAmbiente → Result Ambiente × S
  unfolding find_by_id repo_update
  update s id dto = elim (find_by_id s id) [
    | err e ↦ (err e, s)
    | ok _ ↦ store s (repo_update s.db id dto)
  ]

  abbrev pub forget : S → ℕ → Result (Ambiente × Db) → Result (Unit {0}) × S
  forget s id (err e) = (err e, s)
  forget s id (ok (_, db)) =
      (ok tt, record { db = db; cache = env.redis.del s.cache (env.cache_key id) })

  pub soft_delete : S → ℕ → Result (Unit {0}) × S
  unfolding find_by_id repo_soft_delete
  soft_delete s id = elim (find_by_id s id) [
    | err e ↦ (err e, s)
    | ok _ ↦ forget s id (repo_soft_delete s.db id)
  ]

  abbrev pub read_through : S → Option Ambiente → Result (Option Ambiente) × S
  read_through s none = (ok none, s)
  read_through s (some a) = (ok (some a), record s { cache = put s.cache a })

  abbrev pub parsed : Result Ambiente → Result (Option Ambiente)
  parsed (ok a) = ok (some a)
  parsed (err e) = err e

  abbrev pub cached_text : Option String → Option String
  cached_text none = none
  cached_text (some v) = non_empty v

  pub get_ambiente_from : S → Option Ambiente → Option String → Result (Option Ambiente) × S
  unfolding put
  get_ambiente_from s found none = read_through s found
  get_ambiente_from s found (some v) = (parsed (env.parse v), s)

  -- `getAmbiente` of the dispatch and of the Instagram forwarder, over this state
  pub get_ambiente : S → ℕ → Result (Option Ambiente) × S
  unfolding repo_find_by_id get_ambiente_from
  get_ambiente s id =
      get_ambiente_from s (repo_find_by_id s.db id)
        (cached_text (env.redis.get s.cache (env.cache_key id)))
