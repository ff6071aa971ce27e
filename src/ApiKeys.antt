-- ===== src/ApiKeys.antt =====
-- src/api-keys: the API keys, of which only a salted hash is stored, in a table and in the Redis
-- hash that the guard of API keys reads. What `randomBytes`, `randomUUID` and the clock give is an
-- argument.
pub mod Agreement
pub mod Admission
pub mod Admin
use Prim.Native.String as txt
use text.Mathlib.Text.{starts_with}
use whiz_gateway.Base.{
  ℕ, String, Bool, true, false, not, ◌&&◌, Option, none, some, List, [], ◌∷◌, ◌==◌, ◌≡◌, ◌↔◌, ◌⊎◌,
  ◌≢◌, In, eqb, length, if◌then◌else◌,
}
use whiz_gateway.Effects.{Result, ok, err, Erro, http}
use whiz_gateway.Table.{Table}
use whiz_gateway.Webhook.Guard.{Header, one, timing_safe_equal}

-- A row of the table.
pub record ApiKey : Type 0 where
  pub uid : String
  pub name : String
  pub key : String
  pub salt : String
  pub data_ms : ℕ
  pub del : Bool

-- RedisHashEntry
pub record Entry : Type 0 where
  pub hashed_key : String
  pub salt : String
  pub name : String

-- One hash of Redis: its fields and values, and what a write and a removal do to them.
pub record Hash (H : Type 0) : Type 0 where
  pub entries : H → List (String × String)
  pub hset : H → String → String → H
  pub hdel : H → String → H
  pub entries-hset :
      (h : H) (k v j w : String)
      → In (j, w) (entries (hset h k v)) ↔ (((j ≡ k) × (w ≡ v)) ⊎ ((j ≢ k) × In (j, w) (entries h)))
  pub entries-hdel :
      (h : H) (k j w : String) → In (j, w) (entries (hdel h k)) ↔ ((j ≢ k) × In (j, w) (entries h))

-- The table, Redis, JavaScript's JSON, `Buffer.from` and SHA-256 in hexadecimal.
pub record Services (Db H : Type 0) : Type 0 where
  pub table : Table String ApiKey Db
  pub hash : Hash H
  -- what Redis answers to a write or a removal of a field: an error leaves the hash as it is
  pub answers : H → String → Result (Unit {0})
  pub stringify : Entry → String
  pub parse : String → Result Entry
  pub utf8 : String → List ℕ
  pub sha256_hex : String → String

pub record State (Db H : Type 0) : Type 0 where
  pub db : Db
  pub cache : H

abbrev pub entry_of : ApiKey → Entry
entry_of k = record { hashed_key = k.key; salt = k.salt; name = k.name }

module _ {Db H : Type 0} (env : Services Db H) where
  abbrev pub S : Type 0
  S = State Db H

  abbrev pub hset : H → ApiKey → H
  hset h k = env.hash.hset h k.uid (env.stringify (entry_of k))

  unfoldable pub repo_find_all : Db → List ApiKey
  repo_find_all db = env.table.find_many db (λ k. not k.del)

  unfoldable pub repo_find_by_id : Db → String → Option ApiKey
  repo_find_by_id db uid = env.table.find_first db (λ k. k.uid == uid && not k.del)

  -- `for (const k of keys)` of `onModuleInit`
  abbrev pub hset_next : H → Result (Unit {0}) → Result (Unit {0}) × H → Result (Unit {0}) × H
  hset_next h (err e) rest = (err e, h)
  hset_next h (ok _) rest = rest

  unfoldable pub hset_all : H → List ApiKey → Result (Unit {0}) × H
  hset_all h [] = (ok tt, h)
  hset_all h (k ∷ ks) = hset_next h (env.answers h k.uid) (hset_all (hset h k) ks)

  -- the end of an operation after its command of Redis
  abbrev pub at_cache : {A : Type 0} → A → Db → H → H → Result (Unit {0}) → Result A × S
  at_cache a db before after (err e) = (err e, record { db = db; cache = before })
  at_cache a db before after (ok _) = (ok a, record { db = db; cache = after })

  unfoldable pub on_module_init : S → Result (Unit {0}) × S
  unfolding hset_all repo_find_all
  on_module_init s =
      let (r, h) = hset_all s.cache (repo_find_all s.db) in (r, record s { cache = h })

  abbrev pub new_key : String → String → String → String → ℕ → ApiKey
  new_key uid raw_key salt name now = record {
    uid = uid;
    name = name;
    key = env.sha256_hex (txt.◌++◌ raw_key salt);
    salt = salt;
    data_ms = now;
    del = false;
  }

  abbrev pub created : S → String → Result (ApiKey × Db) → Result (String × ApiKey) × S
  created s raw_key (err e) = (err e, s)
  created s raw_key (ok (k, db)) =
      at_cache (raw_key, k) db s.cache (hset s.cache k) (env.answers s.cache k.uid)

  -- the raw key is given once, beside the row
  unfoldable pub create : S → String → String → String → String → ℕ → Result (String × ApiKey) × S
  create s uid raw_key salt name now =
      created s raw_key (env.table.create s.db (new_key uid raw_key salt name now))

  abbrev pub revoked : S → String → Result (ApiKey × Db) → Result (Unit {0}) × S
  revoked s uid (err e) = (err e, s)
  revoked s uid (ok (_, db)) =
      at_cache tt db s.cache (env.hash.hdel s.cache uid) (env.answers s.cache uid)

  abbrev pub revoke_found : S → String → Option ApiKey → Result (Unit {0}) × S
  revoke_found s uid none = (err (http 404), s)
  revoke_found s uid (some _) =
      revoked s uid (env.table.update s.db uid (λ k. record k { del = true }))

  unfoldable pub revoke : S → String → Result (Unit {0}) × S
  unfolding repo_find_by_id
  revoke s uid = revoke_found s uid (repo_find_by_id s.db uid)

  abbrev pub equal_bytes : String → String → Bool
  equal_bytes x y =
      eqb (length (env.utf8 x)) (length (env.utf8 y)) && timing_safe_equal (env.utf8 x) (env.utf8 y)

  abbrev pub fits : String → Entry → Bool
  fits raw_key e = equal_bytes (env.sha256_hex (txt.◌++◌ raw_key e.salt)) e.hashed_key

  -- the body of the loop; what is no JSON throws
  abbrev pub com_entry : String → Result Entry → Result Bool → Result Bool
  com_entry raw_key (err e) next = err e
  com_entry raw_key (ok entry) next = if fits raw_key entry then ok true else next

  -- `for (const value of Object.values(entries))`
  unfoldable pub percorrer : String → List (String × String) → Result Bool
  unfolding timing_safe_equal
  percorrer raw_key [] = err (http 401)
  percorrer raw_key ((_, value) ∷ rest) =
      com_entry raw_key (env.parse value) (percorrer raw_key rest)

  -- ApiKeyGuard.canActivate
  unfoldable pub api_key_guard : H → Header → Result Bool
  unfolding percorrer
  api_key_guard h (one raw_key) =
      if raw_key == "" then err (http 401) else percorrer raw_key (env.hash.entries h)
  api_key_guard h _ = err (http 401)
