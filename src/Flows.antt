-- ===== src/Flows.antt =====
-- src/wpp-flow-callbacks: the URL to which the data endpoint of a flow is forwarded, a service over a
-- Prisma repository and a Redis cache that may be out of reach. The identifier and the instant of a
-- new row are arguments.
pub mod Cached
pub mod Endpoint
pub mod Sealed
pub mod Signed
pub mod Answers
use Prim.Native.String as txt
use whiz_gateway.Base.{ℕ, String, Bool, true, false, not, Option, none, some, List, if◌then◌else◌}
use whiz_gateway.Effects.{Result, ok, err, http, outro}
use whiz_gateway.Table.{Table, Redis}

-- FlowCallbackEntity
pub record FlowCallback : Type 0 where
  pub uid : String
  pub url : String
  pub data_ms : ℕ
  pub del : Bool

-- The table, Redis, and whether a command of Redis throws.
pub record Services (Db C : Type 0) : Type 0 where
  pub table : Table String FlowCallback Db
  pub redis : Redis C
  pub down : C → Bool

pub record State (Db C : Type 0) : Type 0 where
  pub db : Db
  pub cache : C

unfoldable pub cache_key : String → String
cache_key uid = txt.◌++◌ "flow_cb:" uid

abbrev pub if_active : Option FlowCallback → Option FlowCallback
if_active none = none
if_active (some r) = if r.del then none else some r

abbrev pub url_of : Option FlowCallback → Option String
url_of none = none
url_of (some r) = some r.url

abbrev pub new_row : String → ℕ → String → FlowCallback
new_row uid agora url = record { uid = uid; url = url; data_ms = agora; del = false }

abbrev pub with_url : String → FlowCallback → FlowCallback
with_url url r = record r { url = url }

abbrev pub removed : FlowCallback → FlowCallback
removed r = record r { del = true }

module _ {Db C : Type 0} (env : Services Db C) where
  abbrev pub S : Type 0
  S = State Db C

  abbrev pub redis_error : {A : Type 0} → Result A
  redis_error = err (outro "Redis")

  unfoldable pub find_all : Db → List FlowCallback
  find_all db = env.table.find_many db (λ r. not r.del)

  abbrev pub stored : S → Result (FlowCallback × Db) → Result FlowCallback × S
  stored s (err e) = (err e, s)
  stored s (ok (r, db)) = (ok r, record s { db = db })

  unfoldable pub create : S → String → ℕ → String → Result FlowCallback × S
  create s uid agora url = stored s (env.table.create s.db (new_row uid agora url))

  abbrev pub or_absent : Option FlowCallback → Result FlowCallback
  or_absent none = err (http 404)
  or_absent (some r) = ok r

  unfoldable pub find_one : S → String → Result FlowCallback
  find_one s uid = or_absent (if_active (env.table.find_unique s.db uid))

  -- `redis.del`, after the table was written
  abbrev pub forget : S → String → FlowCallback → Bool → Result FlowCallback × S
  forget s uid r true = (redis_error, s)
  forget s uid r false = (ok r, record s { cache = env.redis.del s.cache (cache_key uid) })

  abbrev pub written : S → String → Result (FlowCallback × Db) → Result FlowCallback × S
  written s uid (err e) = (err e, s)
  written s uid (ok (r, db)) = forget (record s { db = db }) uid r (env.down s.cache)

  abbrev pub change_found :
      S → String → (FlowCallback → FlowCallback) → Option FlowCallback → Result FlowCallback × S
  change_found s uid f none = (err (http 404), s)
  change_found s uid f (some _) = written s uid (env.table.update s.db uid f)

  unfoldable pub update : S → String → String → Result FlowCallback × S
  update s uid url = change_found s uid (with_url url) (if_active (env.table.find_unique s.db uid))

  unfoldable pub remove : S → String → Result FlowCallback × S
  remove s uid = change_found s uid removed (if_active (env.table.find_unique s.db uid))

  -- What the cache has; an error is logged, and is as nothing cached.
  abbrev pub cached : S → String → Option String
  cached s uid = if env.down s.cache then none else env.redis.get s.cache (cache_key uid)

  -- The cache is filled; an error is logged.
  abbrev pub fill : S → String → String → S
  fill s uid url =
      if env.down s.cache then s else record s { cache = env.redis.set s.cache (cache_key uid) url }

  abbrev pub from_table : S → String → Option FlowCallback → Option String × S
  from_table s uid none = (none, s)
  from_table s uid (some r) = (some r.url, fill s uid r.url)

  abbrev pub or_table : S → String → Option String → Option String × S
  or_table s uid (some url) = (some url, s)
  or_table s uid none = from_table s uid (if_active (env.table.find_unique s.db uid))

  unfoldable pub get_url : S → String → Option String × S
  unfolding cache_key
  get_url s uid = or_table s uid (cached s uid)
