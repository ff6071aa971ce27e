-- ===== src/Redirections.antt =====
-- src/redirecionamentos-webhooks: URLs to which the webhooks of an environment, or of all, are sent
-- too. The identifier and the instant of a new row are arguments; instants are milliseconds.
pub mod Active
pub mod Sends
use whiz_gateway.Base.{
  ℕ, zero, suc, ◌+◌, ◌-◌, ◌*◌, ◌^◌, String, Bool, true, false, not, ◌&&◌, Option, none, some, List,
  [], ◌∷◌, ◌++◌, map, length, ltb, eqb, any, if◌then◌else◌,
}
use whiz_gateway.Json.{Json, obj, Props}
use whiz_gateway.Effects.{
  Erro, http, Result, ok, err, Post, json, Trace, Exec, posted, waited, pure, emit, ask, call,
  attempt, ◌>>=◌, ◌>>◌,
}
use whiz_gateway.Records.{Inbox}
use whiz_gateway.Table.{Table}
use whiz_gateway.Webhook as hook

pub record Redirection : Type 0 where
  pub uid : String
  pub url : String
  pub data_expiracao : Option ℕ
  pub id_ambiente : Option ℕ
  pub data_ms : ℕ
  pub del : Bool

-- A field of a body: absent, `null` or a value.
pub record CreateRedirection : Type 0 where
  pub url : String
  pub data_expiracao : Option (Option ℕ)
  pub id_ambiente : Option ℕ

pub record UpdateRedirection : Type 0 where
  pub url : Option String
  pub id_ambiente : Option (Option ℕ)
  pub data_expiracao : Option (Option ℕ)

pub record Services (Db : Type 0) : Type 0 where
  pub table : Table String Redirection Db
  -- `orderBy: { data: 'desc' }`
  pub newest_first : List Redirection → List Redirection
  -- the table at the time of a read, and the clock
  pub database : Trace → Result Db
  pub now : Trace → ℕ
  pub find_all_by_pid : Trace → String → Result (List Inbox)
  -- the sends run at once: what is answered to one, by its position, may be anything after each of
  -- its own calls
  pub http_post : ℕ → Trace → Post → Result ℕ
  pub base_ms : ℕ

abbrev pub max_retries : ℕ
max_retries = 5

abbrev pub given {ℓ} : {A : Type ℓ} → Option A → A → A
given none old = old
given (some new) old = new

abbrev pub new_row : String → ℕ → CreateRedirection → Redirection
new_row uid now dto = record {
  uid = uid;
  url = dto.url;
  data_expiracao = given dto.data_expiracao (some (now + 15 * 60 * 1000));
  id_ambiente = dto.id_ambiente;
  data_ms = now;
  del = false;
}

abbrev pub changed : UpdateRedirection → Redirection → Redirection
changed dto r = record r {
  url = given dto.url r.url;
  id_ambiente = given dto.id_ambiente r.id_ambiente;
  data_expiracao = given dto.data_expiracao r.data_expiracao;
}

abbrev pub unexpired : ℕ → Option ℕ → Bool
unexpired now none = true
unexpired now (some until) = ltb now until

abbrev pub for_ambiente : ℕ → Option ℕ → Bool
for_ambiente a none = true
for_ambiente a (some b) = eqb b a

-- the `where` of `findActiveByAmbiente`
abbrev pub is_active : ℕ → ℕ → Redirection → Bool
is_active now a r = not r.del && (unexpired now r.data_expiracao && for_ambiente a r.id_ambiente)

abbrev pub if_active : Option Redirection → Result Redirection
if_active none = err (http 404)
if_active (some r) = if r.del then err (http 404) else ok r

-- `new Set(inboxes.map((i) => i.id_ambiente))`, in the order of insertion
unfoldable pub distintos : List ℕ → List ℕ → List ℕ
distintos seen [] = []
distintos seen (a ∷ as') =
    if any (eqb a) seen then distintos seen as' else a ∷ distintos (a ∷ seen) as'

module _ {Db : Type 0} (env : Services Db) where
  unfoldable pub find_all : Db → List Redirection
  find_all db = env.newest_first (env.table.find_many db (λ r. not r.del))

  unfoldable pub find_active_by_ambiente : Db → ℕ → ℕ → List Redirection
  find_active_by_ambiente db now a = env.table.find_many db (is_active now a)

  abbrev pub stored : Db → Result (Redirection × Db) → Result Redirection × Db
  stored db (err e) = (err e, db)
  stored db (ok (r, db')) = (ok r, db')

  abbrev pub if_found : Db → Result Redirection → Result Redirection × Db → Result Redirection × Db
  if_found db (err e) next = (err e, db)
  if_found db (ok _) next = next

  unfoldable pub create : Db → String → ℕ → CreateRedirection → Result Redirection × Db
  create db uid now dto = stored db (env.table.create db (new_row uid now dto))

  unfoldable pub find_one : Db → String → Result Redirection
  find_one db uid = if_active (env.table.find_unique db uid)

  unfoldable pub update : Db → String → UpdateRedirection → Result Redirection × Db
  unfolding find_one
  update db uid dto =
      if_found db (find_one db uid) (stored db (env.table.update db uid (changed dto)))

  unfoldable pub remove : Db → String → Result Redirection × Db
  unfolding find_one
  remove db uid =
      if_found db (find_one db uid)
        (stored db (env.table.update db uid (λ r. record r { del = true })))

  abbrev pub post_to : String → Props → Post
  post_to url payload = record { url = url; corpo = json (obj payload); headers = [] }

  abbrev pub pausa : ℕ → Exec (Unit {0})
  pausa n = if ltb n max_retries then emit (waited (env.base_ms * 2 ^ (n - 1))) else pure tt

  -- `for (let attempt = n; attempt <= MAX_RETRIES; attempt++)`, by the rounds that are left
  unfoldable pub tentativas : ℕ → String → Props → ℕ → ℕ → Exec (Unit {0})
  tentativas i url payload zero n = pure tt
  tentativas i url payload (suc left) n =
      let rest = tentativas i url payload left (n + 1) in
      do
        r ←
            attempt
              (call (λ t. env.http_post i t (post_to url payload)) (posted (post_to url payload)))
        elim r [ ok _ ↦ pure tt | err _ ↦ (do pausa n; rest) ]

  abbrev pub send_with_retry : ℕ → String → Props → Exec (Unit {0})
  send_with_retry i url payload = tentativas i url payload max_retries 1

  -- the sends of `Promise.all`, which run at once: each with what it comes to and its own trace. The
  -- calls of all stand in any interleaving of these.
  unfoldable pub enviar_todos :
      Props → ℕ → List Redirection → Trace → List (Result (Unit {0}) × Trace)
  unfolding tentativas
  enviar_todos payload i [] t = []
  enviar_todos payload i (r ∷ rs) t =
      send_with_retry i r.url payload t ∷ enviar_todos payload (suc i) rs t

  -- `await Promise.all`: it throws if one of them does.
  abbrev pub aguardar : List (Result (Unit {0}) × Trace) → Result (Unit {0})
  aguardar [] = ok tt
  aguardar ((err e, _) ∷ xs) = err e
  aguardar ((ok _, _) ∷ xs) = aguardar xs

  -- the reads of `Promise.all(ambientes.map(...))`, flattened
  unfoldable pub ativos : List ℕ → Exec (List Redirection)
  unfolding find_active_by_ambiente
  ativos [] = pure []
  ativos (a ∷ as') = do
    db ← ask env.database
    now ← ask (λ t. ok (env.now t))
    rest ← ativos as'
    pure (find_active_by_ambiente db now a ++ rest)

  abbrev pub enviados : ℕ → List (Result (Unit {0}) × Trace) → Result ℕ × List Trace
  enviados n xs = (elim (aguardar xs) [ ok _ ↦ ok n | err e ↦ err e ], map (λ x. x.1) xs)

  abbrev pub com_redirects : Props → Result (List Redirection) × Trace → Result ℕ × List Trace
  com_redirects payload (err e, t) = (err e, [])
  com_redirects payload (ok rs, t) = enviados (length rs) (enviar_todos payload 0 rs t)

  abbrev pub com_inboxes : Props → Trace → Result (List Inbox) → Result ℕ × List Trace
  com_inboxes payload t (err e) = (err e, [])
  com_inboxes payload t (ok inboxes) =
      com_redirects payload (ativos (distintos [] (map (λ i. i.id_ambiente) inboxes)) t)

  unfoldable pub com_pid : Props → Option String → Trace → Result ℕ × List Trace
  unfolding ativos enviar_todos distintos
  com_pid payload none t = (ok 0, [])
  com_pid payload (some pid) t = com_inboxes payload t (env.find_all_by_pid t pid)

  -- The report, and the traces of the sends.
  unfoldable pub dispatch : Props → Trace → Result ℕ × List Trace
  unfolding com_pid
  dispatch payload t = com_pid payload (hook.extract_pid payload) t
