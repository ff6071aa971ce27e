-- ===== src/Instagram.antt =====
-- src/instagram-webhook: the ingestion of Instagram and Messenger webhooks, and the forwarder that
-- posts the raw body to the environment of an inbox, with retries and the dead-letter queue.
pub mod Forwards
pub mod Slashes
use Prim.Native.String as txt
use Prim.Native.Char.{Char, code}
use whiz_gateway.Base.{
  ℕ, zero, suc, ◌+◌, ◌-◌, ◌*◌, ◌^◌, String, Bool, Option, none, some, List, [], ◌∷◌, ltb, eqb,
  if◌then◌else◌,
}
use whiz_gateway.Json.{Json, str, obj, Props, lookup, get, as_array, text}
use whiz_gateway.Effects.{
  Erro, resposta, Result, ok, err, StatusFalha, inbox_nao_registrada, falha_envio,
  ambiente_indisponivel, Morta, Post, raw, Trace, Exec, enqueued, posted, waited, pure, emit, ask,
  call, swallow, attempt, ◌>>=◌, ◌>>◌,
}
use whiz_gateway.Records.{Ambiente, Inbox}
use whiz_gateway.Dispatch as dispatch
use whiz_gateway.Webhook.{and_then, first}
use whiz_gateway.Webhook.Guard as guard
use whiz_gateway.Webhook.Guard.{Header, one, Request}

pub data Surface : Type 0 where
  instagram instagram_login messenger : Surface

abbrev pub surface_subpath : Surface → String
surface_subpath instagram = "/webhooks/instagram"
surface_subpath instagram_login = "/webhooks/instagram-login"
surface_subpath messenger = "/webhooks/messenger"

-- What the dispatch takes from outside, and beside it the inboxes of a page and the reading of bytes.
pub record Services : Type 0 where
  pub base : dispatch.Services
  pub find_all_by_pid : Trace → String → Result (List Inbox)
  pub utf8_text : List ℕ → String
  pub parse_json : String → Result Json

-- `entry[0]?.id`, where it is a non-empty text
unfoldable pub extract_pid : Props → Option String
unfolding lookup
extract_pid body = and_then (first (as_array (lookup "entry" body))) λ entry. text (get "id" entry)

abbrev pub push_unless : Char → String → String
push_unless c txt.[] = if eqb (code c) 47 then txt.[] else txt.◌∷◌ c txt.[]
push_unless c (txt.◌∷◌ d s) = txt.◌∷◌ c (txt.◌∷◌ d s)

-- `url.replace(/\/+$/, '')`
unfoldable pub sem_barras : String → String
sem_barras txt.[] = txt.[]
sem_barras (txt.◌∷◌ c s) = push_unless c (sem_barras s)

abbrev pub or_empty : Option String → String
or_empty none = ""
or_empty (some s) = s

-- `httpStatus !== undefined`: an error with a response has its status
abbrev pub status_final : Erro → StatusFalha
status_final (resposta _ _) = falha_envio
status_final _ = ambiente_indisponivel

-- The dead letter of a webhook of which no inbox is registered.
abbrev pub sem_inbox : Props → Morta
sem_inbox body = record { message = obj body; id_inbox = none; status = inbox_nao_registrada }

abbrev pub or_no_bytes : Option (List ℕ) → List ℕ
or_no_bytes none = []
or_no_bytes (some b) = b

-- `typeof signature === 'string' ? signature : undefined`
abbrev pub one_text : Header → Option String
one_text (one s) = some s
one_text _ = none

module _ (env : Services) where
  -- the parsed body, or its text where it is no JSON
  unfoldable pub payload_for_dlq : List ℕ → Json
  payload_for_dlq raw_body = elim (env.parse_json (env.utf8_text raw_body)) [
    | ok v ↦ v
    | err _ ↦ str (env.utf8_text raw_body)
  ]

  abbrev pub enviar : Morta → Exec (Unit {0})
  enviar m = call (λ t. env.base.send_to_queue t m) (enqueued m)

  abbrev pub carta : Inbox → List ℕ → StatusFalha → Morta
  carta inbox raw_body status = record {
    message = payload_for_dlq raw_body;
    id_inbox = some inbox.id;
    status = status;
  }

  abbrev pub post_to : String → List ℕ → Option String → Post
  post_to target raw_body signature = record {
    url = target;
    corpo = raw raw_body;
    headers =
        ("Content-Type", "application/json")
        ∷ ("x-hub-signature-256", or_empty signature)
        ∷ ("x-callback-secret", env.base.callback_secret)
        ∷ [];
  }

  -- the `catch` of one round
  abbrev pub apos_falha : Inbox → List ℕ → ℕ → Erro → Exec (Unit {0})
  apos_falha inbox raw_body n e =
      if ltb n env.base.max_retries
      then emit (waited (env.base.base_ms * 2 ^ (n - 1)))
      else enviar (carta inbox raw_body (status_final e))

  -- `for (let attempt = n; attempt <= maxRetries; attempt++)`, by the rounds that are left
  unfoldable pub tentativas : Inbox → String → List ℕ → Option String → ℕ → ℕ → Exec (Unit {0})
  tentativas inbox target raw_body signature zero n = pure tt
  tentativas inbox target raw_body signature (suc left) n =
      let rest = tentativas inbox target raw_body signature left (n + 1) in
      let post = post_to target raw_body signature in
      do
        r ← attempt (call (λ t. env.base.http_post t post) (posted post))
        elim r [ ok _ ↦ pure tt | err e ↦ (do apos_falha inbox raw_body n e; rest) ]

  -- the end of `forward`, with the environment
  unfoldable pub com_ambiente :
      String → Inbox → List ℕ → Option String → Option Ambiente → Exec (Unit {0})
  unfolding tentativas sem_barras
  com_ambiente sub_path inbox raw_body signature none =
      enviar (carta inbox raw_body ambiente_indisponivel)
  com_ambiente sub_path inbox raw_body signature (some a) =
      if a.del
      then enviar (carta inbox raw_body ambiente_indisponivel)
      else tentativas inbox (txt.◌++◌ (sem_barras a.url) sub_path) raw_body signature
          env.base.max_retries 1

  unfoldable pub forward : String → Inbox → List ℕ → Option String → Exec (Unit {0})
  unfolding com_ambiente
  forward sub_path inbox raw_body signature = do
    a ← dispatch.get_ambiente env.base inbox.id_ambiente
    com_ambiente sub_path inbox raw_body signature a

  -- `for (const inbox of inboxes)`: a forward that throws does not stop the others
  unfoldable pub encaminhar_todos : Surface → List ℕ → Option String → List Inbox → Exec (Unit {0})
  unfolding forward
  encaminhar_todos surface raw_body signature [] = pure tt
  encaminhar_todos surface raw_body signature (i ∷ is) = do
    swallow (forward (surface_subpath surface) i raw_body signature)
    encaminhar_todos surface raw_body signature is

  unfoldable pub encaminhar :
      Surface → List ℕ → Option String → Props → List Inbox → Exec (Unit {0})
  unfolding encaminhar_todos
  encaminhar surface raw_body signature body [] = enviar (sem_inbox body)
  encaminhar surface raw_body signature body (i ∷ is) =
      encaminhar_todos surface raw_body signature (i ∷ is)

  unfoldable pub com_pid :
      Surface → List ℕ → Option String → Props → Option String → Exec (Unit {0})
  unfolding encaminhar
  com_pid surface raw_body signature body none = enviar (sem_inbox body)
  com_pid surface raw_body signature body (some pid) = do
    inboxes ← ask (λ t. env.find_all_by_pid t pid)
    encaminhar surface raw_body signature body inboxes

  unfoldable pub handle_incoming : Surface → List ℕ → Option String → Props → Exec (Unit {0})
  unfolding com_pid extract_pid
  handle_incoming surface raw_body signature body =
      swallow (com_pid surface raw_body signature body (extract_pid body))

  -- the controller's `dispatch`, started and not awaited; a missing body is empty
  unfoldable pub receive : Surface → Request → Props → Exec (Unit {0})
  unfolding handle_incoming
  receive surface req body =
      handle_incoming surface (or_no_bytes req.raw_body) (one_text req.signature) body

-- The handshake of the three routes: the token of Instagram Login is its own.
unfoldable pub verify :
    Option String
    → Option String
    → Surface
    → Option String
    → Option String
    → Option String
    → Result (Option String)
verify meta_verify_token ig_verify_token instagram_login = guard.verify ig_verify_token
verify meta_verify_token ig_verify_token _ = guard.verify meta_verify_token
