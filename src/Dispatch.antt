-- ===== src/Dispatch.antt =====
-- src/dispatch/dispatch-handler.service.ts: one webhook to one inbox, with retries, and the
-- dead-letter queue for what is not delivered. Logging is not modelled.
pub mod Once
pub mod Rounds
pub mod Environments
pub mod Exactly
use Prim.Native.String
use whiz_gateway.Base.{
  ℕ, zero, suc, ◌+◌, ◌-◌, ◌*◌, ◌^◌, String, Bool, Option, none, some, [], ◌∷◌, ltb, if◌then◌else◌,
}
use whiz_gateway.Json.{Json, non_empty}
use whiz_gateway.Effects.{
  Erro, http, resposta, outro, Result, ok, err, StatusFalha, nack_recebido, falha_envio,
  ambiente_indisponivel, Morta, Post, json, despacho_tentativa, despacho_sucesso, despacho_falha,
  despacho_duracao, dlq_enfileiramento, Trace, Exec, enqueued, posted, waited, counted, redirected,
  cached, pure, emit, ask, call, swallow, attempt, ◌>>=◌, ◌>>◌,
}
use whiz_gateway.Records.{Ambiente, Inbox}

-- What the handler takes from the repositories, Redis, the broker, axios, the configuration and
-- JavaScript's JSON. An answer may depend on every effect before it.
pub record Services : Type 0 where
  pub find_inbox : Trace → String → Result (Option Inbox)
  pub find_ambiente : Trace → ℕ → Result (Option Ambiente)
  pub redis_get : Trace → String → Result (Option String)
  pub redis_set : Trace → String → String → Result (Unit {0})
  pub parse_ambiente : String → Result Ambiente
  pub stringify_ambiente : Ambiente → String
  pub to_string : ℕ → String
  pub http_post : Trace → Post → Result ℕ
  pub send_to_queue : Trace → Morta → Result (Unit {0})
  -- `parseInt` of the configuration; what is negative or no number gives no round, as 0 does
  pub max_retries : ℕ
  pub base_ms : ℕ
  pub callback_secret : String

module _ (env : Services) where
  -- Enqueues on the dead-letter queue and counts the message.
  pub enviar_para_dlq : Morta → Exec (Unit {0})
  enviar_para_dlq mensagem = do
    emit (counted dlq_enfileiramento)
    call (λ t. env.send_to_queue t mensagem) (enqueued mensagem)

  pub cache_key : ℕ → String
  cache_key id = String.◌++◌ "ambiente:" (env.to_string id)

  pub guardar_ambiente : ℕ → Option Ambiente → Exec (Unit {0})
  guardar_ambiente id none = pure tt
  guardar_ambiente id (some a) =
      call (λ t. env.redis_set t (cache_key id) (env.stringify_ambiente a))
        (cached (cache_key id) (env.stringify_ambiente a))

  pub ler_cache : ℕ → Option String → Exec (Option Ambiente)
  unfolding guardar_ambiente
  ler_cache id (some texto) = do a ← ask (λ _. env.parse_ambiente texto); pure (some a)
  ler_cache id none = do
    found ← ask (λ t. env.find_ambiente t id)
    guardar_ambiente id found
    pure found

  abbrev pub cached_text : Option String → Option String
  cached_text none = none
  cached_text (some s) = non_empty s

  pub get_ambiente : ℕ → Exec (Option Ambiente)
  unfolding ler_cache cache_key
  get_ambiente id = do
    raw ← ask (λ t. env.redis_get t (cache_key id))
    ler_cache id (cached_text raw)

  abbrev pub post_to : Ambiente → Json → Post
  post_to ambiente payload = record {
    url = ambiente.url;
    corpo = json payload;
    headers =
        ("Content-Type", "application/json") ∷ ("x-callback-secret", env.callback_secret) ∷ [];
  }

  -- The status of a message given up after an error: with a response, or with none.
  abbrev pub status_final : Erro → StatusFalha
  status_final (resposta _ _) = falha_envio
  status_final _ = ambiente_indisponivel

  -- the `catch` of one round
  pub apos_falha : String → Json → ℕ → Erro → Exec (Unit {0})
  unfolding enviar_para_dlq
  apos_falha id_inbox payload n e =
      if ltb n env.max_retries then emit (waited (env.base_ms * 2 ^ (n - 1))) else (do
        emit (counted despacho_falha)
        emit (counted despacho_duracao)
        enviar_para_dlq
            (record { message = payload; id_inbox = some id_inbox; status = status_final e }))

  -- `for (let attempt = n; attempt <= maxRetries; attempt++)`, by the rounds that are left
  pub tentativas : Inbox → Ambiente → Json → ℕ → ℕ → Exec (Unit {0})
  unfolding apos_falha
  tentativas inbox ambiente payload zero n = pure tt
  tentativas inbox ambiente payload (suc left) n =
      let rest = tentativas inbox ambiente payload left (n + 1) in
      do
        r ← attempt (
            call (λ t. env.http_post t (post_to ambiente payload))
              (posted (post_to ambiente payload)))
        elim r [
          | ok _ ↦ (do emit (counted despacho_sucesso); emit (counted despacho_duracao))
          | err e ↦ (do apos_falha inbox.id payload n e; rest)
        ]

  pub com_ambiente : Inbox → Json → Option Ambiente → Exec (Unit {0})
  unfolding tentativas enviar_para_dlq
  com_ambiente inbox payload none =
      enviar_para_dlq
        (record { message = payload; id_inbox = some inbox.id; status = ambiente_indisponivel })
  com_ambiente inbox payload (some a) =
      if a.del
      then enviar_para_dlq
          (record { message = payload; id_inbox = some inbox.id; status = ambiente_indisponivel })
      else tentativas inbox a payload env.max_retries 1

  pub com_inbox : String → Json → Option Inbox → Exec (Unit {0})
  unfolding com_ambiente get_ambiente enviar_para_dlq
  com_inbox inbox_id payload none =
      enviar_para_dlq
        (record { message = payload; id_inbox = some inbox_id; status = nack_recebido })
  com_inbox inbox_id payload (some i) =
      if i.del
      then enviar_para_dlq
          (record { message = payload; id_inbox = some i.id; status = nack_recebido })
      else (do a ← get_ambiente i.id_ambiente; com_ambiente i payload a)

  -- `handle`: whatever is thrown inside is logged and dropped.
  unfoldable pub handle : String → Json → Exec (Unit {0})
  unfolding com_inbox
  handle inbox_id payload = swallow (do
    emit (counted despacho_tentativa)
    emit (redirected payload)
    inbox ← ask (λ t. env.find_inbox t inbox_id)
    com_inbox inbox_id payload inbox)
