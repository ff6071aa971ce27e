-- ===== src/DeadLetters/Consumer.antt =====
-- The way of a dead letter: `sendToQueue` of src/rabbitmq/rabbitmq.service.ts on the payload of
-- `enviarParaDlq`, and the handler of src/dead-letter/dead-letter-consumer.service.ts.
use whiz_gateway.Base.{ℕ, String, Option, none, some, ◌==◌, if◌then◌else◌}
use whiz_gateway.Json.{Json, str, null, obj, no_member, member, get}
use whiz_gateway.Effects.{
  outro, Result, ok, err, StatusFalha, Morta, inbox_nao_registrada, falha_enfileiramento,
  nack_recebido, falha_envio, ambiente_indisponivel, assinatura_invalida,
}
use whiz_gateway.Table.Logs.{Log}
use whiz_gateway.Resend.{Mensagem}
use whiz_gateway.DeadLetters.{create}

abbrev pub status_text : StatusFalha → String
status_text inbox_nao_registrada = "INBOX_NAO_REGISTRADA"
status_text falha_enfileiramento = "FALHA_ENFILEIRAMENTO"
status_text nack_recebido = "NACK_RECEBIDO"
status_text falha_envio = "FALHA_ENVIO"
status_text ambiente_indisponivel = "AMBIENTE_INDISPONIVEL"
status_text assinatura_invalida = "ASSINATURA_INVALIDA"

abbrev pub text_or_null : Option String → Json
text_or_null none = null
text_or_null (some s) = str s

-- The object that `JSON.stringify` writes.
abbrev pub json_of : Morta → Json
json_of m = obj (
    member "message" m.message (
      member "id_inbox" (text_or_null m.id_inbox)
        (member "status" (str (status_text m.status)) no_member)))

abbrev pub invalid : {A : Type 0} → Result A
invalid = err (outro "PrismaClientValidationError")

-- What the client takes for a column of texts, after `?? null`.
abbrev pub as_text : Option Json → Result (Option String)
as_text none = ok none
as_text (some null) = ok none
as_text (some (str s)) = ok (some s)
as_text (some _) = invalid

unfoldable pub status_of : String → Result StatusFalha
status_of s =
    if s == "INBOX_NAO_REGISTRADA"
    then ok inbox_nao_registrada
    else if s == "FALHA_ENFILEIRAMENTO"
    then ok falha_enfileiramento
    else if s == "NACK_RECEBIDO"
    then ok nack_recebido
    else if s == "FALHA_ENVIO"
    then ok falha_envio
    else if s == "AMBIENTE_INDISPONIVEL"
    then ok ambiente_indisponivel
    else if s == "ASSINATURA_INVALIDA"
    then ok assinatura_invalida
    else invalid

-- `?? StatusFalhaMensagem.NACK_RECEBIDO`
abbrev pub as_status : Option Json → Result StatusFalha
as_status none = ok nack_recebido
as_status (some null) = ok nack_recebido
as_status (some (str s)) = status_of s
as_status (some _) = invalid

abbrev pub as_message : Option Json → Result Json
as_message none = invalid
as_message (some null) = invalid
as_message (some v) = ok v

abbrev pub letter : Result Json → Result (Option String) → Result StatusFalha → Result Morta
letter (err e) i s = err e
letter (ok m) (err e) s = err e
letter (ok m) (ok i) (err e) = err e
letter (ok m) (ok i) (ok s) = ok (record { message = m; id_inbox = i; status = s })

-- The fields that the handler reads of the parsed payload.
unfoldable pub letter_of : Json → Result Morta
letter_of null = err (outro "TypeError")
letter_of v =
    letter (as_message (get "message" v)) (as_text (get "id_inbox" v)) (as_status (get "status" v))

-- `Buffer.from(JSON.stringify(…))` and `JSON.parse(….toString('utf8'))`, over the contents of a
-- buffer.
pub record Codec (Bytes : Type 0) : Type 0 where
  pub stringify : Json → Bytes
  pub parse : Bytes → Result Json

unfoldable pub send_to_queue : {Bytes : Type 0} → Codec Bytes → Json → Bytes
send_to_queue codec payload = codec.stringify payload

module _ {Bytes Db : Type 0} (log : Log String Mensagem Db) (codec : Codec Bytes) where
  abbrev pub void : {A : Type 0} → Result A × Db → Result (Unit {0}) × Db
  void (ok _, db) = (ok tt, db)
  void (err e, db) = (err e, db)

  abbrev pub store : Db → String → ℕ → Result Morta → Result (Unit {0}) × Db
  store db id agora (err e) = (err e, db)
  store db id agora (ok m) = void (create log db id agora m)

  abbrev pub parsed : Result Json → Result Morta
  parsed (err e) = err e
  parsed (ok v) = letter_of v

  -- the handler of the consumer
  unfoldable pub consume : Db → String → ℕ → Bytes → Result (Unit {0}) × Db
  unfolding letter_of
  consume db id agora payload = store db id agora (parsed (codec.parse payload))
