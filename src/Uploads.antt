-- ===== src/Uploads.antt =====
-- src/wpp-media-business-profiles/wpp-media-upload-consumer.service.ts: a queued upload is sent to
-- Meta, its file is removed, and the caller is told of the result.
pub mod Callbacks
pub mod Jobs
pub mod Secrets
use Prim.Native.String as txt
use whiz_gateway.Base.{
  ℕ, zero, suc, ◌+◌, String, Bool, true, false, ◌&&◌, Option, none, some, List, [], ◌∷◌, leb, ltb,
  ◌==◌, if◌then◌else◌,
}
use whiz_gateway.Json.{
  Json, str, num, bool, null, obj, arr, Props, no_member, member, Elems, nil, cons, truthy,
}
use whiz_gateway.Effects.{Erro, outro, Result, ok, err, Post, json, Trace, posted, waited, unlinked}
use whiz_gateway.Resend.{truthy_text}
use whiz_gateway.MetaErrors.Logs.{Dados, Sorteio, callback}
use whiz_gateway.Wpp.{Upload, ForwardResult, forward_multipart, forward_binary, persistir_erro}
use whiz_gateway.Wpp as wpp

-- MediaUploadJobDto
pub record Job : Type 0 where
  pub job_id : String
  -- the type is 'media', or else 'resumable-binary'
  pub media : Bool
  pub sub_path : String
  pub tmp_file_path : String
  pub content_type : String
  -- that of a media job; the route refuses one without it
  pub messaging_product : String
  pub file_offset : Option String
  pub callback_url : Option String
  pub filename : Option String
  pub media_type : Option String

-- What the consumer uses: the proxy, `fetch` with the status that it resolves to, and
-- `CALLBACK_SECRET`.
pub record Services (Db : Type 0) : Type 0 where
  pub wpp : wpp.Services Db
  pub fetch : Trace → Post → Result ℕ
  pub callback_secret : Option String

abbrev pub given : Option String → String → String
given none d = d
given (some s) d = s

-- `status >= 200 && status < 300`
abbrev pub is_success : ℕ → Bool
is_success status = leb 200 status && ltb status 300

-- `{ ...o, [k]: v }` on the members of an object
unfoldable pub put_member : String → Json → Props → Props
put_member k v no_member = member k v no_member
put_member k v (member j w o) =
    let rest = put_member k v o in if j == k then member j v o else member j w rest

-- The members of an array, by their positions.
unfoldable pub indexed : (ℕ → String) → ℕ → Elems → Props
indexed number_text n nil = no_member
indexed number_text n (cons v vs) = member (number_text n) v (indexed number_text (suc n) vs)

-- `erroComChave`, with the key of the record
unfoldable pub com_chave : (ℕ → String) → Json → Option String → Json
unfolding put_member indexed
com_chave number_text corpo none = corpo
com_chave number_text (obj o) (some chave) = obj (put_member "chaveErro" (str chave) o)
com_chave number_text (arr vs) (some chave) =
    obj (put_member "chaveErro" (str chave) (indexed number_text 0 vs))
com_chave number_text corpo (some chave) =
    obj (member "corpo" corpo (member "chaveErro" (str chave) no_member))

-- `delays[attempt]`
abbrev pub delay : ℕ → ℕ
delay zero = 1000
delay (suc zero) = 2000
delay (suc (suc zero)) = 4000
delay (suc (suc (suc zero))) = 8000
delay _ = 16000

module _ {Db : Type 0} (env : Services Db) where
  -- The state: the table of the error log, and the calls made so far.
  abbrev pub S : Type 0
  S = Db × Trace

  unfoldable pub webhook_payload : String → ForwardResult → Json
  unfolding com_chave
  webhook_payload job_id r =
      if is_success r.status
      then obj (
          member "jobId" (str job_id)
            (member "status" (str "done") (member "payload" r.corpo no_member)))
      else obj (
          member "jobId" (str job_id) (
            member "status" (str "failed") (
              member "error" (com_chave env.wpp.number_text r.corpo (truthy_text r.chave_erro))
                no_member)))

  abbrev pub post_to : String → Json → Post
  post_to url payload = record {
    url = url;
    corpo = json payload;
    headers =
        ("Content-Type", "application/json")
        ∷ ("x-callback-secret", given env.callback_secret "")
        ∷ [];
  }

  -- `if (res.ok) return; throw new Error(…)`
  abbrev pub checked : Result ℕ → Result ℕ
  checked (ok status) =
      if is_success status
      then ok status
      else err (outro (txt.◌++◌ "HTTP " (env.wpp.number_text status)))
  checked (err e) = err e

  -- What is recorded of a callback that was given up.
  abbrev pub dados_callback : String → Json → String → Erro → Dados
  dados_callback url payload job_id e = record {
    origem = callback;
    metodo = "POST";
    sub_path = url;
    url = none;
    status = none;
    codigo_meta = none;
    corpo = some payload;
    requisicao = none;
    job_id = some job_id;
    referencia = none;
    mensagem =
        some (txt.◌++◌ "entrega de callback esgotou as retentativas: " (env.wpp.error_text e));
  }

  -- The end of one round, with the rounds that follow.
  abbrev pub apos_chamada : Sorteio → String → Json → String → ℕ → (S → S) → S → Result ℕ → S
  apos_chamada s url payload job_id n rest (db, t) (ok status) = (db, t)
  apos_chamada s url payload job_id n rest (db, t) (err e) =
      if ltb n 5
      then rest (db, waited (delay n) ∷ t)
      else ((persistir_erro env.wpp db s (dados_callback url payload job_id e)).1, t)

  -- `for (let attempt = n; attempt <= 5; attempt++)`, by the rounds that are left
  unfoldable pub tentativas : Sorteio → String → Json → String → ℕ → ℕ → S → S
  tentativas s url payload job_id zero n x = x
  tentativas s url payload job_id (suc left) n (db, t) =
      let r = checked (env.fetch t (post_to url payload)) in
      apos_chamada s url payload job_id n (tentativas s url payload job_id left (n + 1))
        (db, posted (post_to url payload) r ∷ t) r

  unfoldable pub fire_webhook_with_retry : Sorteio → String → Json → String → S → S
  unfolding tentativas
  fire_webhook_with_retry s url payload job_id x = tentativas s url payload job_id 6 0 x

  abbrev pub upload_de : Job → Upload
  upload_de job = record {
    sub_path = job.sub_path;
    tmp_file_path = job.tmp_file_path;
    content_type = job.content_type;
    job_id = some job.job_id;
  }

  -- The consumer runs outside of any request, so there is no token of a request.
  unfoldable pub enviar : Db → Sorteio → Job → Result ForwardResult × Db
  enviar db s job =
      if job.media
      then forward_multipart env.wpp db s none (upload_de job) job.messaging_product job.filename
          job.media_type
      else forward_binary env.wpp db s none (upload_de job) (given job.file_offset "0")

  abbrev pub avisar : Sorteio → Job → Option String → ForwardResult → S → S
  avisar s job none r x = x
  avisar s job (some url) r x =
      fire_webhook_with_retry s url (webhook_payload job.job_id r) job.job_id x

  abbrev pub apos_envio : Sorteio → Job → Trace → Result ForwardResult × Db → Result (Unit {0}) × S
  apos_envio s job t (err e, db) = (err e, (db, unlinked job.tmp_file_path ∷ t))
  apos_envio s job t (ok r, db) =
      (ok tt, avisar s job (truthy_text job.callback_url) r (db, unlinked job.tmp_file_path ∷ t))

  -- handleJob, with a draw for the error of the upload and one for that of the callback
  unfoldable pub handle_job : Sorteio → Sorteio → Job → S → Result (Unit {0}) × S
  unfolding enviar fire_webhook_with_retry webhook_payload
  handle_job s s' job (db, t) = apos_envio s' job t (enviar db s job)
