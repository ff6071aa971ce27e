-- ===== src/Uploads/Secrets.antt =====
-- The credentials of the requests and the error log: what src/wpp/wpp.service.ts,
-- src/meta-error-logs and src/wpp-media-business-profiles/wpp-media-upload-consumer.service.ts leave
-- in the table, over any sequence of their operations.
use whiz_gateway.Base.{
  ℕ, zero, suc, ◌+◌, ltb, ◌≡◌, refl, sym, subst, ◌∙◌, String, Bool-cases, inl, inr, Option, none,
  some, List, [], ◌∷◌,
}
use whiz_gateway.Json.{Json, Props}
use whiz_gateway.Effects.{http, resposta, outro, Result, ok, err, Trace, unlinked, waited}
use whiz_gateway.Resend.{truthy_text}
use whiz_gateway.Table.Logs.{Log, LawfulLog}
use whiz_gateway.MetaErrors.Logs.{
  Registro, Dados, Sorteio, persistir, persistir_todos, persistir_erros_de_webhook, handle_cron,
}
use whiz_gateway.MetaErrors.Logs as erros
use whiz_gateway.MetaErrors.Logs.Redacted.{
  Clean, instant, persistir-Clean, persistir_todos-Clean, handle_cron-Clean,
}
use whiz_gateway.MetaErrors.Extractor.{extrair_erros_de_webhook}
use whiz_gateway.Wpp as wpp
use whiz_gateway.Wpp.{
  ForwardOptions, ForwardResult, Resposta, Upload, Pedido, gravar, persistir_erro, responder,
  forward, forward_multipart, forward_binary, enviar_form, enviar_bytes, com_arquivo,
  dados_transporte,
}
use whiz_gateway.Uploads.{
  Services, S, Job, enviar, avisar, apos_envio, apos_chamada, tentativas, fire_webhook_with_retry,
  handle_job, dados_callback, delay, webhook_payload,
}

-- What changes the table of the error log.
pub data Op : Type 0 where
  chamada : Sorteio → Option String → String → String → ForwardOptions → Op
  trabalho : Sorteio → Sorteio → Job → Trace → Op
  webhook : (ℕ → Sorteio) → Props → Op
  limpeza : ℕ → Op

module _ {Db : Type 0} (env : Services Db) where
  -- An operation on the log, where there is one.
  abbrev pub no_registro : (Log String Registro Db → Db) → Option (Log String Registro Db) → Db → Db
  no_registro f none db = db
  no_registro f (some log) db = f log

  unfoldable pub apply : Op → Db → Db
  apply (chamada s contexto method path opts) db =
      (forward env.wpp db s contexto method path opts).1
  apply (trabalho s s' job t) db = (handle_job env s s' job (db, t)).1.0
  apply (webhook ss payload) db =
      no_registro (λ log. (persistir_erros_de_webhook log db ss payload).1) env.wpp.erros db
  apply (limpeza agora) db = no_registro (λ log. handle_cron log db agora) env.wpp.erros db

  unfoldable pub run : List Op → Db → Db
  unfolding apply
  run [] db = db
  run (o ∷ os) db = run os (apply o db)

module _ {Db : Type 0} (env : Services Db)
    (good : (log : Log String Registro Db) → env.wpp.erros ≡ some log → LawfulLog log instant) where
  -- No record of the error log holds a secret, where there is a log.
  abbrev pub CleanLog : Db → Type 0
  CleanLog db = (log : Log String Registro Db) → env.wpp.erros ≡ some log → Clean log db

  some_eq : {A : Type 0} {a b : A} → some a ≡ some b → a ≡ b
  some_eq e = cc

  gravar-Clean :
      (db : Db) (s : Sorteio) (dados : Dados) (o : Option (Log String Registro Db))
      → env.wpp.erros ≡ o
      → CleanLog db
      → CleanLog (gravar env.wpp db s dados o).1
  gravar-Clean db s dados none q clean = clean
  gravar-Clean db s dados (some l) q clean = λ log e.
      subst (λ y. Clean y (persistir l db s dados).1) (some_eq (sym q ∙ e))
        (persistir-Clean l (good l q) db s dados (clean l q))

  erro-Clean :
      (db : Db) (s : Sorteio) (dados : Dados)
      → CleanLog db
      → CleanLog (persistir_erro env.wpp db s dados).1
  unfolding persistir_erro
  erro-Clean db s dados = gravar-Clean db s dados env.wpp.erros refl

  responder-Clean :
      (db : Db) (s : Sorteio) (base : Dados) (r : Result Resposta)
      → CleanLog db
      → CleanLog (responder env.wpp db s base r).1
  unfolding responder
  responder-Clean db s base (ok a) clean = clean
  responder-Clean db s base (err (resposta n v)) clean = erro-Clean db s _ clean
  responder-Clean db s base (err (http n)) clean = erro-Clean db s _ clean
  responder-Clean db s base (err (outro t)) clean = erro-Clean db s _ clean

  arquivo-Clean :
      (db : Db) (r : Result (List ℕ)) (f : List ℕ → Result ForwardResult × Db)
      → CleanLog db
      → ((b : List ℕ) → CleanLog (f b).1)
      → CleanLog (com_arquivo env.wpp db r f).1
  arquivo-Clean db (err e) f clean each = clean
  arquivo-Clean db (ok b) f clean each = each b

  enviar-Clean :
      (db : Db) (s : Sorteio) (job : Job) → CleanLog db → CleanLog (enviar env db s job).1
  unfolding enviar forward_multipart forward_binary enviar_form enviar_bytes
  enviar-Clean db s job clean = elim (Bool-cases job.media) [
    | inl y ↦ rw y (
        arquivo-Clean db (env.wpp.read_file job.tmp_file_path) _ clean
          (λ b. responder-Clean db s _ _ clean))
    | inr n ↦ rw n (
        arquivo-Clean db (env.wpp.read_file job.tmp_file_path) _ clean
          (λ b. responder-Clean db s _ _ clean))
  ]

  module _ (s : Sorteio) (url : String) (payload : Json) (job_id : String) where
    chamada-Clean :
        (n : ℕ) (rest : S env → S env) (db : Db) (t : Trace) (r : Result ℕ)
        → CleanLog db
        → ((d : Db) (u : Trace) → CleanLog d → CleanLog (rest (d, u)).0)
        → CleanLog (apos_chamada env s url payload job_id n rest (db, t) r).0
    chamada-Clean n rest db t (ok k) clean each = clean
    chamada-Clean n rest db t (err e) clean each = elim (Bool-cases (ltb n 5)) [
      | inl y ↦ rw y (each db (waited (delay n) ∷ t) clean)
      | inr m ↦ rw m (erro-Clean db s (dados_callback env url payload job_id e) clean)
    ]

    tentativas-Clean :
        (left n : ℕ) (db : Db) (t : Trace)
        → CleanLog db
        → CleanLog (tentativas env s url payload job_id left n (db, t)).0
    unfolding tentativas
    tentativas-Clean zero n db t clean = clean
    tentativas-Clean (suc left) n db t clean =
        chamada-Clean n (tentativas env s url payload job_id left (n + 1)) db _ _ clean
          (λ d u. tentativas-Clean left (n + 1) d u)

  avisar-Clean :
      (s : Sorteio) (job : Job) (o : Option String) (r : ForwardResult) (db : Db) (t : Trace)
      → CleanLog db
      → CleanLog (avisar env s job o r (db, t)).0
  unfolding fire_webhook_with_retry
  avisar-Clean s job none r db t clean = clean
  avisar-Clean s job (some url) r db t clean =
      tentativas-Clean s url (webhook_payload env job.job_id r) job.job_id 6 0 db t clean

  envio-Clean :
      (s : Sorteio) (job : Job) (t : Trace) (x : Result ForwardResult × Db)
      → CleanLog x.1
      → CleanLog (apos_envio env s job t x).1.0
  envio-Clean s job t (err e, db) clean = clean
  envio-Clean s job t (ok r, db) clean =
      avisar-Clean s job (truthy_text job.callback_url) r db (unlinked job.tmp_file_path ∷ t) clean

  registro-Clean :
      (f : Log String Registro Db → Db) (o : Option (Log String Registro Db)) (db : Db)
      → env.wpp.erros ≡ o
      → CleanLog db
      → ((l : Log String Registro Db) → env.wpp.erros ≡ some l → Clean l (f l))
      → CleanLog (no_registro env f o db)
  registro-Clean f none db q clean each = clean
  registro-Clean f (some l) db q clean each =
      λ log e. subst (λ y. Clean y (f l)) (some_eq (sym q ∙ e)) (each l q)

  apply-Clean : (o : Op) (db : Db) → CleanLog db → CleanLog (apply env o db)
  unfolding apply forward handle_job persistir_erros_de_webhook
  apply-Clean (chamada s contexto method path opts) db clean =
      responder-Clean db s
        (wpp.base_de env.wpp erros.forward method path
          (wpp.campos (wpp.headers_forward env.wpp contexto opts)) none)
        (env.wpp.request (wpp.pedido_forward env.wpp contexto method path opts)) clean
  apply-Clean (trabalho s s' job t) db clean =
      envio-Clean s' job t (enviar env db s job) (enviar-Clean db s job clean)
  apply-Clean (webhook ss payload) db clean = registro-Clean _ env.wpp.erros db refl clean (λ l q.
      persistir_todos-Clean l (good l q) db ss 0 (extrair_erros_de_webhook payload) (clean l q))
  apply-Clean (limpeza agora) db clean =
      registro-Clean _ env.wpp.erros db refl clean
        (λ l q. handle_cron-Clean l (good l q) db agora (clean l q))

-- Over a table that behaves as documented and holds no secret, after any sequence of forwards, upload
-- jobs, webhooks and clean-ups the error log holds none: in every record, what stands under
-- `authorization`, `x-meta-access-token`, `x-api-key`, `x-callback-secret` or `cookie`, in whatever
-- case, is `[REDACTED]`.
pub run-Clean :
    {Db : Type 0} (env : Services Db) (os : List Op) (db : Db)
    (good : (log : Log String Registro Db) → env.wpp.erros ≡ some log → LawfulLog log instant)
    → CleanLog env good db
    → CleanLog env good (run env os db)
unfolding run
run-Clean env [] db good clean = clean
run-Clean env (o ∷ os) db good clean =
    run-Clean env os (apply env o db) good (apply-Clean env good o db clean)
