-- ===== src/Uploads/Jobs.antt =====
-- On `handleJob` of src/wpp-media-business-profiles/wpp-media-upload-consumer.service.ts.
use whiz_gateway.Base.{
  ◌≤◌, ◌<◌, Bool, true, false, Bool-cases, inl, inr, arith, if◌then◌else◌, ◌≡◌, refl, String,
  Option, none, some, ◌∷◌,
}
use whiz_gateway.Json.{Json, str, obj, member, no_member}
use whiz_gateway.Effects.{Erro, Result, ok, err, Trace, unlinked}
use whiz_gateway.Resend.{truthy_text}
use whiz_gateway.Redirections.Sends.{Tried}
use whiz_gateway.MetaErrors.Logs.{Sorteio}
use whiz_gateway.Wpp.{ForwardResult}
use whiz_gateway.Uploads.{
  Services, S, Job, enviar, avisar, apos_envio, webhook_payload, handle_job, com_chave, is_success,
}
use whiz_gateway.Uploads.Callbacks.{Fate, fire_webhook_with_retry-Called}

-- What the caller is told: that the job is done, with what Meta answered, for a status from 200 to
-- 299; else that it failed, with Meta's error and the key of its record, if it has one.
pub data Told {Db : Type 0} (env : Services Db) (job_id : String) (r : ForwardResult) (p : Json)
    : Type 0 where
  succeeded :
      200 ≤ r.status
      → r.status < 300
      → p
        ≡ obj (
            member "jobId"
              (str job_id)
              (member "status" (str "done") (member "payload" r.corpo no_member)))
      → Told env job_id r p
  failed :
      ¬ ((200 ≤ r.status) × (r.status < 300))
      → p
        ≡ obj (
            member "jobId" (str job_id) (
              member "status" (str "failed") (
                member "error"
                  (com_chave env.wpp.number_text r.corpo (truthy_text r.chave_erro))
                  no_member)))
      → Told env job_id r p

webhook_payload-Told :
    {Db : Type 0} (env : Services Db) (job_id : String) (r : ForwardResult)
    → Told env job_id r (webhook_payload env job_id r)
unfolding webhook_payload
webhook_payload-Told env job_id r = elim (Bool-cases (is_success r.status)) [
  | inl y ↦ succeeded (ground (arith, y)) (ground (arith, y)) (if_true _ _ _ y)
  | inr n ↦ failed (λ h. ground (arith, n, h)) (if_false _ _ _ n)
]
  where
    if_true : (b : Bool) (p q : Json) → b ≡ true → (if b then p else q) ≡ p
    if_true true p q e = refl
    if_true false p q e = cc

    if_false : (b : Bool) (p q : Json) → b ≡ false → (if b then p else q) ≡ q
    if_false true p q e = cc
    if_false false p q e = refl

-- What a job comes to. The file is removed first, whatever the forward came to.
pub data Done {Db : Type 0} (env : Services Db) (s s' : Sorteio) (job : Job) (db : Db) (t : Trace)
    (x : Result (Unit {0}) × S env) : Type 0 where
  thrown :
      (e : Erro) (db' : Db)
      → enviar env db s job ≡ (err e, db')
      → x ≡ (err e, (db', unlinked job.tmp_file_path ∷ t))
      → Done env s s' job db t x
  silent :
      (r : ForwardResult) (db' : Db)
      → enviar env db s job ≡ (ok r, db')
      → truthy_text job.callback_url ≡ none
      → x ≡ (ok tt, (db', unlinked job.tmp_file_path ∷ t))
      → Done env s s' job db t x
  called :
      (r : ForwardResult) (db' : Db) (url : String) (p : Json) (y : S env)
      → enviar env db s job ≡ (ok r, db')
      → truthy_text job.callback_url ≡ some url
      → Tried 1000 6 0 (unlinked job.tmp_file_path ∷ t) y.1
      → Told env job.job_id r p
      → Fate env s' url p job.job_id 6 0 (db', unlinked job.tmp_file_path ∷ t) y
      → x ≡ (ok tt, y)
      → Done env s s' job db t x

module _ {Db : Type 0} (env : Services Db) (s s' : Sorteio) (job : Job) (db : Db) (t : Trace) where
  avisar-Done :
      (r : ForwardResult) (db' : Db)
      → enviar env db s job ≡ (ok r, db')
      → (o : Option String) → truthy_text job.callback_url ≡ o
      → Done env s s' job db t (ok tt, avisar env s' job o r (db', unlinked job.tmp_file_path ∷ t))
  avisar-Done r db' e none q = silent r db' e q refl
  avisar-Done r db' e (some url) q =
      let (tried, _, fate) =
        fire_webhook_with_retry-Called env s' url (webhook_payload env job.job_id r) job.job_id db'
          (unlinked job.tmp_file_path ∷ t) in
      called r db' url (webhook_payload env job.job_id r) _ e q tried
        (webhook_payload-Told env job.job_id r) fate refl

  envio-Done :
      (z : Result ForwardResult × Db)
      → enviar env db s job ≡ z
      → Done env s s' job db t (apos_envio env s' job t z)
  envio-Done (err e, db') q = thrown e db' q refl
  envio-Done (ok r, db') q = avisar-Done r db' q (truthy_text job.callback_url) refl

-- A job whose forward throws removes its file, throws the error and calls nobody. Any other removes
-- its file, and, where it has a callback URL, POSTs to it that the job is done with what Meta
-- answered, or failed with Meta's error: at most six times, until one POST gets through, else the
-- error of the last is recorded.
pub handle_job-Done :
    {Db : Type 0} (env : Services Db) (s s' : Sorteio) (job : Job) (db : Db) (t : Trace)
    → Done env s s' job db t (handle_job env s s' job (db, t))
unfolding handle_job
handle_job-Done env s s' job db t = envio-Done env s s' job db t (enviar env db s job) refl
