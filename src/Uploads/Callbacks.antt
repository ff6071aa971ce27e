-- ===== src/Uploads/Callbacks.antt =====
-- On `fireWebhookWithRetry` of
-- src/wpp-media-business-profiles/wpp-media-upload-consumer.service.ts.
use Prim.Native.String as txt
use whiz_gateway.Base.{
  subst, sym, ◌∙◌, none, some, In, here, there, Bool-cases, ℕ, zero, suc, ◌+◌, ◌*◌, ◌^◌, ◌<◌, ◌≤◌,
  ◌≡◌, refl, inl, inr, String, ◌∷◌, arith,
}
use whiz_gateway.Json.{Json}
use whiz_gateway.Effects.{
  Erro, outro, Post, json, Result, ok, err, Trace, posted, waited, Result-cases,
}
use whiz_gateway.Effects.Counts.{deliveries, waiting}
use whiz_gateway.Effects.Rounds as rounds
use whiz_gateway.Effects.Rounds.{Rounds, gave_up, again}
use whiz_gateway.Dispatch.Rounds.{lt→ltb, le→not_ltb}
use whiz_gateway.Redirections.Sends.{Tried, delivered, lost, Tried-after, pow_zero, pow_eq}
use whiz_gateway.MetaErrors.Logs.{Sorteio, Dados, callback}
use whiz_gateway.Wpp.{persistir_erro}
use whiz_gateway.Uploads.{
  Services, S, given, is_success, checked, post_to, delay, dados_callback, tentativas,
  fire_webhook_with_retry,
}

delay_pow : (n : ℕ) → n < 5 → delay n ≡ 1000 * 2 ^ n
delay_pow zero l = refl
delay_pow (suc zero) l = refl
delay_pow (suc (suc zero)) l = refl
delay_pow (suc (suc (suc zero))) l = refl
delay_pow (suc (suc (suc (suc zero)))) l = refl
delay_pow (suc (suc (suc (suc (suc n))))) l = omega (arith, l)

module _ {Db : Type 0} (env : Services Db) (s : Sorteio) (url : String) (payload : Json)
    (job_id : String) where
  -- The POST of the payload to this URL, with the secret where one is configured.
  pub record ToCallback (q : Post) : Type 0 where
    pub target : q.url ≡ url
    pub corpo : q.corpo ≡ json payload
    pub secret : In ("x-callback-secret", given env.callback_secret "") q.headers

  abbrev pub Success : ℕ → Type 0
  Success status = (200 ≤ status) × (status < 300)

  -- What is recorded of a callback that was given up with this error.
  pub record LastError (e : Erro) (d : Dados) : Type 0 where
    pub origem : d.origem ≡ callback
    pub sub_path : d.sub_path ≡ url
    pub corpo : d.corpo ≡ some payload
    pub job : d.job_id ≡ some job_id
    pub mensagem :
        d.mensagem
        ≡ some (txt.◌++◌ "entrega de callback esgotou as retentativas: " (env.wpp.error_text e))

  -- The callback got through and nothing is recorded, or its six calls failed and the error of the
  -- last is. `m` rounds of the six were before.
  pub data Fate (left m : ℕ) (x y : S env) : Type 0 where
    through :
        Rounds ToCallback Success 1000 left m none x.1 y.1
        → deliveries y.1 ≡ suc (deliveries x.1)
        → y.0 ≡ x.0
        → Fate left m x y
    given_up :
        (e : Erro) (d : Dados)
        → Rounds ToCallback Success 1000 left m (some e) x.1 y.1
        → deliveries y.1 ≡ deliveries x.1
        → LastError e d
        → y.0 ≡ (persistir_erro env.wpp x.0 s d).1
        → Fate left m x y

  abbrev call_of : Trace → Result ℕ
  call_of t = checked env (env.fetch t (post_to env url payload))

  abbrev failed : ℕ → Erro → Trace → Trace
  failed n e t = waited (delay n) ∷ posted (post_to env url payload) (err e) ∷ t

  to_callback : ToCallback (post_to env url payload)
  to_callback = record { target = refl; corpo = refl; secret = there (here refl) }

  checked-Success : (f : Result ℕ) (k : ℕ) → checked env f ≡ ok k → Success k
  checked-Success (ok n) k e = elim (Bool-cases (is_success n)) [
    | inl y ↦
        let same : checked env (ok n) ≡ ok n = rw y refl in
        let own : n ≡ k = ok_eq n k (sym same ∙ e) in subst Success own (ground (arith, y))
    | inr m ↦
        let bad : checked env (ok n) ≡ err (outro (txt.◌++◌ "HTTP " (env.wpp.number_text n))) =
          rw m refl in
        let absurd : err (outro (txt.◌++◌ "HTTP " (env.wpp.number_text n))) ≡ ok k = sym bad ∙ e in
        cc
  ]
    where
      ok_eq : (n k : ℕ) → ok n ≡ ok k → n ≡ k
      ok_eq n k h = cc
  checked-Success (err x) k e = cc

  Fate-after :
      (left n : ℕ) (x : Erro) (db : Db) (t : Trace) (y : S env)
      → delay n ≡ 1000 * 2 ^ n
      → Fate (suc left) (n + 1) (db, failed n x t) y
      → Fate (suc (suc left)) n (db, t) y
  Fate-after left n x db t y w (through r d e) =
      through
        (again _ x to_callback (
          subst
            (λ k.
              Rounds ToCallback Success 1000 (suc left) (n + 1) none
                (waited k ∷ posted (post_to env url payload) (err x) ∷ t) y.1)
            w r))
        d e
  Fate-after left n x db t y w (given_up f q r d h e) =
      given_up f q
        (again _ x to_callback (
          subst
            (λ k.
              Rounds ToCallback Success 1000 (suc left) (n + 1) (some f)
                (waited k ∷ posted (post_to env url payload) (err x) ∷ t) y.1)
            w r))
        d h e

  last_error : (e : Erro) → LastError e (dados_callback env url payload job_id e)
  last_error e = record {
    origem = refl;
    sub_path = refl;
    corpo = refl;
    job = refl;
    mensagem = refl;
  }

  tentativas-Called :
      (left n : ℕ) (db : Db) (t : Trace)
      → n + suc left ≡ 6
      → Tried 1000 (suc left) n t (tentativas env s url payload job_id (suc left) n (db, t)).1
        × Fate (suc left) n (db, t) (tentativas env s url payload job_id (suc left) n (db, t))
  unfolding tentativas
  tentativas-Called zero n db t h = elim (Result-cases (call_of t)) [
    | inl (k, e) ↦ rw e (
      delivered 0 (omega arith) refl (omega arith) (pow_zero 1000 n (waiting t)),
      through
          (rounds.through _ k to_callback
            (checked-Success (env.fetch t (post_to env url payload)) k e) refl)
          refl refl,
    )
    | inr (x, e) ↦
        rw (e, le→not_ltb n 5 (omega arith))
          (
            lost refl (omega arith) (pow_zero 1000 n (waiting t)),
            given_up x _ (gave_up _ x to_callback refl) refl (last_error x) refl,
          )
  ]
  tentativas-Called (suc l) n db t h = elim (Result-cases (call_of t)) [
    | inl (k, e) ↦ rw e (
      delivered 0 (omega arith) refl (omega arith) (pow_zero 1000 n (waiting t)),
      through
          (rounds.through _ k to_callback
            (checked-Success (env.fetch t (post_to env url payload)) k e) refl)
          refl refl,
    )
    | inr (x, e) ↦
        let (tried, fate) = tentativas-Called l (n + 1) db (failed n x t) (omega (arith, h)) in
        let wait = delay_pow n (omega (arith, h)) in
        rw (e, lt→ltb n 5 (omega (arith, h)))
          (
            Tried-after 1000 l n {v = failed n x t} refl (omega arith) (omega (arith, wait)) tried,
            Fate-after l n x db t _ wait fate,
          )
  ]

pow_le : (k : ℕ) → k < 6 → 1000 * 2 ^ k ≤ 32000
pow_le zero l = omega arith
pow_le (suc zero) l = omega arith
pow_le (suc (suc zero)) l = omega arith
pow_le (suc (suc (suc zero))) l = omega arith
pow_le (suc (suc (suc (suc zero)))) l = omega arith
pow_le (suc (suc (suc (suc (suc zero))))) l = omega arith
pow_le (suc (suc (suc (suc (suc (suc k)))))) l = omega (arith, l)

bounded : {t u : Trace} → Tried 1000 6 0 t u → waiting u ≤ waiting t + 31000
bounded (delivered k l d a w) = omega (arith, w, pow_le k l, pow_eq 1000 (0 + k) k (omega arith))
bounded (lost d a w) = omega (arith, w)

-- A callback is a POST of the payload to its URL, made at most six times, until one is answered with
-- a status from 200 to 299: then nothing is recorded. After each failed call but the sixth stands a
-- wait, of one second and twice as long each time, at most 31 seconds in all; where all six calls
-- fail, the error of the last is recorded, with the URL, the payload and the job.
pub fire_webhook_with_retry-Called :
    {Db : Type 0} (env : Services Db) (s : Sorteio) (url : String) (payload : Json)
    (job_id : String) (db : Db) (t : Trace)
    → Tried 1000 6 0 t (fire_webhook_with_retry env s url payload job_id (db, t)).1
      × (waiting (fire_webhook_with_retry env s url payload job_id (db, t)).1 ≤ waiting t + 31000)
      × Fate env s url payload job_id 6 0
          (db, t)
          (fire_webhook_with_retry env s url payload job_id (db, t))
unfolding fire_webhook_with_retry
fire_webhook_with_retry-Called env s url payload job_id db t =
    let (tried, fate) = tentativas-Called env s url payload job_id 5 0 db t (omega arith) in
    (tried, bounded tried, fate)
