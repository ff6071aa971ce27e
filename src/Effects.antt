-- ===== src/Effects.antt =====
-- What the services do to the world outside: thrown values, the trace of the calls that have an
-- effect, and the actions that read and extend it. A call's answer is recorded with the call.
pub mod Counts
pub mod Keeps
pub mod Rounds
use whiz_gateway.Base.{ℕ, String, Option, List, ◌∷◌, ◌≡◌, refl, ◌⊎◌, inl, inr}
use whiz_gateway.Json.{Json}

-- A thrown value, as far as the program looks into it.
pub data Erro : Type 0 where
  -- a Nest `HttpException` with this status
  http : ℕ → Erro
  -- an error with a `response`, as axios throws for a 4xx or 5xx answer: its status and body
  resposta : ℕ → Json → Erro
  -- any other value, by `String(err)`
  outro : String → Erro

pub data Result {ℓ} (A : Type ℓ) : Type ℓ where
  ok : A → Result A
  err : Erro → Result A

-- prisma/schema.prisma, `StatusFalhaMensagem`
pub data StatusFalha : Type 0 where
  inbox_nao_registrada falha_enfileiramento nack_recebido : StatusFalha
  falha_envio ambiente_indisponivel assinatura_invalida : StatusFalha

-- The payload of the dead-letter queue.
pub record Morta : Type 0 where
  pub message : Json
  pub id_inbox : Option String
  pub status : StatusFalha

-- The body of a POST: a value that axios serialises, or bytes as they came.
pub data Corpo : Type 0 where
  json : Json → Corpo
  raw : List ℕ → Corpo

-- A POST that the gateway makes.
pub record Post : Type 0 where
  pub url : String
  pub corpo : Corpo
  pub headers : List (String × String)

-- The metrics that the dispatch counts (src/sentry/sentry.constants.ts).
pub data Metrica : Type 0 where
  despacho_tentativa despacho_sucesso despacho_falha despacho_duracao : Metrica
  dlq_enfileiramento : Metrica

pub data Event : Type 0 where
  -- `sendToQueue(DLQ_NAME, m)`
  enqueued : Morta → Result (Unit {0}) → Event
  posted : Post → Result ℕ → Event
  waited : ℕ → Event
  counted : Metrica → Event
  -- `redirecionamentosWebhooksService.dispatch(payload)`, started and not awaited
  redirected : Json → Event
  -- `dispatchHandler.handle(id, payload)`, started and not awaited
  dispatched : String → Json → Event
  -- `redis.set(key, value, ttl)`
  cached : String → String → Result (Unit {0}) → Event
  -- `persistirErrosDeWebhook(payload)`, started and not awaited
  inspected : Json → Event
  -- `fs.promises.unlink(path)`, whose failure is dropped
  unlinked : String → Event
  -- `dlRepo.markReenviado(id)`
  marked : String → Result (Unit {0}) → Event

-- The calls made so far, the latest first.
abbrev pub Trace : Type 0
Trace = List Event

abbrev pub Exec : Type 0 → Type 0
Exec A = Trace → Result A × Trace

abbrev pub continue : {A B : Type 0} → (A → Exec B) → Result A × Trace → Result B × Trace
continue f (ok a, t) = f a t
continue f (err e, t) = (err e, t)

infixl 5 ◌>>=◌ ◌>>◌
abbrev pub ◌>>=◌ : {A B : Type 0} → Exec A → (A → Exec B) → Exec B
◌>>=◌ m f t = continue f (m t)

abbrev pub ◌>>◌ : {A B : Type 0} → Exec A → Exec B → Exec B
◌>>◌ m n t = continue (λ _. n) (m t)

abbrev pub pure : {A : Type 0} → A → Exec A
pure a t = (ok a, t)

abbrev pub throw : {A : Type 0} → Erro → Exec A
throw e t = (err e, t)

abbrev pub emit : Event → Exec (Unit {0})
emit e t = (ok tt, e ∷ t)

-- A call that leaves no effect: its answer may depend on all that was done before.
abbrev pub ask : {A : Type 0} → (Trace → Result A) → Exec A
ask f t = (f t, t)

-- A call with an effect, recorded with its answer.
abbrev pub call : {A : Type 0} → (Trace → Result A) → (Result A → Event) → Exec A
call f note t = let r = f t in (r, note r ∷ t)

-- `try { … } catch (err) { log }`: the effects stay, the error is dropped.
abbrev pub swallow : {A : Type 0} → Exec A → Exec (Unit {0})
swallow m t = (ok tt, (m t).1)

-- `try { m } catch (err) { … }`: the answer of `m` as a value.
abbrev pub attempt : {A : Type 0} → Exec A → Exec (Result A)
attempt m t = let (r, t') = m t in (ok r, t')

pub Result-cases : {A : Type 0} (r : Result A) → ((a : A) × (r ≡ ok a)) ⊎ ((e : Erro) × (r ≡ err e))
Result-cases (ok a) = inl (a, refl)
Result-cases (err e) = inr (e, refl)

-- Nothing is left to do after `m`.
pub continue-done : (r : Result (Unit {0})) (t : Trace) → continue (λ _. pure tt) (r, t) ≡ (r, t)
continue-done (ok tt) t = refl
continue-done (err e) t = refl
