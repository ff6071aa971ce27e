-- ===== src/Excecoes.antt =====
-- src/common/filters/global-exception.filter.ts over src/sentry/sentry.service.ts: what is thrown in a
-- request is reported to the Sentry SDK, logged and answered. The SDK, the configuration, the clock,
-- JavaScript's `String`, `JSON.stringify` and `slice` are fields of `Services`.
pub mod Answered
use Prim.Native.String as txt
use text.Mathlib.Text.{starts_with}
use whiz_gateway.Base.{
  ℕ, String, Bool, true, false, not, ◌&&◌, ◌||◌, Option, none, some, List, [], ◌∷◌, eqb, leb, ltb,
  ◌==◌, any, if◌then◌else◌,
}
use whiz_gateway.Json.{Json, str}
use whiz_gateway.Effects.{Result, ok, err}

-- `message` in the response of an `HttpException`: texts, as the validation gives, a text, or neither.
pub data Mensagem : Type 0 where
  textos : List String → Mensagem
  texto : String → Mensagem
  sem_texto : Mensagem

pub data Resposta : Type 0 where
  resposta_texto : String → Resposta
  resposta_objeto : Mensagem → Resposta

-- What is thrown: an `HttpException` with its status, response, message and stack, another `Error`
-- with its message and stack, or any other value, by `String(value)`.
pub data Excecao : Type 0 where
  http_exception : ℕ → Resposta → String → Option String → Excecao
  error : String → Option String → Excecao
  value : String → Excecao

pub record Request : Type 0 where
  pub method : String
  pub url : String
  pub headers : Json
  pub params : Json
  pub query : Json
  pub body : Option Json

pub record Details : Type 0 where
  -- the request's headers, parameters, query and body
  pub request : Option (((Json × Json) × Json) × Option Json)
  pub stack : Option String

-- ErrorResponseDto
pub record Body : Type 0 where
  pub status_code : ℕ
  pub timestamp : String
  pub message : String
  pub details : Option Details

-- ContextoExcecaoHttp
pub record Contexto : Type 0 where
  pub status_code : ℕ
  pub metodo : String
  pub rota : String

pub data Evento : Type 0 where
  -- `Sentry.captureException(excecao, { level: 'error', tags })`
  capture_exception : Excecao → Contexto → Evento
  -- `Sentry.captureMessage(mensagem, { level: 'warning', tags })`
  capture_message : String → Contexto → Evento
  -- `loggerService.error(text, MARCADOR_SENTRY_IGNORAR)`
  logged : String → Evento
  -- `response.status(status).json(body)`
  answered : ℕ → Body → Evento

pub record Services : Type 0 where
  -- `Sentry.getClient() !== undefined`, or what it throws
  pub get_client : List Evento → Result Bool
  -- whether the call of the SDK returns
  pub sdk : Evento → Result (Unit {0})
  pub production : Bool
  pub now : String
  pub number_text : ℕ → String
  pub stringify : Json → String
  -- `Buffer.byteLength(s, 'utf8')`
  pub byte_length : String → ℕ
  -- `s.slice(0, n)`
  pub slice : String → ℕ → String

abbrev pub max_payload_body_bytes : ℕ
max_payload_body_bytes = 10240

abbrev pub rotas_de_ingestao : List String
rotas_de_ingestao = "/webhook" ∷ []

-- `message.join(', ')`
unfoldable pub join : List String → String
join [] = ""
join (s ∷ []) = s
join (s ∷ (r ∷ rs)) = txt.◌++◌ s (txt.◌++◌ ", " (join (r ∷ rs)))

unfoldable pub extract_message : Resposta → String
unfolding join
extract_message (resposta_texto s) = s
extract_message (resposta_objeto (textos ss)) = join ss
extract_message (resposta_objeto (texto s)) = s
extract_message (resposta_objeto sem_texto) = "Error"

unfoldable pub resolve : Excecao → ℕ × String
unfolding extract_message
resolve (http_exception status res message stack) = (status, extract_message res)
resolve (error message stack) = (500, message)
resolve (value s) = (500, "Internal Server Error")

-- `exception instanceof Error && exception.stack`
abbrev pub if_text : Option String → Option String
if_text none = none
if_text (some s) = if s == "" then none else some s

abbrev pub stack_of : Excecao → Option String
stack_of (http_exception _ _ _ stack) = if_text stack
stack_of (error _ stack) = if_text stack
stack_of (value _) = none

unfoldable pub descrever : Excecao → String
descrever (http_exception _ _ message _) = message
descrever (error message _) = message
descrever (value s) = s

unfoldable pub eh_rota_de_ingestao : String → Bool
eh_rota_de_ingestao rota = any (λ prefixo. starts_with rota prefixo) rotas_de_ingestao

abbrev pub method_of : Option Request → String
method_of none = "UNKNOWN"
method_of (some r) = r.method

abbrev pub route_of : Option Request → String
route_of none = "UNKNOWN"
route_of (some r) = r.url

abbrev pub concat : List String → String
concat [] = ""
concat (s ∷ ss) = txt.◌++◌ s (concat ss)

module _ (env : Services) where
  -- SentryService
  unfoldable pub esta_habilitado : List Evento → Bool
  esta_habilitado t = elim (env.get_client t) [ ok b ↦ b | err _ ↦ false ]

  -- The SDK's own event is made where its call returns; what it throws is dropped.
  abbrev pub sent : Evento → Result (Unit {0}) → List Evento → List Evento
  sent e (ok _) t = e ∷ t
  sent e (err _) t = t

  unfoldable pub executar_com_protecao : Evento → List Evento → List Evento
  unfolding esta_habilitado
  executar_com_protecao e t = if esta_habilitado t then sent e (env.sdk e) t else t

  abbrev pub aviso : Excecao → Contexto → String
  aviso e c = concat (
      "HTTP "
      ∷ env.number_text c.status_code
      ∷ " em rota de ingestão "
      ∷ c.metodo
      ∷ " "
      ∷ c.rota
      ∷ ": "
      ∷ descrever e
      ∷ [])

  unfoldable pub capturar_excecao_http : Excecao → Contexto → List Evento → List Evento
  unfolding executar_com_protecao eh_rota_de_ingestao descrever
  capturar_excecao_http e c t =
      if leb 500 c.status_code
      then executar_com_protecao (capture_exception e c) t
      else if (eqb c.status_code 401 || eqb c.status_code 403) && eh_rota_de_ingestao c.rota
      then executar_com_protecao (capture_message (aviso e c) c) t
      else t

  -- GlobalExceptionFilter
  unfoldable pub truncate : Json → Json
  truncate body =
      let serialized = env.stringify body in
      if ltb max_payload_body_bytes (env.byte_length serialized)
      then str (txt.◌++◌ (env.slice serialized max_payload_body_bytes) "…")
      else body

  abbrev pub details_request : Option Request → Option (((Json × Json) × Json) × Option Json)
  details_request none = none
  details_request (some r) =
      some
        (((r.headers, r.params), r.query), elim r.body [ none ↦ none | some b ↦ some (truncate b) ])

  unfoldable pub build_details : Option Request → Excecao → Details
  unfolding truncate
  build_details request e = record { request = details_request request; stack = stack_of e }

  abbrev pub body_of : Excecao → Option Request → Body
  body_of e request = record {
    status_code = (resolve e).0;
    timestamp = env.now;
    message = (resolve e).1;
    details = if env.production then none else some (build_details request e);
  }

  abbrev pub contexto_of : Excecao → Option Request → Contexto
  contexto_of e request = record {
    status_code = (resolve e).0;
    metodo = method_of request;
    rota = route_of request;
  }

  abbrev pub log_line : Excecao → Option Request → String
  log_line e request = concat (
      "HTTP "
      ∷ env.number_text (resolve e).0
      ∷ " ON "
      ∷ method_of request
      ∷ " | "
      ∷ route_of request
      ∷ " - "
      ∷ (resolve e).1
      ∷ [])

  -- What the filter makes of what is thrown, the latest event first.
  unfoldable pub catch : Excecao → Option Request → List Evento → List Evento
  unfolding resolve build_details capturar_excecao_http
  catch e request t =
      answered (resolve e).0 (body_of e request)
      ∷ (logged (log_line e request) ∷ capturar_excecao_http e (contexto_of e request) t)
