-- ===== src/Examples/Excecoes.antt =====
-- The exception filter on concrete exceptions.
use whiz_gateway.Base.{◌≡◌, refl, true, false, none, some, List, [], ◌∷◌, ◌⊎◌}
use whiz_gateway.Json.{null}
use whiz_gateway.Effects.{ok, err, outro}
use whiz_gateway.Excecoes.{
  Excecao, http_exception, error, resposta_texto, resposta_objeto, textos, Request, Evento,
  capture_message, logged, answered, Services, resolve, body_of, contexto_of, log_line, catch,
}
use whiz_gateway.Excecoes.Answered.{Reported, catch-Answered}

abbrev plain : Services
plain = record {
  get_client = λ _. ok true;
  sdk = λ _. ok tt;
  production = true;
  now = "2026-01-01T00:00:00.000Z";
  number_text = λ _. "401";
  stringify = λ _. "null";
  byte_length = λ _. 4;
  slice = λ s _. s;
}

-- An SDK that throws.
abbrev broken : Services
broken = record plain { sdk = λ _. err (outro "down") }

abbrev request : Request
request = record {
  method = "POST";
  url = "/webhook/whatsapp";
  headers = null;
  params = null;
  query = null;
  body = none;
}

abbrev unsigned : Excecao
unsigned = http_exception 401 (resposta_texto "Invalid signature") "Invalid signature" none

joined :
    resolve (http_exception 400 (resposta_objeto (textos ("a" ∷ "b" ∷ []))) "Bad Request" none)
    ≡ (400, "a, b")
unfolding resolve
joined = refl

warned_once :
    catch plain unsigned (some request) []
    ≡ answered 401 (record {
      status_code = 401;
      timestamp = "2026-01-01T00:00:00.000Z";
      message = "Invalid signature";
      details = none;
    })
      ∷ logged "HTTP 401 ON POST | /webhook/whatsapp - Invalid signature"
      ∷ capture_message "HTTP 401 em rota de ingestão POST /webhook/whatsapp: Invalid signature"
          (record { status_code = 401; metodo = "POST"; rota = "/webhook/whatsapp" })
      ∷ []
unfolding catch
warned_once = refl

catch-Answered_example :
    (told : List Evento) × (catch broken (error "boom" none) (some request) []
      ≡ answered (resolve (error "boom" none)).0 (body_of broken (error "boom" none) (some request))
        ∷ (logged (log_line broken (error "boom" none) (some request)) ∷ told))
    × Reported broken
        (error "boom" none)
        (contexto_of broken (error "boom" none) (some request))
        []
        told
    × ((broken.production ≡ false)
        ⊎ ((body_of broken (error "boom" none) (some request)).details ≡ none))
catch-Answered_example = catch-Answered broken (error "boom" none) (some request) []
