-- ===== src/Examples/Requests.antt =====
-- The signature guard and the error extractor on concrete requests.
use Prim.Native.String as txt
use Prim.Native.Char.{code}
use text.Mathlib.TextEquality.{Char-path}
use whiz_gateway.Base.{ℕ, ◌≡◌, ◌↔◌, refl, String, Option, none, some, List, [], ◌∷◌, In, true}
use whiz_gateway.Json.{str, arr, obj, num, finite, Props, no_member, member, nil, cons}
use whiz_gateway.Effects.{ok, err, outro}
use whiz_gateway.Webhook.Guard.{Request, one, Services, can_activate, verify}
use whiz_gateway.Webhook.Guard.Handshake.{verify_iff}
use whiz_gateway.Webhook.Guard.Admits.{
  Injective, Verdict, IsSigned, can_activate-Verdict, can_activate_iff,
}
use whiz_gateway.MetaErrors.Extractor.{erro_de, ErroDeWebhook, extrair_erros_de_webhook}
use whiz_gateway.MetaErrors.Extractor.Places.{InPayload}
use whiz_gateway.MetaErrors.Extractor.Located.{extrair_erros_de_webhook_iff}

-- The numbers of the characters, in the place of their UTF-8.
abbrev pub codes : String → List ℕ
codes txt.[] = []
codes (txt.◌∷◌ c s) = code c ∷ codes s

pub codes_inj : Injective codes
codes_inj txt.[] txt.[] e = refl
codes_inj txt.[] (txt.◌∷◌ d t) e = cc
codes_inj (txt.◌∷◌ c s) txt.[] e = cc
codes_inj (txt.◌∷◌ c s) (txt.◌∷◌ d t) e = cc (Char-path c d (cc), codes_inj s t (cc))

abbrev meta_body : Props
meta_body = member "object" (str "whatsapp") (member "entry" (arr nil) no_member)

-- A digest of one letter.
abbrev guarded : Services
guarded = record {
  hmac_sha256_hex = λ key body. "d";
  utf8 = codes;
  parse_json = λ body. ok (obj meta_body);
  send_to_queue = λ t m. err (outro "closed");
  app_secret = some "segredo";
}

abbrev signed : Request
signed = record { signature = one "sha256=d"; raw_body = some (123 ∷ 125 ∷ []) }

abbrev forged : Request
forged = record { signature = one "sha256=e"; raw_body = some (123 ∷ 125 ∷ []) }

can_activate-Verdict_example : Verdict guarded forged [] (can_activate guarded forged [])
can_activate-Verdict_example = can_activate-Verdict guarded forged [] codes_inj

can_activate_iff_example :
    ((can_activate guarded signed []).0 ≡ ok true)
    ↔ ((body : List ℕ) × IsSigned guarded signed body)
can_activate_iff_example = can_activate_iff guarded signed [] codes_inj

abbrev mode : Option String
mode = some "subscribe"

abbrev token : Option String
token = some "t"

abbrev challenge : Option String
challenge = some "42"

verify_iff_example :
    (verify token mode token challenge ≡ ok challenge)
    ↔ ((mode ≡ some "subscribe") × (token ≡ token) × (challenge ≡ challenge))
verify_iff_example = verify_iff token mode token challenge challenge

abbrev error : Props
error = member "code" (num (finite "131026")) no_member

abbrev status : Props
status = member "id" (str "wamid") (member "errors" (arr (cons (obj error) nil)) no_member)

abbrev value : Props
value = member "statuses" (arr (cons (obj status) nil)) no_member

abbrev failed : Props
failed =
    member "entry"
      (arr (
        cons
          (obj (
            member "changes" (arr (cons (obj (member "value" (obj value) no_member)) nil))
              no_member))
          nil))
      no_member

abbrev collected : ErroDeWebhook
collected = erro_de status (record { referencia = some "wamid"; waba_id = none; pid = none }) error

extrair_erros_de_webhook_iff_example :
    In collected (extrair_erros_de_webhook failed) ↔ InPayload failed collected
extrair_erros_de_webhook_iff_example = extrair_erros_de_webhook_iff failed collected
