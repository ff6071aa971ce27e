-- ===== src/MetaErrors/Extractor.antt =====
-- src/meta-error-logs/meta-webhook-errors.extractor.ts: the errors that an incoming webhook
-- carries, collected by nested loops that push onto one output list.
pub mod Places
pub mod Adds
pub mod Located
use Prim.Native.String
use whiz_gateway.Base.{String, Option, none, some, List, [], ◌∷◌, ◌++◌, ◌==◌, if◌then◌else◌}
use whiz_gateway.Json.{
  Json, Number, finite, infinite, num, obj, Props, lookup, as_object, as_array, text,
}

pub record ErroDeWebhook : Type 0 where
  pub referencia : Option String
  pub codigo : Option Number
  pub resumo : String
  pub corpo : Props
  pub waba_id : Option String
  pub pid : Option String

pub record Contexto : Type 0 where
  pub referencia : Option String
  pub waba_id : Option String
  pub pid : Option String

-- `numero`
abbrev pub numero : Option Json → Option Number
numero (some (num (finite t))) = some (finite t)
numero _ = none

-- `String(codigo)` of a finite number
abbrev number_text : Option Number → Option String
number_text none = none
number_text (some (finite t)) = some t
number_text (some (infinite _)) = none

-- `a ?? b`
abbrev or_else : Option String → Option String → Option String
or_else none b = b
or_else (some a) b = some a

-- `.filter((p) => !!p)`
abbrev presentes : List (Option String) → List String
presentes [] = []
presentes (none ∷ ps) = presentes ps
presentes (some p ∷ ps) = if p == "" then presentes ps else p ∷ presentes ps

-- `partes.join(' — ')`
abbrev join : List String → String
join [] = ""
join (p ∷ []) = p
join (p ∷ ps) = String.◌++◌ p (String.◌++◌ " — " (join ps))

-- `partes.length > 0 ? partes.join(' — ') : …`
abbrev descrever : List String → String
descrever [] = "erro da Meta sem descrição"
descrever ps = join ps

abbrev property_of_object : String → Option Json → Option Json
property_of_object k (some (obj o)) = lookup k o
property_of_object k _ = none

unfoldable pub resumir_erro : Props → String
unfolding lookup
resumir_erro erro =
    let codigo = numero (lookup "code" erro) in
    let titulo = or_else (text (lookup "title" erro)) (text (lookup "message" erro)) in
    let detalhe = text (property_of_object "details" (lookup "error_data" erro)) in
    descrever (presentes (number_text codigo ∷ titulo ∷ detalhe ∷ []))

-- `for (const x of xs) …`, over the output list
unfoldable pub for_each {ℓ κ} : {A : Type ℓ} {S : Type κ} → (A → S → S) → List A → S → S
for_each step [] s = s
for_each step (x ∷ xs) s = for_each step xs (step x s)

-- `if (!Array.isArray(v)) …` before a loop: what is no array leaves the output as it is
unfoldable pub over_array {ℓ} : {S : Type ℓ} → (Json → S → S) → Option (List Json) → S → S
unfolding for_each
over_array step none s = s
over_array step (some xs) s = for_each step xs s

-- `if (!ehObjeto(v)) continue;` before the body of a loop
unfoldable pub over_object {ℓ} : {S : Type ℓ} → (Props → S → S) → Option Props → S → S
over_object f none s = s
over_object f (some o) s = f o s

-- The record that one error object gives.
pub erro_de : Props → Contexto → Props → ErroDeWebhook
erro_de node contexto bruto = record {
  referencia = contexto.referencia;
  codigo = numero (lookup "code" bruto);
  resumo = resumir_erro bruto;
  corpo = node;
  waba_id = contexto.waba_id;
  pid = contexto.pid;
}

-- `saida.push(…)`
pub coletar_erro : Props → Contexto → Props → List ErroDeWebhook → List ErroDeWebhook
coletar_erro node contexto bruto saida = saida ++ erro_de node contexto bruto ∷ []

unfoldable pub coletar_erros : Props → Contexto → List ErroDeWebhook → List ErroDeWebhook
unfolding over_array over_object coletar_erro erro_de resumir_erro lookup
coletar_erros node contexto =
    over_array (λ bruto. over_object (coletar_erro node contexto) (as_object bruto))
      (as_array (lookup "errors" node))

abbrev pub contexto_de_status : Option String → Option String → Props → Contexto
contexto_de_status waba_id pid status = record {
  referencia = text (lookup "id" status);
  waba_id = waba_id;
  pid = pid;
}

-- the body of the loop over `value.statuses`
pub visitar_status : Option String → Option String → Props → List ErroDeWebhook → List ErroDeWebhook
unfolding coletar_erros
visitar_status waba_id pid status = coletar_erros status (contexto_de_status waba_id pid status)

pub visitar_statuses :
    Option String → Option String → Props → List ErroDeWebhook → List ErroDeWebhook
unfolding visitar_status over_array
visitar_statuses waba_id pid value =
    over_array (λ status. over_object (visitar_status waba_id pid) (as_object status))
      (as_array (lookup "statuses" value))

-- `metadata.phone_number_id`, where `metadata` is an object
abbrev pub pid_de : Props → Option String
pid_de value = text (property_of_object "phone_number_id" (lookup "metadata" value))

pub visitar_value : Option String → Props → List ErroDeWebhook → List ErroDeWebhook
unfolding visitar_statuses
visitar_value waba_id value saida =
    let pid = pid_de value in
    coletar_erros value (record { referencia = none; waba_id = waba_id; pid = pid })
      (visitar_statuses waba_id pid value saida)

abbrev pub object_at : Option Json → Option Props
object_at none = none
object_at (some v) = as_object v

-- the body of the loop over `entry.changes`
pub visitar_change : Option String → Props → List ErroDeWebhook → List ErroDeWebhook
unfolding visitar_value
visitar_change waba_id change =
    over_object (visitar_value waba_id) (object_at (lookup "value" change))

-- the body of the loop over `payload.entry`
pub visitar_entry : Props → List ErroDeWebhook → List ErroDeWebhook
unfolding visitar_change
visitar_entry entry =
    over_array
      (λ change. over_object (visitar_change (text (lookup "id" entry))) (as_object change))
      (as_array (lookup "changes" entry))

unfoldable pub extrair_erros_de_webhook : Props → List ErroDeWebhook
unfolding visitar_entry
extrair_erros_de_webhook payload =
    over_array (λ entry. over_object visitar_entry (as_object entry))
      (as_array (lookup "entry" payload)) []
