-- ===== src/MetaErrors/Extractor/Places.antt =====
-- Where an error stands in a webhook, as a relation.
use whiz_gateway.Base.{String, ◌≡◌, Option, none, some, List, [], In}
use whiz_gateway.Json.{Json, obj, Props, lookup, as_array, text}
use whiz_gateway.MetaErrors.Extractor.{ErroDeWebhook, Contexto, erro_de, pid_de}

abbrev pub elements : Option (List Json) → List Json
elements none = []
elements (some xs) = xs

-- The elements of the array `o[k]`; what is no array has none.
abbrev pub items : String → Props → List Json
items k o = elements (as_array (lookup k o))

-- `e` is the record of one object of `node.errors`.
pub data InErrors (node : Props) (contexto : Contexto) (e : ErroDeWebhook) : Type 0 where
  at_error :
      (bruto : Props)
      → In (obj bruto) (items "errors" node)
      → e ≡ erro_de node contexto bruto
      → InErrors node contexto e

-- `e` comes from an object of `value.statuses`, with its id, or from the value itself.
pub data InValue (waba_id : Option String) (value : Props) (e : ErroDeWebhook) : Type 0 where
  of_status :
      (status : Props)
      → In (obj status) (items "statuses" value)
      → InErrors status
          (record { referencia = text (lookup "id" status); waba_id = waba_id; pid = pid_de value })
          e
      → InValue waba_id value e
  of_account :
      InErrors value (record { referencia = none; waba_id = waba_id; pid = pid_de value }) e
      → InValue waba_id value e

pub data InChange (waba_id : Option String) (change : Props) (e : ErroDeWebhook) : Type 0 where
  at_value :
      (value : Props)
      → lookup "value" change ≡ some (obj value)
      → InValue waba_id value e
      → InChange waba_id change e

pub data InEntry (entry : Props) (e : ErroDeWebhook) : Type 0 where
  at_change :
      (change : Props)
      → In (obj change) (items "changes" entry)
      → InChange (text (lookup "id" entry)) change e
      → InEntry entry e

pub data InPayload (payload : Props) (e : ErroDeWebhook) : Type 0 where
  at_entry :
      (entry : Props)
      → In (obj entry) (items "entry" payload)
      → InEntry entry e
      → InPayload payload e
