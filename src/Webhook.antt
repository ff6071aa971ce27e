-- ===== src/Webhook.antt =====
-- src/webhook/webhook.service.ts: the resolution of the inboxes of a webhook and the start of a
-- dispatch for each. The signature guard is in Webhook/Guard.
pub mod Guard
pub mod Pid
pub mod Fans
use whiz_gateway.Base.{String, Bool, Option, none, some, List, [], ◌∷◌, if◌then◌else◌}
use whiz_gateway.Json.{Json, obj, Props, lookup, get, as_array, text, when_truthy}
use whiz_gateway.Effects.{
  Result, Trace, Exec, Morta, inbox_nao_registrada, enqueued, dispatched, inspected, pure, emit,
  ask, call, ◌>>=◌, ◌>>◌,
}
use whiz_gateway.Records.{Inbox}

-- What the service takes from the inbox repository and the broker, and whether the error log,
-- which is optional, is there.
pub record Services : Type 0 where
  pub find_all_by_pid : Trace → String → Result (List Inbox)
  pub find_all_by_waba_id : Trace → String → Result (List Inbox)
  pub send_to_queue : Trace → Morta → Result (Unit {0})
  pub has_error_log : Bool

abbrev pub and_then : {A B : Type 0} → Option A → (A → Option B) → Option B
and_then none f = none
and_then (some a) f = f a

-- `!Array.isArray(v) || v.length === 0` gives nothing, else `v[0]`
abbrev pub first : Option (List Json) → Option Json
first none = none
first (some []) = none
first (some (v ∷ _)) = some v

-- `entry[0]`; a `null` there is kept out by the callers' truthiness test
pub primeiro_change : Props → Option Json
unfolding lookup
primeiro_change payload = when_truthy (first (as_array (lookup "entry" payload)))

abbrev pub pid_de_metadata : Json → Option String
pid_de_metadata metadata = text (get "phone_number_id" metadata)

abbrev pub pid_de_value : Json → Option String
pid_de_value value = and_then (when_truthy (get "metadata" value)) pid_de_metadata

abbrev pub pid_de_change : Json → Option String
pid_de_change change = and_then (when_truthy (get "value" change)) pid_de_value

abbrev pub pid_de_entry : Json → Option String
pid_de_entry entry = and_then (when_truthy (first (as_array (get "changes" entry)))) pid_de_change

unfoldable pub extract_pid : Props → Option String
unfolding primeiro_change
extract_pid payload = and_then (primeiro_change payload) pid_de_entry

unfoldable pub extract_waba_id : Props → Option String
unfolding primeiro_change
extract_waba_id payload = and_then (primeiro_change payload) λ entry. text (get "id" entry)

-- The dead letter of a webhook of which no inbox is registered.
abbrev pub sem_inbox : Props → Morta
sem_inbox payload = record { message = obj payload; id_inbox = none; status = inbox_nao_registrada }

module _ (env : Services) where
  -- the second step: by the WABA
  pub por_waba : Option String → Exec (List Inbox)
  por_waba none = pure []
  por_waba (some waba_id) = ask (λ t. env.find_all_by_waba_id t waba_id)

  pub ou_por_waba : Option String → List Inbox → Exec (List Inbox)
  unfolding por_waba
  ou_por_waba waba_id [] = por_waba waba_id
  ou_por_waba waba_id (i ∷ is) = pure (i ∷ is)

  pub por_pid : Option String → Option String → Exec (List Inbox)
  unfolding ou_por_waba
  por_pid none waba_id = por_waba waba_id
  por_pid (some pid) waba_id = do
    found ← ask (λ t. env.find_all_by_pid t pid)
    ou_por_waba waba_id found

  pub resolver_inboxes : Props → Exec (List Inbox)
  unfolding por_pid
  resolver_inboxes payload = por_pid (extract_pid payload) (extract_waba_id payload)

  -- `for (const inbox of inboxes)`: each dispatch is started, with its own `catch`
  pub despachar_todos : Props → List Inbox → Exec (Unit {0})
  despachar_todos payload [] = pure tt
  despachar_todos payload (i ∷ is) = do
    emit (dispatched i.id (obj payload))
    despachar_todos payload is

  pub despachar : Props → List Inbox → Exec (Unit {0})
  unfolding despachar_todos
  despachar payload [] =
      call (λ t. env.send_to_queue t (sem_inbox payload)) (enqueued (sem_inbox payload))
  despachar payload (i ∷ is) = despachar_todos payload (i ∷ is)

  pub inspecionar : Props → Exec (Unit {0})
  inspecionar payload = if env.has_error_log then emit (inspected (obj payload)) else pure tt

  unfoldable pub handle_incoming : Props → Exec (Unit {0})
  unfolding inspecionar resolver_inboxes despachar
  handle_incoming payload = do
    inspecionar payload
    inboxes ← resolver_inboxes payload
    despachar payload inboxes
