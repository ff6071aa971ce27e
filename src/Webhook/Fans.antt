-- ===== src/Webhook/Fans.antt =====
-- On `handle_incoming` of src/webhook/webhook.service.ts: the resolution and the fan-out, as relations.
use mathlib.Core.List.{reverse}
use whiz_gateway.Base.{String, ◌≡◌, none, some, List, [], ◌∷◌, ◌++◌, map, if◌then◌else◌}
use whiz_gateway.Json.{obj, Props}
use whiz_gateway.Effects.{ok, Trace, Morta, inspected}
use whiz_gateway.Effects.Counts.{dead_letters, dispatches}
use whiz_gateway.Records.{Inbox}
use whiz_gateway.Webhook.{Services, extract_pid, extract_waba_id, sem_inbox}

-- The inboxes of a webhook: those registered with its phone number; where there are none, those
-- of its WABA; where there are none either, none.
pub data Resolved (env : Services) (payload : Props) (t : Trace) : List Inbox → Type 0 where
  by_pid :
      (pid : String) (i : Inbox) (is : List Inbox)
      → extract_pid payload ≡ some pid
      → env.find_all_by_pid t pid ≡ ok (i ∷ is)
      → Resolved env payload t (i ∷ is)
  by_waba :
      (waba_id : String) (is : List Inbox)
      → ((pid : String) → extract_pid payload ≡ some pid → env.find_all_by_pid t pid ≡ ok [])
      → extract_waba_id payload ≡ some waba_id
      → env.find_all_by_waba_id t waba_id ≡ ok is
      → Resolved env payload t is
  nowhere :
      ((pid : String) → extract_pid payload ≡ some pid → env.find_all_by_pid t pid ≡ ok [])
      → extract_waba_id payload ≡ none
      → Resolved env payload t []

-- The repository and the broker answer.
pub record Answers (env : Services) : Type 0 where
  pub pid : (t : Trace) (p : String) → (is : List Inbox) × (env.find_all_by_pid t p ≡ ok is)
  pub waba : (t : Trace) (w : String) → (is : List Inbox) × (env.find_all_by_waba_id t w ≡ ok is)
  pub queue : (t : Trace) (m : Morta) → env.send_to_queue t m ≡ ok tt

-- The dead letter of a webhook that has no inbox.
abbrev pub letter : Props → List Inbox → List Morta
letter payload [] = sem_inbox payload ∷ []
letter payload (_ ∷ _) = []

-- What becomes of a webhook with these inboxes: a dispatch of the payload to each, in their order,
-- and a dead letter only if there is none.
pub record Fanned (payload : Props) (is : List Inbox) (t u : Trace) : Type 0 where
  pub sent : dispatches u ≡ reverse (map (λ i. (i.id, obj payload)) is) ++ dispatches t
  pub letters : dead_letters u ≡ letter payload is ++ dead_letters t

-- The trace when the inboxes are looked up: the error log has been given the webhook, if it is there.
abbrev pub begun : Services → Props → Trace → Trace
begun env payload t = if env.has_error_log then inspected (obj payload) ∷ t else t
