-- ===== src/Resend.antt =====
-- src/resend/resend.service.ts: dead letters are dispatched again and marked.
pub mod Totals
use whiz_gateway.Base.{
  ℕ, zero, suc, ◌+◌, String, Bool, true, false, not, Option, none, some, List, [], ◌∷◌, map, length,
  select, any, ◌==◌, if◌then◌else◌,
}
use whiz_gateway.Json.{Json, non_empty}
use whiz_gateway.Effects.{
  StatusFalha, outro, Result, ok, err, Trace, Exec, marked, pure, ask, call, attempt, ◌>>=◌, ◌>>◌,
}
use whiz_gateway.Records.{Inbox}
use whiz_gateway.Dispatch as dispatch

-- A dead letter, as the repository gives it.
pub record Mensagem : Type 0 where
  pub id : String
  pub message : Json
  pub id_inbox : Option String
  pub status : StatusFalha
  pub reenviado : Bool
  pub del : Bool
  pub data_ms : ℕ

-- The fields of ListDeadLetterQueryDto that the resend sets.
pub record Filtro : Type 0 where
  pub id_inbox : Option String
  pub data_inicio : Option String
  pub data_fim : Option String
  pub reenviado : Option Bool

pub record ResendInput : Type 0 where
  pub pid : Option String
  pub data_inicio : Option String
  pub data_fim : Option String
  -- false where absent
  pub forcar_reenviadas : Bool

pub record ResendResult : Type 0 where
  pub total : ℕ
  pub reenviadas : ℕ
  pub falhas : ℕ

-- What the service uses: the repositories, and what the dispatch takes from outside.
pub record Services : Type 0 where
  pub find_all_by_pid : Trace → String → Result (List Inbox)
  pub find_many : Trace → Filtro → Result (List Mensagem)
  pub mark_reenviado : Trace → String → Result (Unit {0})
  pub outside : dispatch.Services

-- `if (v)` of an optional text
abbrev pub truthy_text : Option String → Option String
truthy_text none = none
truthy_text (some s) = non_empty s

abbrev pub only_one : List String → Option String
only_one (id ∷ []) = some id
only_one _ = none

abbrev pub filtro_de : ResendInput → List String → Filtro
filtro_de input ids = record {
  id_inbox = only_one ids;
  data_inicio = truthy_text input.data_inicio;
  data_fim = truthy_text input.data_fim;
  reenviado = if input.forcar_reenviadas then none else some false;
}

abbrev pub belongs : List String → Option String → Bool
belongs ids none = false
belongs ids (some id) = any (λ x. x == id) ids

-- With several inboxes, the messages of these.
abbrev pub do_pid : List String → List Mensagem → List Mensagem
do_pid (a ∷ (b ∷ ids)) ms = select (λ m. belongs (a ∷ (b ∷ ids)) (truthy_text m.id_inbox)) ms
do_pid _ ms = ms

unfoldable pub candidatas : ResendInput → List String → List Mensagem → List Mensagem
candidatas input ids ms =
    if input.forcar_reenviadas then do_pid ids ms else select (λ m. not m.reenviado) (do_pid ids ms)

abbrev pub zeros : ResendResult
zeros = record { total = 0; reenviadas = 0; falhas = 0 }

module _ (env : Services) where
  abbrev pub reenviar : String → Mensagem → Exec (Unit {0})
  reenviar id_inbox m = do
    dispatch.handle env.outside id_inbox m.message
    call (λ t. env.mark_reenviado t m.id) (marked m.id)

  -- The body of the loop: a message without inbox, or whose dispatch or mark throws, is a failure.
  abbrev pub uma : Option String → Mensagem → Exec (Result (Unit {0}))
  uma none m = pure (err (outro "sem id_inbox"))
  uma (some id_inbox) m = attempt (reenviar id_inbox m)

  -- `for (const msg of candidates)`
  unfoldable pub reenviar_todas : List Mensagem → ℕ → ℕ → Exec (ℕ × ℕ)
  reenviar_todas [] reenviadas falhas = pure (reenviadas, falhas)
  reenviar_todas (m ∷ ms) reenviadas falhas = do
    r ← uma (truthy_text m.id_inbox) m
    elim r [
      | ok _ ↦ reenviar_todas ms (reenviadas + 1) falhas
      | err _ ↦ reenviar_todas ms reenviadas (falhas + 1)
    ]

  unfoldable pub resend_from : ResendInput → List String → Exec ResendResult
  unfolding reenviar_todas candidatas
  resend_from input ids = do
    messages ← ask (λ t. env.find_many t (filtro_de input ids))
    counts ← reenviar_todas (candidatas input ids messages) 0 0
    pure (record {
      total = length (candidatas input ids messages);
      reenviadas = counts.0;
      falhas = counts.1;
    })

  abbrev pub com_inboxes : ResendInput → List Inbox → Exec ResendResult
  com_inboxes input [] = pure zeros
  com_inboxes input (i ∷ is) = resend_from input (map (λ x. x.id) (i ∷ is))

  abbrev pub com_pid : ResendInput → Option String → Exec ResendResult
  com_pid input none = resend_from input []
  com_pid input (some pid) = do
    inboxes ← ask (λ t. env.find_all_by_pid t pid)
    com_inboxes input inboxes

  unfoldable pub resend : ResendInput → Exec ResendResult
  unfolding resend_from
  resend input = com_pid input (truthy_text input.pid)
