-- ===== src/DeadLetters.antt =====
-- src/dead-letter: the stored dead letters, a service over a Prisma repository, the consumer of
-- the dead-letter queue and the daily clean-up. The identifier and the instant that the database
-- gives a new row are arguments.
pub mod Consumer
pub mod Resends
pub mod Lists
pub mod Lifecycle
pub mod Stored
use whiz_gateway.Base.{
  ℕ, ◌-◌, String, Bool, true, false, not, ◌*◌, ◌&&◌, Option, none, some, List, [], ◌∷◌, ◌==◌, eqb,
  leb, ltb, if◌then◌else◌,
}
use whiz_gateway.Json.{Json, null, non_empty}
use whiz_gateway.Effects.{
  Erro, http, outro, Result, ok, err, StatusFalha, Morta, Post, json, Trace, Exec, posted, marked,
  pure, throw, ask, call, ◌>>=◌, ◌>>◌, inbox_nao_registrada, falha_enfileiramento, nack_recebido,
  falha_envio, ambiente_indisponivel, assinatura_invalida,
}
use whiz_gateway.Records.{Ambiente, Inbox}
use whiz_gateway.Table.Logs.{Log}
use whiz_gateway.Resend.{Mensagem, Filtro, truthy_text}

pub record ListQuery : Type 0 where
  -- taken by the route, and read by nothing
  pub pid : Option String
  pub id_inbox : Option String
  pub status : Option StatusFalha
  pub reenviado : Option Bool
  pub data_inicio : Option String
  pub data_fim : Option String
  pub limit : Option ℕ
  pub offset : Option ℕ

-- `new Date(text)` in milliseconds, or no date
abbrev pub Dates : Type 0
Dates = String → Option ℕ

abbrev pub code : StatusFalha → ℕ
code inbox_nao_registrada = 0
code falha_enfileiramento = 1
code nack_recebido = 2
code falha_envio = 3
code ambiente_indisponivel = 4
code assinatura_invalida = 5

abbrev pub or_default : Option ℕ → ℕ → ℕ
or_default none n = n
or_default (some n) _ = n

-- The `where` of the list, with its dates read: `gte` and `lte` of `data` are absent or a date.
abbrev pub is_status : Option StatusFalha → StatusFalha → Bool
is_status none s = true
is_status (some w) s = eqb (code w) (code s)

abbrev pub is_inbox : Option String → Option String → Bool
is_inbox none i = true
is_inbox (some w) none = false
is_inbox (some w) (some i) = w == i

abbrev pub is_reenviado : Option Bool → Bool → Bool
is_reenviado none b = true
is_reenviado (some true) b = b
is_reenviado (some false) b = not b

abbrev pub from_date : Option ℕ → ℕ → Bool
from_date none t = true
from_date (some d) t = leb d t

abbrev pub until_date : Option ℕ → ℕ → Bool
until_date none t = true
until_date (some d) t = leb t d

unfoldable pub matches : ListQuery → Option ℕ → Option ℕ → Mensagem → Bool
matches filter gte lte m =
    not m.del
    && (is_status filter.status m.status
        && (is_inbox (truthy_text filter.id_inbox) m.id_inbox
            && (is_reenviado filter.reenviado m.reenviado
                && (from_date gte m.data_ms && until_date lte m.data_ms))))

-- `new Date(…)` where the text is truthy; the client refuses what is no date
abbrev pub date_of : Option (Option ℕ) → Result (Option ℕ)
date_of none = ok none
date_of (some none) = err (outro "PrismaClientValidationError")
date_of (some (some d)) = ok (some d)

abbrev pub read_date : Dates → Option String → Result (Option ℕ)
read_date dates t = date_of (elim (truthy_text t) [ none ↦ none | some s ↦ some (dates s) ])

abbrev pub thirty_days_ms : ℕ
thirty_days_ms = 30 * 24 * 60 * 60 * 1000

abbrev pub older_than : ℕ → Mensagem → Bool
older_than date m = ltb m.data_ms date

-- The stored row of a new dead letter, with the defaults of the schema.
abbrev pub new_row : String → ℕ → Morta → Mensagem
new_row id agora m = record {
  id = id;
  message = m.message;
  id_inbox = m.id_inbox;
  status = m.status;
  reenviado = false;
  del = false;
  data_ms = agora;
}

module _ {Db : Type 0} (log : Log String Mensagem Db) where
  abbrev pub answered : Db → Result (Mensagem × Db) → Result Mensagem × Db
  answered db (err e) = (err e, db)
  answered db (ok (m, db')) = (ok m, db')

  abbrev pub done : Db → Result (Mensagem × Db) → Result (Unit {0}) × Db
  done db (err e) = (err e, db)
  done db (ok (m, db')) = (ok tt, db')

  -- DeadLetterPrismaRepository
  unfoldable pub create : Db → String → ℕ → Morta → Result Mensagem × Db
  create db id agora m = answered db (log.table.create db (new_row id agora m))

  unfoldable pub repo_find_by_id : Db → String → Option Mensagem
  repo_find_by_id db id = log.table.find_unique db id

  abbrev pub removed : Mensagem → Mensagem
  removed m = record m { del = true }

  abbrev pub delete_found : Db → String → Option Mensagem → Result (Unit {0}) × Db
  delete_found db id none = (err (http 404), db)
  delete_found db id (some _) = done db (log.table.update db id removed)

  unfoldable pub soft_delete : Db → String → Result (Unit {0}) × Db
  soft_delete db id = delete_found db id (log.table.find_unique db id)

  abbrev pub resent : Mensagem → Mensagem
  resent m = record m { reenviado = true }

  unfoldable pub mark_reenviado : Db → String → Result (Unit {0}) × Db
  mark_reenviado db id = done db (log.table.update db id resent)

  abbrev pub counted : Db → Result (ℕ × Db) → Result ℕ × Db
  counted db (err e) = (err e, db)
  counted db (ok (n, db')) = (ok n, db')

  unfoldable pub hard_delete_older_than : Db → ℕ → Result ℕ × Db
  hard_delete_older_than db date = counted db (log.delete_many db (older_than date))

  abbrev pub or_absent : Option Mensagem → Result Mensagem
  or_absent none = err (http 404)
  or_absent (some m) = ok m

  -- DeadLetterService.findById
  unfoldable pub find_by_id : Db → String → Result Mensagem
  unfolding repo_find_by_id
  find_by_id db id = or_absent (repo_find_by_id db id)

  -- DeadLetterCleanupService.handleCron, at the instant `agora`
  unfoldable pub handle_cron : Db → ℕ → Result ℕ × Db
  unfolding hard_delete_older_than
  handle_cron db agora = hard_delete_older_than db (agora - thirty_days_ms)

  abbrev pub page_between :
      Db → ListQuery → Result (Option ℕ) → Result (Option ℕ) → Result (List Mensagem)
  page_between db filter (err e) lte = err e
  page_between db filter (ok gte) (err e) = err e
  page_between db filter (ok gte) (ok lte) = ok (
      log.find_page db (matches filter gte lte) (or_default filter.limit 50)
        (or_default filter.offset 0))

  -- DeadLetterPrismaRepository.findMany
  unfoldable pub find_many : Dates → Db → ListQuery → Result (List Mensagem)
  find_many dates db filter =
      page_between db filter (read_date dates filter.data_inicio) (read_date dates filter.data_fim)
