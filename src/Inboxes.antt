-- ===== src/Inboxes.antt =====
-- src/inbox: which inbox a phone number or a WABA has in which environment, a service over a Prisma
-- repository. The identifier and the instant that the database gives a new row are arguments.
pub mod Creation
pub mod Wabas
use whiz_gateway.Base.{
  ℕ, String, Bool, true, false, not, ◌&&◌, ◌||◌, Option, none, some, List, [], ◌∷◌, eqb, ltb, ◌==◌,
  any, if◌then◌else◌,
}
use whiz_gateway.Json.{non_empty}
use whiz_gateway.Effects.{Result, ok, err, Erro, http}
use whiz_gateway.Records.{Inbox}
use whiz_gateway.Table.{Table}

pub record CreateInbox : Type 0 where
  pub id_ambiente : ℕ
  pub pid : String
  pub nome : String
  pub waba_id : Option String

-- The body of PATCH: absent fields are left as they are.
pub record UpdateInbox : Type 0 where
  pub nome : Option String
  pub id_ambiente : Option ℕ
  -- absent, `null` or a text
  pub waba_id : Option (Option String)

-- What the repository uses from outside: the table, its ordered reads, and whether
-- `ambiente.findUnique({ where: { id, del: false } })` finds the environment.
pub record Services (Db : Type 0) : Type 0 where
  pub table : Table String Inbox Db
  pub order_by : (Inbox → Inbox → Bool) → List Inbox → List Inbox
  pub ambiente_ativo : ℕ → Bool

abbrev pub has_pair : String → ℕ → Inbox → Bool
has_pair pid id_ambiente r = r.pid == pid && eqb r.id_ambiente id_ambiente

-- `where: { pid, id_ambiente, del }`
abbrev pub has_pair_del : String → ℕ → Bool → Inbox → Bool
has_pair_del pid id_ambiente del r =
    has_pair pid id_ambiente r && (if del then r.del else not r.del)

abbrev pub has_waba : String → Inbox → Bool
has_waba waba_id r = (elim r.waba_id [ none ↦ false | some w ↦ w == waba_id ]) && not r.del

abbrev pub by_ambiente : Inbox → Inbox → Bool
by_ambiente r s = ltb r.id_ambiente s.id_ambiente

abbrev pub by_ambiente_data : Inbox → Inbox → Bool
by_ambiente_data r s =
    ltb r.id_ambiente s.id_ambiente || (eqb r.id_ambiente s.id_ambiente && ltb r.data_ms s.data_ms)

-- `if (!porAmbiente.has(r.id_ambiente)) porAmbiente.set(r.id_ambiente, r)`, with the environments
-- that the map has; its values come in the order of insertion.
unfoldable pub um_por_ambiente : List ℕ → List Inbox → List Inbox
um_por_ambiente seen [] = []
um_por_ambiente seen (r ∷ rs) =
    if any (eqb r.id_ambiente) seen
    then um_por_ambiente seen rs
    else r ∷ um_por_ambiente (r.id_ambiente ∷ seen) rs

-- `...(data.nome ? { nome: data.nome } : {})`
abbrev pub or_kept : String → String → String
or_kept new old = if new == "" then old else new

abbrev pub or_kept_waba : Option String → Option String → Option String
or_kept_waba none old = old
or_kept_waba (some w) old = if w == "" then old else some w

abbrev pub given {ℓ} : {A : Type ℓ} → Option A → A → A
given none old = old
given (some new) old = new

abbrev pub revived : CreateInbox → Inbox → Inbox
revived dto r = record r {
  del = false;
  nome = or_kept dto.nome r.nome;
  waba_id = or_kept_waba dto.waba_id r.waba_id;
}

abbrev pub changed : UpdateInbox → Inbox → Inbox
changed dto r = record r {
  nome = given dto.nome r.nome;
  id_ambiente = given dto.id_ambiente r.id_ambiente;
  waba_id = given dto.waba_id r.waba_id;
}

abbrev pub new_row : String → ℕ → CreateInbox → Inbox
new_row id agora dto = record {
  id = id;
  id_ambiente = dto.id_ambiente;
  pid = dto.pid;
  nome = dto.nome;
  waba_id = dto.waba_id;
  del = false;
  data_ms = agora;
}

abbrev pub if_active : Option Inbox → Option Inbox
if_active none = none
if_active (some r) = if r.del then none else some r

module _ {Db : Type 0} (env : Services Db) where
  -- InboxPrismaRepository
  unfoldable pub repo_find_all : Db → List Inbox
  repo_find_all db = env.table.find_many db (λ r. not r.del)

  unfoldable pub repo_find_by_id : Db → String → Option Inbox
  repo_find_by_id db id = if_active (env.table.find_unique db id)

  unfoldable pub find_all_by_pid : Db → String → List Inbox
  find_all_by_pid db pid =
      env.order_by by_ambiente (env.table.find_many db (λ r. r.pid == pid && not r.del))

  unfoldable pub find_by_pid_e_ambiente : Db → String → ℕ → Option Inbox
  find_by_pid_e_ambiente db pid id_ambiente =
      env.table.find_first db (has_pair_del pid id_ambiente false)

  unfoldable pub find_all_by_waba_id : Db → String → List Inbox
  unfolding um_por_ambiente
  find_all_by_waba_id db waba_id =
      um_por_ambiente [] (env.order_by by_ambiente_data (env.table.find_many db (has_waba waba_id)))

  abbrev pub row_of : Db → Result (Inbox × Db) → Result (Option Inbox) × Db
  row_of db (err e) = (err e, db)
  row_of db (ok (r, db')) = (ok (some r), db')

  abbrev pub revive_row : Db → CreateInbox → Option Inbox → Result (Option Inbox) × Db
  revive_row db dto none = (ok none, db)
  revive_row db dto (some r) =
      if env.ambiente_ativo dto.id_ambiente
      then row_of db (env.table.update db r.id (revived dto))
      else (err (http 400), db)

  unfoldable pub revive_by_pid_e_ambiente : Db → CreateInbox → Result (Option Inbox) × Db
  revive_by_pid_e_ambiente db dto =
      revive_row db dto (env.table.find_first db (has_pair_del dto.pid dto.id_ambiente true))

  abbrev pub stored : Db → Result (Inbox × Db) → Result Inbox × Db
  stored db (err e) = (err e, db)
  stored db (ok (r, db')) = (ok r, db')

  unfoldable pub repo_create : Db → String → ℕ → CreateInbox → Result Inbox × Db
  repo_create db id agora dto =
      if env.ambiente_ativo dto.id_ambiente
      then stored db (env.table.create db (new_row id agora dto))
      else (err (http 400), db)

  unfoldable pub repo_update : Db → String → UpdateInbox → Result Inbox × Db
  repo_update db id dto = stored db (env.table.update db id (changed dto))

  unfoldable pub repo_soft_delete : Db → String → Result Inbox × Db
  repo_soft_delete db id = stored db (env.table.update db id (λ r. record r { del = true }))

  -- InboxService
  unfoldable pub find_by_id : Db → String → Result Inbox
  unfolding repo_find_by_id
  find_by_id db id = elim (repo_find_by_id db id) [ none ↦ err (http 404) | some r ↦ ok r ]

  abbrev pub or_created : String → ℕ → CreateInbox → Result (Option Inbox) × Db → Result Inbox × Db
  or_created id agora dto (err e, db) = (err e, db)
  or_created id agora dto (ok (some r), db) = (ok r, db)
  or_created id agora dto (ok none, db) = repo_create db id agora dto

  abbrev pub create_unless : Db → String → ℕ → CreateInbox → Option Inbox → Result Inbox × Db
  create_unless db id agora dto (some _) = (err (http 409), db)
  create_unless db id agora dto none = or_created id agora dto (revive_by_pid_e_ambiente db dto)

  unfoldable pub create : Db → String → ℕ → CreateInbox → Result Inbox × Db
  unfolding find_by_pid_e_ambiente revive_by_pid_e_ambiente repo_create
  create db id agora dto =
      create_unless db id agora dto (find_by_pid_e_ambiente db dto.pid dto.id_ambiente)

  abbrev pub if_found : Db → Result Inbox → Result Inbox × Db → Result Inbox × Db
  if_found db (err e) next = (err e, db)
  if_found db (ok _) next = next

  unfoldable pub update : Db → String → UpdateInbox → Result Inbox × Db
  unfolding find_by_id repo_update
  update db id dto = if_found db (find_by_id db id) (repo_update db id dto)

  unfoldable pub soft_delete : Db → String → Result Inbox × Db
  unfolding find_by_id repo_soft_delete
  soft_delete db id = if_found db (find_by_id db id) (repo_soft_delete db id)
