-- ===== src/Redirections/Active.antt =====
-- On `dispatch` of src/redirecionamentos-webhooks/redirecionamentos-webhooks.service.ts: the rows
-- that it reads, and its report.
use whiz_gateway.Base.{
  ℕ, String, ◌≡◌, refl, sym, subst, ap, ◌∙◌, ◌↔◌, ◌⊎◌, true, false, Option, none, some, inl, inr,
  Bool-cases, List, [], ◌∷◌, ◌++◌, map, length, In, here, there, In-append_left, In-append_right,
  In-append_cases, eqb, eqb_iff, any,
}
use mathlib.Core.Bool.{false≢true}
use whiz_gateway.Json.{Props}
use whiz_gateway.Effects.{Trace, Result, ok}
use whiz_gateway.Records.{Inbox}
use whiz_gateway.Table.{Lawful}
use whiz_gateway.Webhook.{extract_pid}
use whiz_gateway.Redirections.{
  Services, Redirection, is_active, find_active_by_ambiente, distintos, ativos, com_pid,
  enviar_todos, dispatch,
}
use whiz_gateway.Redirections.Sends.{SentAll, enviar_todos-Sent}

distintos_to : (seen l : List ℕ) (a : ℕ) → In a (distintos seen l) → In a l
unfolding distintos
distintos_to seen [] a m = m
distintos_to seen (x ∷ l) a m = elim (Bool-cases (any (eqb x) seen)) [
  | inl old ↦ there (distintos_to seen l a (rw old at m))
  | inr new ↦ elim (rw new at m) [
    | here e ↦ here e
    | there n ↦ there (distintos_to (x ∷ seen) l a n)
  ]
]

distintos_from :
    (seen l : List ℕ) (a : ℕ) → In a l → any (eqb a) seen ≡ false → In a (distintos seen l)
unfolding distintos
distintos_from seen [] a m h = m
distintos_from seen (x ∷ l) a m h = elim (Bool-cases (any (eqb x) seen)) [
  | inl old ↦ elim m [
    | here e ↦ absurd (false≢true (sym h ∙ ap (λ y. any (eqb y) seen) e ∙ old))
    | there n ↦ rw old (distintos_from seen l a n h)
  ]
  | inr new ↦ elim (Bool-cases (eqb a x)) [
    | inl hit ↦ rw new (here ((eqb_iff a x).0 hit))
    | inr miss ↦ elim m [
      | here e ↦ rw new (here e)
      | there n ↦
          let unseen : any (eqb a) (x ∷ seen) ≡ false = rw miss h in
          rw new (there (distintos_from (x ∷ seen) l a n unseen))
    ]
  ]
]

-- `r` is stored, and active in an environment of the list at this time.
pub record ActiveIn {Db : Type 0} (env : Services Db) (db : Db) (now : ℕ) (as' : List ℕ)
    (r : Redirection) : Type 0 where
  pub ambiente : ℕ
  pub listed : In ambiente as'
  pub stored : env.table.find_unique db (env.table.key r) ≡ some r
  pub active : is_active now ambiente r ≡ true

module _ {Db : Type 0} (env : Services Db) (lawful : Lawful env.table) (db : Db) (t : Trace)
    (reads : env.database t ≡ ok db) where
  -- The reads answer, with exactly the active rows of the environments.
  record Read (as' : List ℕ) : Type 0 where
    rows : List Redirection
    answer : ativos env as' t ≡ (ok rows, t)
    exact : (r : Redirection) → In r rows ↔ ActiveIn env db (env.now t) as' r

  abbrev Exact : List ℕ → List Redirection → Type 0
  Exact as' rows = (r : Redirection) → In r rows ↔ ActiveIn env db (env.now t) as' r

  cons_to :
      (a : ℕ) (as' : List ℕ) (rest : List Redirection) (r : Redirection)
      → Exact as' rest
      → In r (find_active_by_ambiente env db (env.now t) a) ⊎ In r rest
      → ActiveIn env db (env.now t) (a ∷ as') r
  unfolding find_active_by_ambiente
  cons_to a as' rest r ih (inl m) =
      let (st, h) = (lawful.find_many_iff db (is_active (env.now t) a) r).0 m in
      record { ambiente = a; listed = here refl; stored = st; active = h }
  cons_to a as' rest r ih (inr m) =
      let x = (ih r).0 m in
      record {
        ambiente = x.ambiente;
        listed = there x.listed;
        stored = x.stored;
        active = x.active;
      }

  cons_from :
      (a : ℕ) (as' : List ℕ) (rest : List Redirection) (r : Redirection) (b : ℕ)
      → Exact as' rest
      → In b (a ∷ as')
      → env.table.find_unique db (env.table.key r) ≡ some r
      → is_active (env.now t) b r ≡ true
      → In r (find_active_by_ambiente env db (env.now t) a ++ rest)
  unfolding find_active_by_ambiente
  cons_from a as' rest r b ih (here e) st h =
      let here_too : is_active (env.now t) a r ≡ true =
        subst (λ x. is_active (env.now t) x r ≡ true) e h in
      In-append_left rest ((lawful.find_many_iff db (is_active (env.now t) a) r).1 (st, here_too))
  cons_from a as' rest r b ih (there n) st h =
      In-append_right (find_active_by_ambiente env db (env.now t) a)
        ((ih r).1 (record { ambiente = b; listed = n; stored = st; active = h }))

  ativos-Read : (as' : List ℕ) → Read as'
  unfolding ativos find_active_by_ambiente
  ativos-Read [] = record {
    rows = [];
    answer = refl;
    exact = λ r. ((λ m. elim m [ ]), λ x. elim x.listed [ ]);
  }
  ativos-Read (a ∷ as') =
      let next = ativos-Read as' in
      let own = find_active_by_ambiente env db (env.now t) a in
      record {
        rows = own ++ next.rows;
        answer = rw (reads, next.answer) refl;
        exact = λ r. (
          (λ m. cons_to a as' next.rows r next.exact (In-append_cases own m)),
          λ x. cons_from a as' next.rows r x.ambiente next.exact x.listed x.stored x.active,
        );
      }

-- The environments of the inboxes.
abbrev pub ambientes : List Inbox → List ℕ
ambientes = map (λ i. i.id_ambiente)

-- What a dispatch of a webhook to the redirections reports and did: nothing where it has no phone
-- number; else the payload went to rows that are exactly the active ones, for the environments of the
-- inboxes of the number, and the report is their count.
pub data Dispatched {Db : Type 0} (env : Services Db) (payload : Props) (t : Trace)
    : ℕ → List Trace → Type 0 where
  no_number : extract_pid payload ≡ none → Dispatched env payload t 0 []
  to_active :
      (pid : String) (is : List Inbox) (db : Db) (rows : List Redirection) (us : List Trace)
      → extract_pid payload ≡ some pid
      → env.find_all_by_pid t pid ≡ ok is
      → env.database t ≡ ok db
      → ((r : Redirection) → In r rows ↔ ActiveIn env db (env.now t) (ambientes is) r)
      → SentAll env.base_ms payload t rows us
      → Dispatched env payload t (length rows) us

-- The repositories answer.
pub record Answers {Db : Type 0} (env : Services Db) : Type 0 where
  pub pid : (t : Trace) (p : String) → (is : List Inbox) × (env.find_all_by_pid t p ≡ ok is)
  pub database : (t : Trace) → (db : Db) × (env.database t ≡ ok db)

module _ {Db : Type 0} (env : Services Db) where
  distinct_listed :
      (db : Db) (now : ℕ) (is : List Inbox) (r : Redirection)
      → ActiveIn env db now (distintos [] (ambientes is)) r ↔ ActiveIn env db now (ambientes is) r
  distinct_listed db now is r = (
    (λ x. record {
      ambiente = x.ambiente;
      listed = distintos_to [] (ambientes is) x.ambiente x.listed;
      stored = x.stored;
      active = x.active;
    }),
    λ x. record {
      ambiente = x.ambiente;
      listed = distintos_from [] (ambientes is) x.ambiente x.listed refl;
      stored = x.stored;
      active = x.active;
    },
  )

  abbrev Reported : Props → Trace → Result ℕ × List Trace → Type 0
  Reported payload t x =
      (n : ℕ) × (us : List Trace) × (x ≡ (ok n, us)) × Dispatched env payload t n us

  com_pid-Reported :
      (payload : Props) (o : Option String) (t : Trace)
      → Lawful env.table
      → Answers env
      → extract_pid payload ≡ o
      → Reported payload t (com_pid env payload o t)
  unfolding com_pid
  com_pid-Reported payload none t lawful good p = (0, [], refl, no_number p)
  com_pid-Reported payload (some pid) t lawful good p =
      let (is, found) = good.pid t pid in
      let (db, reads) = good.database t in
      let read = ativos-Read env lawful db t reads (distintos [] (ambientes is)) in
      let (all, sent) = enviar_todos-Sent env payload 0 read.rows t in
      (
        length read.rows,
        map (λ x. x.1) (enviar_todos env payload 0 read.rows t),
        rw (found, read.answer, all) refl,
        to_active pid is db read.rows _ p found reads
            (λ r. (
              (λ m. (distinct_listed db (env.now t) is r).0 ((read.exact r).0 m)),
              λ x. (read.exact r).1 ((distinct_listed db (env.now t) is r).1 x),
            ))
            sent,
      )

-- Over a table that behaves as documented, and where the repositories answer, a dispatch to the
-- redirections throws nothing: it POSTs the payload to the URLs of exactly the active
-- redirections of the environments of the webhook's number, and of all environments, all at once, each until
-- one POST gets through, or given up after five attempts with a doubling wait between them, and
-- reports how many it sent to.
pub dispatch-Dispatched :
    {Db : Type 0} (env : Services Db) (payload : Props) (t : Trace)
    → Lawful env.table
    → Answers env
    → (n : ℕ) × (us : List Trace) × (dispatch env payload t ≡ (ok n, us))
      × Dispatched env payload t n us
unfolding dispatch
dispatch-Dispatched env payload t lawful good =
    com_pid-Reported env payload (extract_pid payload) t lawful good refl
