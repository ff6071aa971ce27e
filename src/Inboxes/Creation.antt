-- ===== src/Inboxes/Creation.antt =====
-- On `create` of src/inbox/inbox.service.ts: the outcomes of a registration.
use mathlib.Core.Bool.{false≢true}
use whiz_gateway.Base.{
  ℕ, String, ◌≡◌, refl, sym, ap, subst, ◌∙◌, Bool, true, false, not, Option, none, some, inl, inr,
  Bool-cases, eq_iff, arith,
}
use whiz_gateway.Effects.{Result, ok, err, http}
use whiz_gateway.Records.{Inbox}
use whiz_gateway.Table.{Lawful, Free, Updated, Created}
use whiz_gateway.Inboxes.{
  CreateInbox, Services, has_pair, has_pair_del, revived, new_row, create, find_by_pid_e_ambiente,
  create_unless, or_created, revive_by_pid_e_ambiente, revive_row, repo_create,
}

-- Two rows of one phone number in one environment.
abbrev pub same_pair : Inbox → Inbox → Bool
same_pair r s = has_pair r.pid r.id_ambiente s

-- The table behaves as documented, its rows are keyed by their id, and `@@unique([pid,
-- id_ambiente])` is its second constraint.
pub record Sound {Db : Type 0} (env : Services Db) : Type 0 where
  pub lawful : Lawful env.table
  pub key_id : (r : Inbox) → env.table.key r ≡ r.id
  -- the foreign key of an inbox refers to an environment
  pub admits_ativo :
      (r : Inbox) → env.ambiente_ativo r.id_ambiente ≡ true → env.table.admits r ≡ true
  pub clash_pair : (r s : Inbox) → env.table.clash r s ≡ same_pair r s

module _ {Db : Type 0} (env : Services Db) where
  -- No two stored rows are of one phone number in one environment.
  abbrev pub Paired : Db → Type 0
  Paired db =
      (j k : String) (r s : Inbox)
      → env.table.find_unique db j ≡ some r
      → env.table.find_unique db k ≡ some s
      → same_pair r s ≡ true
      → j ≡ k

  -- No stored row is of the phone number in the environment with this mark of deletion.
  abbrev pub Without : Db → CreateInbox → Bool → Type 0
  Without db dto del =
      (k : String) (s : Inbox)
      → env.table.find_unique db k ≡ some s
      → has_pair dto.pid dto.id_ambiente s ≡ true
      → s.del ≡ not del

  -- What becomes of a registration: refused with 409 where the number is active in the
  -- environment, or else with 400 where the environment is not active; else the deleted row of
  -- this number in this environment is revived, or, where there is none, a new row is stored.
  pub data Outcome (db : Db) (id : String) (agora : ℕ) (dto : CreateInbox)
      : Result Inbox × Db → Type 0 where
    taken :
        (r : Inbox)
        → env.table.find_unique db r.id ≡ some r
        → has_pair_del dto.pid dto.id_ambiente false r ≡ true
        → Outcome db id agora dto (err (http 409), db)
    inactive :
        Without db dto false
        → env.ambiente_ativo dto.id_ambiente ≡ false
        → Outcome db id agora dto (err (http 400), db)
    revives :
        (r : Inbox) (db' : Db)
        → Without db dto false
        → env.ambiente_ativo dto.id_ambiente ≡ true
        → env.table.find_unique db r.id ≡ some r
        → has_pair_del dto.pid dto.id_ambiente true r ≡ true
        → Updated env.table db r.id (revived dto) (revived dto r) db'
        → Outcome db id agora dto (ok (revived dto r), db')
    inserts :
        (db' : Db)
        → Without db dto false
        → Without db dto true
        → env.ambiente_ativo dto.id_ambiente ≡ true
        → Created env.table db (new_row id agora dto) (new_row id agora dto) db'
        → Outcome db id agora dto (ok (new_row id agora dto), db')

has_pair_trans :
    (pid : String) (a : ℕ) (r s : Inbox)
    → has_pair pid a r ≡ true
    → has_pair r.pid r.id_ambiente s ≡ true
    → has_pair pid a s ≡ true
has_pair_trans pid a r s h k = ground (arith, eq_iff r.pid pid, eq_iff s.pid r.pid)

has_pair-euclid :
    (pid : String) (a : ℕ) (r s : Inbox)
    → has_pair pid a r ≡ true
    → has_pair pid a s ≡ true
    → has_pair r.pid r.id_ambiente s ≡ true
has_pair-euclid pid a r s h k = ground (arith, eq_iff r.pid pid, eq_iff s.pid pid)

module _ {Db : Type 0} (env : Services Db) (sound : Sound env) (db : Db) where
  Without-none :
      (dto : CreateInbox) (del : Bool)
      → env.table.find_first db (has_pair_del dto.pid dto.id_ambiente del) ≡ none
      → Without env db dto del
  Without-none dto true e k s st h =
      let f = sound.lawful.find_first_none db _ k s e st in ground arith
  Without-none dto false e k s st h =
      let f = sound.lawful.find_first_none db _ k s e st in ground arith

  -- The row that `find_first` gives is stored under its id.
  found_id :
      (p : Inbox → Bool) (r : Inbox)
      → env.table.find_first db p ≡ some r
      → (env.table.find_unique db r.id ≡ some r) × (p r ≡ true)
  found_id p r e =
      let (st, h) = sound.lawful.find_first_some db p r e in
      (subst (λ k. env.table.find_unique db k ≡ some r) (sound.key_id r) st, h)

  same_false : (j k : String) → ¬ (j ≡ k) → env.table.keys.same j k ≡ false
  same_false j k n = elim (Bool-cases (env.table.keys.same j k)) [
    | inl hit ↦ absurd (n ((env.table.keys.same_iff j k).0 hit))
    | inr miss ↦ miss
  ]

  revived-Free :
      (dto : CreateInbox) (r : Inbox)
      → Paired env db
      → env.table.find_unique db r.id ≡ some r
      → has_pair dto.pid dto.id_ambiente r ≡ true
      → Free env.table db r.id (revived dto r)
  revived-Free dto r paired st h j s st' other = elim (Bool-cases (same_pair r s)) [
    | inl pair ↦
        let e = paired r.id j r s st st' pair in
        absurd (false≢true (sym other ∙ (env.table.keys.same_iff r.id j).1 e))
    | inr apart ↦ sound.clash_pair (revived dto r) s ∙ apart
  ]

  new_row-Free :
      (id : String) (agora : ℕ) (dto : CreateInbox)
      → Without env db dto false
      → Without env db dto true
      → Free env.table db id (new_row id agora dto)
  new_row-Free id agora dto w v j s st other =
      elim (Bool-cases (same_pair (new_row id agora dto) s)) [
        | inl pair ↦ absurd (false≢true (sym (v j s st pair) ∙ w j s st pair))
        | inr apart ↦ sound.clash_pair (new_row id agora dto) s ∙ apart
      ]

  revive_row-Outcome :
      (id : String) (agora : ℕ) (dto : CreateInbox) (r : Inbox)
      → Paired env db
      → Without env db dto false
      → env.table.find_unique db r.id ≡ some r
      → has_pair_del dto.pid dto.id_ambiente true r ≡ true
      → Outcome env db id agora dto (or_created env id agora dto (revive_row env db dto (some r)))
  revive_row-Outcome id agora dto r paired w st h =
      elim (Bool-cases (env.ambiente_ativo dto.id_ambiente)) [
        | inl on ↦
            let same : r.id_ambiente ≡ dto.id_ambiente = ground (arith, h) in
            let (db', e) =
              sound.lawful.update_total db r.id (revived dto) r st (sound.key_id (revived dto r))
                (sound.admits_ativo (revived dto r) (ap env.ambiente_ativo same ∙ on))
                (revived-Free dto r paired st (ground arith)) in
            rw (on, e)
              (revives r db' w on st h
                (sound.lawful.update_ok db r.id (revived dto) (revived dto r) db' e))
        | inr off ↦ rw off (inactive w off)
      ]

  repo_create-Outcome :
      (id : String) (agora : ℕ) (dto : CreateInbox)
      → env.table.find_unique db id ≡ none
      → Without env db dto false
      → Without env db dto true
      → Outcome env db id agora dto (repo_create env db id agora dto)
  unfolding repo_create
  repo_create-Outcome id agora dto fresh w v =
      elim (Bool-cases (env.ambiente_ativo dto.id_ambiente)) [
        | inl on ↦
            let own = sound.key_id (new_row id agora dto) in
            let (db', e) =
              sound.lawful.create_total db (new_row id agora dto) (rw own fresh)
                (sound.admits_ativo (new_row id agora dto) on)
                (rw own (new_row-Free id agora dto w v)) in
            rw (on, e)
              (inserts db' w v on
                (sound.lawful.create_ok db (new_row id agora dto) (new_row id agora dto) db' e))
        | inr off ↦ rw off (inactive w off)
      ]

  no_active-Outcome :
      (id : String) (agora : ℕ) (dto : CreateInbox) (o : Option Inbox)
      → Paired env db
      → env.table.find_unique db id ≡ none
      → Without env db dto false
      → env.table.find_first db (has_pair_del dto.pid dto.id_ambiente true) ≡ o
      → Outcome env db id agora dto (or_created env id agora dto (revive_row env db dto o))
  no_active-Outcome id agora dto none paired fresh w e =
      repo_create-Outcome id agora dto fresh w (Without-none dto true e)
  no_active-Outcome id agora dto (some r) paired fresh w e =
      let (st, h) = found_id _ r e in revive_row-Outcome id agora dto r paired w st h

  create_unless-Outcome :
      (id : String) (agora : ℕ) (dto : CreateInbox) (o : Option Inbox)
      → Paired env db
      → env.table.find_unique db id ≡ none
      → env.table.find_first db (has_pair_del dto.pid dto.id_ambiente false) ≡ o
      → Outcome env db id agora dto (create_unless env db id agora dto o)
  unfolding revive_by_pid_e_ambiente
  create_unless-Outcome id agora dto (some r) paired fresh e =
      let (st, h) = found_id _ r e in taken r st h
  create_unless-Outcome id agora dto none paired fresh e =
      no_active-Outcome id agora dto _ paired fresh (Without-none dto false e) refl

-- Over a table that behaves as documented, in which no two rows are of one phone number in one
-- environment, a registration under a new identifier ends as its outcome says on every branch: 409,
-- 400, the revival of the deleted row or a new row. It never meets the unique constraint.
pub create-Outcome :
    {Db : Type 0} (env : Services Db) (db : Db) (id : String) (agora : ℕ) (dto : CreateInbox)
    → Sound env
    → Paired env db
    → env.table.find_unique db id ≡ none
    → Outcome env db id agora dto (create env db id agora dto)
unfolding create find_by_pid_e_ambiente
create-Outcome env db id agora dto sound paired fresh =
    create_unless-Outcome env sound db id agora dto _ paired fresh refl
