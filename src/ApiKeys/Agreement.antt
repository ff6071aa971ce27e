-- ===== src/ApiKeys/Agreement.antt =====
-- On src/api-keys/api-keys.service.ts: the Redis hash beside the table.
use mathlib.Core.Bool.{false≢true}
use whiz_gateway.Base.{
  ℕ, String, ◌≡◌, refl, sym, ap, subst, ◌∙◌, ◌≢◌, ◌↔◌, ◌⊎◌, inl, inr, true, false, not, some, List,
  [], ◌∷◌, In, here, there, Bool-cases, Option-cases, ◌==◌, eq_iff, arith, if◌then◌else◌,
}
use whiz_gateway.Effects.{ok, Result-cases}
use whiz_gateway.Table.{Lawful}
use whiz_gateway.ApiKeys.{
  ApiKey, Entry, Services, State, entry_of, hset, repo_find_all, repo_find_by_id, hset_all,
  on_module_init, new_key, create, revoke,
}

-- The table behaves as documented and is keyed by the uid, and an entry survives `JSON.stringify`
-- and `JSON.parse`.
pub record Sound {Db H : Type 0} (env : Services Db H) : Type 0 where
  pub lawful : Lawful env.table
  pub key_uid : (k : ApiKey) → env.table.key k ≡ k.uid
  -- Redis is up
  pub up : (h : H) (uid : String) → env.answers h uid ≡ ok tt
  pub round_trip : (e : Entry) → env.parse (env.stringify e) ≡ ok e

module _ {Db H : Type 0} (env : Services Db H) where
  -- `k` is the stored row of `uid`, and not revoked.
  pub record Active (db : Db) (uid : String) (k : ApiKey) : Type 0 where
    pub stored : env.table.find_unique db uid ≡ some k
    pub kept : k.del ≡ false

  -- What the hash should hold under `uid`.
  pub record Listed (db : Db) (uid v : String) : Type 0 where
    pub row : ApiKey
    pub active : Active db uid row
    pub text : v ≡ env.stringify (entry_of row)

  -- The hash holds an entry for each active row, and no other.
  abbrev pub Agrees : State Db H → Type 0
  Agrees s = (uid v : String) → In (uid, v) (env.hash.entries s.cache) ↔ Listed s.db uid v

module _ {Db H : Type 0} (env : Services Db H) (sound : Sound env) where
  -- A write of the row of one uid, as a read of another sees it.
  other_row :
      (db db' : Db) (uid : String) (r : ApiKey)
      → ((j : String)
          → env.table.find_unique db' j
            ≡ (if env.table.keys.same uid j then some r else env.table.find_unique db j))
      → (j : String) → j ≢ uid
      → env.table.find_unique db' j ≡ env.table.find_unique db j
  other_row db db' uid r after j n = elim (Bool-cases (env.table.keys.same uid j)) [
    | inl hit ↦ absurd (n (sym ((env.table.keys.same_iff uid j).0 hit)))
    | inr miss ↦ let at_j = after j in rw miss at at_j
  ]

  own_row :
      (db db' : Db) (uid : String) (r : ApiKey)
      → ((j : String)
          → env.table.find_unique db' j
            ≡ (if env.table.keys.same uid j then some r else env.table.find_unique db j))
      → env.table.find_unique db' uid ≡ some r
  own_row db db' uid r after =
      let same = (env.table.keys.same_iff uid uid).1 refl in
      let at_uid = after uid in rw same at at_uid

  Listed-eq :
      (db db' : Db) (uid v : String)
      → env.table.find_unique db' uid ≡ env.table.find_unique db uid
      → Listed env db uid v
      → Listed env db' uid v
  Listed-eq db db' uid v e l = record {
    row = l.row;
    active = record { stored = e ∙ l.active.stored; kept = l.active.kept };
    text = l.text;
  }

  uid_dec : (j k : String) → (j ≡ k) ⊎ (j ≢ k)
  uid_dec j k = elim (Bool-cases (j == k)) [
    | inl e ↦ inl ((eq_iff j k).0 e)
    | inr n ↦ inr (λ e. false≢true (sym n ∙ (eq_iff j k).1 e))
  ]

  -- A row is written to the table and to the hash.
  pub hset-Agrees :
      (s : State Db H) (db' : Db) (r : ApiKey)
      → r.del ≡ false
      → ((j : String)
          → env.table.find_unique db' j
            ≡ (if env.table.keys.same r.uid j then some r else env.table.find_unique s.db j))
      → Agrees env s
      → Agrees env (record { db = db'; cache = hset env s.cache r })
  hset-Agrees s db' r kept after c uid v = (to, from)
    where
      to : In (uid, v) (env.hash.entries (hset env s.cache r)) → Listed env db' uid v
      to m = elim ((env.hash.entries-hset s.cache r.uid (env.stringify (entry_of r)) uid v).0 m) [
        | inl (e, t) ↦ record {
          row = r;
          active = record {
            stored =
                subst (λ x. env.table.find_unique db' x ≡ some r) (sym e)
                  (own_row s.db db' r.uid r after);
            kept = kept;
          };
          text = t;
        }
        | inr (n, old) ↦
            Listed-eq s.db db' uid v (other_row s.db db' r.uid r after uid n) ((c uid v).0 old)
      ]

      from : Listed env db' uid v → In (uid, v) (env.hash.entries (hset env s.cache r))
      from l =
          (env.hash.entries-hset s.cache r.uid (env.stringify (entry_of r)) uid v).1
            (elim (uid_dec uid r.uid) [
              | inl e ↦
                  let now : env.table.find_unique db' uid ≡ some r =
                    subst (λ x. env.table.find_unique db' x ≡ some r) (sym e)
                      (own_row s.db db' r.uid r after) in
                  let same : l.row ≡ r = cc (l.active.stored, now) in
                  inl (e, l.text ∙ ap (λ x. env.stringify (entry_of x)) same)
              | inr n ↦ inr (
                n,
                (c uid v).1
                    (Listed-eq db' s.db uid v (sym (other_row s.db db' r.uid r after uid n)) l),
              )
            ])

  pub create-Agrees :
      (s : State Db H) (uid raw_key salt name : String) (now : ℕ)
      → Agrees env s
      → Agrees env (create env s uid raw_key salt name now).1
  unfolding create
  create-Agrees s uid raw_key salt name now c =
      elim (Result-cases (env.table.create s.db (new_key env uid raw_key salt name now))) [
        | inr (e, h) ↦ rw h c
        | inl ((r, db'), h) ↦
            let made =
              sound.lawful.create_ok s.db (new_key env uid raw_key salt name now) r db' h in
            rw (h, made.new_row, sound.up s.cache uid)
              (hset-Agrees s db' (new_key env uid raw_key salt name now) refl
                (λ j.
                  subst
                    (λ x. env.table.find_unique db' j ≡ (
                      if env.table.keys.same x j
                      then some (new_key env uid raw_key salt name now)
                      else env.table.find_unique s.db j))
                    (sound.key_uid (new_key env uid raw_key salt name now)) (made.after j))
                c)
      ]

  -- A row is marked as deleted in the table, and removed from the hash.
  hdel-Agrees :
      (s : State Db H) (db' : Db) (uid : String) (r : ApiKey)
      → r.del ≡ true
      → ((j : String)
          → env.table.find_unique db' j
            ≡ (if env.table.keys.same uid j then some r else env.table.find_unique s.db j))
      → Agrees env s
      → Agrees env (record { db = db'; cache = env.hash.hdel s.cache uid })
  hdel-Agrees s db' uid r gone after c j v = (to, from)
    where
      to : In (j, v) (env.hash.entries (env.hash.hdel s.cache uid)) → Listed env db' j v
      to m =
          let (n, old) = (env.hash.entries-hdel s.cache uid j v).0 m in
          Listed-eq s.db db' j v (other_row s.db db' uid r after j n) ((c j v).0 old)

      not_own : Listed env db' j v → j ≢ uid
      not_own l e =
          let now : env.table.find_unique db' j ≡ some r =
            subst (λ x. env.table.find_unique db' x ≡ some r) (sym e)
              (own_row s.db db' uid r after) in
          let same : l.row ≡ r = cc (l.active.stored, now) in
          false≢true (sym l.active.kept ∙ ap (λ x. x.del) same ∙ gone)

      from : Listed env db' j v → In (j, v) (env.hash.entries (env.hash.hdel s.cache uid))
      from l = (env.hash.entries-hdel s.cache uid j v).1 (
        not_own l,
        (c j v).1 (Listed-eq db' s.db j v (sym (other_row s.db db' uid r after j (not_own l))) l),
      )

  pub revoke-Agrees :
      (s : State Db H) (uid : String) → Agrees env s → Agrees env (revoke env s uid).1
  unfolding revoke
  revoke-Agrees s uid c = elim (Option-cases (repo_find_by_id env s.db uid)) [
    | inl absent ↦ rw absent c
    | inr (k, found) ↦
        elim (Result-cases (env.table.update s.db uid (λ x. record x { del = true }))) [
          | inr (e, h) ↦ rw (found, h) c
          | inl ((r, db'), h) ↦
              let up = sound.lawful.update_ok s.db uid (λ x. record x { del = true }) r db' h in
              rw (found, h, sound.up s.cache uid)
                (hdel-Agrees s db' uid (record up.row { del = true }) refl up.after c)
        ]
  ]

  -- Writing an active row again.
  again-Agrees :
      (s : State Db H) (k : ApiKey)
      → Active env s.db k.uid k
      → Agrees env s
      → Agrees env (record { db = s.db; cache = hset env s.cache k })
  again-Agrees s k a c = hset-Agrees s s.db k a.kept same c
    where
      same :
          (j : String)
          → env.table.find_unique s.db j
            ≡ (if env.table.keys.same k.uid j then some k else env.table.find_unique s.db j)
      same j = elim (Bool-cases (env.table.keys.same k.uid j)) [
        | inl hit ↦ rw hit (
            subst (λ x. env.table.find_unique s.db x ≡ some k)
              ((env.table.keys.same_iff k.uid j).0 hit) a.stored)
        | inr miss ↦ rw miss refl
      ]

  hset_all-Agrees :
      (s : State Db H) (ks : List ApiKey)
      → ((k : ApiKey) → In k ks → Active env s.db k.uid k)
      → Agrees env s
      → Agrees env (record { db = s.db; cache = (hset_all env s.cache ks).1 })
  unfolding hset_all
  hset_all-Agrees s [] all c = c
  hset_all-Agrees s (k ∷ ks) all c = rw (sound.up s.cache k.uid) (
      hset_all-Agrees (record { db = s.db; cache = hset env s.cache k }) ks (λ j m. all j (there m))
        (again-Agrees s k (all k (here refl)) c))

  pub on_module_init-Agrees : (s : State Db H) → Agrees env s → Agrees env (on_module_init env s).1
  unfolding on_module_init repo_find_all
  on_module_init-Agrees s c = hset_all-Agrees s (env.table.find_many s.db (λ k. not k.del)) listed c
    where
      listed :
          (k : ApiKey) → In k (env.table.find_many s.db (λ x. not x.del)) → Active env s.db k.uid k
      listed k m =
          let (st, h) = (sound.lawful.find_many_iff s.db (λ x. not x.del) k).0 m in
          record {
            stored = subst (λ x. env.table.find_unique s.db x ≡ some k) (sound.key_uid k) st;
            kept = ground arith;
          }
