-- ===== src/Flows/Cached.antt =====
-- The cache of the URLs, on `getUrl`, `update` and `remove` of
-- src/wpp-flow-callbacks/wpp-flow-callbacks.service.ts.
use whiz_gateway.Base.{
  ℕ, ◌≡◌, ◌≢◌, ◌↔◌, refl, sym, ap, subst, ◌∙◌, String, Bool, true, false, Bool-cases, inl, inr,
  Option, none, some, List, [], ◌∷◌, ◌==◌, eq_iff, if◌then◌else◌,
}
use whiz_gateway.Effects.{Result, ok, err}
use whiz_gateway.Table.{Lawful}
use whiz_gateway.ApiKeys.Admin.{behind, behind_total}
use whiz_gateway.Flows.{
  FlowCallback, Services, State, cache_key, if_active, url_of, new_row, with_url, removed, create,
  stored, update, remove, change_found, written, get_url, or_table, from_table, fill,
}

-- An operation on the callbacks, with the expiry of cached keys.
pub data Op : Type 0 where
  creates : String → ℕ → String → Op
  updates : String → String → Op
  removes : String → Op
  reads : String → Op
  expires : Op

-- The URL of the active row.
abbrev pub active_url : {Db C : Type 0} → Services Db C → Db → String → Option String
active_url env db uid = url_of (if_active (env.table.find_unique db uid))

-- What is cached is the URL of the active row.
abbrev pub Coherent : {Db C : Type 0} → Services Db C → State Db C → Type 0
Coherent env s =
    (uid url : String)
    → env.redis.get s.cache (cache_key uid) ≡ some url
    → active_url env s.db uid ≡ some url

-- A new row has an identifier that the table does not have.
abbrev pub Fresh : {Db C : Type 0} → Services Db C → Db → Op → Type 0
Fresh env db (creates uid _ _) = env.table.find_unique db uid ≡ none
Fresh env db _ = Unit

pub record Sound {Db C : Type 0} (env : Services Db C) : Type 0 where
  pub lawful : Lawful env.table
  pub key_uid : (r : FlowCallback) → env.table.key r ≡ r.uid
  pub up : (c : C) → env.down c ≡ false

cache_key_inj : (a b : String) → cache_key a ≡ cache_key b → a ≡ b
unfolding cache_key
cache_key_inj a b e =
    some_eq (sym (behind_total "flow_cb:" a) ∙ ap (behind "flow_cb:") e ∙ behind_total "flow_cb:" b)
  where
    some_eq : {x y : String} → some x ≡ some y → x ≡ y
    some_eq p = cc

module _ {Db C : Type 0} (env : Services Db C) where
  unfoldable pub apply : Op → State Db C → State Db C
  apply (creates uid agora url) s = (create env s uid agora url).1
  apply (updates uid url) s = (update env s uid url).1
  apply (removes uid) s = (remove env s uid).1
  apply (reads uid) s = (get_url env s uid).1
  apply expires s = record s { cache = env.redis.expire s.cache }

  unfoldable pub run : List Op → State Db C → State Db C
  unfolding apply
  run [] s = s
  run (o ∷ os) s = run os (apply o s)

  -- Along the operations, every new row has a new identifier.
  abbrev pub AllFresh : List Op → State Db C → Type 0
  AllFresh [] s = Unit
  AllFresh (o ∷ os) s = Fresh env s.db o × AllFresh os (apply o s)

module _ {Db C : Type 0} (env : Services Db C) (good : Sound env) (s : State Db C)
    (coherent : Coherent env s) where
  -- Another row leaves the URL as it is.
  active_other :
      (d : Db) (uid j : String) (x : FlowCallback)
      → env.table.find_unique d j
        ≡ (if env.table.keys.same uid j then some x else env.table.find_unique s.db j)
      → uid ≢ j
      → active_url env d j ≡ active_url env s.db j
  active_other d uid j x e n =
      let miss = other (env.table.keys.same uid j) (env.table.keys.same_iff uid j) n in
      ap (λ o. url_of (if_active o))
        (e ∙ ap (λ b. if b then some x else env.table.find_unique s.db j) miss)
    where
      other : {a b : String} (c : Bool) → ((c ≡ true) ↔ (a ≡ b)) → a ≢ b → c ≡ false
      other true iff m = elim (m (iff.0 refl)) [ ]
      other false iff m = refl

  created-Coherent :
      (new : FlowCallback)
      → env.table.find_unique s.db new.uid ≡ none
      → (r : Result (FlowCallback × Db)) → env.table.create s.db new ≡ r
      → Coherent env (stored env s r).1
  created-Coherent new fresh (err e) q = coherent
  created-Coherent new fresh (ok (x, d)) q = λ uid url c.
      let made = good.lawful.create_ok s.db new x d q in
      let before = coherent uid url c in
      let apart : new.uid ≢ uid = λ e.
        let gone : active_url env s.db uid ≡ none =
          ap (λ o. url_of (if_active o))
            (subst (λ k. env.table.find_unique s.db k ≡ none) e fresh) in
        let absurd : none ≡ some url = sym gone ∙ before in cc in
      active_other d new.uid uid new
        (subst
          (λ k.
            env.table.find_unique d uid
            ≡ (if env.table.keys.same k uid then some new else env.table.find_unique s.db uid))
          (good.key_uid new) (made.after uid))
        apart
      ∙ before

  written-Coherent :
      (uid : String) (f : FlowCallback → FlowCallback) (r : Result (FlowCallback × Db))
      → env.table.update s.db uid f ≡ r
      → Coherent env (written env s uid r).1
  unfolding cache_key
  written-Coherent uid f (err e) q = coherent
  written-Coherent uid f (ok (x, d)) q = rw (good.up s.cache) (λ j url c.
      let u = good.lawful.update_ok s.db uid f x d q in
      let (other, kept) = env.redis.get-del s.cache (cache_key uid) (cache_key j) url c in
      let apart : uid ≢ j = λ e.
        let same = (eq_iff (cache_key uid) (cache_key j)).1 (ap cache_key e) in
        let absurd : true ≡ false = sym same ∙ other in cc in
      active_other d uid j (f u.row) (u.after j) apart ∙ coherent j url kept)

  changed-Coherent :
      (uid : String) (f : FlowCallback → FlowCallback) (o : Option FlowCallback)
      → Coherent env (change_found env s uid f o).1
  changed-Coherent uid f none = coherent
  changed-Coherent uid f (some r) = written-Coherent uid f (env.table.update s.db uid f) refl

  -- The cache is filled with the URL of the active row.
  fill-Coherent :
      (uid url : String) → active_url env s.db uid ≡ some url → Coherent env (fill env s uid url)
  fill-Coherent uid url active = rw (good.up s.cache) (λ j w c.
      let step = env.redis.get-set s.cache (cache_key uid) (cache_key j) url w c in
      elim (Bool-cases (cache_key uid == cache_key j)) [
        | inl y ↦
            let same = cache_key_inj uid j ((eq_iff (cache_key uid) (cache_key j)).0 y) in
            let value : w ≡ url = rw y at step in
            subst (λ k. active_url env s.db k ≡ some w) same (active ∙ ap some (sym value))
        | inr n ↦ coherent j w (rw n at step)
      ])

  -- What the read answers, and what it leaves.
  table-Read :
      (uid : String) (o : Option FlowCallback)
      → if_active (env.table.find_unique s.db uid) ≡ o
      → ((from_table env s uid o).0 ≡ active_url env s.db uid)
        × Coherent env (from_table env s uid o).1
  table-Read uid none e = (sym (ap url_of e), coherent)
  table-Read uid (some r) e = (sym (ap url_of e), fill-Coherent uid r.url (ap url_of e))

  read-Read :
      (uid : String) (o : Option String)
      → env.redis.get s.cache (cache_key uid) ≡ o
      → ((or_table env s uid o).0 ≡ active_url env s.db uid) × Coherent env (or_table env s uid o).1
  read-Read uid (some url) e = (sym (coherent uid url e), coherent)
  read-Read uid none e = table-Read uid (if_active (env.table.find_unique s.db uid)) refl

  get_url-Read :
      (uid : String)
      → ((get_url env s uid).0 ≡ active_url env s.db uid) × Coherent env (get_url env s uid).1
  unfolding get_url
  get_url-Read uid =
      rw (good.up s.cache) (read-Read uid (env.redis.get s.cache (cache_key uid)) refl)

  apply-Coherent : (o : Op) → Fresh env s.db o → Coherent env (apply env o s)
  unfolding apply create update remove
  apply-Coherent (creates uid agora url) fresh =
      created-Coherent (new_row uid agora url) fresh _ refl
  apply-Coherent (updates uid url) fresh =
      changed-Coherent uid (with_url url) (if_active (env.table.find_unique s.db uid))
  apply-Coherent (removes uid) fresh =
      changed-Coherent uid removed (if_active (env.table.find_unique s.db uid))
  apply-Coherent (reads uid) fresh = (get_url-Read uid).1
  apply-Coherent expires fresh =
      λ uid url c. coherent uid url (env.redis.get-expire s.cache (cache_key uid) url c)

-- Over a table that behaves as documented and a Redis that is up, from a state in which what is cached
-- is the URL of an active row, after any sequence of creations under new identifiers, updates, removals,
-- reads and expiries a read answers with the URL of the active row of the table, or with none.
pub get_url-run :
    {Db C : Type 0} (env : Services Db C) (os : List Op) (s : State Db C) (uid : String)
    → Sound env
    → Coherent env s
    → AllFresh env os s
    → (get_url env (run env os s) uid).0 ≡ active_url env (run env os s).db uid
unfolding run
get_url-run env [] s uid good coherent fresh = (get_url-Read env good s coherent uid).0
get_url-run env (o ∷ os) s uid good coherent fresh =
    get_url-run env os (apply env o s) uid good (apply-Coherent env good s coherent o fresh.0)
      fresh.1
