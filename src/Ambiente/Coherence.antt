-- ===== src/Ambiente/Coherence.antt =====
-- On src/ambiente/ambiente.service.ts: what the cache may hold beside the table.
use mathlib.Core.Bool.{false≢true}
use whiz_gateway.Base.{
  ℕ, String, ◌≡◌, refl, sym, ap, subst, ◌∙◌, ◌≢◌, Bool, false, inl, inr, Option, none, some, eq_iff,
  ◌==◌, Bool-cases, arith, if◌then◌else◌,
}
use whiz_gateway.Effects.{Result, ok}
use whiz_gateway.Records.{Ambiente}
use whiz_gateway.Table.{Lawful}
use whiz_gateway.Ambiente.{
  UpdateAmbiente, Services, State, active, repo_find_by_id, repo_create, repo_update, put,
}

-- The table and Redis behave as documented, the rows are keyed by their id, different ids have
-- different cache keys, and an environment survives `JSON.stringify` and `JSON.parse`.
pub record Sound {Db C : Type 0} (env : Services Db C) : Type 0 where
  pub lawful : Lawful env.table
  pub key_id : (a : Ambiente) → env.table.key a ≡ a.id
  pub cache_key_inj : (i j : ℕ) → env.cache_key i ≡ env.cache_key j → i ≡ j
  pub round_trip : (a : Ambiente) → env.parse (env.stringify a) ≡ ok a
  pub not_empty : (a : Ambiente) → env.stringify a ≢ ""

module _ {Db C : Type 0} (env : Services Db C) where
  -- What the cache holds under an id is the text of the active environment with this id.
  abbrev pub Coherent : State Db C → Type 0
  Coherent s =
      (id : ℕ) (v : String)
      → env.redis.get s.cache (env.cache_key id) ≡ some v
      → (a : Ambiente) × (repo_find_by_id env s.db id ≡ some a) × (v ≡ env.stringify a)

module _ {Db C : Type 0} (env : Services Db C) (sound : Sound env) where
  pub active-eq-some :
      (o : Option Ambiente) {a : Ambiente} → active env o ≡ some a → (o ≡ some a) × (a.del ≡ false)
  active-eq-some none h = cc
  active-eq-some (some b) h = ground arith

  pub active-some : (b : Ambiente) → b.del ≡ false → active env (some b) ≡ some b
  active-some b h = ground arith

  pub find_by_id-id :
      (db : Db) (id : ℕ) (a : Ambiente) → repo_find_by_id env db id ≡ some a → a.id ≡ id
  unfolding repo_find_by_id
  find_by_id-id db id a h =
      let (stored, _) = active-eq-some (env.table.find_unique db id) h in
      sym (sound.key_id a) ∙ sound.lawful.find_unique_key db id a stored

  -- Writing an environment into the cache, beside a table that has it and agrees elsewhere.
  pub put-Coherent :
      (s : State Db C) (db : Db) (a : Ambiente)
      → Coherent env s
      → repo_find_by_id env db a.id ≡ some a
      → ((j : ℕ) → j ≢ a.id → repo_find_by_id env db j ≡ repo_find_by_id env s.db j)
      → Coherent env (record { db = db; cache = put env s.cache a })
  unfolding put
  put-Coherent s db a c has same id v h =
      let read =
        env.redis.get-set s.cache (env.cache_key a.id) (env.cache_key id) (env.stringify a) v h in
      elim (Bool-cases (env.cache_key a.id == env.cache_key id)) [
        | inl hit ↦
            let e = sound.cache_key_inj a.id id ((eq_iff _ _).0 hit) in
            (a, subst (λ j. repo_find_by_id env db j ≡ some a) e has, rw hit at read)
        | inr miss ↦
            let (b, stored, text) = c id v (rw miss at read) in
            (
              b,
              same id (λ e. false≢true (sym miss ∙ (eq_iff _ _).1 (ap env.cache_key (sym e))))
                  ∙ stored,
              text,
            )
      ]

  abbrev pub same : ℕ → ℕ → Bool
  same = env.table.keys.same

  -- A write of one row, as the repository's reads see it.
  pub changed :
      (d d' : Db) (k : ℕ) (o : Option Ambiente)
      → ((j : ℕ) → env.table.find_unique d' j ≡ (if same k j then o else env.table.find_unique d j))
      → (repo_find_by_id env d' k ≡ active env o)
        × ((j : ℕ) → j ≢ k → repo_find_by_id env d' j ≡ repo_find_by_id env d j)
  unfolding repo_find_by_id
  changed d d' k o after = (here_it_is, elsewhere)
    where
      here_it_is : active env (env.table.find_unique d' k) ≡ active env o
      here_it_is = rw (after k, (env.table.keys.same_iff k k).1 refl)

      elsewhere :
          (j : ℕ)
          → j ≢ k
          → active env (env.table.find_unique d' j) ≡ active env (env.table.find_unique d j)
      elsewhere j differs = elim (Bool-cases (same k j)) [
        | inl hit ↦ absurd (differs (sym ((env.table.keys.same_iff k j).0 hit)))
        | inr miss ↦ rw (after j, miss)
      ]

  -- A write that made the returned row the active one of its id, and left the others.
  abbrev pub Written : Db → Result (Ambiente × Db) → Type 0
  Written db r =
      (a : Ambiente) (db' : Db)
      → r ≡ ok (a, db')
      → (repo_find_by_id env db' a.id ≡ some a)
        × ((j : ℕ) → j ≢ a.id → repo_find_by_id env db' j ≡ repo_find_by_id env db j)

  written_row :
      (db db' : Db) (k : ℕ) (a b : Ambiente)
      → a ≡ b
      → b.del ≡ false
      → b.id ≡ k
      → ((j : ℕ)
          → env.table.find_unique db' j ≡ (if same k j then some b else env.table.find_unique db j))
      → (repo_find_by_id env db' a.id ≡ some a)
        × ((j : ℕ) → j ≢ a.id → repo_find_by_id env db' j ≡ repo_find_by_id env db j)
  written_row db db' k a b e live at_k after =
      let (hit, others) = changed db db' k (some b) after in
      let key : a.id ≡ k = ap (λ (x : Ambiente). x.id) e ∙ at_k in
      (
        subst (λ x. repo_find_by_id env db' x ≡ some a) (sym key)
            (hit ∙ active-some b live ∙ sym (ap some e)),
        λ j differs. others j (λ f. differs (f ∙ sym key)),
      )

  pub repo_create-Written :
      (db : Db) (id : ℕ) (nome url : String) → Written db (repo_create env db id nome url)
  unfolding repo_create
  repo_create-Written db id nome url a db' e =
      let w = sound.lawful.create_ok db _ a db' e in
      written_row db db' id a _ w.new_row refl refl (rw sound.key_id at w.after)

  pub repo_update-Written :
      (db : Db) (id : ℕ) (dto : UpdateAmbiente) (old : Ambiente)
      → repo_find_by_id env db id ≡ some old
      → Written db (repo_update env db id dto)
  unfolding repo_update repo_find_by_id
  repo_update-Written db id dto old found a db' e =
      let w = sound.lawful.update_ok db id _ a db' e in
      let (stored, live) = active-eq-some (env.table.find_unique db id) found in
      let row : w.row ≡ old = cc (w.found, stored) in
      written_row db db' id a _ w.new_row (ap (λ (x : Ambiente). x.del) row ∙ live)
        (sym (sound.key_id w.row) ∙ sound.lawful.find_unique_key db id w.row w.found) w.after
