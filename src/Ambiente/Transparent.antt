-- ===== src/Ambiente/Transparent.antt =====
-- On src/ambiente/ambiente.service.ts and the cached read of the dispatch: sequences of operations.
use mathlib.Core.Bool.{false≢true}
use whiz_gateway.Base.{
  ℕ, String, ◌≡◌, refl, sym, ap, subst, ◌∙◌, ◌≢◌, not, inl, inr, Option, none, some, Option-cases,
  List, [], ◌∷◌, In, here, there, eq_iff, arith,
}
use whiz_gateway.Effects.{Result, ok, err}
use whiz_gateway.Records.{Ambiente}
use whiz_gateway.Ambiente.Coherence.{
  Sound, Coherent, active-some, find_by_id-id, put-Coherent, changed, Written, repo_create-Written,
  repo_update-Written,
}
use whiz_gateway.Ambiente.{
  UpdateAmbiente, Services, State, repo_find_all, repo_find_by_id, repo_create, repo_update,
  repo_soft_delete, put, put_all, on_module_init, find_by_id, store, create, update, forget,
  soft_delete, read_through, get_ambiente, get_ambiente_from, cached_text,
}

module _ {Db C : Type 0} (env : Services Db C) (sound : Sound env) where
  store-Coherent :
      (s : State Db C) (r : Result (Ambiente × Db))
      → Written env sound s.db r
      → Coherent env s
      → Coherent env (store env s r).1
  store-Coherent s (err e) written c = c
  store-Coherent s (ok (a, db)) written c =
      let (has, others) = written a db refl in put-Coherent env sound s db a c has others

  create-Coherent :
      (s : State Db C) (id : ℕ) (nome url : String)
      → Coherent env s
      → Coherent env (create env s id nome url).1
  unfolding create
  create-Coherent s id nome url c = elim (Option-cases (repo_find_by_id env s.db id)) [
    | inr (b, taken) ↦ rw (taken, create) c
    | inl absent ↦
        rw (absent, create)
          (store-Coherent s (repo_create env s.db id nome url)
            (repo_create-Written env sound s.db id nome url) c)
  ]

  update-Coherent :
      (s : State Db C) (id : ℕ) (dto : UpdateAmbiente)
      → Coherent env s
      → Coherent env (update env s id dto).1
  unfolding update find_by_id
  update-Coherent s id dto c = elim (Option-cases (repo_find_by_id env s.db id)) [
    | inr (b, found) ↦
        rw (found, update)
          (store-Coherent s (repo_update env s.db id dto)
            (repo_update-Written env sound s.db id dto b found) c)
    | inl absent ↦ rw (absent, update) c
  ]

  forget-Coherent :
      (s : State Db C) (id : ℕ)
      → Coherent env s
      → Coherent env (forget env s id (repo_soft_delete env s.db id)).1
  unfolding repo_soft_delete
  forget-Coherent s id c = go (repo_soft_delete env s.db id) refl
    where
      dropped :
          (a : Ambiente) (db : Db)
          → repo_soft_delete env s.db id ≡ ok (a, db)
          → Coherent env (record { db = db; cache = env.redis.del s.cache (env.cache_key id) })
      dropped a db e j v h =
          let (miss, old) = env.redis.get-del s.cache (env.cache_key id) (env.cache_key j) v h in
          let (b, stored, text) = c j v old in
          let w = sound.lawful.update_ok s.db id _ a db e in
          let (_, others) = changed env sound s.db db id _ w.after in
          (
            b,
            others j (λ f. false≢true (sym miss ∙ (eq_iff _ _).1 (ap env.cache_key (sym f))))
                ∙ stored,
            text,
          )

      go :
          (r : Result (Ambiente × Db))
          → repo_soft_delete env s.db id ≡ r
          → Coherent env (forget env s id r).1
      go (err x) e = c
      go (ok (a, db)) e = dropped a db e

  soft_delete-Coherent :
      (s : State Db C) (id : ℕ) → Coherent env s → Coherent env (soft_delete env s id).1
  unfolding soft_delete find_by_id
  soft_delete-Coherent s id c = elim (Option-cases (repo_find_by_id env s.db id)) [
    | inr (b, found) ↦ rw (found, soft_delete) (forget-Coherent s id c)
    | inl absent ↦ rw (absent, soft_delete) c
  ]

  read_through-Coherent :
      (s : State Db C) (id : ℕ) (o : Option Ambiente)
      → repo_find_by_id env s.db id ≡ o
      → Coherent env s
      → Coherent env (read_through env s o).1
  read_through-Coherent s id none e c = c
  read_through-Coherent s id (some a) e c =
      put-Coherent env sound s s.db a c
        (subst (λ x. repo_find_by_id env s.db x ≡ some a)
          (sym (find_by_id-id env sound s.db id a e)) e)
        (λ j _. refl)

  get_ambiente-Coherent :
      (s : State Db C) (id : ℕ) → Coherent env s → Coherent env (get_ambiente env s id).1
  unfolding get_ambiente
  get_ambiente-Coherent s id c =
      elim (Option-cases (cached_text env (env.redis.get s.cache (env.cache_key id)))) [
        | inr (v, hit) ↦ rw (hit, get_ambiente) c
        | inl miss ↦
            rw (miss, get_ambiente)
              (read_through-Coherent s id (repo_find_by_id env s.db id) refl c)
      ]

  put_all-Coherent :
      (db : Db) (cache : C) (l : List Ambiente)
      → ((a : Ambiente) → In a l → repo_find_by_id env db a.id ≡ some a)
      → Coherent env (record { db = db; cache = cache })
      → Coherent env (record { db = db; cache = put_all env cache l })
  unfolding put_all
  put_all-Coherent db cache [] all c = c
  put_all-Coherent db cache (a ∷ l) all c =
      put_all-Coherent db (put env cache a) l (λ b m. all b (there m))
        (put-Coherent env sound (record { db = db; cache = cache }) db a c (all a (here refl))
          (λ j _. refl))

  on_module_init-Coherent : (s : State Db C) → Coherent env s → Coherent env (on_module_init env s)
  unfolding on_module_init repo_find_all repo_find_by_id
  on_module_init-Coherent s c = put_all-Coherent s.db s.cache _ listed c
    where
      listed :
          (a : Ambiente) → In a (repo_find_all env s.db) → repo_find_by_id env s.db a.id ≡ some a
      listed a m =
          let (stored, live) = (sound.lawful.find_many_iff s.db (λ x. not x.del) a).0 m in
          let at_id : env.table.find_unique s.db a.id ≡ some a = rw sound.key_id at stored in
          rw at_id (active-some env sound a (ground arith))

-- What may happen to the table and the cache: a request to the service, a read for a dispatch, a
-- restart, or a key that expires.
pub data Op : Type 0 where
  creates : ℕ → String → String → Op
  updates : ℕ → UpdateAmbiente → Op
  deletes : ℕ → Op
  reads : ℕ → Op
  starts : Op
  expires : Op

module _ {Db C : Type 0} (env : Services Db C) where
  pub step : State Db C → Op → State Db C
  step s (creates id nome url) = (create env s id nome url).1
  step s (updates id dto) = (update env s id dto).1
  step s (deletes id) = (soft_delete env s id).1
  step s (reads id) = (get_ambiente env s id).1
  step s starts = on_module_init env s
  step s expires = record s { cache = env.redis.expire s.cache }

  pub run : State Db C → List Op → State Db C
  unfolding step
  run s [] = s
  run s (o ∷ os) = run (step s o) os

module _ {Db C : Type 0} (env : Services Db C) (sound : Sound env) where
  step-Coherent : (s : State Db C) (o : Op) → Coherent env s → Coherent env (step env s o)
  unfolding step
  step-Coherent s (creates id nome url) c = create-Coherent env sound s id nome url c
  step-Coherent s (updates id dto) c = update-Coherent env sound s id dto c
  step-Coherent s (deletes id) c = soft_delete-Coherent env sound s id c
  step-Coherent s (reads id) c = get_ambiente-Coherent env sound s id c
  step-Coherent s starts c = on_module_init-Coherent env sound s c
  step-Coherent s expires c = λ id v h. c id v (env.redis.get-expire s.cache (env.cache_key id) v h)

  run_all : (s : State Db C) (os : List Op) → Coherent env s → Coherent env (run env s os)
  unfolding run
  run_all s [] c = c
  run_all s (o ∷ os) c = run_all (step env s o) os (step-Coherent s o c)

  transparent :
      (s : State Db C) (id : ℕ)
      → Coherent env s
      → (get_ambiente env s id).0 ≡ ok (repo_find_by_id env s.db id)
  unfolding get_ambiente get_ambiente_from
  transparent s id c = go (env.redis.get s.cache (env.cache_key id)) refl
    where
      missed : (o : Option Ambiente) → (read_through env s o).0 ≡ ok o
      missed none = refl
      missed (some a) = refl

      hit :
          (v : String) (a : Ambiente)
          → v ≡ env.stringify a
          → (get_ambiente_from env s (repo_find_by_id env s.db id) (cached_text env (some v))).0
            ≡ ok (some a)
      hit v a e =
          let full : v ≢ "" = λ f. sound.not_empty a (sym e ∙ f) in
          let kept : cached_text env (some v) ≡ some v = ground (arith, eq_iff v "") in
          rw (kept, get_ambiente_from, e, sound.round_trip)

      go :
          (o : Option String)
          → env.redis.get s.cache (env.cache_key id) ≡ o
          → (get_ambiente env s id).0 ≡ ok (repo_find_by_id env s.db id)
      go none e = rw (e, get_ambiente) (missed (repo_find_by_id env s.db id))
      go (some v) e =
          let (a, stored, same_text) = c id v e in
          rw (e, get_ambiente) (hit v a same_text ∙ ap (λ (x : Option Ambiente). ok x) (sym stored))

-- If the table, Redis and the JSON behave as documented and different ids have different cache keys,
-- then from a coherent state, after any sequence of requests, reads, restarts and expiries, one after
-- the other, a read of an environment through the cache answers what the table says.
pub get_ambiente-run :
    {Db C : Type 0} (env : Services Db C) (s : State Db C) (os : List Op) (id : ℕ)
    → Sound env
    → Coherent env s
    → (get_ambiente env (run env s os) id).0 ≡ ok (repo_find_by_id env (run env s os).db id)
get_ambiente-run env s os id sound c =
    transparent env sound (run env s os) id (run_all env sound s os c)
