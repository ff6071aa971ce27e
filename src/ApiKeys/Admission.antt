-- ===== src/ApiKeys/Admission.antt =====
-- On src/api-keys/guards/api-key.guard.ts, over the states that src/api-keys/api-keys.service.ts
-- leaves.
use Prim.Native.String as txt
use mathlib.Core.Bool.{false≢true}
use whiz_gateway.Base.{
  ℕ, String, ◌≡◌, refl, sym, ap, subst, ◌∙◌, ◌≢◌, ◌↔◌, inl, inr, true, List, [], ◌∷◌, In, here,
  there, Bool-cases, ◌==◌, eq_iff, arith,
}
use whiz_gateway.Effects.{Result, ok}
use whiz_gateway.Webhook.Guard.{one}
use whiz_gateway.Webhook.Guard.Admits.{Injective}
use whiz_gateway.ApiKeys.{
  ApiKey, Entry, Services, State, entry_of, on_module_init, create, revoke, fits, equal_bytes,
  percorrer, api_key_guard,
}
use whiz_gateway.ApiKeys.Agreement.{
  Sound, Active, Agrees, create-Agrees, revoke-Agrees, on_module_init-Agrees,
}
use whiz_gateway.Webhook.Guard.{timing_safe_equal}
use whiz_gateway.Webhook.Guard.Admits.{timing_safe_equal_refl, timing_safe_equal_sound}

module _ {Db H : Type 0} (env : Services Db H) where
  -- An entry of the list that the raw key fits.
  record Fit (raw_key : String) (l : List (String × String)) : Type 0 where
    field_name : String
    value : String
    entry : Entry
    listed : In (field_name, value) l
    parsed : env.parse value ≡ ok entry
    good : fits env raw_key entry ≡ true

  abbrev Parses : List (String × String) → Type 0
  Parses l = (f v : String) → In (f, v) l → (e : Entry) × (env.parse v ≡ ok e)

  Fit-there :
      (raw_key : String) (x : String × String) (l : List (String × String))
      → Fit raw_key l
      → Fit raw_key (x ∷ l)
  Fit-there raw_key x l w = record {
    field_name = w.field_name;
    value = w.value;
    entry = w.entry;
    listed = there w.listed;
    parsed = w.parsed;
    good = w.good;
  }

  percorrer_to :
      (raw_key : String) (l : List (String × String))
      → Parses l
      → percorrer env raw_key l ≡ ok true
      → Fit raw_key l
  unfolding percorrer
  percorrer_to raw_key [] h e = cc
  percorrer_to raw_key ((f, v) ∷ l) h e =
      let (x, p) = h f v (here refl) in
      elim (Bool-cases (fits env raw_key x)) [
        | inl yes_fits ↦ record {
          field_name = f;
          value = v;
          entry = x;
          listed = here refl;
          parsed = p;
          good = yes_fits;
        }
        | inr no_fit ↦
            Fit-there raw_key (f, v) l
              (percorrer_to raw_key l (λ g w m. h g w (there m)) (rw (p, no_fit) at e))
      ]

  percorrer_from :
      (raw_key : String) (l : List (String × String))
      → Parses l
      → Fit raw_key l
      → percorrer env raw_key l ≡ ok true
  unfolding percorrer
  percorrer_from raw_key [] h w = elim w.listed [ ]
  percorrer_from raw_key ((f, v) ∷ l) h w =
      let (x, p) = h f v (here refl) in
      elim (Bool-cases (fits env raw_key x)) [
        | inl yes_fits ↦ rw (p, yes_fits) refl
        | inr no_fit ↦ elim w.listed [
          | here e ↦
              let same_value : w.value ≡ v = ap (λ z. z.1) e in
              let both : ◌≡◌ {A = Result Entry} (ok x) (ok w.entry) =
                sym p ∙ ap env.parse (sym same_value) ∙ w.parsed in
              let same : x ≡ w.entry = cc in
              absurd (false≢true (sym no_fit ∙ ap (fits env raw_key) same ∙ w.good))
          | there n ↦
              rw (p, no_fit)
                (percorrer_from raw_key l (λ g u m. h g u (there m))
                  (record {
                    field_name = w.field_name;
                    value = w.value;
                    entry = w.entry;
                    listed = n;
                    parsed = w.parsed;
                    good = w.good;
                  }))
        ]
      ]

  pub equal_bytes_iff : (x y : String) → Injective env.utf8 → (equal_bytes env x y ≡ true) ↔ (x ≡ y)
  unfolding timing_safe_equal
  equal_bytes_iff x y faithful = (to, from)
    where
      to : equal_bytes env x y ≡ true → x ≡ y
      to h = faithful x y (timing_safe_equal_sound (env.utf8 x) (env.utf8 y) (ground arith))

      from : x ≡ y → equal_bytes env x y ≡ true
      from e = rw e (ground (arith, timing_safe_equal_refl (env.utf8 y)))

-- The raw key is that of an active row: with the row's salt it has the row's hash.
pub record IsKey {Db H : Type 0} (env : Services Db H) (db : Db) (raw_key : String) : Type 0 where
  pub uid : String
  pub row : ApiKey
  pub active : Active env db uid row
  pub hashed : env.sha256_hex (txt.◌++◌ raw_key row.salt) ≡ row.key

-- What the administration and the life of the process do to the state, one after the other.
pub data Op : Type 0 where
  creates : (uid raw_key salt name : String) (now : ℕ) → Op
  revokes : String → Op
  starts : Op

module _ {Db H : Type 0} (env : Services Db H) where
  pub step : State Db H → Op → State Db H
  step s (creates uid raw_key salt name now) = (create env s uid raw_key salt name now).1
  step s (revokes uid) = (revoke env s uid).1
  step s starts = (on_module_init env s).1

  pub run : State Db H → List Op → State Db H
  unfolding step
  run s [] = s
  run s (o ∷ os) = run (step s o) os

module _ {Db H : Type 0} (env : Services Db H) (sound : Sound env) where
  step-Agrees : (s : State Db H) (o : Op) → Agrees env s → Agrees env (step env s o)
  unfolding step
  step-Agrees s (creates uid raw_key salt name now) c =
      create-Agrees env sound s uid raw_key salt name now c
  step-Agrees s (revokes uid) c = revoke-Agrees env sound s uid c
  step-Agrees s starts c = on_module_init-Agrees env sound s c

  run-Agrees : (s : State Db H) (os : List Op) → Agrees env s → Agrees env (run env s os)
  unfolding run
  run-Agrees s [] c = c
  run-Agrees s (o ∷ os) c = run-Agrees (step env s o) os (step-Agrees s o c)

  Agrees-Parses : (s : State Db H) → Agrees env s → Parses env (env.hash.entries s.cache)
  Agrees-Parses s c f v m =
      let l = (c f v).0 m in
      (entry_of l.row, ap env.parse l.text ∙ sound.round_trip (entry_of l.row))

  guard_iff :
      (s : State Db H) (raw_key : String)
      → Injective env.utf8
      → Agrees env s
      → (api_key_guard env s.cache (one raw_key) ≡ ok true)
        ↔ ((raw_key ≢ "") × IsKey env s.db raw_key)
  unfolding api_key_guard
  guard_iff s raw_key faithful c = (to, from)
    where
      to :
          api_key_guard env s.cache (one raw_key) ≡ ok true
          → (raw_key ≢ "") × IsKey env s.db raw_key
      to h = elim (Bool-cases (raw_key == "")) [
        | inl empty ↦ let f = rw empty at h in cc
        | inr full ↦
            let w =
              percorrer_to env raw_key (env.hash.entries s.cache) (Agrees-Parses s c)
                (rw full at h) in
            let l = (c w.field_name w.value).0 w.listed in
            let both : ◌≡◌ {A = Result Entry} (ok w.entry) (ok (entry_of l.row)) =
              sym w.parsed ∙ ap env.parse l.text ∙ sound.round_trip (entry_of l.row) in
            let same : w.entry ≡ entry_of l.row = cc in
            (
              (λ e. false≢true (sym full ∙ (eq_iff raw_key "").1 e)),
              record {
                uid = w.field_name;
                row = l.row;
                active = l.active;
                hashed =
                    (equal_bytes_iff env _ _ faithful).0
                      (subst (λ x. fits env raw_key x ≡ true) same w.good);
              },
            )
      ]

      from :
          (raw_key ≢ "") × IsKey env s.db raw_key
          → api_key_guard env s.cache (one raw_key) ≡ ok true
      from (non, k) = elim (Bool-cases (raw_key == "")) [
        | inl empty ↦ absurd (non ((eq_iff raw_key "").0 empty))
        | inr full ↦ rw full (
            percorrer_from env raw_key (env.hash.entries s.cache) (Agrees-Parses s c) (record {
              field_name = k.uid;
              value = env.stringify (entry_of k.row);
              entry = entry_of k.row;
              listed =
                  (c k.uid (env.stringify (entry_of k.row))).1
                    (record { row = k.row; active = k.active; text = refl });
              parsed = sound.round_trip (entry_of k.row);
              good = (equal_bytes_iff env _ _ faithful).1 k.hashed;
            }))
      ]

-- From a state in which Redis agrees with the table, after any sequence of creations, revocations
-- and restarts, one after the other, the guard admits a key exactly if it is not empty and is the
-- key of an active row of the table. The hypotheses are that the table and the JSON behave as
-- documented, that Redis is up and that `Buffer.from` gives different texts different bytes.
pub api_key_guard-run :
    {Db H : Type 0} (env : Services Db H) (s : State Db H) (os : List Op) (raw_key : String)
    → Sound env
    → Injective env.utf8
    → Agrees env s
    → (api_key_guard env (run env s os).cache (one raw_key) ≡ ok true)
      ↔ ((raw_key ≢ "") × IsKey env (run env s os).db raw_key)
api_key_guard-run env s os raw_key sound faithful c =
    guard_iff env sound (run env s os) raw_key faithful (run-Agrees env sound s os c)
