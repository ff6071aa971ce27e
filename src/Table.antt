-- ===== src/Table.antt =====
-- One table behind the Prisma client, and the Redis keys: what the repositories and services use
-- of them, with the documented behaviour that they rely on. The connection is up.
pub mod Rows
pub mod Keys
pub mod Logs
use whiz_gateway.Base.{
  ℕ, String, Bool, true, false, ◌≡◌, ◌↔◌, Option, none, some, List, In, if◌then◌else◌, ◌==◌,
}
use whiz_gateway.Effects.{Erro, Result, ok, err}

-- A key type with a Boolean equality.
pub record Key (K : Type 0) : Type 0 where
  pub same : K → K → Bool
  pub same_iff : (j k : K) → (same j k ≡ true) ↔ (j ≡ k)

-- The operations on a table with a unique key, and with a second unique constraint: `clash r s`
-- says that the rows `r` and `s` may not stand in it together.
pub record Table (K Row Db : Type 0) : Type 0 where
  pub keys : Key K
  pub key : Row → K
  pub clash : Row → Row → Bool
  -- whether the columns take the values of a row and its foreign keys refer to rows
  pub admits : Row → Bool
  -- findUnique, by the key
  pub find_unique : Db → K → Option Row
  -- findFirst, by a condition
  pub find_first : Db → (Row → Bool) → Option Row
  -- findMany, by a condition
  pub find_many : Db → (Row → Bool) → List Row
  pub update : Db → K → (Row → Row) → Result (Row × Db)
  pub create : Db → Row → Result (Row × Db)

module _ {K Row Db : Type 0} (t : Table K Row Db) where
  -- What a successful update does.
  pub record Updated (d : Db) (k : K) (f : Row → Row) (r' : Row) (d' : Db) : Type 0 where
    pub row : Row
    pub found : t.find_unique d k ≡ some row
    pub new_row : r' ≡ f row
    pub after :
        (j : K) → t.find_unique d' j ≡ (if t.keys.same k j then some (f row) else t.find_unique d j)

  -- What a successful insertion does.
  pub record Created (d : Db) (r : Row) (r' : Row) (d' : Db) : Type 0 where
    pub new_row : r' ≡ r
    pub after :
        (j : K)
        → t.find_unique d' j ≡ (if t.keys.same (t.key r) j then some r else t.find_unique d j)

  -- No stored row but that of the key `k` clashes with `r`.
  abbrev pub Free : Db → K → Row → Type 0
  Free d k r =
      (j : K) (s : Row) → t.find_unique d j ≡ some s → t.keys.same k j ≡ false → t.clash r s ≡ false

  pub record Lawful : Type 0 where
    pub find_unique_key : (d : Db) (k : K) (r : Row) → t.find_unique d k ≡ some r → t.key r ≡ k
    pub find_first_some :
        (d : Db) (p : Row → Bool) (r : Row)
        → t.find_first d p ≡ some r
        → (t.find_unique d (t.key r) ≡ some r) × (p r ≡ true)
    pub find_first_none :
        (d : Db) (p : Row → Bool) (k : K) (r : Row)
        → t.find_first d p ≡ none
        → t.find_unique d k ≡ some r
        → p r ≡ false
    pub find_many_iff :
        (d : Db) (p : Row → Bool) (r : Row)
        → In r (t.find_many d p) ↔ ((t.find_unique d (t.key r) ≡ some r) × (p r ≡ true))
    pub update_ok :
        (d : Db) (k : K) (f : Row → Row) (r' : Row) (d' : Db)
        → t.update d k f ≡ ok (r', d')
        → Updated d k f r' d'
    -- an update of a row succeeds, if it keeps the key, is admitted and meets no unique constraint
    pub update_total :
        (d : Db) (k : K) (f : Row → Row) (r : Row)
        → t.find_unique d k ≡ some r
        → t.key (f r) ≡ k
        → t.admits (f r) ≡ true
        → Free d k (f r)
        → (d' : Db) × (t.update d k f ≡ ok (f r, d'))
    pub create_ok : (d : Db) (r r' : Row) (d' : Db) → t.create d r ≡ ok (r', d') → Created d r r' d'
    -- an insertion succeeds, if its key is new, it is admitted and it meets no unique constraint
    pub create_total :
        (d : Db) (r : Row)
        → t.find_unique d (t.key r) ≡ none
        → t.admits r ≡ true
        → Free d (t.key r) r
        → (d' : Db) × (t.create d r ≡ ok (r, d'))
    pub create_refused :
        (d : Db) (r : Row) → t.admits r ≡ false → (e : Erro) × (t.create d r ≡ err e)

-- Redis keys with a time to live. A value that is read is the one last written, and was not
-- deleted since; a key may expire at any time.
pub record Redis (C : Type 0) : Type 0 where
  pub get : C → String → Option String
  pub set : C → String → String → C
  pub del : C → String → C
  pub expire : C → C
  pub get-set :
      (c : C) (k j v w : String)
      → get (set c k v) j ≡ some w
      → (if k == j then w ≡ v else get c j ≡ some w)
  pub get-del :
      (c : C) (k j w : String) → get (del c k) j ≡ some w → ((k == j) ≡ false) × (get c j ≡ some w)
  pub get-expire : (c : C) (j w : String) → get (expire c) j ≡ some w → get c j ≡ some w
