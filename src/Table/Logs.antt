-- ===== src/Table/Logs.antt =====
-- A table whose rows carry an instant: pages of it, the latest first, and removal by a condition,
-- as the Prisma client offers them, with the documented behaviour that is relied on.
pub mod Lists
pub mod Sorting
pub mod Rows
pub mod Pages
use whiz_gateway.Base.{
  ℕ, String, Bool, true, ◌≡◌, ◌↔◌, ◌≤◌, ◌<◌, Option, none, some, List, In, take, drop, length,
  if◌then◌else◌,
}
use whiz_gateway.Effects.{Result, ok}
use whiz_gateway.Table.{Table, Lawful}
use whiz_gateway.Table.Logs.Lists.{Descending, Distinct}

pub record Log (K Row Db : Type 0) : Type 0 where
  pub table : Table K Row Db
  -- findMany({ where, take, skip, orderBy: { data: 'desc' } })
  pub find_page : Db → (Row → Bool) → ℕ → ℕ → List Row
  -- deleteMany({ where }), with its count
  pub delete_many : Db → (Row → Bool) → Result (ℕ × Db)

-- What is left of a row after the rows that pass a test are deleted.
abbrev pub kept : {Row : Type 0} → (Row → Bool) → Option Row → Option Row
kept p none = none
kept p (some r) = if p r then none else some r

module _ {K Row Db : Type 0} (l : Log K Row Db) (instant : Row → ℕ) where
  -- An order of the rows that pass, the latest first. Rows of one instant stand in any order, which
  -- may be another one for another page.
  pub record Ordered (d : Db) (p : Row → Bool) (rs : List Row) : Type 0 where
    pub members :
        (r : Row) → In r rs ↔ ((l.table.find_unique d (l.table.key r) ≡ some r) × (p r ≡ true))
    pub descending : Descending instant rs
    pub distinct : Distinct l.table.key rs

  pub record LawfulLog : Type 0 where
    pub lawful : Lawful l.table
    pub ordered : Db → (Row → Bool) → ℕ → ℕ → List Row
    pub ordered-Ordered : (d : Db) (p : Row → Bool) (n k : ℕ) → Ordered d p (ordered d p n k)
    pub page :
        (d : Db) (p : Row → Bool) (n k : ℕ)
        → l.find_page d p n k ≡ take n (drop k (ordered d p n k))
    pub delete_ok :
        (d : Db) (p : Row → Bool) (n : ℕ) (d' : Db)
        → l.delete_many d p ≡ ok (n, d')
        → (j : K) → l.table.find_unique d' j ≡ kept p (l.table.find_unique d j)
