-- ===== src/Table/Logs/Pages.antt =====
-- Pages of a table, whatever its rows are.
use whiz_gateway.Base.{ℕ, ◌+◌, ◌≡◌, ◌≤◌, sym, subst, Bool, true, some, List, ◌++◌, In, drop, length}
use whiz_gateway.Table.Logs.{Log, LawfulLog}
use whiz_gateway.Table.Logs.Lists.{
  Descending, Strict, Strict-unique, Distinct-Strict, Descending-take, Descending-drop, In-take,
  In-drop, length-take, take-add, drop-add,
}

module _ {K Row Db : Type 0} (l : Log K Row Db) (instant : Row → ℕ)
    (good : LawfulLog l instant) where
  -- A page of at most `n` rows that pass, the latest first.
  pub record Page (d : Db) (p : Row → Bool) (n : ℕ) (rs : List Row) : Type 0 where
    pub stored :
        (r : Row) → In r rs → (l.table.find_unique d (l.table.key r) ≡ some r) × (p r ≡ true)
    pub descending : Descending instant rs
    pub bounded : length rs ≤ n

  -- No two rows that pass are of one instant.
  abbrev pub Untied : Db → (Row → Bool) → Type 0
  Untied d p =
      (r s : Row)
      → (l.table.find_unique d (l.table.key r) ≡ some r) × (p r ≡ true)
      → (l.table.find_unique d (l.table.key s) ≡ some s) × (p s ≡ true)
      → instant r ≡ instant s
      → r ≡ s

  pub find_page-Page : (d : Db) (p : Row → Bool) (n k : ℕ) → Page d p n (l.find_page d p n k)
  find_page-Page d p n k =
      let o = good.ordered-Ordered d p n k in
      let all = good.ordered d p n k in
      subst (Page d p n) (sym (good.page d p n k)) (record {
        stored = λ r m. (o.members r).0 (In-drop k all r (In-take n (drop k all) r m));
        descending =
            Descending-take instant n (drop k all) (Descending-drop instant k all o.descending);
        bounded = length-take n (drop k all);
      })

  strict : (d : Db) (p : Row → Bool) (n k : ℕ) → Untied d p → Strict instant (good.ordered d p n k)
  strict d p n k untied =
      let o = good.ordered-Ordered d p n k in
      Distinct-Strict instant l.table.key (good.ordered d p n k) o.distinct o.descending
        (λ r s m m' e. untied r s ((o.members r).0 m) ((o.members s).0 m') e)

  one_order :
      (d : Db) (p : Row → Bool) (n k n' k' : ℕ)
      → Untied d p
      → good.ordered d p n k ≡ good.ordered d p n' k'
  one_order d p n k n' k' untied =
      let o = good.ordered-Ordered d p n k in
      let o' = good.ordered-Ordered d p n' k' in
      Strict-unique instant (good.ordered d p n k) (good.ordered d p n' k') (strict d p n k untied)
        (strict d p n' k' untied) (λ r m. (o'.members r).1 ((o.members r).0 m))
        (λ r m. (o.members r).1 ((o'.members r).0 m))

  pub find_page-join :
      (d : Db) (p : Row → Bool) (n m k : ℕ)
      → Untied d p
      → l.find_page d p n k ++ l.find_page d p m (k + n) ≡ l.find_page d p (n + m) k
  find_page-join d p n m k untied =
      let all = good.ordered d p (n + m) k in
      rw
        (
          good.page d p n k,
          good.page d p m (k + n),
          good.page d p (n + m) k,
          one_order d p n k (n + m) k untied,
          one_order d p m (k + n) (n + m) k untied,
          sym (drop-add k n all),
        )
        (take-add n m (drop k all))
