-- ===== src/Table/Logs/Sorting.antt =====
-- Sorting of rows by an instant, the latest first, by insertion.
use whiz_gateway.Base.{
  ℕ, ◌≢◌, ◌≤◌, refl, sym, subst, Bool-cases, inl, inr, List, [], ◌∷◌, In, here, there, All, leb,
  if◌then◌else◌, arith,
}
use whiz_gateway.Table.Logs.Lists.{Descending, Distinct}

module _ {Row : Type 0} (instant : Row → ℕ) where
  unfoldable pub insert : Row → List Row → List Row
  insert r [] = r ∷ []
  insert r (s ∷ rs) =
      let rest = insert r rs in if leb (instant s) (instant r) then r ∷ (s ∷ rs) else s ∷ rest

  unfoldable pub sort : List Row → List Row
  unfolding insert
  sort [] = []
  sort (r ∷ rs) = insert r (sort rs)

  pub All-insert :
      (P : Row → Type 0) (r : Row) (rs : List Row) → P r → All P rs → All P (insert r rs)
  unfolding insert
  All-insert P r [] h hs = (h, tt)
  All-insert P r (s ∷ rs) h hs = elim (Bool-cases (leb (instant s) (instant r))) [
    | inl y ↦ rw y (h, hs)
    | inr n ↦ rw n (hs.0, All-insert P r rs h hs.1)
  ]

  In-insert_self : (r : Row) (rs : List Row) → In r (insert r rs)
  unfolding insert
  In-insert_self r [] = here refl
  In-insert_self r (s ∷ rs) = elim (Bool-cases (leb (instant s) (instant r))) [
    | inl y ↦ rw y (here refl)
    | inr n ↦ rw n (there (In-insert_self r rs))
  ]

  In-insert_old : (r a : Row) (rs : List Row) → In a rs → In a (insert r rs)
  unfolding insert
  In-insert_old r a [] m = elim m [ ]
  In-insert_old r a (s ∷ rs) (here e) = elim (Bool-cases (leb (instant s) (instant r))) [
    | inl y ↦ rw y (there (here e))
    | inr n ↦ rw n (here e)
  ]
  In-insert_old r a (s ∷ rs) (there m) = elim (Bool-cases (leb (instant s) (instant r))) [
    | inl y ↦ rw y (there (there m))
    | inr n ↦ rw n (there (In-insert_old r a rs m))
  ]

  pub In-sort : (a : Row) (rs : List Row) → In a rs → In a (sort rs)
  unfolding sort
  In-sort a [] m = elim m [ ]
  In-sort a (r ∷ rs) (here e) =
      subst (λ x. In x (insert r (sort rs))) (sym e) (In-insert_self r (sort rs))
  In-sort a (r ∷ rs) (there m) = In-insert_old r a (sort rs) (In-sort a rs m)

  pub All-sort : (P : Row → Type 0) (rs : List Row) → All P rs → All P (sort rs)
  unfolding sort
  All-sort P [] h = tt
  All-sort P (r ∷ rs) h = All-insert P r (sort rs) h.0 (All-sort P rs h.1)

  All-weaken : (P Q : Row → Type 0) (rs : List Row) → ((r : Row) → P r → Q r) → All P rs → All Q rs
  All-weaken P Q [] f h = tt
  All-weaken P Q (r ∷ rs) f h = (f r h.0, All-weaken P Q rs f h.1)

  Descending-insert :
      (r : Row) (rs : List Row) → Descending instant rs → Descending instant (insert r rs)
  unfolding insert
  Descending-insert r [] h = (tt, tt)
  Descending-insert r (s ∷ rs) h = elim (Bool-cases (leb (instant s) (instant r))) [
    | inl y ↦
        let le : instant s ≤ instant r = ground arith in
        rw y (
          (
            le,
            All-weaken (λ x. instant x ≤ instant s) (λ x. instant x ≤ instant r) rs
                (λ x l. omega (arith, l, le)) h.0,
          ),
          h,
        )
    | inr n ↦
        let le : instant r ≤ instant s = ground arith in
        rw n (All-insert (λ x. instant x ≤ instant s) r rs le h.0, Descending-insert r rs h.1)
  ]

  pub sort-Descending : (rs : List Row) → Descending instant (sort rs)
  unfolding sort
  sort-Descending [] = tt
  sort-Descending (r ∷ rs) = Descending-insert r (sort rs) (sort-Descending rs)

  module _ {K : Type 0} (key : Row → K) where
    Distinct-insert :
        (r : Row) (rs : List Row)
        → All (λ s. key r ≢ key s) rs
        → Distinct key rs
        → Distinct key (insert r rs)
    unfolding insert
    Distinct-insert r [] new h = (tt, tt)
    Distinct-insert r (s ∷ rs) new h = elim (Bool-cases (leb (instant s) (instant r))) [
      | inl y ↦ rw y (new, h)
      | inr n ↦ rw n (
        All-insert (λ x. key s ≢ key x) r rs (λ e. new.0 (sym e)) h.0,
        Distinct-insert r rs new.1 h.1,
      )
    ]

    pub Distinct-sort : (rs : List Row) → Distinct key rs → Distinct key (sort rs)
    unfolding sort
    Distinct-sort [] h = tt
    Distinct-sort (r ∷ rs) h =
        Distinct-insert r (sort rs) (All-sort (λ s. key r ≢ key s) rs h.0) (Distinct-sort rs h.1)
