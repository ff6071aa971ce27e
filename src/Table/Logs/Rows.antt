-- ===== src/Table/Logs/Rows.antt =====
-- A concrete table with pages: the list of rows of Table/Rows, sorted by insertion.
use whiz_gateway.Base.{
  ℕ, ◌≡◌, ◌≢◌, ◌↔◌, refl, sym, ap, subst, ◌∙◌, Bool, true, false, not, Bool-cases, inl, inr, none,
  some, List, [], ◌∷◌, In, All, select, take, drop, length, arith,
}
use whiz_gateway.Effects.{ok}
use whiz_gateway.Table.{Key}
use whiz_gateway.Table.Rows.{
  rows, visible, without, find, In-select_to, In-select_from, In-visible_to, In-visible_from,
}
use whiz_gateway.Table.Rows.Lawfulness.{rows-Lawful}
use whiz_gateway.Table.Logs.{Log, kept, LawfulLog}
use whiz_gateway.Table.Logs.Lists.{Distinct, All-In, In-All}
use whiz_gateway.Table.Logs.Sorting.{sort, All-sort, In-sort, sort-Descending, Distinct-sort}

module _ {K Row : Type 0} (keys : Key K) (key : Row → K) (clash : Row → Row → Bool)
    (instant : Row → ℕ) where
  unfoldable pub remove : (Row → Bool) → List Row → List Row
  remove p d = select (λ r. not (p r)) (visible keys key clash d)

  unfoldable pub ordered : List Row → (Row → Bool) → List Row
  ordered d p = sort instant (select p (visible keys key clash d))

  unfoldable pub logs : Log K Row (List Row)
  unfolding ordered remove
  logs = record {
    table = rows keys key clash;
    find_page = λ d p n k. take n (drop k (ordered d p));
    delete_many = λ d p. ok (length (select p (visible keys key clash d)), remove p d);
  }

  Distinct-select : (p : Row → Bool) (rs : List Row) → Distinct key rs → Distinct key (select p rs)
  Distinct-select p [] h = tt
  Distinct-select p (r ∷ rs) h =
      let rest = Distinct-select p rs h.1 in
      elim (Bool-cases (p r)) [
        | inl y ↦ rw y (
          All-In (select p rs) (λ a m.
              In-All (λ s. key r ≢ key s) rs a h.0 (In-select_to keys key clash p a rs m).0),
          rest,
        )
        | inr n ↦ rw n rest
      ]

  visible-Distinct : (d : List Row) → Distinct key (visible keys key clash d)
  unfolding visible without
  visible-Distinct [] = tt
  visible-Distinct (r ∷ d) = (
    All-In (without keys key clash (key r) (visible keys key clash d)) (λ a m e.
        let other =
          (In-select_to keys key clash (λ y. not (keys.same (key r) (key y))) a
            (visible keys key clash d) m).1 in
        let same = (keys.same_iff (key r) (key a)).1 e in ground arith),
    Distinct-select (λ y. not (keys.same (key r) (key y))) (visible keys key clash d)
        (visible-Distinct d),
  )

  In-sort_to : (a : Row) (rs : List Row) → In a (sort instant rs) → In a rs
  In-sort_to a rs m =
      In-All (λ x. In x rs) (sort instant rs) a
        (All-sort instant (λ x. In x rs) rs (All-In rs (λ x n. n))) m

  ordered-members :
      (d : List Row) (p : Row → Bool) (r : Row)
      → In r (ordered d p) ↔ ((find keys key clash d (key r) ≡ some r) × (p r ≡ true))
  unfolding ordered
  ordered-members d p r = (
    (λ m.
        let (n, h) =
          In-select_to keys key clash p r (visible keys key clash d)
            (In-sort_to r (select p (visible keys key clash d)) m) in
        (In-visible_to keys key clash r d n, h)),
    λ q. In-sort instant r (select p (visible keys key clash d)) (
        In-select_from keys key clash p r (visible keys key clash d)
          (In-visible_from keys key clash r d q.0) q.1),
  )

  find-none :
      (r : Row) (rs : List Row) (j : K)
      → All (λ s. key r ≢ key s) rs
      → keys.same (key r) j ≡ true
      → find keys key clash rs j ≡ none
  unfolding find
  find-none r [] j h e = refl
  find-none r (s ∷ rs) j h e =
      let own = (keys.same_iff (key r) j).0 e in
      let miss : keys.same (key s) j ≡ false = elim (Bool-cases (keys.same (key s) j)) [
        | inl hit ↦ elim (h.0 (own ∙ sym ((keys.same_iff (key s) j).0 hit))) [ ]
        | inr n ↦ n
      ] in
      rw miss (find-none r rs j h.1 e)

  find-without :
      (k j : K) (rs : List Row)
      → keys.same k j ≡ false
      → find keys key clash (without keys key clash k rs) j ≡ find keys key clash rs j
  unfolding find without
  find-without k j [] e = refl
  find-without k j (s ∷ rs) e = elim (Bool-cases (keys.same k (key s))) [
    | inl hit ↦
        let own = (keys.same_iff k (key s)).0 hit in
        let miss = subst (λ x. keys.same x j ≡ false) own e in
        rw (hit, miss) (find-without k j rs e)
    | inr n ↦ elim (Bool-cases (keys.same (key s) j)) [
      | inl hit ↦ rw (n, hit) refl
      | inr miss ↦ rw (n, miss) (find-without k j rs e)
    ]
  ]

  find-visible :
      (d : List Row) (j : K)
      → find keys key clash (visible keys key clash d) j ≡ find keys key clash d j
  unfolding find visible
  find-visible [] j = refl
  find-visible (r ∷ d) j = elim (Bool-cases (keys.same (key r) j)) [
    | inl hit ↦ rw hit refl
    | inr miss ↦ rw miss (find-without (key r) j (visible keys key clash d) miss ∙ find-visible d j)
  ]

  -- What a selection of rows of distinct keys finds.
  find-select :
      (p : Row → Bool) (rs : List Row) (j : K)
      → Distinct key rs
      → find keys key clash (select (λ r. not (p r)) rs) j ≡ kept p (find keys key clash rs j)
  unfolding find
  find-select p [] j h = refl
  find-select p (r ∷ rs) j h =
      let ih = find-select p rs j h.1 in
      elim (Bool-cases (p r)) [
        | inl y ↦ elim (Bool-cases (keys.same (key r) j)) [
          | inl hit ↦ rw (y, hit, y, ih, find-none r rs j h.0 hit) refl
          | inr miss ↦ rw (y, miss) ih
        ]
        | inr n ↦ elim (Bool-cases (keys.same (key r) j)) [
          | inl hit ↦ rw (n, hit, n) refl
          | inr miss ↦ rw (n, miss) ih
        ]
      ]

  deleted :
      (d : List Row) (p : Row → Bool) (n : ℕ) (d' : List Row)
      → logs.delete_many d p ≡ ok (n, d')
      → (j : K) → find keys key clash d' j ≡ kept p (find keys key clash d j)
  unfolding logs remove
  deleted d p n d' e j =
      let same : remove p d ≡ d' = cc in
      subst (λ x. find keys key clash x j ≡ kept p (find keys key clash d j)) same
        (find-select p (visible keys key clash d) j (visible-Distinct d)
          ∙ ap (kept p) (find-visible d j))

  pub logs-LawfulLog : LawfulLog logs instant
  unfolding logs rows ordered remove
  logs-LawfulLog = record {
    lawful = rows-Lawful keys key clash;
    ordered = λ d p n k. ordered d p;
    ordered-Ordered = λ d p n k. record {
      members = ordered-members d p;
      descending = sort-Descending instant (select p (visible keys key clash d));
      distinct =
          Distinct-sort instant key (select p (visible keys key clash d))
            (Distinct-select p (visible keys key clash d) (visible-Distinct d));
    };
    page = λ d p n k. refl;
    delete_ok = λ d p n d' e j. deleted d p n d' e j;
  }
