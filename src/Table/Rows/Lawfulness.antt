-- ===== src/Table/Rows/Lawfulness.antt =====
-- The laws of a table, for the list of rows.
use whiz_gateway.Base.{
  ◌≡◌, refl, sym, ap, ◌∙◌, inl, inr, Bool, false, true, not, ◌&&◌, Option, none, some, Bool-cases,
  List, [], ◌∷◌, In, here, there, any, arith, if◌then◌else◌,
}
use whiz_gateway.Effects.{ok}
use whiz_gateway.Table.{Key, Updated, Created, Free, Lawful}
use whiz_gateway.Table.Rows.{
  rows, find, visible, first, blocked, accept, some_eq, In-select_to, In-select_from, In-visible_to,
  In-visible_from, update_found, create_unless,
}

module _ {K Row : Type 0} (keys : Key K) (key : Row → K) (clash : Row → Row → Bool) where
  find_key : (d : List Row) (k : K) (r : Row) → find keys key clash d k ≡ some r → key r ≡ k
  unfolding find
  find_key [] k r e = cc
  find_key (x ∷ d) k r e = elim (Bool-cases (keys.same (key x) k)) [
    | inl hit ↦ ap key (sym (some_eq (rw hit at e))) ∙ (keys.same_iff (key x) k).0 hit
    | inr miss ↦ find_key d k r (rw miss at e)
  ]

  first-some :
      (l : List Row) (p : Row → Bool) (r : Row)
      → first keys key clash l p ≡ some r
      → In r l × (p r ≡ true)
  unfolding first
  first-some [] p r e = cc
  first-some (x ∷ l) p r e = elim (Bool-cases (p x)) [
    | inl hit ↦ let q = some_eq (rw hit at e) in (here (sym q), ap p (sym q) ∙ hit)
    | inr miss ↦ let (m, h) = first-some l p r (rw miss at e) in (there m, h)
  ]

  first-none :
      (l : List Row) (p : Row → Bool) (r : Row)
      → first keys key clash l p ≡ none
      → In r l
      → p r ≡ false
  unfolding first
  first-none [] p r e m = elim m [ ]
  first-none (x ∷ l) p r e m = elim (Bool-cases (p x)) [
    | inl hit ↦ let f = rw hit at e in cc
    | inr miss ↦ elim m [ here q ↦ ap p q ∙ miss | there n ↦ first-none l p r (rw miss at e) n ]
  ]

  any_none : (p : Row → Bool) (l : List Row) → ((s : Row) → In s l → p s ≡ false) → any p l ≡ false
  any_none p [] h = refl
  any_none p (x ∷ l) h = rw (h x (here refl)) (any_none p l (λ s m. h s (there m)))

  -- A row that is free to stand under its key is accepted.
  accept-Free :
      (d : List Row) (k : K) (r : Row)
      → key r ≡ k
      → Free (rows keys key clash) d k r
      → accept keys key clash d k r ≡ ok (r, r ∷ d)
  unfolding accept blocked rows
  accept-Free d k r e free = rw (none_blocks, (keys.same_iff (key r) k).1 e) refl
    where
      clear :
          (s : Row)
          → In s (visible keys key clash d)
          → (not (keys.same k (key s)) && clash r s) ≡ false
      clear s m = elim (Bool-cases (keys.same k (key s))) [
        | inl own ↦ rw own refl
        | inr other ↦ rw (other, free (key s) s (In-visible_to keys key clash s d m) other) refl
      ]

      none_blocks :
          any (λ s. not (keys.same k (key s)) && clash r s) (visible keys key clash d) ≡ false
      none_blocks = any_none _ (visible keys key clash d) clear

  record Accepted (d : List Row) (k : K) (r r' : Row) (d' : List Row) : Type 0 where
    own : key r ≡ k
    row : r' ≡ r
    rest : d' ≡ r ∷ d

  accept_ok :
      (d : List Row) (k : K) (r r' : Row) (d' : List Row)
      → accept keys key clash d k r ≡ ok (r', d')
      → Accepted d k r r' d'
  unfolding accept
  accept_ok d k r r' d' e =
      elim (Bool-cases (keys.same (key r) k && not (blocked keys key clash d k r))) [
        | inl fits ↦
            let q = rw fits at e in
            record { own = (keys.same_iff (key r) k).0 (ground arith); row = cc; rest = cc }
        | inr blocks ↦ let q = rw blocks at e in cc
      ]

  after_write :
      (d d' : List Row) (k : K) (r : Row)
      → key r ≡ k
      → d' ≡ r ∷ d
      → (j : K)
      → find keys key clash d' j ≡ (if keys.same k j then some r else find keys key clash d j)
  unfolding find
  after_write d d' k r own e j = rw (e, own) refl

  updated :
      (d : List Row) (k : K) (f : Row → Row) (r' : Row) (d' : List Row) (o : Option Row)
      → find keys key clash d k ≡ o
      → update_found keys key clash d k f o ≡ ok (r', d')
      → Updated (rows keys key clash) d k f r' d'
  unfolding update_found rows
  updated d k f r' d' none o e = cc
  updated d k f r' d' (some x) o e =
      let a = accept_ok d k (f x) r' d' e in
      record { row = x; found = o; new_row = a.row; after = after_write d d' k (f x) a.own a.rest }

  created :
      (d : List Row) (r r' : Row) (d' : List Row) (o : Option Row)
      → create_unless keys key clash d r o ≡ ok (r', d')
      → Created (rows keys key clash) d r r' d'
  unfolding create_unless rows
  created d r r' d' (some x) e = cc
  created d r r' d' none e =
      let a = accept_ok d (key r) r r' d' e in
      record { new_row = a.row; after = after_write d d' (key r) r refl a.rest }

  update_total :
      (d : List Row) (k : K) (f : Row → Row) (r : Row) (o : Option Row)
      → o ≡ some r
      → key (f r) ≡ k
      → Free (rows keys key clash) d k (f r)
      → update_found keys key clash d k f o ≡ ok (f r, f r ∷ d)
  unfolding update_found
  update_total d k f r o e own free = rw e (accept-Free d k (f r) own free)

  create_total :
      (d : List Row) (r : Row) (o : Option Row)
      → o ≡ none
      → Free (rows keys key clash) d (key r) r
      → create_unless keys key clash d r o ≡ ok (r, r ∷ d)
  unfolding create_unless
  create_total d r o e free = rw e (accept-Free d (key r) r refl free)

  pub rows-Lawful : Lawful (rows keys key clash)
  unfolding rows update_found create_unless find
  rows-Lawful = record {
    find_unique_key = find_key;
    find_first_some = λ d p r e.
        let (m, h) = first-some (visible keys key clash d) p r e in
        (In-visible_to keys key clash r d m, h);
    find_first_none = λ d p k r e u.
        first-none (visible keys key clash d) p r e
          (In-visible_from keys key clash r d (rw (find_key d k r u) u));
    find_many_iff = λ d p r. (
      (λ m.
          let (n, h) = In-select_to keys key clash p r (visible keys key clash d) m in
          (In-visible_to keys key clash r d n, h)),
      λ q.
          In-select_from keys key clash p r (visible keys key clash d)
            (In-visible_from keys key clash r d q.0) q.1,
    );
    update_ok = λ d k f r' d' e. updated d k f r' d' (find keys key clash d k) refl e;
    update_total = λ d k f r u own fits free. (f r ∷ d, update_total d k f r _ u own free);
    create_ok = λ d r r' d' e. created d r r' d' (find keys key clash d (key r)) e;
    create_total = λ d r u fits free. (r ∷ d, create_total d r _ u free);
    create_refused = λ d r e. cc;
  }
