-- ===== src/Table/Rows.antt =====
-- A concrete table: a list of rows in which a later write stands before. It admits every row.
pub mod Lawfulness
use mathlib.Core.Bool.{false≢true}
use text.Mathlib.Text.{◌==◌ as str_eq}
use whiz_gateway.Base.{
  ℕ, String, ◌≡◌, refl, sym, ap, subst, ◌∙◌, ◌↔◌, ◌⊎◌, inl, inr, Bool, false, true, not, ◌&&◌,
  Option, none, some, Option-cases, Bool-cases, List, [], ◌∷◌, In, here, there, select, any, arith,
  eqb, eqb_iff, eq_iff, if◌then◌else◌,
}
use whiz_gateway.Effects.{Result, ok, err, outro}
use whiz_gateway.Table.{Key, Table, Updated, Created, Free, Lawful, Redis}

abbrev pub nat_key : Key ℕ
nat_key = record { same = eqb; same_iff = eqb_iff }

abbrev pub text_key : Key String
text_key = record { same = str_eq; same_iff = eq_iff }

pub some_eq : {A : Type 0} {a b : A} → some a ≡ some b → a ≡ b
some_eq e = cc

module _ {K Row : Type 0} (keys : Key K) (key : Row → K) (clash : Row → Row → Bool) where
  unfoldable pub find : List Row → K → Option Row
  find [] k = none
  find (r ∷ d) k = if keys.same (key r) k then some r else find d k

  unfoldable pub without : K → List Row → List Row
  without k = select (λ r. not (keys.same k (key r)))

  -- The rows that are not shadowed.
  unfoldable pub visible : List Row → List Row
  visible [] = []
  visible (r ∷ d) = r ∷ without (key r) (visible d)

  unfoldable pub first : List Row → (Row → Bool) → Option Row
  first [] p = none
  first (r ∷ l) p = if p r then some r else first l p

  unfoldable pub blocked : List Row → K → Row → Bool
  blocked d k r = any (λ s. not (keys.same k (key s)) && clash r s) (visible d)

  unfoldable pub accept : List Row → K → Row → Result (Row × List Row)
  accept d k r =
      if keys.same (key r) k && not (blocked d k r) then ok (r, r ∷ d) else err (outro "P2002")

  unfoldable pub update_found : List Row → K → (Row → Row) → Option Row → Result (Row × List Row)
  update_found d k f none = err (outro "P2025")
  update_found d k f (some r) = accept d k (f r)

  unfoldable pub create_unless : List Row → Row → Option Row → Result (Row × List Row)
  create_unless d r (some _) = err (outro "P2002")
  create_unless d r none = accept d (key r) r

  unfoldable pub rows : Table K Row (List Row)
  unfolding find first visible without accept blocked update_found create_unless
  rows = record {
    keys = keys;
    key = key;
    clash = clash;
    admits = λ r. true;
    find_unique = find;
    find_first = λ d. first (visible d);
    find_many = λ d p. select p (visible d);
    update = λ d k f. update_found d k f (find d k);
    create = λ d r. create_unless d r (find d (key r));
  }

  pub same_refl : (k : K) → keys.same k k ≡ true
  same_refl k = (keys.same_iff k k).1 refl

  select_to :
      (p : Row → Bool) (r x : Row) (s l : List Row) (b : Bool)
      → p x ≡ b
      → In r (if b then x ∷ s else s)
      → (In r s → In r l × (p r ≡ true))
      → In r (x ∷ l) × (p r ≡ true)
  select_to p r x s l true e (here q) ih = (here q, ap p q ∙ e)
  select_to p r x s l true e (there m) ih = (there (ih m).0, (ih m).1)
  select_to p r x s l false e m ih = (there (ih m).0, (ih m).1)

  pub In-select_to :
      (p : Row → Bool) (r : Row) (l : List Row) → In r (select p l) → In r l × (p r ≡ true)
  In-select_to p r [] m = elim m [ ]
  In-select_to p r (x ∷ l) m = select_to p r x (select p l) l (p x) refl m (In-select_to p r l)

  pub In-select_from :
      (p : Row → Bool) (r : Row) (l : List Row) → In r l → p r ≡ true → In r (select p l)
  In-select_from p r [] m e = elim m [ ]
  In-select_from p r (x ∷ l) (here q) e =
      let at_x : p x ≡ true = ap p (sym q) ∙ e in rw at_x (here q)
  In-select_from p r (x ∷ l) (there m) e = elim (Bool-cases (p x)) [
    | inl passes ↦ rw passes (there (In-select_from p r l m e))
    | inr fails ↦ rw fails (In-select_from p r l m e)
  ]

  -- Two rows of one key that are both visible are one.
  pub In-visible_to : (r : Row) (d : List Row) → In r (visible d) → find d (key r) ≡ some r
  unfolding visible find without
  In-visible_to r [] m = elim m [ ]
  In-visible_to r (x ∷ d) (here q) = rw (ap key q, same_refl) (ap some (sym q))
  In-visible_to r (x ∷ d) (there m) =
      let (old, other) = In-select_to (λ y. not (keys.same (key x) (key y))) r (visible d) m in
      let miss : keys.same (key x) (key r) ≡ false = ground arith in rw miss (In-visible_to r d old)

  pub In-visible_from : (r : Row) (d : List Row) → find d (key r) ≡ some r → In r (visible d)
  unfolding visible find without
  In-visible_from r [] e = cc
  In-visible_from r (x ∷ d) e = elim (Bool-cases (keys.same (key x) (key r))) [
    | inl hit ↦ here (some_eq (sym (rw hit at e)))
    | inr miss ↦ there (
        In-select_from (λ y. not (keys.same (key x) (key y))) r (visible d)
          (In-visible_from r d (rw miss at e)) (ground arith))
  ]
