-- ===== src/Inboxes/Wabas.antt =====
-- On `findAllByWabaId` of src/inbox/repositories/inbox.prisma.repository.ts.
use mathlib.Core.Bool.{false≢true}
use whiz_gateway.Base.{
  ℕ, String, ◌≡◌, refl, sym, ap, subst, ◌∙◌, ◌≢◌, ◌↔◌, Bool, true, false, some, inl, inr, List, [],
  ◌∷◌, In, here, there, All, any, Bool-cases, eqb, eqb_iff,
}
use whiz_gateway.Records.{Inbox}
use whiz_gateway.Inboxes.{
  Services, has_waba, um_por_ambiente, by_ambiente_data, find_all_by_waba_id,
}
use whiz_gateway.Inboxes.Creation.{Sound}

-- `orderBy` gives the rows that it is given.
abbrev pub Orders : {Db : Type 0} → Services Db → Type 0
Orders env =
    (le : Inbox → Inbox → Bool) (l : List Inbox) (r : Inbox) → In r (env.order_by le l) ↔ In r l

-- No two of the inboxes are of one environment.
abbrev pub Apart : List Inbox → Type 0
Apart [] = Unit
Apart (r ∷ rs) = All (λ s. s.id_ambiente ≢ r.id_ambiente) rs × Apart rs

-- What is kept was there.
um-In : (seen : List ℕ) (rs : List Inbox) (r : Inbox) → In r (um_por_ambiente seen rs) → In r rs
unfolding um_por_ambiente
um-In seen [] r m = m
um-In seen (x ∷ rs) r m = elim (Bool-cases (any (eqb x.id_ambiente) seen)) [
  | inl old ↦ there (um-In seen rs r (rw old at m))
  | inr new ↦ elim (rw new at m) [
    | here e ↦ here e
    | there n ↦ there (um-In (x.id_ambiente ∷ seen) rs r n)
  ]
]

-- Of each environment that is not seen, one is kept.
um-covers :
    (seen : List ℕ) (rs : List Inbox) (r : Inbox)
    → In r rs
    → any (eqb r.id_ambiente) seen ≡ false
    → (s : Inbox) × In s (um_por_ambiente seen rs) × (s.id_ambiente ≡ r.id_ambiente)
unfolding um_por_ambiente
um-covers seen [] r m h = elim m [ ]
um-covers seen (x ∷ rs) r m h = elim (Bool-cases (any (eqb x.id_ambiente) seen)) [
  | inl old ↦ elim m [
    | here e ↦ absurd (false≢true (sym h ∙ ap (λ y. any (eqb y.id_ambiente) seen) e ∙ old))
    | there n ↦ rw old (um-covers seen rs r n h)
  ]
  | inr new ↦ elim (Bool-cases (eqb r.id_ambiente x.id_ambiente)) [
    | inl hit ↦ rw new (x, here refl, sym ((eqb_iff r.id_ambiente x.id_ambiente).0 hit))
    | inr miss ↦ elim m [
      | here e ↦ rw new (x, here refl, ap (λ y. y.id_ambiente) (sym e))
      | there n ↦
          let unseen : any (eqb r.id_ambiente) (x.id_ambiente ∷ seen) ≡ false = rw miss h in
          let (s, k, q) = um-covers (x.id_ambiente ∷ seen) rs r n unseen in rw new (s, there k, q)
    ]
  ]
]

unseen_both :
    (n k : ℕ) (seen : List ℕ)
    → any (eqb n) (k ∷ seen) ≡ false
    → (n ≢ k) × (any (eqb n) seen ≡ false)
unseen_both n k seen h = elim (Bool-cases (eqb n k)) [
  | inl hit ↦ let f = rw hit at h in cc
  | inr miss ↦ ((λ e. false≢true (sym miss ∙ (eqb_iff n k).1 e)), rw miss at h)
]

-- What is kept is of no environment that is seen.
um-unseen :
    (seen : List ℕ) (rs : List Inbox) (r : Inbox)
    → In r (um_por_ambiente seen rs)
    → any (eqb r.id_ambiente) seen ≡ false
unfolding um_por_ambiente
um-unseen seen [] r m = elim m [ ]
um-unseen seen (x ∷ rs) r m = elim (Bool-cases (any (eqb x.id_ambiente) seen)) [
  | inl old ↦ um-unseen seen rs r (rw old at m)
  | inr new ↦ elim (rw new at m) [
    | here e ↦ ap (λ y. any (eqb y.id_ambiente) seen) e ∙ new
    | there n ↦
        (unseen_both r.id_ambiente x.id_ambiente seen (um-unseen (x.id_ambiente ∷ seen) rs r n)).1
  ]
]

All-In {ℓ} : {A : Type 0} (P : A → Type ℓ) (l : List A) → ((a : A) → In a l → P a) → All P l
All-In P [] h = tt
All-In P (x ∷ l) h = (h x (here refl), All-In P l (λ a m. h a (there m)))

um-Apart : (seen : List ℕ) (rs : List Inbox) → Apart (um_por_ambiente seen rs)
unfolding um_por_ambiente
um-Apart seen [] = tt
um-Apart seen (x ∷ rs) = elim (Bool-cases (any (eqb x.id_ambiente) seen)) [
  | inl old ↦ rw old (um-Apart seen rs)
  | inr new ↦ rw new (
    All-In _ (um_por_ambiente (x.id_ambiente ∷ seen) rs) (λ r m.
        (unseen_both r.id_ambiente x.id_ambiente seen (um-unseen (x.id_ambiente ∷ seen) rs r m)).0),
    um-Apart (x.id_ambiente ∷ seen) rs,
  )
]

-- `r` is stored, active and of the WABA.
abbrev pub OfWaba : {Db : Type 0} → Services Db → Db → String → Inbox → Type 0
OfWaba env db waba_id r = (env.table.find_unique db r.id ≡ some r) × (has_waba waba_id r ≡ true)

-- Over a table that behaves as documented, with an ordering that keeps the rows, the inboxes of a WABA are stored and active rows of this
-- WABA, no two of one environment, and one for each environment that has an active row of it.
pub find_all_by_waba_id-OfWaba :
    {Db : Type 0} (env : Services Db) (db : Db) (waba_id : String)
    → Sound env
    → Orders env
    → ((r : Inbox) → In r (find_all_by_waba_id env db waba_id) → OfWaba env db waba_id r)
      × Apart (find_all_by_waba_id env db waba_id)
      × ((r : Inbox)
          → OfWaba env db waba_id r
          → (s : Inbox) × In s (find_all_by_waba_id env db waba_id)
            × (s.id_ambiente ≡ r.id_ambiente))
unfolding find_all_by_waba_id
find_all_by_waba_id-OfWaba env db waba_id sound orders = (only, um-Apart [] ordered, covers)
  where
    rows : List Inbox
    rows = env.table.find_many db (has_waba waba_id)

    ordered : List Inbox
    ordered = env.order_by by_ambiente_data rows

    only : (r : Inbox) → In r (um_por_ambiente [] ordered) → OfWaba env db waba_id r
    only r m =
        let (st, h) =
          (sound.lawful.find_many_iff db (has_waba waba_id) r).0
            ((orders by_ambiente_data rows r).0 (um-In [] ordered r m)) in
        (subst (λ k. env.table.find_unique db k ≡ some r) (sound.key_id r) st, h)

    covers :
        (r : Inbox)
        → OfWaba env db waba_id r
        → (s : Inbox) × In s (um_por_ambiente [] ordered) × (s.id_ambiente ≡ r.id_ambiente)
    covers r (st, h) =
        um-covers [] ordered r
          ((orders by_ambiente_data rows r).1 (
            (sound.lawful.find_many_iff db (has_waba waba_id) r).1
              (subst (λ k. env.table.find_unique db k ≡ some r) (sym (sound.key_id r)) st, h)))
          refl
