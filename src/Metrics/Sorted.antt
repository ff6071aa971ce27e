-- ===== src/Metrics/Sorted.antt =====
-- What sorting keeps, on the samples that `montarAtributos` of src/sentry/sentry-metrics.service.ts
-- sorts.
use whiz_gateway.Base.{
  ℕ, zero, suc, ◌-◌, ◌≤◌, ◌<◌, ◌≡◌, refl, sym, ap, subst, ◌∙◌, true, false, Bool-cases, inl, inr,
  List, [], ◌∷◌, In, here, there, All, length, leb, arith,
}
use whiz_gateway.Metrics.{insert, ordenadas, element}

abbrev pub Ascending : List ℕ → Type 0
Ascending [] = Unit
Ascending (a ∷ as') = All (λ b. a ≤ b) as' × Ascending as'

leb_le : (a b : ℕ) → leb a b ≡ true → a ≤ b
leb_le a b e = ground arith

leb_ge : (a b : ℕ) → leb a b ≡ false → b ≤ a
leb_ge a b e = ground arith

All-le : (a b : ℕ) (xs : List ℕ) → a ≤ b → All (λ x. b ≤ x) xs → All (λ x. a ≤ x) xs
All-le a b [] l h = tt
All-le a b (x ∷ xs) l h = (omega (arith, l, h.0), All-le a b xs l h.1)

All-insert : (P : ℕ → Type 0) (a : ℕ) (xs : List ℕ) → P a → All P xs → All P (insert a xs)
unfolding insert
All-insert P a [] h hs = (h, tt)
All-insert P a (b ∷ bs) h hs = elim (Bool-cases (leb a b)) [
  | inl y ↦ rw y (h, hs)
  | inr n ↦ rw n (hs.0, All-insert P a bs h hs.1)
]

insert-Ascending : (a : ℕ) (xs : List ℕ) → Ascending xs → Ascending (insert a xs)
unfolding insert
insert-Ascending a [] h = (tt, tt)
insert-Ascending a (b ∷ bs) h = elim (Bool-cases (leb a b)) [
  | inl y ↦ let l = leb_le a b y in rw y ((l, All-le a b bs l h.0), h)
  | inr n ↦ rw n (All-insert (λ x. b ≤ x) a bs (leb_ge a b n) h.0, insert-Ascending a bs h.1)
]

pub ordenadas-Ascending : (xs : List ℕ) → Ascending (ordenadas xs)
unfolding ordenadas
ordenadas-Ascending [] = tt
ordenadas-Ascending (a ∷ xs) = insert-Ascending a (ordenadas xs) (ordenadas-Ascending xs)

In-insert_self : (a : ℕ) (xs : List ℕ) → In a (insert a xs)
unfolding insert
In-insert_self a [] = here refl
In-insert_self a (b ∷ bs) = elim (Bool-cases (leb a b)) [
  | inl y ↦ rw y (here refl)
  | inr n ↦ rw n (there (In-insert_self a bs))
]

In-insert_old : (a x : ℕ) (xs : List ℕ) → In x xs → In x (insert a xs)
unfolding insert
In-insert_old a x [] m = elim m [ ]
In-insert_old a x (b ∷ bs) (here e) = elim (Bool-cases (leb a b)) [
  | inl y ↦ rw y (there (here e))
  | inr n ↦ rw n (here e)
]
In-insert_old a x (b ∷ bs) (there m) = elim (Bool-cases (leb a b)) [
  | inl y ↦ rw y (there (there m))
  | inr n ↦ rw n (there (In-insert_old a x bs m))
]

pub In-ordenadas : (x : ℕ) (xs : List ℕ) → In x xs → In x (ordenadas xs)
unfolding ordenadas
In-ordenadas x [] m = elim m [ ]
In-ordenadas x (a ∷ xs) (here e) =
    subst (λ z. In z (insert a (ordenadas xs))) (sym e) (In-insert_self a (ordenadas xs))
In-ordenadas x (a ∷ xs) (there m) = In-insert_old a x (ordenadas xs) (In-ordenadas x xs m)

All-ordenadas : (P : ℕ → Type 0) (xs : List ℕ) → All P xs → All P (ordenadas xs)
unfolding ordenadas
All-ordenadas P [] h = tt
All-ordenadas P (a ∷ xs) h = All-insert P a (ordenadas xs) h.0 (All-ordenadas P xs h.1)

length-insert : (a : ℕ) (xs : List ℕ) → length (insert a xs) ≡ suc (length xs)
unfolding insert
length-insert a [] = refl
length-insert a (b ∷ bs) = elim (Bool-cases (leb a b)) [
  | inl y ↦ rw y refl
  | inr n ↦ rw n (ap suc (length-insert a bs))
]

pub length-ordenadas : (xs : List ℕ) → length (ordenadas xs) ≡ length xs
unfolding ordenadas
length-ordenadas [] = refl
length-ordenadas (a ∷ xs) = length-insert a (ordenadas xs) ∙ ap suc (length-ordenadas xs)

pub All-element :
    (P : ℕ → Type 0) (xs : List ℕ) (i : ℕ) → i < length xs → All P xs → P (element xs i)
All-element P [] i l h = let absurd : ⊥ = omega (arith, l) in elim absurd [ ]
All-element P (x ∷ xs) zero l h = h.0
All-element P (x ∷ xs) (suc i) l h = All-element P xs i (omega (arith, l)) h.1

-- In an ascending list a later element is no smaller.
pub element-Ascending :
    (xs : List ℕ) (i j : ℕ) → i ≤ j → j < length xs → Ascending xs → element xs i ≤ element xs j
element-Ascending [] i j l m h = let absurd : ⊥ = omega (arith, m) in elim absurd [ ]
element-Ascending (x ∷ xs) zero zero l m h = omega arith
element-Ascending (x ∷ xs) zero (suc j) l m h = All-element (λ y. x ≤ y) xs j (omega (arith, m)) h.0
element-Ascending (x ∷ xs) (suc i) zero l m h = let absurd : ⊥ = omega (arith, l) in elim absurd [ ]
element-Ascending (x ∷ xs) (suc i) (suc j) l m h =
    element-Ascending xs i j (omega (arith, l)) (omega (arith, m)) h.1

In-position : (x : ℕ) (xs : List ℕ) → In x xs → (i : ℕ) × (i < length xs) × (element xs i ≡ x)
In-position x [] m = elim m [ ]
In-position x (y ∷ xs) (here e) = (0, omega arith, sym e)
In-position x (y ∷ xs) (there m) =
    let (i, l, e) = In-position x xs m in (suc i, omega (arith, l), e)

pub In-last : (x : ℕ) (xs : List ℕ) → Ascending xs → In x xs → x ≤ element xs (length xs - 1)
In-last x xs h m =
    let (i, l, e) = In-position x xs m in
    subst (λ z. z ≤ element xs (length xs - 1)) e
      (element-Ascending xs i (length xs - 1) (omega (arith, l)) (omega (arith, l)) h)
