-- ===== src/Table/Logs/Lists.antt =====
-- Lists of rows that are ordered by an instant, the latest first.
use whiz_gateway.Base.{
  ℕ, zero, suc, ◌+◌, ◌≡◌, ◌≢◌, ◌≤◌, ◌<◌, refl, sym, ap, subst, ◌∙◌, List, [], ◌∷◌, ◌++◌, In, here,
  there, All, take, drop, length, arith,
}

abbrev pub Descending : {Row : Type 0} → (Row → ℕ) → List Row → Type 0
Descending instant [] = Unit
Descending instant (r ∷ rs) = All (λ s. instant s ≤ instant r) rs × Descending instant rs

abbrev pub Distinct : {Row K : Type 0} → (Row → K) → List Row → Type 0
Distinct key [] = Unit
Distinct key (r ∷ rs) = All (λ s. key r ≢ key s) rs × Distinct key rs

pub All-In : {A : Type 0} {P : A → Type 0} (xs : List A) → ((a : A) → In a xs → P a) → All P xs
All-In [] f = tt
All-In (x ∷ xs) f = (f x (here refl), All-In xs (λ a m. f a (there m)))

pub In-All : {A : Type 0} (P : A → Type 0) (xs : List A) (a : A) → All P xs → In a xs → P a
In-All P [] a h m = elim m [ ]
In-All P (x ∷ xs) a h (here e) = subst P (sym e) h.0
In-All P (x ∷ xs) a h (there m) = In-All P xs a h.1 m

pub In-take : {A : Type 0} (n : ℕ) (xs : List A) (a : A) → In a (take n xs) → In a xs
In-take zero xs a m = elim m [ ]
In-take (suc n) [] a m = elim m [ ]
In-take (suc n) (x ∷ xs) a (here e) = here e
In-take (suc n) (x ∷ xs) a (there m) = there (In-take n xs a m)

pub In-drop : {A : Type 0} (n : ℕ) (xs : List A) (a : A) → In a (drop n xs) → In a xs
In-drop zero xs a m = m
In-drop (suc n) [] a m = elim m [ ]
In-drop (suc n) (x ∷ xs) a m = there (In-drop n xs a m)

pub length-take : {A : Type 0} (n : ℕ) (xs : List A) → length (take n xs) ≤ n
length-take zero xs = omega arith
length-take (suc n) [] = omega arith
length-take (suc n) (x ∷ xs) = omega (arith, length-take n xs)

-- Two pages that follow each other are one.
pub take-add :
    {A : Type 0} (n m : ℕ) (xs : List A) → take n xs ++ take m (drop n xs) ≡ take (n + m) xs
take-add zero m xs = let e : m ≡ 0 + m = omega arith in ap (λ k. take k xs) e
take-add (suc n) zero [] = let e : suc (n + 0) ≡ suc n + 0 = omega arith in ap (λ k. take k []) e
take-add (suc n) (suc m) [] =
    let e : suc (n + suc m) ≡ suc n + suc m = omega arith in ap (λ k. take k []) e
take-add (suc n) m (x ∷ xs) =
    let e : suc (n + m) ≡ suc n + m = omega arith in
    ap (λ l. x ∷ l) (take-add n m xs) ∙ ap (λ k. take k (x ∷ xs)) e

pub drop-nil : {A : Type 0} (n : ℕ) → drop {A = A} n [] ≡ []
drop-nil zero = refl
drop-nil (suc n) = refl

pub drop-add : {A : Type 0} (k n : ℕ) (xs : List A) → drop n (drop k xs) ≡ drop (k + n) xs
drop-add zero n xs = let e : n ≡ 0 + n = omega arith in ap (λ k. drop k xs) e
drop-add (suc k) n [] =
    let e : suc (k + n) ≡ suc k + n = omega arith in drop-nil n ∙ ap (λ j. drop j []) e
drop-add (suc k) n (x ∷ xs) =
    let e : suc (k + n) ≡ suc k + n = omega arith in drop-add k n xs ∙ ap (λ j. drop j (x ∷ xs)) e

module _ {Row : Type 0} (instant : Row → ℕ) where
  pub Descending-drop :
      (n : ℕ) (xs : List Row) → Descending instant xs → Descending instant (drop n xs)
  Descending-drop zero xs h = h
  Descending-drop (suc n) [] h = tt
  Descending-drop (suc n) (x ∷ xs) h = Descending-drop n xs h.1

  pub Descending-take :
      (n : ℕ) (xs : List Row) → Descending instant xs → Descending instant (take n xs)
  Descending-take zero xs h = tt
  Descending-take (suc n) [] h = tt
  Descending-take (suc n) (x ∷ xs) h = (
    All-In (take n xs) (λ a m. In-All (λ s. instant s ≤ instant x) xs a h.0 (In-take n xs a m)),
    Descending-take n xs h.1,
  )

  -- No two rows of one instant.
  abbrev pub Strict : List Row → Type 0
  Strict [] = Unit
  Strict (r ∷ rs) = All (λ s. instant s < instant r) rs × Strict rs

  pub Distinct-Strict :
      {K : Type 0} (key : Row → K) (xs : List Row)
      → Distinct key xs
      → Descending instant xs
      → ((r s : Row) → In r xs → In s xs → instant r ≡ instant s → r ≡ s)
      → Strict xs
  Distinct-Strict key [] d h apart = tt
  Distinct-Strict key (x ∷ xs) d h apart = (
    All-In xs (λ s m.
        let below = In-All (λ y. instant y ≤ instant x) xs s h.0 m in
        let other : instant s ≢ instant x = λ e.
          In-All (λ y. key x ≢ key y) xs s d.0 m
            (ap key (apart x s (here refl) (there m) (sym e))) in
        omega (arith, below, other)),
    Distinct-Strict key xs d.1 h.1 (λ r s m n. apart r s (there m) (there n)),
  )

  below_none : (x : Row) (xs : List Row) → All (λ s. instant s < instant x) xs → In x xs → ⊥
  below_none x xs h m = let l = In-All (λ s. instant s < instant x) xs x h m in omega (arith, l)

  tail_of :
      (x : Row) (xs ys : List Row)
      → Strict (x ∷ xs)
      → ((r : Row) → In r (x ∷ xs) → In r (x ∷ ys))
      → (r : Row) → In r xs
      → In r ys
  tail_of x xs ys h into r m = elim (into r (there m)) [
    | here e ↦ elim (below_none x xs h.0 (subst (λ y. In y xs) e m)) [ ]
    | there n ↦ n
  ]

  heads :
      (x y : Row) (xs ys : List Row)
      → Strict (x ∷ xs)
      → Strict (y ∷ ys)
      → In x (y ∷ ys)
      → In y (x ∷ xs)
      → x ≡ y
  heads x y xs ys h k (here e) n = e
  heads x y xs ys h k (there m) (here e) = sym e
  heads x y xs ys h k (there m) (there n) =
      let l = In-All (λ s. instant s < instant y) ys x k.0 m in
      let g = In-All (λ s. instant s < instant x) xs y h.0 n in
      let absurd : ⊥ = omega (arith, l, g) in elim absurd [ ]

  -- Lists without two rows of one instant are determined by their members.
  pub Strict-unique :
      (xs ys : List Row)
      → Strict xs
      → Strict ys
      → ((r : Row) → In r xs → In r ys)
      → ((r : Row) → In r ys → In r xs)
      → xs ≡ ys
  Strict-unique [] [] h k f g = refl
  Strict-unique [] (y ∷ ys) h k f g = elim (g y (here refl)) [ ]
  Strict-unique (x ∷ xs) [] h k f g = elim (f x (here refl)) [ ]
  Strict-unique (x ∷ xs) (y ∷ ys) h k f g =
      let e = heads x y xs ys h k (f x (here refl)) (g y (here refl)) in
      let k' = subst (λ z. Strict (z ∷ ys)) (sym e) k in
      let f' = subst (λ z. (r : Row) → In r (x ∷ xs) → In r (z ∷ ys)) (sym e) f in
      let g' = subst (λ z. (r : Row) → In r (z ∷ ys) → In r (x ∷ xs)) (sym e) g in
      let rest = Strict-unique xs ys h.1 k.1 (tail_of x xs ys h f') (tail_of x ys xs k' g') in
      λ i. e i ∷ rest i
