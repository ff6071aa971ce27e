-- ===== src/Metrics/Percentiles.antt =====
-- What a snapshot says of the samples, on `percentil` and `montarAtributos` of
-- src/sentry/sentry-metrics.service.ts.
use Prim.Native.Nat.{◌/◌}
use native.Mathlib.Nat.{mul-le-mul_right}
use whiz_gateway.Base.{
  ℕ, zero, suc, ◌+◌, ◌-◌, ◌*◌, ◌≤◌, ◌<◌, ◌≡◌, ◌≢◌, refl, sym, ap, subst, ◌∙◌, Bool, true, false,
  Bool-cases, inl, inr, List, [], ◌∷◌, All, length, leb, arith, if◌then◌else◌,
}
use whiz_gateway.Table.Logs.Lists.{All-In}
use whiz_gateway.Metrics.{Distribuicao, insert, ordenadas, element, indice, percentil, resumo}
use whiz_gateway.Metrics.Sorted.{
  Ascending, ordenadas-Ascending, In-ordenadas, length-ordenadas, element-Ascending, In-last,
  All-element,
}

-- How many elements are at most `v`.
abbrev pub count_le : ℕ → List ℕ → ℕ
count_le v [] = 0
count_le v (x ∷ xs) = if leb x v then suc (count_le v xs) else count_le v xs

count_le-insert : (v a : ℕ) (xs : List ℕ) → count_le v (insert a xs) ≡ count_le v (a ∷ xs)
unfolding insert
count_le-insert v a [] = refl
count_le-insert v a (b ∷ bs) = elim (Bool-cases (leb a b)) [
  | inl y ↦ rw y refl
  | inr n ↦ rw n (swapped (leb a v) (leb b v) (count_le-insert v a bs))
]
  where
    swapped :
        (p q : Bool)
        → count_le v (insert a bs) ≡ (if p then suc (count_le v bs) else count_le v bs)
        → (if q then suc (count_le v (insert a bs)) else count_le v (insert a bs)) ≡ (
            if p
            then suc (if q then suc (count_le v bs) else count_le v bs)
            else (if q then suc (count_le v bs) else count_le v bs))
    swapped true true e = ap suc e
    swapped true false e = e
    swapped false true e = ap suc e
    swapped false false e = e

count_le-ordenadas : (v : ℕ) (xs : List ℕ) → count_le v (ordenadas xs) ≡ count_le v xs
unfolding ordenadas
count_le-ordenadas v [] = refl
count_le-ordenadas v (a ∷ xs) =
    count_le-insert v a (ordenadas xs)
    ∙ ap (λ n. if leb a v then suc n else n) (count_le-ordenadas v xs)

-- In an ascending list at least `i + 1` elements are at most the one at `i`.
count_le-element :
    (xs : List ℕ) (i : ℕ) → i < length xs → Ascending xs → i < count_le (element xs i) xs
count_le-element [] i l h = let absurd : ⊥ = omega (arith, l) in elim absurd [ ]
count_le-element (x ∷ xs) zero l h =
    let self : leb x x ≡ true = ground arith in rw self (omega arith)
count_le-element (x ∷ xs) (suc i) l h =
    let below = All-element (λ y. x ≤ y) xs i (omega (arith, l)) h.0 in
    let first : leb x (element xs i) ≡ true = ground (arith, below) in
    let rest = count_le-element xs i (omega (arith, l)) h.1 in rw first (omega (arith, rest))

indice_below : (n c : ℕ) → 0 < n → indice n c < n
unfolding indice
indice_below n c l = ground (arith, l)

ceil_le : (q : ℕ) → q ≤ 100 * ((q + 99) / 100)
ceil_le q = omega arith

indice_rank : (n c : ℕ) → c ≤ 100 → c * n ≤ 100 * suc (indice n c)
unfolding indice
indice_rank n c l =
    let most : c * n ≤ 100 * n = mul-le-mul_right n l in
    let ceil = ceil_le (c * n) in ground (arith, most, ceil)

-- The index of a higher percentile is no smaller.
indice-le : (n c d : ℕ) → c ≤ d → indice n c ≤ indice n d
unfolding indice
indice-le n c d l =
    let more : c * n ≤ d * n = mul-le-mul_right n l in
    let rounds = ceils_le (c * n) (d * n) more in ground (arith, rounds)
  where
    ceils_le : (p q : ℕ) → p ≤ q → (p + 99) / 100 ≤ (q + 99) / 100
    ceils_le p q m = omega (arith, m)

percentil-element :
    (xs : List ℕ) (c : ℕ) → 0 < length xs → percentil xs c ≡ element xs (indice (length xs) c)
unfolding percentil
percentil-element [] c l = let absurd : ⊥ = omega (arith, l) in elim absurd [ ]
percentil-element (x ∷ xs) c l = refl

length-pos : (xs : List ℕ) → xs ≢ [] → 0 < length xs
length-pos [] ne = elim (ne refl) [ ]
length-pos (x ∷ xs) ne = omega arith

-- At least `c` hundredths of the samples are at most the percentile `c`.
percentil-Rank :
    (xs : List ℕ) (c : ℕ)
    → 0 < length xs
    → c ≤ 100
    → c * length xs ≤ 100 * count_le (percentil (ordenadas xs) c) xs
percentil-Rank xs c pos l =
    let same = length-ordenadas xs in
    let many : 0 < length (ordenadas xs) = omega (arith, pos, same) in
    let at = percentil-element (ordenadas xs) c many in
    let below = indice_below (length (ordenadas xs)) c many in
    let held =
      count_le-element (ordenadas xs) (indice (length (ordenadas xs)) c) below
        (ordenadas-Ascending xs) in
    let rank = indice_rank (length (ordenadas xs)) c l in
    omega (
      arith,
      subst (λ n. c * n ≤ 100 * suc (indice (length (ordenadas xs)) c)) same rank,
      subst (λ v. suc (indice (length (ordenadas xs)) c) ≤ count_le v xs) (sym at)
          (omega (
            arith,
            held,
            count_le-ordenadas (element (ordenadas xs) (indice (length (ordenadas xs)) c)) xs,
          )),
    )

-- Of a distribution with samples a snapshot tells a median that is no more than the 95th percentile,
-- and this no more than the maximum; no sample is greater than the maximum, at least half of the
-- samples are at most the median and at least 95 of 100 are at most the 95th percentile.
pub resumo-Ranked :
    (d : Distribuicao)
    → d.amostras ≢ []
    → ((resumo d).p50 ≤ (resumo d).p95)
      × ((resumo d).p95 ≤ (resumo d).maximo)
      × All (λ x. x ≤ (resumo d).maximo) d.amostras
      × (50 * length d.amostras ≤ 100 * count_le (resumo d).p50 d.amostras)
      × (95 * length d.amostras ≤ 100 * count_le (resumo d).p95 d.amostras)
unfolding resumo
resumo-Ranked d ne =
    let xs = ordenadas d.amostras in
    let asc = ordenadas-Ascending d.amostras in
    let pos = length-pos d.amostras ne in
    let many : 0 < length xs = omega (arith, pos, length-ordenadas d.amostras) in
    let low = indice_below (length xs) 50 many in
    let high = indice_below (length xs) 95 many in
    let median = percentil-element xs 50 many in
    let upper = percentil-element xs 95 many in
    (
      rw (median, upper)
          (element-Ascending xs (indice (length xs) 50) (indice (length xs) 95)
            (indice-le (length xs) 50 95 (omega arith)) high asc),
      rw upper (
          element-Ascending xs (indice (length xs) 95) (length xs - 1) (omega (arith, high))
            (omega (arith, many)) asc),
      All-In d.amostras (λ x m. In-last x xs asc (In-ordenadas x d.amostras m)),
      percentil-Rank d.amostras 50 pos (omega arith),
      percentil-Rank d.amostras 95 pos (omega arith),
    )
