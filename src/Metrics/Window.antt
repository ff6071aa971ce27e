-- ===== src/Metrics/Window.antt =====
-- What a window holds, on `contar` and `registrarDuracao` of src/sentry/sentry-metrics.service.ts.
use mathlib.Core.List.{append-nil, append_assoc}
use whiz_gateway.Base.{
  ℕ, zero, suc, ◌+◌, ◌≤◌, ◌<◌, ◌≡◌, refl, sym, ap, ◌∙◌, String, Bool, true, false, Bool-cases, inl,
  inr, some, List, [], ◌∷◌, ◌++◌, take, length, length-append, ltb, ◌==◌, eq_iff, eq_refl, arith,
  if◌then◌else◌,
}
use whiz_gateway.Wpp.{put}
use whiz_gateway.Wpp.Tokens.{value_at, value_at-put_other}
use whiz_gateway.Metrics.{
  Distribuicao, Janela, max_amostras, janela_vazia, or_zero, or_empty, contador, distribuicao,
  contar, com_amostra, registrar_duracao,
}

pub data Op : Type 0 where
  conta : String → ℕ → Op
  dura : String → ℕ → Op

unfoldable pub apply : Op → Janela → Janela
apply (conta chave valor) w = contar chave valor w
apply (dura chave duracao) w = registrar_duracao chave duracao w

unfoldable pub run : List Op → Janela → Janela
unfolding apply
run [] w = w
run (o ∷ os) w = run os (apply o w)

-- The durations that were registered under a key, and the sum that was counted under it.
abbrev pub duracoes : String → List Op → List ℕ
duracoes chave [] = []
duracoes chave (conta _ _ ∷ os) = duracoes chave os
duracoes chave (dura k n ∷ os) = if k == chave then n ∷ duracoes chave os else duracoes chave os

abbrev pub soma : String → List Op → ℕ
soma chave [] = 0
soma chave (conta k n ∷ os) = if k == chave then n + soma chave os else soma chave os
soma chave (dura _ _ ∷ os) = soma chave os

value_at-put_own :
    {A : Type 0} (k : String) (v : A) (o : List (String × A)) → value_at k (put k v o) ≡ some v
unfolding put
value_at-put_own k v [] = rw (eq_refl k) refl
value_at-put_own k v ((j, w) ∷ o) = elim (Bool-cases (k == j)) [
  | inl y ↦
      let same : (j == k) ≡ true = (eq_iff j k).1 (sym ((eq_iff k j).0 y)) in rw (y, same) refl
  | inr n ↦
      let miss : (j == k) ≡ false = elim (Bool-cases (j == k)) [
        | inl z ↦ let absurd = sym ((eq_iff k j).1 (sym ((eq_iff j k).0 z))) ∙ n in cc
        | inr z ↦ z
      ] in
      rw (n, miss) (value_at-put_own k v o)
]

take_nil : (n : ℕ) → take {A = ℕ} n [] ≡ []
take_nil zero = refl
take_nil (suc n) = refl

-- A list that is cut at `n` takes one more while there is room.
take_room :
    (n : ℕ) (xs : List ℕ) (x : ℕ)
    → length (take n xs) < n
    → take n xs ++ x ∷ [] ≡ take n (xs ++ x ∷ [])
take_room zero xs x l = let absurd : ⊥ = omega (arith, l) in elim absurd [ ]
take_room (suc n) [] x l = ap (λ r. x ∷ r) (sym (take_nil n))
take_room (suc n) (y ∷ xs) x l = ap (λ r. y ∷ r) (take_room n xs x (omega (arith, l)))

take_full :
    (n : ℕ) (xs : List ℕ) (x : ℕ) → n ≤ length (take n xs) → take n xs ≡ take n (xs ++ x ∷ [])
take_full zero xs x l = refl
take_full (suc n) [] x l = let absurd : ⊥ = omega (arith, l) in elim absurd [ ]
take_full (suc n) (y ∷ xs) x l = ap (λ r. y ∷ r) (take_full n xs x (omega (arith, l)))

-- The first durations are kept, and all are counted.
abbrev pub of_list : List ℕ → Distribuicao
of_list ds = record { amostras = take max_amostras ds; total = length ds }

ltb_lt : (a b : ℕ) → ltb a b ≡ true → a < b
ltb_lt a b e = ground arith

ltb_le : (a b : ℕ) → ltb a b ≡ false → b ≤ a
ltb_le a b e = ground arith

com_amostra-of_list : (x : ℕ) (ds : List ℕ) → com_amostra x (of_list ds) ≡ of_list (ds ++ x ∷ [])
com_amostra-of_list x ds =
    let all : length ds + 1 ≡ length (ds ++ x ∷ []) = omega (arith, length-append ds (x ∷ [])) in
    elim (Bool-cases (ltb (length (take max_amostras ds)) max_amostras)) [
      | inl y ↦ rw y (λ i. record {
        amostras =
            take_room max_amostras ds x (ltb_lt (length (take max_amostras ds)) max_amostras y) i;
        total = all i;
      })
      | inr n ↦ rw n (λ i. record {
        amostras =
            take_full max_amostras ds x (ltb_le (length (take max_amostras ds)) max_amostras n) i;
        total = all i;
      })
    ]

module _ (chave : String) where
  run-distribuicao :
      (os : List Op) (w : Janela) (ds : List ℕ)
      → distribuicao chave w ≡ of_list ds
      → distribuicao chave (run os w) ≡ of_list (ds ++ duracoes chave os)
  unfolding run apply contar registrar_duracao
  run-distribuicao [] w ds e = e ∙ ap of_list (sym (append-nil ds))
  run-distribuicao (conta k n ∷ os) w ds e = run-distribuicao os (contar k n w) ds e
  run-distribuicao (dura k n ∷ os) w ds e =
      go (λ w' ds' e'. run-distribuicao os w' ds' e') (k == chave) refl
    where
      go :
          ((w' : Janela) (ds' : List ℕ)
            → distribuicao chave w' ≡ of_list ds'
            → distribuicao chave (run os w') ≡ of_list (ds' ++ duracoes chave os))
          → (b : Bool) → (k == chave) ≡ b
          → distribuicao chave (run os (registrar_duracao k n w))
            ≡ of_list (ds ++ (if b then n ∷ duracoes chave os else duracoes chave os))
      go ih true y =
          let same = (eq_iff k chave).0 y in
          let own : distribuicao chave (registrar_duracao k n w) ≡ of_list (ds ++ (n ∷ [])) =
            ap (λ j. or_empty (value_at j (registrar_duracao k n w).distribuicoes)) (sym same)
            ∙ ap or_empty (value_at-put_own k (com_amostra n (distribuicao k w)) w.distribuicoes)
            ∙ ap (λ j. com_amostra n (distribuicao j w)) same
            ∙ ap (com_amostra n) e
            ∙ com_amostra-of_list n ds in
          ih (registrar_duracao k n w) (ds ++ (n ∷ [])) own
          ∙ ap of_list (append_assoc ds (n ∷ []) (duracoes chave os))
      go ih false m = ih (registrar_duracao k n w) ds (
          ap or_empty
            (value_at-put_other chave k (com_amostra n (distribuicao k w)) w.distribuicoes m)
          ∙ e)

  run-contador :
      (os : List Op) (w : Janela) → contador chave (run os w) ≡ contador chave w + soma chave os
  unfolding run apply contar registrar_duracao
  run-contador [] w = omega arith
  run-contador (dura k n ∷ os) w = run-contador os (registrar_duracao k n w)
  run-contador (conta k n ∷ os) w = elim (Bool-cases (k == chave)) [
    | inl y ↦
        let same = (eq_iff k chave).0 y in
        let own : contador chave (contar k n w) ≡ contador chave w + n =
          ap (λ j. or_zero (value_at j (contar k n w).contadores)) (sym same)
          ∙ ap or_zero (value_at-put_own k (contador k w + n) w.contadores)
          ∙ ap (λ j. contador j w + n) same in
        rw y (omega (arith, own, run-contador os (contar k n w)))
    | inr m ↦
        let other : contador chave (contar k n w) ≡ contador chave w =
          ap or_zero (value_at-put_other chave k (contador k w + n) w.contadores m) in
        rw m (omega (arith, other, run-contador os (contar k n w)))
  ]

-- After any sequence of counts and durations from an empty window, a counter is the sum of what was
-- counted under its key, and a distribution has the number of the durations under its key and the
-- first 500 of them, in their order.
pub run-Aggregated :
    (os : List Op) (chave : String)
    → (contador chave (run os janela_vazia) ≡ soma chave os)
      × ((distribuicao chave (run os janela_vazia)).total ≡ length (duracoes chave os))
      × ((distribuicao chave (run os janela_vazia)).amostras ≡ take 500 (duracoes chave os))
run-Aggregated os chave =
    let d = run-distribuicao chave os janela_vazia [] refl in
    (
      run-contador chave os janela_vazia ∙ (omega arith),
      ap (λ x. x.total) d,
      ap (λ x. x.amostras) d,
    )
