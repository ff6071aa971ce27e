-- ===== src/Instagram/Slashes.antt =====
-- On `forward` of src/instagram-webhook/instagram-webhook-forwarder.service.ts: the slashes at the
-- end of an environment's URL.
use Prim.Native.String as txt
use Prim.Native.Char.{Char, code}
use text.Mathlib.TextEquality.{Char-path}
use text.Mathlib.TextLemmas.{
  nil≢cons, nil-append, cons-append, head-eq_of_cons-eq, tail-eq_of_cons-eq,
}
use mathlib.Core.Bool.{false, false≢true}
use whiz_gateway.Base.{
  ℕ, zero, suc, String, ◌≡◌, sym, ap, ◌∙◌, ◌≢◌, inl, inr, Bool-cases, eqb, eqb_iff,
}
use whiz_gateway.Instagram.{push_unless, sem_barras}

-- The text of `n` slashes.
abbrev pub barras : ℕ → String
barras zero = txt.[]
barras (suc n) = txt.◌∷◌ "/" (barras n)

-- `s` is no text that ends in a slash.
abbrev pub EndsPlain : String → Type 0
EndsPlain s = (r : String) → s ≢ txt.◌++◌ r "/"

-- `s` is `b` and slashes, and `b` ends in none.
pub record Stripped (s b : String) : Type 0 where
  pub count : ℕ
  pub whole : s ≡ txt.◌++◌ b (barras count)
  pub plain : EndsPlain b

nil-EndsPlain : EndsPlain txt.[]
nil-EndsPlain txt.[] e = nil≢cons (e ∙ nil-append "/")
nil-EndsPlain (txt.◌∷◌ c r) e = nil≢cons (e ∙ cons-append c r "/")

cons-EndsPlain : (c : Char) (s : String) → s ≢ txt.[] → EndsPlain s → EndsPlain (txt.◌∷◌ c s)
cons-EndsPlain c s full plain txt.[] e = full (tail-eq_of_cons-eq (e ∙ nil-append "/"))
cons-EndsPlain c s full plain (txt.◌∷◌ d r) e =
    plain r (tail-eq_of_cons-eq (e ∙ cons-append d r "/"))

one-EndsPlain : (c : Char) → eqb (code c) 47 ≡ false → EndsPlain (txt.◌∷◌ c txt.[])
one-EndsPlain c h txt.[] e =
    false≢true (sym h ∙ (eqb_iff (code c) 47).1 (ap code (head-eq_of_cons-eq (e ∙ nil-append "/"))))
one-EndsPlain c h (txt.◌∷◌ d r) e = nil-EndsPlain r (tail-eq_of_cons-eq (e ∙ cons-append d r "/"))

push_unless-Stripped :
    (c : Char) (s b : String) → Stripped s b → Stripped (txt.◌∷◌ c s) (push_unless c b)
push_unless-Stripped c s txt.[] w = elim (Bool-cases (eqb (code c) 47)) [
  | inl slash ↦
      let same : c ≡ "/" = Char-path c "/" ((eqb_iff (code c) 47).0 slash) in
      rw slash (record {
        count = suc w.count;
        whole = rw (same, nil-append) (ap (λ x. txt.◌∷◌ "/" x) (w.whole ∙ nil-append _));
        plain = nil-EndsPlain;
      })
  | inr other ↦ rw other (record {
    count = w.count;
    whole = ap (λ x. txt.◌∷◌ c x) w.whole ∙ sym (cons-append c txt.[] (barras w.count));
    plain = one-EndsPlain c other;
  })
]
push_unless-Stripped c s (txt.◌∷◌ d b) w = record {
  count = w.count;
  whole = ap (λ x. txt.◌∷◌ c x) w.whole ∙ sym (cons-append c (txt.◌∷◌ d b) (barras w.count));
  plain = cons-EndsPlain c (txt.◌∷◌ d b) (λ e. nil≢cons (sym e)) w.plain;
}

-- A URL is what is left of it and the slashes that were taken away, and what is left ends in none.
pub sem_barras-Stripped : (s : String) → Stripped s (sem_barras s)
unfolding sem_barras
sem_barras-Stripped txt.[] = record {
  count = 0;
  whole = sym (nil-append txt.[]);
  plain = nil-EndsPlain;
}
sem_barras-Stripped (txt.◌∷◌ c s) = push_unless-Stripped c s (sem_barras s) (sem_barras-Stripped s)
