-- ===== src/MetaErrors/Logs/Spelled.antt =====
-- The names of secret headers in whatever case, on `redigir` of
-- src/meta-error-logs/meta-error-logs.service.ts.
use Prim.Native.String as txt
use Prim.Native.Char.{Char, code}
use text.Mathlib.TextEquality.{Char-path}
use whiz_gateway.Base.{
  ℕ, suc, ◌+◌, ◌≤◌, ◌<◌, ◌≡◌, refl, sym, ◌∙◌, String, true, false, Bool-cases, ◌⊎◌, inl, inr, List,
  [], ◌∷◌, In, here, there, any, ◌==◌, eq_iff, eqb, eqb_iff, arith,
}
use whiz_gateway.MetaErrors.Logs.{paired, to_lower, redigido, headers_redigidos}

-- `d` is `c`, as a small letter where `c` is a capital one.
abbrev pub Lower : Char → Char → Type 0
Lower c d =
    ((65 ≤ code c) × (code c ≤ 90) × (code d ≡ code c + 32))
    ⊎ (((code c < 65) ⊎ (90 < code c)) × (code d ≡ code c))

-- The text `name` is spelled like `h`, but for capitals.
abbrev pub Spelled : String → String → Type 0
Spelled txt.[] txt.[] = Unit
Spelled txt.[] (txt.◌∷◌ d h) = ⊥
Spelled (txt.◌∷◌ c name) txt.[] = ⊥
Spelled (txt.◌∷◌ c name) (txt.◌∷◌ d h) = Lower c d × Spelled name h

-- The name of a header that carries a credential.
abbrev pub Secret : String → Type 0
Secret name =
    (h : String) × In h
      ("authorization" ∷ "x-meta-access-token" ∷ "x-api-key" ∷ "x-callback-secret" ∷ "cookie" ∷ [])
    × Spelled name h

-- Two alphabets, the second 32 above the first, which runs from `n` up to `m`.
abbrev Aligned : ℕ → ℕ → String → String → Type 0
Aligned n m txt.[] txt.[] = n ≡ m
Aligned n m txt.[] (txt.◌∷◌ l ls) = ⊥
Aligned n m (txt.◌∷◌ u us) txt.[] = ⊥
Aligned n m (txt.◌∷◌ u us) (txt.◌∷◌ l ls) =
    (code u ≡ n) × (code l ≡ n + 32) × Aligned (suc n) m us ls

paired-Aligned :
    (n m : ℕ) (us ls : String) (c : Char)
    → Aligned n m us ls
    → n ≤ code c
    → code c < m
    → code (paired us ls c) ≡ code c + 32
unfolding paired
paired-Aligned n m txt.[] txt.[] c a l h =
    let absurd : ⊥ = omega (arith, a, l, h) in elim absurd [ ]
paired-Aligned n m txt.[] (txt.◌∷◌ k ks) c a l h = elim a [ ]
paired-Aligned n m (txt.◌∷◌ u us) txt.[] c a l h = elim a [ ]
paired-Aligned n m (txt.◌∷◌ u us) (txt.◌∷◌ k ks) c (a, b, rest) l h =
    elim (Bool-cases (eqb (code c) (code u))) [
      | inl y ↦ let same = (eqb_iff (code c) (code u)).0 y in rw y (omega (arith, a, b, same))
      | inr z ↦
          let above : suc n ≤ code c = ground (arith, z, a, l) in
          rw z (paired-Aligned (suc n) m us ks c rest above h)
    ]

Aligned_le : (n m : ℕ) (us ls : String) → Aligned n m us ls → n ≤ m
Aligned_le n m txt.[] txt.[] a = omega (arith, a)
Aligned_le n m txt.[] (txt.◌∷◌ k ks) a = elim a [ ]
Aligned_le n m (txt.◌∷◌ u us) txt.[] a = elim a [ ]
Aligned_le n m (txt.◌∷◌ u us) (txt.◌∷◌ k ks) (a, b, rest) =
    omega (arith, Aligned_le (suc n) m us ks rest)

paired-outside :
    (n m : ℕ) (us ls : String) (c : Char)
    → Aligned n m us ls
    → (code c < n) ⊎ (m ≤ code c)
    → paired us ls c ≡ c
unfolding paired
paired-outside n m txt.[] txt.[] c a o = refl
paired-outside n m txt.[] (txt.◌∷◌ k ks) c a o = elim a [ ]
paired-outside n m (txt.◌∷◌ u us) txt.[] c a o = elim a [ ]
paired-outside n m (txt.◌∷◌ u us) (txt.◌∷◌ k ks) c (a, b, rest) o =
    let more = Aligned_le (suc n) m us ks rest in
    let miss : eqb (code c) (code u) ≡ false = ground (arith, a, o, more) in
    let still : (code c < suc n) ⊎ (m ≤ code c) = ground (arith, o) in
    rw miss (paired-outside (suc n) m us ks c rest still)

letters : Aligned 65 91 "ABCDEFGHIJKLMNOPQRSTUVWXYZ" "abcdefghijklmnopqrstuvwxyz"
letters = search

Lower-char :
    (c d : Char)
    → Lower c d
    → paired "ABCDEFGHIJKLMNOPQRSTUVWXYZ" "abcdefghijklmnopqrstuvwxyz" c ≡ d
Lower-char c d (inl (l, h, e)) =
    Char-path _ d (paired-Aligned 65 91 _ _ c letters l (omega (arith, h)) ∙ sym e)
Lower-char c d (inr (o, e)) =
    paired-outside 65 91 _ _ c letters (ground (arith, o)) ∙ Char-path c d (sym e)

to_lower-Spelled : (name h : String) → Spelled name h → to_lower name ≡ h
unfolding to_lower
to_lower-Spelled txt.[] txt.[] s = refl
to_lower-Spelled txt.[] (txt.◌∷◌ d h) s = elim s [ ]
to_lower-Spelled (txt.◌∷◌ c name) txt.[] s = elim s [ ]
to_lower-Spelled (txt.◌∷◌ c name) (txt.◌∷◌ d h) (l, s) =
    λ i. txt.◌∷◌ (Lower-char c d l i) (to_lower-Spelled name h s i)

any-In : (x h : String) (hs : List String) → In h hs → x ≡ h → any (λ k. k == x) hs ≡ true
any-In x h [] m e = elim m [ ]
any-In x h (k ∷ hs) (here q) e =
    let hit : (k == x) ≡ true = (eq_iff k x).1 (sym q ∙ sym e) in rw hit refl
any-In x h (k ∷ hs) (there m) e = elim (Bool-cases (k == x)) [
  | inl y ↦ rw y refl
  | inr n ↦ rw n (any-In x h hs m e)
]

-- What is the name of a credential is redacted.
pub redigido-Secret : (name : String) → Secret name → redigido name ≡ true
unfolding redigido
redigido-Secret name (h, m, s) =
    any-In (to_lower name) h headers_redigidos m (to_lower-Spelled name h s)
