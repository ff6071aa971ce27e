-- ===== src/Examples/Encoding.antt =====
-- A text for each environment and its reading, in the place of `JSON.stringify` and `JSON.parse`.
use Prim.Native.String.{◌∷◌, []}
use Prim.Native.Char.{Char, code}
use text.Mathlib.TextLemmas.{nil≢cons}
use mathlib.Core.Bool.{Bool, true, false}
use whiz_gateway.Base.{ℕ, zero, suc, String, ◌≡◌, ◌≢◌, refl, sym, ap, ◌∙◌, eqb, if◌then◌else◌}
use whiz_gateway.Effects.{Result, ok, err, outro}
use whiz_gateway.Records.{Ambiente}
use whiz_gateway.ApiKeys.{Entry}

abbrev pub number : ℕ → String → String
number zero rest = "b" ∷ rest
number (suc n) rest = "a" ∷ number n rest

abbrev pub texto : String → String → String
texto [] rest = "b" ∷ rest
texto (c ∷ s) rest = "a" ∷ (c ∷ texto s rest)

abbrev pub flag : Bool → String → String
flag true rest = "a" ∷ rest
flag false rest = "b" ∷ rest

abbrev pub write : Ambiente → String
write a = number a.id (flag a.del (texto a.nome (texto a.url [])))

abbrev is_a : Char → Bool
is_a c = eqb (code c) 97

abbrev push : Char → Result (String × String) → Result (String × String)
push c (ok (s, rest)) = ok (c ∷ s, rest)
push c (err e) = err e

abbrev next : Result (ℕ × String) → Result (ℕ × String)
next (ok (n, rest)) = ok (suc n, rest)
next (err e) = err e

abbrev read_number : String → Result (ℕ × String)
read_number [] = err (outro "SyntaxError")
read_number (c ∷ s) = if is_a c then next (read_number s) else ok (0, s)

abbrev read_texto : String → Result (String × String)
read_texto [] = err (outro "SyntaxError")
read_texto (c ∷ []) = ok ([], [])
read_texto (c ∷ (d ∷ s)) = if is_a c then push d (read_texto s) else ok ([], d ∷ s)

abbrev read_flag : String → Result (Bool × String)
read_flag [] = err (outro "SyntaxError")
read_flag (c ∷ s) = ok (is_a c, s)

abbrev bound : {A B : Type 0} → Result A → (A → Result B) → Result B
bound (ok a) f = f a
bound (err e) f = err e

abbrev pub read : String → Result Ambiente
read s = bound (read_number s) λ (n, r). bound (read_flag r) λ (d, r₁).
    bound (read_texto r₁) λ (nome, r₂).
      bound (read_texto r₂) λ (url, _). ok (record { id = n; nome = nome; url = url; del = d })

read_number_lem : (n : ℕ) (s : String) → read_number (number n s) ≡ ok (n, s)
read_number_lem zero s = refl
read_number_lem (suc n) s = rw (read_number_lem n s) refl

read_texto_lem : (x s : String) → read_texto (texto x s) ≡ ok (x, s)
read_texto_lem [] [] = refl
read_texto_lem [] (d ∷ s) = refl
read_texto_lem (c ∷ x) s = rw (read_texto_lem x s) refl

read_flag_lem : (b : Bool) (s : String) → read_flag (flag b s) ≡ ok (b, s)
read_flag_lem true s = refl
read_flag_lem false s = refl

pub read-write : (a : Ambiente) → read (write a) ≡ ok a
read-write a =
    rw (read_number_lem a.id, read_flag_lem a.del, read_texto_lem a.nome, read_texto_lem a.url) refl

number-ne-nil : (n : ℕ) (s : String) → number n s ≢ []
number-ne-nil zero s e = nil≢cons (sym e)
number-ne-nil (suc n) s e = nil≢cons (sym e)

pub write-ne-nil : (a : Ambiente) → write a ≢ []
write-ne-nil a e = number-ne-nil a.id _ e

abbrev value : Result (ℕ × String) → ℕ
value (ok (n, _)) = n
value (err _) = 0

pub number_inj : (m n : ℕ) → number m [] ≡ number n [] → m ≡ n
number_inj m n e = ap value (sym (read_number_lem m []) ∙ ap read_number e ∙ read_number_lem n [])

abbrev pub write_entry : Entry → String
write_entry e = texto e.hashed_key (texto e.salt (texto e.name []))

abbrev pub read_entry : String → Result Entry
read_entry s = bound (read_texto s) λ (h, r). bound (read_texto r) λ (salt, r₁).
    bound (read_texto r₁) λ (name, _). ok (record { hashed_key = h; salt = salt; name = name })

pub read_entry-write : (e : Entry) → read_entry (write_entry e) ≡ ok e
read_entry-write e =
    rw (read_texto_lem e.hashed_key, read_texto_lem e.salt, read_texto_lem e.name) refl
