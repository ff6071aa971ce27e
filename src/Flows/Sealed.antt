-- ===== src/Flows/Sealed.antt =====
-- On `encryptResponse` and `decryptPayload` of src/wpp-flows/wpp-flows-endpoint.service.ts.
use whiz_gateway.Base.{
  ℕ, zero, suc, ◌≡◌, ◌≢◌, refl, sym, ap, ◌∙◌, String, true, [], ◌∷◌, ◌++◌, take, drop, length,
  length-append, leb, arith,
}
use whiz_gateway.Json.{Json}
use whiz_gateway.Effects.{Result, ok, err}
use whiz_gateway.Flows.Endpoint.{
  Bytes, Crypto, flip_bit, flipped, cut, opened, decrypt_payload, encrypt_response, sealed_text,
}

-- What is sealed is opened, under the same key and IV, with a tag of 16 bytes; base64 reads
-- what it wrote.
pub record Sound (c : Crypto) : Type 0 where
  pub open-seal :
      (key iv plain x tag : Bytes)
      → c.gcm_seal key iv plain ≡ ok (x, tag)
      → c.gcm_open key iv x tag ≡ ok plain
  pub length-tag :
      (key iv plain x tag : Bytes) → c.gcm_seal key iv plain ≡ ok (x, tag) → length tag ≡ 16
  pub from-to : (b : Bytes) → c.from_base64 (c.to_base64 b) ≡ b

take-append : (xs ys : Bytes) → take (length xs) (xs ++ ys) ≡ xs
take-append [] ys = refl
take-append (x ∷ xs) ys = ap (λ l. x ∷ l) (take-append xs ys)

drop-append : (xs ys : Bytes) → drop (length xs) (xs ++ ys) ≡ ys
drop-append [] ys = refl
drop-append (x ∷ xs) ys = drop-append xs ys

-- The tag is cut off where it begins.
cut-append : (xs ys : Bytes) → length ys ≡ 16 → cut (xs ++ ys) ≡ length xs
cut-append xs ys e =
    let whole = length-append xs ys in
    let long : leb 16 (length (xs ++ ys)) ≡ true = ground (arith, whole, e) in
    rw long (omega (arith, whole, e))

flip_bit-moves : (n : ℕ) → flip_bit n ≢ n
unfolding flip_bit
flip_bit-moves zero e = omega (arith, e)
flip_bit-moves (suc zero) e = omega (arith, e)
flip_bit-moves (suc (suc n)) e = flip_bit-moves n (omega (arith, e))

pub flip_bit-flip_bit : (n : ℕ) → flip_bit (flip_bit n) ≡ n
unfolding flip_bit
flip_bit-flip_bit zero = refl
flip_bit-flip_bit (suc zero) = refl
flip_bit-flip_bit (suc (suc n)) = ap (λ m. suc (suc m)) (flip_bit-flip_bit n)

flipped-flipped : (iv : Bytes) → flipped (flipped iv) ≡ iv
unfolding flipped
flipped-flipped [] = refl
flipped-flipped (b ∷ bs) = ap (λ x. x ∷ bs) (flip_bit-flip_bit b)

flipped-moves : (iv : Bytes) → iv ≢ [] → flipped iv ≢ iv
unfolding flipped
flipped-moves [] n e = n refl
flipped-moves (b ∷ bs) n e = flip_bit-moves b (cc)

module _ (c : Crypto) (good : Sound c) (v : Json) (reads : c.parse (c.stringify v) ≡ ok v)
    (key iv : Bytes) (t : String) where
  sealed-Opened :
      (r : Result (Bytes × Bytes))
      → c.gcm_seal key (flipped iv) (c.stringify v) ≡ r
      → opened (sealed_text c) r ≡ ok t
      → decrypt_payload c t key (flipped iv) ≡ ok v
  unfolding decrypt_payload
  sealed-Opened (err e) q h = cc
  sealed-Opened (ok (x, tag)) q h =
      let text : c.to_base64 (x ++ tag) ≡ t = cc in
      let buf : c.from_base64 t ≡ x ++ tag =
        ap c.from_base64 (sym text) ∙ good.from-to (x ++ tag) in
      let at = cut-append x tag (good.length-tag key (flipped iv) (c.stringify v) x tag q) in
      let opens = good.open-seal key (flipped iv) (c.stringify v) x tag q in
      rw (buf, at, take-append x tag, drop-append x tag, opens) reads

-- Where AES-GCM and base64 behave as documented, and JSON reads the answer as it was written, an
-- answer that is sealed is opened to what it
-- was, with the same key and the IV of the request with one bit of its first byte flipped: an IV another
-- than that of the request, which flipped again is it.
pub decrypt-encrypt :
    (c : Crypto) (v : Json) (key iv : Bytes) (t : String)
    → Sound c
    → c.parse (c.stringify v) ≡ ok v
    → iv ≢ []
    → encrypt_response c v key iv ≡ ok t
    → (decrypt_payload c t key (flipped iv) ≡ ok v)
      × (flipped iv ≢ iv)
      × (flipped (flipped iv) ≡ iv)
unfolding encrypt_response
decrypt-encrypt c v key iv t good reads full e = (
  sealed-Opened c good v reads key iv t (c.gcm_seal key (flipped iv) (c.stringify v)) refl e,
  flipped-moves iv full,
  flipped-flipped iv,
)
