-- ===== src/Examples/Callbacks.antt =====
-- The flows' callbacks and their endpoint on concrete services.
use Prim.Native.String as txt
use Prim.Native.Char.{code}
use whiz_gateway.Base.{
  ◌+◌, eqb, arith, ℕ, zero, suc, ◌≡◌, ◌≢◌, refl, sym, ap, ◌∙◌, String, some, List, [], ◌∷◌, false,
  length, if◌then◌else◌,
}
use whiz_gateway.Json.{Json, str}
use whiz_gateway.Effects.{Result, ok, err, outro}
use whiz_gateway.Table.Rows.{rows, find, text_key}
use whiz_gateway.Table.Rows.Lawfulness.{rows-Lawful}
use whiz_gateway.Table.Keys.{Writes, writes, latest}
use whiz_gateway.Examples.Encoding.{number}
use whiz_gateway.Flows as flows
use whiz_gateway.Flows.Cached as cached
use whiz_gateway.Flows.Endpoint as endpoint
use whiz_gateway.Flows.Sealed as sealed
use whiz_gateway.Flows.Answers as answers

abbrev registry : flows.Services (List flows.FlowCallback) Writes
registry = record {
  table = rows text_key (λ r. r.uid) (λ r s. false);
  redis = writes;
  down = λ c. false;
}

registry-Sound : cached.Sound registry
unfolding rows
registry-Sound = record {
  lawful = rows-Lawful text_key (λ r. r.uid) (λ r s. false);
  key_uid = λ r. refl;
  up = λ c. refl;
}

abbrev empty : flows.State (List flows.FlowCallback) Writes
empty = record { db = []; cache = [] }

empty-Coherent : cached.Coherent registry empty
unfolding writes latest
empty-Coherent uid url e = cc

abbrev ops : List cached.Op
ops = cached.creates "f" 1 "https://a" ∷ (cached.reads "f" ∷ (cached.updates "f" "https://b" ∷ []))

get_url-run_example :
    (flows.get_url registry (cached.run registry ops empty) "f").0
    ≡ cached.active_url registry (cached.run registry ops empty).db "f"
unfolding rows find
get_url-run_example =
    cached.get_url-run registry ops empty "f" registry-Sound empty-Coherent (refl, (tt, (tt, tt)))

-- Bytes as a text: as many letters a as the byte says, and another.
abbrev encode : List ℕ → String
encode [] = ""
encode (b ∷ bs) = number b (encode bs)

abbrev decode_from : ℕ → String → List ℕ
decode_from n txt.[] = []
decode_from n (txt.◌∷◌ c s) =
    let more = decode_from (suc n) s in
    let done = decode_from 0 s in if eqb (code c) 97 then more else n ∷ done

decode_from-number : (b n : ℕ) (s : String) → decode_from n (number b s) ≡ (n + b) ∷ decode_from 0 s
decode_from-number zero n s = let e : n ≡ n + 0 = omega arith in ap (λ m. m ∷ decode_from 0 s) e
decode_from-number (suc b) n s =
    let e : suc n + b ≡ n + suc b = omega arith in
    decode_from-number b (suc n) s ∙ ap (λ m. m ∷ decode_from 0 s) e

decode-encode : (bs : List ℕ) → decode_from 0 (encode bs) ≡ bs
decode-encode [] = refl
decode-encode (b ∷ bs) =
    let e : 0 + b ≡ b = omega arith in
    decode_from-number b 0 (encode bs) ∙ (λ i. e i ∷ decode-encode bs i)

abbrev tag : List ℕ
tag = 0 ∷ 0 ∷ 0 ∷ 0 ∷ 0 ∷ 0 ∷ 0 ∷ 0 ∷ 0 ∷ 0 ∷ 0 ∷ 0 ∷ 0 ∷ 0 ∷ 0 ∷ 0 ∷ []

abbrev parse : List ℕ → Result Json
parse [] = err (outro "SyntaxError")
parse (b ∷ bs) = ok endpoint.ping_response

-- Sealing that only adds the tag.
abbrev plain : endpoint.Crypto
plain = record {
  hmac_sha256_hex = λ k b. "h";
  utf8 = λ s. decode_from 0 s;
  from_base64 = λ s. decode_from 0 s;
  to_base64 = encode;
  rsa_decrypt = λ pem b. ok b;
  gcm_open = λ key iv x t. ok x;
  gcm_seal = λ key iv p. ok (p, tag);
  parse = parse;
  stringify = λ v. 7 ∷ [];
}

plain-Sound : sealed.Sound plain
plain-Sound = record {
  open-seal = λ key iv p x t e. let same : p ≡ x = ap first e in ap ok (sym same);
  length-tag = λ key iv p x t e. sym (ap (λ r. length (second r)) e);
  from-to = decode-encode;
}
  where
    first : Result (List ℕ × List ℕ) → List ℕ
    first (ok (a, b)) = a
    first (err e) = []

    second : Result (List ℕ × List ℕ) → List ℕ
    second (ok (a, b)) = b
    second (err e) = []

abbrev iv : List ℕ
iv = 5 ∷ 6 ∷ []

abbrev sealed_ping : String
sealed_ping = encode (7 ∷ tag)

decrypt-encrypt_example :
    (endpoint.decrypt_payload plain sealed_ping [] (endpoint.flipped iv)
      ≡ ok endpoint.ping_response)
    × (endpoint.flipped iv ≢ iv)
    × (endpoint.flipped (endpoint.flipped iv) ≡ iv)
unfolding endpoint.encrypt_response
decrypt-encrypt_example =
    sealed.decrypt-encrypt plain endpoint.ping_response [] iv sealed_ping plain-Sound refl (λ e. cc)
      refl

abbrev client : endpoint.Client
client = record {
  app_secret = some "s";
  private_key = some "pem";
  access_token = some "t";
  fetch = λ c. ok (200, ok (str "reply"));
  number_text = λ n. "n";
}

abbrev body : endpoint.Request
body = record {
  encrypted_flow_data = sealed_ping;
  encrypted_aes_key = "b";
  initial_vector = "abab";
}

abbrev one_flow : flows.State (List flows.FlowCallback) Writes
one_flow = record { db = flows.new_row "f" 1 "https://a" ∷ []; cache = [] }

handle-Outcome_example :
    answers.Ended plain client registry one_flow "f" body [] "sha256=h"
      (endpoint.handle plain client registry one_flow "f" body [] "sha256=h")
handle-Outcome_example =
    answers.handle-Outcome plain client registry one_flow "f" body [] "sha256=h"
