-- ===== src/Flows/Endpoint.antt =====
-- src/wpp-flows/wpp-flows-endpoint.service.ts: the data endpoint of a flow. What Meta encrypted is
-- opened, forwarded to the client's URL, and the answer is sealed. RSA, AES-GCM, HMAC, base64, JSON,
-- `fetch` and the configuration are fields of `Crypto` and `Client`.
use Prim.Native.String as txt
use whiz_gateway.Base.{
  ℕ, zero, suc, ◌+◌, ◌-◌, String, Bool, false, ◌&&◌, Option, none, some, List, [], ◌∷◌, ◌++◌, take,
  drop, length, eqb, leb, ltb, ◌==◌, if◌then◌else◌,
}
use whiz_gateway.Json.{Json, str, null, obj, no_member, member, get}
use whiz_gateway.Effects.{http, outro, Result, ok, err}
use whiz_gateway.Resend.{truthy_text}
use whiz_gateway.Webhook.Guard.{timing_safe_equal}
use whiz_gateway.Flows.{Services, State, get_url}

abbrev pub Bytes : Type 0
Bytes = List ℕ

pub record Crypto : Type 0 where
  pub hmac_sha256_hex : String → Bytes → String
  pub utf8 : String → Bytes
  pub from_base64 : String → Bytes
  pub to_base64 : Bytes → String
  -- `privateDecrypt` with OAEP and SHA-256, by the key in PEM
  pub rsa_decrypt : String → Bytes → Result Bytes
  -- AES-256-GCM, by key and IV: opening takes the ciphertext and the tag that sealing gives
  pub gcm_open : Bytes → Bytes → Bytes → Bytes → Result Bytes
  pub gcm_seal : Bytes → Bytes → Bytes → Result (Bytes × Bytes)
  pub parse : Bytes → Result Json
  pub stringify : Json → Bytes

-- A POST to the client's URL, with the headers and the payload.
pub record Chamada : Type 0 where
  pub url : String
  pub headers : List (String × String)
  pub payload : Json

-- The configuration, and `fetch`: the status and what `response.json()` gives.
pub record Client : Type 0 where
  pub app_secret : Option String
  pub private_key : Option String
  pub access_token : Option String
  pub fetch : Chamada → Result (ℕ × Result Json)
  pub number_text : ℕ → String

-- FlowEndpointRequestDto
pub record Request : Type 0 where
  pub encrypted_flow_data : String
  pub encrypted_aes_key : String
  pub initial_vector : String

-- `b ^ 0x01`
unfoldable pub flip_bit : ℕ → ℕ
flip_bit zero = 1
flip_bit (suc zero) = 0
flip_bit (suc (suc n)) = suc (suc (flip_bit n))

-- `flippedIv[0] = flippedIv[0] ^ 0x01`, which an empty buffer ignores
unfoldable pub flipped : Bytes → Bytes
unfolding flip_bit
flipped [] = []
flipped (b ∷ bs) = flip_bit b ∷ bs

-- Where `subarray` cuts for `buf.length - 16`: a negative position counts from the end.
abbrev pub cut : Bytes → ℕ
cut buf = if leb 16 (length buf) then length buf - 16 else (length buf + length buf) - 16

abbrev pub opened : {A B : Type 0} → (A → Result B) → Result A → Result B
opened f (ok a) = f a
opened f (err e) = err e

abbrev pub given : Option String → String → String
given none d = d
given (some s) d = s

module _ (c : Crypto) where
  unfoldable pub decrypt_payload : String → Bytes → Bytes → Result Json
  decrypt_payload encrypted_flow_data aes_key iv =
      let buf = c.from_base64 encrypted_flow_data in
      opened c.parse (c.gcm_open aes_key iv (take (cut buf) buf) (drop (cut buf) buf))

  abbrev pub sealed_text : Bytes × Bytes → Result String
  sealed_text (encrypted, auth_tag) = ok (c.to_base64 (encrypted ++ auth_tag))

  unfoldable pub encrypt_response : Json → Bytes → Bytes → Result String
  unfolding flipped
  encrypt_response payload aes_key iv =
      opened sealed_text (c.gcm_seal aes_key (flipped iv) (c.stringify payload))

  -- A comparison of buffers of different lengths throws, and is as a difference.
  abbrev pub same_text : String → String → Bool
  same_text expected signature =
      eqb (length (c.utf8 expected)) (length (c.utf8 signature))
      && timing_safe_equal (c.utf8 expected) (c.utf8 signature)

  unfoldable pub verify_signature : Option String → Bytes → String → Bool
  unfolding timing_safe_equal
  verify_signature app_secret raw_body signature =
      if signature == ""
      then false
      else same_text (txt.◌++◌ "sha256=" (c.hmac_sha256_hex (given app_secret "") raw_body))
          signature

abbrev pub ping_response : Json
ping_response = obj (member "data" (str "{\"version\":\"3.0\"}") no_member)

-- `payload['action']`, which throws for `null`
abbrev pub action_of : Json → Result (Option Json)
action_of null = err (outro "TypeError")
action_of v = ok (get "action" v)

abbrev pub is_ping : Option Json → Bool
is_ping (some (str s)) = s == "ping"
is_ping _ = false

-- What the endpoint answers, and the calls of the client that it made.
abbrev pub Answer : Type 0
Answer = Result String × List Chamada

module _ (c : Crypto) (k : Client) where
  abbrev pub call_of : String → Json → Chamada
  call_of url payload = record {
    url = url;
    headers =
        ("Content-Type", "application/json")
        ∷ (("Authorization", txt.◌++◌ "Bearer " (given k.access_token "")) ∷ []);
    payload = payload;
  }

  -- `forwardToClient`, with what its caller makes of an error
  abbrev pub client_answer : Result (ℕ × Result Json) → Result Json
  client_answer (err e) = err (http 500)
  client_answer (ok (status, body)) =
      if leb 200 status && ltb status 300
      then (elim body [ ok v ↦ ok v | err e ↦ err (http 500) ])
      else err (http 500)

  abbrev pub sealed : Bytes → Bytes → Result Json → Result String
  sealed aes_key iv r = opened (λ v. encrypt_response c v aes_key iv) r

  abbrev pub forwarded : String → Bytes → Bytes → Json → Answer
  forwarded url aes_key iv payload =
      (sealed aes_key iv (client_answer (k.fetch (call_of url payload))), call_of url payload ∷ [])

  abbrev pub on_action : String → Bytes → Bytes → Json → Result (Option Json) → Answer
  on_action url aes_key iv payload (err e) = (err e, [])
  on_action url aes_key iv payload (ok a) =
      if is_ping a
      then (encrypt_response c ping_response aes_key iv, [])
      else forwarded url aes_key iv payload

  abbrev pub with_payload : String → Bytes → Bytes → Result Json → Answer
  with_payload url aes_key iv (err e) = (err (http 421), [])
  with_payload url aes_key iv (ok payload) = on_action url aes_key iv payload (action_of payload)

  abbrev pub with_aes_key : String → Request → Result Bytes → Answer
  with_aes_key url body (err e) = (err (http 421), [])
  with_aes_key url body (ok aes_key) =
      with_payload url aes_key (c.from_base64 body.initial_vector)
        (decrypt_payload c body.encrypted_flow_data aes_key (c.from_base64 body.initial_vector))

  abbrev pub with_private_key : String → Request → Option String → Answer
  with_private_key url body none = (err (http 503), [])
  with_private_key url body (some pem) =
      with_aes_key url body (c.rsa_decrypt pem (c.from_base64 body.encrypted_aes_key))

  abbrev pub with_url : Request → Option String → Answer
  with_url body none = (err (http 404), [])
  with_url body (some url) = with_private_key url body (truthy_text k.private_key)

  -- `handle`, over the callbacks of the flows
  unfoldable pub handle :
      {Db C : Type 0}
      → Services Db C
      → State Db C
      → String
      → Request
      → Bytes
      → String
      → Answer × State Db C
  unfolding verify_signature decrypt_payload encrypt_response get_url
  handle env s uid body raw_body signature =
      if verify_signature c k.app_secret raw_body signature
      then (with_url body (truthy_text (get_url env s uid).0), (get_url env s uid).1)
      else ((err (http 401), []), s)
