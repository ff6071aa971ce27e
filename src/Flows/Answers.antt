-- ===== src/Flows/Answers.antt =====
-- On `handle` of src/wpp-flows/wpp-flows-endpoint.service.ts.
use Prim.Native.String as txt
use mathlib.Core.Bool.{false≢true}
use whiz_gateway.Base.{
  Bool, if◌then◌else◌, ◌≢◌, ◌≤◌, ◌<◌, ◌↔◌, ◌⊎◌, ◌∙◌, sym, ap, subst, In, here, there, eq_iff, leb,
  ltb, ◌&&◌, arith, ℕ, ◌≡◌, refl, String, true, false, Bool-cases, inl, inr, Option, none, some, [],
  ◌∷◌,
}
use whiz_gateway.Json.{Json, str, num, bool, null, obj, arr, get}
use whiz_gateway.Effects.{Erro, http, outro, Result, ok, err}
use whiz_gateway.Resend.{truthy_text}
use whiz_gateway.Flows.{Services, State, get_url}
use whiz_gateway.Flows.Signed.{Signed, verify_signature_iff}
use whiz_gateway.Flows.Endpoint.{
  Bytes, Chamada, given, forwarded, Crypto, Client, Request, Answer, verify_signature,
  decrypt_payload, encrypt_response, action_of, is_ping, ping_response, call_of, client_answer,
  on_action, with_payload, with_aes_key, with_private_key, with_url, handle,
}

-- What a request that is let through opens to: the URL of its flow, the key and the payload.
pub record Opened {Db C : Type 0} (c : Crypto) (k : Client) (env : Services Db C) (s : State Db C)
    (uid : String) (body : Request) (url : String) (key : Bytes) (payload : Json) : Type 0 where
  pub url_known : truthy_text (get_url env s uid).0 ≡ some url
  pub pem : String
  pub configured : truthy_text k.private_key ≡ some pem
  pub key_opened : c.rsa_decrypt pem (c.from_base64 body.encrypted_aes_key) ≡ ok key
  pub payload_opened :
      decrypt_payload c body.encrypted_flow_data key (c.from_base64 body.initial_vector)
      ≡ ok payload

-- Why a request is refused before its payload is known, with the status.
pub data Refused {Db C : Type 0} (c : Crypto) (k : Client) (env : Services Db C) (s : State Db C)
    (uid : String) (body : Request) : ℕ → Type 0 where
  no_url : truthy_text (get_url env s uid).0 ≡ none → Refused c k env s uid body 404
  no_private_key : truthy_text k.private_key ≡ none → Refused c k env s uid body 503
  key_sealed :
      (pem : String) (e : Erro)
      → truthy_text k.private_key ≡ some pem
      → c.rsa_decrypt pem (c.from_base64 body.encrypted_aes_key) ≡ err e
      → Refused c k env s uid body 421
  payload_sealed :
      (key : Bytes) (e : Erro)
      → decrypt_payload c body.encrypted_flow_data key (c.from_base64 body.initial_vector) ≡ err e
      → Refused c k env s uid body 421

-- A call of the client: a POST of the payload to the URL of the flow, with the access token.
pub record ToClient (k : Client) (url : String) (payload : Json) (q : Chamada) : Type 0 where
  pub target : q.url ≡ url
  pub content : q.payload ≡ payload
  pub token : In ("Authorization", txt.◌++◌ "Bearer " (given k.access_token "")) q.headers

-- The client answered with a status from 200 to 299 and this JSON.
abbrev pub Replied : Result (ℕ × Result Json) → Json → Type 0
Replied r v = (status : ℕ) × (200 ≤ status) × (status < 300) × (r ≡ ok (status, ok v))

-- What a signed request comes to.
pub data Outcome {Db C : Type 0} (c : Crypto) (k : Client) (env : Services Db C) (s : State Db C)
    (uid : String) (body : Request) (x : Answer) : Type 0 where
  refused :
      (n : ℕ) → Refused c k env s uid body n → x ≡ (err (http n), []) → Outcome c k env s uid body x
  null_payload :
      (url : String) (key : Bytes)
      → Opened c k env s uid body url key null
      → x ≡ (err (outro "TypeError"), [])
      → Outcome c k env s uid body x
  ping :
      (url : String) (key : Bytes) (payload : Json)
      → Opened c k env s uid body url key payload
      → payload ≢ null
      → get "action" payload ≡ some (str "ping")
      → x ≡ (encrypt_response c ping_response key (c.from_base64 body.initial_vector), [])
      → Outcome c k env s uid body x
  replied :
      (url : String) (key : Bytes) (payload v : Json) (q : Chamada)
      → Opened c k env s uid body url key payload
      → payload ≢ null
      → get "action" payload ≢ some (str "ping")
      → ToClient k url payload q
      → Replied (k.fetch q) v
      → x ≡ (encrypt_response c v key (c.from_base64 body.initial_vector), q ∷ [])
      → Outcome c k env s uid body x
  failed :
      (url : String) (key : Bytes) (payload : Json) (q : Chamada)
      → Opened c k env s uid body url key payload
      → payload ≢ null
      → get "action" payload ≢ some (str "ping")
      → ToClient k url payload q
      → ((v : Json) → ¬ Replied (k.fetch q) v)
      → x ≡ (err (http 500), q ∷ [])
      → Outcome c k env s uid body x

-- What any request comes to, with the state after it.
pub data Ended {Db C : Type 0} (c : Crypto) (k : Client) (env : Services Db C) (s : State Db C)
    (uid : String) (body : Request) (raw_body : Bytes) (signature : String)
    (x : Answer × State Db C) : Type 0 where
  unsigned :
      ¬ Signed c k.app_secret raw_body signature
      → x ≡ ((err (http 401), []), s)
      → Ended c k env s uid body raw_body signature x
  signed :
      Signed c k.app_secret raw_body signature
      → Outcome c k env s uid body x.0
      → Ended c k env s uid body raw_body signature x

action_cases : (v : Json) → (v ≡ null) ⊎ ((v ≢ null) × (action_of v ≡ ok (get "action" v)))
action_cases null = inl refl
action_cases (str s) = inr (λ e. cc, refl)
action_cases (num n) = inr (λ e. cc, refl)
action_cases (bool b) = inr (λ e. cc, refl)
action_cases (obj o) = inr (λ e. cc, refl)
action_cases (arr vs) = inr (λ e. cc, refl)

is_ping_iff : (a : Option Json) → (is_ping a ≡ true) ↔ (a ≡ some (str "ping"))
is_ping_iff none = (λ e. cc, λ e. cc)
is_ping_iff (some (str s)) = (
  (λ e. ap (λ t. some (str t)) ((eq_iff s "ping").0 e)),
  λ e. let same : s ≡ "ping" = cc in (eq_iff s "ping").1 same,
)
is_ping_iff (some null) = (λ e. cc, λ e. cc)
is_ping_iff (some (num n)) = (λ e. cc, λ e. cc)
is_ping_iff (some (bool b)) = (λ e. cc, λ e. cc)
is_ping_iff (some (obj o)) = (λ e. cc, λ e. cc)
is_ping_iff (some (arr vs)) = (λ e. cc, λ e. cc)

-- The client replied, and its reply is what is sealed, or it did not, and the answer is 500.
client_answer_cases :
    (c : Crypto) (k : Client) (r : Result (ℕ × Result Json))
    → ((v : Json) × Replied r v × (client_answer c k r ≡ ok v))
      ⊎ (((v : Json) → ¬ Replied r v) × (client_answer c k r ≡ err (http 500)))
client_answer_cases c k (err e) = inr (λ v (n, a, b, q). cc, refl)
client_answer_cases c k (ok (n, ok v)) = elim (Bool-cases (leb 200 n && ltb n 300)) [
  | inl y ↦ inl (v, (n, ground (arith, y), ground (arith, y), refl), rw y refl)
  | inr m ↦
      inr (λ w (i, a, b, q). let same : n ≡ i = cc in ground (arith, m, same, a, b), rw m refl)
]
client_answer_cases c k (ok (n, err e)) = inr (λ v (i, a, b, q). cc, same (leb 200 n && ltb n 300))
  where
    lost : Result Json
    lost = err (http 500)

    same : (b : Bool) → (if b then lost else lost) ≡ lost
    same true = refl
    same false = refl

module _ {Db C : Type 0} (c : Crypto) (k : Client) (env : Services Db C) (s : State Db C)
    (uid : String) (body : Request) where
  abbrev iv : Bytes
  iv = c.from_base64 body.initial_vector

  abbrev Ends : Answer → Type 0
  Ends = Outcome c k env s uid body

  forwarded-Outcome :
      (url : String) (key : Bytes) (payload : Json)
      → Opened c k env s uid body url key payload
      → payload ≢ null
      → get "action" payload ≢ some (str "ping")
      → Ends (forwarded c k url key iv payload)
  forwarded-Outcome url key payload o full other =
      let q = call_of c k url payload in
      let to_client : ToClient k url payload q = record {
        target = refl;
        content = refl;
        token = there (here refl);
      } in
      elim (client_answer_cases c k (k.fetch q)) [
        | inl (v, reply, same) ↦
            replied url key payload v q o full other to_client reply (rw same refl)
        | inr (silent, same) ↦ failed url key payload q o full other to_client silent (rw same refl)
      ]

  action-Outcome :
      (url : String) (key : Bytes) (payload : Json)
      → Opened c k env s uid body url key payload
      → Ends (on_action c k url key iv payload (action_of payload))
  action-Outcome url key payload o = elim (action_cases payload) [
    | inl empty ↦
        null_payload url key (subst (Opened c k env s uid body url key) empty o) (rw empty refl)
    | inr (full, same) ↦ elim (Bool-cases (is_ping (get "action" payload))) [
      | inl y ↦
          ping url key payload o full ((is_ping_iff (get "action" payload)).0 y) (rw (same, y) refl)
      | inr n ↦
          rw (same, n)
            (forwarded-Outcome url key payload o full
              (λ e. absurd (false≢true (sym n ∙ (is_ping_iff (get "action" payload)).1 e))))
    ]
  ]

  payload-Outcome :
      (url pem : String) (key : Bytes)
      → truthy_text (get_url env s uid).0 ≡ some url
      → truthy_text k.private_key ≡ some pem
      → c.rsa_decrypt pem (c.from_base64 body.encrypted_aes_key) ≡ ok key
      → (r : Result Json) → decrypt_payload c body.encrypted_flow_data key iv ≡ r
      → Ends (with_payload c k url key iv r)
  payload-Outcome url pem key u p o (err e) q = refused 421 (payload_sealed key e q) refl
  payload-Outcome url pem key u p o (ok v) q =
      action-Outcome url key v
        (record { url_known = u; pem = pem; configured = p; key_opened = o; payload_opened = q })

  key-Outcome :
      (url pem : String)
      → truthy_text (get_url env s uid).0 ≡ some url
      → truthy_text k.private_key ≡ some pem
      → (r : Result Bytes) → c.rsa_decrypt pem (c.from_base64 body.encrypted_aes_key) ≡ r
      → Ends (with_aes_key c k url body r)
  key-Outcome url pem u p (err e) q = refused 421 (key_sealed pem e p q) refl
  key-Outcome url pem u p (ok key) q =
      payload-Outcome url pem key u p q (decrypt_payload c body.encrypted_flow_data key iv) refl

  pem-Outcome :
      (url : String)
      → truthy_text (get_url env s uid).0 ≡ some url
      → (o : Option String) → truthy_text k.private_key ≡ o
      → Ends (with_private_key c k url body o)
  pem-Outcome url u none p = refused 503 (no_private_key p) refl
  pem-Outcome url u (some pem) p =
      key-Outcome url pem u p (c.rsa_decrypt pem (c.from_base64 body.encrypted_aes_key)) refl

  url-Outcome :
      (o : Option String) → truthy_text (get_url env s uid).0 ≡ o → Ends (with_url c k body o)
  url-Outcome none u = refused 404 (no_url u) refl
  url-Outcome (some url) u = pem-Outcome url u (truthy_text k.private_key) refl

-- A request whose signature has not the bytes of `sha256=` and the HMAC of its body is answered with
-- 401, and nothing is read or called. Any other ends as its outcome says: 404 without a URL, 503
-- without a private key, 421 where the key or the payload is not opened; a payload of `null` throws a
-- `TypeError`; a ping is answered without a call of the client; else the client's URL is called once,
-- with the payload and the access token, and what it answers with a status from 200 to 299 is
-- sealed; 500 where it answers anything else.
pub handle-Outcome :
    {Db C : Type 0} (c : Crypto) (k : Client) (env : Services Db C) (s : State Db C) (uid : String)
    (body : Request) (raw_body : Bytes) (signature : String)
    → Ended c k env s uid body raw_body signature (handle c k env s uid body raw_body signature)
unfolding handle
handle-Outcome c k env s uid body raw_body signature =
    let spec = verify_signature_iff c k.app_secret raw_body signature in
    elim (Bool-cases (verify_signature c k.app_secret raw_body signature)) [
      | inl good ↦
          signed (spec.0 good)
            (rw good (url-Outcome c k env s uid body (truthy_text (get_url env s uid).0) refl))
      | inr bad ↦ unsigned (λ h. absurd (false≢true (sym bad ∙ spec.1 h))) (rw bad refl)
    ]
