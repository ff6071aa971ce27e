-- ===== src/Webhook/Guard.antt =====
-- src/webhook/guards/meta-signature.guard.ts, and the handshake of src/webhook/webhook.controller.ts.
pub mod Admits
pub mod Handshake
use Prim.Native.String
use whiz_gateway.Base.{
  ℕ, String, Bool, true, false, ◌&&◌, not, Option, none, some, List, [], ◌∷◌, ◌==◌, eqb, length,
  if◌then◌else◌,
}
use whiz_gateway.Json.{Json, str, arr, obj, Props, lookup, non_empty}
use whiz_gateway.Effects.{
  Erro, http, Result, ok, err, Trace, Exec, Morta, assinatura_invalida, enqueued, pure, throw, call,
  swallow, ◌>>=◌, ◌>>◌,
}

-- A header: absent, a text, or several of them.
pub data Header : Type 0 where
  absent : Header
  one : String → Header
  many : List String → Header

pub record Request : Type 0 where
  pub signature : Header
  pub raw_body : Option (List ℕ)

-- What the guard takes from Node's crypto and Buffer, from `JSON.parse`, the broker and the
-- configuration. Bytes are numbers.
pub record Services : Type 0 where
  pub hmac_sha256_hex : String → List ℕ → String
  pub utf8 : String → List ℕ
  pub parse_json : List ℕ → Result Json
  pub send_to_queue : Trace → Morta → Result (Unit {0})
  pub app_secret : Option String

-- `crypto.timingSafeEqual` on buffers of one length
unfoldable pub timing_safe_equal : List ℕ → List ℕ → Bool
timing_safe_equal [] [] = true
timing_safe_equal (x ∷ xs) (y ∷ ys) = eqb x y && timing_safe_equal xs ys
timing_safe_equal _ _ = false

abbrev shape : Props → Option Json → Option Json → Option Json
shape o (some (str _)) (some (arr _)) = some (obj o)
shape o _ _ = none

-- `parsed`, if it is an object with a text `object` and an array `entry`
pub meta_shape : Json → Option Json
unfolding lookup
meta_shape (obj o) = shape o (lookup "object" o) (lookup "entry" o)
meta_shape _ = none

module _ (env : Services) where
  pub parse_meta_shaped : List ℕ → Option Json
  unfolding meta_shape
  parse_meta_shaped raw_body = elim (env.parse_json raw_body) [
    | ok parsed ↦ meta_shape parsed
    | err _ ↦ none
  ]

  abbrev pub rejeitada : Json → Morta
  rejeitada payload = record { message = payload; id_inbox = none; status = assinatura_invalida }

  -- started, not awaited, with its own `catch`
  pub persist_to_dead_letter : List ℕ → Exec (Unit {0})
  unfolding parse_meta_shaped
  persist_to_dead_letter raw_body = elim (parse_meta_shaped raw_body) [
    | none ↦ pure tt
    | some payload ↦
        swallow (call (λ t. env.send_to_queue t (rejeitada payload)) (enqueued (rejeitada payload)))
  ]

  abbrev pub secret : String
  secret = elim env.app_secret [ none ↦ "" | some s ↦ s ]

  pub expected_signature : List ℕ → String
  expected_signature raw_body = String.◌++◌ "sha256=" (env.hmac_sha256_hex secret raw_body)

  pub same_bytes : String → String → Bool
  unfolding timing_safe_equal
  same_bytes x y =
      eqb (length (env.utf8 x)) (length (env.utf8 y)) && timing_safe_equal (env.utf8 x) (env.utf8 y)

  pub com_assinatura : String → Option (List ℕ) → Exec Bool
  unfolding persist_to_dead_letter expected_signature same_bytes
  com_assinatura signature none = throw (http 401)
  com_assinatura signature (some []) = throw (http 401)
  com_assinatura signature (some (b ∷ bs)) =
      if same_bytes signature (expected_signature (b ∷ bs))
      then pure true
      else (do persist_to_dead_letter (b ∷ bs); throw (http 401))

  pub com_header : Header → Option (List ℕ) → Exec Bool
  unfolding com_assinatura
  com_header (one signature) raw_body =
      if signature == "" then throw (http 401) else com_assinatura signature raw_body
  com_header _ raw_body = throw (http 401)

  unfoldable pub can_activate : Request → Exec Bool
  unfolding com_header
  can_activate req = com_header req.signature req.raw_body

-- `mode !== 'subscribe' || verifyToken !== expectedToken` refuses; `none` is `undefined`
abbrev same_option : Option String → Option String → Bool
same_option none none = true
same_option (some a) (some b) = a == b
same_option _ _ = false

-- The handshake, in WebhookController: the challenge back, or 403.
unfoldable pub verify :
    Option String → Option String → Option String → Option String → Result (Option String)
verify expected_token mode verify_token challenge =
    if same_option mode (some "subscribe") && same_option verify_token expected_token
    then ok challenge
    else err (http 403)
