-- ===== src/DeadLetters/Resends.antt =====
-- `resend` of src/dead-letter/dead-letter.service.ts: one stored message is posted again.
use whiz_gateway.Base.{
  ℕ, String, Bool, true, false, ◌≡◌, refl, inl, inr, Option, none, some, Bool-cases, [], ◌∷◌,
  if◌then◌else◌,
}
use whiz_gateway.Json.{Json, null}
use whiz_gateway.Effects.{
  Erro, http, Result, ok, err, Post, json, Trace, Exec, posted, marked, throw, ask, call, ◌>>=◌,
  ◌>>◌,
}
use whiz_gateway.Records.{Ambiente, Inbox}
use whiz_gateway.Resend.{Mensagem, truthy_text}

-- The repositories, axios, and `CALLBACK_SECRET` of the configuration.
pub record Services : Type 0 where
  pub find_by_id : Trace → String → Result (Option Mensagem)
  pub find_inbox : Trace → String → Result (Option Inbox)
  pub find_ambiente : Trace → ℕ → Result (Option Ambiente)
  pub http_post : Trace → Post → Result ℕ
  pub mark_reenviado : Trace → String → Result (Unit {0})
  pub callback_secret : Option String

abbrev pub is_null : Json → Bool
is_null null = true
is_null _ = false

module _ (env : Services) where
  abbrev pub secret : Option String → String
  secret none = ""
  secret (some s) = s

  abbrev pub post_to : Ambiente → Json → Post
  post_to a message = record {
    url = a.url;
    corpo = json message;
    headers =
        ("Content-Type", "application/json")
        ∷ ("x-callback-secret", secret env.callback_secret)
        ∷ [];
  }

  unfoldable pub com_ambiente : String → Mensagem → Option Ambiente → Exec (Unit {0})
  com_ambiente id m none = throw (http 400)
  com_ambiente id m (some a) = if a.del then throw (http 400) else (do
    call (λ t. env.http_post t (post_to a m.message)) (posted (post_to a m.message))
    call (λ t. env.mark_reenviado t id) (marked id))

  unfoldable pub com_inbox : String → Mensagem → Option Inbox → Exec (Unit {0})
  unfolding com_ambiente
  com_inbox id m none = throw (http 400)
  com_inbox id m (some i) =
      if i.del
      then throw (http 400)
      else (do a ← ask (λ t. env.find_ambiente t i.id_ambiente); com_ambiente id m a)

  unfoldable pub com_id_inbox : String → Mensagem → Option String → Exec (Unit {0})
  unfolding com_inbox
  com_id_inbox id m none = throw (http 400)
  com_id_inbox id m (some id_inbox) = do i ← ask (λ t. env.find_inbox t id_inbox); com_inbox id m i

  unfoldable pub com_mensagem : String → Option Mensagem → Exec (Unit {0})
  unfolding com_id_inbox
  com_mensagem id none = throw (http 404)
  com_mensagem id (some m) =
      if is_null m.message then throw (http 400) else com_id_inbox id m (truthy_text m.id_inbox)

  unfoldable pub resend : String → Exec (Unit {0})
  unfolding com_mensagem
  resend id = do m ← ask (λ t. env.find_by_id t id); com_mensagem id m

-- The active inbox of a message.
pub record InboxOf (env : Services) (t : Trace) (m : Mensagem) (i : Inbox) : Type 0 where
  pub id_inbox : String
  pub names : truthy_text m.id_inbox ≡ some id_inbox
  pub found : env.find_inbox t id_inbox ≡ ok (some i)
  pub active : i.del ≡ false

-- Where the message goes: the active environment of its active inbox.
pub record Target (env : Services) (t : Trace) (m : Mensagem) (a : Ambiente) : Type 0 where
  pub inbox : Inbox
  pub inbox_of : InboxOf env t m inbox
  pub found : env.find_ambiente t inbox.id_ambiente ≡ ok (some a)
  pub active : a.del ≡ false

-- Why a stored message is not sent.
pub data NoTarget (env : Services) (t : Trace) (m : Mensagem) : Type 0 where
  no_payload : is_null m.message ≡ true → NoTarget env t m
  no_inbox_id : truthy_text m.id_inbox ≡ none → NoTarget env t m
  no_inbox :
      (id : String)
      → truthy_text m.id_inbox ≡ some id
      → env.find_inbox t id ≡ ok none
      → NoTarget env t m
  inbox_removed :
      (id : String) (i : Inbox)
      → truthy_text m.id_inbox ≡ some id
      → env.find_inbox t id ≡ ok (some i)
      → i.del ≡ true
      → NoTarget env t m
  no_ambiente :
      (i : Inbox)
      → InboxOf env t m i
      → env.find_ambiente t i.id_ambiente ≡ ok none
      → NoTarget env t m
  ambiente_removed :
      (i : Inbox) (a : Ambiente)
      → InboxOf env t m i
      → env.find_ambiente t i.id_ambiente ≡ ok (some a)
      → a.del ≡ true
      → NoTarget env t m

-- Which read failed.
pub data Unread (env : Services) (id : String) (t : Trace) (e : Erro) : Type 0 where
  message_unread : env.find_by_id t id ≡ err e → Unread env id t e
  inbox_unread : (i : String) → env.find_inbox t i ≡ err e → Unread env id t e
  ambiente_unread : (n : ℕ) → env.find_ambiente t n ≡ err e → Unread env id t e

-- What a resend comes to, with its answer and the calls that it made.
pub data Outcome (env : Services) (id : String) (t : Trace) (x : Result (Unit {0}) × Trace)
    : Type 0 where
  unread : (e : Erro) → Unread env id t e → x ≡ (err e, t) → Outcome env id t x
  absent : env.find_by_id t id ≡ ok none → x ≡ (err (http 404), t) → Outcome env id t x
  refused :
      (m : Mensagem)
      → env.find_by_id t id ≡ ok (some m)
      → NoTarget env t m
      → x ≡ (err (http 400), t)
      → Outcome env id t x
  failed :
      (m : Mensagem) (a : Ambiente) (e : Erro)
      → env.find_by_id t id ≡ ok (some m)
      → Target env t m a
      → x ≡ (err e, posted (post_to env a m.message) (err e) ∷ t)
      → Outcome env id t x
  sent :
      (m : Mensagem) (a : Ambiente) (s : ℕ) (r : Result (Unit {0}))
      → env.find_by_id t id ≡ ok (some m)
      → Target env t m a
      → env.mark_reenviado (posted (post_to env a m.message) (ok s) ∷ t) id ≡ r
      → x ≡ (r, marked id r ∷ (posted (post_to env a m.message) (ok s) ∷ t))
      → Outcome env id t x

module _ (env : Services) (id : String) (t : Trace) (m : Mensagem)
    (stored : env.find_by_id t id ≡ ok (some m)) where
  posted-Outcome :
      (a : Ambiente)
      → Target env t m a
      → (r : Result ℕ) → env.http_post t (post_to env a m.message) ≡ r
      → Outcome env id t (com_ambiente env id m (some a) t)
  unfolding com_ambiente
  posted-Outcome a target (ok s) p =
      sent m a s (env.mark_reenviado (posted (post_to env a m.message) (ok s) ∷ t) id) stored target
        refl (rw (target.active, p) refl)
  posted-Outcome a target (err e) p = failed m a e stored target (rw (target.active, p) refl)

  ambiente-Outcome :
      (i : Inbox)
      → InboxOf env t m i
      → (r : Result (Option Ambiente)) → env.find_ambiente t i.id_ambiente ≡ r
      → Outcome env id t (com_inbox env id m (some i) t)
  unfolding com_inbox com_ambiente
  ambiente-Outcome i of_m (err e) f =
      unread e (ambiente_unread i.id_ambiente f) (rw (of_m.active, f) refl)
  ambiente-Outcome i of_m (ok none) f =
      refused m stored (no_ambiente i of_m f) (rw (of_m.active, f) refl)
  ambiente-Outcome i of_m (ok (some a)) f =
      rw (of_m.active, f)
        (elim (Bool-cases a.del) [
          | inl y ↦ refused m stored (ambiente_removed i a of_m f y) (rw y refl)
          | inr n ↦
              posted-Outcome a (record { inbox = i; inbox_of = of_m; found = f; active = n })
                (env.http_post t (post_to env a m.message)) refl
        ])

  inbox-Outcome :
      (id_inbox : String)
      → truthy_text m.id_inbox ≡ some id_inbox
      → (r : Result (Option Inbox)) → env.find_inbox t id_inbox ≡ r
      → Outcome env id t (com_id_inbox env id m (some id_inbox) t)
  unfolding com_id_inbox com_inbox
  inbox-Outcome id_inbox names (err e) f = unread e (inbox_unread id_inbox f) (rw f refl)
  inbox-Outcome id_inbox names (ok none) f =
      refused m stored (no_inbox id_inbox names f) (rw f refl)
  inbox-Outcome id_inbox names (ok (some i)) f = rw f (elim (Bool-cases i.del) [
    | inl y ↦ refused m stored (inbox_removed id_inbox i names f y) (rw y refl)
    | inr n ↦
        ambiente-Outcome i (record { id_inbox = id_inbox; names = names; found = f; active = n })
          (env.find_ambiente t i.id_ambiente) refl
  ])

  id-Outcome :
      (o : Option String)
      → truthy_text m.id_inbox ≡ o
      → Outcome env id t (com_id_inbox env id m o t)
  unfolding com_id_inbox
  id-Outcome none e = refused m stored (no_inbox_id e) refl
  id-Outcome (some id_inbox) e = inbox-Outcome id_inbox e (env.find_inbox t id_inbox) refl

message-Outcome :
    (env : Services) (id : String) (t : Trace) (r : Result (Option Mensagem))
    → env.find_by_id t id ≡ r
    → Outcome env id t (resend env id t)
unfolding resend com_mensagem
message-Outcome env id t (err e) f = unread e (message_unread f) (rw f refl)
message-Outcome env id t (ok none) f = absent f (rw f refl)
message-Outcome env id t (ok (some m)) f = rw f (elim (Bool-cases (is_null m.message)) [
  | inl y ↦ refused m f (no_payload y) (rw y refl)
  | inr n ↦ rw n (id-Outcome env id t m f (truthy_text m.id_inbox) refl)
])

-- A resend ends as its outcome says: 404 where there is no such message, 400 with no call where it
-- has no payload, inbox or environment in force, the error of a read that
-- failed with no call; else there is one POST of its payload to the environment, whose error is
-- thrown with no mark, and after whose success the message is marked.
pub resend-Outcome : (env : Services) (id : String) (t : Trace) → Outcome env id t (resend env id t)
resend-Outcome env id t = message-Outcome env id t (env.find_by_id t id) refl
