-- ===== src/Rabbit.antt =====
-- src/rabbitmq/rabbitmq.service.ts: the consumers of the queues, over a channel that sets itself up
-- again at every connection. The broker is a parameter: it gives a consumer its tag, and may refuse
-- a cancellation or an acknowledgement.
pub mod Settled
pub mod Tags
use whiz_gateway.Base.{
  ℕ, String, Bool, false, Option, none, some, List, [], ◌∷◌, ◌==◌, if◌then◌else◌,
}
use whiz_gateway.Effects.{Result, ok, err}
use whiz_gateway.Resend.{truthy_text}

-- What is called on the channel for a message, by its delivery tag.
pub data Call : Type 0 where
  ack : ℕ → Call
  -- with `allUpTo` and `requeue`
  nack : ℕ → Bool → Bool → Call

-- The messages whose handler is running, and the calls made so far, the latest first.
pub record Consumer : Type 0 where
  pub running : List ℕ
  pub calls : List Call

-- The callback of `consume`: the handler of a message starts, `null` is ignored.
unfoldable pub on_message : Option ℕ → Consumer → Consumer
on_message none c = c
on_message (some n) c = record c { running = n ∷ c.running }

-- `.catch(() => channel.nack(msg, false, false))`, after what the acknowledgement answered
abbrev pub after_ack : ℕ → Result (Unit {0}) → List Call → List Call
after_ack n (ok _) calls = calls
after_ack n (err _) calls = nack n false false ∷ calls

-- The end of a handler: `.then(() => channel.ack(msg))`, and the `catch` of both.
unfoldable pub settle : (ℕ → Result (Unit {0})) → ℕ → Result (Unit {0}) → List Call → List Call
settle acknowledge n (ok _) calls = after_ack n (acknowledge n) (ack n ∷ calls)
settle acknowledge n (err _) calls = nack n false false ∷ calls

-- The tags of the consumers, a `Map`, and the set-ups that the channel runs at every connection.
pub record Client : Type 0 where
  pub tags : List (String × String)
  pub setups : List String

unfoldable pub tag_of : String → List (String × String) → Option String
tag_of name [] = none
tag_of name ((k, tag) ∷ tags) = if k == name then some tag else tag_of name tags

-- `Map.set`, and `Map.delete`; an older entry of a key is shadowed.
abbrev pub set_tag : String → String → List (String × String) → List (String × String)
set_tag name tag tags = (name, tag) ∷ tags

unfoldable pub delete_tag : String → List (String × String) → List (String × String)
delete_tag name [] = []
delete_tag name ((k, tag) ∷ tags) =
    let rest = delete_tag name tags in if k == name then rest else (k, tag) ∷ rest

module _ (tag_for : String → String) where
  -- A set-up: `consume`, and the tag is kept.
  abbrev pub set_up : String → List (String × String) → List (String × String)
  set_up name tags = set_tag name (tag_for name) tags

  -- `startConsuming`: the set-up is added to the channel, and run on the open connection.
  unfoldable pub start_consuming : String → Client → Client
  start_consuming name c = record { tags = set_up name c.tags; setups = name ∷ c.setups }

  -- A new connection of the channel: every set-up runs again.
  unfoldable pub run_setups : List String → List (String × String) → List (String × String)
  run_setups [] tags = tags
  run_setups (name ∷ names) tags = set_up name (run_setups names tags)

  unfoldable pub reconnect : Client → Client
  unfolding run_setups
  reconnect c = record c { tags = run_setups c.setups c.tags }

abbrev pub cancelled : String → Client → Result (Unit {0}) → Result (Unit {0}) × Client
cancelled name c (err e) = (err e, c)
cancelled name c (ok _) = (ok tt, record c { tags = delete_tag name c.tags })

abbrev pub stop_tag :
    (String → Result (Unit {0})) → String → Client → Option String → Result (Unit {0}) × Client
stop_tag cancel name c none = (ok tt, c)
stop_tag cancel name c (some tag) = cancelled name c (cancel tag)

-- `stopConsuming`, with the channel's `cancel`
unfoldable pub stop_consuming :
    (String → Result (Unit {0})) → String → Client → Result (Unit {0}) × Client
unfolding tag_of delete_tag
stop_consuming cancel name c = stop_tag cancel name c (truthy_text (tag_of name c.tags))
