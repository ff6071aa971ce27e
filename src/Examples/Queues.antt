-- ===== src/Examples/Queues.antt =====
-- The consumers of the queues on concrete brokers.
use whiz_gateway.Base.{ℕ, ◌+◌, ◌≡◌, refl, String, some, [], ◌∷◌, All, false}
use whiz_gateway.Effects.{Result, ok, err, outro}
use whiz_gateway.Rabbit as rabbit
use whiz_gateway.Rabbit.Settled as settled
use whiz_gateway.Rabbit.Tags as tags

abbrev answers : ℕ → Result (Unit {0})
answers n = ok tt

-- Two messages come in, and the handler of the first ends with an error.
abbrev one_left : rabbit.Consumer
one_left = record { running = 2 ∷ []; calls = rabbit.nack 1 false false ∷ [] }

one_left-Reached : settled.Reached answers (2 ∷ (1 ∷ [])) one_left
unfolding rabbit.on_message rabbit.settle
one_left-Reached =
    settled.then_step
      (settled.then_step (settled.then_step settled.begun (settled.message 1)) (settled.message 2))
      (settled.ended (2 ∷ []) [] 1 (err (outro "e")) refl)

Reached-Settled_example :
    ((n : ℕ)
      → settled.count_calls n one_left.calls + settled.count n one_left.running
        ≡ settled.count n (2 ∷ (1 ∷ [])))
    × All settled.Dropped one_left.calls
Reached-Settled_example =
    settled.Reached-Settled answers (2 ∷ (1 ∷ [])) one_left (λ n. refl) one_left-Reached

Reached-Finished_example :
    (c : rabbit.Consumer) × settled.Leads answers (2 ∷ (1 ∷ [])) one_left (2 ∷ (1 ∷ [])) c
    × (c.running ≡ [])
    × (c.calls ≡ settled.calls_for answers one_left.running one_left.calls)
    × ((n : ℕ) → settled.count_calls n c.calls ≡ settled.count n (2 ∷ (1 ∷ [])))
Reached-Finished_example =
    settled.Reached-Finished answers answers (2 ∷ (1 ∷ [])) one_left (λ n. refl) one_left-Reached

abbrev idle : rabbit.Client
idle = record { tags = []; setups = [] }

abbrev cancels : String → Result (Unit {0})
cancels tag = ok tt

abbrev same_tag : String → String
same_tag name = name

abbrev consuming : rabbit.Client
consuming = rabbit.start_consuming same_tag "media.upload" idle

stop_consuming-Stopped_example :
    tags.Stopped cancels "media.upload" consuming
      (rabbit.stop_consuming cancels "media.upload" consuming)
    × (rabbit.tag_of "media.upload"
          (rabbit.reconnect same_tag
            (rabbit.stop_consuming cancels "media.upload" consuming).1).tags
        ≡ some "media.upload")
stop_consuming-Stopped_example = tags.stop_consuming-Stopped same_tag cancels "media.upload" idle
