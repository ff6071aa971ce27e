-- ===== src/Effects/Counts.antt =====
-- What a trace shows: the deliveries, the dead letters, the attempts and the waiting.
use whiz_gateway.Json.{Json}
use whiz_gateway.Base.{String, ℕ, suc, ◌+◌, List, [], ◌∷◌, length}
use whiz_gateway.Effects.{Trace, Morta, Post, enqueued, posted, waited, dispatched, ok}

-- The POSTs that were answered with success.
abbrev pub deliveries : Trace → ℕ
deliveries [] = 0
deliveries (posted p (ok _) ∷ t) = suc (deliveries t)
deliveries (_ ∷ t) = deliveries t

-- These POSTs themselves, the latest first.
abbrev pub successes : Trace → List Post
successes [] = []
successes (posted p (ok _) ∷ t) = p ∷ successes t
successes (_ ∷ t) = successes t

-- The POSTs that were made.
abbrev pub attempts : Trace → ℕ
attempts [] = 0
attempts (posted p r ∷ t) = suc (attempts t)
attempts (_ ∷ t) = attempts t

-- The messages that the dead-letter queue took.
abbrev pub dead_letters : Trace → List Morta
dead_letters [] = []
dead_letters (enqueued m (ok _) ∷ t) = m ∷ dead_letters t
dead_letters (_ ∷ t) = dead_letters t

-- The milliseconds waited between attempts.
abbrev pub waiting : Trace → ℕ
waiting [] = 0
waiting (waited n ∷ t) = n + waiting t
waiting (_ ∷ t) = waiting t

-- Deliveries and dead letters together.
abbrev pub outcomes : Trace → ℕ
outcomes t = deliveries t + length (dead_letters t)

-- The dispatches that were started, with the inbox and the payload, the latest first.
abbrev pub dispatches : Trace → List (String × Json)
dispatches [] = []
dispatches (dispatched id p ∷ t) = (id, p) ∷ dispatches t
dispatches (_ ∷ t) = dispatches t
