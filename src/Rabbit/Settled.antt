-- ===== src/Rabbit/Settled.antt =====
-- What becomes of a message, on `startConsuming` of src/rabbitmq/rabbitmq.service.ts: handlers run at
-- once and end in any order.
use whiz_gateway.Base.{
  ℕ, suc, ◌+◌, ◌≡◌, refl, sym, subst, ap, false, Bool-cases, inl, inr, none, some, List, [], ◌∷◌,
  ◌++◌, All, eqb, arith, if◌then◌else◌,
}
use whiz_gateway.Effects.{Result, ok, err}
use whiz_gateway.Rabbit.{Call, ack, nack, Consumer, on_message, settle}

-- How often a delivery tag stands in a list.
abbrev pub count : ℕ → List ℕ → ℕ
count n [] = 0
count n (m ∷ ms) = if eqb n m then suc (count n ms) else count n ms

abbrev pub message_of : Call → ℕ
message_of (ack n) = n
message_of (nack n _ _) = n

abbrev pub count_calls : ℕ → List Call → ℕ
count_calls n [] = 0
count_calls n (c ∷ cs) = if eqb n (message_of c) then suc (count_calls n cs) else count_calls n cs

-- A message that is refused is neither asked for again nor refused with others.
abbrev pub Dropped : Call → Type 0
Dropped (ack n) = Unit
Dropped (nack n all_up_to requeue) = (all_up_to ≡ false) × (requeue ≡ false)

-- One thing happens: `null` or a message comes in, or the handler of a running message ends.
pub data Step (acknowledge : ℕ → Result (Unit {0}))
    : List ℕ → Consumer → List ℕ → Consumer → Type 0 where
  nothing : {seen : List ℕ} {c : Consumer} → Step acknowledge seen c seen (on_message none c)
  message :
      {seen : List ℕ} {c : Consumer} (n : ℕ)
      → Step acknowledge seen c (n ∷ seen) (on_message (some n) c)
  ended :
      {seen : List ℕ} {c : Consumer} (xs ys : List ℕ) (n : ℕ) (r : Result (Unit {0}))
      → c.running ≡ xs ++ n ∷ ys
      → Step acknowledge seen c seen
          (record { running = xs ++ ys; calls = settle acknowledge n r c.calls })

-- What can be reached from a consumer that has seen nothing, with the messages that came in.
pub data Reached (acknowledge : ℕ → Result (Unit {0})) : List ℕ → Consumer → Type 0 where
  begun : Reached acknowledge [] (record { running = []; calls = [] })
  then_step :
      {seen seen' : List ℕ} {c c' : Consumer}
      → Reached acknowledge seen c
      → Step acknowledge seen c seen' c'
      → Reached acknowledge seen' c'

-- Any number of steps from one consumer to another.
pub data Leads (acknowledge : ℕ → Result (Unit {0}))
    : List ℕ → Consumer → List ℕ → Consumer → Type 0 where
  stays : {seen : List ℕ} {c : Consumer} → Leads acknowledge seen c seen c
  first_step :
      {seen seen' seen'' : List ℕ} {c c' c'' : Consumer}
      → Step acknowledge seen c seen' c'
      → Leads acknowledge seen' c' seen'' c''
      → Leads acknowledge seen c seen'' c''

-- The call that a result of a handler asks for.
abbrev pub call_for : Result (Unit {0}) → ℕ → Call
call_for (ok _) n = ack n
call_for (err _) n = nack n false false

-- One such call for each of these messages, the last one's first.
abbrev pub calls_for : (ℕ → Result (Unit {0})) → List ℕ → List Call → List Call
calls_for outcome [] cs = cs
calls_for outcome (n ∷ ns) cs = calls_for outcome ns (call_for (outcome n) n ∷ cs)

count-append : (n : ℕ) (xs ys : List ℕ) → count n (xs ++ ys) ≡ count n xs + count n ys
count-append n [] ys = omega arith
count-append n (x ∷ xs) ys = elim (Bool-cases (eqb n x)) [
  | inl y ↦ rw y (omega (arith, count-append n xs ys))
  | inr m ↦ rw m (count-append n xs ys)
]

-- One message is taken out of the running ones.
count-take :
    (n m : ℕ) (xs ys : List ℕ) → count n (xs ++ m ∷ ys) ≡ count n (m ∷ []) + count n (xs ++ ys)
count-take n m xs ys =
    let a = count-append n xs (m ∷ ys) in
    let b = count-append n xs ys in let c = count-append n (m ∷ []) ys in omega (arith, a, b, c)

module _ (acknowledge : ℕ → Result (Unit {0})) (answers : (n : ℕ) → acknowledge n ≡ ok tt) where
  count_calls-settle :
      (n m : ℕ) (r : Result (Unit {0})) (cs : List Call)
      → count_calls n (settle acknowledge m r cs) ≡ count n (m ∷ []) + count_calls n cs
  unfolding settle
  count_calls-settle n m (ok _) cs =
      rw (answers m)
        (elim (Bool-cases (eqb n m)) [ inl y ↦ rw y (omega arith) | inr z ↦ rw z (omega arith) ])
  count_calls-settle n m (err _) cs = elim (Bool-cases (eqb n m)) [
    | inl y ↦ rw y (omega arith)
    | inr z ↦ rw z (omega arith)
  ]

  abbrev Balanced : List ℕ → Consumer → Type 0
  Balanced seen c = (n : ℕ) → count_calls n c.calls + count n c.running ≡ count n seen

  step-Balanced :
      {seen seen' : List ℕ} {c c' : Consumer}
      → Balanced seen c
      → Step acknowledge seen c seen' c'
      → Balanced seen' c'
  unfolding on_message
  step-Balanced b nothing n = b n
  step-Balanced b (message m) n = elim (Bool-cases (eqb n m)) [
    | inl y ↦ rw y (omega (arith, b n))
    | inr z ↦ rw z (b n)
  ]
  step-Balanced {c = c} b (ended xs ys m r e) n =
      let f : count n c.running ≡ count n (xs ++ m ∷ ys) = ap (count n) e in
      omega (arith, b n, f, count-take n m xs ys, count_calls-settle n m r c.calls)

  Reached-Balanced : {seen : List ℕ} {c : Consumer} → Reached acknowledge seen c → Balanced seen c
  Reached-Balanced begun = λ n. omega arith
  Reached-Balanced (then_step t s) = step-Balanced (Reached-Balanced t) s

  settle-Dropped :
      (n : ℕ) (r : Result (Unit {0})) (cs : List Call)
      → All Dropped cs
      → All Dropped (settle acknowledge n r cs)
  unfolding settle
  settle-Dropped n (ok _) cs h = rw (answers n) (tt, h)
  settle-Dropped n (err _) cs h = ((refl, refl), h)

  Reached-Dropped :
      {seen : List ℕ} {c : Consumer} → Reached acknowledge seen c → All Dropped c.calls
  unfolding on_message
  Reached-Dropped begun = tt
  Reached-Dropped (then_step t nothing) = Reached-Dropped t
  Reached-Dropped (then_step t (message n)) = Reached-Dropped t
  Reached-Dropped (then_step {c = c} t (ended xs ys n r e)) =
      settle-Dropped n r c.calls (Reached-Dropped t)

  settle-call_for :
      (n : ℕ) (r : Result (Unit {0})) (cs : List Call)
      → settle acknowledge n r cs ≡ call_for r n ∷ cs
  unfolding settle
  settle-call_for n (ok _) cs = rw (answers n) refl
  settle-call_for n (err _) cs = refl

  Reached-Leads :
      {seen seen' : List ℕ} {c c' : Consumer}
      → Reached acknowledge seen c
      → Leads acknowledge seen c seen' c'
      → Reached acknowledge seen' c'
  Reached-Leads t stays = t
  Reached-Leads t (first_step s l) = Reached-Leads (then_step t s) l

  -- The running handlers end, each as `outcome` says.
  finish :
      (outcome : ℕ → Result (Unit {0})) (seen ns : List ℕ) (cs : List Call)
      → Leads acknowledge seen
          (record { running = ns; calls = cs })
          seen
          (record { running = []; calls = calls_for outcome ns cs })
  finish outcome seen [] cs = stays
  finish outcome seen (n ∷ ns) cs = first_step (ended [] ns n (outcome n) refl) (
      subst
        (λ ds.
          Leads acknowledge seen (record { running = ns; calls = ds }) seen
            (record { running = []; calls = calls_for outcome ns (call_for (outcome n) n ∷ cs) }))
        (sym (settle-call_for n (outcome n) cs))
        (finish outcome seen ns (call_for (outcome n) n ∷ cs)))

-- Where acknowledgements answer, however the handlers are interleaved and end: a message that came
-- in is running or has had one call, never both, and what came in once has at most one call; no
-- refusal asks for the message again.
pub Reached-Settled :
    (acknowledge : ℕ → Result (Unit {0})) (seen : List ℕ) (c : Consumer)
    → ((n : ℕ) → acknowledge n ≡ ok tt)
    → Reached acknowledge seen c
    → ((n : ℕ) → count_calls n c.calls + count n c.running ≡ count n seen) × All Dropped c.calls
Reached-Settled acknowledge seen c answers t =
    (Reached-Balanced acknowledge answers t, Reached-Dropped acknowledge answers t)

-- Where acknowledgements answer, from whatever has been reached, whatever the running handlers end
-- with, steps lead from there to a consumer with nothing running, which has one more call for each
-- message that was running: an acknowledgement where its handler answers, a refusal without a return
-- to the queue where it throws; then every message has as many calls as it came in.
pub Reached-Finished :
    (acknowledge outcome : ℕ → Result (Unit {0})) (seen : List ℕ) (c : Consumer)
    → ((n : ℕ) → acknowledge n ≡ ok tt)
    → Reached acknowledge seen c
    → (c' : Consumer) × Leads acknowledge seen c seen c'
      × (c'.running ≡ [])
      × (c'.calls ≡ calls_for outcome c.running c.calls)
      × ((n : ℕ) → count_calls n c'.calls ≡ count n seen)
Reached-Finished acknowledge outcome seen c answers t =
    let l = finish acknowledge answers outcome seen c.running c.calls in
    let b = Reached-Balanced acknowledge answers (Reached-Leads acknowledge answers t l) in
    (
      record { running = []; calls = calls_for outcome c.running c.calls },
      l,
      refl,
      refl,
      λ n. omega (arith, b n),
    )
