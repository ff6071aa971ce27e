-- ===== src/Redirections/Sends.antt =====
-- On `sendWithRetry` of src/redirecionamentos-webhooks/redirecionamentos-webhooks.service.ts.
use native.Mathlib.Nat.{two-pow-succ, mul-add}
use whiz_gateway.Base.{
  ℕ, zero, suc, ◌+◌, ◌-◌, ◌*◌, ◌^◌, ◌<◌, String, ◌≡◌, refl, ap, ◌∙◌, List, [], ◌∷◌, inl, inr, arith,
  map, ltb, Bool-cases, Option, none, some, subst,
}
use whiz_gateway.Json.{Props, obj}
use whiz_gateway.Effects.{Erro, Trace, Post, json, ok, err, posted, waited, Result-cases}
use whiz_gateway.Effects.Counts.{deliveries, attempts, waiting}
use whiz_gateway.Effects.Rounds.{Rounds, through, gave_up, again}
use whiz_gateway.Dispatch.Rounds.{lt→ltb, le→not_ltb}
use whiz_gateway.Redirections.{
  Services, Redirection, tentativas, send_with_retry, post_to, enviar_todos, aguardar, max_retries,
}

-- From `t` to `u`, in at most `left` rounds that wait `base * 2 ^ m` at first: a delivery after `k`
-- failures, or failures alone. Each failure but the last round's is followed by a wait twice as
-- long as the one before, which the sums state.
pub data Tried (base left m : ℕ) (t u : Trace) : Type 0 where
  delivered :
      (k : ℕ)
      → k < left
      → deliveries u ≡ suc (deliveries t)
      → attempts u ≡ attempts t + suc k
      → waiting u + base * 2 ^ m ≡ waiting t + base * 2 ^ (m + k)
      → Tried base left m t u
  lost :
      deliveries u ≡ deliveries t
      → attempts u ≡ attempts t + left
      → waiting u + base * 2 ^ m ≡ waiting t + base * 2 ^ (m + (left - 1))
      → Tried base left m t u

pub pow_eq : (b i j : ℕ) → i ≡ j → b * 2 ^ i ≡ b * 2 ^ j
pow_eq b i j e = ap (λ x. b * 2 ^ x) e

double : (b m : ℕ) → b * 2 ^ (m + 1) ≡ b * 2 ^ m + b * 2 ^ m
double b m =
    pow_eq b (m + 1) (suc m) (omega arith)
    ∙ ap (λ x. b * x) (two-pow-succ m)
    ∙ mul-add b (2 ^ m) (2 ^ m)

pub pow_zero : (b m n : ℕ) → n + b * 2 ^ m ≡ n + b * 2 ^ (m + 0)
pow_zero b m n = omega (arith, pow_eq b m (m + 0) (omega arith))

-- One more failure and wait before.
pub Tried-after :
    (base left m : ℕ) {t v u : Trace}
    → deliveries v ≡ deliveries t
    → attempts v ≡ attempts t + 1
    → waiting v ≡ base * 2 ^ m + waiting t
    → Tried base (suc left) (m + 1) v u
    → Tried base (suc (suc left)) m t u
Tried-after base left m d a w (delivered k h d' a' w') =
    delivered (suc k) (omega arith) (omega arith) (omega arith)
      (omega (arith, double base m, pow_eq base (m + 1 + k) (m + suc k) (omega arith)))
Tried-after base left m d a w (lost d' a' w') = lost (omega arith) (omega arith) (
    omega (
      arith,
      double base m,
      pow_eq base (m + 1 + (suc left - 1)) (m + (suc (suc left) - 1)) (omega arith),
    ))

module _ {Db : Type 0} (env : Services Db) where
  abbrev failed : String → Props → ℕ → Erro → Trace → Trace
  failed url p n x t = waited (env.base_ms * 2 ^ (n - 1)) ∷ posted (post_to env url p) (err x) ∷ t

  tentativas-Tried :
      (i : ℕ) (url : String) (p : Props) (left n m : ℕ) (t : Trace)
      → n ≡ m + 1
      → left + n ≡ max_retries
      → Tried env.base_ms (suc left) m t (tentativas env i url p (suc left) n t).1
  unfolding tentativas
  tentativas-Tried i url p zero n m t q h =
      elim (Result-cases (env.http_post i t (post_to env url p))) [
        | inl (s, e) ↦
            rw e (delivered 0 (omega arith) refl (omega arith) (pow_zero env.base_ms m (waiting t)))
        | inr (x, e) ↦
            rw (e, le→not_ltb n max_retries (omega arith))
              (lost refl (omega arith) (pow_zero env.base_ms m (waiting t)))
      ]
  tentativas-Tried i url p (suc l) n m t q h =
      elim (Result-cases (env.http_post i t (post_to env url p))) [
        | inl (s, e) ↦
            rw e (delivered 0 (omega arith) refl (omega arith) (pow_zero env.base_ms m (waiting t)))
        | inr (x, e) ↦
            rw (e, lt→ltb n max_retries (omega arith))
              (Tried-after env.base_ms l m {v = failed url p n x t} refl (omega arith)
                (omega (arith, pow_eq env.base_ms (n - 1) m (omega arith)))
                (tentativas-Tried i url p l (n + 1) (m + 1) (failed url p n x t) (omega arith)
                  (omega arith)))
      ]

-- A POST of the payload to this URL.
pub record ToUrl (url : String) (p : Props) (q : Post) : Type 0 where
  pub target : q.url ≡ url
  pub corpo : q.corpo ≡ json (obj p)

-- The POSTs of the payload to one redirection, and whether one got through.
abbrev pub SentTo : ℕ → String → Props → Trace → Trace → Type 0
SentTo base url p t u =
    (o : Option Erro) × Rounds (ToUrl url p) (λ _. Unit {0}) base max_retries 0 o t u

module _ {Db : Type 0} (env : Services Db) where
  tentativas-Rounds :
      (i : ℕ) (url : String) (p : Props) (left n m : ℕ) (t : Trace)
      → n ≡ m + 1
      → left + n ≡ max_retries
      → (o : Option Erro) × Rounds
          (ToUrl url p)
          (λ _. Unit {0})
          env.base_ms
          (suc left)
          m
          o
          t
          (tentativas env i url p (suc left) n t).1
  unfolding tentativas
  tentativas-Rounds i url p zero n m t q h =
      elim (Result-cases (env.http_post i t (post_to env url p))) [
        | inl (s, e) ↦ rw e (none, through _ s (record { target = refl; corpo = refl }) tt refl)
        | inr (x, e) ↦
            rw (e, le→not_ltb n max_retries (omega arith))
              (some x, gave_up _ x (record { target = refl; corpo = refl }) refl)
      ]
  tentativas-Rounds i url p (suc l) n m t q h =
      elim (Result-cases (env.http_post i t (post_to env url p))) [
        | inl (s, e) ↦ rw e (none, through _ s (record { target = refl; corpo = refl }) tt refl)
        | inr (x, e) ↦
            let (o, rest) =
              tentativas-Rounds i url p l (n + 1) (m + 1) (failed env url p n x t) (omega arith)
                (omega arith) in
            let exponent : n - 1 ≡ m = omega arith in
            rw (e, lt→ltb n max_retries (omega arith))
              (
                o,
                again _ x (record { target = refl; corpo = refl })
                    (subst
                      (λ k.
                        Rounds (ToUrl url p) (λ _. Unit {0}) env.base_ms (suc l) (m + 1) o
                          (waited (env.base_ms * 2 ^ k) ∷ posted (post_to env url p) (err x) ∷ t)
                          (tentativas env i url p (suc l) (n + 1) (failed env url p n x t)).1)
                      exponent rest),
              )
      ]

-- The payload is sent to the URL of each redirection, each delivered to or given up after five
-- attempts, in the trace of its own that stands at its position.
pub data SentAll (base : ℕ) (p : Props) (t : Trace) : List Redirection → List Trace → Type 0 where
  no_more : SentAll base p t [] []
  then_sent :
      {r : Redirection} {rs : List Redirection} {us : List Trace} (u : Trace)
      → Tried base max_retries 0 t u
      → SentTo base r.url p t u
      → SentAll base p t rs us
      → SentAll base p t (r ∷ rs) (u ∷ us)

module _ {Db : Type 0} (env : Services Db) where
  -- Sending throws nothing.
  tentativas_ok :
      (i : ℕ) (url : String) (p : Props) (left n : ℕ) (t : Trace)
      → (tentativas env i url p left n t).0 ≡ ok tt
  unfolding tentativas
  tentativas_ok i url p zero n t = refl
  tentativas_ok i url p (suc l) n t = elim (Result-cases (env.http_post i t (post_to env url p))) [
    | inl (s, e) ↦ rw e refl
    | inr (x, e) ↦ elim (Bool-cases (ltb n max_retries)) [
      | inl more ↦ rw (e, more) (tentativas_ok i url p l (n + 1) (failed env url p n x t))
      | inr last ↦
          rw (e, last) (tentativas_ok i url p l (n + 1) (posted (post_to env url p) (err x) ∷ t))
    ]
  ]

  -- A result and a trace, where the result is known.
  whole : {A B : Type 0} (x : A × B) (a : A) → x.0 ≡ a → x ≡ (a, x.1)
  whole (a, b) c e = cc

  pub enviar_todos-Sent :
      (p : Props) (i : ℕ) (rs : List Redirection) (t : Trace)
      → (aguardar env (enviar_todos env p i rs t) ≡ ok tt)
        × SentAll env.base_ms p t rs (map (λ x. x.1) (enviar_todos env p i rs t))
  unfolding enviar_todos
  enviar_todos-Sent p i [] t = (refl, no_more)
  enviar_todos-Sent p i (r ∷ rs) t =
      let (all, rest) = enviar_todos-Sent p (suc i) rs t in
      (
        rw
            (whole (send_with_retry env i r.url p t) (ok tt)
              (tentativas_ok i r.url p max_retries 1 t))
            all,
        then_sent (send_with_retry env i r.url p t).1
            (tentativas-Tried env i r.url p 4 1 0 t (omega arith) (omega arith))
            (tentativas-Rounds env i r.url p 4 1 0 t (omega arith) (omega arith)) rest,
      )
