-- ===== src/Dispatch/Once.antt =====
-- On `handle` of src/dispatch/dispatch-handler.service.ts, whatever the services answer or throw.
use whiz_gateway.Base.{
  ℕ, zero, suc, ◌+◌, ◌≤◌, String, ◌≡◌, refl, ◌∷◌, arith, Option, none, some, inl, inr,
}
use whiz_gateway.Json.{Json}
use whiz_gateway.Effects.{
  Trace, Result, ok, err, Erro, Morta, Result-cases, enqueued, waited, redirected, counted,
  despacho_tentativa, continue,
}
use whiz_gateway.Effects.Counts.{outcomes, attempts}
use whiz_gateway.Effects.Keeps.{if_both, continue_rule}
use whiz_gateway.Records.{Inbox, Ambiente}
use whiz_gateway.Dispatch.{
  Services, post_to, enviar_para_dlq, tentativas, com_ambiente, com_inbox, get_ambiente, handle,
}
use whiz_gateway.Dispatch.Rounds.{
  tentativas-ok, tentativas-retry, tentativas-give_up, carta, answered, pause,
}

-- The trace when a dispatch has begun.
abbrev pub started : Json → Trace → Trace
started p t = redirected p ∷ counted despacho_tentativa ∷ t

-- From `t` to `u` there is at most one more outcome, and at most `k` more attempts.
pub record AtMost (k : ℕ) (t u : Trace) : Type 0 where
  pub outcome : outcomes u ≤ outcomes t + 1
  pub attempt : attempts u ≤ attempts t + k

outcomes-enqueued :
    (m : Morta) (r : Result (Unit {0})) (t : Trace)
    → (outcomes (enqueued m r ∷ t) ≤ outcomes t + 1) × (attempts (enqueued m r ∷ t) ≡ attempts t)
outcomes-enqueued m (ok _) t = omega arith
outcomes-enqueued m (err _) t = omega arith

module _ (env : Services) where
  enviar_para_dlq-AtMost : (m : Morta) (t : Trace) (k : ℕ) → AtMost k t (enviar_para_dlq env m t).1
  unfolding enviar_para_dlq
  enviar_para_dlq-AtMost m t k = ground (arith, outcomes-enqueued m (env.send_to_queue _ m) t)

  module _ (inbox : Inbox) (a : Ambiente) (p : Json) where
    abbrev again : Erro → ℕ → Trace → Trace
    again x n t = waited (pause env inbox a p n) ∷ answered env inbox a p (err x) t

    tentativas-AtMost :
        (left n : ℕ) (t : Trace)
        → n + left ≡ env.max_retries + 1
        → AtMost left t (tentativas env inbox a p left n t).1
    tentativas-AtMost zero n t h = unfold tentativas in omega arith
    tentativas-AtMost (suc zero) n t h = elim (Result-cases (env.http_post t (post_to env a p))) [
      | inl (s, e) ↦ rw (tentativas-ok env inbox a p 0 n t e) (omega arith)
      | inr (x, e) ↦
          rw (tentativas-give_up env inbox a p n t e (omega arith))
            (omega (arith, outcomes-enqueued (carta env inbox a p x)))
    ]
    tentativas-AtMost (suc (suc l)) n t h =
        elim (Result-cases (env.http_post t (post_to env a p))) [
          | inl (s, e) ↦ rw (tentativas-ok env inbox a p (suc l) n t e) (omega arith)
          | inr (x, e) ↦
              rw (tentativas-retry env inbox a p (suc l) n t e (omega arith))
                (omega (arith, tentativas-AtMost (suc l) (n + 1) (again x n t) (omega arith)))
        ]

  get_ambiente_quiet :
      (id : ℕ) (t : Trace)
      → (outcomes (get_ambiente env id t).1 ≡ outcomes t)
        × (attempts (get_ambiente env id t).1 ≡ attempts t)
  unfolding get_ambiente
  get_ambiente_quiet id t = ground arith

  com_ambiente-AtMost :
      (i : Inbox) (p : Json) (a : Option Ambiente) (t : Trace)
      → AtMost env.max_retries t (com_ambiente env i p a t).1
  unfolding com_ambiente
  com_ambiente-AtMost i p none t = enviar_para_dlq-AtMost _ t _
  com_ambiente-AtMost i p (some a) t =
      if_both (λ r. AtMost env.max_retries t r.1) a.del _ _ t (enviar_para_dlq-AtMost _ t _)
        (tentativas-AtMost i a p env.max_retries 1 t (omega arith))

  AtMost-quiet :
      {k : ℕ} {t u v : Trace}
      → (outcomes u ≡ outcomes t) × (attempts u ≡ attempts t)
      → AtMost k u v
      → AtMost k t v
  AtMost-quiet q h = omega arith

  com_inbox-AtMost :
      (id : String) (p : Json) (i : Option Inbox) (t : Trace)
      → AtMost env.max_retries t (com_inbox env id p i t).1
  unfolding com_inbox
  com_inbox-AtMost id p none t = enviar_para_dlq-AtMost _ t _
  com_inbox-AtMost id p (some i) t =
      if_both (λ r. AtMost env.max_retries t r.1) i.del _ _ t (enviar_para_dlq-AtMost _ t _)
        (continue_rule (λ r. AtMost env.max_retries t r.1) _ (get_ambiente env i.id_ambiente t)
          (λ a. AtMost-quiet (get_ambiente_quiet i.id_ambiente t) (com_ambiente-AtMost i p a _))
          (λ u e x. rw e (omega (arith, get_ambiente_quiet i.id_ambiente t))))

-- Whatever the services answer or throw, a dispatch throws nothing, makes at most one delivery or
-- dead letter, not both, and at most as many attempts as are configured.
pub handle-AtMost :
    (env : Services) (inbox_id : String) (payload : Json) (t : Trace)
    → ((handle env inbox_id payload t).0 ≡ ok tt)
      × AtMost env.max_retries t (handle env inbox_id payload t).1
unfolding handle
handle-AtMost env inbox_id payload t = (refl, found (env.find_inbox _ inbox_id))
  where
    found :
        (r : Result (Option Inbox))
        → AtMost env.max_retries t
            (continue (com_inbox env inbox_id payload) (r, started payload t)).1
    found (ok i) =
        AtMost-quiet env {k = env.max_retries} {t = t} (refl, refl)
          (com_inbox-AtMost env inbox_id payload i (started payload t))
    found (err e) = omega arith
