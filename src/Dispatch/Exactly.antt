-- ===== src/Dispatch/Exactly.antt =====
-- On `handle` of src/dispatch/dispatch-handler.service.ts, where the services answer.
use whiz_gateway.Base.{
  ℕ, zero, suc, ◌+◌, String, ◌≡◌, refl, ap, subst, ◌∙◌, ◌∷◌, false, In, here, there, arith, Option,
  none, some, inl, inr,
}
use whiz_gateway.Json.{Json}
use whiz_gateway.Effects.{Trace, ok, err, Morta, Result-cases, waited, Post, json}
use whiz_gateway.Effects.Counts.{successes, dead_letters}
use whiz_gateway.Effects.Keeps.{if_split}
use whiz_gateway.Records.{Inbox, Ambiente}
use whiz_gateway.Dispatch.{
  Services, post_to, enviar_para_dlq, tentativas, com_ambiente, com_inbox, handle,
}
use whiz_gateway.Dispatch.Rounds.{
  tentativas-ok, tentativas-retry, tentativas-give_up, carta, answered, pause,
}
use whiz_gateway.Dispatch.Once.{started}
use whiz_gateway.Dispatch.Environments.{Answers, Source, get_ambiente-Quiet}

-- From `t` to `u` there is one delivery, by such a POST, and no dead letter, or no delivery and one
-- dead letter, which carries the payload and the inbox.
pub data Ended (To : Post → Type 0) (inbox_id : String) (payload : Json) (t u : Trace)
    : Type 0 where
  delivered :
      (q : Post)
      → To q
      → successes u ≡ q ∷ successes t
      → dead_letters u ≡ dead_letters t
      → Ended To inbox_id payload t u
  dead :
      (m : Morta)
      → successes u ≡ successes t
      → dead_letters u ≡ m ∷ dead_letters t
      → m.message ≡ payload
      → m.id_inbox ≡ some inbox_id
      → Ended To inbox_id payload t u

-- What happens before does not count, if it delivers nothing and gives no dead letter.
pub Ended-after :
    {To : Post → Type 0} {id : String} {p : Json} {t u v : Trace}
    → successes u ≡ successes t
    → dead_letters u ≡ dead_letters t
    → Ended To id p u v
    → Ended To id p t v
Ended-after d l (delivered q h d' l') = delivered q h (d' ∙ ap (λ x. q ∷ x) d) (l' ∙ l)
Ended-after d l (dead m d' l' e i) = dead m (d' ∙ d) (l' ∙ ap (λ x. m ∷ x) l) e i

pub Ended-To :
    {To Also : Post → Type 0} {id : String} {p : Json} {t u : Trace}
    → ((q : Post) → To q → Also q)
    → Ended To id p t u
    → Ended Also id p t u
Ended-To f (delivered q h d l) = delivered q (f q h) d l
Ended-To f (dead m d l e i) = dead m d l e i

-- A POST of this payload to the URL of the environment, with the configured secret.
pub record ToAmbiente (env : Services) (a : Ambiente) (payload : Json) (q : Post) : Type 0 where
  pub url : q.url ≡ a.url
  pub corpo : q.corpo ≡ json payload
  pub secret : In ("x-callback-secret", env.callback_secret) q.headers

-- A POST of this payload to the environment of the inbox, neither of them deleted.
pub record ToInbox (env : Services) (t : Trace) (inbox_id : String) (payload : Json) (q : Post)
    : Type 0 where
  pub inbox : Inbox
  pub ambiente : Ambiente
  pub registered : env.find_inbox t inbox_id ≡ ok (some inbox)
  pub kept : inbox.del ≡ false
  pub source : Source env t inbox.id_ambiente ambiente
  pub in_use : ambiente.del ≡ false
  pub post : ToAmbiente env ambiente payload q

module _ (env : Services) (good : Answers env) where
  enviar_para_dlq-Ended :
      {To : Post → Type 0} (m : Morta) (id : String) (t : Trace)
      → m.id_inbox ≡ some id
      → Ended To id m.message t (enviar_para_dlq env m t).1
  unfolding enviar_para_dlq
  enviar_para_dlq-Ended m id t e = rw good.queue (dead m refl refl refl e)

  module _ (inbox : Inbox) (a : Ambiente) (p : Json) where
    to_ambiente : ToAmbiente env a p (post_to env a p)
    to_ambiente = record { url = refl; corpo = refl; secret = there (here refl) }

    tentativas-Ended :
        (l n : ℕ) (t : Trace)
        → n + l ≡ env.max_retries
        → Ended (ToAmbiente env a p) inbox.id p t (tentativas env inbox a p (suc l) n t).1
    tentativas-Ended zero n t h = elim (Result-cases (env.http_post t (post_to env a p))) [
      | inl (s, e) ↦ rw (tentativas-ok env inbox a p 0 n t e) (delivered _ to_ambiente refl refl)
      | inr (x, e) ↦
          rw (tentativas-give_up env inbox a p n t e (omega arith), good.queue)
            (dead (carta env inbox a p x) refl refl refl refl)
    ]
    tentativas-Ended (suc l) n t h = elim (Result-cases (env.http_post t (post_to env a p))) [
      | inl (s, e) ↦
          rw (tentativas-ok env inbox a p (suc l) n t e) (delivered _ to_ambiente refl refl)
      | inr (x, e) ↦ rw (tentativas-retry env inbox a p (suc l) n t e (omega arith)) (
          Ended-after refl refl (
            tentativas-Ended l (n + 1)
              (waited (pause env inbox a p n) ∷ answered env inbox a p (err x) t) (omega arith)))
    ]

  -- `tentativas` from the first round, for a positive number of rounds
  tentativas_all :
      (inbox : Inbox) (a : Ambiente) (p : Json) (k : ℕ) (t : Trace)
      → k ≡ env.max_retries
      → Ended (ToAmbiente env a p) inbox.id p t (tentativas env inbox a p k 1 t).1
  tentativas_all inbox a p zero t h = absurd (omega (arith, good.rounds))
  tentativas_all inbox a p (suc l) t h = tentativas-Ended inbox a p l 1 t (omega arith)

  -- A POST to this environment, where there is one that is not deleted.
  pub record ToFound (o : Option Ambiente) (p : Json) (q : Post) : Type 0 where
    pub ambiente : Ambiente
    pub found : o ≡ some ambiente
    pub in_use : ambiente.del ≡ false
    pub post : ToAmbiente env ambiente p q

  com_ambiente-Ended :
      (i : Inbox) (p : Json) (a : Option Ambiente) (t : Trace)
      → Ended (ToFound a p) i.id p t (com_ambiente env i p a t).1
  unfolding com_ambiente
  com_ambiente-Ended i p none t = enviar_para_dlq-Ended _ i.id t refl
  com_ambiente-Ended i p (some a) t =
      if_split (λ r. Ended (ToFound (some a) p) i.id p t r.1) a.del _ _ t
        (λ gone. enviar_para_dlq-Ended _ i.id t refl)
        (λ kept.
          Ended-To (λ q h. record { ambiente = a; found = refl; in_use = kept; post = h })
            (tentativas_all i a p env.max_retries t refl))

  com_inbox-Ended :
      (id : String) (p : Json) (i : Option Inbox) (t : Trace)
      → env.find_inbox t id ≡ ok i
      → Ended (ToInbox env t id p) id p t (com_inbox env id p i t).1
  unfolding com_inbox
  com_inbox-Ended id p none t e = enviar_para_dlq-Ended _ id t refl
  com_inbox-Ended id p (some i) t e =
      let same = good.inbox_id t id i e in
      if_split (λ r. Ended (ToInbox env t id p) id p t r.1) i.del _ _ t
        (λ gone. enviar_para_dlq-Ended _ id t (ap some same))
        (λ kept.
          let q = get_ambiente-Quiet env good i.id_ambiente t in
          rw q.answer (
            Ended-after q.same_successes q.same_letters (
              Ended-To
                (λ r h. record {
                  inbox = i;
                  ambiente = h.ambiente;
                  registered = e;
                  kept = kept;
                  source = q.source h.ambiente h.found;
                  in_use = h.in_use;
                  post = h.post;
                })
                (subst
                  (λ x.
                    Ended (ToFound q.found p) x p q.after (com_ambiente env i p q.found q.after).1)
                  same (com_ambiente-Ended i p q.found q.after)))))

-- Where the repositories, Redis and the broker answer, what Redis holds of an environment is the JSON
-- of one and at least one round is configured, a dispatch ends in exactly one way: the payload is
-- delivered, by one POST to the URL of the environment of the inbox, with the configured secret, or
-- the dead-letter queue takes one message with the payload and the inbox's id.
pub handle-Ended :
    (env : Services) (inbox_id : String) (payload : Json) (t : Trace)
    → Answers env
    → Ended
        (ToInbox env (started payload t) inbox_id payload)
        inbox_id
        payload
        t
        (handle env inbox_id payload t).1
unfolding handle
handle-Ended env inbox_id payload t good =
    let (i, e) = good.inbox (started payload t) inbox_id in
    rw e (Ended-after refl refl (com_inbox-Ended env good inbox_id payload i (started payload t) e))
