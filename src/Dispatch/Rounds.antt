-- ===== src/Dispatch/Rounds.antt =====
-- One round of the retry loop of src/dispatch/dispatch-handler.service.ts.
use whiz_gateway.Base.{
  ℕ, suc, ◌+◌, ◌-◌, ◌*◌, ◌^◌, ◌≤◌, ◌<◌, ◌≡◌, some, ◌∷◌, true, false, ltb, arith,
}
use whiz_gateway.Json.{Json}
use whiz_gateway.Effects.{
  Trace, continue-done, Result, ok, err, Erro, Morta, posted, waited, counted, enqueued,
  despacho_sucesso, despacho_duracao, despacho_falha, dlq_enfileiramento,
}
use whiz_gateway.Records.{Inbox, Ambiente}
use whiz_gateway.Dispatch.{Services, post_to, status_final, tentativas}

pub lt→ltb : (a b : ℕ) → a < b → ltb a b ≡ true
lt→ltb a b h = ground arith

pub le→not_ltb : (a b : ℕ) → b ≤ a → ltb a b ≡ false
le→not_ltb a b h = ground arith

module _ (env : Services) (inbox : Inbox) (a : Ambiente) (p : Json) where
  abbrev pub answered : Result ℕ → Trace → Trace
  answered r t = posted (post_to env a p) r ∷ t

  abbrev pub pause : ℕ → ℕ
  pause n = env.base_ms * 2 ^ (n - 1)

  abbrev pub carta : Erro → Morta
  carta x = record { message = p; id_inbox = some inbox.id; status = status_final env x }

  pub tentativas-ok :
      (left n : ℕ) (t : Trace) {s : ℕ}
      → env.http_post t (post_to env a p) ≡ ok s
      → tentativas env inbox a p (suc left) n t
        ≡ (ok tt, counted despacho_duracao ∷ counted despacho_sucesso ∷ answered (ok s) t)
  unfolding tentativas
  tentativas-ok left n t e = rw e

  pub tentativas-retry :
      (left n : ℕ) (t : Trace) {x : Erro}
      → env.http_post t (post_to env a p) ≡ err x
      → n < env.max_retries
      → tentativas env inbox a p (suc left) n t
        ≡ tentativas env inbox a p left (n + 1) (waited (pause n) ∷ answered (err x) t)
  unfolding tentativas
  tentativas-retry left n t e h = rw (e, lt→ltb _ _ h)

  abbrev given_up : Erro → Trace → Trace
  given_up x t =
      counted dlq_enfileiramento
      ∷ counted despacho_duracao
      ∷ counted despacho_falha
      ∷ answered (err x) t

  pub tentativas-give_up :
      (n : ℕ) (t : Trace) {x : Erro}
      → env.http_post t (post_to env a p) ≡ err x
      → env.max_retries ≤ n
      → let r = env.send_to_queue (given_up x t) (carta x) in
        tentativas env inbox a p 1 n t ≡ (r, enqueued (carta x) r ∷ given_up x t)
  unfolding tentativas
  tentativas-give_up n t {x} e h = rw (e, le→not_ltb _ _ h) (continue-done _ _)
