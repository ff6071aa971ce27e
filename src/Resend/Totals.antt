-- ===== src/Resend/Totals.antt =====
-- On `resend` of src/resend/resend.service.ts: the loop as a relation, and the report.
use whiz_gateway.Base.{
  ℕ, suc, ◌+◌, String, ◌≡◌, refl, ◌∙◌, Option, none, some, List, [], ◌∷◌, map, length, arith, inl,
  inr, Option-cases,
}
use whiz_gateway.Effects.{Result, ok, err, Erro, Trace, Result-cases, marked}
use whiz_gateway.Records.{Inbox}
use whiz_gateway.Dispatch as dispatch
use whiz_gateway.Resend.{
  Mensagem, ResendInput, ResendResult, Services, truthy_text, filtro_de, candidatas, zeros, uma,
  reenviar_todas, resend_from, com_inboxes, com_pid, resend,
}

-- The trace after the dispatch of a message.
abbrev pub dispatched_to : Services → String → Mensagem → Trace → Trace
dispatched_to env id m t = (dispatch.handle env.outside id m.message t).1

-- From `t` to `u` the messages are dispatched one after the other, those without an inbox left out,
-- and each is marked after its dispatch: `r` are counted as sent, `f` as failures.
pub data Resent (env : Services) : List Mensagem → ℕ → ℕ → Trace → Trace → Type 0 where
  none_left : {t : Trace} → Resent env [] 0 0 t t
  without_inbox :
      {m : Mensagem} {ms : List Mensagem} {r f : ℕ} {t u : Trace}
      → truthy_text m.id_inbox ≡ none
      → Resent env ms r f t u
      → Resent env (m ∷ ms) r (suc f) t u
  sent :
      {m : Mensagem} {ms : List Mensagem} {r f : ℕ} {t u : Trace} (id : String)
      → truthy_text m.id_inbox ≡ some id
      → env.mark_reenviado (dispatched_to env id m t) m.id ≡ ok tt
      → Resent env ms r f (marked m.id (ok tt) ∷ dispatched_to env id m t) u
      → Resent env (m ∷ ms) (suc r) f t u
  unmarked :
      {m : Mensagem} {ms : List Mensagem} {r f : ℕ} {t u : Trace} (id : String) (e : Erro)
      → truthy_text m.id_inbox ≡ some id
      → env.mark_reenviado (dispatched_to env id m t) m.id ≡ err e
      → Resent env ms r f (marked m.id (err e) ∷ dispatched_to env id m t) u
      → Resent env (m ∷ ms) r (suc f) t u

Resent-length :
    {env : Services} {ms : List Mensagem} {r f : ℕ} {t u : Trace}
    → Resent env ms r f t u
    → length ms ≡ r + f
Resent-length none_left = refl
Resent-length (without_inbox _ s) = omega (arith, Resent-length s)
Resent-length (sent _ _ _ s) = omega (arith, Resent-length s)
Resent-length (unmarked _ _ _ _ s) = omega (arith, Resent-length s)

-- The loop answers, with its counters raised by those of the messages.
record Looped (env : Services) (ms : List Mensagem) (a b : ℕ) (t : Trace) : Type 0 where
  r : ℕ
  f : ℕ
  after : Trace
  answer : reenviar_todas env ms a b t ≡ (ok (a + r, b + f), after)
  relation : Resent env ms r f t after

module _ (env : Services) where
  uma-handled :
      (id : String) (m : Mensagem) (t : Trace)
      → uma env (some id) m t ≡ (
        ok (env.mark_reenviado (dispatched_to env id m t) m.id),
        marked m.id (env.mark_reenviado (dispatched_to env id m t) m.id) ∷ dispatched_to env id m t,
      )
  unfolding dispatch.handle
  uma-handled id m t = refl

  counted :
      {x x' y y' : ℕ} {u : Trace}
      → x ≡ x'
      → y ≡ y'
      → ◌≡◌ {A = Result (ℕ × ℕ) × Trace} (ok (x, y), u) (ok (x', y'), u)
  counted e f = cc

  reenviar_todas-Looped : (ms : List Mensagem) (a b : ℕ) (t : Trace) → Looped env ms a b t
  unfolding reenviar_todas
  reenviar_todas-Looped [] a b t = record {
    r = 0;
    f = 0;
    after = t;
    answer = counted (omega arith) (omega arith);
    relation = none_left;
  }
  reenviar_todas-Looped (m ∷ ms) a b t = elim (Option-cases (truthy_text m.id_inbox)) [
    | inl no_inbox ↦
        let l = reenviar_todas-Looped ms a (b + 1) t in
        record {
          r = l.r;
          f = suc l.f;
          after = l.after;
          answer = rw no_inbox (l.answer ∙ counted refl (omega arith));
          relation = without_inbox no_inbox l.relation;
        }
    | inr (id, e) ↦ elim (Result-cases (env.mark_reenviado (dispatched_to env id m t) m.id)) [
      | inl (s, good) ↦
          let l =
            reenviar_todas-Looped ms (a + 1) b (marked m.id (ok tt) ∷ dispatched_to env id m t) in
          record {
            r = suc l.r;
            f = l.f;
            after = l.after;
            answer = rw (e, uma-handled id m t, good) (l.answer ∙ counted (omega arith) refl);
            relation = sent id e good l.relation;
          }
      | inr (x, bad) ↦
          let l =
            reenviar_todas-Looped ms a (b + 1) (marked m.id (err x) ∷ dispatched_to env id m t) in
          record {
            r = l.r;
            f = suc l.f;
            after = l.after;
            answer = rw (e, uma-handled id m t, bad) (l.answer ∙ counted refl (omega arith));
            relation = unmarked id x e bad l.relation;
          }
    ]
  ]

-- The reads of the repositories answer.
pub record Answers (env : Services) : Type 0 where
  pub pid : (t : Trace) (p : String) → (is : List Inbox) × (env.find_all_by_pid t p ≡ ok is)
  pub many :
      (t : Trace) (input : ResendInput) (ids : List String)
      → (ms : List Mensagem) × (env.find_many t (filtro_de input ids) ≡ ok ms)

-- The ids of the inboxes by which the messages are chosen: none where no number is asked for, else
-- those of the number, of which there is one or more.
pub data Chosen (env : Services) (input : ResendInput) (t : Trace) : List String → Type 0 where
  everyone : truthy_text input.pid ≡ none → Chosen env input t []
  of_number :
      (pid : String) (i : Inbox) (is : List Inbox)
      → truthy_text input.pid ≡ some pid
      → env.find_all_by_pid t pid ≡ ok (i ∷ is)
      → Chosen env input t (map (λ x. x.id) (i ∷ is))

-- What a resend reports, and did: nothing for a number without inbox; else it resent the candidates
-- of the messages that the repository gave.
pub data Report (env : Services) (input : ResendInput) (t u : Trace) (r : ResendResult)
    : Type 0 where
  nobody :
      (pid : String)
      → truthy_text input.pid ≡ some pid
      → env.find_all_by_pid t pid ≡ ok []
      → r ≡ zeros
      → u ≡ t
      → Report env input t u r
  served :
      (ids : List String) (ms : List Mensagem)
      → Chosen env input t ids
      → env.find_many t (filtro_de input ids) ≡ ok ms
      → Resent env (candidatas input ids ms) r.reenviadas r.falhas t u
      → r.total ≡ length (candidatas input ids ms)
      → r.total ≡ r.reenviadas + r.falhas
      → Report env input t u r

module _ (env : Services) (input : ResendInput) (t : Trace) (good : Answers env) where
  abbrev Reported : Result ResendResult × Trace → Type 0
  Reported x = (r : ResendResult) × (u : Trace) × (x ≡ (ok r, u)) × Report env input t u r

  from-Reported :
      (ids : List String) → Chosen env input t ids → Reported (resend_from env input ids t)
  unfolding resend_from
  from-Reported ids chosen =
      let (ms, e) = good.many t input ids in
      let l = reenviar_todas-Looped env (candidatas input ids ms) 0 0 t in
      (
        record { total = length (candidatas input ids ms); reenviadas = l.r; falhas = l.f },
        l.after,
        rw (e, l.answer ∙ counted env {x' = l.r} {y' = l.f} (omega arith) (omega arith)) refl,
        served ids ms chosen e l.relation refl (Resent-length l.relation),
      )

  inboxes-Reported :
      (pid : String) (is : List Inbox)
      → truthy_text input.pid ≡ some pid
      → env.find_all_by_pid t pid ≡ ok is
      → Reported (com_inboxes env input is t)
  inboxes-Reported pid [] p e = (zeros, t, refl, nobody pid p e refl refl)
  inboxes-Reported pid (i ∷ is) p e =
      from-Reported (map (λ x. x.id) (i ∷ is)) (of_number pid i is p e)

  pid-Reported : (o : Option String) → truthy_text input.pid ≡ o → Reported (com_pid env input o t)
  pid-Reported none p = from-Reported [] (everyone p)
  pid-Reported (some pid) p =
      let (is, e) = good.pid t pid in
      let (r, u, q, report) = inboxes-Reported pid is p e in (r, u, rw e q, report)

-- Where the reads of the repositories answer, a resend answers with the number of the messages that
-- it chose and two counts whose sum it is: of these messages, each with an inbox is dispatched, in
-- their order, and counted in the first exactly if marking it answers, also where its dispatch ended
-- in a dead letter; all others are counted in the second.
pub resend-Report :
    (env : Services) (input : ResendInput) (t : Trace)
    → Answers env
    → (r : ResendResult) × (u : Trace) × (resend env input t ≡ (ok r, u)) × Report env input t u r
unfolding resend
resend-Report env input t good = pid-Reported env input t good (truthy_text input.pid) refl
