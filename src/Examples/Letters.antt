-- ===== src/Examples/Letters.antt =====
-- The stored dead letters on a concrete table.
use mathlib.Core.Bool.{false≢true}
use whiz_gateway.Base.{
  Option, ℕ, ◌+◌, ◌≡◌, ◌≢◌, ◌≤◌, ◌↔◌, refl, sym, ap, ◌∙◌, String, none, some, List, [], ◌∷◌, In,
  here, there, true, false, ◌⊎◌, inl, inr, arith, eq_iff,
}
use whiz_gateway.Json.{Json, str, obj}
use whiz_gateway.Effects.{falha_envio, nack_recebido, ok, Morta}
use whiz_gateway.Table.Rows.{
  rows, find, visible, without, text_key, update_found, create_unless, accept, blocked,
  In-visible_from,
}
use whiz_gateway.Table.Logs.{Log, LawfulLog}
use whiz_gateway.Table.Logs.Rows.{logs, ordered, remove, logs-LawfulLog}
use whiz_gateway.Table.Logs.Sorting.{sort, insert}
use whiz_gateway.Resend.{Mensagem}
use whiz_gateway.DeadLetters as dl
use whiz_gateway.DeadLetters.Lists as lists
use whiz_gateway.DeadLetters.Lifecycle as life
use whiz_gateway.DeadLetters.Consumer as consumer
use whiz_gateway.DeadLetters.Stored as stored
use whiz_gateway.DeadLetters.Resends as resends
use whiz_gateway.Examples.Deliveries.{inbox_of, producao, webhook}

abbrev letters : Log String Mensagem (List Mensagem)
letters = logs text_key (λ m. m.id) (λ r s. false) lists.instant

letters-LawfulLog : LawfulLog letters lists.instant
letters-LawfulLog = logs-LawfulLog text_key (λ m. m.id) (λ r s. false) lists.instant

letters-Sound : life.Sound letters
unfolding logs rows
letters-Sound = record { lawful = letters-LawfulLog; key_id = λ m. refl }

abbrev letter : String → ℕ → Mensagem
letter id agora = record {
  id = id;
  message = obj webhook;
  id_inbox = some "a";
  status = falha_envio;
  reenviado = false;
  del = false;
  data_ms = agora;
}

abbrev two : List Mensagem
two = letter "x" 10 ∷ letter "y" 20 ∷ []

abbrev filter : dl.ListQuery
filter = record {
  pid = none;
  id_inbox = some "a";
  status = some falha_envio;
  reenviado = some false;
  data_inicio = some "1970";
  data_fim = none;
  limit = none;
  offset = none;
}

abbrev dates : dl.Dates
dates s = some 5

find_many-Listing_example :
    lists.Listing letters dates two filter (letter "y" 20 ∷ letter "x" 10 ∷ [])
unfolding dl.find_many dl.matches logs ordered visible without sort insert
find_many-Listing_example =
    lists.find_many-Listing letters dates two filter (letter "y" 20 ∷ letter "x" 10 ∷ [])
      letters-LawfulLog refl

which :
    (m : Mensagem)
    → In m (visible text_key (λ r. r.id) (λ r s. false) two)
    → (m ≡ letter "x" 10) ⊎ (m ≡ letter "y" 20)
unfolding visible without
which m (here e) = inl e
which m (there (here e)) = inr e
which m (there (there i)) = elim i [ ]

two_apart :
    (r s : Mensagem)
    → lists.Wanted letters dates two filter r
    → lists.Wanted letters dates two filter s
    → r.data_ms ≡ s.data_ms
    → r ≡ s
unfolding logs rows
two_apart r s wr ws e =
    go (which r (In-visible_from text_key (λ m. m.id) (λ x y. false) r two wr.found))
      (which s (In-visible_from text_key (λ m. m.id) (λ x y. false) s two ws.found))
  where
    go :
        (r ≡ letter "x" 10) ⊎ (r ≡ letter "y" 20)
        → (s ≡ letter "x" 10) ⊎ (s ≡ letter "y" 20)
        → r ≡ s
    go (inl a) (inl b) = a ∙ sym b
    go (inl a) (inr b) =
        let c : 10 ≡ 20 = sym (ap (λ m. m.data_ms) a) ∙ e ∙ ap (λ m. m.data_ms) b in
        let absurd : ⊥ = omega (arith, c) in elim absurd [ ]
    go (inr a) (inl b) =
        let c : 20 ≡ 10 = sym (ap (λ m. m.data_ms) a) ∙ e ∙ ap (λ m. m.data_ms) b in
        let absurd : ⊥ = omega (arith, c) in elim absurd [ ]
    go (inr a) (inr b) = a ∙ sym b

find_many-join_example :
    dl.find_many letters dates two (lists.with_page filter 2 0)
    ≡ ok (letter "y" 20 ∷ letter "x" 10 ∷ [])
unfolding dl.find_many dl.matches logs ordered visible without sort insert
find_many-join_example =
    lists.find_many-join letters dates two filter 1 1 0 (letter "y" 20 ∷ []) (letter "x" 10 ∷ [])
      letters-LawfulLog two_apart refl refl

-- The message x is removed, another is stored and the table is cleaned up.
abbrev later_ops : List life.Op
later_ops =
    life.stored "z" 30 (record { message = str "m"; id_inbox = none; status = nack_recebido })
    ∷ (life.cleaned 40 ∷ [])

soft_delete-Hidden_example : (letter "y" 20).id ≢ "x"
unfolding dl.find_many dl.matches dl.soft_delete life.run life.apply dl.create dl.handle_cron
    dl.hard_delete_older_than logs rows ordered remove visible without sort insert find update_found
    create_unless accept blocked
soft_delete-Hidden_example =
    life.soft_delete-Hidden letters dates two (record (letter "x" 10) { del = true } ∷ two) "x"
      later_ops filter (letter "y" 20 ∷ []) (letter "y" 20) letters-Sound
      ((λ e. false≢true ((eq_iff "z" "x").1 e)), (tt, tt)) refl refl (here refl)

abbrev agora : ℕ
agora = dl.thirty_days_ms + 15

handle_cron_iff_example :
    ((find text_key (λ r. r.id) (λ r s. false) (letter "y" 20 ∷ []) "y" ≡ some (letter "y" 20)) ↔ (
      (find text_key (λ r. r.id) (λ r s. false) two "y" ≡ some (letter "y" 20))
      × (agora ≤ 20 + dl.thirty_days_ms)))
unfolding dl.handle_cron dl.hard_delete_older_than logs rows ordered remove visible without find
handle_cron_iff_example =
    life.handle_cron_iff letters two (letter "y" 20 ∷ []) agora 1 "y" (letter "y" 20)
      letters-LawfulLog refl

abbrev body : Morta
body = record { message = obj webhook; id_inbox = some "a"; status = nack_recebido }

-- A buffer stands for the value that was written to it.
abbrev kept_value : consumer.Codec Json
kept_value = record { stringify = λ v. v; parse = λ v. ok v }

known : (o : Option String) → true ≡ stored.refers (λ i. true) o
known none = refl
known (some i) = refl

consume-send_example :
    stored.Consumed letters
      (λ i. true)
      two
      "z"
      30
      body
      (consumer.consume letters kept_value two "z" 30
        (consumer.send_to_queue kept_value (consumer.json_of body)))
unfolding logs rows find
consume-send_example =
    stored.consume-send letters kept_value (λ i. true) two "z" 30 body letters-Sound
      (record { parse-stringify = λ v. refl }) (λ r. known r.id_inbox) (λ r s. refl) (λ e. cc) refl

abbrev again : resends.Services
again = record {
  find_by_id = λ t id. ok (some (letter "x" 10));
  find_inbox = λ t id. ok (some (inbox_of id));
  find_ambiente = λ t n. ok (some producao);
  http_post = λ t p. ok 200;
  mark_reenviado = λ t id. ok tt;
  callback_secret = none;
}

resend-Outcome_example : resends.Outcome again "x" [] (resends.resend again "x" [])
resend-Outcome_example = resends.resend-Outcome again "x" []
