-- ===== src/DeadLetters/Stored.antt =====
-- From `enviarParaDlq` over the queue into the table, and out again by `findById`.
use mathlib.Core.Bool.{false≢true}
use whiz_gateway.Base.{
  ℕ, ◌≡◌, ◌↔◌, ◌≢◌, refl, sym, ap, ◌∙◌, Bool-cases, inl, inr, String, Bool, true, false, Option,
  none, some,
}
use whiz_gateway.Json.{Json, str, num, bool, null, obj, arr, lookup}
use whiz_gateway.Effects.{
  Erro, Result, ok, err, Morta, StatusFalha, inbox_nao_registrada, falha_enfileiramento,
  nack_recebido, falha_envio, ambiente_indisponivel, assinatura_invalida,
}
use whiz_gateway.Table.Logs.{Log}
use whiz_gateway.Resend.{Mensagem}
use whiz_gateway.DeadLetters.{create, new_row, repo_find_by_id, find_by_id, or_absent}
use whiz_gateway.DeadLetters.Consumer.{
  Codec, json_of, status_text, status_of, text_or_null, as_text, as_message, letter_of,
  send_to_queue, consume,
}
use whiz_gateway.DeadLetters.Lifecycle.{Sound}

-- What is written is read back, as JavaScript's JSON does for a parsed value.
pub record LawfulCodec {Bytes : Type 0} (codec : Codec Bytes) : Type 0 where
  pub parse-stringify : (v : Json) → codec.parse (codec.stringify v) ≡ ok v

as_status_lem : (s : StatusFalha) → status_of (status_text s) ≡ ok s
unfolding status_of
as_status_lem inbox_nao_registrada = refl
as_status_lem falha_enfileiramento = refl
as_status_lem nack_recebido = refl
as_status_lem falha_envio = refl
as_status_lem ambiente_indisponivel = refl
as_status_lem assinatura_invalida = refl

as_text_lem : (o : Option String) → as_text (some (text_or_null o)) ≡ ok o
as_text_lem none = refl
as_text_lem (some s) = refl

as_message_lem : (v : Json) → v ≢ null → as_message (some v) ≡ ok v
as_message_lem null n = elim (n refl) [ ]
as_message_lem (str s) n = refl
as_message_lem (num x) n = refl
as_message_lem (bool b) n = refl
as_message_lem (obj o) n = refl
as_message_lem (arr v) n = refl

letter_of-json_of : (m : Morta) → m.message ≢ null → letter_of (json_of m) ≡ ok m
unfolding letter_of lookup
letter_of-json_of m n =
    rw (as_message_lem m.message n, as_text_lem m.id_inbox, as_status_lem m.status) refl

other_key : {id j : String} (b : Bool) → ((b ≡ true) ↔ (id ≡ j)) → j ≢ id → b ≡ false
other_key true iff n = elim (n (sym (iff.0 refl))) [ ]
other_key false iff n = refl

-- Whether the inbox of a dead letter, if it names one, is registered.
abbrev pub refers : (String → Bool) → Option String → Bool
refers registered none = true
refers registered (some i) = registered i

-- What the consumption of a dead letter comes to: it is stored, or, where it names an inbox that is
-- not registered, the handler throws and nothing is stored.
pub data Consumed {Db : Type 0} (log : Log String Mensagem Db) (registered : String → Bool)
    (db : Db) (id : String) (agora : ℕ) (m : Morta) (x : Result (Unit {0}) × Db) : Type 0 where
  stored :
      (d : Db)
      → refers registered m.id_inbox ≡ true
      → x ≡ (ok tt, d)
      → find_by_id log d id ≡ ok (new_row id agora m)
      → ((j : String) → j ≢ id → find_by_id log d j ≡ find_by_id log db j)
      → Consumed log registered db id agora m x
  lost :
      (i : String) (e : Erro)
      → m.id_inbox ≡ some i
      → registered i ≡ false
      → x ≡ (err e, db)
      → Consumed log registered db id agora m x

module _ {Bytes Db : Type 0} (log : Log String Mensagem Db) (codec : Codec Bytes) (db : Db)
    (id : String) (agora : ℕ) (m : Morta) (good : Sound log) (json : LawfulCodec codec)
    (payload : m.message ≢ null) where
  abbrev row : Mensagem
  row = new_row id agora m

  abbrev consumed : Result (Unit {0}) × Db
  consumed = consume log codec db id agora (send_to_queue codec (json_of m))

  consumed_ok : (d : Db) → log.table.create db row ≡ ok (row, d) → consumed ≡ (ok tt, d)
  unfolding consume send_to_queue create
  consumed_ok d e = rw (json.parse-stringify (json_of m), letter_of-json_of m payload, e) refl

  consumed_err : (x : Erro) → log.table.create db row ≡ err x → consumed ≡ (err x, db)
  unfolding consume send_to_queue create
  consumed_err x e = rw (json.parse-stringify (json_of m), letter_of-json_of m payload, e) refl

  consumed-stored :
      (registered : String → Bool) (d : Db)
      → refers registered m.id_inbox ≡ true
      → log.table.create db row ≡ ok (row, d)
      → Consumed log registered db id agora m consumed
  unfolding find_by_id repo_find_by_id
  consumed-stored registered d known e =
      let key = good.key_id row in
      let c = good.lawful.lawful.create_ok db row row d e in
      let self = (log.table.keys.same_iff id id).1 refl in
      let own : log.table.find_unique d id ≡ some row = rw (c.after id, key, self) refl in
      stored d known (consumed_ok d e) (ap (or_absent log) own) (λ j other.
        let miss = other_key (log.table.keys.same id j) (log.table.keys.same_iff id j) other in
        let f : log.table.find_unique d j ≡ log.table.find_unique db j =
          rw (c.after j, key, miss) refl in
        ap (or_absent log) f)

  consumed-lost :
      (registered : String → Bool) (x : Erro) (o : Option String)
      → m.id_inbox ≡ o
      → refers registered o ≡ false
      → log.table.create db row ≡ err x
      → Consumed log registered db id agora m consumed
  consumed-lost registered x none q unknown e = absurd (false≢true (sym unknown))
  consumed-lost registered x (some i) q unknown e = lost i x q unknown (consumed_err x e)

-- Over a table that behaves as documented, whose foreign key admits a message exactly if its inbox,
-- where it names one, is registered, and a JSON that reads what it wrote: a dead letter with a
-- payload that is sent to the queue and consumed is stored under the new identifier, not resent and
-- not removed, with its payload, inbox and status, and every other message is as it was; but one
-- that names an inbox that is not registered makes the handler throw, and is not stored.
pub consume-send :
    {Bytes Db : Type 0} (log : Log String Mensagem Db) (codec : Codec Bytes)
    (registered : String → Bool) (db : Db) (id : String) (agora : ℕ) (m : Morta)
    → Sound log
    → LawfulCodec codec
    → ((r : Mensagem) → log.table.admits r ≡ refers registered r.id_inbox)
    → ((r s : Mensagem) → log.table.clash r s ≡ false)
    → m.message ≢ null
    → log.table.find_unique db id ≡ none
    → Consumed log registered db id agora m
        (consume log codec db id agora (send_to_queue codec (json_of m)))
consume-send log codec registered db id agora m good json foreign free payload new =
    let r = new_row id agora m in
    elim (Bool-cases (refers registered m.id_inbox)) [
      | inl known ↦
          let (d, e) =
            good.lawful.lawful.create_total db r (rw (good.key_id r) new) (foreign r ∙ known)
              (λ j s f n. free r s) in
          consumed-stored log codec db id agora m good json payload registered d known e
      | inr unknown ↦
          let (x, e) = good.lawful.lawful.create_refused db r (foreign r ∙ unknown) in
          consumed-lost log codec db id agora m good json payload registered x m.id_inbox refl
            unknown e
    ]
