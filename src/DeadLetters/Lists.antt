-- ===== src/DeadLetters/Lists.antt =====
-- On `findMany` of src/dead-letter/repositories/dead-letter.prisma.repository.ts.
use whiz_gateway.Base.{
  ℕ, ◌+◌, ◌≡◌, ◌≤◌, refl, sym, ap, ◌∙◌, String, Bool, true, false, not, ◌&&◌, Option, none, some,
  List, ◌++◌, In, length, eqb, eqb_iff, eq_iff, subst, arith, if◌then◌else◌,
}
use whiz_gateway.Effects.{
  Result, ok, err, StatusFalha, inbox_nao_registrada, falha_enfileiramento, nack_recebido,
  falha_envio, ambiente_indisponivel, assinatura_invalida,
}
use whiz_gateway.Table.Logs.{Log, LawfulLog}
use whiz_gateway.Table.Logs.Lists.{Descending}
use whiz_gateway.Table.Logs.Pages.{Untied, find_page-Page, find_page-join}
use whiz_gateway.Resend.{Mensagem, truthy_text}
use whiz_gateway.DeadLetters.{
  ListQuery, Dates, or_default, matches, code, is_status, is_inbox, is_reenviado, from_date,
  until_date, read_date, page_between, find_many,
}

abbrev pub instant : Mensagem → ℕ
instant m = m.data_ms

abbrev pub with_page : ListQuery → ℕ → ℕ → ListQuery
with_page filter limit offset = record filter { limit = some limit; offset = some offset }

-- A stored row that the filter asks for; its phone number is passed over, as in the code.
pub record Wanted {Db : Type 0} (log : Log String Mensagem Db) (dates : Dates) (db : Db)
    (filter : ListQuery) (m : Mensagem) : Type 0 where
  pub found : log.table.find_unique db (log.table.key m) ≡ some m
  pub present : m.del ≡ false
  pub status : (s : StatusFalha) → filter.status ≡ some s → m.status ≡ s
  pub inbox : (i : String) → truthy_text filter.id_inbox ≡ some i → m.id_inbox ≡ some i
  pub reenviado : (b : Bool) → filter.reenviado ≡ some b → m.reenviado ≡ b
  pub from : (d : ℕ) → read_date dates filter.data_inicio ≡ ok (some d) → d ≤ m.data_ms
  pub until : (d : ℕ) → read_date dates filter.data_fim ≡ ok (some d) → m.data_ms ≤ d

-- What a list answers with.
pub record Listing {Db : Type 0} (log : Log String Mensagem Db) (dates : Dates) (db : Db)
    (filter : ListQuery) (rs : List Mensagem) : Type 0 where
  pub wanted : (m : Mensagem) → In m rs → Wanted log dates db filter m
  pub descending : Descending instant rs
  pub bounded : length rs ≤ or_default filter.limit 50

-- A conjunction of six is one of each.
six :
    (a b c d e f : Bool)
    → (a && (b && (c && (d && (e && f))))) ≡ true
    → (a ≡ true) × (b ≡ true) × (c ≡ true) × (d ≡ true) × (e ≡ true) × (f ≡ true)
six true true true true true true h = (refl, refl, refl, refl, refl, refl)
six true true true true true false h = cc
six true true true true false f h = cc
six true true true false e f h = cc
six true true false d e f h = cc
six true false c d e f h = cc
six false b c d e f h = cc

abbrev of_code : ℕ → StatusFalha
of_code n =
    if eqb n 0
    then inbox_nao_registrada
    else if eqb n 1
    then falha_enfileiramento
    else if eqb n 2
    then nack_recebido
    else if eqb n 3
    then falha_envio
    else if eqb n 4
    then ambiente_indisponivel
    else assinatura_invalida

of_code_lem : (s : StatusFalha) → of_code (code s) ≡ s
of_code_lem inbox_nao_registrada = refl
of_code_lem falha_enfileiramento = refl
of_code_lem nack_recebido = refl
of_code_lem falha_envio = refl
of_code_lem ambiente_indisponivel = refl
of_code_lem assinatura_invalida = refl

code_inj : (s t : StatusFalha) → code s ≡ code t → s ≡ t
code_inj s t e = sym (of_code_lem s) ∙ ap of_code e ∙ of_code_lem t

status_eq : (o : Option StatusFalha) (w s : StatusFalha) → o ≡ some w → is_status o s ≡ true → s ≡ w
status_eq none w s e h = cc
status_eq (some x) w s e h =
    let same : x ≡ w = cc in sym (code_inj x s ((eqb_iff (code x) (code s)).0 h)) ∙ same

inbox_eq :
    (o : Option String) (w : String) (i : Option String)
    → o ≡ some w
    → is_inbox o i ≡ true
    → i ≡ some w
inbox_eq none w i e h = cc
inbox_eq (some x) w none e h = cc
inbox_eq (some x) w (some i) e h = let same : x ≡ w = cc in ap some (sym ((eq_iff x i).0 h) ∙ same)

reenviado_eq : (o : Option Bool) (w b : Bool) → o ≡ some w → is_reenviado o b ≡ true → b ≡ w
reenviado_eq none w b e h = cc
reenviado_eq (some true) w b e h = let same : true ≡ w = cc in h ∙ same
reenviado_eq (some false) w true e h = cc
reenviado_eq (some false) w false e h = cc

is_false : (b : Bool) → not b ≡ true → b ≡ false
is_false true e = cc
is_false false e = refl

from_le : (o : Option ℕ) (d t : ℕ) → o ≡ some d → from_date o t ≡ true → d ≤ t
from_le none d t e h = cc
from_le (some x) d t e h = let same : x ≡ d = cc in ground arith

until_le : (o : Option ℕ) (d t : ℕ) → o ≡ some d → until_date o t ≡ true → t ≤ d
until_le none d t e h = cc
until_le (some x) d t e h = let same : x ≡ d = cc in ground arith

ok_eq : {A : Type 0} {a b : A} → ok a ≡ ok b → a ≡ b
ok_eq e = cc

module _ {Db : Type 0} (log : Log String Mensagem Db) (dates : Dates) (db : Db)
    (good : LawfulLog log instant) where
  matches-Wanted :
      (filter : ListQuery) (gte lte : Option ℕ)
      → read_date dates filter.data_inicio ≡ ok gte
      → read_date dates filter.data_fim ≡ ok lte
      → (m : Mensagem)
      → (log.table.find_unique db (log.table.key m) ≡ some m) × (matches filter gte lte m ≡ true)
      → Wanted log dates db filter m
  unfolding matches
  matches-Wanted filter gte lte eg el m (f, h) =
      let (a, b, c, e, x, y) =
        six (not m.del) (is_status filter.status m.status)
          (is_inbox (truthy_text filter.id_inbox) m.id_inbox)
          (is_reenviado filter.reenviado m.reenviado) (from_date gte m.data_ms)
          (until_date lte m.data_ms) h in
      record {
        found = f;
        present = is_false m.del a;
        status = λ s q. status_eq filter.status s m.status q b;
        inbox = λ i q. inbox_eq (truthy_text filter.id_inbox) i m.id_inbox q c;
        reenviado = λ w q. reenviado_eq filter.reenviado w m.reenviado q e;
        from = λ d q. from_le gte d m.data_ms (ok_eq (sym eg ∙ q)) x;
        until = λ d q. until_le lte d m.data_ms (ok_eq (sym el ∙ q)) y;
      }

  listing :
      (filter : ListQuery) (rs : List Mensagem) (g l : Result (Option ℕ))
      → read_date dates filter.data_inicio ≡ g
      → read_date dates filter.data_fim ≡ l
      → page_between log db filter g l ≡ ok rs
      → Listing log dates db filter rs
  listing filter rs (err e) l eg el q = cc
  listing filter rs (ok g) (err e) eg el q = cc
  listing filter rs (ok g) (ok l) eg el q =
      let same = ok_eq q in
      let page =
        find_page-Page log instant good db (matches filter g l) (or_default filter.limit 50)
          (or_default filter.offset 0) in
      subst (Listing log dates db filter) same (record {
        wanted = λ m i. matches-Wanted filter g l eg el m (page.stored m i);
        descending = page.descending;
        bounded = page.bounded;
      })

  joined :
      (filter : ListQuery)
      → ((r s : Mensagem)
          → Wanted log dates db filter r
          → Wanted log dates db filter s
          → r.data_ms ≡ s.data_ms
          → r ≡ s)
      → (n m k : ℕ) (xs ys : List Mensagem) (g l : Result (Option ℕ))
      → read_date dates filter.data_inicio ≡ g
      → read_date dates filter.data_fim ≡ l
      → page_between log db (with_page filter n k) g l ≡ ok xs
      → page_between log db (with_page filter m (k + n)) g l ≡ ok ys
      → page_between log db (with_page filter (n + m) k) g l ≡ ok (xs ++ ys)
  unfolding matches
  joined filter apart n m k xs ys (err e) l eg el p q = cc
  joined filter apart n m k xs ys (ok g) (err e) eg el p q = cc
  joined filter apart n m k xs ys (ok g) (ok l) eg el p q =
      let untied : Untied log instant good db (matches filter g l) = λ r s a b e.
        apart r s (matches-Wanted filter g l eg el r a) (matches-Wanted filter g l eg el s b) e in
      let join = find_page-join log instant good db (matches filter g l) n m k untied in
      ap ok (sym join ∙ (λ i. ok_eq p i ++ ok_eq q i))

-- Over a table that behaves as documented, a list that is answered holds stored messages only that
-- are not removed and are of the status, the inbox, the mark of a resend and the dates that the query
-- sets, the latest first, and at most as many as its limit, which is 50 where none is given.
pub find_many-Listing :
    {Db : Type 0} (log : Log String Mensagem Db) (dates : Dates) (db : Db) (filter : ListQuery)
    (rs : List Mensagem)
    → LawfulLog log instant
    → find_many log dates db filter ≡ ok rs
    → Listing log dates db filter rs
unfolding find_many
find_many-Listing log dates db filter rs good e =
    listing log dates db good filter rs (read_date dates filter.data_inicio)
      (read_date dates filter.data_fim) refl refl e

-- Over a table that behaves as documented, in which no two messages that the filter asks for are
-- of one instant, a page and the page that follows it are the page of both lengths together.
pub find_many-join :
    {Db : Type 0} (log : Log String Mensagem Db) (dates : Dates) (db : Db) (filter : ListQuery)
    (n m k : ℕ) (xs ys : List Mensagem)
    → LawfulLog log instant
    → ((r s : Mensagem)
        → Wanted log dates db filter r
        → Wanted log dates db filter s
        → r.data_ms ≡ s.data_ms
        → r ≡ s)
    → find_many log dates db (with_page filter n k) ≡ ok xs
    → find_many log dates db (with_page filter m (k + n)) ≡ ok ys
    → find_many log dates db (with_page filter (n + m) k) ≡ ok (xs ++ ys)
unfolding find_many
find_many-join log dates db filter n m k xs ys good apart e f =
    joined log dates db good filter apart n m k xs ys (read_date dates filter.data_inicio)
      (read_date dates filter.data_fim) refl refl e f
