-- ===== src/Examples/Tables.antt =====
-- The inboxes, their forwards, the redirections and the resend on concrete services.
use whiz_gateway.Base.{
  ℕ, ◌≡◌, refl, sym, ◌∙◌, String, none, some, List, [], ◌∷◌, In, true, false, Option, ◌==◌, eq_iff,
  arith, if◌then◌else◌,
}
use whiz_gateway.Json.{str, arr, obj, Props, no_member, member, nil, cons}
use whiz_gateway.Effects.{falha_envio, ok, err, outro, Trace}
use whiz_gateway.Records.{Inbox}
use whiz_gateway.Table.{Table}
use whiz_gateway.Table.Rows.{rows, text_key}
use whiz_gateway.Table.Rows.Lawfulness.{rows-Lawful}
use whiz_gateway.Inboxes as inboxes
use whiz_gateway.Inboxes.Creation as creation
use whiz_gateway.Inboxes.Wabas as wabas
use whiz_gateway.Instagram as ig
use whiz_gateway.Instagram.Forwards as forwards
use whiz_gateway.Instagram.Slashes as slashes
use whiz_gateway.Resend as rs
use whiz_gateway.Resend.Totals as totals
use whiz_gateway.Redirections as red
use whiz_gateway.Redirections.Active as active
use whiz_gateway.Examples.Deliveries.{inbox_of, second_time, webhook}

abbrev inbox_table : Table String Inbox (List Inbox)
inbox_table = rows text_key (λ r. r.id) creation.same_pair

abbrev registry : inboxes.Services (List Inbox)
registry = record { table = inbox_table; order_by = λ le l. l; ambiente_ativo = λ n. true }

registry-Sound : creation.Sound registry
unfolding rows
registry-Sound = record {
  lawful = rows-Lawful text_key (λ r. r.id) creation.same_pair;
  key_id = λ r. refl;
  admits_ativo = λ r e. refl;
  clash_pair = λ r s. refl;
}

registry-Orders : wabas.Orders registry
registry-Orders le l r = ((λ m. m), λ m. m)

-- The number 111 was registered in the environment 7, and deleted there.
abbrev deleted : Inbox
deleted = record (inbox_of "a") { del = true }

deleted_only :
    (j : String) (r : Inbox) → inbox_table.find_unique (deleted ∷ []) j ≡ some r → "a" ≡ j
unfolding rows
deleted_only j r e = ground (arith, eq_iff "a" j)

deleted-Paired : creation.Paired registry (deleted ∷ [])
deleted-Paired j k r s e f pair = sym (deleted_only j r e) ∙ deleted_only k s f

abbrev request : inboxes.CreateInbox
request = record { id_ambiente = 7; pid = "111"; nome = "nova"; waba_id = none }

create-Outcome_example :
    creation.Outcome registry
      (deleted ∷ [])
      "b"
      5
      request
      (inboxes.create registry (deleted ∷ []) "b" 5 request)
unfolding rows
create-Outcome_example =
    creation.create-Outcome registry (deleted ∷ []) "b" 5 request registry-Sound deleted-Paired refl

find_all_by_waba_id-OfWaba_example :
    ((r : Inbox)
      → In r (inboxes.find_all_by_waba_id registry (inbox_of "a" ∷ []) "222")
      → wabas.OfWaba registry (inbox_of "a" ∷ []) "222" r)
    × wabas.Apart (inboxes.find_all_by_waba_id registry (inbox_of "a" ∷ []) "222")
    × ((r : Inbox)
        → wabas.OfWaba registry (inbox_of "a" ∷ []) "222" r
        → (s : Inbox) × In s (inboxes.find_all_by_waba_id registry (inbox_of "a" ∷ []) "222")
          × (s.id_ambiente ≡ r.id_ambiente))
find_all_by_waba_id-OfWaba_example =
    wabas.find_all_by_waba_id-OfWaba registry (inbox_of "a" ∷ []) "222" registry-Sound
      registry-Orders

-- A page 333 with two inboxes, and a body that is no JSON.
abbrev pages : ig.Services
pages = record {
  base = second_time;
  find_all_by_pid = λ t p. if p == "333" then ok (inbox_of "a" ∷ inbox_of "b" ∷ []) else ok [];
  utf8_text = λ b. "{";
  parse_json = λ s. err (outro "SyntaxError");
}

abbrev page_body : Props
page_body = member "entry" (arr (cons (obj (member "id" (str "333") no_member)) nil)) no_member

sem_barras-Stripped_example : slashes.Stripped "https://a//" (ig.sem_barras "https://a//")
sem_barras-Stripped_example = slashes.sem_barras-Stripped "https://a//"

-- Two dead letters, one without inbox.
abbrev letter : String → Option String → rs.Mensagem
letter id id_inbox = record {
  id = id;
  message = obj webhook;
  id_inbox = id_inbox;
  status = falha_envio;
  reenviado = false;
  del = false;
  data_ms = 0;
}

abbrev letters : List rs.Mensagem
letters = letter "m1" (some "a") ∷ letter "m2" none ∷ []

abbrev queue : rs.Services
queue = record {
  find_all_by_pid = λ t p. ok (inbox_of "a" ∷ inbox_of "b" ∷ []);
  find_many = λ t f. ok letters;
  mark_reenviado = λ t id. ok tt;
  outside = second_time;
}

queue-Answers : totals.Answers queue
queue-Answers = record {
  pid = λ t p. (inbox_of "a" ∷ inbox_of "b" ∷ [], refl);
  many = λ t input ids. (letters, refl);
}

abbrev again : rs.ResendInput
again = record { pid = none; data_inicio = none; data_fim = none; forcar_reenviadas = false }

resend-Report_example :
    (r : rs.ResendResult) × (u : Trace) × (rs.resend queue again [] ≡ (ok r, u))
    × totals.Report queue again [] u r
resend-Report_example = totals.resend-Report queue again [] queue-Answers

-- One redirection for all environments, and a URL that answers the second time.
abbrev debug : red.Redirection
debug = record {
  uid = "r";
  url = "https://debug.example";
  data_expiracao = none;
  id_ambiente = none;
  data_ms = 0;
  del = false;
}

abbrev redirected : red.Services (List red.Redirection)
redirected = record {
  table = rows text_key (λ r. r.uid) (λ r s. false);
  newest_first = λ l. l;
  database = λ t. ok (debug ∷ []);
  now = λ t. 1;
  find_all_by_pid = λ t p. ok (inbox_of "a" ∷ inbox_of "b" ∷ []);
  http_post = λ i t p. second_time.http_post t p;
  base_ms = 1000;
}

redirected-Answers : active.Answers redirected
redirected-Answers = record {
  pid = λ t p. (inbox_of "a" ∷ inbox_of "b" ∷ [], refl);
  database = λ t. (debug ∷ [], refl);
}

dispatch-Dispatched_example :
    (n : ℕ) × (us : List Trace) × (red.dispatch redirected webhook [] ≡ (ok n, us))
    × active.Dispatched redirected webhook [] n us
dispatch-Dispatched_example =
    active.dispatch-Dispatched redirected webhook []
      (rows-Lawful text_key (λ r. r.uid) (λ r s. false)) redirected-Answers
