-- ===== src/Examples/Deliveries.antt =====
-- The dispatch and the fan-out on concrete services.
use whiz_gateway.Base.{
  ◌≡◌, refl, String, none, some, [], ◌∷◌, ◌==◌, true, false, eqb, ◌↔◌, if◌then◌else◌, arith,
}
use whiz_gateway.Json.{str, arr, obj, Props, no_member, member, nil, cons}
use whiz_gateway.Effects.{resposta, ok, err}
use whiz_gateway.Effects.Counts.{attempts}
use whiz_gateway.Records.{Ambiente, Inbox}
use whiz_gateway.Dispatch.{handle, Services}
use whiz_gateway.Dispatch.Once.{AtMost, handle-AtMost, started}
use whiz_gateway.Dispatch.Exactly.{Ended, ToInbox, handle-Ended}
use whiz_gateway.Dispatch.Environments.{Answers}
use whiz_gateway.Webhook.Pid.{PidAt, extract_pid_iff}
use whiz_gateway.Webhook as hook
use whiz_gateway.Webhook.Fans as fans
use whiz_gateway.Examples.Encoding.{write, number}

abbrev pub producao : Ambiente
producao = record { id = 7; nome = "prod"; url = "https://a.example"; del = false }

abbrev pub inbox_of : String → Inbox
inbox_of id = record {
  id = id;
  id_ambiente = 7;
  pid = "111";
  nome = "loja";
  waba_id = some "222";
  del = false;
  data_ms = 0;
}

-- The first POST is answered with a 500, each later one with a 200.
abbrev pub second_time : Services
second_time = record {
  find_inbox = λ t id. ok (some (inbox_of id));
  find_ambiente = λ t id. ok (some producao);
  redis_get = λ t k. ok none;
  redis_set = λ t k v. ok tt;
  parse_ambiente = λ v. ok producao;
  stringify_ambiente = write;
  to_string = λ n. number n "";
  http_post = λ t p. if eqb (attempts t) 0 then err (resposta 500 (str "")) else ok 200;
  send_to_queue = λ t m. ok tt;
  max_retries = 3;
  base_ms = 1000;
  callback_secret = "segredo";
}

pub second_time-Answers : Answers second_time
second_time-Answers = record {
  inbox = λ t id. (some (inbox_of id), refl);
  inbox_id = λ t id i e. cc;
  ambiente = λ t id. (some producao, refl);
  get = λ t k. (none, refl);
  set = λ t k v. refl;
  parse = λ t id v e. (producao, refl);
  queue = λ t m. refl;
  rounds = omega arith;
}

-- A webhook for the number 111 of the WABA 222.
abbrev metadata : Props
metadata = member "phone_number_id" (str "111") no_member

abbrev value : Props
value = member "metadata" (obj metadata) no_member

abbrev change : Props
change = member "value" (obj value) no_member

abbrev entry : Props
entry = member "id" (str "222") (member "changes" (arr (cons (obj change) nil)) no_member)

abbrev pub webhook : Props
webhook = member "entry" (arr (cons (obj entry) nil)) no_member

abbrev two_inboxes : hook.Services
two_inboxes = record {
  find_all_by_pid = λ t p. if p == "111" then ok (inbox_of "a" ∷ inbox_of "b" ∷ []) else ok [];
  find_all_by_waba_id = λ t w. ok [];
  send_to_queue = λ t m. ok tt;
  has_error_log = true;
}

handle-AtMost_example :
    ((handle second_time "a" (obj webhook) []).0 ≡ ok tt)
    × AtMost 3 [] (handle second_time "a" (obj webhook) []).1
handle-AtMost_example = handle-AtMost second_time "a" (obj webhook) []

handle-Ended_example :
    Ended
      (ToInbox second_time (started (obj webhook) []) "a" (obj webhook))
      "a"
      (obj webhook)
      []
      (handle second_time "a" (obj webhook) []).1
handle-Ended_example = handle-Ended second_time "a" (obj webhook) [] second_time-Answers

extract_pid_iff_example : (hook.extract_pid webhook ≡ some "111") ↔ PidAt webhook "111"
extract_pid_iff_example = extract_pid_iff webhook "111"
