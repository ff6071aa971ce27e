-- ===== src/Examples/Errors.antt =====
-- The error log, the proxy to the Graph API and the upload jobs on concrete services.
use Prim.Native.String as txt
use Prim.Native.Char.{code}
use text.Mathlib.TextLemmas.{nil-append, cons-append}
use whiz_gateway.Base.{
  Bool-cases, inl, inr, ℕ, zero, suc, ◌≡◌, ◌≤◌, refl, sym, ap, subst, ◌∙◌, String, none, some, List,
  [], ◌∷◌, true, false, Option, eqb, ◌+◌, if◌then◌else◌, arith,
}
use whiz_gateway.Json.{str, arr, obj, Props, no_member, member, nil, cons}
use whiz_gateway.Effects.{ok, err, resposta}
use whiz_gateway.Effects.Counts.{attempts, waiting}
use whiz_gateway.Redirections.Sends.{Tried}
use whiz_gateway.Table.Rows.{rows, find, text_key}
use whiz_gateway.Table.Logs.{Log, LawfulLog}
use whiz_gateway.Table.Logs.Rows.{logs, logs-LawfulLog}
use whiz_gateway.MetaErrors.Extractor.{extrair_erros_de_webhook}
use whiz_gateway.MetaErrors.Logs as erros
use whiz_gateway.MetaErrors.Logs.Redacted as redacted
use whiz_gateway.MetaErrors.Logs.Recorded as recorded
use whiz_gateway.MetaErrors.Logs.Lists as lists
use whiz_gateway.Wpp as wpp
use whiz_gateway.Wpp.Answers as answers
use whiz_gateway.Wpp.Tokens as tokens
use whiz_gateway.Uploads as uploads
use whiz_gateway.Uploads.Callbacks as callbacks
use whiz_gateway.Uploads.Jobs as jobs
use whiz_gateway.Uploads.Secrets as secrets
use whiz_gateway.Examples.Encoding.{number}
use whiz_gateway.Examples.Deliveries.{webhook}

abbrev records : Log String erros.Registro (List erros.Registro)
records = logs text_key (λ r. r.chave) (λ r s. false) redacted.instant

records-LawfulLog : LawfulLog records redacted.instant
records-LawfulLog = logs-LawfulLog text_key (λ r. r.chave) (λ r s. false) redacted.instant

records-Sound : recorded.Sound records
unfolding logs rows
records-Sound = record { lawful = records-LawfulLog; key_chave = λ r. refl }

records-free : (r s : erros.Registro) → records.table.clash r s ≡ false
unfolding logs rows
records-free r s = refl

-- Meta refuses every call, the callback fails twice.
abbrev refusing : wpp.Services (List erros.Registro)
refusing = record {
  erros = some records;
  meta_graph_url = some "https://graph.example";
  meta_access_token = some "app";
  request = λ p. err (resposta 400 (str "bad"));
  read_file = λ f. ok (1 ∷ (2 ∷ []));
  basename = λ f. f;
  form_headers = λ ps. ("content-type", "multipart/form-data") ∷ [];
  number_text = λ n. number n "";
  error_text = λ e. "error";
}

refusing-SoundLog : answers.SoundLog refusing
refusing-SoundLog log e = let same : records ≡ log = cc in subst recorded.Sound same records-Sound

abbrev opts : wpp.ForwardOptions
opts = record {
  query = none;
  body = some (str "m");
  headers = ("X-A", "1") ∷ [];
  content_type = none;
  force_app_token = false;
}

abbrev draw : erros.Sorteio
draw = ("a1", 5)

forward-Answer_example :
    answers.Answer refusing [] draw
      (wpp.base_de refusing erros.forward "GET" "/me"
        (wpp.campos (wpp.headers_forward refusing (some "t") opts))
        none)
      (refusing.request (wpp.pedido_forward refusing (some "t") "GET" "/me" opts))
      (wpp.forward refusing [] draw (some "t") "GET" "/me" opts)
forward-Answer_example =
    answers.forward-Answer refusing [] draw (some "t") "GET" "/me" opts refusing-SoundLog

abbrev upload : wpp.Upload
upload = record {
  sub_path = "me/media";
  tmp_file_path = "f";
  content_type = "image/png";
  job_id = some "j";
}

upload-Uploaded_example :
    answers.Uploaded refusing [] draw upload
      (answers.base_form refusing none upload "whatsapp" (some "a.png") none)
      (answers.pedido_form refusing none upload "whatsapp" (some "a.png") none)
      (wpp.forward_multipart refusing [] draw none upload "whatsapp" (some "a.png") none)
    × answers.Uploaded refusing [] draw upload
        (answers.base_bytes refusing none upload "0")
        (answers.pedido_bytes refusing none upload "0")
        (wpp.forward_binary refusing [] draw none upload "0")
upload-Uploaded_example =
    answers.upload-Uploaded refusing [] draw none upload "whatsapp" "0" (some "a.png") none
      refusing-SoundLog

abbrev context : Option String
context = some "t"

abbrev sent_token : Option String
sent_token = tokens.value_at "Authorization" (wpp.headers_forward refusing context opts)

headers_forward-Bearer_example :
    (opts.force_app_token ≡ true → sent_token ≡ some "Bearer app")
    × (opts.force_app_token ≡ false → context ≡ none → sent_token ≡ some "Bearer app")
    × (opts.force_app_token ≡ false → context ≡ context → sent_token ≡ some "Bearer t")
headers_forward-Bearer_example =
    tokens.headers_forward-Bearer refusing context opts "t" "app" refl (refl, tt)

abbrev calling : uploads.Services (List erros.Registro)
calling = record {
  wpp = refusing;
  fetch = λ t p. if eqb (attempts t) 2 then ok 200 else ok 500;
  callback_secret = none;
}

fire_webhook_with_retry-Called_example :
    Tried 1000 6 0 [] (uploads.fire_webhook_with_retry calling draw "u" (str "p") "j" ([], [])).1
    × (waiting (uploads.fire_webhook_with_retry calling draw "u" (str "p") "j" ([], [])).1
        ≤ 0 + 31000)
    × callbacks.Fate calling draw "u"
        (str "p")
        "j"
        6
        0
        ([], [])
        (uploads.fire_webhook_with_retry calling draw "u" (str "p") "j" ([], []))
fire_webhook_with_retry-Called_example =
    callbacks.fire_webhook_with_retry-Called calling draw "u" (str "p") "j" [] []

abbrev job : uploads.Job
job = record {
  job_id = "j";
  media = true;
  sub_path = "me/media";
  tmp_file_path = "f";
  content_type = "image/png";
  messaging_product = "whatsapp";
  file_offset = none;
  callback_url = some "u";
  filename = some "a.png";
  media_type = none;
}

handle_job-Done_example :
    jobs.Done calling draw
      ("b2", 6)
      job
      []
      []
      (uploads.handle_job calling draw ("b2", 6) job ([], []))
handle_job-Done_example = jobs.handle_job-Done calling draw ("b2", 6) job [] []

abbrev draws : ℕ → erros.Sorteio
draws n = (number n "", n)

calling-LawfulLog :
    (log : Log String erros.Registro (List erros.Registro))
    → refusing.erros ≡ some log
    → LawfulLog log redacted.instant
calling-LawfulLog log e =
    let same : records ≡ log = cc in
    subst (λ l. LawfulLog l redacted.instant) same records-LawfulLog

empty-Clean :
    (log : Log String erros.Registro (List erros.Registro))
    → refusing.erros ≡ some log
    → redacted.Clean log []
unfolding logs rows find
empty-Clean log e =
    let same : records ≡ log = cc in subst (λ l. redacted.Clean l []) same (λ k r f. cc)

abbrev ops : List secrets.Op
ops =
    secrets.chamada draw (some "t") "GET" "/me" opts
    ∷ (secrets.trabalho draw ("b2", 6) job []
        ∷ (secrets.webhook draws webhook ∷ (secrets.limpeza 9 ∷ [])))

run-Clean_example : secrets.CleanLog calling calling-LawfulLog (secrets.run calling ops [])
run-Clean_example = secrets.run-Clean calling ops [] calling-LawfulLog empty-Clean

-- How many times the letter A stands in a text.
abbrev letters_a : String → ℕ
letters_a txt.[] = 0
letters_a (txt.◌∷◌ c s) = if eqb (code c) 65 then suc (letters_a s) else letters_a s

letters_a_lem : (n : ℕ) → letters_a (erros.to_upper (number n "")) ≡ n
unfolding erros.to_upper erros.each_char erros.paired
letters_a_lem zero = refl
letters_a_lem (suc n) = ap suc (letters_a_lem n)

letters_a-append : (s t : String) → letters_a (txt.◌++◌ s t) ≡ letters_a s + letters_a t
letters_a-append txt.[] t = rw (nil-append t) (omega arith)
letters_a-append (txt.◌∷◌ c s) t = rw (cons-append c s t) (elim (Bool-cases (eqb (code c) 65)) [
  | inl y ↦ rw y (omega (arith, letters_a-append s t))
  | inr n ↦ rw n (letters_a-append s t)
])

letters_a-chave : (n : ℕ) → letters_a (erros.nova_chave (number n "")) ≡ suc n
unfolding erros.nova_chave
letters_a-chave n =
    let inner = letters_a-append "-" (erros.to_upper (number n "")) in
    let outer = letters_a-append "ERRMETA" (txt.◌++◌ "-" (erros.to_upper (number n ""))) in
    omega (arith, inner, outer, letters_a_lem n)

draws_distinct : (i j : ℕ) → erros.nova_chave (draws i).0 ≡ erros.nova_chave (draws j).0 → i ≡ j
draws_distinct i j e =
    let f = sym (letters_a-chave i) ∙ ap letters_a e ∙ letters_a-chave j in omega (arith, f)

abbrev failed_status : Props
failed_status =
    member "errors" (arr (cons (obj (member "title" (str "t") no_member)) nil)) no_member

-- A webhook with two statuses that failed.
abbrev two_errors : Props
two_errors =
    member "entry"
      (arr (
        cons
          (obj (
            member "changes"
              (arr (
                cons
                  (obj (
                    member "value"
                      (obj (
                        member "statuses"
                          (arr (cons (obj failed_status) (cons (obj failed_status) nil)))
                          no_member))
                      no_member))
                  nil))
              no_member))
          nil))
      no_member

-- The list takes every code.
records_column : (r : erros.Registro) → records.table.admits r ≡ true
unfolding logs rows
records_column r = refl

persistir_erros_de_webhook-Stored_example :
    recorded.Stored records records-Sound records-free
      (λ o. true)
      records_column
      draws
      draws_distinct
      []
      0
      (extrair_erros_de_webhook two_errors)
      (erros.persistir_erros_de_webhook records [] draws two_errors)
unfolding logs rows find
persistir_erros_de_webhook-Stored_example =
    recorded.persistir_erros_de_webhook-Stored records [] draws two_errors records-Sound
      records-free (λ o. true) records_column draws_distinct (λ i l. refl)

abbrev filter : lists.Filtro
filter = record {
  origem = some erros.callback;
  status = none;
  job_id = some "j";
  codigo_meta = none;
  referencia = none;
  limit = some 10;
  offset = none;
}

find_many-ErrorListing_example :
    lists.ErrorListing records [] filter (lists.find_many records [] filter)
find_many-ErrorListing_example = lists.find_many-ErrorListing records [] filter records-LawfulLog
