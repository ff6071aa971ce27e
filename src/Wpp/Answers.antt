-- ===== src/Wpp/Answers.antt =====
-- What a forward of src/wpp/wpp.service.ts answers, and what it leaves in the error log.
use whiz_gateway.Base.{ℕ, ◌≡◌, ◌≢◌, refl, String, Option, none, some, List, [], ◌∷◌, length}
use whiz_gateway.Json.{Json}
use whiz_gateway.Effects.{Erro, http, resposta, outro, Result, ok, err}
use whiz_gateway.Table.Logs.{Log}
use whiz_gateway.MetaErrors.Logs.{Dados, Registro, Sorteio, persistir}
use whiz_gateway.MetaErrors.Logs as erros
use whiz_gateway.MetaErrors.Logs.Recorded.{Sound, Recorded, persistir-Recorded}
use whiz_gateway.Wpp.{
  Services, ForwardOptions, form, bytes, ForwardResult, Pedido, Resposta, Upload, campos, spread,
  headers_forward, headers_multipart, headers_binary, pedido_forward, dados_resposta,
  dados_transporte, base_de, url_of, gravar, persistir_erro, responder, forward, forward_multipart,
  forward_binary, enviar_form, enviar_bytes, form_de, com_arquivo,
}

-- What became of the record of an error: there is none without an error log.
pub data Logged {Db : Type 0} (env : Services Db) (db : Db) (s : Sorteio) (dados : Dados)
    (x : Option String × Db) : Type 0 where
  no_log : env.erros ≡ none → x ≡ (none, db) → Logged env db s dados x
  logged :
      (log : Log String Registro Db)
      → env.erros ≡ some log
      → Recorded log db s dados x
      → Logged env db s dados x

-- The answer to a request: Meta's own, whatever its status, or 502 where there was none; every error
-- is recorded whole.
pub data Answer {Db : Type 0} (env : Services Db) (db : Db) (s : Sorteio) (base : Dados)
    (r : Result Resposta) (x : Result ForwardResult × Db) : Type 0 where
  passed :
      (a : Resposta)
      → r ≡ ok a
      → x ≡ (ok (record { status = a.status; corpo = a.corpo; chave_erro = none }), db)
      → Answer env db s base r x
  refused :
      (status : ℕ) (corpo : Json) (y : Option String × Db)
      → r ≡ err (resposta status corpo)
      → Logged env db s (dados_resposta env base status corpo) y
      → x ≡ (ok (record { status = status; corpo = corpo; chave_erro = y.0 }), y.1)
      → Answer env db s base r x
  broken :
      (e : Erro) (y : Option String × Db)
      → r ≡ err e
      → ((n : ℕ) (v : Json) → e ≢ resposta n v)
      → Logged env db s (dados_transporte env base e) y
      → x ≡ (err (http 502), y.1)
      → Answer env db s base r x

-- The error log, where there is one, behaves as documented.
abbrev pub SoundLog : {Db : Type 0} → Services Db → Type 0
SoundLog {Db} env = (log : Log String Registro Db) → env.erros ≡ some log → Sound log

module _ {Db : Type 0} (env : Services Db) (good : SoundLog env) where
  erro-Logged :
      (db : Db) (s : Sorteio) (dados : Dados)
      → Logged env db s dados (persistir_erro env db s dados)
  unfolding persistir_erro
  erro-Logged db s dados = go env.erros refl
    where
      go :
          (o : Option (Log String Registro Db))
          → env.erros ≡ o
          → Logged env db s dados (gravar env db s dados o)
      go none e = no_log e refl
      go (some log) e = logged log e (persistir-Recorded log (good log e) db s dados)

  pub responder-Answer :
      (db : Db) (s : Sorteio) (base : Dados) (r : Result Resposta)
      → Answer env db s base r (responder env db s base r)
  unfolding responder
  responder-Answer db s base (ok a) = passed a refl refl
  responder-Answer db s base (err (resposta status corpo)) =
      refused status corpo (persistir_erro env db s (dados_resposta env base status corpo)) refl
        (erro-Logged db s (dados_resposta env base status corpo)) refl
  responder-Answer db s base (err (http n)) =
      broken (http n) (persistir_erro env db s (dados_transporte env base (http n))) refl
        (λ m v e. cc) (erro-Logged db s (dados_transporte env base (http n))) refl
  responder-Answer db s base (err (outro t)) =
      broken (outro t) (persistir_erro env db s (dados_transporte env base (outro t))) refl
        (λ m v e. cc) (erro-Logged db s (dados_transporte env base (outro t))) refl

-- Where the error log behaves as documented, a forward answers with Meta's own status and body,
-- also where they tell of an error, and with 502 where Meta gave no answer; an error is recorded
-- whole under the key that is answered, or not at all and the answer has no key.
pub forward-Answer :
    {Db : Type 0} (env : Services Db) (db : Db) (s : Sorteio) (contexto : Option String)
    (method path : String) (opts : ForwardOptions)
    → SoundLog env
    → Answer env db s
        (base_de env erros.forward method path (campos (headers_forward env contexto opts)) none)
        (env.request (pedido_forward env contexto method path opts))
        (forward env db s contexto method path opts)
unfolding forward
forward-Answer env db s contexto method path opts good = responder-Answer env good db s _ _

-- What an upload answers: nothing but the error where its file is not read, else as `Answer` says.
pub data Uploaded {Db : Type 0} (env : Services Db) (db : Db) (s : Sorteio) (u : Upload)
    (base : List ℕ → Dados) (pedido : List ℕ → Pedido) (x : Result ForwardResult × Db)
    : Type 0 where
  no_file :
      (e : Erro)
      → env.read_file u.tmp_file_path ≡ err e
      → x ≡ (err e, db)
      → Uploaded env db s u base pedido x
  uploaded :
      (buffer : List ℕ)
      → env.read_file u.tmp_file_path ≡ ok buffer
      → Answer env db s (base buffer) (env.request (pedido buffer)) x
      → Uploaded env db s u base pedido x

module _ {Db : Type 0} (env : Services Db) (good : SoundLog env) (db : Db) (s : Sorteio)
    (u : Upload) where
  arquivo-Uploaded :
      (base : List ℕ → Dados) (pedido : List ℕ → Pedido) (f : List ℕ → Result ForwardResult × Db)
      → ((b : List ℕ) → Answer env db s (base b) (env.request (pedido b)) (f b))
      → (r : Result (List ℕ)) → env.read_file u.tmp_file_path ≡ r
      → Uploaded env db s u base pedido (com_arquivo env db r f)
  arquivo-Uploaded base pedido f each (err e) q = no_file e q refl
  arquivo-Uploaded base pedido f each (ok b) q = uploaded b q (each b)

module _ {Db : Type 0} (env : Services Db) (contexto : Option String) (u : Upload) where
  -- The form goes to the URL of the path with the headers of the form and the token.
  abbrev pub pedido_form : String → Option String → Option String → List ℕ → Pedido
  pedido_form product filename media_type buffer =
      let partes = form_de env buffer u.tmp_file_path u.content_type product filename media_type in
      record {
        method = "POST";
        url = url_of env u.sub_path;
        params = none;
        conteudo = form partes;
        headers = headers_multipart env contexto partes;
      }

  abbrev pub base_form : String → Option String → Option String → List ℕ → Dados
  base_form product filename media_type buffer =
      let partes = form_de env buffer u.tmp_file_path u.content_type product filename media_type in
      base_de env erros.forward_multipart "POST" u.sub_path
        (spread (campos (headers_multipart env contexto partes))
          (("filename", filename) ∷ (("type", media_type) ∷ [])))
        u.job_id

  abbrev pub pedido_bytes : String → List ℕ → Pedido
  pedido_bytes file_offset buffer = record {
    method = "POST";
    url = url_of env u.sub_path;
    params = none;
    conteudo = bytes buffer;
    headers = headers_binary env contexto u.content_type file_offset;
  }

  abbrev pub base_bytes : String → List ℕ → Dados
  base_bytes file_offset buffer =
      base_de env erros.forward_binary "POST" u.sub_path
        (spread (campos (headers_binary env contexto u.content_type file_offset))
          (("tamanhoEmBytes", some (env.number_text (length buffer))) ∷ []))
        u.job_id

-- Where the error log behaves as documented, an upload throws what the reading of its file throws;
-- else the form, or the bytes, are sent and it answers with Meta's own status and body, also where
-- they tell of an error, and with 502 where Meta gave no answer; an error is recorded whole, with
-- the job, under the key that is answered, or not at all and the answer has no key.
pub upload-Uploaded :
    {Db : Type 0} (env : Services Db) (db : Db) (s : Sorteio) (contexto : Option String)
    (u : Upload) (product file_offset : String) (filename media_type : Option String)
    (good : SoundLog env)
    → Uploaded env db s u
        (base_form env contexto u product filename media_type)
        (pedido_form env contexto u product filename media_type)
        (forward_multipart env db s contexto u product filename media_type)
      × Uploaded env db s u
          (base_bytes env contexto u file_offset)
          (pedido_bytes env contexto u file_offset)
          (forward_binary env db s contexto u file_offset)
unfolding forward_multipart forward_binary enviar_form enviar_bytes
upload-Uploaded env db s contexto u product file_offset filename media_type good = (
  arquivo-Uploaded env good db s u (base_form env contexto u product filename media_type)
      (pedido_form env contexto u product filename media_type) _
      (λ b. responder-Answer env good db s _ _) (env.read_file u.tmp_file_path) refl,
  arquivo-Uploaded env good db s u (base_bytes env contexto u file_offset)
      (pedido_bytes env contexto u file_offset) _ (λ b. responder-Answer env good db s _ _)
      (env.read_file u.tmp_file_path) refl,
)
