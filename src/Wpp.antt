-- ===== src/Wpp.antt =====
-- src/wpp/wpp.service.ts: calls are forwarded to Meta's Graph API, and what fails is recorded in
-- the error log. axios, the file system, `form-data`, `path.basename` and the configuration are
-- fields of `Services`; the state is the table of the error log.
pub mod Types
pub mod Answers
pub mod Tokens
unfoldable pub use Types.*
use Prim.Native.String as txt
use Prim.Native.Char.{code}
use whiz_gateway.Base.{
  ℕ, String, Bool, true, false, Option, none, some, List, [], ◌∷◌, map, length, eqb, ◌==◌,
  if◌then◌else◌,
}
use whiz_gateway.Json.{Json}
use whiz_gateway.Effects.{Erro, http, resposta, outro, Result, ok, err}
use whiz_gateway.Resend.{truthy_text}
use whiz_gateway.Table.Logs.{Log}
use whiz_gateway.MetaErrors.Logs.{Origem, Campos, Dados, Registro, Sorteio, persistir}
use whiz_gateway.MetaErrors.Logs as erros

module _ {Db : Type 0} (env : Services Db) where
  abbrev pub gravar : Db → Sorteio → Dados → Option (Log String Registro Db) → Option String × Db
  gravar db s dados none = (none, db)
  gravar db s dados (some log) = persistir log db s dados

  -- `persistirErro`, on the draw of the key
  unfoldable pub persistir_erro : Db → Sorteio → Dados → Option String × Db
  persistir_erro db s dados = gravar db s dados env.erros

  -- `resolveToken`, with the token of the request's context
  abbrev pub resolve_token : Option String → Bool → String
  resolve_token contexto force_app_token =
      in_template (or_else (if force_app_token then none else contexto) env.meta_access_token)

  abbrev pub bearer : Option String → Bool → String
  bearer contexto force_app_token = txt.◌++◌ "Bearer " (resolve_token contexto force_app_token)

  unfoldable pub url_of : String → String
  unfolding normalized
  url_of path = txt.◌++◌ (in_template env.meta_graph_url) (txt.◌++◌ "/" (normalized path))

  -- What is recorded: without an answer it is the text of the error.
  abbrev pub dados_resposta : Dados → ℕ → Json → Dados
  dados_resposta base status corpo = record base { status = some status; corpo = some corpo }

  abbrev pub dados_transporte : Dados → Erro → Dados
  dados_transporte base e = record base { mensagem = some (env.error_text e) }

  abbrev pub com_chave : ℕ → Json → Option String × Db → Result ForwardResult × Db
  com_chave status corpo (chave, db) =
      (ok (record { status = status; corpo = corpo; chave_erro = chave }), db)

  -- The answer of the request, its `catch` included: `base` is what is recorded of it on any error.
  unfoldable pub responder : Db → Sorteio → Dados → Result Resposta → Result ForwardResult × Db
  unfolding persistir_erro
  responder db s base (ok r) =
      (ok (record { status = r.status; corpo = r.corpo; chave_erro = none }), db)
  responder db s base (err (resposta status corpo)) =
      com_chave status corpo (persistir_erro db s (dados_resposta base status corpo))
  responder db s base (err (http n)) =
      (err (http 502), (persistir_erro db s (dados_transporte base (http n))).1)
  responder db s base (err (outro t)) =
      (err (http 502), (persistir_erro db s (dados_transporte base (outro t))).1)

  abbrev pub base_de : Origem → String → String → Campos → Option String → Dados
  base_de origem method path requisicao job_id = record {
    origem = origem;
    metodo = method;
    sub_path = normalized path;
    url = some (url_of path);
    status = none;
    codigo_meta = none;
    corpo = none;
    requisicao = some requisicao;
    job_id = job_id;
    referencia = none;
    mensagem = none;
  }

  -- forward
  unfoldable pub headers_forward : Option String → ForwardOptions → Headers
  unfolding spread
  headers_forward contexto opts =
      spread
        (("Authorization", bearer contexto opts.force_app_token)
          ∷ (("Content-Type", given opts.content_type "application/json") ∷ []))
        opts.headers

  unfoldable pub pedido_forward : Option String → String → String → ForwardOptions → Pedido
  unfolding url_of headers_forward
  pedido_forward contexto method path opts = record {
    method = method;
    url = url_of path;
    params = opts.query;
    conteudo = conteudo_de opts.body;
    headers = headers_forward contexto opts;
  }

  unfoldable pub forward :
      Db → Sorteio → Option String → String → String → ForwardOptions → Result ForwardResult × Db
  unfolding responder pedido_forward normalized url_of headers_forward
  forward db s contexto method path opts =
      responder db s
        (base_de erros.forward method path (campos (headers_forward contexto opts)) none)
        (env.request (pedido_forward contexto method path opts))

  -- forwardMultipart
  unfoldable pub form_de :
      List ℕ → String → String → String → Option String → Option String → List Parte
  form_de buffer tmp content_type messaging_product filename media_type =
      campo "messaging_product" messaging_product
      ∷ parte_do_tipo (truthy_text media_type)
          (arquivo buffer (nome_do_arquivo filename (env.basename tmp)) content_type ∷ [])

  unfoldable pub headers_multipart : Option String → List Parte → Headers
  unfolding spread
  headers_multipart contexto partes =
      spread (("Authorization", bearer contexto false) ∷ []) (env.form_headers partes)

  unfoldable pub enviar_form :
      Db
      → Sorteio
      → Option String
      → String
      → List Parte
      → Option String
      → Option String
      → Option String
      → Result ForwardResult × Db
  unfolding responder normalized url_of headers_multipart spread
  enviar_form db s contexto path partes filename media_type job_id =
      responder db s
        (base_de erros.forward_multipart "POST" path
          (spread (campos (headers_multipart contexto partes))
            (("filename", filename) ∷ (("type", media_type) ∷ [])))
          job_id)
        (env.request (record {
          method = "POST";
          url = url_of path;
          params = none;
          conteudo = form partes;
          headers = headers_multipart contexto partes;
        }))

  abbrev pub com_arquivo :
      Db → Result (List ℕ) → (List ℕ → Result ForwardResult × Db) → Result ForwardResult × Db
  com_arquivo db (err e) f = (err e, db)
  com_arquivo db (ok buffer) f = f buffer

  unfoldable pub forward_multipart :
      Db
      → Sorteio
      → Option String
      → Upload
      → String
      → Option String
      → Option String
      → Result ForwardResult × Db
  unfolding enviar_form form_de
  forward_multipart db s contexto u messaging_product filename media_type =
      com_arquivo db (env.read_file u.tmp_file_path) (λ buffer.
        enviar_form db s contexto u.sub_path
          (form_de buffer u.tmp_file_path u.content_type messaging_product filename media_type)
          filename media_type u.job_id)

  -- forwardBinary
  abbrev pub headers_binary : Option String → String → String → Headers
  headers_binary contexto content_type file_offset =
      ("Authorization", bearer contexto false)
      ∷ (("Content-Type", content_type)
          ∷ (("file_offset", if file_offset == "" then "0" else file_offset) ∷ []))

  unfoldable pub enviar_bytes :
      Db → Sorteio → Option String → Upload → String → List ℕ → Result ForwardResult × Db
  unfolding responder normalized url_of spread
  enviar_bytes db s contexto u file_offset buffer =
      responder db s
        (base_de erros.forward_binary "POST" u.sub_path
          (spread (campos (headers_binary contexto u.content_type file_offset))
            (("tamanhoEmBytes", some (env.number_text (length buffer))) ∷ []))
          u.job_id)
        (env.request (record {
          method = "POST";
          url = url_of u.sub_path;
          params = none;
          conteudo = bytes buffer;
          headers = headers_binary contexto u.content_type file_offset;
        }))

  unfoldable pub forward_binary :
      Db → Sorteio → Option String → Upload → String → Result ForwardResult × Db
  unfolding enviar_bytes
  forward_binary db s contexto u file_offset =
      com_arquivo db (env.read_file u.tmp_file_path) (enviar_bytes db s contexto u file_offset)
