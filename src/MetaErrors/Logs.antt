-- ===== src/MetaErrors/Logs.antt =====
-- src/meta-error-logs/meta-error-logs.service.ts, its Prisma repository and its clean-up: each
-- error of Meta's is kept whole, under a key, without the secrets of the request. The random bytes
-- of a key and the instant that the database gives a row are arguments.
pub mod Spelled
pub mod Redacted
pub mod Recorded
pub mod Lists
use Prim.Native.String as txt
use Prim.Native.Char.{Char, code}
use whiz_gateway.Base.{
  ℕ, suc, ◌-◌, ◌*◌, String, Bool, true, false, ◌&&◌, Option, none, some, List, [], ◌∷◌, ◌++◌, map,
  any, ◌==◌, eqb, ltb, if◌then◌else◌,
}
use whiz_gateway.Json.{Json, Number, null, obj, Props, non_empty}
use whiz_gateway.Effects.{Result, ok, err, http}
use whiz_gateway.Table.Logs.{Log}
use whiz_gateway.MetaErrors.Extractor.{ErroDeWebhook, extrair_erros_de_webhook}

pub data Origem : Type 0 where
  forward forward_multipart forward_binary callback webhook_status : Origem

-- The headers of a request, or what is recorded of it: a value may be `undefined`.
abbrev pub Campos : Type 0
Campos = List (String × Option String)

-- DadosErroMeta
pub record Dados : Type 0 where
  pub origem : Origem
  pub metodo : String
  pub sub_path : String
  pub url : Option String
  pub status : Option ℕ
  pub codigo_meta : Option Number
  pub corpo : Option Json
  pub requisicao : Option Campos
  pub job_id : Option String
  pub referencia : Option String
  pub mensagem : Option String

-- A row of `logs_erros_meta`.
pub record Registro : Type 0 where
  pub chave : String
  pub origem : Origem
  pub metodo : String
  pub sub_path : String
  pub url : Option String
  pub status : Option ℕ
  pub codigo_meta : Option Number
  pub corpo : Option Json
  pub requisicao : Option Campos
  pub job_id : Option String
  pub referencia : Option String
  pub mensagem : Option String
  pub data_ms : ℕ

-- `toLowerCase` and `toUpperCase` on the characters that a header's name and a hexadecimal digit
-- have: the letters of ASCII.
unfoldable pub paired : String → String → Char → Char
paired (txt.◌∷◌ u us) (txt.◌∷◌ l ls) c = if eqb (code c) (code u) then l else paired us ls c
paired _ _ c = c

unfoldable pub each_char : (Char → Char) → String → String
each_char f txt.[] = txt.[]
each_char f (txt.◌∷◌ c s) = txt.◌∷◌ (f c) (each_char f s)

unfoldable pub to_lower : String → String
unfolding each_char paired
to_lower = each_char (paired "ABCDEFGHIJKLMNOPQRSTUVWXYZ" "abcdefghijklmnopqrstuvwxyz")

unfoldable pub to_upper : String → String
unfolding each_char paired
to_upper = each_char (paired "abcdefghijklmnopqrstuvwxyz" "ABCDEFGHIJKLMNOPQRSTUVWXYZ")

abbrev pub prefixo_chave_erro : String
prefixo_chave_erro = "ERRMETA"

abbrev pub headers_redigidos : List String
headers_redigidos =
    "authorization" ∷ "x-meta-access-token" ∷ "x-api-key" ∷ "x-callback-secret" ∷ "cookie" ∷ []

abbrev pub valor_redigido : String
valor_redigido = "[REDACTED]"

abbrev pub ttl_erros_meta_ms : ℕ
ttl_erros_meta_ms = 14 * 24 * 60 * 60 * 1000

-- `${PREFIXO_CHAVE_ERRO}-…`, from the hexadecimal text of the random bytes
unfoldable pub nova_chave : String → String
unfolding to_upper
nova_chave hex = txt.◌++◌ prefixo_chave_erro (txt.◌++◌ "-" (to_upper hex))

unfoldable pub redigido : String → Bool
unfolding to_lower
redigido nome = any (λ h. h == to_lower nome) headers_redigidos

abbrev pub redigir_campo : String × Option String → String × Option String
redigir_campo (nome, valor) = (nome, if redigido nome then some valor_redigido else valor)

unfoldable pub redigir : Option Campos → Option Campos
redigir none = none
redigir (some headers) = some (map redigir_campo headers)

-- `toJson`: absent and `null` are both left out.
abbrev pub to_json : Option Json → Option Json
to_json none = none
to_json (some null) = none
to_json (some v) = some v

-- The row of an error, as service and repository build it.
unfoldable pub registro_de : String → ℕ → Dados → Registro
unfolding redigir
registro_de chave agora dados = record {
  chave = chave;
  origem = dados.origem;
  metodo = dados.metodo;
  sub_path = dados.sub_path;
  url = dados.url;
  status = dados.status;
  codigo_meta = dados.codigo_meta;
  corpo = to_json dados.corpo;
  requisicao = redigir dados.requisicao;
  job_id = dados.job_id;
  referencia = dados.referencia;
  mensagem = dados.mensagem;
  data_ms = agora;
}

abbrev or_dash : Option String → String
or_dash none = "-"
or_dash (some s) = s

-- What is recorded of an error that a webhook carries.
unfoldable pub dados_de_webhook : ErroDeWebhook → Dados
dados_de_webhook erro = record {
  origem = webhook_status;
  metodo = "WEBHOOK";
  sub_path =
      txt.◌++◌ "waba:" (txt.◌++◌ (or_dash erro.waba_id) (txt.◌++◌ " pid:" (or_dash erro.pid)));
  url = none;
  status = none;
  codigo_meta = erro.codigo;
  corpo = some (obj erro.corpo);
  requisicao = none;
  job_id = none;
  referencia = erro.referencia;
  mensagem = some erro.resumo;
}

-- What the process draws for one record: the random bytes, in hexadecimal, and the instant.
abbrev pub Sorteio : Type 0
Sorteio = String × ℕ

abbrev pub or_default : Option ℕ → ℕ → ℕ
or_default none n = n
or_default (some n) _ = n

abbrev pub anterior : ℕ → Registro → Bool
anterior corte r = ltb r.data_ms corte

module _ {Db : Type 0} (log : Log String Registro Db) where
  abbrev pub chave_se_gravou : String → Db → Result (Registro × Db) → Option String × Db
  chave_se_gravou chave db (err _) = (none, db)
  chave_se_gravou chave db (ok (_, db')) = (some chave, db')

  -- Whatever the database throws is logged, and the answer is `null`.
  unfoldable pub persistir : Db → Sorteio → Dados → Option String × Db
  unfolding nova_chave registro_de
  persistir db (hex, agora) dados =
      chave_se_gravou (nova_chave hex) db
        (log.table.create db (registro_de (nova_chave hex) agora dados))

  -- `if (chave) chaves.push(chave)`: a key is not empty.
  abbrev pub com_chave : Option String → List String → List String
  com_chave none chaves = chaves
  com_chave (some chave) chaves = chave ∷ chaves

  -- the loop over the errors, with a draw for each
  unfoldable pub persistir_todos : Db → (ℕ → Sorteio) → ℕ → List ErroDeWebhook → List String × Db
  unfolding persistir dados_de_webhook
  persistir_todos db sorteios n [] = ([], db)
  persistir_todos db sorteios n (erro ∷ erros) =
      let (chave, db') = persistir db (sorteios n) (dados_de_webhook erro) in
      let (chaves, db'') = persistir_todos db' sorteios (suc n) erros in
      (com_chave chave chaves, db'')

  unfoldable pub persistir_erros_de_webhook : Db → (ℕ → Sorteio) → Props → List String × Db
  unfolding persistir_todos extrair_erros_de_webhook
  persistir_erros_de_webhook db sorteios payload =
      persistir_todos db sorteios 0 (extrair_erros_de_webhook payload)

  abbrev pub or_absent : Option Registro → Result Registro
  or_absent none = err (http 404)
  or_absent (some r) = ok r

  unfoldable pub find_by_chave : Db → String → Result Registro
  find_by_chave db chave = or_absent (log.table.find_unique db chave)

  -- MetaErrorLogsCleanupService.handleCron: what the database throws is logged.
  abbrev pub removidos : Db → Result (ℕ × Db) → Db
  removidos db (err _) = db
  removidos db (ok (_, db')) = db'

  unfoldable pub handle_cron : Db → ℕ → Db
  handle_cron db agora = removidos db (log.delete_many db (anterior (agora - ttl_erros_meta_ms)))
