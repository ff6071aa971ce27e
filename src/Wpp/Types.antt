-- ===== src/Wpp/Types.antt =====
-- The requests and answers of src/wpp/wpp.service.ts, what it takes from outside, and its helpers
-- on texts and headers.
use Prim.Native.String as txt
use Prim.Native.Char.{code}
use whiz_gateway.Base.{
  ℕ, String, Bool, Option, none, some, List, [], ◌∷◌, map, eqb, ◌==◌, if◌then◌else◌,
}
use whiz_gateway.Json.{Json}
use whiz_gateway.Effects.{Erro, Result}
use whiz_gateway.Resend.{truthy_text}
use whiz_gateway.Table.Logs.{Log}
use whiz_gateway.MetaErrors.Logs.{Campos, Registro}

-- A value of a query: a text, or several.
pub data Valor : Type 0 where
  um : String → Valor
  varios : List String → Valor

abbrev pub Headers : Type 0
Headers = List (String × String)

-- WppForwardOptions
pub record ForwardOptions : Type 0 where
  pub query : Option (List (String × Valor))
  pub body : Option Json
  pub headers : Headers
  pub content_type : Option String
  pub force_app_token : Bool

-- A part of a multipart form.
pub data Parte : Type 0 where
  campo : String → String → Parte
  arquivo : List ℕ → String → String → Parte

pub data Conteudo : Type 0 where
  nada : Conteudo
  valor : Json → Conteudo
  form : List Parte → Conteudo
  bytes : List ℕ → Conteudo

-- What `httpService.request` is given.
pub record Pedido : Type 0 where
  pub method : String
  pub url : String
  pub params : Option (List (String × Valor))
  pub conteudo : Conteudo
  pub headers : Headers

pub record Resposta : Type 0 where
  pub status : ℕ
  pub corpo : Json

-- WppForwardResult
pub record ForwardResult : Type 0 where
  pub status : ℕ
  pub corpo : Json
  pub chave_erro : Option String

pub record Services (Db : Type 0) : Type 0 where
  -- absent where the module of the error log is not loaded
  pub erros : Option (Log String Registro Db)
  pub meta_graph_url : Option String
  pub meta_access_token : Option String
  pub request : Pedido → Result Resposta
  pub read_file : String → Result (List ℕ)
  pub basename : String → String
  pub form_headers : List Parte → Headers
  -- `String(n)` and `String(err)`
  pub number_text : ℕ → String
  pub error_text : Erro → String

-- A text in a template: `undefined` is spelled out.
abbrev pub in_template : Option String → String
in_template none = "undefined"
in_template (some s) = s

-- `path.startsWith('/') ? path.slice(1) : path`
unfoldable pub normalized : String → String
normalized txt.[] = txt.[]
normalized (txt.◌∷◌ c s) = if eqb (code c) 47 then s else txt.◌∷◌ c s

-- `saida[k] = v`: in the place of the key, or behind.
unfoldable pub put : {A : Type 0} → String → A → List (String × A) → List (String × A)
put k v [] = (k, v) ∷ []
put k v ((j, w) ∷ o) = let rest = put k v o in if k == j then (j, v) ∷ o else (j, w) ∷ rest

-- `{ ...o, ...p }`
unfoldable pub spread : {A : Type 0} → List (String × A) → List (String × A) → List (String × A)
unfolding put
spread o [] = o
spread o ((k, v) ∷ p) = spread (put k v o) p

abbrev pub or_else : Option String → Option String → Option String
or_else none b = b
or_else (some a) b = some a

abbrev pub given : Option String → String → String
given none d = d
given (some s) d = s

-- The record of a request's headers.
abbrev pub campos : Headers → Campos
campos = map (λ (k, v). (k, some v))

abbrev pub conteudo_de : Option Json → Conteudo
conteudo_de none = nada
conteudo_de (some v) = valor v

-- `filename || path.basename(tmpFilePath)`
abbrev pub nome_do_arquivo : Option String → String → String
nome_do_arquivo filename base = given (truthy_text filename) base

-- `if (mediaType) form.append('type', mediaType)`
abbrev pub parte_do_tipo : Option String → List Parte → List Parte
parte_do_tipo none ps = ps
parte_do_tipo (some t) ps = campo "type" t ∷ ps

-- The arguments of an upload, `forwardMultipart` and `forwardBinary` together.
pub record Upload : Type 0 where
  pub sub_path : String
  pub tmp_file_path : String
  pub content_type : String
  pub job_id : Option String
