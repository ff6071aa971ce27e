-- ===== src/MetaErrors/Logs/Lists.antt =====
-- The list of the errors, `findMany` of src/meta-error-logs/meta-error-logs.service.ts and of its
-- repository.
use whiz_gateway.Base.{
  ℕ, ◌≡◌, ◌≤◌, refl, sym, ap, ◌∙◌, String, Bool, true, false, ◌&&◌, Option, none, some, List, In,
  length, eqb, eqb_iff, eq_iff, ◌==◌, if◌then◌else◌,
}
use whiz_gateway.Json.{Number, finite}
use whiz_gateway.Resend.{truthy_text}
use whiz_gateway.Table.Logs.{Log, LawfulLog}
use whiz_gateway.Table.Logs.Lists.{Descending}
use whiz_gateway.Table.Logs.Pages.{find_page-Page}
use whiz_gateway.MetaErrors.Logs.{
  Registro, Origem, forward, forward_multipart, forward_binary, callback, webhook_status,
  or_default,
}
use whiz_gateway.MetaErrors.Logs.Redacted.{instant}

-- ListMetaErrorLogsQueryDto
pub record Filtro : Type 0 where
  pub origem : Option Origem
  pub status : Option ℕ
  pub job_id : Option String
  pub codigo_meta : Option Number
  pub referencia : Option String
  pub limit : Option ℕ
  pub offset : Option ℕ

abbrev pub code : Origem → ℕ
code forward = 0
code forward_multipart = 1
code forward_binary = 2
code callback = 3
code webhook_status = 4

abbrev pub is_origem : Option Origem → Origem → Bool
is_origem none o = true
is_origem (some w) o = eqb (code w) (code o)

abbrev pub is_status : Option ℕ → Option ℕ → Bool
is_status none s = true
is_status (some w) none = false
is_status (some w) (some s) = eqb w s

abbrev pub is_text : Option String → Option String → Bool
is_text none s = true
is_text (some w) none = false
is_text (some w) (some s) = w == s

abbrev pub same_number : Number → Number → Bool
same_number (finite s) (finite t) = s == t
same_number _ _ = false

abbrev pub is_codigo : Option Number → Option Number → Bool
is_codigo none s = true
is_codigo (some w) none = false
is_codigo (some w) (some s) = same_number w s

-- the `where` of the list
unfoldable pub matches : Filtro → Registro → Bool
matches filter r =
    is_origem filter.origem r.origem
    && (is_status filter.status r.status
        && (is_text (truthy_text filter.job_id) r.job_id
            && (is_text (truthy_text filter.referencia) r.referencia
                && is_codigo filter.codigo_meta r.codigo_meta)))

unfoldable pub repo_find_many : {Db : Type 0} → Log String Registro Db → Db → Filtro → List Registro
repo_find_many log db filter =
    log.find_page db (matches filter) (or_default filter.limit 50) (or_default filter.offset 0)

-- MetaErrorLogsService.findMany: the defaults of the page are set before the repository sets them.
unfoldable pub find_many : {Db : Type 0} → Log String Registro Db → Db → Filtro → List Registro
unfolding repo_find_many
find_many log db filter = repo_find_many log db (record filter {
  limit = some (or_default filter.limit 50);
  offset = some (or_default filter.offset 0);
})

-- A stored record that the filter asks for.
pub record Wanted {Db : Type 0} (log : Log String Registro Db) (db : Db) (filter : Filtro)
    (r : Registro) : Type 0 where
  pub found : log.table.find_unique db (log.table.key r) ≡ some r
  pub origem : (o : Origem) → filter.origem ≡ some o → r.origem ≡ o
  pub status : (s : ℕ) → filter.status ≡ some s → r.status ≡ some s
  pub job : (j : String) → truthy_text filter.job_id ≡ some j → r.job_id ≡ some j
  pub referencia : (j : String) → truthy_text filter.referencia ≡ some j → r.referencia ≡ some j

pub record ErrorListing {Db : Type 0} (log : Log String Registro Db) (db : Db) (filter : Filtro)
    (rs : List Registro) : Type 0 where
  pub wanted : (r : Registro) → In r rs → Wanted log db filter r
  pub descending : Descending instant rs
  pub bounded : length rs ≤ or_default filter.limit 50

-- A conjunction of five is one of each.
five :
    (a b c d e : Bool)
    → (a && (b && (c && (d && e)))) ≡ true
    → (a ≡ true) × (b ≡ true) × (c ≡ true) × (d ≡ true) × (e ≡ true)
five true true true true true h = (refl, refl, refl, refl, refl)
five true true true true false h = cc
five true true true false e h = cc
five true true false d e h = cc
five true false c d e h = cc
five false b c d e h = cc

abbrev of_code : ℕ → Origem
of_code n =
    if eqb n 0
    then forward
    else if eqb n 1
    then forward_multipart
    else if eqb n 2
    then forward_binary
    else if eqb n 3
    then callback
    else webhook_status

of_code_lem : (o : Origem) → of_code (code o) ≡ o
of_code_lem forward = refl
of_code_lem forward_multipart = refl
of_code_lem forward_binary = refl
of_code_lem callback = refl
of_code_lem webhook_status = refl

code_inj : (o p : Origem) → code o ≡ code p → o ≡ p
code_inj o p e = sym (of_code_lem o) ∙ ap of_code e ∙ of_code_lem p

origem_eq : (w : Option Origem) (o s : Origem) → w ≡ some o → is_origem w s ≡ true → s ≡ o
origem_eq none o s e h = cc
origem_eq (some x) o s e h =
    let same : x ≡ o = cc in sym (code_inj x s ((eqb_iff (code x) (code s)).0 h)) ∙ same

status_eq : (w : Option ℕ) (n : ℕ) (s : Option ℕ) → w ≡ some n → is_status w s ≡ true → s ≡ some n
status_eq none n s e h = cc
status_eq (some x) n none e h = cc
status_eq (some x) n (some s) e h =
    let same : x ≡ n = cc in ap some (sym ((eqb_iff x s).0 h) ∙ same)

text_eq :
    (w : Option String) (n : String) (s : Option String)
    → w ≡ some n
    → is_text w s ≡ true
    → s ≡ some n
text_eq none n s e h = cc
text_eq (some x) n none e h = cc
text_eq (some x) n (some s) e h = let same : x ≡ n = cc in ap some (sym ((eq_iff x s).0 h) ∙ same)

matches-Wanted :
    {Db : Type 0} (log : Log String Registro Db) (db : Db) (filter : Filtro) (r : Registro)
    → (log.table.find_unique db (log.table.key r) ≡ some r) × (matches filter r ≡ true)
    → Wanted log db filter r
unfolding matches
matches-Wanted log db filter r (f, h) =
    let (a, b, c, d, e) =
      five (is_origem filter.origem r.origem) (is_status filter.status r.status)
        (is_text (truthy_text filter.job_id) r.job_id)
        (is_text (truthy_text filter.referencia) r.referencia)
        (is_codigo filter.codigo_meta r.codigo_meta) h in
    record {
      found = f;
      origem = λ o q. origem_eq filter.origem o r.origem q a;
      status = λ n q. status_eq filter.status n r.status q b;
      job = λ j q. text_eq (truthy_text filter.job_id) j r.job_id q c;
      referencia = λ j q. text_eq (truthy_text filter.referencia) j r.referencia q d;
    }

-- Over a table that behaves as documented, a list of Meta's errors holds stored records only that
-- are of the origin, the status, the job and the reference that the filter sets, the latest first,
-- and at most as many as its limit, which is 50 where none is given.
pub find_many-ErrorListing :
    {Db : Type 0} (log : Log String Registro Db) (db : Db) (filter : Filtro)
    → LawfulLog log instant
    → ErrorListing log db filter (find_many log db filter)
unfolding find_many repo_find_many matches
find_many-ErrorListing log db filter good =
    let page =
      find_page-Page log instant good db (matches filter) (or_default filter.limit 50)
        (or_default filter.offset 0) in
    record {
      wanted = λ r m. matches-Wanted log db filter r (page.stored r m);
      descending = page.descending;
      bounded = page.bounded;
    }
