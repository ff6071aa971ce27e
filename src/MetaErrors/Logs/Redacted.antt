-- ===== src/MetaErrors/Logs/Redacted.antt =====
-- The secrets of a request, on `redigir` of src/meta-error-logs/meta-error-logs.service.ts.
use whiz_gateway.Base.{
  ℕ, suc, ◌-◌, ◌≡◌, refl, sym, subst, ◌∙◌, String, Bool, true, false, Bool-cases, inl, inr, Option,
  none, some, List, [], ◌∷◌, map, All, if◌then◌else◌,
}
use whiz_gateway.Effects.{Result, ok, err}
use whiz_gateway.Table.Logs.{Log, LawfulLog, kept}
use whiz_gateway.MetaErrors.Logs.Spelled.{Secret, redigido-Secret}
use whiz_gateway.MetaErrors.Extractor.{ErroDeWebhook}
use whiz_gateway.MetaErrors.Logs.{
  Campos, Registro, Dados, Sorteio, redigir, redigir_campo, registro_de, nova_chave, persistir,
  chave_se_gravou, persistir_todos, dados_de_webhook, handle_cron, removidos, anterior,
  ttl_erros_meta_ms,
}

abbrev pub instant : Registro → ℕ
instant r = r.data_ms

-- Every value under the name of a credential, in whatever case, is the mark.
abbrev pub Safe : Option Campos → Type 0
Safe none = Unit
Safe (some campos) = All (λ (nome, valor). Secret nome → valor ≡ some "[REDACTED]") campos

-- No record of the table holds a secret.
abbrev pub Clean : {Db : Type 0} → Log String Registro Db → Db → Type 0
Clean log db = (k : String) (r : Registro) → log.table.find_unique db k ≡ some r → Safe r.requisicao

campos-Safe : (campos : Campos) → Safe (some (map redigir_campo campos))
campos-Safe [] = tt
campos-Safe ((nome, valor) ∷ campos) = ((λ e. rw (redigido-Secret nome e) refl), campos-Safe campos)

pub redigir-Safe : (h : Option Campos) → Safe (redigir h)
unfolding redigir
redigir-Safe none = tt
redigir-Safe (some campos) = campos-Safe campos

module _ {Db : Type 0} (log : Log String Registro Db) (good : LawfulLog log instant) where
  some_eq : {A : Type 0} {a b : A} → some a ≡ some b → a ≡ b
  some_eq e = cc

  -- A record that is written, and one that stood there, are safe.
  choice-Safe :
      (b : Bool) (new r : Registro) (old : Option Registro)
      → Safe new.requisicao
      → ((s : Registro) → old ≡ some s → Safe s.requisicao)
      → (if b then some new else old) ≡ some r
      → Safe r.requisicao
  choice-Safe true new r old fresh before e = subst (λ x. Safe x.requisicao) (some_eq e) fresh
  choice-Safe false new r old fresh before e = before r e

  created-Clean :
      (db : Db) (k : String) (new : Registro)
      → Clean log db
      → Safe new.requisicao
      → (x : Result (Registro × Db)) → log.table.create db new ≡ x
      → Clean log (chave_se_gravou log k db x).1
  created-Clean db k new clean fresh (err e) q = clean
  created-Clean db k new clean fresh (ok (r, d)) q = λ j s f.
      let c = good.lawful.create_ok db new r d q in
      choice-Safe (log.table.keys.same (log.table.key new) j) new s (log.table.find_unique db j)
        fresh (clean j) (rw (c.after j) at f)

  pub persistir-Clean :
      (db : Db) (s : Sorteio) (dados : Dados)
      → Clean log db
      → Clean log (persistir log db s dados).1
  unfolding persistir registro_de
  persistir-Clean db (hex, agora) dados clean =
      created-Clean db (nova_chave hex) (registro_de (nova_chave hex) agora dados) clean
        (redigir-Safe dados.requisicao) _ refl

  pub persistir_todos-Clean :
      (db : Db) (ss : ℕ → Sorteio) (n : ℕ) (es : List ErroDeWebhook)
      → Clean log db
      → Clean log (persistir_todos log db ss n es).1
  unfolding persistir_todos
  persistir_todos-Clean db ss n [] clean = clean
  persistir_todos-Clean db ss n (e ∷ es) clean =
      persistir_todos-Clean (persistir log db (ss n) (dados_de_webhook e)).1 ss (suc n) es
        (persistir-Clean db (ss n) (dados_de_webhook e) clean)

  kept-some :
      (p : Registro → Bool) (o : Option Registro) (r : Registro) → kept p o ≡ some r → o ≡ some r
  kept-some p none r e = e
  kept-some p (some x) r e = elim (Bool-cases (p x)) [
    | inl y ↦ let absurd : none ≡ some r = rw y at e in cc
    | inr n ↦ rw n at e
  ]

  removed-Clean :
      (db : Db) (corte : ℕ) (x : Result (ℕ × Db))
      → log.delete_many db (anterior corte) ≡ x
      → Clean log db
      → Clean log (removidos log db x)
  removed-Clean db corte (err e) q clean = clean
  removed-Clean db corte (ok (n, d)) q clean = λ j r f. clean j r (
      kept-some (anterior corte) (log.table.find_unique db j) r
        (sym (good.delete_ok db (anterior corte) n d q j) ∙ f))

  pub handle_cron-Clean :
      (db : Db) (agora : ℕ) → Clean log db → Clean log (handle_cron log db agora)
  unfolding handle_cron
  handle_cron-Clean db agora clean = removed-Clean db (agora - ttl_erros_meta_ms) _ refl clean
