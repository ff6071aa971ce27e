-- ===== src/MetaErrors/Logs/Recorded.antt =====
-- The errors of a webhook and their records, on `persistirErrosDeWebhook` of
-- src/meta-error-logs/meta-error-logs.service.ts.
use mathlib.Core.Bool.{false≢true}
use whiz_gateway.Base.{
  sym, Bool-cases, inl, inr, if◌then◌else◌, ℕ, zero, suc, ◌+◌, ◌≡◌, ◌≢◌, ◌≤◌, refl, ap, subst, ◌∙◌,
  ◌↔◌, String, Bool, true, false, Option, none, some, List, [], ◌∷◌, arith,
}
use whiz_gateway.Json.{Props, Number}
use whiz_gateway.Effects.{Result, ok, err}
use whiz_gateway.Table.Logs.{Log, LawfulLog}
use whiz_gateway.MetaErrors.Extractor.{ErroDeWebhook, extrair_erros_de_webhook}
use whiz_gateway.MetaErrors.Logs.{
  Registro, Dados, Sorteio, registro_de, nova_chave, persistir, chave_se_gravou, persistir_todos,
  persistir_erros_de_webhook, dados_de_webhook, find_by_chave, or_absent,
}
use whiz_gateway.MetaErrors.Logs.Redacted.{instant}

pub record Sound {Db : Type 0} (log : Log String Registro Db) : Type 0 where
  pub lawful : LawfulLog log instant
  pub key_chave : (r : Registro) → log.table.key r ≡ r.chave

-- The record stands under its key, after a call that answered with the key; one that answered
-- with none changed nothing.
pub data Recorded {Db : Type 0} (log : Log String Registro Db) (db : Db) (s : Sorteio)
    (dados : Dados) (x : Option String × Db) : Type 0 where
  gravado :
      x.0 ≡ some (nova_chave s.0)
      → find_by_chave log x.1 (nova_chave s.0) ≡ ok (registro_de (nova_chave s.0) s.1 dados)
      → Recorded log db s dados x
  perdido : x ≡ (none, db) → Recorded log db s dados x

-- `get_elem? i`, by position
abbrev pub at : {A : Type 0} → List A → ℕ → Option A
at [] i = none
at (x ∷ xs) zero = some x
at (x ∷ xs) (suc i) = at xs i

other_key : {j k : String} (b : Bool) → ((b ≡ true) ↔ (j ≡ k)) → j ≢ k → b ≡ false
other_key true iff n = elim (n (iff.0 refl)) [ ]
other_key false iff n = refl

module _ {Db : Type 0} (log : Log String Registro Db) (good : Sound log) where
  -- What a creation that succeeded leaves under its key, and under another one.
  after_own :
      (db d : Db) (new r : Registro)
      → log.table.create db new ≡ ok (r, d)
      → log.table.find_unique d new.chave ≡ some new
  after_own db d new r q =
      let c = good.lawful.lawful.create_ok db new r d q in
      let self = (log.table.keys.same_iff new.chave new.chave).1 refl in
      rw (c.after new.chave, good.key_chave new, self) refl

  after_other :
      (db d : Db) (new r : Registro) (j : String)
      → log.table.create db new ≡ ok (r, d)
      → new.chave ≢ j
      → log.table.find_unique d j ≡ log.table.find_unique db j
  after_other db d new r j q n =
      let c = good.lawful.lawful.create_ok db new r d q in
      let miss =
        other_key (log.table.keys.same new.chave j) (log.table.keys.same_iff new.chave j) n in
      rw (c.after j, good.key_chave new, miss) refl

  pub persistir-Recorded :
      (db : Db) (s : Sorteio) (dados : Dados) → Recorded log db s dados (persistir log db s dados)
  unfolding persistir find_by_chave registro_de
  persistir-Recorded db (hex, agora) dados = go _ refl
    where
      go :
          (x : Result (Registro × Db))
          → log.table.create db (registro_de (nova_chave hex) agora dados) ≡ x
          → Recorded log db (hex, agora) dados (chave_se_gravou log (nova_chave hex) db x)
      go (err e) q = perdido refl
      go (ok (r, d)) q =
          gravado refl
            (ap (or_absent log) (after_own db d (registro_de (nova_chave hex) agora dados) r q))

  module _ (free : (r s : Registro) → log.table.clash r s ≡ false) (fits : Option Number → Bool)
      (column : (r : Registro) → log.table.admits r ≡ fits r.codigo_meta) where
    -- With a code that the column does not take nothing is stored.
    persistir_refused :
        (db : Db) (s : Sorteio) (dados : Dados)
        → fits dados.codigo_meta ≡ false
        → persistir log db s dados ≡ (none, db)
    unfolding persistir registro_de
    persistir_refused db (hex, agora) dados refused =
        let row = registro_de (nova_chave hex) agora dados in
        let (x, e) = good.lawful.lawful.create_refused db row (column row ∙ refused) in rw e refl

    -- With a fresh key, and a code that the column takes, the record is stored.
    persistir_total :
        (db : Db) (s : Sorteio) (dados : Dados)
        → log.table.find_unique db (nova_chave s.0) ≡ none
        → fits dados.codigo_meta ≡ true
        → (d : Db) × (persistir log db s dados ≡ (some (nova_chave s.0), d))
          × (log.table.find_unique d (nova_chave s.0)
              ≡ some (registro_de (nova_chave s.0) s.1 dados))
          × ((j : String)
              → nova_chave s.0 ≢ j
              → log.table.find_unique d j ≡ log.table.find_unique db j)
    unfolding persistir registro_de
    persistir_total db (hex, agora) dados new taken =
        let row = registro_de (nova_chave hex) agora dados in
        let (d, e) =
          good.lawful.lawful.create_total db row (rw (good.key_chave row) new) (column row ∙ taken)
            (λ j s f n. free row s) in
        (d, rw e refl, after_own db d row row e, λ j n. after_other db d row row j e n)

    module _ (ss : ℕ → Sorteio)
        (distinct : (i j : ℕ) → nova_chave (ss i).0 ≡ nova_chave (ss j).0 → i ≡ j) where
      abbrev pub Fresh : Db → ℕ → Type 0
      Fresh db n = (i : ℕ) → n ≤ i → log.table.find_unique db (nova_chave (ss i).0) ≡ none

      abbrev pub RecordedAt : Db → ℕ → ErroDeWebhook → Type 0
      RecordedAt d k e =
          log.table.find_unique d (nova_chave (ss k).0)
          ≡ some (registro_de (nova_chave (ss k).0) (ss k).1 (dados_de_webhook e))

      -- The keys of the errors whose code the column takes, in their order, from the draw `n` on.
      abbrev pub keys_of : ℕ → List ErroDeWebhook → List String
      keys_of n [] = []
      keys_of n (e ∷ es) =
          let rest = keys_of (suc n) es in
          if fits e.codigo then nova_chave (ss n).0 ∷ rest else rest

      -- These errors are recorded, in their order, each under the key of its own draw, the other
      -- errors are not, and older records stay.
      pub record Stored (db : Db) (n : ℕ) (es : List ErroDeWebhook) (x : List String × Db)
          : Type 0 where
        pub keys : x.0 ≡ keys_of n es
        pub rows :
            (i : ℕ) (e : ErroDeWebhook)
            → at es i ≡ some e
            → fits e.codigo ≡ true
            → RecordedAt x.1 (n + i) e
        pub lost :
            (i : ℕ) (e : ErroDeWebhook)
            → at es i ≡ some e
            → fits e.codigo ≡ false
            → log.table.find_unique x.1 (nova_chave (ss (n + i)).0) ≡ none
        pub others :
            (j : String)
            → ((i : ℕ) → n ≤ i → nova_chave (ss i).0 ≢ j)
            → log.table.find_unique x.1 j ≡ log.table.find_unique db j

      late : (n i : ℕ) → suc n ≤ i → nova_chave (ss i).0 ≢ nova_chave (ss n).0
      late n i l f = let g = distinct i n f in omega (arith, g, l)

      -- A row of the rest is a row of the whole, one position later.
      later_row :
          (x : Db) (n i : ℕ) (e : ErroDeWebhook)
          → RecordedAt x (suc n + i) e
          → RecordedAt x (n + suc i) e
      later_row x n i e h =
          let z : suc n + i ≡ n + suc i = omega arith in subst (λ k. RecordedAt x k e) z h

      later_none :
          (x : Db) (n i : ℕ)
          → log.table.find_unique x (nova_chave (ss (suc n + i)).0) ≡ none
          → log.table.find_unique x (nova_chave (ss (n + suc i)).0) ≡ none
      later_none x n i h =
          let z : suc n + i ≡ n + suc i = omega arith in
          subst (λ k. log.table.find_unique x (nova_chave (ss k).0) ≡ none) z h

      -- One more error before the others, which is recorded.
      first-Stored :
          (db d : Db) (n : ℕ) (e : ErroDeWebhook) (es : List ErroDeWebhook) (x : List String × Db)
          → fits e.codigo ≡ true
          → RecordedAt d n e
          → ((j : String)
              → nova_chave (ss n).0 ≢ j
              → log.table.find_unique d j ≡ log.table.find_unique db j)
          → Stored d (suc n) es x
          → Stored db n (e ∷ es) (nova_chave (ss n).0 ∷ x.0, x.1)
      first-Stored db d n e es x taken own rest ih = record {
        keys = rw taken (ap (λ ks. nova_chave (ss n).0 ∷ ks) ih.keys);
        rows = row;
        lost = none_left;
        others = λ j away.
            ih.others j (λ i l. away i (omega (arith, l))) ∙ rest j (away n (omega arith));
      }
        where
          row :
              (i : ℕ) (f : ErroDeWebhook)
              → at (e ∷ es) i ≡ some f
              → fits f.codigo ≡ true
              → RecordedAt x.1 (n + i) f
          row zero f q t =
              let same : e ≡ f = cc in
              let z : n ≡ n + 0 = omega arith in
              subst (λ k. RecordedAt x.1 k f) z
                (subst (RecordedAt x.1 n) same
                  (ih.others (nova_chave (ss n).0) (λ i l. late n i l) ∙ own))
          row (suc i) f q t = later_row x.1 n i f (ih.rows i f q t)

          none_left :
              (i : ℕ) (f : ErroDeWebhook)
              → at (e ∷ es) i ≡ some f
              → fits f.codigo ≡ false
              → log.table.find_unique x.1 (nova_chave (ss (n + i)).0) ≡ none
          none_left zero f q t =
              let same : e ≡ f = cc in
              absurd (false≢true (sym t ∙ ap (λ y. fits y.codigo) (sym same) ∙ taken))
          none_left (suc i) f q t = later_none x.1 n i (ih.lost i f q t)

      -- One more error before the others, which is lost.
      first_lost :
          (db : Db) (n : ℕ) (e : ErroDeWebhook) (es : List ErroDeWebhook) (x : List String × Db)
          → fits e.codigo ≡ false
          → log.table.find_unique db (nova_chave (ss n).0) ≡ none
          → Stored db (suc n) es x
          → Stored db n (e ∷ es) x
      first_lost db n e es x refused empty ih = record {
        keys = rw refused ih.keys;
        rows = row;
        lost = none_left;
        others = λ j away. ih.others j (λ i l. away i (omega (arith, l)));
      }
        where
          row :
              (i : ℕ) (f : ErroDeWebhook)
              → at (e ∷ es) i ≡ some f
              → fits f.codigo ≡ true
              → RecordedAt x.1 (n + i) f
          row zero f q t =
              let same : e ≡ f = cc in
              absurd (false≢true (sym refused ∙ ap (λ y. fits y.codigo) same ∙ t))
          row (suc i) f q t = later_row x.1 n i f (ih.rows i f q t)

          none_left :
              (i : ℕ) (f : ErroDeWebhook)
              → at (e ∷ es) i ≡ some f
              → fits f.codigo ≡ false
              → log.table.find_unique x.1 (nova_chave (ss (n + i)).0) ≡ none
          none_left zero f q t =
              let z : n ≡ n + 0 = omega arith in
              subst (λ k. log.table.find_unique x.1 (nova_chave (ss k).0) ≡ none) z
                (ih.others (nova_chave (ss n).0) (λ i l. late n i l) ∙ empty)
          none_left (suc i) f q t = later_none x.1 n i (ih.lost i f q t)

      persistir_todos-Stored :
          (db : Db) (n : ℕ) (es : List ErroDeWebhook)
          → Fresh db n
          → Stored db n es (persistir_todos log db ss n es)
      unfolding persistir_todos
      persistir_todos-Stored db n [] fresh = record {
        keys = refl;
        rows = λ i e q t. cc;
        lost = λ i e q t. cc;
        others = λ j away. refl;
      }
      persistir_todos-Stored db n (e ∷ es) fresh = elim (Bool-cases (fits e.codigo)) [
        | inl taken ↦
            let (d, q, own, rest) =
              persistir_total db (ss n) (dados_de_webhook e) (fresh n (omega arith))
                (unfold dados_de_webhook in taken) in
            let fresh' : Fresh d (suc n) = λ i l.
              rest (nova_chave (ss i).0) (λ f. late n i l (sym f)) ∙ fresh i (omega (arith, l)) in
            rw q (
              first-Stored db d n e es _ taken own rest
                (persistir_todos-Stored d (suc n) es fresh'))
        | inr refused ↦
            rw
              (persistir_refused db (ss n) (dados_de_webhook e)
                (unfold dados_de_webhook in refused))
              (first_lost db n e es _ refused (fresh n (omega arith))
                (persistir_todos-Stored db (suc n) es (λ i l. fresh i (omega (arith, l)))))
      ]

-- Over a table that behaves as documented, with no second unique constraint, whose rows are admitted
-- exactly if the column takes their code, and draws that give a new key each: every error of a
-- webhook whose code the column takes is recorded, under a key of its own and in the order in which it
-- is found, and these keys are answered in this order; the other errors are lost, their keys are not
-- answered and nothing stands under them; and what stood under another key stays.
pub persistir_erros_de_webhook-Stored :
    {Db : Type 0} (log : Log String Registro Db) (db : Db) (ss : ℕ → Sorteio) (payload : Props)
    (good : Sound log) (free : (r s : Registro) → log.table.clash r s ≡ false)
    (fits : Option Number → Bool)
    (column : (r : Registro) → log.table.admits r ≡ fits r.codigo_meta)
    (distinct : (i j : ℕ) → nova_chave (ss i).0 ≡ nova_chave (ss j).0 → i ≡ j)
    → Fresh log good free fits column ss distinct db 0
    → Stored log good free fits column ss distinct db 0
        (extrair_erros_de_webhook payload)
        (persistir_erros_de_webhook log db ss payload)
unfolding persistir_erros_de_webhook
persistir_erros_de_webhook-Stored log db ss payload good free fits column distinct fresh =
    persistir_todos-Stored log good free fits column ss distinct db 0
      (extrair_erros_de_webhook payload) fresh
