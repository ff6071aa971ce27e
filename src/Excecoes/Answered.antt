-- ===== src/Excecoes/Answered.antt =====
-- On `catch` of src/common/filters/global-exception.filter.ts: what is answered and what is reported.
use text.Mathlib.TextEquality.{starts_with_iff}
use text.Mathlib.Text.{starts_with}
use Prim.Native.String as txt
use whiz_gateway.Base.{
  ◌≡◌, ◌↔◌, ◌≤◌, ◌<◌, refl, sym, ◌∙◌, String, Bool, true, false, not, ◌&&◌, ◌||◌, Option, none,
  List, ◌∷◌, eqb, leb, ◌⊎◌, inl, inr, Bool-cases, arith, if◌then◌else◌,
}
use whiz_gateway.Effects.{Result, ok, err}
use whiz_gateway.Excecoes.{
  Excecao, Request, Contexto, Evento, capture_exception, capture_message, logged, answered,
  Services, resolve, eh_rota_de_ingestao, esta_habilitado, executar_com_protecao, aviso, sent,
  capturar_excecao_http, body_of, contexto_of, log_line, catch,
}

-- A path that begins with `/webhook`.
abbrev pub Ingestion : String → Type 0
Ingestion rota = (rest : String) × (txt.◌++◌ "/webhook" rest ≡ rota)

eh_rota_de_ingestao_iff : (rota : String) → (eh_rota_de_ingestao rota ≡ true) ↔ Ingestion rota
unfolding eh_rota_de_ingestao
eh_rota_de_ingestao_iff rota =
    let behind = starts_with_iff rota "/webhook" in
    elim (Bool-cases (starts_with rota "/webhook")) [
      | inl y ↦ rw y (λ _. behind.0 y, λ _. refl)
      | inr n ↦ rw n (λ e. let bad : false ≡ true = e in cc, λ h. sym n ∙ behind.1 h)
    ]

module _ (env : Services) where
  -- The SDK is initialised and takes the event.
  abbrev pub Takes : List Evento → Evento → Type 0
  Takes t e = (env.get_client t ≡ ok true) × (env.sdk e ≡ ok tt)

  -- The event that an exception calls for.
  abbrev pub Due : Excecao → Contexto → Evento → Type 0
  Due e c v =
      ((500 ≤ c.status_code) × (v ≡ capture_exception e c))
      ⊎ ((((c.status_code ≡ 401) ⊎ (c.status_code ≡ 403)) × Ingestion c.rota)
          × (v ≡ capture_message (aviso env e c) c))

  -- What the SDK is told of an exception: of a status from 500 on the exception; of 401 or 403 under
  -- `/webhook` a warning; else nothing. What the SDK does not take is dropped.
  pub data Reported (e : Excecao) (c : Contexto) (t : List Evento) : List Evento → Type 0 where
    reported :
        500 ≤ c.status_code
        → Takes t (capture_exception e c)
        → Reported e c t (capture_exception e c ∷ t)
    warned :
        (c.status_code ≡ 401) ⊎ (c.status_code ≡ 403)
        → Ingestion c.rota
        → Takes t (capture_message (aviso env e c) c)
        → Reported e c t (capture_message (aviso env e c) c ∷ t)
    refused : (v : Evento) → ¬ Takes t v → Due e c v → Reported e c t t
    expected :
        c.status_code < 500
        → ¬ (((c.status_code ≡ 401) ⊎ (c.status_code ≡ 403)) × Ingestion c.rota)
        → Reported e c t t

  -- The SDK's call ends with the event, or the SDK does not take it.
  executar_com_protecao_cases :
      (v : Evento) (t : List Evento)
      → (Takes t v × (executar_com_protecao env v t ≡ v ∷ t))
        ⊎ ((¬ Takes t v) × (executar_com_protecao env v t ≡ t))
  unfolding executar_com_protecao esta_habilitado
  executar_com_protecao_cases v t = by_answers (env.get_client t) (env.sdk v)
    where
      by_answers :
          (g : Result Bool) (s : Result (Unit {0}))
          → (((g ≡ ok true) × (s ≡ ok tt))
              × ((if (elim g [ ok b ↦ b | err _ ↦ false ]) then sent env v s t else t) ≡ v ∷ t))
            ⊎ ((¬ ((g ≡ ok true) × (s ≡ ok tt)))
                × ((if (elim g [ ok b ↦ b | err _ ↦ false ]) then sent env v s t else t) ≡ t))
      by_answers (ok true) (ok u) = inl ((refl, refl), refl)
      by_answers (ok true) (err x) = inr (λ h. let bad = h.1 in cc, refl)
      by_answers (ok false) s = inr (λ h. let bad = h.0 in cc, refl)
      by_answers (err x) s = inr (λ h. let bad = h.0 in cc, refl)

  sent-Reported :
      (e : Excecao) (c : Contexto) (t : List Evento) (v : Evento)
      → Due e c v
      → (Takes t v → Reported e c t (v ∷ t))
      → Reported e c t (executar_com_protecao env v t)
  sent-Reported e c t v kind take = elim (executar_com_protecao_cases v t) [
    | inl (takes, same) ↦ rw same (take takes)
    | inr (not, same) ↦ rw same (refused v not kind)
  ]

  capturar_excecao_http-Reported :
      (e : Excecao) (c : Contexto) (t : List Evento)
      → Reported e c t (capturar_excecao_http env e c t)
  unfolding capturar_excecao_http
  capturar_excecao_http-Reported e c t = elim (Bool-cases (leb 500 c.status_code)) [
    | inl y ↦ rw y (
        sent-Reported e c t (capture_exception e c) (inl (ground (arith, y), refl))
          (reported (ground (arith, y))))
    | inr n ↦
        elim (Bool-cases
          ((eqb c.status_code 401 || eqb c.status_code 403) && eh_rota_de_ingestao c.rota)) [
            | inl y ↦
                rw (n, y)
                  (sent-Reported e c t (capture_message (aviso env e c) c)
                    (inr ((denied c y, inside c y), refl)) (warned (denied c y) (inside c y)))
            | inr m ↦ rw (n, m) (expected (ground (arith, n)) (outside c m))
          ]
  ]
    where
      denied :
          (c : Contexto)
          → ((eqb c.status_code 401 || eqb c.status_code 403) && eh_rota_de_ingestao c.rota) ≡ true
          → (c.status_code ≡ 401) ⊎ (c.status_code ≡ 403)
      denied c y = ground (arith, y)

      inside :
          (c : Contexto)
          → ((eqb c.status_code 401 || eqb c.status_code 403) && eh_rota_de_ingestao c.rota) ≡ true
          → Ingestion c.rota
      inside c y = (eh_rota_de_ingestao_iff c.rota).0 (ground (arith, y))

      outside :
          (c : Contexto)
          → ((eqb c.status_code 401 || eqb c.status_code 403) && eh_rota_de_ingestao c.rota) ≡ false
          → ¬ (((c.status_code ≡ 401) ⊎ (c.status_code ≡ 403)) × Ingestion c.rota)
      outside c m h =
          let route = (eh_rota_de_ingestao_iff c.rota).1 h.1 in
          let codes = h.0 in ground (arith, m, route, codes)

  details_cases :
      (e : Excecao) (request : Option Request)
      → (env.production ≡ false) ⊎ ((body_of env e request).details ≡ none)
  details_cases e request = elim (Bool-cases env.production) [
    | inl y ↦ inr (rw y refl)
    | inr n ↦ inl n
  ]

-- Whatever the SDK does, what is thrown in a request is answered once, after it is logged, with the
-- status that the exception resolves to, and in production with no details; before that the SDK was
-- told of it as `Reported` says: of a status from 500 on the exception, of 401 or 403 under `/webhook`
-- a warning, and of no other anything.
pub catch-Answered :
    (env : Services) (e : Excecao) (request : Option Request) (t : List Evento)
    → (told : List Evento) × (catch env e request t
        ≡ answered (resolve e).0 (body_of env e request) ∷ (logged (log_line env e request) ∷ told))
      × Reported env e (contexto_of env e request) t told
      × ((env.production ≡ false) ⊎ ((body_of env e request).details ≡ none))
unfolding catch
catch-Answered env e request t = (
  capturar_excecao_http env e (contexto_of env e request) t,
  refl,
  capturar_excecao_http-Reported env e (contexto_of env e request) t,
  details_cases env e request,
)
