-- ===== src/MetaErrors/Extractor/Located.antt =====
-- On `extrairErrosDeWebhook` of src/meta-error-logs/meta-webhook-errors.extractor.ts.
use whiz_gateway.Base.{
  String, ◌≡◌, ◌↔◌, ◌⊎◌, inl, inr, Option, none, some, List, [], ◌∷◌, In, here, there,
  In-append_left, In-append_right, In-append_cases,
}
use whiz_gateway.Json.{obj, Props, lookup, as_object, as_array, text}
use whiz_gateway.MetaErrors.Extractor.{
  ErroDeWebhook, Contexto, erro_de, coletar_erro, coletar_erros, visitar_status, visitar_statuses,
  pid_de, visitar_value, visitar_change, visitar_entry, extrair_erros_de_webhook, over_object,
  over_array, contexto_de_status,
}
use whiz_gateway.MetaErrors.Extractor.Places.{
  items, InErrors, at_error, InValue, of_status, of_account, InChange, at_value, InEntry, at_change,
  InPayload, at_entry,
}
use whiz_gateway.MetaErrors.Extractor.Adds.{
  Adds, Adds-iff, OfObject, Adds-over_array, Adds-object_at, Adds-compose,
}

coletar_erros-Adds :
    (node : Props) (contexto : Contexto)
    → Adds (coletar_erros node contexto) (InErrors node contexto)
unfolding coletar_erros
coletar_erros-Adds node contexto =
    Adds-iff (λ e. (λ q. at_error q.0 q.1 q.2, λ r. from e r))
      (Adds-over_array (coletar_erro node contexto) (λ b e. e ≡ erro_de node contexto b) push
        (as_array (lookup "errors" node)))
  where
    from :
        (e : ErroDeWebhook)
        → InErrors node contexto e
        → (o : Props) × In (obj o) (items "errors" node) × (e ≡ erro_de node contexto o)
    from e (at_error b m p) = (b, m, p)

    only_last :
        (b : Props) (e : ErroDeWebhook) (s : List ErroDeWebhook)
        → In e (erro_de node contexto b ∷ [])
        → In e s ⊎ (e ≡ erro_de node contexto b)
    only_last b e s (here p) = inr p
    only_last b e s (there m) = elim m [ ]

    push : (b : Props) → Adds (coletar_erro node contexto b) (λ e. e ≡ erro_de node contexto b)
    push b = record {
      keeps = λ e s m. In-append_left _ m;
      adds = λ e s q. In-append_right s (here q);
      only = λ e s m. elim (In-append_cases s m) [ inl l ↦ inl l | inr r ↦ only_last b e s r ];
    }

visitar_status-Adds :
    (waba_id pid : Option String) (status : Props)
    → Adds
        (visitar_status waba_id pid status)
        (InErrors status (contexto_de_status waba_id pid status))
unfolding visitar_status
visitar_status-Adds waba_id pid status =
    coletar_erros-Adds status (contexto_de_status waba_id pid status)

visitar_value-Adds :
    (waba_id : Option String) (value : Props)
    → Adds (visitar_value waba_id value) (InValue waba_id value)
unfolding visitar_value visitar_statuses
visitar_value-Adds waba_id value =
    Adds-iff (λ e. (to e, from e))
      (Adds-compose
        (Adds-over_array (visitar_status waba_id (pid_de value)) _
          (visitar_status-Adds waba_id (pid_de value)) (as_array (lookup "statuses" value)))
        (coletar_erros-Adds value
          (record { referencia = none; waba_id = waba_id; pid = pid_de value })))
  where
    Found : ErroDeWebhook → Type 0
    Found e =
        OfObject (λ st. InErrors st (contexto_de_status waba_id (pid_de value) st))
          (items "statuses" value) e
        ⊎ InErrors value (record { referencia = none; waba_id = waba_id; pid = pid_de value }) e

    to : (e : ErroDeWebhook) → Found e → InValue waba_id value e
    to e (inl (st, m, q)) = of_status st m q
    to e (inr q) = of_account q

    from : (e : ErroDeWebhook) → InValue waba_id value e → Found e
    from e (of_status st m q) = inl (st, m, q)
    from e (of_account q) = inr q

visitar_change-Adds :
    (waba_id : Option String) (change : Props)
    → Adds (visitar_change waba_id change) (InChange waba_id change)
unfolding visitar_change
visitar_change-Adds waba_id change =
    Adds-iff (λ e. (λ q. at_value q.0 q.1 q.2, from e))
      (Adds-object_at (visitar_value waba_id) (InValue waba_id) (visitar_value-Adds waba_id)
        (lookup "value" change))
  where
    from :
        (e : ErroDeWebhook)
        → InChange waba_id change e
        → (o : Props) × (lookup "value" change ≡ some (obj o)) × InValue waba_id o e
    from e (at_value v p q) = (v, p, q)

visitar_entry-Adds : (entry : Props) → Adds (visitar_entry entry) (InEntry entry)
unfolding visitar_entry
visitar_entry-Adds entry =
    Adds-iff (λ e. (λ q. at_change q.0 q.1 q.2, from e))
      (Adds-over_array (visitar_change (text (lookup "id" entry)))
        (InChange (text (lookup "id" entry))) (visitar_change-Adds (text (lookup "id" entry)))
        (as_array (lookup "changes" entry)))
  where
    from :
        (e : ErroDeWebhook)
        → InEntry entry e
        → OfObject (InChange (text (lookup "id" entry))) (items "changes" entry) e
    from e (at_change c m q) = (c, m, q)

payload-Adds :
    (payload : Props)
    → Adds
        (over_array
          (λ entry. over_object visitar_entry (as_object entry))
          (as_array (lookup "entry" payload)))
        (InPayload payload)
payload-Adds payload =
    Adds-iff (λ e. (λ q. at_entry q.0 q.1 q.2, from e))
      (Adds-over_array visitar_entry InEntry visitar_entry-Adds (as_array (lookup "entry" payload)))
  where
    from : (e : ErroDeWebhook) → InPayload payload e → OfObject InEntry (items "entry" payload) e
    from e (at_entry c m q) = (c, m, q)

-- An error record is extracted from a webhook exactly when some object of an `errors` array
-- gives it: of a status, then with the status id, or of a change's value, always with the id of
-- the entry and the phone number of the value; whatever the shape of the other nodes.
pub extrair_erros_de_webhook_iff :
    (payload : Props) (e : ErroDeWebhook)
    → In e (extrair_erros_de_webhook payload) ↔ InPayload payload e
unfolding extrair_erros_de_webhook
extrair_erros_de_webhook_iff payload e =
    let a = payload-Adds payload in
    (λ m. elim (a.only e [] m) [ inl old ↦ elim old [ ] | inr q ↦ q ], λ q. a.adds e [] q)
