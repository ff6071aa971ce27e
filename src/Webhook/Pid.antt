-- ===== src/Webhook/Pid.antt =====
-- On `extractPid` of src/webhook/webhook.service.ts: the place of the number in a payload.
use whiz_gateway.Base.{
  String, ◌≡◌, refl, ◌≢◌, ◌↔◌, Option, none, some, List, eq_iff, arith, ap, ◌∙◌,
}
use whiz_gateway.Json.{
  Json, null, bool, num, str, arr, obj, Props, Elems, nil, cons, lookup, get, elems, as_array, text,
  when_truthy,
}
use whiz_gateway.Webhook.{
  and_then, first, pid_de_metadata, pid_de_value, pid_de_change, pid_de_entry, primeiro_change,
  extract_pid,
}

-- `entry[0].changes[0].value.metadata.phone_number_id` is the non-empty text `pid`, each step on
-- the way being an object or the first element of an array.
pub data PidAt (payload : Props) (pid : String) : Type 0 where
  at_number :
      (entry change value metadata : Props) (entries changes : Elems)
      → lookup "entry" payload ≡ some (arr (cons (obj entry) entries))
      → lookup "changes" entry ≡ some (arr (cons (obj change) changes))
      → lookup "value" change ≡ some (obj value)
      → lookup "metadata" value ≡ some (obj metadata)
      → lookup "phone_number_id" metadata ≡ some (str pid)
      → pid ≢ ""
      → PidAt payload pid

text_of : (v : Option Json) (s : String) → text v ≡ some s → (v ≡ some (str s)) × (s ≢ "")
text_of (some (str x)) s h = ground (arith, eq_iff x "")
text_of (some null) s h = cc
text_of (some (bool b)) s h = cc
text_of (some (num b)) s h = cc
text_of (some (arr b)) s h = cc
text_of (some (obj b)) s h = cc
text_of none s h = cc

text_non_empty : (s : String) → s ≢ "" → text (some (str s)) ≡ some s
text_non_empty s h = ground (arith, eq_iff s "")

and_then-eq-some :
    {A B : Type 0} (o : Option A) (f : A → Option B) {b : B}
    → and_then o f ≡ some b
    → (a : A) × (o ≡ some a) × (f a ≡ some b)
and_then-eq-some none f h = cc
and_then-eq-some (some a) f h = (a, refl, h)

when_truthy-eq-some : (v : Option Json) {w : Json} → when_truthy v ≡ some w → v ≡ some w
when_truthy-eq-some none h = cc
when_truthy-eq-some (some v) h = ground arith

get-eq-some :
    (k : String) (v : Json) {w : Json}
    → get k v ≡ some w
    → (o : Props) × (v ≡ obj o) × (lookup k o ≡ some w)
get-eq-some k (obj o) h = (o, refl, h)
get-eq-some k _ h = cc

as_array-eq-some :
    (v : Option Json) {xs : List Json}
    → as_array v ≡ some xs
    → (vs : Elems) × (v ≡ some (arr vs)) × (elems vs ≡ xs)
as_array-eq-some (some (arr vs)) h = (vs, refl, ground arith)
as_array-eq-some _ h = cc

first-eq-some :
    (vs : Elems) {w : Json} → first (some (elems vs)) ≡ some w → (r : Elems) × (vs ≡ cons w r)
first-eq-some nil h = cc
first-eq-some (cons v r) h = (r, ground arith)

first_of_array :
    (v : Option Json) (a : Option (List Json)) {w : Json}
    → as_array v ≡ a
    → first a ≡ some w
    → (rest : Elems) × (v ≡ some (arr (cons w rest)))
first_of_array v none e h = cc
first_of_array v (some xs) {w} e h =
    let (vs, p, q) = as_array-eq-some v e in
    let (r, s) = first-eq-some vs {w = w} (rw q h) in (r, p ∙ ap (λ x. some (arr x)) s)

extract_pid_sound :
    (payload : Props) (pid : String) → extract_pid payload ≡ some pid → PidAt payload pid
unfolding extract_pid
extract_pid_sound payload pid h =
    let (entry, e₁, h₁) = and_then-eq-some (primeiro_change payload) pid_de_entry h in
    let (change, e₂, h₂) =
      and_then-eq-some (when_truthy (first (as_array (get "changes" entry)))) pid_de_change h₁ in
    let (value, e₃, h₃) = and_then-eq-some (when_truthy (get "value" change)) pid_de_value h₂ in
    let (metadata, e₄, h₄) =
      and_then-eq-some (when_truthy (get "metadata" value)) pid_de_metadata h₃ in
    let (e₅, non) = text_of (get "phone_number_id" metadata) pid h₄ in
    let (entries, p₁) =
      first_of_array (lookup "entry" payload) _ {w = entry} refl (when_truthy-eq-some _ e₁) in
    let (changes, p₂) =
      first_of_array (get "changes" entry) _ {w = change} refl (when_truthy-eq-some _ e₂) in
    let (eo, x₁, y₁) = get-eq-some "changes" entry p₂ in
    let (co, x₂, y₂) = get-eq-some "value" change (when_truthy-eq-some (get "value" change) e₃) in
    let (vo, x₃, y₃) =
      get-eq-some "metadata" value (when_truthy-eq-some (get "metadata" value) e₄) in
    let (mo, x₄, y₄) = get-eq-some "phone_number_id" metadata e₅ in
    at_number eo co vo mo entries changes (cc) (cc) (cc) (cc) y₄ non

-- A webhook's phone number id is found exactly when it is the non-empty text at
-- `entry[0].changes[0].value.metadata.phone_number_id`, whatever the shape of the payload.
pub extract_pid_iff :
    (payload : Props) (pid : String) → (extract_pid payload ≡ some pid) ↔ PidAt payload pid
unfolding extract_pid
extract_pid_iff payload pid = (extract_pid_sound payload pid, back)
  where
    back : PidAt payload pid → extract_pid payload ≡ some pid
    back (at_number e c v m es cs p₁ p₂ p₃ p₄ p₅ non) =
        rw (p₁, p₂, p₃, p₄, p₅) (text_non_empty pid non)
