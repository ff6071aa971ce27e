-- ===== src/Wpp/Tokens.antt =====
-- The token of a request, on `resolveToken` and `forward` of src/wpp/wpp.service.ts.
use Prim.Native.String as txt
use whiz_gateway.Base.{
  ◌≡◌, refl, sym, ap, ◌∙◌, String, true, false, Bool-cases, inl, inr, Option, none, some, List, [],
  ◌∷◌, All, ◌==◌, eq_iff, if◌then◌else◌,
}
use whiz_gateway.Wpp.{
  Services, ForwardOptions, put, spread, or_else, in_template, given, headers_forward, bearer,
}

-- The value under a key.
abbrev pub value_at : {A : Type 0} → String → List (String × A) → Option A
value_at j [] = none
value_at j ((k, v) ∷ o) = if k == j then some v else value_at j o

pub value_at-put_other :
    {A : Type 0} (j k : String) (v : A) (o : List (String × A))
    → (k == j) ≡ false
    → value_at j (put k v o) ≡ value_at j o
unfolding put
value_at-put_other j k v [] n = rw n refl
value_at-put_other j k v ((i, w) ∷ o) n = elim (Bool-cases (k == i)) [
  | inl y ↦
      let same : (i == j) ≡ false = ap (λ x. x == j) (sym ((eq_iff k i).0 y)) ∙ n in
      rw (y, same) refl
  | inr m ↦ elim (Bool-cases (i == j)) [
    | inl y ↦ rw (m, y) refl
    | inr z ↦ rw (m, z) (value_at-put_other j k v o n)
  ]
]

pub value_at-spread :
    {A : Type 0} (j : String) (o p : List (String × A))
    → All (λ (k, _). (k == j) ≡ false) p
    → value_at j (spread o p) ≡ value_at j o
unfolding spread
value_at-spread j o [] h = refl
value_at-spread j o ((k, v) ∷ p) h =
    value_at-spread j (put k v o) p h.1 ∙ value_at-put_other j k v o h.0

-- A forward whose own headers have no `Authorization` carries the bearer token: that of the
-- request's context if there is one and the app's is not forced, else that of the configuration.
pub headers_forward-Bearer :
    {Db : Type 0} (env : Services Db) (contexto : Option String) (opts : ForwardOptions)
    (token app : String)
    → env.meta_access_token ≡ some app
    → All (λ (k, _). (k == "Authorization") ≡ false) opts.headers
    → (opts.force_app_token ≡ true
        → value_at "Authorization" (headers_forward env contexto opts)
          ≡ some (txt.◌++◌ "Bearer " app))
      × (opts.force_app_token ≡ false
          → contexto ≡ none
          → value_at "Authorization" (headers_forward env contexto opts)
            ≡ some (txt.◌++◌ "Bearer " app))
      × (opts.force_app_token ≡ false
          → contexto ≡ some token
          → value_at "Authorization" (headers_forward env contexto opts)
            ≡ some (txt.◌++◌ "Bearer " token))
unfolding headers_forward
headers_forward-Bearer env contexto opts token app a other =
    let same =
      value_at-spread "Authorization"
        (("Authorization", bearer env contexto opts.force_app_token)
          ∷ (("Content-Type", given opts.content_type "application/json") ∷ []))
        opts.headers other in
    (
      (λ f. same ∙ (λ i.
          some
            (txt.◌++◌ "Bearer " (in_template (or_else (if f i then none else contexto) (a i)))))),
      (λ f c. same ∙ (λ i.
          some (txt.◌++◌ "Bearer " (in_template (or_else (if f i then none else c i) (a i)))))),
      λ f c. same ∙ (λ i. some (
          txt.◌++◌ "Bearer "
            (in_template (or_else (if f i then none else c i) env.meta_access_token)))),
    )
