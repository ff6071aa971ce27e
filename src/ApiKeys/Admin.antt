-- ===== src/ApiKeys/Admin.antt =====
-- src/api-keys/guards/admin-key.guard.ts and src/api-keys/guards/admin-or-api-key.guard.ts.
use Prim.Native.String as txt
use Prim.Native.Char.{code}
use text.Mathlib.TextLemmas.{nil-append, cons-append, nil≢cons}
use text.Mathlib.TextEquality.{Char-path}
use whiz_gateway.Base.{
  ◌≡◌, refl, sym, ap, ◌∙◌, ◌↔◌, String, Bool, true, false, Bool-cases, ◌⊎◌, inl, inr, Option, none,
  some, ◌==◌, eq_iff, eqb, eqb_iff, if◌then◌else◌,
}
use whiz_gateway.Effects.{Result, ok, err, http, outro}
use whiz_gateway.Webhook.Guard.{Header}
use whiz_gateway.Webhook.Guard.Admits.{Injective}
use whiz_gateway.ApiKeys.{Services, equal_bytes, api_key_guard}
use whiz_gateway.ApiKeys.Admission.{equal_bytes_iff}

-- What stands behind a prefix: `startsWith`, and `slice` by the prefix's length.
unfoldable pub behind : String → String → Option String
behind txt.[] s = some s
behind (txt.◌∷◌ c p) txt.[] = none
behind (txt.◌∷◌ c p) (txt.◌∷◌ d s) =
    let rest = behind p s in if eqb (code c) (code d) then rest else none

abbrev pub bearer_token : Option String → Option String
bearer_token none = none
bearer_token (some header) = if header == "" then none else behind "Bearer " header

abbrev pub or_api_key : Result Bool → Result Bool → Result Bool
or_api_key (ok true) other = ok true
or_api_key _ other = other

module _ {Db H : Type 0} (env : Services Db H) where
  abbrev pub compare_key : String → Option String → Result Bool
  compare_key token none = err (outro "TypeError")
  compare_key token (some admin_key) =
      if equal_bytes env token admin_key then ok true else err (http 401)

  abbrev pub com_token : Option String → Option String → Result Bool
  com_token admin_key none = err (http 401)
  com_token admin_key (some token) = compare_key token admin_key

  -- AdminKeyGuard.canActivate, on the `authorization` header and `ADMIN_API_KEY`
  unfoldable pub admin_key_guard : Option String → Option String → Result Bool
  unfolding behind
  admin_key_guard admin_key header = com_token admin_key (bearer_token header)

  -- AdminOrApiKeyGuard.canActivate
  unfoldable pub admin_or_api_key_guard : Option String → Option String → H → Header → Result Bool
  unfolding admin_key_guard api_key_guard
  admin_or_api_key_guard admin_key header h api_key =
      or_api_key (admin_key_guard admin_key header) (api_key_guard env h api_key)

behind_sound : (p s r : String) → behind p s ≡ some r → s ≡ txt.◌++◌ p r
unfolding behind
behind_sound txt.[] s r e = let same : s ≡ r = cc in same ∙ sym (nil-append r)
behind_sound (txt.◌∷◌ c p) txt.[] r e = cc
behind_sound (txt.◌∷◌ c p) (txt.◌∷◌ d s) r e = elim (Bool-cases (eqb (code c) (code d))) [
  | inl y ↦
      let same = Char-path c d ((eqb_iff (code c) (code d)).0 y) in
      (λ i. txt.◌∷◌ (sym same i) (behind_sound p s r (rw y at e) i)) ∙ sym (cons-append c p r)
  | inr n ↦ let absurd : none ≡ some r = rw n at e in cc
]

pub behind_total : (p r : String) → behind p (txt.◌++◌ p r) ≡ some r
unfolding behind
behind_total txt.[] r = ap some (nil-append r)
behind_total (txt.◌∷◌ c p) r =
    let same = (eqb_iff (code c) (code c)).1 refl in rw (cons-append c p r, same) (behind_total p r)

-- The header is `Bearer` and the administrator's key, which is configured.
abbrev pub IsAdmin : Option String → Option String → Type 0
IsAdmin admin_key header =
    (k : String) × (admin_key ≡ some k) × (header ≡ some (txt.◌++◌ "Bearer " k))

ok_inj : {A : Type 0} {a b : A} → some a ≡ some b → a ≡ b
ok_inj e = cc

bearer_full : (k : String) → (txt.◌++◌ "Bearer " k == "") ≡ false
bearer_full k = elim (Bool-cases (txt.◌++◌ "Bearer " k == "")) [
  | inl y ↦
      elim (nil≢cons
        (sym ((eq_iff (txt.◌++◌ "Bearer " k) "").0 y) ∙ cons-append "B" "earer " k)) [ ]
  | inr n ↦ n
]

bearer_token_sound :
    (header : Option String) (r : String)
    → bearer_token header ≡ some r
    → header ≡ some (txt.◌++◌ "Bearer " r)
bearer_token_sound none r e = cc
bearer_token_sound (some h) r e = elim (Bool-cases (h == "")) [
  | inl y ↦ let absurd : none ≡ some r = rw y at e in cc
  | inr n ↦ ap some (behind_sound "Bearer " h r (rw n at e))
]

bearer_token_total : (k : String) → bearer_token (some (txt.◌++◌ "Bearer " k)) ≡ some k
bearer_token_total k = rw (bearer_full k) (behind_total "Bearer " k)

module _ {Db H : Type 0} (env : Services Db H) (faithful : Injective env.utf8) where
  token_iff :
      (admin_key o : Option String)
      → (com_token env admin_key o ≡ ok true) ↔ ((k : String) × (admin_key ≡ some k) × (o ≡ some k))
  token_iff none none = ((λ e. cc), λ (k, a, b). cc)
  token_iff (some a) none = ((λ e. cc), λ (k, p, q). cc)
  token_iff none (some t) = ((λ e. cc), λ (k, p, q). cc)
  token_iff (some a) (some t) = elim (Bool-cases (equal_bytes env t a)) [
    | inl y ↦ ((λ e. (a, refl, ap some ((equal_bytes_iff env t a faithful).0 y))), λ q. rw y refl)
    | inr n ↦ (
      (λ e. let absurd : err (http 401) ≡ ok true = rw n at e in cc),
      λ (k, p, q).
          let good = (equal_bytes_iff env t a faithful).1 (ok_inj (q ∙ sym p)) in
          let absurd : true ≡ false = sym good ∙ n in cc,
    )
  ]

  admin_key_guard_iff :
      (admin_key header : Option String)
      → (admin_key_guard env admin_key header ≡ ok true) ↔ IsAdmin admin_key header
  unfolding admin_key_guard
  admin_key_guard_iff admin_key header = (
    (λ e.
        let (k, p, q) = (token_iff admin_key (bearer_token header)).0 e in
        (k, p, bearer_token_sound header k q)),
    λ (k, p, q).
        (token_iff admin_key (bearer_token header)).1
          (k, p, ap (λ h. bearer_token h) q ∙ bearer_token_total k),
  )

  either_iff : (a b : Result Bool) → (or_api_key a b ≡ ok true) ↔ ((a ≡ ok true) ⊎ (b ≡ ok true))
  either_iff (ok true) b = ((λ e. inl refl), λ q. refl)
  either_iff (ok false) b = ((λ e. inr e), λ q. elim q [ inl absurd ↦ cc | inr e ↦ e ])
  either_iff (err x) b = ((λ e. inr e), λ q. elim q [ inl absurd ↦ cc | inr e ↦ e ])

-- Where `Buffer.from` gives different texts different bytes, the guard that takes either admits a
-- request exactly if its `authorization` header is `Bearer` and the configured key of the
-- administrator, or the guard of API keys admits it.
pub admin_or_api_key_guard_iff :
    {Db H : Type 0} (env : Services Db H) (admin_key header : Option String) (h : H)
    (api_key : Header)
    → Injective env.utf8
    → (admin_or_api_key_guard env admin_key header h api_key ≡ ok true)
      ↔ (IsAdmin admin_key header ⊎ (api_key_guard env h api_key ≡ ok true))
unfolding admin_or_api_key_guard
admin_or_api_key_guard_iff env admin_key header h api_key faithful =
    let both =
      either_iff env faithful (admin_key_guard env admin_key header)
        (api_key_guard env h api_key) in
    let admin = admin_key_guard_iff env faithful admin_key header in
    (
      (λ e. elim (both.0 e) [ inl a ↦ inl (admin.0 a) | inr b ↦ inr b ]),
      λ q. both.1 (elim q [ inl a ↦ inl (admin.1 a) | inr b ↦ inr b ]),
    )
