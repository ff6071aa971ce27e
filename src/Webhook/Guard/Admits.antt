-- ===== src/Webhook/Guard/Admits.antt =====
-- On `canActivate` of src/webhook/guards/meta-signature.guard.ts: the verdict on a request.
use text.Mathlib.TextLemmas.{append-eq-nil_iff}
use mathlib.Core.Bool.{false≢true}
use whiz_gateway.Base.{
  ℕ, String, ◌≡◌, refl, sym, ap, ◌∙◌, ◌≢◌, ◌↔◌, ◌⊎◌, inl, inr, Bool, true, false, Option, none,
  some, List, [], ◌∷◌, ◌==◌, eq_iff, arith, Bool-cases, Option-cases,
}
use whiz_gateway.Json.{Json}
use whiz_gateway.Effects.{Result, ok, err, http, Trace, enqueued}
use whiz_gateway.Webhook.Guard.{
  Header, absent, one, many, Request, Services, timing_safe_equal, same_bytes, expected_signature,
  can_activate, com_assinatura, com_header, persist_to_dead_letter, parse_meta_shaped, rejeitada,
}

pub timing_safe_equal_refl : (xs : List ℕ) → timing_safe_equal xs xs ≡ true
unfolding timing_safe_equal
timing_safe_equal_refl [] = refl
timing_safe_equal_refl (a ∷ xs) = ground (arith, timing_safe_equal_refl xs)

pub timing_safe_equal_sound : (xs ys : List ℕ) → timing_safe_equal xs ys ≡ true → xs ≡ ys
unfolding timing_safe_equal
timing_safe_equal_sound [] [] h = refl
timing_safe_equal_sound (x ∷ xs) (y ∷ ys) h = ground (arith, timing_safe_equal_sound xs ys)
timing_safe_equal_sound [] (y ∷ ys) h = cc
timing_safe_equal_sound (x ∷ xs) [] h = cc

-- `Buffer.from` gives different texts different bytes.
abbrev pub Injective : (String → List ℕ) → Type 0
Injective f = (x y : String) → f x ≡ f y → x ≡ y

module _ (env : Services) (faithful : Injective env.utf8) where
  same_bytes_iff : (x y : String) → (same_bytes env x y ≡ true) ↔ (x ≡ y)
  unfolding same_bytes
  same_bytes_iff x y = (to, from)
    where
      to : same_bytes env x y ≡ true → x ≡ y
      to h = faithful x y (timing_safe_equal_sound (env.utf8 x) (env.utf8 y) (ground arith))

      from : x ≡ y → same_bytes env x y ≡ true
      from e = rw e (ground (arith, timing_safe_equal_refl (env.utf8 y)))

-- The request carries, as one text, the signature of its non-empty body.
pub record IsSigned (env : Services) (req : Request) (body : List ℕ) : Type 0 where
  pub header : req.signature ≡ one (expected_signature env body)
  pub carried : req.raw_body ≡ some body
  pub content : body ≢ []

-- What the guard does with a request.
pub data Verdict (env : Services) (req : Request) (t : Trace) : Result Bool × Trace → Type 0 where
  admitted : (body : List ℕ) → IsSigned env req body → Verdict env req t (ok true, t)
  incomplete :
      ((body : List ℕ) (s : String)
        → req.signature ≡ one s
        → req.raw_body ≡ some body
        → (s ≡ "") ⊎ (body ≡ []))
      → Verdict env req t (err (http 401), t)
  forged :
      (body : List ℕ) (s : String)
      → req.signature ≡ one s
      → req.raw_body ≡ some body
      → s ≢ expected_signature env body
      → parse_meta_shaped env body ≡ none
      → Verdict env req t (err (http 401), t)
  recorded :
      (body : List ℕ) (s : String) (payload : Json)
      → req.signature ≡ one s
      → req.raw_body ≡ some body
      → s ≢ expected_signature env body
      → parse_meta_shaped env body ≡ some payload
      → Verdict env req t (
        err (http 401),
        enqueued (rejeitada env payload) (env.send_to_queue t (rejeitada env payload)) ∷ t,
      )

module _ (env : Services) (faithful : Injective env.utf8) (req : Request) (t : Trace) where
  signed_verdict :
      (s : String) (raw : Option (List ℕ))
      → req.signature ≡ one s
      → req.raw_body ≡ raw
      → s ≢ ""
      → Verdict env req t (com_assinatura env s raw t)
  unfolding com_assinatura persist_to_dead_letter
  signed_verdict s none h b non = incomplete (λ _ _ _ c. cc)
  signed_verdict s (some []) h b non = incomplete (λ body _ _ c. inr (cc))
  signed_verdict s (some (x ∷ xs)) h b non =
      elim (Bool-cases (same_bytes env s (expected_signature env (x ∷ xs)))) [
        | inl same ↦ rw same (
            admitted (x ∷ xs) (record {
              header = h ∙ ap one ((same_bytes_iff env faithful _ _).0 same);
              carried = b;
              content = λ e. cc;
            }))
        | inr other ↦
            let differs = λ (e : s ≡ expected_signature env (x ∷ xs)).
              let f : false ≡ true = sym other ∙ (same_bytes_iff env faithful _ _).1 e in
              false≢true f in
            elim (Option-cases (parse_meta_shaped env (x ∷ xs))) [
              | inl no_meta ↦
                  rw (other, persist_to_dead_letter, no_meta)
                    (forged (x ∷ xs) s h b differs no_meta)
              | inr (p, meta) ↦
                  rw (other, persist_to_dead_letter, meta) (recorded (x ∷ xs) s p h b differs meta)
            ]
      ]

  header_verdict :
      (h : Header) → req.signature ≡ h → Verdict env req t (com_header env h req.raw_body t)
  unfolding com_header
  header_verdict absent h = incomplete (λ _ _ c. cc)
  header_verdict (many l) h = incomplete (λ _ _ c. cc)
  header_verdict (one s) h = elim (Bool-cases (s == "")) [
    | inl empty ↦
        rw empty
          (incomplete (λ _ x c _. let same : x ≡ s = cc in inl (same ∙ (eq_iff s "").0 empty)))
    | inr full ↦
        rw full
          (signed_verdict s req.raw_body h refl (λ e. false≢true (sym full ∙ (eq_iff s "").1 e)))
  ]

-- The guard does with every request what its verdict says: with its one signature header that of
-- its non-empty body, it is admitted with no effect; every other gets a 401, with no effect if the
-- header or the body is missing or empty or the body has not the form of a Meta webhook, and else
-- with one message for the dead-letter queue that carries the parsed body. The hypothesis is that
-- `Buffer.from` gives different texts different bytes.
pub can_activate-Verdict :
    (env : Services) (req : Request) (t : Trace)
    → Injective env.utf8
    → Verdict env req t (can_activate env req t)
unfolding can_activate
can_activate-Verdict env req t faithful = header_verdict env faithful req t req.signature refl

IsSigned-of :
    {env : Services} {req : Request} {t : Trace} {r : Result Bool × Trace}
    → Verdict env req t r
    → r.0 ≡ ok true
    → (body : List ℕ) × IsSigned env req body
IsSigned-of (admitted body s) e = (body, s)
IsSigned-of (incomplete c) e = cc
IsSigned-of (forged _ _ _ _ _ _) e = cc
IsSigned-of (recorded _ _ _ _ _ _ _) e = cc

expected_signature-ne-nil : (env : Services) (body : List ℕ) → expected_signature env body ≢ ""
unfolding expected_signature
expected_signature-ne-nil env body e =
    let p = (append-eq-nil_iff.0 e).0 in ground (arith, eq_iff "sha256=" "")

admitted_of :
    {env : Services} {req : Request} {t : Trace} {r : Result Bool × Trace} (body : List ℕ)
    → Verdict env req t r
    → IsSigned env req body
    → r.0 ≡ ok true
admitted_of body (admitted _ _) s = refl
admitted_of {env} body (incomplete c) s =
    elim (c body (expected_signature env body) s.header s.carried) [
      | inl none_sent ↦ absurd (expected_signature-ne-nil env body none_sent)
      | inr no_body ↦ absurd (s.content no_body)
    ]
admitted_of {env} body (forged b x h c differs _) s = absurd (differs (cc (s.header, s.carried)))
admitted_of {env} body (recorded b x _ h c differs _) s =
    absurd (differs (cc (s.header, s.carried)))

-- A request passes the guard exactly if its one signature header is `sha256=` and the HMAC of its
-- non-empty body under the secret, if `Buffer.from` gives different texts different bytes.
pub can_activate_iff :
    (env : Services) (req : Request) (t : Trace)
    → Injective env.utf8
    → ((can_activate env req t).0 ≡ ok true) ↔ ((body : List ℕ) × IsSigned env req body)
can_activate_iff env req t faithful =
    let v = can_activate-Verdict env req t faithful in (IsSigned-of v, λ s. admitted_of s.0 v s.1)
