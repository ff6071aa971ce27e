-- ===== src/Flows/Signed.antt =====
-- The signature of a request, on `verifySignature` of src/wpp-flows/wpp-flows-endpoint.service.ts.
use Prim.Native.String as txt
use mathlib.Core.Bool.{false≢true}
use whiz_gateway.Base.{
  ◌≡◌, ◌≢◌, ◌↔◌, sym, ◌∙◌, String, true, Bool-cases, inl, inr, Option, ◌==◌, eq_iff, arith,
}
use whiz_gateway.Webhook.Guard.Admits.{timing_safe_equal_refl, timing_safe_equal_sound}
use whiz_gateway.Flows.Endpoint.{Bytes, Crypto, given, verify_signature}

module _ (c : Crypto) (app_secret : Option String) (raw_body : Bytes) (signature : String) where
  -- The signature is a text whose bytes are those of `sha256=` and the HMAC of the body.
  pub record Signed : Type 0 where
    pub present : signature ≢ ""
    pub bytes :
        c.utf8 (txt.◌++◌ "sha256=" (c.hmac_sha256_hex (given app_secret "") raw_body))
        ≡ c.utf8 signature

  pub verify_signature_iff : (verify_signature c app_secret raw_body signature ≡ true) ↔ Signed
  unfolding verify_signature
  verify_signature_iff = (to, from)
    where
      expected : String
      expected = txt.◌++◌ "sha256=" (c.hmac_sha256_hex (given app_secret "") raw_body)

      to : verify_signature c app_secret raw_body signature ≡ true → Signed
      to h = elim (Bool-cases (signature == "")) [
        | inl y ↦ absurd (false≢true (rw y at h))
        | inr n ↦
            let both = rw n at h in
            record {
              present = λ e. absurd (false≢true (sym n ∙ (eq_iff signature "").1 e));
              bytes = timing_safe_equal_sound _ _ (ground (arith, both));
            }
      ]

      from : Signed → verify_signature c app_secret raw_body signature ≡ true
      from s = elim (Bool-cases (signature == "")) [
        | inl y ↦ absurd (s.present ((eq_iff signature "").0 y))
        | inr n ↦ rw (n, s.bytes) (ground (arith, timing_safe_equal_refl (c.utf8 signature)))
      ]
