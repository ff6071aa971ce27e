-- ===== src/Webhook/Guard/Handshake.antt =====
-- On `verify` of src/webhook/webhook.controller.ts.
use whiz_gateway.Base.{
  String, ◌≡◌, refl, sym, ap, ◌↔◌, true, ◌&&◌, Option, none, some, eq_iff, arith, Bool-cases, inl,
  inr,
}
use whiz_gateway.Effects.{ok}
use whiz_gateway.Webhook.Guard.{same_option, verify}

same_option_iff : (a b : Option String) → (same_option a b ≡ true) ↔ (a ≡ b)
same_option_iff none none = ((λ _. refl), λ _. refl)
same_option_iff none (some b) = ((λ e. cc), λ e. cc)
same_option_iff (some a) none = ((λ e. cc), λ e. cc)
same_option_iff (some a) (some b) =
    ((λ e. ap (λ x. some x) ((eq_iff a b).0 e)), λ e. (eq_iff a b).1 (cc))

-- A handshake is answered with its challenge exactly if its mode is `subscribe` and its token is the
-- one that is configured; every other is refused.
pub verify_iff :
    (expected mode token challenge answer : Option String)
    → (verify expected mode token challenge ≡ ok answer)
      ↔ ((mode ≡ some "subscribe") × (token ≡ expected) × (answer ≡ challenge))
unfolding verify
verify_iff expected mode token challenge answer = (to, from)
  where
    to :
        verify expected mode token challenge ≡ ok answer
        → (mode ≡ some "subscribe") × (token ≡ expected) × (answer ≡ challenge)
    to e = elim (Bool-cases (same_option mode (some "subscribe") && same_option token expected)) [
      | inl good ↦
          let q = rw good at e in
          (
            (same_option_iff mode (some "subscribe")).0 (ground arith),
            (same_option_iff token expected).0 (ground arith),
            cc,
          )
      | inr bad ↦ let q = rw bad at e in cc
    ]

    from :
        (mode ≡ some "subscribe") × (token ≡ expected) × (answer ≡ challenge)
        → verify expected mode token challenge ≡ ok answer
    from (m, k, a) =
        rw ((same_option_iff mode (some "subscribe")).1 m, (same_option_iff token expected).1 k)
          (ap (λ x. ok x) (sym a))
