-- ===== src/Rabbit/Tags.antt =====
-- The tags of the consumers, on `stopConsuming` of src/rabbitmq/rabbitmq.service.ts.
use whiz_gateway.Base.{
  ◌≡◌, ◌≢◌, refl, sym, ap, subst, ◌∙◌, String, false, Bool-cases, inl, inr, Option, none, some,
  List, [], ◌∷◌, In, here, there, ◌==◌, eq_iff, eq_refl,
}
use whiz_gateway.Effects.{Erro, Result, ok, err}
use whiz_gateway.Resend.{truthy_text}
use whiz_gateway.Rabbit.{
  Client, tag_of, delete_tag, start_consuming, run_setups, reconnect, stop_consuming, cancelled,
  stop_tag,
}

tag_of-delete_own :
    (name : String) (tags : List (String × String)) → tag_of name (delete_tag name tags) ≡ none
unfolding tag_of delete_tag
tag_of-delete_own name [] = refl
tag_of-delete_own name ((k, tag) ∷ tags) = elim (Bool-cases (k == name)) [
  | inl y ↦ rw y (tag_of-delete_own name tags)
  | inr n ↦ rw (n, n) (tag_of-delete_own name tags)
]

tag_of-delete_other :
    (name other : String) (tags : List (String × String))
    → other ≢ name
    → tag_of other (delete_tag name tags) ≡ tag_of other tags
unfolding tag_of delete_tag
tag_of-delete_other name other [] n = refl
tag_of-delete_other name other ((k, tag) ∷ tags) n = elim (Bool-cases (k == name)) [
  | inl y ↦
      let own = (eq_iff k name).0 y in
      let miss : (k == other) ≡ false = elim (Bool-cases (k == other)) [
        | inl z ↦ elim (n (sym ((eq_iff k other).0 z) ∙ own)) [ ]
        | inr z ↦ z
      ] in
      rw (y, miss) (tag_of-delete_other name other tags n)
  | inr m ↦ elim (Bool-cases (k == other)) [
    | inl z ↦ rw (m, z) refl
    | inr z ↦ rw (m, z) (tag_of-delete_other name other tags n)
  ]
]

-- What a stop comes to: nothing for a queue that is not consumed; else its tag is cancelled, and
-- forgotten where that answers.
pub data Stopped (cancel : String → Result (Unit {0})) (name : String) (c : Client)
    (x : Result (Unit {0}) × Client) : Type 0 where
  idle : truthy_text (tag_of name c.tags) ≡ none → x ≡ (ok tt, c) → Stopped cancel name c x
  stopped :
      (tag : String) (c' : Client)
      → truthy_text (tag_of name c.tags) ≡ some tag
      → cancel tag ≡ ok tt
      → x ≡ (ok tt, c')
      → tag_of name c'.tags ≡ none
      → ((other : String) → other ≢ name → tag_of other c'.tags ≡ tag_of other c.tags)
      → c'.setups ≡ c.setups
      → Stopped cancel name c x
  refused :
      (tag : String)
      → truthy_text (tag_of name c.tags) ≡ some tag
      → (e : Erro) → cancel tag ≡ err e
      → x ≡ (err e, c)
      → Stopped cancel name c x

module _ (cancel : String → Result (Unit {0})) (name : String) (c : Client) where
  cancel-Stopped :
      (tag : String) (r : Result (Unit {0}))
      → truthy_text (tag_of name c.tags) ≡ some tag
      → cancel tag ≡ r
      → Stopped cancel name c (cancelled name c r)
  cancel-Stopped tag (err e) t q = refused tag t e q refl
  cancel-Stopped tag (ok tt) t q =
      stopped tag (record c { tags = delete_tag name c.tags }) t q refl
        (tag_of-delete_own name c.tags) (λ other n. tag_of-delete_other name other c.tags n) refl

  tag-Stopped :
      (o : Option String)
      → truthy_text (tag_of name c.tags) ≡ o
      → Stopped cancel name c (stop_tag cancel name c o)
  tag-Stopped none t = idle t refl
  tag-Stopped (some tag) t = cancel-Stopped tag (cancel tag) t refl

stop-setups :
    (cancel : String → Result (Unit {0})) (name : String) (c : Client) (o : Option String)
    → (stop_tag cancel name c o).1.setups ≡ c.setups
stop-setups cancel name c none = refl
stop-setups cancel name c (some tag) = go (cancel tag)
  where
    go : (r : Result (Unit {0})) → (cancelled name c r).1.setups ≡ c.setups
    go (ok tt) = refl
    go (err e) = refl

run_setups-In :
    (tag_for : String → String) (name : String) (names : List String)
    (tags : List (String × String))
    → In name names
    → tag_of name (run_setups tag_for names tags) ≡ some (tag_for name)
unfolding run_setups tag_of
run_setups-In tag_for name (k ∷ names) tags (here e) = rw (sym e, eq_refl name) refl
run_setups-In tag_for name (k ∷ names) tags (there m) = elim (Bool-cases (k == name)) [
  | inl y ↦ rw y (ap (λ x. some (tag_for x)) ((eq_iff k name).0 y))
  | inr n ↦ rw n (run_setups-In tag_for name names tags m)
]
run_setups-In tag_for name [] tags m = elim m [ ]

-- A stop of a queue that is consumed comes to what `Stopped` says; but its set-up stays with the
-- channel, so that whatever the stop came to the next connection consumes the queue again.
pub stop_consuming-Stopped :
    (tag_for : String → String) (cancel : String → Result (Unit {0})) (name : String) (c : Client)
    → Stopped cancel name
        (start_consuming tag_for name c)
        (stop_consuming cancel name (start_consuming tag_for name c))
      × (tag_of name
            (reconnect tag_for (stop_consuming cancel name (start_consuming tag_for name c)).1).tags
          ≡ some (tag_for name))
unfolding stop_consuming reconnect start_consuming
stop_consuming-Stopped tag_for cancel name c =
    let started = start_consuming tag_for name c in
    let tag = truthy_text (tag_of name started.tags) in
    (
      tag-Stopped cancel name started tag refl,
      run_setups-In tag_for name (stop_tag cancel name started tag).1.setups
          (stop_tag cancel name started tag).1.tags
          (subst (λ l. In name l) (sym (stop-setups cancel name started tag)) (here refl)),
    )
