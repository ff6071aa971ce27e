-- ===== src/MetaErrors/Extractor/Adds.antt =====
-- Steps that add to an output, described by a predicate, for the loops of the extractor.
use whiz_gateway.Base.{
  ◌≡◌, refl, subst, ◌↔◌, ◌⊎◌, inl, inr, Option, none, some, List, [], ◌∷◌, In, here, there,
}
use whiz_gateway.Json.{Json, obj, Props, as_object}
use whiz_gateway.MetaErrors.Extractor.{ErroDeWebhook, for_each, over_object, over_array, object_at}
use whiz_gateway.MetaErrors.Extractor.Places.{elements}

abbrev pub Step : Type 0
Step = List ErroDeWebhook → List ErroDeWebhook

-- A step adds to the output exactly what satisfies `Q`.
pub record Adds (step : Step) (Q : ErroDeWebhook → Type 0) : Type 0 where
  pub keeps : (e : ErroDeWebhook) (s : List ErroDeWebhook) → In e s → In e (step s)
  pub adds : (e : ErroDeWebhook) (s : List ErroDeWebhook) → Q e → In e (step s)
  pub only : (e : ErroDeWebhook) (s : List ErroDeWebhook) → In e (step s) → In e s ⊎ Q e

pub Adds-none : {Q : ErroDeWebhook → Type 0} → ((e : ErroDeWebhook) → ¬ Q e) → Adds (λ s. s) Q
Adds-none none_fits = record {
  keeps = λ e s m. m;
  adds = λ e s q. absurd (none_fits e q);
  only = λ e s m. inl m;
}

-- The same step, with its additions described otherwise.
pub Adds-iff :
    {step : Step} {Q R : ErroDeWebhook → Type 0}
    → ((e : ErroDeWebhook) → Q e ↔ R e)
    → Adds step Q
    → Adds step R
Adds-iff same a = record {
  keeps = a.keeps;
  adds = λ e s r. a.adds e s ((same e).1 r);
  only = λ e s m. elim (a.only e s m) [ inl old ↦ inl old | inr q ↦ inr ((same e).0 q) ];
}

abbrev pub OfItem : (Json → ErroDeWebhook → Type 0) → List Json → ErroDeWebhook → Type 0
OfItem Q xs e = (x : Json) × In x xs × Q x e

-- The additions of a loop that passes over what is no object.
abbrev pub OfObject : (Props → ErroDeWebhook → Type 0) → List Json → ErroDeWebhook → Type 0
OfObject Q xs e = (o : Props) × In (obj o) xs × Q o e

abbrev pub IsObject : (Props → ErroDeWebhook → Type 0) → Json → ErroDeWebhook → Type 0
IsObject Q (obj o) e = Q o e
IsObject Q _ e = ⊥

module _ (step : Json → Step) (Q : Json → ErroDeWebhook → Type 0)
    (one : (x : Json) → Adds (step x) (Q x)) where
  pub keeps_each :
      (xs : List Json) (e : ErroDeWebhook) (s : List ErroDeWebhook)
      → In e s
      → In e (for_each step xs s)
  unfolding for_each
  keeps_each [] e s m = m
  keeps_each (x ∷ xs) e s m = keeps_each xs e (step x s) ((one x).keeps e s m)

  pub adds_each :
      (xs : List Json) (e : ErroDeWebhook) (s : List ErroDeWebhook) (y : Json)
      → In y xs
      → Q y e
      → In e (for_each step xs s)
  unfolding for_each
  adds_each [] e s y m q = elim m [ ]
  adds_each (x ∷ xs) e s y (here p) q =
      keeps_each xs e (step x s) ((one x).adds e s (subst (λ z. Q z e) p q))
  adds_each (x ∷ xs) e s y (there m) q = adds_each xs e (step x s) y m q

  pub only_each :
      (xs : List Json) (e : ErroDeWebhook) (s : List ErroDeWebhook)
      → In e (for_each step xs s)
      → In e s ⊎ OfItem Q xs e
  unfolding for_each
  only_each [] e s m = inl m
  only_each (x ∷ xs) e s m = elim (only_each xs e (step x s) m) [
    | inr (y, l, q) ↦ inr (y, there l, q)
    | inl k ↦ elim ((one x).only e s k) [ inl old ↦ inl old | inr q ↦ inr (x, here refl, q) ]
  ]

  pub Adds-for_each : (xs : List Json) → Adds (for_each step xs) (OfItem Q xs)
  Adds-for_each xs = record {
    keeps = keeps_each xs;
    adds = λ e s q. adds_each xs e s q.0 q.1 q.2;
    only = only_each xs;
  }

pub OfItem-IsObject :
    (Q : Props → ErroDeWebhook → Type 0) (xs : List Json) (e : ErroDeWebhook)
    → OfItem (IsObject Q) xs e ↔ OfObject Q xs e
OfItem-IsObject Q xs e = (to, λ q. (obj q.0, q.1, q.2))
  where
    to : OfItem (IsObject Q) xs e → OfObject Q xs e
    to (obj o, m, q) = (o, m, q)
    to (_, m, q) = absurd q

module _ (f : Props → Step) (Q : Props → ErroDeWebhook → Type 0)
    (one : (o : Props) → Adds (f o) (Q o)) where
  pub Adds-over_object : (v : Json) → Adds (over_object f (as_object v)) (IsObject Q v)
  unfolding over_object
  Adds-over_object (obj o) = one o
  Adds-over_object _ = Adds-none (λ e q. q)

  -- A loop over an array that passes over what is no object.
  pub Adds-over_array :
      (vs : Option (List Json))
      → Adds (over_array (λ v. over_object f (as_object v)) vs) (OfObject Q (elements vs))
  unfolding over_array
  Adds-over_array none = Adds-none (λ e q. elim q.1 [ ])
  Adds-over_array (some xs) =
      Adds-iff (OfItem-IsObject Q xs) (Adds-for_each _ (IsObject Q) Adds-over_object xs)

  -- A step on the object that a value is, if it is one.
  pub Adds-object_at :
      (v : Option Json)
      → Adds (over_object f (object_at v)) (λ e. (o : Props) × (v ≡ some (obj o)) × Q o e)
  unfolding over_object
  Adds-object_at none = Adds-none (λ e q. cc q.1)
  Adds-object_at (some (obj o)) =
      Adds-iff (λ e. (λ q. (o, refl, q), λ q. let p : q.0 ≡ o = cc q.1 in subst (λ x. Q x e) p q.2))
        (one o)
  Adds-object_at (some _) = Adds-none (λ e q. cc q.1)

pub Adds-compose :
    {f g : Step} {Q R : ErroDeWebhook → Type 0}
    → Adds f Q
    → Adds g R
    → Adds (λ s. g (f s)) (λ e. Q e ⊎ R e)
Adds-compose {f} {g} {Q} {R} a b = record {
  keeps = λ e s m. b.keeps e (f s) (a.keeps e s m);
  adds = λ e s q. elim q [ inl l ↦ b.keeps e (f s) (a.adds e s l) | inr r ↦ b.adds e (f s) r ];
  only = λ e s m. elim (b.only e (f s) m) [
    | inr r ↦ inr (inr r)
    | inl k ↦ elim (a.only e s k) [ inl old ↦ inl old | inr l ↦ inr (inl l) ]
  ];
}
