-- ===== src/Dispatch/Environments.antt =====
-- The environment that a dispatch reads, on `getAmbiente` of src/dispatch/dispatch-handler.service.ts,
-- where the services answer.
use mathlib.Core.Bool.{false≢true}
use whiz_gateway.Base.{
  ℕ, ◌<◌, String, ◌≡◌, ◌≢◌, ◌⊎◌, refl, sym, ap, ◌∙◌, ◌∷◌, ◌==◌, eq_iff, Bool-cases, Option, none,
  some, inl, inr,
}
use whiz_gateway.Effects.{Trace, ok, Morta, cached, Exec}
use whiz_gateway.Effects.Counts.{successes, dead_letters}
use whiz_gateway.Records.{Inbox, Ambiente}
use whiz_gateway.Dispatch.{Services, get_ambiente, ler_cache, cache_key, cached_text}

-- The repositories, Redis and the broker answer, Redis holds what was put there, the repository
-- finds an inbox by its id, and at least one round is configured.
pub record Answers (env : Services) : Type 0 where
  pub inbox : (t : Trace) (id : String) → (i : Option Inbox) × (env.find_inbox t id ≡ ok i)
  pub inbox_id :
      (t : Trace) (id : String) (i : Inbox) → env.find_inbox t id ≡ ok (some i) → i.id ≡ id
  pub ambiente : (t : Trace) (id : ℕ) → (a : Option Ambiente) × (env.find_ambiente t id ≡ ok a)
  pub get : (t : Trace) (k : String) → (v : Option String) × (env.redis_get t k ≡ ok v)
  pub set : (t : Trace) (k v : String) → env.redis_set t k v ≡ ok tt
  -- what Redis holds under the key of an environment is the JSON of one
  pub parse :
      (t : Trace) (id : ℕ) (v : String)
      → env.redis_get t (cache_key env id) ≡ ok (some v)
      → (a : Ambiente) × (env.parse_ambiente v ≡ ok a)
  pub queue : (t : Trace) (m : Morta) → env.send_to_queue t m ≡ ok tt
  pub rounds : 0 < env.max_retries

-- The environment of this number at `t`: what Redis holds of it, or, where it holds nothing or an
-- empty text, what the repository finds.
pub data Source (env : Services) (t : Trace) (id : ℕ) (a : Ambiente) : Type 0 where
  in_cache :
      (v : String)
      → env.redis_get t (cache_key env id) ≡ ok (some v)
      → v ≢ ""
      → env.parse_ambiente v ≡ ok a
      → Source env t id a
  in_table :
      (env.redis_get t (cache_key env id) ≡ ok none)
        ⊎ (env.redis_get t (cache_key env id) ≡ ok (some ""))
      → env.find_ambiente t id ≡ ok (some a)
      → Source env t id a

module _ (env : Services) (good : Answers env) where
  -- The reading of an environment answers with what stands there, and leaves the outcomes.
  pub record Quiet (m : Exec (Option Ambiente)) (id : ℕ) (t : Trace) : Type 0 where
    pub found : Option Ambiente
    pub after : Trace
    pub answer : m t ≡ (ok found, after)
    pub source : (a : Ambiente) → found ≡ some a → Source env t id a
    pub same_successes : successes after ≡ successes t
    pub same_letters : dead_letters after ≡ dead_letters t

  repository-Quiet :
      (id : ℕ) (t : Trace) (o : Option Ambiente)
      → env.find_ambiente t id ≡ ok o
      → (env.redis_get t (cache_key env id) ≡ ok none)
        ⊎ (env.redis_get t (cache_key env id) ≡ ok (some ""))
      → Quiet (ler_cache env id none) id t
  unfolding ler_cache
  repository-Quiet id t none e miss = record {
    found = none;
    after = t;
    answer = rw e;
    source = λ a h. cc;
    same_successes = refl;
    same_letters = refl;
  }
  repository-Quiet id t (some a) e miss = record {
    found = some a;
    after = cached (cache_key env id) (env.stringify_ambiente a) (ok tt) ∷ t;
    answer = rw (e, good.set);
    source = λ b h. in_table miss (e ∙ ap ok h);
    same_successes = refl;
    same_letters = refl;
  }

  ler_cache-Quiet :
      (id : ℕ) (v : Option String) (t : Trace)
      → env.redis_get t (cache_key env id) ≡ ok v
      → Quiet (ler_cache env id (cached_text env v)) id t
  unfolding ler_cache
  ler_cache-Quiet id none t e = let (o, f) = good.ambiente t id in repository-Quiet id t o f (inl e)
  ler_cache-Quiet id (some v) t e = elim (Bool-cases (v == "")) [
    | inl empty ↦
        let (o, f) = good.ambiente t id in
        rw empty
          (repository-Quiet id t o f (inr (e ∙ ap (λ x. ok (some x)) ((eq_iff v "").0 empty))))
    | inr full ↦
        let (a, read) = good.parse t id v e in
        rw full (record {
          found = some a;
          after = t;
          answer = rw read;
          source = λ b h.
              in_cache v e (λ q. absurd (false≢true (sym full ∙ (eq_iff v "").1 q)))
                (let same : a ≡ b = cc in read ∙ ap ok same);
          same_successes = refl;
          same_letters = refl;
        })
  ]

  pub get_ambiente-Quiet : (id : ℕ) (t : Trace) → Quiet (get_ambiente env id) id t
  unfolding get_ambiente
  get_ambiente-Quiet id t =
      let (v, e) = good.get t (cache_key env id) in
      let q = ler_cache-Quiet id v t e in
      record {
        found = q.found;
        after = q.after;
        answer = rw e q.answer;
        source = q.source;
        same_successes = q.same_successes;
        same_letters = q.same_letters;
      }
