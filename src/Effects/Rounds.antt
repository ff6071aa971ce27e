-- ===== src/Effects/Rounds.antt =====
-- One call that is repeated until it gets through, as it stands in a trace.
use whiz_gateway.Base.{ℕ, suc, ◌+◌, ◌*◌, ◌^◌, ◌≡◌, Option, none, some, ◌∷◌}
use whiz_gateway.Effects.{Trace, Post, Erro, ok, err, posted, waited}

-- From `t` to `u` stand at most `left` such POSTs: one that got through, with such a status, ends the
-- rounds; one that failed in the last round ends them with its error; after any other stands a
-- wait of `base * 2 ^ m`, and the next wait is twice as long.
pub data Rounds (To : Post → Type 0) (Through : ℕ → Type 0) (base : ℕ)
    : ℕ → ℕ → Option Erro → Trace → Trace → Type 0 where
  through :
      {left m : ℕ} {t u : Trace} (q : Post) (s : ℕ)
      → To q
      → Through s
      → u ≡ posted q (ok s) ∷ t
      → Rounds To Through base (suc left) m none t u
  gave_up :
      {m : ℕ} {t u : Trace} (q : Post) (x : Erro)
      → To q
      → u ≡ posted q (err x) ∷ t
      → Rounds To Through base 1 m (some x) t u
  again :
      {left m : ℕ} {o : Option Erro} {t u : Trace} (q : Post) (x : Erro)
      → To q
      → Rounds To Through base (suc left) (m + 1) o (waited (base * 2 ^ m) ∷ posted q (err x) ∷ t) u
      → Rounds To Through base (suc (suc left)) m o t u
