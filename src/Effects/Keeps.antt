-- ===== src/Effects/Keeps.antt =====
-- Rules for actions that branch or continue.
use whiz_gateway.Base.{◌≡◌, refl, Bool, true, false, if◌then◌else◌}
use whiz_gateway.Effects.{Trace, Erro, Exec, Result, ok, err, continue}

-- What holds of both branches holds of the `if`.
pub if_both :
    {A : Type 0} (P : Result A × Trace → Type 0) (b : Bool) (m n : Exec A) (t : Trace)
    → P (m t)
    → P (n t)
    → P ((if b then m else n) t)
if_both P true m n t hm hn = hm
if_both P false m n t hm hn = hn

-- What `P` leads to `Q`: at an error at once, else by way of the rest.
pub continue_rule :
    {A B : Type 0} (Q : Result B × Trace → Type 0) (f : A → Exec B) (r : Result A × Trace)
    → ((a : A) → Q (f a r.1))
    → ((t : Trace) → t ≡ r.1 → (e : Erro) → Q (err e, t))
    → Q (continue f r)
continue_rule Q f (ok a, t) rest fails = rest a
continue_rule Q f (err e, t) rest fails = fails t refl e

-- The same, where each branch knows how the test came out.
pub if_split :
    {A : Type 0} (P : Result A × Trace → Type 0) (b : Bool) (m n : Exec A) (t : Trace)
    → (b ≡ true → P (m t))
    → (b ≡ false → P (n t))
    → P ((if b then m else n) t)
if_split P true m n t hm hn = hm refl
if_split P false m n t hm hn = hn refl
