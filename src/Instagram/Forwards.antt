-- ===== src/Instagram/Forwards.antt =====
-- On src/instagram-webhook: what a forward and a webhook with several inboxes leave in the trace.
use whiz_gateway.Base.{ℕ, String, ◌≡◌, [], ◌∷◌, List, Option, some, In, false}
use whiz_gateway.Json.{Props}
use whiz_gateway.Effects.{Trace, Result, ok, Post, raw, posted}
use whiz_gateway.Effects.Counts.{successes, dead_letters}
use whiz_gateway.Records.{Inbox, Ambiente}
use whiz_gateway.Dispatch.Environments.{Answers, Source}
use whiz_gateway.Dispatch.Exactly.{Ended}
use whiz_gateway.Instagram.{
  Services, Surface, surface_subpath, extract_pid, payload_for_dlq, post_to, sem_inbox, sem_barras,
  or_empty,
}
use Prim.Native.String as txt

-- A POST of these bytes to this URL, with the signature as it came and the configured secret.
pub record ToUrl (env : Services) (target : String) (b : List ℕ) (sig : Option String) (q : Post)
    : Type 0 where
  pub url : q.url ≡ target
  pub corpo : q.corpo ≡ raw b
  pub signature : In ("x-hub-signature-256", or_empty sig) q.headers
  pub secret : In ("x-callback-secret", env.base.callback_secret) q.headers

-- A POST of these bytes below the URL of the environment that an inbox has at `t`, which is not
-- deleted.
pub record ToSurface (env : Services) (t : Trace) (sub : String) (i : Inbox) (b : List ℕ)
    (sig : Option String) (q : Post) : Type 0 where
  pub ambiente : Ambiente
  pub source : Source env.base t i.id_ambiente ambiente
  pub in_use : ambiente.del ≡ false
  pub post : ToUrl env (txt.◌++◌ (sem_barras ambiente.url) sub) b sig q

module _ (env : Services) (good : Answers env.base) where
  module _ (inbox : Inbox) (target : String) (b : List ℕ) (sig : Option String) where
    abbrev tried : Result ℕ → Trace → Trace
    tried r t = posted (post_to env target b sig) r ∷ t

  -- Such a POST below the URL of this environment, where there is one that is not deleted.
  record ToFound (o : Option Ambiente) (sub : String) (b : List ℕ) (sig : Option String) (q : Post)
      : Type 0 where
    ambiente : Ambiente
    found : o ≡ some ambiente
    in_use : ambiente.del ≡ false
    post : ToUrl env (txt.◌++◌ (sem_barras ambiente.url) sub) b sig q

-- Of the inboxes one after the other, each is ended.
pub data Chain (env : Services) (sub : String) (b : List ℕ) (sig : Option String)
    : List Inbox → Trace → Trace → Type 0 where
  done : {t u : Trace} → u ≡ t → Chain env sub b sig [] t u
  link :
      {i : Inbox} {is : List Inbox} {t v : Trace} (u : Trace)
      → Ended (ToSurface env t sub i b sig) i.id (payload_for_dlq env b) t u
      → Chain env sub b sig is u v
      → Chain env sub b sig (i ∷ is) t v

-- From `t` to `u` a webhook comes to each of its inboxes, or, where it has none, gives one dead
-- letter without an inbox and no delivery.
pub data Reached (env : Services) (s : Surface) (b : List ℕ) (sig : Option String) (body : Props)
    (t u : Trace) : Type 0 where
  registered :
      (pid : String) (i : Inbox) (is : List Inbox)
      → extract_pid body ≡ some pid
      → env.find_all_by_pid t pid ≡ ok (i ∷ is)
      → Chain env (surface_subpath s) b sig (i ∷ is) t u
      → Reached env s b sig body t u
  unknown :
      ((pid : String) → extract_pid body ≡ some pid → env.find_all_by_pid t pid ≡ ok [])
      → successes u ≡ successes t
      → dead_letters u ≡ sem_inbox body ∷ dead_letters t
      → Reached env s b sig body t u

-- What is there of a page is answered.
abbrev pub Finds : Services → Type 0
Finds env = (t : Trace) (pid : String) → (is : List Inbox) × (env.find_all_by_pid t pid ≡ ok is)
