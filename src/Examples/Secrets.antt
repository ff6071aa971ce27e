-- ===== src/Examples/Secrets.antt =====
-- The API keys over a list of rows and a Redis hash that is a list of fields.
use whiz_gateway.Base.{
  Option, ◌⊎◌, ◌≡◌, refl, ap, ◌≢◌, ◌↔◌, ◌⊎◌, inl, inr, Bool, true, false, not, String, some, List,
  [], ◌∷◌, In, here, there, select, ◌==◌, eq_iff, arith,
}
use whiz_gateway.Effects.{ok}
use whiz_gateway.Table.Rows.{rows, find, text_key, In-select_to, In-select_from}
use whiz_gateway.Table.Rows.Lawfulness.{rows-Lawful}
use whiz_gateway.Webhook.Guard.{one}
use whiz_gateway.ApiKeys.{ApiKey, Hash, Services, State, api_key_guard}
use whiz_gateway.ApiKeys.Agreement.{Sound, Agrees}
use whiz_gateway.ApiKeys.Admin.{admin_or_api_key_guard, IsAdmin, admin_or_api_key_guard_iff}
use whiz_gateway.ApiKeys.Admission.{Op, creates, revokes, starts, run, IsKey, api_key_guard-run}
use whiz_gateway.Examples.Encoding.{write_entry, read_entry, read_entry-write}
use whiz_gateway.Examples.Requests.{codes, codes_inj}

abbrev Fields : Type 0
Fields = List (String × String)

abbrev other : String → String × String → Bool
other k x = not (x.0 == k)

abbrev without : String → Fields → Fields
without k = select (other k)

module _ (k : String) (h : Fields) (j w : String) where
  without_to : In (j, w) (without k h) → (j ≢ k) × In (j, w) h
  without_to m =
      let (n, e) = In-select_to text_key (λ x. x.0) (λ x y. false) (other k) (j, w) h m in
      ((λ q. let hit = (eq_iff j k).1 q in ground arith), n)

  without_from : (j ≢ k) × In (j, w) h → In (j, w) (without k h)
  without_from (n, m) =
      In-select_from text_key (λ x. x.0) (λ x y. false) (other k) (j, w) h m
        (ground (arith, eq_iff j k))

  hset_to :
      (v : String)
      → In (j, w) ((k, v) ∷ without k h)
      → ((j ≡ k) × (w ≡ v)) ⊎ ((j ≢ k) × In (j, w) h)
  hset_to v (here e) = inl (ap (λ x. x.0) e, ap (λ x. x.1) e)
  hset_to v (there m) = inr (without_to m)

  hset_from :
      (v : String)
      → ((j ≡ k) × (w ≡ v)) ⊎ ((j ≢ k) × In (j, w) h)
      → In (j, w) ((k, v) ∷ without k h)
  hset_from v (inl (e, f)) = here (cc)
  hset_from v (inr m) = there (without_from m)

abbrev fields : Hash Fields
fields = record {
  entries = λ h. h;
  hset = λ h k v. (k, v) ∷ without k h;
  hdel = λ h k. without k h;
  entries-hset = λ h k v j w. (hset_to k h j w v, hset_from k h j w v);
  entries-hdel = λ h k j w. (without_to k h j w, without_from k h j w);
}

-- A digest that is the text itself.
abbrev keys : Services (List ApiKey) Fields
keys = record {
  table = rows text_key (λ k. k.uid) (λ a b. false);
  hash = fields;
  answers = λ h k. ok tt;
  stringify = write_entry;
  parse = read_entry;
  utf8 = codes;
  sha256_hex = λ s. s;
}

keys-Sound : Sound keys
unfolding rows
keys-Sound = record {
  lawful = rows-Lawful text_key (λ k. k.uid) (λ a b. false);
  key_uid = λ k. refl;
  up = λ h k. refl;
  round_trip = read_entry-write;
}

abbrev nothing : State (List ApiKey) Fields
nothing = record { db = []; cache = [] }

nothing-Agrees : Agrees keys nothing
unfolding rows find
nothing-Agrees uid v = ((λ m. elim m [ ]), λ l. absurd (no_row uid l.row l.active.stored))
  where
    no_row : (u : String) (k : ApiKey) → find text_key (λ x. x.uid) (λ a b. false) [] u ≡ some k → ⊥
    no_row u k e = cc

abbrev history : List Op
history = creates "u" "k" "s" "ops" 1 ∷ creates "w" "q" "s" "dev" 2 ∷ revokes "u" ∷ starts ∷ []

abbrev given_key : String
given_key = "q"

api_key_guard-run_example :
    (api_key_guard keys (run keys nothing history).cache (one given_key) ≡ ok true)
    ↔ ((given_key ≢ "") × IsKey keys (run keys nothing history).db given_key)
api_key_guard-run_example =
    api_key_guard-run keys nothing history given_key keys-Sound codes_inj nothing-Agrees

abbrev admin_key : Option String
admin_key = some "adm"

abbrev authorization : Option String
authorization = some "Bearer adm"

admin_or_api_key_guard_iff_example :
    (admin_or_api_key_guard keys admin_key authorization [] (one given_key) ≡ ok true)
    ↔ (IsAdmin admin_key authorization ⊎ (api_key_guard keys [] (one given_key) ≡ ok true))
admin_or_api_key_guard_iff_example =
    admin_or_api_key_guard_iff keys admin_key authorization [] (one given_key) codes_inj
