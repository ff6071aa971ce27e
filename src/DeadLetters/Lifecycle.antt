-- ===== src/DeadLetters/Lifecycle.antt =====
-- The life of a stored dead letter, on src/dead-letter/repositories/dead-letter.prisma.repository.ts
-- and src/dead-letter/dead-letter-cleanup.service.ts.
use whiz_gateway.Base.{
  ℕ, ◌+◌, ◌-◌, ◌≡◌, ◌≢◌, ◌≤◌, ◌↔◌, refl, sym, ap, subst, ◌∙◌, String, Bool, true, false, Bool-cases,
  Option, none, some, List, [], ◌∷◌, In, inl, inr, arith, if◌then◌else◌,
}
use whiz_gateway.Effects.{Result, ok, err, Morta}
use whiz_gateway.Table.Logs.{Log, LawfulLog, kept}
use whiz_gateway.Resend.{Mensagem}
use whiz_gateway.DeadLetters.{
  ListQuery, Dates, create, answered, soft_delete, delete_found, mark_reenviado, handle_cron,
  hard_delete_older_than, done, counted, removed, resent, older_than, new_row, find_many,
  thirty_days_ms,
}
use whiz_gateway.DeadLetters.Lists.{instant, find_many-Listing}

-- What changes the stored messages.
pub data Op : Type 0 where
  -- a new message, with the identifier and the instant that the database gives
  stored : String → ℕ → Morta → Op
  deleted : String → Op
  resent_at : String → Op
  -- the daily clean-up, at an instant
  cleaned : ℕ → Op

-- The database gives no identifier twice.
abbrev pub Other : String → Op → Type 0
Other id (stored new agora m) = new ≢ id
Other id _ = Unit

abbrev pub Others : String → List Op → Type 0
Others id [] = Unit
Others id (o ∷ os) = Other id o × Others id os

-- The message is absent or marked as removed.
abbrev pub Hidden : Option Mensagem → Type 0
Hidden none = Unit
Hidden (some m) = m.del ≡ true

pub record Sound {Db : Type 0} (log : Log String Mensagem Db) : Type 0 where
  pub lawful : LawfulLog log instant
  pub key_id : (m : Mensagem) → log.table.key m ≡ m.id

module _ {Db : Type 0} (log : Log String Mensagem Db) where
  unfoldable pub apply : Op → Db → Db
  apply (stored id agora m) db = (create log db id agora m).1
  apply (deleted id) db = (soft_delete log db id).1
  apply (resent_at id) db = (mark_reenviado log db id).1
  apply (cleaned agora) db = (handle_cron log db agora).1

  unfoldable pub run : List Op → Db → Db
  unfolding apply
  run [] db = db
  run (o ∷ os) db = run os (apply o db)

module _ {Db : Type 0} (log : Log String Mensagem Db) (good : Sound log) where
  same_id : (j k : String) → log.table.keys.same j k ≡ true → j ≡ k
  same_id j k e = (log.table.keys.same_iff j k).0 e

  -- A row that is written under another key leaves this one as it is.
  written :
      (id j : String) (x : Mensagem) (o : Option Mensagem)
      → (j ≡ id → Hidden (some x))
      → Hidden o
      → Hidden (if log.table.keys.same j id then some x else o)
  written id j x o new old = elim (Bool-cases (log.table.keys.same j id)) [
    | inl y ↦ rw y (new (same_id j id y))
    | inr n ↦ rw n old
  ]

  kept-Hidden : (p : Mensagem → Bool) (o : Option Mensagem) → Hidden o → Hidden (kept p o)
  kept-Hidden p none h = tt
  kept-Hidden p (some m) h = elim (Bool-cases (p m)) [ inl y ↦ rw y tt | inr n ↦ rw n h ]

  module _ (id : String) (db : Db) (h : Hidden (log.table.find_unique db id)) where
    abbrev Stays : Db → Type 0
    Stays d = Hidden (log.table.find_unique d id)

    -- An update that keeps the mark of removal keeps the message hidden.
    updated-Hidden :
        (j : String) (f : Mensagem → Mensagem)
        → ((m : Mensagem) → m.del ≡ true → (f m).del ≡ true)
        → (r : Result (Mensagem × Db)) → log.table.update db j f ≡ r
        → Stays (done log db r).1
    updated-Hidden j f keeps (err e) q = h
    updated-Hidden j f keeps (ok (m, d)) q =
        let u = good.lawful.lawful.update_ok db j f m d q in
        rw (u.after id) (
          written id j (f u.row) (log.table.find_unique db id)
            (λ e. keeps u.row (rw (sym e, u.found) at h)) h)

    created-Hidden :
        (new : String) (agora : ℕ) (m : Morta)
        → new ≢ id
        → (r : Result (Mensagem × Db)) → log.table.create db (new_row new agora m) ≡ r
        → Stays (answered log db r).1
    created-Hidden new agora m other (err e) q = h
    created-Hidden new agora m other (ok (x, d)) q =
        let c = good.lawful.lawful.create_ok db (new_row new agora m) x d q in
        rw (c.after id, good.key_id (new_row new agora m))
          (written id new (new_row new agora m) (log.table.find_unique db id)
            (λ e. elim (other e) [ ]) h)

    deleted-Hidden : (j : String) (o : Option Mensagem) → Stays (delete_found log db j o).1
    deleted-Hidden j none = h
    deleted-Hidden j (some _) =
        updated-Hidden j (removed log) (λ m e. refl) (log.table.update db j (removed log)) refl

    cleaned-Hidden :
        (date : ℕ) (r : Result (ℕ × Db))
        → log.delete_many db (older_than date) ≡ r
        → Stays (counted log db r).1
    cleaned-Hidden date (err e) q = h
    cleaned-Hidden date (ok (n, d)) q =
        rw (good.lawful.delete_ok db (older_than date) n d q id)
          (kept-Hidden (older_than date) (log.table.find_unique db id) h)

    apply-Hidden : (o : Op) → Other id o → Stays (apply log o db)
    unfolding apply create soft_delete mark_reenviado handle_cron hard_delete_older_than
    apply-Hidden (stored new agora m) other = created-Hidden new agora m other _ refl
    apply-Hidden (deleted j) other = deleted-Hidden j (log.table.find_unique db j)
    apply-Hidden (resent_at j) other = updated-Hidden j (resent log) (λ m e. e) _ refl
    apply-Hidden (cleaned agora) other = cleaned-Hidden (agora - thirty_days_ms) _ refl

  run-Hidden :
      (id : String) (os : List Op) (db : Db)
      → Others id os
      → Hidden (log.table.find_unique db id)
      → Hidden (log.table.find_unique (run log os db) id)
  unfolding run
  run-Hidden id [] db others h = h
  run-Hidden id (o ∷ os) db others h =
      run-Hidden id os (apply log o db) others.1 (apply-Hidden id db h o others.0)

  delete-Hidden :
      (id : String) (db d : Db) (o : Option Mensagem)
      → log.table.find_unique db id ≡ o
      → delete_found log db id o ≡ (ok tt, d)
      → Hidden (log.table.find_unique d id)
  delete-Hidden id db d none f e = cc
  delete-Hidden id db d (some m) f e = gone (log.table.update db id (removed log)) refl e
    where
      gone :
          (r : Result (Mensagem × Db))
          → log.table.update db id (removed log) ≡ r
          → done log db r ≡ (ok tt, d)
          → Hidden (log.table.find_unique d id)
      gone (err x) q e = cc
      gone (ok (x, d')) q e =
          let u = good.lawful.lawful.update_ok db id (removed log) x d' q in
          let same : d' ≡ d = ap (λ y. y.1) e in
          let self = (log.table.keys.same_iff id id).1 refl in
          subst (λ y. Hidden (log.table.find_unique y id)) same (rw (u.after id, self) refl)

  not_listed :
      (id : String) (o : Option Mensagem) (m : Mensagem) → Hidden o → o ≡ some m → m.del ≢ false
  not_listed id none m h e f = cc
  not_listed id (some x) m h e f = let same : x ≡ m = cc in cc

-- Over a table that behaves as documented and gives no identifier twice, a message that was removed
-- is in no list that is answered afterwards, whatever is stored, removed, marked or cleaned up in
-- between, and whatever the filter is.
pub soft_delete-Hidden :
    {Db : Type 0} (log : Log String Mensagem Db) (dates : Dates) (db d : Db) (id : String)
    (os : List Op) (filter : ListQuery) (rs : List Mensagem) (m : Mensagem)
    → Sound log
    → Others id os
    → soft_delete log db id ≡ (ok tt, d)
    → find_many log dates (run log os d) filter ≡ ok rs
    → In m rs
    → m.id ≢ id
unfolding soft_delete
soft_delete-Hidden log dates db d id os filter rs m good others e f i same =
    let listed = (find_many-Listing log dates (run log os d) filter rs good.lawful f).wanted m i in
    let hidden =
      run-Hidden log good id os d others
        (delete-Hidden log good id db d (log.table.find_unique db id) refl e) in
    let found =
      subst (λ k. log.table.find_unique (run log os d) k ≡ some m) (good.key_id m ∙ same)
        listed.found in
    not_listed log good id (log.table.find_unique (run log os d) id) m hidden found listed.present

some_eq : {A : Type 0} {a b : A} → some a ≡ some b → a ≡ b
some_eq e = cc

kept_iff :
    (c : ℕ) (o : Option Mensagem) (m : Mensagem)
    → (kept (older_than c) o ≡ some m) ↔ ((o ≡ some m) × (c ≤ m.data_ms))
kept_iff c none m = ((λ q. cc), (λ q. q.0))
kept_iff c (some x) m = elim (Bool-cases (older_than c x)) [
  | inl y ↦ (
    (λ q. let absurd : none ≡ some m = rw y at q in cc),
    λ q.
        let old : older_than c m ≡ true = subst (λ z. older_than c z ≡ true) (some_eq q.0) y in
        ground arith,
  )
  | inr n ↦ (
    (λ q.
        let same : x ≡ m = some_eq (rw n at q) in
        let young : older_than c m ≡ false = subst (λ z. older_than c z ≡ false) same n in
        (ap some same, ground arith)),
    λ q. rw n q.0,
  )
]

-- Over a table that behaves as documented, the clean-up that answers leaves exactly the messages
-- that were stored and are at most thirty days old, each as it was.
pub handle_cron_iff :
    {Db : Type 0} (log : Log String Mensagem Db) (db d : Db) (agora n : ℕ) (id : String)
    (m : Mensagem)
    → LawfulLog log instant
    → handle_cron log db agora ≡ (ok n, d)
    → (log.table.find_unique d id ≡ some m)
      ↔ ((log.table.find_unique db id ≡ some m) × (agora ≤ m.data_ms + thirty_days_ms))
unfolding handle_cron hard_delete_older_than
handle_cron_iff {Db = Db} log db d agora n id m good e =
    after (log.delete_many db (older_than (agora - thirty_days_ms))) refl e
  where
    after :
        (r : Result (ℕ × Db))
        → log.delete_many db (older_than (agora - thirty_days_ms)) ≡ r
        → counted log db r ≡ (ok n, d)
        → (log.table.find_unique d id ≡ some m)
          ↔ ((log.table.find_unique db id ≡ some m) × (agora ≤ m.data_ms + thirty_days_ms))
    after (err x) q c = cc
    after (ok (k, d')) q c =
        let same : d' ≡ d = ap (λ y. y.1) c in
        let left = good.delete_ok db (older_than (agora - thirty_days_ms)) k d' q id in
        let both = kept_iff (agora - thirty_days_ms) (log.table.find_unique db id) m in
        subst
          (λ y.
            (log.table.find_unique y id ≡ some m)
            ↔ ((log.table.find_unique db id ≡ some m) × (agora ≤ m.data_ms + thirty_days_ms)))
          same
          (rw left (
            (λ q'. let (f, l) = both.0 q' in (f, omega (arith, l))),
            λ (f, l). both.1 (f, omega (arith, l)),
          ))
