-- ===== src/Table/Keys.antt =====
-- A concrete Redis: a list of writes, of which the latest of a key counts, and in which no key
-- expires.
use whiz_gateway.Base.{
  String, ◌≡◌, false, Option, none, some, List, [], ◌∷◌, ◌==◌, Bool-cases, inl, inr, if◌then◌else◌,
}
use whiz_gateway.Table.{Redis}

abbrev pub Writes : Type 0
Writes = List (String × Option String)

unfoldable pub latest : Writes → String → Option String
latest [] j = none
latest ((k, v) ∷ c) j = if k == j then v else latest c j

unwrap : {v w : String} → some v ≡ some w → w ≡ v
unwrap e = cc

pub latest-set :
    (c : Writes) (k j v w : String)
    → latest ((k, some v) ∷ c) j ≡ some w
    → (if k == j then w ≡ v else latest c j ≡ some w)
unfolding latest
latest-set c k j v w e = elim (Bool-cases (k == j)) [
  | inl hit ↦ rw hit (unwrap (rw hit at e))
  | inr miss ↦ rw miss (rw miss at e)
]

pub latest-del :
    (c : Writes) (k j w : String)
    → latest ((k, none) ∷ c) j ≡ some w
    → ((k == j) ≡ false) × (latest c j ≡ some w)
unfolding latest
latest-del c k j w e = elim (Bool-cases (k == j)) [
  | inl hit ↦ let f = rw hit at e in cc
  | inr miss ↦ (miss, rw miss at e)
]

unfoldable pub writes : Redis Writes
unfolding latest
writes = record {
  get = latest;
  set = λ c k v. (k, some v) ∷ c;
  del = λ c k. (k, none) ∷ c;
  expire = λ c. c;
  get-set = latest-set;
  get-del = latest-del;
  get-expire = λ c j w e. e;
}
