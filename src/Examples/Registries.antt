-- ===== src/Examples/Registries.antt =====
-- The registry of environments, its table a list of rows and its cache a list of writes.
use whiz_gateway.Base.{◌≡◌, refl, none, some, List, [], ◌∷◌, false}
use whiz_gateway.Effects.{ok}
use whiz_gateway.Records.{Ambiente}
use whiz_gateway.Table.Rows.{rows, nat_key}
use whiz_gateway.Table.Rows.Lawfulness.{rows-Lawful}
use whiz_gateway.Table.Keys.{writes, Writes}
use whiz_gateway.Ambiente.{Services, State, get_ambiente, repo_find_by_id}
use whiz_gateway.Ambiente.Coherence.{Sound, Coherent}
use whiz_gateway.Ambiente.Transparent.{Op, creates, updates, deletes, reads, run, get_ambiente-run}
use whiz_gateway.Examples.Encoding.{number, number_inj, write, read, read-write, write-ne-nil}

abbrev ambientes : Services (List Ambiente) Writes
ambientes = record {
  table = rows nat_key (λ a. a.id) (λ a b. false);
  redis = writes;
  cache_key = λ n. number n "";
  stringify = write;
  parse = read;
}

ambientes-Sound : Sound ambientes
unfolding rows
ambientes-Sound = record {
  lawful = rows-Lawful nat_key (λ a. a.id) (λ a b. false);
  key_id = λ a. refl;
  cache_key_inj = number_inj;
  round_trip = read-write;
  not_empty = write-ne-nil;
}

abbrev empty : State (List Ambiente) Writes
empty = record { db = []; cache = [] }

empty-Coherent : Coherent ambientes empty
unfolding writes
empty-Coherent id v h = cc

abbrev requests : List Op
requests =
    creates 7 "prod" "https://a.example"
    ∷ reads 7
    ∷ updates 7 (record { nome = none; url = some "https://b.example" })
    ∷ deletes 7
    ∷ []

get_ambiente-run_example :
    (get_ambiente ambientes (run ambientes empty requests) 7).0
    ≡ ok (repo_find_by_id ambientes (run ambientes empty requests).db 7)
get_ambiente-run_example =
    get_ambiente-run ambientes empty requests 7 ambientes-Sound empty-Coherent
