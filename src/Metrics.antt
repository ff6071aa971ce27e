-- ===== src/Metrics.antt =====
-- src/sentry/sentry-metrics.service.ts: counters and distributions of a window of one minute. The key
-- of a metric, its name with its attributes in order, is an argument; what goes to the SDK beside the
-- window, and the gauges of the process, are not modelled. Durations are whole milliseconds.
pub mod Window
pub mod Sorted
pub mod Percentiles
use Prim.Native.Nat.{◌/◌}
use whiz_gateway.Base.{
  ℕ, zero, suc, ◌+◌, ◌-◌, ◌*◌, String, Bool, Option, none, some, List, [], ◌∷◌, ◌++◌, length, leb,
  ltb, map, if◌then◌else◌,
}
use whiz_gateway.Wpp.{put}
use whiz_gateway.Wpp.Tokens.{value_at}

pub record Distribuicao : Type 0 where
  pub amostras : List ℕ
  pub total : ℕ

pub record Janela : Type 0 where
  pub contadores : List (String × ℕ)
  pub distribuicoes : List (String × Distribuicao)

abbrev pub max_amostras : ℕ
max_amostras = 500

abbrev pub janela_vazia : Janela
janela_vazia = record { contadores = []; distribuicoes = [] }

abbrev pub or_zero : Option ℕ → ℕ
or_zero none = 0
or_zero (some n) = n

abbrev pub vazia : Distribuicao
vazia = record { amostras = []; total = 0 }

abbrev pub or_empty : Option Distribuicao → Distribuicao
or_empty none = vazia
or_empty (some d) = d

abbrev pub contador : String → Janela → ℕ
contador chave w = or_zero (value_at chave w.contadores)

abbrev pub distribuicao : String → Janela → Distribuicao
distribuicao chave w = or_empty (value_at chave w.distribuicoes)

unfoldable pub contar : String → ℕ → Janela → Janela
contar chave valor w = record w { contadores = put chave (contador chave w + valor) w.contadores }

-- One more duration: it is counted, and kept while there is room.
abbrev pub com_amostra : ℕ → Distribuicao → Distribuicao
com_amostra duracao d = record {
  amostras =
      if ltb (length d.amostras) max_amostras then d.amostras ++ duracao ∷ [] else d.amostras;
  total = d.total + 1;
}

unfoldable pub registrar_duracao : String → ℕ → Janela → Janela
registrar_duracao chave duracao w = record w {
  distribuicoes = put chave (com_amostra duracao (distribuicao chave w)) w.distribuicoes;
}

-- `[...amostras].sort((a, b) => a - b)`
unfoldable pub insert : ℕ → List ℕ → List ℕ
insert a [] = a ∷ []
insert a (b ∷ bs) = let rest = insert a bs in if leb a b then a ∷ (b ∷ bs) else b ∷ rest

unfoldable pub ordenadas : List ℕ → List ℕ
unfolding insert
ordenadas [] = []
ordenadas (a ∷ as') = insert a (ordenadas as')

abbrev pub element : List ℕ → ℕ → ℕ
element [] i = 0
element (a ∷ as') zero = a
element (a ∷ as') (suc i) = element as' i

-- `Math.min` on numbers
abbrev pub min : ℕ → ℕ → ℕ
min a b = if leb a b then a else b

-- `Math.min(n - 1, Math.max(0, Math.ceil(fracao * n) - 1))`, for a fraction in hundredths: up to 500
-- samples the product in floating point is rounded up to the same integer.
unfoldable pub indice : ℕ → ℕ → ℕ
indice n centesimos = min (n - 1) ((centesimos * n + 99) / 100 - 1)

unfoldable pub percentil : List ℕ → ℕ → ℕ
unfolding indice
percentil [] centesimos = 0
percentil (a ∷ as') centesimos = element (a ∷ as') (indice (length (a ∷ as')) centesimos)

-- What the snapshot says of a distribution.
pub record Resumo : Type 0 where
  pub total : ℕ
  pub p50 : ℕ
  pub p95 : ℕ
  pub maximo : ℕ

-- `ordenadas[ordenadas.length - 1] ?? 0`
unfoldable pub resumo : Distribuicao → Resumo
unfolding ordenadas percentil
resumo d = record {
  total = d.total;
  p50 = percentil (ordenadas d.amostras) 50;
  p95 = percentil (ordenadas d.amostras) 95;
  maximo = element (ordenadas d.amostras) (length (ordenadas d.amostras) - 1);
}

-- `emitirSnapshot`: what the window says, for the SDK if it is enabled, and a new window.
unfoldable pub emitir_snapshot : Janela → (List (String × ℕ) × List (String × Resumo)) × Janela
unfolding resumo
emitir_snapshot w =
    ((w.contadores, map (λ (chave, d). (chave, resumo d)) w.distribuicoes), janela_vazia)
