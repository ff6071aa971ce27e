-- ===== src/Examples/Metrics.antt =====
-- The window of the metrics on concrete counts and durations.
use whiz_gateway.Base.{◌*◌, ◌≤◌, ◌≡◌, ◌≢◌, refl, List, [], ◌∷◌, All, take, length}
use whiz_gateway.Metrics.{
  Distribuicao, janela_vazia, contador, distribuicao, emitir_snapshot, ordenadas, resumo,
}
use whiz_gateway.Metrics.Window.{Op, conta, dura, run, soma, duracoes, run-Aggregated}
use whiz_gateway.Metrics.Percentiles.{count_le, resumo-Ranked}

abbrev tempos : Distribuicao
tempos = record { amostras = 40 ∷ 10 ∷ 90 ∷ 20 ∷ []; total = 4 }

sorted : ordenadas tempos.amostras ≡ 10 ∷ 20 ∷ 40 ∷ 90 ∷ []
unfolding ordenadas
sorted = refl

summed : resumo tempos ≡ record { total = 4; p50 = 20; p95 = 90; maximo = 90 }
unfolding resumo
summed = refl

emitted :
    emitir_snapshot
      (record { contadores = ("envios", 3) ∷ []; distribuicoes = ("tempo", tempos) ∷ [] })
    ≡ (
      (("envios", 3) ∷ [], ("tempo", record { total = 4; p50 = 20; p95 = 90; maximo = 90 }) ∷ []),
      janela_vazia,
    )
unfolding emitir_snapshot
emitted = refl

tempos_some : tempos.amostras ≢ []
tempos_some = λ e. cc

resumo-Ranked_example :
    ((resumo tempos).p50 ≤ (resumo tempos).p95)
    × ((resumo tempos).p95 ≤ (resumo tempos).maximo)
    × All (λ x. x ≤ (resumo tempos).maximo) tempos.amostras
    × (50 * length tempos.amostras ≤ 100 * count_le (resumo tempos).p50 tempos.amostras)
    × (95 * length tempos.amostras ≤ 100 * count_le (resumo tempos).p95 tempos.amostras)
resumo-Ranked_example = resumo-Ranked tempos tempos_some

abbrev minuto : List Op
minuto =
    conta "envios" 1 ∷ dura "tempo" 40 ∷ conta "erros" 1 ∷ dura "tempo" 10 ∷ conta "envios" 2 ∷ []

run-Aggregated_example :
    (contador "tempo" (run minuto janela_vazia) ≡ soma "tempo" minuto)
    × ((distribuicao "tempo" (run minuto janela_vazia)).total ≡ length (duracoes "tempo" minuto))
    × ((distribuicao "tempo" (run minuto janela_vazia)).amostras
        ≡ take 500 (duracoes "tempo" minuto))
run-Aggregated_example = run-Aggregated minuto "tempo"
