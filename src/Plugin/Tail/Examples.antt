-- ===== src/Plugin/Tail/Examples.antt =====
-- Two rows that are tailed to their end (plugin/server.go, plugin/adapter.go).
use doze_sdk.Engine.Services.{Row}
use doze_sdk.Plugin.Tail.{
  Tailing, TailSteps, at_rest, and_then, capacity, ends, handler_done, hears_end, makes, returns,
  sends, tail_done, tail_start, takes,
}
use doze_sdk.Plugin.Tail.Delivered.{IsComplete, steps-IsDelivered}
use doze_sdk.Prelude.{List, [], ◌∷◌, ◌++◌, ◌≡◌, ◌≤◌, arith, codes, false, length, none, refl, some}

abbrev row : Row
row = record { cells = (codes "m", codes "hi") ∷ []; tone = [] }

abbrev tailed : Tailing
tailed = record tail_start {
  made = row ∷ [];
  seen = row ∷ [];
  ended = some none;
  handler = handler_done none;
  taker = tail_done none;
}

tail_runs : TailSteps tail_start tailed
tail_runs =
    and_then
      (and_then
        (and_then
          (and_then
            (and_then (and_then at_rest (makes row refl (omega arith) refl)) (ends none refl refl))
            (sends row [] refl refl refl))
          (returns none refl refl refl refl))
        (takes row [] refl refl refl))
      (hears_end none refl refl refl refl)

steps-IsDelivered_example :
    (length tailed.channel ≤ capacity)
    × (((rest : List Row) × (tailed.made ≡ tailed.seen ++ rest))
        × (tailed.taker ≡ tail_done none → tailed.cancelled ≡ false → IsComplete tailed))
steps-IsDelivered_example = steps-IsDelivered tailed tail_runs
