-- ===== src/Config/Durations/Tests.antt =====
-- Durations, and sections of the batcher.
use xyllo.Base.{Bytes, codes, ◌==◌, ◌*◌, pos, negsuc, ◌-ℤ◌, none, some, ◌≡◌, ◌≢◌, inl, refl, arith}
use xyllo.Xlerr.{Error, plain}
use xyllo.Json.Encode.{decimal_on}
use xyllo.Config.{BatcherConfig}
use xyllo.Config.Load.{defaults, validate}
use xyllo.Config.Durations.{
  Plain, unmarshalled, unmarshal_yaml, parse_duration, unit_of, is_numeric,
}
use xyllo.Config.Durations.Batchers.{
  Interval, unmarshal_yaml-Interval, unmarshal_yaml-missing_size, unmarshal_yaml-decimal,
}

durations :
    (parse_duration (codes "1h15m30.918s") ≡ some (pos 4530918000000))
    × (parse_duration (codes "-1.5h") ≡ some (negsuc 5399999999999))
    × (parse_duration (codes "500ms") ≡ some (pos 500000000))
    × (parse_duration (codes "+0") ≡ some (pos 0))
    × (parse_duration (codes "not-a-duration") ≡ none)
    × (parse_duration (codes ".s") ≡ none)
    × (parse_duration (codes "3") ≡ none)
    × (parse_duration (codes "9223372036854775808ns") ≡ none)
unfolding parse_duration ◌==◌ ◌-ℤ◌
durations = (refl, refl, refl, refl, refl, refl, refl, refl)

abbrev unknown_error : Bytes → Error
unknown_error text = plain (codes "time: invalid duration")

abbrev only_interval : Plain
only_interval = record { max_size = pos 0; flush_interval = codes "750ms" }

abbrev emptied : BatcherConfig
emptied = record { max_size = pos 0; flush_interval = pos 750000000 }

emptied_lem :
    unmarshal_yaml unknown_error (inl only_interval) defaults.batcher ≡ unmarshalled emptied
unfolding unmarshal_yaml parse_duration ◌==◌ ◌-ℤ◌
emptied_lem = refl

unmarshal_yaml-Interval_example :
    (emptied.max_size ≡ pos 0) × Interval (codes "750ms") (pos 2000000000) (pos 750000000)
unmarshal_yaml-Interval_example =
    unmarshal_yaml-Interval unknown_error only_interval defaults.batcher emptied emptied_lem

unmarshal_yaml-missing_size_example : validate (record defaults { batcher = emptied }) ≢ none
unmarshal_yaml-missing_size_example =
    unmarshal_yaml-missing_size unknown_error only_interval defaults emptied refl emptied_lem

seconds : unit_of (codes "s") ≡ some 1000000000
unfolding unit_of ◌==◌
seconds = refl

unmarshal_yaml-decimal_example :
    unmarshal_yaml unknown_error
      (inl (record { max_size = pos 50; flush_interval = decimal_on 20 90 (codes "s") }))
      defaults.batcher
    ≡ unmarshalled (record { max_size = pos 50; flush_interval = pos (90 * 1000000000) })
unfolding is_numeric
unmarshal_yaml-decimal_example =
    unmarshal_yaml-decimal unknown_error (pos 50) 90 1000000000 (codes "s") defaults.batcher
      (refl, tt) (λ e. cc) seconds (omega arith) (omega arith)
