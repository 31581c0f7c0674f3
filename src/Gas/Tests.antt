-- ===== src/Gas/Tests.antt =====
-- Three prices, a failed reading and two flips.
use explorer_api_gql.Base.{ℕ, ◌/◌, ◌≡◌, refl, arith, none, some, List, [], ◌∷◌}
use explorer_api_gql.Gas.{GpsMonitor, Event, mon_tick, flip_tick, execute_monitor}
use explorer_api_gql.Gas.Values.{periods}
use explorer_api_gql.Gas.Periods.{monitor_stores}

abbrev events : List Event
events =
    mon_tick (some 30_000_000)
    ∷ mon_tick none
    ∷ mon_tick (some 50_000_000)
    ∷ mon_tick (some 20_000_000)
    ∷ flip_tick 600
    ∷ flip_tick 1200
    ∷ []

abbrev div : ℕ → ℕ → ℕ
div a b = a / b

monitor_stores_example :
    (gps : GpsMonitor) × (execute_monitor div 0 events ≡ some gps)
    × (gps.stored ≡ periods 0 [] events)
monitor_stores_example =
    monitor_stores div (λ a b p q. refl) 0 events
      (omega arith, omega arith, (omega arith, omega arith, (omega arith, omega arith, tt)))
