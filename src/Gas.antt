-- ===== src/Gas.antt =====
-- The monitor of the suggested gas price, internal/svc/scan_gas.go. The time and the answers of the
-- node are the environment. An int64 is its word of 64 bits. The division of two float64 is a
-- parameter.
pub mod Values
pub mod Periods
mod Tests
use explorer_api_gql.Base.{
  ℕ, zero, suc, ◌+◌, ◌-◌, ◌*◌, ◌/◌, ◌%◌, ◌^◌, Bool, Option, none, some, List, [], ◌∷◌, ◌++◌, length,
  get_elem?, get_or, set, replicate, ltb, if◌then◌else◌,
}
use explorer_api_gql.Types.{u64, gas_correction}

-- `gasPriceSuggestionTickerInterval` and `gasPriceSuggestionPeriodInterval`, in nanoseconds
abbrev pub ticker_interval : ℕ
ticker_interval = 2_000_000_000

abbrev pub period_interval : ℕ
period_interval = 600_000_000_000

-- the length of the array that `init` makes
abbrev pub exp_ticks : ℕ
exp_ticks = period_interval / ticker_interval + 1

-- `math.MaxInt64`
abbrev pub max_int64 : ℕ
max_int64 = 2 ^ 63 - 1

-- the order of the integers that two words stand for
abbrev pub signed_lt : ℕ → ℕ → Bool
signed_lt a b = ltb ((a + 2 ^ 63) % u64) ((b + 2 ^ 63) % u64)

-- `GasPricePeriod`; the type is always that of a suggestion
pub record GasPricePeriod : Type 0 where
  pub open_price : ℕ
  pub close_price : ℕ
  pub min_price : ℕ
  pub max_price : ℕ
  pub avg_price : ℕ
  pub from : ℕ
  pub to : ℕ
  pub tick : ℕ

-- `gpsMonitor`, with the periods that were given to the repository
pub record GpsMonitor : Type 0 where
  pub start : Option ℕ
  pub ticks : List ℕ
  pub count : ℕ
  pub max_price : ℕ
  pub min_price : ℕ
  pub stored : List GasPricePeriod

-- `init`
pub init_monitor : GpsMonitor
init_monitor = record {
  start = none;
  ticks = replicate exp_ticks 0;
  count = 0;
  max_price = 0;
  min_price = 0;
  stored = [];
}

-- the adjusted value of a price, cut to a word
abbrev pub adjusted : ℕ → ℕ
adjusted gs = gs / gas_correction % u64

-- `read`; the answer is `none` for an error, and the result for an index out of range
pub read_price : Option ℕ → GpsMonitor → Option GpsMonitor
read_price none gps = some gps
read_price (some gs) gps =
    if ltb gps.count (length gps.ticks)
    then some (record gps {
      ticks = set gps.ticks gps.count (adjusted gs);
      count = gps.count + 1;
      max_price = if signed_lt gps.max_price (adjusted gs) then adjusted gs else gps.max_price;
      min_price = if signed_lt (adjusted gs) gps.min_price then adjusted gs else gps.min_price;
    })
    else none

-- the loop of `avg` over the first ticks
pub sum_ticks : ℕ → List ℕ → ℕ → ℕ
sum_ticks zero ticks sum = sum
sum_ticks (suc n) [] sum = sum
sum_ticks (suc n) (t ∷ ticks) sum = sum_ticks n ticks ((sum + t) % u64)

-- `quotient` is int64(float64(a) / float64(b))
module _ (quotient : ℕ → ℕ → ℕ) where
  -- `avg`
  pub avg : GpsMonitor → ℕ
  avg gps = if ltb 0 gps.count then quotient (sum_ticks gps.count gps.ticks 0) gps.count else 0

  -- `store`; a start that is nil is a panic
  abbrev pub store_period : Option ℕ → ℕ → GpsMonitor → Option GpsMonitor
  store_period none now gps = none
  store_period (some start) now gps = some (record gps {
    stored =
        gps.stored
        ++ record {
          open_price = get_or gps.ticks 0 0;
          close_price = get_or gps.ticks (gps.count - 1) 0;
          min_price = gps.min_price;
          max_price = gps.max_price;
          avg_price = avg gps;
          from = start;
          to = now;
          tick = ticker_interval;
        }
          ∷ [];
  })

  abbrev pub reset_monitor : ℕ → Option GpsMonitor → Option GpsMonitor
  reset_monitor now none = none
  reset_monitor now (some gps) =
      some (record gps { count = 0; max_price = 0; min_price = max_int64; start = some now })

  -- `flip`
  pub flip_period : ℕ → GpsMonitor → Option GpsMonitor
  flip_period now gps =
      reset_monitor now (if ltb 0 gps.count then store_period gps.start now gps else some gps)

-- what `execute` selects, but the stop signal, which ends it, and the log
pub data Event : Type 0 where
  mon_tick : Option ℕ → Event
  flip_tick : ℕ → Event

module _ (quotient : ℕ → ℕ → ℕ) where
  pub step : GpsMonitor → Event → Option GpsMonitor
  step gps (mon_tick gs) = read_price gs gps
  step gps (flip_tick now) = flip_period quotient now gps

  pub run : Option GpsMonitor → List Event → Option GpsMonitor
  run o [] = o
  run none (e ∷ events) = none
  run (some gps) (e ∷ events) = run (step gps e) events

  -- `execute`, which flips once before its loop
  pub execute_monitor : ℕ → List Event → Option GpsMonitor
  execute_monitor now events = run (flip_period quotient now init_monitor) events
