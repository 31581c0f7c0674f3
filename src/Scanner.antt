-- ===== src/Scanner.antt =====
-- The block scanner of internal/svc/scan_blk.go. Its tickers, channels and the stop signal are the
-- environment: each event of the main loop says what the environment answered.
pub mod Dispatched
pub mod Scan
pub mod Switch
mod Tests
use explorer_api_gql.Base.{
  ℕ, ◌+◌, ◌-◌, ◌%◌, Bool, true, false, not, ◌&&◌, ◌||◌, Option, none, some, List, [], ◌∷◌, ◌++◌,
  ltb, ◌==◌, if◌then◌else◌,
}
use explorer_api_gql.Types.{Block, u64}

-- `blsReScanHysteresis`
abbrev pub hysteresis : ℕ
hysteresis = 100

-- the durations of the two tickers, in milliseconds
abbrev pub observer_base : ℕ
observer_base = 5000

abbrev pub scan_base : ℕ
scan_base = 5

abbrev pub observer_idle : ℕ
observer_idle = 60000

abbrev pub scan_idle : ℕ
scan_idle = 300000

-- `blkScanner`, with what was sent to its two output channels, the oldest first
pub record BlkScanner : Type 0 where
  pub on_idle : Bool
  pub from : ℕ
  pub next : ℕ
  pub to : ℕ
  pub done : ℕ
  pub observe_tick : ℕ
  pub scan_tick : ℕ
  pub out_block : List Block
  pub out_state_switch : List Bool

-- `boundaries`: the last known block is an error of the repository if it is `none`.
pub boundaries : ℕ → Option ℕ → Option ℕ
boundaries rescan none = none
boundaries rescan (some lnb) = some (if ltb rescan lnb then lnb - rescan else lnb)

-- The state in which `run` leaves a scanner that starts at block `start`.
unfoldable pub started : ℕ → BlkScanner
started start = record {
  on_idle = false;
  from = start;
  next = start;
  to = 0;
  done = 0;
  observe_tick = observer_base;
  scan_tick = scan_base;
  out_block = [];
  out_state_switch = [];
}

-- `observe`: the block height is read from the node as a big number, and cut to 64 bits.
unfoldable pub observe : Option ℕ → BlkScanner → Bool × BlkScanner
observe none s = (false, s)
observe (some height) s =
    let target = height % u64 in
    if s.on_idle && ltb target ((s.done + hysteresis) % u64)
    then (true, record s { next = s.done; from = s.done })
    else (ltb target s.next, record s { to = target })

-- `updateState`. With `stop` the stop signal is taken instead of the send.
unfoldable pub update_state : Bool → Bool → BlkScanner → BlkScanner
update_state target stop s =
    if (target && s.on_idle) || (not target && not s.on_idle)
    then s
    else (if stop then record s { on_idle = target } else record s {
      on_idle = target;
      out_state_switch = s.out_state_switch ++ target ∷ [];
      observe_tick = if target then observer_idle else observer_base;
      scan_tick = if target then scan_idle else scan_base;
    })

-- `bls.updateState(bls.observe())`
unfoldable pub observe_and_update : Option ℕ → Bool → BlkScanner → BlkScanner
observe_and_update height stop s =
    let (target, s') = observe height s in update_state target stop s'

module _ (block_by_number : ℕ → Option Block) where
  pull : Option Block → Bool → BlkScanner → BlkScanner
  pull none stop s = s
  pull (some block) stop s =
      if stop
      then s
      else record s { out_block = s.out_block ++ block ∷ []; next = (s.next + 1) % u64 }

  -- `shift`
  unfoldable pub shift : Option ℕ → Bool → BlkScanner → BlkScanner
  unfolding pull
  shift height stop s =
      if s.on_idle
      then s
      else (if ltb s.to s.next
          then observe_and_update height stop s
          else pull (block_by_number s.next) stop s)

-- The counter of dispatched blocks: int64(bin) - int64(done) == 1 holds if the words differ by one.
unfoldable pub dispatched : ℕ → Bool → BlkScanner → BlkScanner
dispatched bin ok s =
    if ok && (s.done == 0 || (bin + u64 - s.done) % u64 == 1) then record s { done = bin } else s

-- What the main loop of `execute` selects, but the stop signal, which ends it. A closed channel
-- delivers zero and `false`.
pub data Event : Type 0 where
  in_dispatched : (bin : ℕ) (ok : Bool) → Event
  observe_tick : (height : Option ℕ) (stop : Bool) → Event
  scan_tick : (height : Option ℕ) (stop : Bool) → Event

module _ (block_by_number : ℕ → Option Block) where
  unfoldable pub step : BlkScanner → Event → BlkScanner
  step s (in_dispatched bin ok) = dispatched bin ok s
  step s (observe_tick height stop) = observe_and_update height stop s
  step s (scan_tick height stop) = shift block_by_number height stop s

  -- The loop of `execute` up to the stop signal.
  unfoldable pub run : BlkScanner → List Event → BlkScanner
  run s [] = s
  run s (e ∷ events) = run (step s e) events

  -- `execute` observes once before the loop, and leaves the answer.
  unfoldable pub execute : Option ℕ → BlkScanner → List Event → BlkScanner
  execute height s events = run (observe height s).1 events
