-- ===== src/Orchestrator.antt =====
-- The orchestrator of internal/svc/orchestrator.go. New heads go to the block dispatcher or into the
-- ring of cached blocks, by the state of the scanner.
pub mod Refines
pub mod Agrees
mod Tests
use explorer_api_gql.Base.{
  ℕ, ◌%◌, Bool, true, false, Option, none, some, List, [], ◌∷◌, ◌++◌, map, if◌then◌else◌,
}
use explorer_api_gql.Types.{Block, u64}
use explorer_api_gql.Ring
use explorer_api_gql.Ring.{Ring}

-- `orBlockCacheCapacity`
abbrev pub cache_capacity : ℕ
cache_capacity = 50

-- `orchestrator`, with what was sent to the input channel of the block dispatcher, the oldest first
pub record Orchestrator : Type 0 where
  pub blk_cache : Ring Block
  pub push_heads : Bool
  pub in_block : List Block

abbrev starting : Bool → Option (Ring Block) → Option Orchestrator
starting on_idle none = none
starting on_idle (some ring) =
    some (record { blk_cache = ring; push_heads = on_idle; in_block = [] })

-- `init`, given the idle state of the scanner
pub init : Bool → Option Orchestrator
init on_idle = starting on_idle (Ring.new cache_capacity)

abbrev pub handle_block : Option Block → Orchestrator → Orchestrator
handle_block none or = or
handle_block (some blk) or =
    if or.push_heads
    then record or { in_block = or.in_block ++ blk ∷ [] }
    else record or { blk_cache = Ring.add (some blk) or.blk_cache }

-- `unloadCache`
pub unload_cache : Orchestrator → Orchestrator
unload_cache or = record or {
  blk_cache = Ring.reset or.blk_cache;
  in_block = or.in_block ++ Ring.list cache_capacity or.blk_cache;
}

-- What the main loop selects, but the stop signal. What comes from a closed channel is not ok.
pub data Event : Type 0 where
  new_head : (number : ℕ) (ok : Bool) → Event
  scan_switch : (idle ok : Bool) → Event

module _ (block_by_number : ℕ → Option Block) where
  -- `handleNewHead`: the number of the header is cut to 64 bits.
  pub handle_new_head : ℕ → Orchestrator → Orchestrator
  handle_new_head number or = handle_block (block_by_number (number % u64)) or

  abbrev pub handle_switch : Bool → Orchestrator → Orchestrator
  handle_switch true or = unload_cache (record or { push_heads = true })
  handle_switch false or = record or { push_heads = false }

  pub step : Orchestrator → Event → Orchestrator
  step or (new_head number ok) = if ok then handle_new_head number or else or
  step or (scan_switch idle ok) = if ok then handle_switch idle or else or

  -- The loop of `execute` up to the stop signal.
  pub run : Orchestrator → List Event → Orchestrator
  run or [] = or
  run or (e ∷ events) = run (step or e) events
