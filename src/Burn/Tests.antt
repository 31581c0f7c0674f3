-- ===== src/Burn/Tests.antt =====
-- Three transactions of two blocks.
use explorer_api_gql.Base.{ℕ, ◌≡◌, Option, none, some, List, [], ◌∷◌, arith, false}
use explorer_api_gql.Base.Int.{pos}
use explorer_api_gql.Types.{Block, Transaction}
use explorer_api_gql.Burn.{EventTrx, BurnDispatcher, run, burn_treasury, share_by_block, split}
use explorer_api_gql.Burn.Share.{Shared, split-Shared}
use explorer_api_gql.Burn.Conserved.{Conserved, fees-Conserved}

abbrev block : ℕ → Block
block number = record { number = number; time_stamp = 1000; txs = [] }

abbrev trx : ℕ → Option ℕ → Transaction
trx hash number = record {
  block_hash = none;
  block_number = number;
  time_stamp = 1000;
  from = 3;
  gas_used = some 21000;
  gas_price = 5;
  hash = hash;
  to = none;
  contract_address = none;
  gas = 90000;
  cumulative_gas_used = some 50000;
  nonce = 1;
  trx_index = none;
  input_data = [];
  large_input = false;
  status = some 1;
  value = 0;
  index = none;
  logs = [];
}

abbrev txs : List EventTrx
txs =
    record { blk = block 12; trx = trx 1 (some 12) }
    ∷ record { blk = block 12; trx = trx 2 none }
    ∷ record { blk = block 50_000_000; trx = trx 3 (some 50_000_000) }
    ∷ []

abbrev idle : BurnDispatcher
idle = record { current = none; stored = [] }

fees-Conserved_example : (e : BurnDispatcher) × (run txs idle ≡ some e) × Conserved txs idle e
fees-Conserved_example = fees-Conserved txs idle (omega arith, (tt, (omega arith, tt)))

split-Shared_example : Shared (split (pos 1_234_567) (share_by_block 50_000_000 burn_treasury))
split-Shared_example = split-Shared 50_000_000 (pos 1_234_567) (omega arith)
