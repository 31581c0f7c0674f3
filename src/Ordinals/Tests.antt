-- ===== src/Ordinals/Tests.antt =====
-- The ordinal index of a Uniswap event.
use explorer_api_gql.Base.{ℕ, ◌≡◌, refl, none, some, [], arith, false}
use explorer_api_gql.Types.{Transaction}
use explorer_api_gql.Logs.Effects.{LogRecord}
use explorer_api_gql.Logs.Uniswap.{uniswap_ordinal_index}
use explorer_api_gql.Ordinals.Ordered.{uniswap_ordinal_index-injective}

abbrev trx : ℕ → ℕ → Transaction
trx number index = record {
  block_hash = none;
  block_number = some number;
  time_stamp = 1000;
  from = 3;
  gas_used = some 21000;
  gas_price = 5;
  hash = 99;
  to = none;
  contract_address = none;
  gas = 90000;
  cumulative_gas_used = some 50000;
  nonce = 1;
  trx_index = none;
  input_data = [];
  large_input = false;
  status = some 1;
  value = 0;
  index = some index;
  logs = [];
}

abbrev event : LogRecord
event = record {
  block = record { number = 12; time_stamp = 1000; txs = [] };
  trx = trx 12 5;
  log = record {
    address = 1;
    topics = [];
    bytes = [];
    block_number = 12;
    tx_hash = 99;
    tx_index = 5;
    log_index = 4;
    block_hash = 8;
    removed = false;
  };
}

-- an event of the same place in another pair
abbrev other : LogRecord
other = record event { log = record event.log { address = 2 } }

uniswap_ordinal_index-injective_example :
    (event.block.number ≡ other.block.number)
    × (event.log.tx_index ≡ other.log.tx_index)
    × (event.log.log_index ≡ other.log.log_index)
unfolding uniswap_ordinal_index
uniswap_ordinal_index-injective_example =
    uniswap_ordinal_index-injective event other (omega arith) (omega arith) (omega arith)
      (omega arith) (omega arith) (omega arith) refl
