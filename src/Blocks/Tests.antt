-- ===== src/Blocks/Tests.antt =====
-- Two blocks, one of whose transactions can not be loaded.
use explorer_api_gql.Base.{ℕ, Bool, false, Option, none, some, [], ◌∷◌, map, ◌==◌, if◌then◌else◌}
use explorer_api_gql.Types.{Hash, Block, Transaction}
use explorer_api_gql.Blocks.{BlockDispatcher, process, cache_block, run}
use explorer_api_gql.Blocks.Sent.{Handled, process-Handled, Passed, run-Passed}

abbrev trx : ℕ → Transaction
trx hash = record {
  block_hash = none;
  block_number = some 12;
  time_stamp = 0;
  from = 3;
  gas_used = some 21000;
  gas_price = 5;
  hash = hash;
  to = none;
  contract_address = none;
  gas = 90000;
  cumulative_gas_used = some 50000;
  nonce = 1;
  trx_index = none;
  input_data = [];
  large_input = false;
  status = some 1;
  value = 0;
  index = none;
  logs = [];
}

abbrev transaction : Hash → Option Transaction
transaction th = if th == 2 then none else some (trx th)

abbrev first : Block
first = record { number = 12; time_stamp = 1000; txs = 1 ∷ 2 ∷ 3 ∷ [] }

abbrev second : Block
second = record { number = 13; time_stamp = 1001; txs = [] }

abbrev empty : BlockDispatcher
empty = record { out_dispatched = []; out_transaction = []; cached = [] }

-- the signal is taken instead of the send of the third transaction
abbrev late : ℕ → Bool
late k = k == 3

process-Handled_example :
    Handled transaction first empty
      (cache_block transaction first (process transaction late first empty))
process-Handled_example = process-Handled transaction late first empty

run-Passed_example :
    Passed transaction
      (first ∷ second ∷ [])
      empty
      (run transaction (map (λ blk. ((λ k. false), blk)) (first ∷ second ∷ [])) empty)
run-Passed_example = run-Passed transaction (first ∷ second ∷ []) empty
