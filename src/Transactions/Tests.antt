-- ===== src/Transactions/Tests.antt =====
-- Two transactions, the first with a log.
use explorer_api_gql.Base.{ℕ, ◌+◌, ◌≡◌, refl, true, false, none, some, List, [], ◌∷◌, map, arith}
use explorer_api_gql.Types.{Log, Block, Transaction}
use explorer_api_gql.Accounts
use explorer_api_gql.Logs.Effects
use explorer_api_gql.Logs.Dispatch
use explorer_api_gql.Burn.{EventTrx}
use explorer_api_gql.Transactions.{TrxDispatcher, process}
use explorer_api_gql.Transactions.Sent.{Sent, process-Sent}
use explorer_api_gql.Transactions.Released.{count, sent, started_logs, log_events, all_released}

abbrev accounts_repo : Accounts.Repo
accounts_repo = record {
  account_is_known = λ a. true;
  erc165_supports_interface = λ a i. none;
  erc20_name = λ a. none;
  erc20_symbol = λ a. none;
  erc20_balance_of = λ a. none;
  erc20_total_supply = λ a. none;
  is_sfc_contract = λ a. false;
  sfc_version = none;
  succeeds = λ c. true;
}

abbrev repo : Effects.Repo
repo = record {
  validator_address = λ id. none;
  delegation_amount_staked = λ a id. none;
  delegation_balance = λ a id. Effects.failed;
  find_withdraw_request = λ a id r. none;
  reward_claim_accepted = λ c. false;
  parse_transfer_batch = λ bytes. ([], []);
}

abbrev block : Block
block = record { number = 12; time_stamp = 1000; txs = [] }

abbrev trx : ℕ → List Log → Transaction
trx hash logs = record {
  block_hash = none;
  block_number = some 12;
  time_stamp = 1000;
  from = 3;
  gas_used = some 21000;
  gas_price = 5;
  hash = hash;
  to = some 4;
  contract_address = none;
  gas = 90000;
  cumulative_gas_used = some 50000;
  nonce = 1;
  trx_index = none;
  input_data = [];
  large_input = false;
  status = some 1;
  value = 0;
  index = none;
  logs = logs;
}

abbrev transfer : Log
transfer = record {
  address = 1;
  topics = 0xddf252ad1be2c89b69c2b068fc378daa952ba7f163c4a11628f55a4df523b3ef ∷ 3 ∷ 4 ∷ [];
  bytes = [];
  block_number = 12;
  tx_hash = 99;
  tx_index = 0;
  log_index = 4;
  block_hash = 8;
  removed = false;
}

abbrev evts : List EventTrx
evts =
    record { blk = block; trx = trx 99 (transfer ∷ []) }
    ∷ record { blk = block; trx = trx 98 [] }
    ∷ []

all_released_example :
    ((k : ℕ)
      → count k (sent evts).added
        ≡ count k (Accounts.run accounts_repo (sent evts).out_account).1
          + count k
              (Dispatch.run repo started_logs (log_events (λ lr. none) (sent evts).out_log)).done)
    × (map (λ w. w.1) (sent evts).waiting ≡ evts)
all_released_example =
    all_released accounts_repo repo (λ bytes. omega arith) (λ lr. none) evts
      ((omega arith, tt), (tt, tt))

abbrev empty : TrxDispatcher
empty = record {
  out_transaction = [];
  out_account = [];
  out_log = [];
  groups = 0;
  added = [];
  waiting = [];
}

abbrev first : EventTrx
first = record { blk = block; trx = trx 98 [] }

process-Sent_example : Sent first empty (process (λ k. false) first empty)
process-Sent_example = process-Sent first (λ k. false) empty (λ k. refl)
