-- ===== src/Accounts/Tests.antt =====
-- The accounts of a transaction that deploys a token.
use explorer_api_gql.Base.{◌≡◌, refl, true, false, none, some, List, [], ◌∷◌}
use explorer_api_gql.Types.{Block, Transaction}
use explorer_api_gql.Accounts.{EventAcc, wallet, Repo, Contract, Call, store_contract, process}
use explorer_api_gql.Accounts.Detect.{accounts_in, stored_once, deployer_stored_as_contract}

abbrev repo : Repo
repo = record {
  account_is_known = λ a. false;
  erc165_supports_interface = λ a i. none;
  erc20_name = λ a. some "token";
  erc20_symbol = λ a. some "T";
  erc20_balance_of = λ a. some 0;
  erc20_total_supply = λ a. some 100;
  is_sfc_contract = λ a. false;
  sfc_version = none;
  succeeds = λ c. true;
}

abbrev block : Block
block = record { number = 12; time_stamp = 1000; txs = [] }

abbrev trx : Transaction
trx = record {
  block_hash = none;
  block_number = some 12;
  time_stamp = 1000;
  from = 3;
  gas_used = some 21000;
  gas_price = 5;
  hash = 99;
  to = none;
  contract_address = some 77;
  gas = 90000;
  cumulative_gas_used = some 50000;
  nonce = 1;
  trx_index = none;
  input_data = [];
  large_input = false;
  status = some 1;
  value = 0;
  index = none;
  logs = [];
}

abbrev sender : EventAcc
sender = record { watch_dog = 0; addr = 3; act = wallet; blk = block; trx = trx }

stored_once_example : accounts_in (process repo sender) ≡ 3 ∷ []
stored_once_example = stored_once repo sender (λ c. refl)

deployer_stored_as_contract_example :
    (c : Contract) × (rest : List Call) × (process repo sender ≡ store_contract c ∷ rest)
    × (c.address ≡ 3)
deployer_stored_as_contract_example = deployer_stored_as_contract repo sender 77 refl refl
