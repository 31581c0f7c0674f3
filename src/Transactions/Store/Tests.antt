-- ===== src/Transactions/Store/Tests.antt =====
-- Two transactions, of which the first comes twice.
use explorer_api_gql.Base.{ℕ, refl, true, false, none, some, List, [], ◌∷◌, arith}
use explorer_api_gql.Burn.{EventTrx}
use explorer_api_gql.Transactions.Store.{Answer, Storage, Event, go_on, tick}
use explorer_api_gql.Transactions.Store.Once.{StoredOnce, run-StoredOnce, Succeeds}

abbrev event : ℕ → ℕ → EventTrx
event number hash = record {
  blk = record { number = number; time_stamp = 1000; txs = [] };
  trx = record {
    block_hash = none;
    block_number = some number;
    time_stamp = 1000;
    from = 3;
    gas_used = some 21000;
    gas_price = 5;
    hash = hash;
    to = some 4;
    contract_address = none;
    gas = 90000;
    cumulative_gas_used = some 50000;
    nonce = 1;
    trx_index = none;
    input_data = [];
    large_input = false;
    status = some 1;
    value = 0;
    index = some hash;
    logs = [];
  };
}

abbrev fine : Answer
fine = record { looked_up = true; inserted = true; updated = true }

abbrev events : List Event
events =
    go_on fine (event 13 8)
    ∷ tick true
    ∷ go_on fine (event 12 7)
    ∷ go_on fine (event 13 8)
    ∷ tick false
    ∷ []

abbrev storage : Storage
storage = record {
  collection = [];
  trx_count = 5;
  recent_trxs = record { nodes = none ∷ none ∷ []; capacity = 2; head = 0; depth = 0 };
  blk_observer = 1;
  last_known_block = none;
}

fine-Succeeds : (number hash : ℕ) → Succeeds (go_on fine (event number hash))
fine-Succeeds number hash = (refl, refl, refl, λ e. ground arith)

run-StoredOnce_example : StoredOnce events storage
run-StoredOnce_example =
    run-StoredOnce events storage
      (fine-Succeeds 13 8, (tt, (fine-Succeeds 12 7, (fine-Succeeds 13 8, (tt, tt)))))
      (λ hash. omega arith) (omega arith)
