-- ===== src/Logs/Tests.antt =====
-- Logs of a short chain, and a repository that knows one validator.
use explorer_api_gql.Base.{
  ℕ, ◌≡◌, refl, ◌⊎◌, true, Option, none, some, List, [], ◌∷◌, ◌++◌, arith, replicate, ◌==◌,
  if◌then◌else◌, false,
}
use explorer_api_gql.Types.{Hash, Log, Block, Transaction}
use explorer_api_gql.Logs.Effects.{
  LogRecord, Repo, updated, ◌>>◌, call, to_address, int64, neg64, locked_delegation_value,
  adjust_locked_delegation, update_withdraw_request,
}
use explorer_api_gql.Logs.Dispatch.{
  Incoming, LogDispatcher, running, terminated, crashed, Event, stop, in_log, run,
}
use explorer_api_gql.Logs.Done.{watch_dogs, every_log_done}
use explorer_api_gql.Logs.Abi.{word_of}
use explorer_api_gql.Logs.Delegation.{
  update_balance, handle_sfc1_created_withdraw_request, handle_sfc1_partial_withdraw_by_request,
  handle_unlocked_stake, handle_new_withdraw_request,
}
use explorer_api_gql.Logs.Reward.{handle_sfc_reward_claim, handle_sfc_restake_rewards}
use explorer_api_gql.Logs.Token.{handle_erc1155_transfer_batch}
use explorer_api_gql.Logs.Uniswap.{is_known_uniswap_pair, approved, listed}
use explorer_api_gql.Logs.Decode.{restake_claims_and_locks, unlock_takes_penalty}
use explorer_api_gql.Logs.Withdraws.{stored_request, open_request, request_closed}
use explorer_api_gql.Logs.Batch.{Stored, handle_erc1155_transfer_batch-Stored}
use explorer_api_gql.Logs.Pairs.{after, first_answer_decides}
use explorer_api_gql.Logs.Short.{delegated, short_log_crashes}

abbrev repo : Repo
repo = record {
  validator_address = λ id. if id == 7 then some 700 else none;
  delegation_amount_staked = λ a id. some 50;
  delegation_balance = λ a id. updated;
  find_withdraw_request = λ a id r. none;
  reward_claim_accepted = λ c. true;
  parse_transfer_batch = λ bytes. ([], []);
}

abbrev block : Block
block = record { number = 12; time_stamp = 1000; txs = [] }

abbrev trx : Transaction
trx = record {
  block_hash = none;
  block_number = some 12;
  time_stamp = 1000;
  from = 3;
  gas_used = some 21000;
  gas_price = 5;
  hash = 99;
  to = none;
  contract_address = none;
  gas = 90000;
  cumulative_gas_used = some 50000;
  nonce = 1;
  trx_index = none;
  input_data = [];
  large_input = false;
  status = some 1;
  value = 0;
  index = none;
  logs = [];
}

abbrev log_of : List Hash → List ℕ → Log
log_of topics bytes = record {
  address = 1;
  topics = topics;
  bytes = bytes;
  block_number = 12;
  tx_hash = 99;
  tx_index = 0;
  log_index = 4;
  block_hash = 8;
  removed = false;
}

abbrev incoming : ℕ → Log → Option Incoming
incoming dog log = some (record { watch_dog = dog; log = log; block = some block; trx = some trx })

abbrev dispatcher : LogDispatcher
dispatcher = record { known_pairs = []; calls = []; done = []; status = running }

abbrev some_events : List Event
some_events =
    in_log (incoming 1 (log_of (delegated ∷ 42 ∷ 7 ∷ []) (replicate 32 1))) none
    ∷ in_log (incoming 2 (log_of [] [])) none
    ∷ in_log (incoming 1 (log_of (5 ∷ []) [])) none
    ∷ stop
    ∷ []

every_log_done_example :
    ((run repo dispatcher some_events).done ≡ dispatcher.done ++ watch_dogs some_events)
    × (((run repo dispatcher some_events).status ≡ running)
        ⊎ ((run repo dispatcher some_events).status ≡ terminated))
every_log_done_example =
    every_log_done repo (λ bytes. omega arith) some_events dispatcher refl
      (omega arith, (tt, (omega arith, (tt, tt))))

abbrev short_incoming : Incoming
short_incoming = record {
  watch_dog = 1;
  log = log_of (delegated ∷ 42 ∷ []) [];
  block = some block;
  trx = some trx;
}

short_log_crashes_example :
    ((run repo dispatcher (in_log (some short_incoming) none ∷ some_events)).status ≡ crashed)
    × ((run repo dispatcher (in_log (some short_incoming) none ∷ some_events)).done ≡ [])
short_log_crashes_example =
    short_log_crashes repo short_incoming block trx (42 ∷ []) none some_events dispatcher refl refl
      refl refl (omega arith)

abbrev record_of : Log → LogRecord
record_of log = record { block = block; trx = trx; log = log }

abbrev restaked : LogRecord
restaked =
    record_of
      (log_of (1 ∷ 42 ∷ 7 ∷ []) (word_of 2_000_000_000 ++ (word_of 3_000_000_000 ++ word_of 5)))

restake_claims_and_locks_example : handle_sfc_restake_rewards repo restaked ≡ (
    handle_sfc_reward_claim repo restaked (to_address 42) 7 5_000_000_005 true
    >> call (
        adjust_locked_delegation (to_address 42) (int64 7) (locked_delegation_value 5_000_000_000)))
restake_claims_and_locks_example =
    restake_claims_and_locks repo restaked 1 42 7 2_000_000_000 3_000_000_000 5 refl refl
      (omega arith) (omega arith) (omega arith)

abbrev unlocked : LogRecord
unlocked = record_of (log_of (1 ∷ 42 ∷ 7 ∷ []) (word_of 9_000_000_000 ++ word_of 4_000_000_000))

unlock_takes_penalty_example :
    handle_unlocked_stake unlocked
    ≡ call (
        adjust_locked_delegation
          (to_address 42)
          (int64 7)
          (neg64 (locked_delegation_value 4_000_000_000)))
unlock_takes_penalty_example =
    unlock_takes_penalty unlocked 1 42 7 9_000_000_000 4_000_000_000 refl refl (omega arith)
      (omega arith)

abbrev created : LogRecord
created = record_of (log_of (1 ∷ 42 ∷ 43 ∷ 7 ∷ []) (word_of 11 ++ (word_of 1 ++ word_of 500)))

abbrev finished : LogRecord
finished = record_of (log_of (2 ∷ 42 ∷ 42 ∷ 7 ∷ []) (word_of 11 ++ (word_of 1 ++ word_of 20)))

abbrev keeping : Repo
keeping = record repo {
  find_withdraw_request = stored_request (handle_sfc1_created_withdraw_request repo created).1;
}

request_closed_example : handle_sfc1_partial_withdraw_by_request keeping finished ≡ (
    call (
      update_withdraw_request (record (open_request created (to_address 42) 7 11 500) {
        withdraw_time = some 1000;
        withdraw_trx = some 99;
        penalty = some 20;
      }))
    >> update_balance keeping finished (to_address 42) 7)
unfolding handle_sfc1_created_withdraw_request handle_new_withdraw_request update_balance
request_closed_example =
    request_closed keeping created finished 1 2 42 43 42 7 11 1 1 500 20 refl refl refl refl
      (omega arith) (omega arith) (omega arith) (omega arith) (omega arith) refl

abbrev batching : Repo
batching = record repo { parse_transfer_batch = λ bytes. (4 ∷ 6 ∷ [], 100 ∷ 1 ∷ []) }

abbrev batch : LogRecord
batch = record_of (log_of (1 ∷ 5 ∷ 42 ∷ 43 ∷ []) [])

handle_erc1155_transfer_batch-Stored_example :
    Stored batch
      (to_address 42)
      (to_address 43)
      (100 ∷ 1 ∷ [])
      0
      (4 ∷ 6 ∷ [])
      (handle_erc1155_transfer_batch batching batch)
handle_erc1155_transfer_batch-Stored_example =
    handle_erc1155_transfer_batch-Stored batching batch 1 5 42 43 refl refl (omega arith)

first_answer_decides_example :
    (is_known_uniswap_pair
      (some (8 ∷ []))
      8
      (after ((some (8 ∷ 9 ∷ []), 9) ∷ []) (is_known_uniswap_pair (some (9 ∷ [])) 8 []).1)).0
    ≡ listed (9 ∷ []) 8
unfolding approved
first_answer_decides_example =
    first_answer_decides (9 ∷ []) 8 [] ((some (8 ∷ 9 ∷ []), 9) ∷ []) (some (8 ∷ [])) refl
