-- ===== src/Documents/Tests.antt =====
-- Texts that say what they were made of, a driver that keeps every row, a mined transaction with a
-- log, and two withdraw requests.
use explorer_api_gql.Base.{
  ℕ, ◌^◌, ◌≡◌, refl, arith, false, Option, none, some, [], ◌∷◌, ltb, if◌then◌else◌,
}
use explorer_api_gql.Types.{Log, Transaction}
use explorer_api_gql.Logs.Effects.{WithdrawRequest, undelegated}
use explorer_api_gql.Documents.{Hex, Reads, Driver}
use explorer_api_gql.Documents.Trx.{MinedPart, BsonTransaction, marshal_trx, unmarshal_trx}
use explorer_api_gql.Documents.Trx.Kept.{IsMined, restored, trx_back}
use explorer_api_gql.Documents.Staking.{BsonWithdrawRequest, marshal_withdraw, unmarshal_withdraw}
use explorer_api_gql.Documents.Staking.Kept.{IsRequest, kept, withdraw_back}

data HexText : Type 0 where
  of_hash of_address of_big : ℕ → HexText

abbrev value_of : HexText → ℕ
value_of (of_hash h) = h
value_of (of_address a) = a
value_of (of_big n) = n

abbrev number_of : HexText → Option ℕ
number_of (of_hash h) = if ltb h (2 ^ 252) then none else some h
number_of (of_address a) = none
number_of (of_big n) = some n

abbrev hex : Hex HexText
hex = record {
  of_hash = of_hash;
  to_hash = value_of;
  of_address = of_address;
  to_address = value_of;
  of_big = of_big;
  decode_big = number_of;
}

reads : Reads hex
reads = record {
  hash_back = λ h b. refl;
  address_back = λ a b. refl;
  big_back = λ n b. refl;
  hash_as_big = λ h a b. ground arith;
  leading_zero = λ h a. ground arith;
}

abbrev driver : (Row : Type 0) → Driver Row Row
driver Row = record { marshal = some; unmarshal = some }

abbrev log : Log
log = record {
  address = 77;
  topics = 5 ∷ 6 ∷ [];
  bytes = 1 ∷ [];
  block_number = 12;
  tx_hash = 900;
  tx_index = 3;
  log_index = 4;
  block_hash = 800;
  removed = false;
}

abbrev trx : Transaction
trx = record {
  block_hash = some 800;
  block_number = some 12;
  time_stamp = 1000;
  from = 42;
  gas = 90000;
  gas_used = some 60000;
  cumulative_gas_used = some 50000;
  gas_price = 5;
  hash = 900;
  nonce = 1;
  to = some 77;
  contract_address = none;
  trx_index = some 3;
  value = 1000;
  input_data = 9 ∷ [];
  large_input = false;
  index = some 3;
  status = some 1;
  logs = log ∷ [];
}

abbrev place : MinedPart
place = record {
  block_number = 12;
  index = 3;
  cumulative_gas_used = 50000;
  gas_used = 60000;
  status = 1;
}

trx-IsMined : IsMined trx 800 place
trx-IsMined = record {
  in_block = refl;
  numbered = refl;
  indexed = refl;
  placed = refl;
  used = refl;
  cumulated = refl;
  done = refl;
  block_range = omega arith;
  number_range = omega arith;
  index_range = omega arith;
  used_range = omega arith;
  cumulative_range = omega arith;
  status_range = omega arith;
  hash_range = omega arith;
  from_range = omega arith;
  to_range = omega arith;
  contract_range = tt;
  value_range = omega arith;
  price_range = omega arith;
  own_logs = (
    record {
      log_hash = refl;
      log_block = refl;
      log_number = refl;
      log_place = refl;
      log_address = omega arith;
      log_topics = (omega arith, (omega arith, tt));
      log_fits = omega arith;
    },
    tt,
  );
}

trx_back_example :
    (doc : BsonTransaction HexText) × (marshal_trx hex (driver (BsonTransaction HexText)) trx
      ≡ some doc)
    × (unmarshal_trx hex (driver (BsonTransaction HexText)) doc ≡ some (restored trx place))
trx_back_example =
    trx_back hex (driver (BsonTransaction HexText)) reads (λ row f. (row, refl, refl)) trx 800 place
      trx-IsMined

abbrev request : WithdrawRequest
request = record {
  type = undelegated;
  request_trx = 900;
  withdraw_request_id = 1;
  address = 42;
  staker_id = 7;
  created_time = 1000;
  amount = 5_000_000_000;
  withdraw_trx = some (2 ^ 255);
  withdraw_time = some 2000;
  penalty = some 30;
}

request-IsRequest : IsRequest request
request-IsRequest = record {
  trx_range = omega arith;
  id_range = omega arith;
  address_range = omega arith;
  staker_range = omega arith;
  time_range = omega arith;
  amount_range = omega arith;
  final = omega arith;
  final_time = omega arith;
}

withdraw_back_example :
    (doc : BsonWithdrawRequest HexText) × (marshal_withdraw hex
        (driver (BsonWithdrawRequest HexText))
        request
      ≡ some doc)
    × (unmarshal_withdraw hex (driver (BsonWithdrawRequest HexText)) doc ≡ kept request)
withdraw_back_example =
    withdraw_back hex (driver (BsonWithdrawRequest HexText)) reads (λ row f. (row, refl, refl))
      request request-IsRequest

-- the penalty of 30 is read as the hash of the finalising transaction
penalty_lost : kept request ≡ some (record request { penalty = some (2 ^ 255) })
penalty_lost = refl
