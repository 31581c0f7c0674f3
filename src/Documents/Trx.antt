-- ===== src/Documents/Trx.antt =====
-- The document of a transaction: MarshalBSON and UnmarshalBSON of internal/types/transaction.go. A time is
-- in whole seconds.
pub mod Kept
use explorer_api_gql.Base.{
  ℕ, ◌+◌, ◌*◌, ◌/◌, ◌%◌, ◌^◌, Bool, true, false, Option, none, some, List, [], ◌∷◌, map, length,
  ltb, if◌then◌else◌,
}
use explorer_api_gql.Types.{Hash, Address, Log, Transaction, u64, value_correction, gas_correction}
use explorer_api_gql.Ordinals.{uid}
use explorer_api_gql.Documents.{Hex, Driver, map_option, then_do}

-- `trxLargeInputWall`
abbrev pub large_input_wall : ℕ
large_input_wall = 32 * 8

pub record BsonLog (Text : Type 0) : Type 0 where
  pub address : Text
  pub topics : List Text
  pub bytes : List ℕ
  pub index : ℕ
  pub removed : Bool

-- The type of each number is that of its field; an int64 is its word.
pub record BsonTransaction (Text : Type 0) : Type 0 where
  pub hash : Text
  pub ordinal : ℕ
  pub block_id : Option ℕ
  pub block_hash : Option Text
  pub blk_index : Option ℕ
  pub from : Text
  pub to : Option Text
  pub value : Text
  pub amount : ℕ
  pub large_input : Bool
  pub input : List ℕ
  pub gas : ℕ
  pub used_gas : Option ℕ
  pub cum_gas : Option ℕ
  pub gas_price : Text
  pub gas_gwei : ℕ
  pub nonce : ℕ
  pub contract : Option Text
  pub status : ℕ
  pub stamp : ℕ
  pub logs : List (BsonLog Text)

-- what a mined transaction has on top
pub record MinedPart : Type 0 where
  pub block_number : ℕ
  pub index : ℕ
  pub cumulative_gas_used : ℕ
  pub gas_used : ℕ
  pub status : ℕ

-- the pointers that are read when there is a block; a nil one is a panic
pub mined : Transaction → Option MinedPart
mined trx = then_do trx.block_number (λ bn. then_do trx.index (λ bx.
    then_do trx.cumulative_gas_used (λ gc. then_do trx.gas_used (λ gu. then_do trx.status (λ st.
      some (record {
        block_number = bn;
        index = bx;
        cumulative_gas_used = gc;
        gas_used = gu;
        status = st;
      }))))))

-- the gas that is stored as used: no more than the cumulative one, and 63 bits of it
abbrev pub stored_gas : ℕ → ℕ → ℕ
stored_gas used cumulative = if ltb cumulative used then cumulative % 2 ^ 63 else used % 2 ^ 63

abbrev pub is_large : Transaction → Bool
is_large trx = ltb large_input_wall (length trx.input_data)

-- a value that does not decode is left at zero
abbrev pub value_or_zero : Option ℕ → ℕ
value_or_zero none = 0
value_or_zero (some n) = n

module _ {Text : Type 0} (hex : Hex Text) where
  abbrev pub log_row : Log → BsonLog Text
  log_row lg = record {
    address = hex.of_address lg.address;
    topics = map hex.of_hash lg.topics;
    bytes = lg.bytes;
    index = lg.log_index;
    removed = lg.removed;
  }

  -- the row of a pending transaction, with its ordinal index
  pub pending_row : Transaction → ℕ → BsonTransaction Text
  pending_row trx ordinal = record {
    hash = hex.of_hash trx.hash;
    ordinal = ordinal;
    block_id = none;
    block_hash = none;
    blk_index = none;
    from = hex.of_address trx.from;
    to = map_option hex.of_address trx.to;
    value = hex.of_big trx.value;
    amount = trx.value / value_correction % u64;
    large_input = is_large trx;
    input = if is_large trx then [] else trx.input_data;
    gas = trx.gas;
    used_gas = none;
    cum_gas = none;
    gas_price = hex.of_big trx.gas_price;
    gas_gwei = trx.gas_price / gas_correction % u64;
    nonce = trx.nonce;
    contract = map_option hex.of_address trx.contract_address;
    status = 0;
    stamp = trx.time_stamp;
    logs = map log_row trx.logs;
  }

  abbrev pub mined_row : Hash → MinedPart → BsonTransaction Text → BsonTransaction Text
  mined_row h mi row = record row {
    block_hash = some (hex.of_hash h);
    block_id = some mi.block_number;
    blk_index = some mi.index;
    cum_gas = some (mi.cumulative_gas_used % 2 ^ 63);
    used_gas = some (stored_gas mi.gas_used mi.cumulative_gas_used);
    status = mi.status;
  }

  abbrev pub with_block :
      Option Hash → Option MinedPart → BsonTransaction Text → Option (BsonTransaction Text)
  with_block none mi row = some row
  with_block (some h) none row = none
  with_block (some h) (some mi) row = some (mined_row h mi row)

  -- the row that `MarshalBSON` encodes; `none` is a panic
  pub trx_row : Transaction → Option (BsonTransaction Text)
  trx_row trx =
      then_do (uid trx) (λ ordinal. with_block trx.block_hash (mined trx) (pending_row trx ordinal))

-- what a row with a block has for the transaction
pub record Place : Type 0 where
  pub block_hash : Hash
  pub block_number : ℕ
  pub index : ℕ
  pub gas_used : ℕ
  pub cumulative_gas_used : ℕ

module _ {Text : Type 0} (hex : Hex Text) where
  -- the pointers that are read if there is a block hash; a nil one is a panic
  abbrev pub place_at : Text → BsonTransaction Text → Option Place
  place_at bh row = then_do row.block_id (λ bn. then_do row.blk_index (λ bx.
      then_do row.used_gas (λ gu. then_do row.cum_gas (λ gc. some (record {
        block_hash = hex.to_hash bh;
        block_number = bn;
        index = bx;
        gas_used = gu;
        cumulative_gas_used = gc;
      })))))

  abbrev pub place_of : Option Text → BsonTransaction Text → Option (Option Place)
  place_of none row = some none
  place_of (some bh) row = then_do (place_at bh row) (λ pl. some (some pl))

  -- a log gets its block and its transaction from the row
  abbrev pub read_log : BsonTransaction Text → BsonLog Text → Option Log
  read_log row lg = then_do row.block_id (λ bn. then_do row.blk_index (λ bx.
      then_do row.block_hash (λ bh. some (record {
        address = hex.to_address lg.address;
        topics = map hex.to_hash lg.topics;
        bytes = lg.bytes;
        block_number = bn;
        tx_hash = hex.to_hash row.hash;
        tx_index = bx;
        log_index = lg.index;
        block_hash = hex.to_hash bh;
        removed = lg.removed;
      }))))

  pub read_logs : BsonTransaction Text → List (BsonLog Text) → Option (List Log)
  read_logs row [] = some []
  read_logs row (lg ∷ lgs) =
      then_do (read_log row lg) (λ log. then_do (read_logs row lgs) (λ logs. some (log ∷ logs)))

  abbrev pub read_trx : BsonTransaction Text → ℕ → Option Place → List Log → Transaction
  read_trx row gas_price pl logs = record {
    block_hash = map_option (λ p. p.block_hash) pl;
    block_number = map_option (λ p. p.block_number) pl;
    time_stamp = row.stamp;
    from = hex.to_address row.from;
    gas = row.gas;
    gas_used = map_option (λ p. p.gas_used) pl;
    cumulative_gas_used = map_option (λ p. p.cumulative_gas_used) pl;
    gas_price = gas_price;
    hash = hex.to_hash row.hash;
    nonce = row.nonce;
    to = map_option hex.to_address row.to;
    contract_address = map_option hex.to_address row.contract;
    trx_index = map_option (λ p. p.index) pl;
    value = value_or_zero (hex.decode_big row.value);
    input_data = row.input;
    large_input = row.large_input;
    index = map_option (λ p. p.index) pl;
    status = some row.status;
    logs = logs;
  }

  -- what `UnmarshalBSON` makes of a row; `none` is a panic, which it turns into an error
  pub trx_of_row : BsonTransaction Text → Option Transaction
  trx_of_row row = then_do (hex.decode_big row.gas_price) (λ gas_price.
      then_do (place_of row.block_hash row)
        (λ pl. then_do (read_logs row row.logs) (λ logs. some (read_trx row gas_price pl logs))))

module _ {Text Doc : Type 0} (hex : Hex Text) (driver : Driver (BsonTransaction Text) Doc) where
  -- `MarshalBSON`
  pub marshal_trx : Transaction → Option Doc
  marshal_trx trx = then_do (trx_row hex trx) driver.marshal

  -- `UnmarshalBSON`
  pub unmarshal_trx : Doc → Option Transaction
  unmarshal_trx doc = then_do (driver.unmarshal doc) (trx_of_row hex)
