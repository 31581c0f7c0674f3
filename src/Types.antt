-- ===== src/Types.antt =====
-- The data that the services pass around: internal/types/{block,transaction,log_record}.go, with the
-- fields that the modelled code reads. A hash is a number below 2 ^ 256, an address one below
-- 2 ^ 160, and a byte one below 256. An unsigned machine integer is a number below its modulus.
-- A pointer that may be nil is optional.
use explorer_api_gql.Base.{ℕ, ◌^◌, Bool, Option, List}

abbrev pub Hash : Type 0
Hash = ℕ

abbrev pub Address : Type 0
Address = ℕ

-- the modulus of uint64
abbrev pub u64 : ℕ
u64 = 2 ^ 64

-- `TransactionDecimalsCorrection` and `TransactionGasCorrection`
abbrev pub value_correction : ℕ
value_correction = 1_000_000_000

abbrev pub gas_correction : ℕ
gas_correction = 10_000_000

-- `core/types.Log` of the node's library, which the model reads as data
pub record Log : Type 0 where
  pub address : Address
  pub topics : List Hash
  pub bytes : List ℕ
  pub block_number : ℕ
  pub tx_hash : Hash
  pub tx_index : ℕ
  pub log_index : ℕ
  pub block_hash : Hash
  pub removed : Bool

pub record Block : Type 0 where
  pub number : ℕ
  pub time_stamp : ℕ
  pub txs : List Hash

pub record Transaction : Type 0 where
  pub block_hash : Option Hash
  pub block_number : Option ℕ
  pub time_stamp : ℕ
  pub from : Address
  pub gas : ℕ
  pub gas_used : Option ℕ
  pub cumulative_gas_used : Option ℕ
  pub gas_price : ℕ
  pub hash : Hash
  pub nonce : ℕ
  pub to : Option Address
  pub contract_address : Option Address
  pub trx_index : Option ℕ
  pub value : ℕ
  pub input_data : List ℕ
  pub large_input : Bool
  pub index : Option ℕ
  pub status : Option ℕ
  pub logs : List Log

-- `Epoch` of internal/types/epoch.go
pub record Epoch : Type 0 where
  pub id : ℕ
  pub end_time : ℕ
  pub epoch_fee : ℕ
  pub epoch_fee_burn : ℕ
  pub epoch_fee_treasury : ℕ
  pub total_base_reward_weight : ℕ
  pub total_tx_reward_weight : ℕ
  pub base_reward_per_second : ℕ
  pub stake_total_amount : ℕ
  pub total_supply : ℕ
