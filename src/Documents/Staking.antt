-- ===== src/Documents/Staking.antt =====
-- The documents of delegations, withdraw requests, reward claims and epochs: MarshalBSON and UnmarshalBSON of
-- internal/types/{delegation,withdraw,reward,epoch}.go. The time stamp of a row is its time in seconds
-- again. The identifier and the ordinal index of a row that is read are left out of a delegation.
pub mod Kept
use explorer_api_gql.Base.{ℕ, ◌/◌, ◌%◌, Bool, Option, none, some}
use explorer_api_gql.Types.{Hash, Address, Epoch, u64}
use explorer_api_gql.Logs.Effects.{
  Delegation, WithdrawType, WithdrawRequest, RewardClaim, decimals_correction, int64,
}
use explorer_api_gql.Ordinals.{
  delegation_ordinal_index, withdraw_ordinal_index, reward_ordinal_index,
}
use explorer_api_gql.Documents.{Hex, Driver, map_option, then_do}

-- an amount with nine digits less, in 64 bits
abbrev pub corrected : ℕ → ℕ
corrected amount = amount / decimals_correction % u64

-- `BurnDecimalsCorrection`
abbrev pub burn_decimals_correction : ℕ
burn_decimals_correction = 1_000_000_000

pub record BsonDelegation (Text : Type 0) : Type 0 where
  pub orx : ℕ
  pub trx : Text
  pub addr : Text
  pub to : Text
  pub to_addr : Text
  pub cr_time : ℕ
  pub staked : Text
  pub active : Text
  pub value : ℕ
  pub stamp : ℕ

pub record BsonWithdrawRequest (Text : Type 0) : Type 0 where
  pub id : Text
  pub ordinal : ℕ
  pub req_id : Text
  pub addr : Text
  pub to : Text
  pub cr_time : ℕ
  pub stamp : ℕ
  pub amount : Text
  pub penalty : Option Text
  pub value : ℕ
  pub req_trx : Text
  pub fin_trx : Option Text
  pub fin_time : Option ℕ
  pub type : WithdrawType

pub record BsonRewardClaim (Text : Type 0) : Type 0 where
  pub id : Text
  pub ordinal : ℕ
  pub addr : Text
  pub to : Text
  pub claim_time : ℕ
  pub time_stamp : ℕ
  pub amount : Text
  pub value : ℕ
  pub is_dlg : Bool

-- The numbers of an epoch are stored as int64, as words.
pub record BsonEpoch (Text : Type 0) : Type 0 where
  pub id : ℕ
  pub end_time : ℕ
  pub end : ℕ
  pub fee : Text
  pub fee_burn : Text
  pub fee_treasury : Text
  pub base_reward_weight : Text
  pub trx_reward_weight : Text
  pub base_reward_per_second : Text
  pub total_stake : Text
  pub total_supply : Text
  pub burned : ℕ
  pub treasured : ℕ

module _ {Text : Type 0} (hex : Hex Text) where
  -- `MarshalBSON` of a delegation
  pub delegation_row : Delegation → BsonDelegation Text
  delegation_row dl = record {
    orx = delegation_ordinal_index dl;
    trx = hex.of_hash dl.transaction;
    addr = hex.of_address dl.address;
    to = hex.of_big dl.to_staker_id;
    to_addr = hex.of_address dl.to_staker_address;
    cr_time = dl.created_time;
    staked = hex.of_big dl.amount_staked;
    active = hex.of_big dl.amount_delegated;
    value = corrected dl.amount_delegated;
    stamp = dl.created_time;
  }

  -- `UnmarshalBSON` of a delegation; a number that does not decode is an error
  pub delegation_of_row : BsonDelegation Text → Option Delegation
  delegation_of_row row = then_do (hex.decode_big row.to) (λ to.
      then_do (hex.decode_big row.staked) (λ staked. then_do (hex.decode_big row.active) (λ active.
        some (record {
          transaction = hex.to_hash row.trx;
          address = hex.to_address row.addr;
          to_staker_id = to;
          to_staker_address = hex.to_address row.to_addr;
          amount_delegated = active;
          amount_staked = staked;
          created_time = row.cr_time;
        }))))

  -- The penalty is the text of the finalising transaction, which is a panic if there is none.
  abbrev pub penalty_row : Option ℕ → Option Hash → Option (Option Text)
  penalty_row none fin = some none
  penalty_row (some penalty) none = none
  penalty_row (some penalty) (some h) = some (some (hex.of_hash h))

  -- `MarshalBSON` of a withdraw request
  pub withdraw_row : WithdrawRequest → Option (BsonWithdrawRequest Text)
  withdraw_row wr = then_do (penalty_row wr.penalty wr.withdraw_trx) (λ penalty. some (record {
    id = hex.of_hash wr.request_trx;
    ordinal = withdraw_ordinal_index wr;
    req_id = hex.of_big wr.withdraw_request_id;
    addr = hex.of_address wr.address;
    to = hex.of_big wr.staker_id;
    cr_time = wr.created_time;
    stamp = wr.created_time;
    amount = hex.of_big wr.amount;
    penalty = penalty;
    value = corrected wr.amount;
    req_trx = hex.of_hash wr.request_trx;
    fin_trx = map_option hex.of_hash wr.withdraw_trx;
    fin_time = wr.withdraw_time;
    type = wr.type;
  }))

  abbrev pub read_penalty : Option Text → Option (Option ℕ)
  read_penalty none = some none
  read_penalty (some t) = then_do (hex.decode_big t) (λ n. some (some n))

  -- `UnmarshalBSON` of a withdraw request
  pub withdraw_of_row : BsonWithdrawRequest Text → Option WithdrawRequest
  withdraw_of_row row = then_do (hex.decode_big row.req_id) (λ req_id.
      then_do (hex.decode_big row.to) (λ to. then_do (hex.decode_big row.amount) (λ amount.
        then_do (read_penalty row.penalty) (λ penalty. some (record {
          request_trx = hex.to_hash row.id;
          withdraw_request_id = req_id;
          address = hex.to_address row.addr;
          staker_id = to;
          created_time = row.cr_time;
          amount = amount;
          type = row.type;
          withdraw_trx = map_option hex.to_hash row.fin_trx;
          withdraw_time = row.fin_time;
          penalty = penalty;
        })))))

  -- `MarshalBSON` of a reward claim
  pub claim_row : RewardClaim → BsonRewardClaim Text
  claim_row rwc = record {
    id = hex.of_hash rwc.claim_trx;
    ordinal = reward_ordinal_index rwc;
    addr = hex.of_address rwc.delegator;
    to = hex.of_big rwc.to_validator_id;
    claim_time = rwc.claimed;
    time_stamp = rwc.claimed;
    amount = hex.of_big rwc.amount;
    value = corrected rwc.amount;
    is_dlg = rwc.is_delegated;
  }

  -- `UnmarshalBSON` of a reward claim
  pub claim_of_row : BsonRewardClaim Text → Option RewardClaim
  claim_of_row row = then_do (hex.decode_big row.to) (λ to.
      then_do (hex.decode_big row.amount) (λ amount. some (record {
        delegator = hex.to_address row.addr;
        to_validator_id = to;
        claimed = row.claim_time;
        claim_trx = hex.to_hash row.id;
        amount = amount;
        is_delegated = row.is_dlg;
      })))

  -- `MarshalBSON` of an epoch
  pub epoch_row : Epoch → BsonEpoch Text
  epoch_row e = record {
    id = int64 e.id;
    end_time = int64 e.end_time;
    end = int64 e.end_time;
    fee = hex.of_big e.epoch_fee;
    fee_burn = hex.of_big e.epoch_fee_burn;
    fee_treasury = hex.of_big e.epoch_fee_treasury;
    base_reward_weight = hex.of_big e.total_base_reward_weight;
    trx_reward_weight = hex.of_big e.total_tx_reward_weight;
    base_reward_per_second = hex.of_big e.base_reward_per_second;
    total_stake = hex.of_big e.stake_total_amount;
    total_supply = hex.of_big e.total_supply;
    burned = int64 (e.epoch_fee_burn / burn_decimals_correction);
    treasured = int64 (e.epoch_fee_treasury / burn_decimals_correction);
  }

  -- `UnmarshalBSON` of an epoch
  pub epoch_of_row : BsonEpoch Text → Option Epoch
  epoch_of_row row = then_do (hex.decode_big row.fee) (λ fee.
      then_do (hex.decode_big row.fee_burn) (λ fee_burn.
        then_do (hex.decode_big row.fee_treasury) (λ fee_treasury.
          then_do (hex.decode_big row.base_reward_weight) (λ brw.
            then_do (hex.decode_big row.trx_reward_weight) (λ trw.
              then_do (hex.decode_big row.base_reward_per_second) (λ per_second.
                then_do (hex.decode_big row.total_stake) (λ stake.
                  then_do (hex.decode_big row.total_supply) (λ supply. some (record {
                    id = row.id;
                    end_time = row.end_time;
                    epoch_fee = fee;
                    epoch_fee_burn = fee_burn;
                    epoch_fee_treasury = fee_treasury;
                    total_base_reward_weight = brw;
                    total_tx_reward_weight = trw;
                    base_reward_per_second = per_second;
                    stake_total_amount = stake;
                    total_supply = supply;
                  })))))))))

module _ {Text Doc : Type 0} (hex : Hex Text) (driver : Driver (BsonWithdrawRequest Text) Doc) where
  -- `MarshalBSON` and `UnmarshalBSON` of a withdraw request, with the encoder
  pub marshal_withdraw : WithdrawRequest → Option Doc
  marshal_withdraw wr = then_do (withdraw_row hex wr) driver.marshal

  pub unmarshal_withdraw : Doc → Option WithdrawRequest
  unmarshal_withdraw doc = then_do (driver.unmarshal doc) (withdraw_of_row hex)
