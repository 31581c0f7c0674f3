-- ===== src/Burn.antt =====
-- The burn dispatcher of internal/svc/dispatch_burn.go, with the shares of a fee of
-- internal/repository/burn.go. The fees of a block are collected until a transaction of another
-- block comes. Fees are integers, since a used gas from 2 ^ 63 on is a negative int64.
pub mod Share
pub mod Collected
pub mod Conserved
mod Tests
use explorer_api_gql.Base.{
  ℕ, ◌+◌, ◌-◌, ◌*◌, ◌/◌, Bool, Option, none, some, List, [], ◌∷◌, ◌++◌, leb, ◌&&◌, ◌==◌,
  if◌then◌else◌,
}
use explorer_api_gql.Base.Int.{ℤ, pos, ◌+ℤ◌, scale, div_down, int64}
use explorer_api_gql.Types.{Hash, Block, Transaction, u64}

-- `BurnTreasuryShare`, by blocks
pub record BurnTreasuryShare : Type 0 where
  pub since_block_id : ℕ
  pub until_block_id : ℕ
  pub to_burn : ℕ
  pub to_treasury : ℕ
  pub to_rewards : ℕ
  pub digit_correction : ℕ

-- `burnTreasury`
abbrev pub burn_treasury : List BurnTreasuryShare
burn_treasury =
    record {
      since_block_id = 0;
      until_block_id = 48552263;
      to_burn = 300;
      to_treasury = 0;
      to_rewards = 700;
      digit_correction = 1000;
    }
    ∷ record {
      since_block_id = 48552264;
      until_block_id = u64 - 1;
      to_burn = 200;
      to_treasury = 100;
      to_rewards = 700;
      digit_correction = 1000;
    }
    ∷ []

-- the loop of `BurnTreasuryStashShareByBlock`
pub share_by_block : ℕ → List BurnTreasuryShare → Option BurnTreasuryShare
share_by_block blk [] = none
share_by_block blk (s ∷ shares) =
    if leb s.since_block_id blk && leb blk s.until_block_id
    then some s
    else share_by_block blk shares

-- the results of `burnedFee`
pub record BurnedFee : Type 0 where
  pub fee : ℤ
  pub treasury : ℤ
  pub burn : ℤ
  pub reward : ℤ

abbrev pub no_fee : BurnedFee
no_fee = record { fee = pos 0; treasury = pos 0; burn = pos 0; reward = pos 0 }

abbrev pub split : ℤ → Option BurnTreasuryShare → BurnedFee
split fee none = record { fee = fee; treasury = pos 0; burn = pos 0; reward = pos 0 }
split fee (some share) = record {
  fee = fee;
  treasury = div_down (scale share.to_treasury fee) share.digit_correction;
  burn = div_down (scale share.to_burn fee) share.digit_correction;
  reward = div_down (scale share.to_rewards fee) share.digit_correction;
}

-- `burnedFee`: nothing for a pending transaction. The used gas of another one is read through a
-- pointer, which panics, `none`, if it is nil.
abbrev pub fee_of : ℕ → Option ℕ → Option ℕ → Option BurnedFee
fee_of gas_price none gas_used = some no_fee
fee_of gas_price (some number) none = none
fee_of gas_price (some number) (some gas) =
    some (split (scale gas_price (int64 gas)) (share_by_block number burn_treasury))

abbrev pub burned_fee : Transaction → Option BurnedFee
burned_fee trx = fee_of trx.gas_price trx.block_number trx.gas_used

-- `FtmBurn`
pub record FtmBurn : Type 0 where
  pub block_number : ℕ
  pub blk_time_stamp : ℕ
  pub burn_amount : ℤ
  pub fee_amount : ℤ
  pub treasury_amount : ℤ
  pub rewards_amount : ℤ
  pub tx_list : List Hash

-- `eventTrx`
pub record EventTrx : Type 0 where
  pub blk : Block
  pub trx : Transaction

-- the burn that is collected, and those that went to `StoreFtmBurn`, the oldest first
pub record BurnDispatcher : Type 0 where
  pub current : Option FtmBurn
  pub stored : List FtmBurn

abbrev pub new_burn : EventTrx → BurnedFee → FtmBurn
new_burn tx f = record {
  block_number = tx.blk.number;
  blk_time_stamp = tx.blk.time_stamp;
  burn_amount = f.burn;
  fee_amount = f.fee;
  treasury_amount = f.treasury;
  rewards_amount = f.reward;
  tx_list = tx.trx.hash ∷ [];
}

abbrev pub add_burn : EventTrx → BurnedFee → FtmBurn → FtmBurn
add_burn tx f burn = record burn {
  burn_amount = burn.burn_amount +ℤ f.burn;
  fee_amount = burn.fee_amount +ℤ f.fee;
  treasury_amount = burn.treasury_amount +ℤ f.treasury;
  rewards_amount = burn.rewards_amount +ℤ f.reward;
  tx_list = burn.tx_list ++ tx.trx.hash ∷ [];
}

abbrev pub collect_fee : EventTrx → BurnedFee → Option FtmBurn → List FtmBurn → BurnDispatcher
collect_fee tx f none stored = record { current = some (new_burn tx f); stored = stored }
collect_fee tx f (some burn) stored =
    if tx.blk.number == burn.block_number
    then record { current = some (add_burn tx f burn); stored = stored }
    else record { current = some (new_burn tx f); stored = stored ++ burn ∷ [] }

abbrev with_fee : EventTrx → BurnDispatcher → Option BurnedFee → Option BurnDispatcher
with_fee tx d none = none
with_fee tx d (some f) = some (collect_fee tx f d.current d.stored)

-- `process`
pub process : EventTrx → BurnDispatcher → Option BurnDispatcher
process tx d = with_fee tx d (burned_fee tx.trx)

abbrev pub and_then :
    Option BurnDispatcher → (BurnDispatcher → Option BurnDispatcher) → Option BurnDispatcher
and_then none k = none
and_then (some d) k = k d

-- the loop of `execute` over what comes in, up to the stop signal
pub run : List EventTrx → BurnDispatcher → Option BurnDispatcher
run [] d = some d
run (tx ∷ txs) d = and_then (process tx d) (run txs)
