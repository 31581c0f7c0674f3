-- ===== src/Logs/Reward.antt =====
-- The handlers of internal/svc/logs_sfc_reward.go.
use explorer_api_gql.Base.{
  ℕ, ◌+◌, Bool, true, false, none, some, length, take, drop, ◌!=◌, if◌then◌else◌,
}
use explorer_api_gql.Types.{Address}
use explorer_api_gql.Logs.Effects.{
  LogRecord, RewardClaim, store_reward_claim, adjust_locked_delegation, Repo, Act, ◌>>=◌, ◌>>◌,
  call, return, topic, set_bytes, to_address, int64, locked_delegation_value,
}
use explorer_api_gql.Logs.Delegation.{update_balance}

abbrev pub reward_claim : LogRecord → Address → ℕ → ℕ → Bool → RewardClaim
reward_claim lr address validator amount is_restake = record {
  delegator = address;
  to_validator_id = validator;
  claimed = lr.block.time_stamp;
  claim_trx = lr.log.tx_hash;
  amount = amount;
  is_delegated = is_restake;
}

module _ (repo : Repo) where
  -- `handleSfcRewardClaim`: a claim that can not be stored ends it.
  unfoldable pub handle_sfc_reward_claim : LogRecord → Address → ℕ → ℕ → Bool → Act (Unit {0})
  handle_sfc_reward_claim lr address validator amount is_restake = do
    call (store_reward_claim (reward_claim lr address validator amount is_restake))
    if repo.reward_claim_accepted (reward_claim lr address validator amount is_restake)
        then update_balance repo lr address validator
        else return

  unfoldable pub handle_sfc_common_reward_claim : LogRecord → Bool → Act (Unit {0})
  handle_sfc_common_reward_claim lr is_restake = if length lr.log.bytes != 96 then return else do
    delegator ← topic lr 1
    validator ← topic lr 2
    handle_sfc_reward_claim lr (to_address delegator) validator
        (set_bytes (take 32 lr.log.bytes)
          + set_bytes (take 32 (drop 32 lr.log.bytes))
          + set_bytes (drop 64 lr.log.bytes))
        is_restake

  unfoldable pub handle_sfc_restake_rewards : LogRecord → Act (Unit {0})
  handle_sfc_restake_rewards lr = do
    handle_sfc_common_reward_claim lr true
    if length lr.log.bytes != 96 then return else do
      delegator ← topic lr 1
      validator ← topic lr 2
      call (
          adjust_locked_delegation (to_address delegator) (int64 validator) (
            locked_delegation_value
              (set_bytes (take 32 (drop 32 lr.log.bytes)) + set_bytes (take 32 lr.log.bytes))))

  unfoldable pub handle_sfc_claimed_rewards : LogRecord → Act (Unit {0})
  handle_sfc_claimed_rewards lr = handle_sfc_common_reward_claim lr false

  unfoldable pub handle_sfc1_claimed_delegation_reward : LogRecord → Act (Unit {0})
  handle_sfc1_claimed_delegation_reward lr = if length lr.log.bytes != 96 then return else do
    delegator ← topic lr 1
    validator ← topic lr 2
    handle_sfc_reward_claim lr (to_address delegator) validator (set_bytes (take 32 lr.log.bytes))
        false

  -- The validator of a stashed amount is not known here: it is 0.
  unfoldable pub handle_sfc1_unstashed_reward : LogRecord → Act (Unit {0})
  handle_sfc1_unstashed_reward lr = if length lr.log.bytes != 32 then return else do
    delegator ← topic lr 1
    handle_sfc_reward_claim lr (to_address delegator) 0 (set_bytes (take 32 lr.log.bytes)) false

  unfoldable pub handle_sfc1_claimed_validator_reward : LogRecord → Act (Unit {0})
  handle_sfc1_claimed_validator_reward lr = if length lr.log.bytes != 96 then return else do
    validator ← topic lr 1
    elim (repo.validator_address validator) [
      | none ↦ return
      | some address ↦
          handle_sfc_reward_claim lr address validator (set_bytes (take 32 lr.log.bytes)) false
    ]
