-- ===== src/Logs/Safe/Rewards.antt =====
-- The handlers of rewards and stakes, on logs that have the topics of their events.
use explorer_api_gql.Base.{
  ℕ, ◌≤◌, arith, length, Bool, true, none, some, inl, inr, Bool-cases, Option-cases,
}
use explorer_api_gql.Types.{Address}
use explorer_api_gql.Logs.Effects.{LogRecord, Repo, Act, return}
use explorer_api_gql.Logs.Reward.{
  reward_claim, handle_sfc_reward_claim, handle_sfc_common_reward_claim, handle_sfc_restake_rewards,
  handle_sfc_claimed_rewards, handle_sfc1_claimed_delegation_reward, handle_sfc1_unstashed_reward,
  handle_sfc1_claimed_validator_reward,
}
use explorer_api_gql.Logs.Stake.{
  handle_sfc_created_stake, handle_sfc1_increased_stake, handle_sfc1_withdrawn_stake,
  handle_sfc1_deactivated_stake, handle_sfc1_updated_stake,
}
use explorer_api_gql.Logs.Safe.{
  Safe, return-Safe, bind-Safe, topic-Safe, topics2-Safe, unless-Safe, handle_new_delegation-Safe,
  update_balance-Safe, handle_new_withdraw_request-Safe, handle_finished_withdraw_request-Safe,
}

module _ (repo : Repo) (lr : LogRecord) where
  handle_sfc_reward_claim-Safe :
      (address : Address) (validator amount : ℕ) (is_restake : Bool)
      → Safe (handle_sfc_reward_claim repo lr address validator amount is_restake)
  unfolding handle_sfc_reward_claim
  handle_sfc_reward_claim-Safe address validator amount is_restake =
      elim (Bool-cases
        (repo.reward_claim_accepted (reward_claim lr address validator amount is_restake))) [
          | inl e ↦ rw e (update_balance-Safe repo lr address validator)
          | inr e ↦ rw e return-Safe
        ]

  handle_sfc_common_reward_claim-Safe :
      (is_restake : Bool)
      → 3 ≤ length lr.log.topics
      → Safe (handle_sfc_common_reward_claim repo lr is_restake)
  unfolding handle_sfc_common_reward_claim
  handle_sfc_common_reward_claim-Safe is_restake h = unless-Safe _ _ (
      topics2-Safe lr 1 2 _ (omega arith) (omega arith)
        (λ a b. handle_sfc_reward_claim-Safe _ _ _ _))

  pub handle_sfc_restake_rewards-Safe :
      3 ≤ length lr.log.topics → Safe (handle_sfc_restake_rewards repo lr)
  unfolding handle_sfc_restake_rewards
  handle_sfc_restake_rewards-Safe h =
      bind-Safe _ _ (handle_sfc_common_reward_claim-Safe true h) (λ u.
        unless-Safe _ _ (topics2-Safe lr 1 2 _ (omega arith) (omega arith) (λ a b. return-Safe)))

  -- what follows the address of a validator
  validator-Safe :
      (validator : ℕ) (f : Address → Act (Unit {0}))
      → ((address : Address) → Safe (f address))
      → Safe (elim (repo.validator_address validator) [ none ↦ return | some address ↦ f address ])
  validator-Safe validator f s = elim (Option-cases (repo.validator_address validator)) [
    | inl e ↦ rw e return-Safe
    | inr (address, e) ↦ rw e (s address)
  ]

  pub handle_sfc_claimed_rewards-Safe :
      3 ≤ length lr.log.topics → Safe (handle_sfc_claimed_rewards repo lr)
  unfolding handle_sfc_claimed_rewards
  handle_sfc_claimed_rewards-Safe h = handle_sfc_common_reward_claim-Safe _ h

  pub handle_sfc1_claimed_delegation_reward-Safe :
      3 ≤ length lr.log.topics → Safe (handle_sfc1_claimed_delegation_reward repo lr)
  unfolding handle_sfc1_claimed_delegation_reward
  handle_sfc1_claimed_delegation_reward-Safe h = unless-Safe _ _ (
      topics2-Safe lr 1 2 _ (omega arith) (omega arith)
        (λ a b. handle_sfc_reward_claim-Safe _ _ _ _))

  pub handle_sfc1_unstashed_reward-Safe :
      2 ≤ length lr.log.topics → Safe (handle_sfc1_unstashed_reward repo lr)
  unfolding handle_sfc1_unstashed_reward
  handle_sfc1_unstashed_reward-Safe h =
      unless-Safe _ _ (topic-Safe lr 1 _ (omega arith) (λ a. handle_sfc_reward_claim-Safe _ _ _ _))

  pub handle_sfc1_claimed_validator_reward-Safe :
      2 ≤ length lr.log.topics → Safe (handle_sfc1_claimed_validator_reward repo lr)
  unfolding handle_sfc1_claimed_validator_reward
  handle_sfc1_claimed_validator_reward-Safe h = unless-Safe _ _ (
      topic-Safe lr 1 _ (omega arith)
        (λ a. validator-Safe a _ (λ address. handle_sfc_reward_claim-Safe _ _ _ _)))

  pub handle_sfc_created_stake-Safe :
      3 ≤ length lr.log.topics → Safe (handle_sfc_created_stake repo lr)
  unfolding handle_sfc_created_stake
  handle_sfc_created_stake-Safe h =
      topics2-Safe lr 1 2 _ (omega arith) (omega arith)
        (λ a b. handle_new_delegation-Safe repo lr _ _ _)

  pub handle_sfc1_increased_stake-Safe :
      2 ≤ length lr.log.topics → Safe (handle_sfc1_increased_stake repo lr)
  unfolding handle_sfc1_increased_stake
  handle_sfc1_increased_stake-Safe h =
      topic-Safe lr 1 _ (omega arith)
        (λ a. validator-Safe a _ (λ address. update_balance-Safe repo lr _ _))

  pub handle_sfc1_withdrawn_stake-Safe :
      2 ≤ length lr.log.topics → Safe (handle_sfc1_withdrawn_stake repo lr)
  unfolding handle_sfc1_withdrawn_stake
  handle_sfc1_withdrawn_stake-Safe h = unless-Safe _ _ (
      topic-Safe lr 1 _ (omega arith) (λ a.
        validator-Safe a _ (λ address. handle_finished_withdraw_request-Safe repo lr _ _ _ _)))

  pub handle_sfc1_deactivated_stake-Safe :
      2 ≤ length lr.log.topics → Safe (handle_sfc1_deactivated_stake repo lr)
  unfolding handle_sfc1_deactivated_stake
  handle_sfc1_deactivated_stake-Safe h = unless-Safe _ _ (
      topic-Safe lr 1 _ (omega arith)
        (λ a. validator-Safe a _ (λ address. handle_new_withdraw_request-Safe repo lr _ _ _ _ _)))

  pub handle_sfc1_updated_stake-Safe :
      2 ≤ length lr.log.topics → Safe (handle_sfc1_updated_stake repo lr)
  unfolding handle_sfc1_updated_stake
  handle_sfc1_updated_stake-Safe h =
      topic-Safe lr 1 _ (omega arith)
        (λ a. validator-Safe a _ (λ address. update_balance-Safe repo lr _ _))
