-- ===== src/Logs/Decode.antt =====
-- What the handlers make of a log that a contract emits, with its arguments encoded.
use explorer_api_gql.Base.{ℕ, ◌+◌, ◌^◌, ◌<◌, ◌≡◌, refl, true, [], ◌∷◌, ◌++◌}
use explorer_api_gql.Types.{Hash}
use explorer_api_gql.Logs.Effects.{
  LogRecord, Repo, ◌>>◌, call, to_address, int64, neg64, locked_delegation_value,
  adjust_locked_delegation,
}
use explorer_api_gql.Logs.Delegation.{handle_unlocked_stake}
use explorer_api_gql.Logs.Reward.{
  handle_sfc_reward_claim, handle_sfc_common_reward_claim, handle_sfc_restake_rewards,
}
use explorer_api_gql.Logs.Abi.{word_of, words2, words3}

module _ (repo : Repo) (lr : LogRecord) where
  -- A log `RestakedRewards` of the three parts of a reward stores a claim of their sum, and then
  -- raises the locked amount by the two parts that come from the lock, in units of 10 ^ 9, but not
  -- by the unlocked part, whether the claim can be stored or not.
  pub restake_claims_and_locks :
      (t : Hash) (delegator validator extra base unlocked : ℕ)
      → lr.log.topics ≡ t ∷ delegator ∷ validator ∷ []
      → lr.log.bytes ≡ word_of extra ++ (word_of base ++ word_of unlocked)
      → extra < 2 ^ 256
      → base < 2 ^ 256
      → unlocked < 2 ^ 256
      → handle_sfc_restake_rewards repo lr ≡ (
          handle_sfc_reward_claim repo lr
            (to_address delegator)
            validator
            (extra + base + unlocked)
            true
          >> call (
              adjust_locked_delegation
                (to_address delegator)
                (int64 validator)
                (locked_delegation_value (base + extra))))
  unfolding handle_sfc_restake_rewards handle_sfc_common_reward_claim
  restake_claims_and_locks t delegator validator extra base unlocked topics bytes e b u =
      let w = words3 extra base unlocked lr.log.bytes bytes e b u in
      rw (w.length_eq, w.first_eq, w.second_eq, w.third_eq, topics) refl

module _ (lr : LogRecord) where
  -- A log `UnlockedStake` lowers the locked amount by its penalty, in units of 10 ^ 9 and as a
  -- negative int64, whatever the unlocked amount is.
  pub unlock_takes_penalty :
      (t : Hash) (delegator validator amount penalty : ℕ)
      → lr.log.topics ≡ t ∷ delegator ∷ validator ∷ []
      → lr.log.bytes ≡ word_of amount ++ word_of penalty
      → amount < 2 ^ 256
      → penalty < 2 ^ 256
      → handle_unlocked_stake lr
        ≡ call (
            adjust_locked_delegation
              (to_address delegator)
              (int64 validator)
              (neg64 (locked_delegation_value penalty)))
  unfolding handle_unlocked_stake
  unlock_takes_penalty t delegator validator amount penalty topics bytes a p =
      let w = words2 amount penalty lr.log.bytes bytes a p in
      rw (w.length_eq, w.second_eq, topics) refl
