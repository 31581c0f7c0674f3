-- ===== src/Logs/Stake.antt =====
-- The handlers of internal/svc/logs_sfc_stake.go. A stake is a delegation of the validator to itself.
use explorer_api_gql.Base.{none, some, length, ◌!=◌, if◌then◌else◌}
use explorer_api_gql.Logs.Effects.{
  LogRecord, deactivated_val, Repo, Act, ◌>>=◌, return, topic, set_bytes, to_address,
}
use explorer_api_gql.Logs.Delegation.{
  handle_new_delegation, update_balance, handle_new_withdraw_request,
  handle_finished_withdraw_request,
}

module _ (repo : Repo) where
  unfoldable pub handle_sfc_created_stake : LogRecord → Act (Unit {0})
  handle_sfc_created_stake lr = do
    staker ← topic lr 1
    address ← topic lr 2
    handle_new_delegation repo lr staker (to_address address) (set_bytes lr.log.bytes)

  unfoldable pub handle_sfc1_increased_stake : LogRecord → Act (Unit {0})
  handle_sfc1_increased_stake lr = do
    validator ← topic lr 1
    elim (repo.validator_address validator) [
      | none ↦ return
      | some address ↦ update_balance repo lr address validator
    ]

  unfoldable pub handle_sfc1_withdrawn_stake : LogRecord → Act (Unit {0})
  handle_sfc1_withdrawn_stake lr = if length lr.log.bytes != 32 then return else do
    validator ← topic lr 1
    elim (repo.validator_address validator) [
      | none ↦ return
      | some address ↦
          handle_finished_withdraw_request repo address validator 0 (set_bytes lr.log.bytes) lr
    ]

  unfoldable pub handle_sfc1_deactivated_stake : LogRecord → Act (Unit {0})
  handle_sfc1_deactivated_stake lr = if length lr.log.bytes != 0 then return else do
    validator ← topic lr 1
    elim (repo.validator_address validator) [
      | none ↦ return
      | some address ↦ handle_new_withdraw_request repo deactivated_val address validator 0 0 lr
    ]

  unfoldable pub handle_sfc1_updated_stake : LogRecord → Act (Unit {0})
  handle_sfc1_updated_stake lr = do
    validator ← topic lr 1
    elim (repo.validator_address validator) [
      | none ↦ return
      | some address ↦ update_balance repo lr address validator
    ]
