-- ===== src/Logs/Delegation.antt =====
-- The handlers of internal/svc/logs_sfc_delegation.go.
use explorer_api_gql.Base.{ℕ, ◌*◌, ◌%◌, none, some, ◌||◌, length, take, drop, ◌!=◌, if◌then◌else◌}
use explorer_api_gql.Types.{Address, u64}
use explorer_api_gql.Logs.Effects.{
  LogRecord, Delegation, WithdrawType, undelegated, withdraw_request, deactivated_dlg,
  store_delegation, update_delegation_balance, store_withdraw_request, update_withdraw_request,
  store_locked_delegation, adjust_locked_delegation, updated, unknown, failed, Repo, Act, ◌>>=◌,
  ◌>>◌, call, return, topic, set_bytes, to_address, int64, neg64, locked_delegation_value,
}

abbrev pub delegation : LogRecord → ℕ → Address → ℕ → Address → ℕ → ℕ → Delegation
delegation lr hash address staker_id validator delegated staked = record {
  transaction = hash;
  address = address;
  to_staker_id = staker_id;
  to_staker_address = validator;
  amount_delegated = delegated;
  amount_staked = staked;
  created_time = lr.block.time_stamp;
}

module _ (repo : Repo) where
  -- `handleNewDelegation`: an unknown validator and an unavailable balance end it.
  unfoldable pub handle_new_delegation : LogRecord → ℕ → Address → ℕ → Act (Unit {0})
  handle_new_delegation lr staker_id address amount = elim (repo.validator_address staker_id) [
    | none ↦ return
    | some validator ↦ elim (repo.delegation_amount_staked address staker_id) [
      | none ↦ return
      | some staked ↦
          call
            (store_delegation (delegation lr lr.trx.hash address staker_id validator staked amount))
    ]
  ]

  unfoldable pub handle_sfc_created_delegation : LogRecord → Act (Unit {0})
  handle_sfc_created_delegation lr = do
    staker ← topic lr 2
    delegator ← topic lr 1
    handle_new_delegation lr staker (to_address delegator) (set_bytes lr.log.bytes)

  -- `makeAdHocDelegation`
  unfoldable pub make_ad_hoc_delegation : LogRecord → Address → ℕ → ℕ → Act (Unit {0})
  make_ad_hoc_delegation lr address staker_id amount = elim (repo.validator_address staker_id) [
    | none ↦ return
    | some validator ↦
        call (
          store_delegation (delegation lr lr.log.tx_hash address staker_id validator amount amount))
  ]

  -- `repo.UpdateDelegationBalance`, with `makeAdHocDelegation` for an unknown delegation
  unfoldable pub update_balance : LogRecord → Address → ℕ → Act (Unit {0})
  update_balance lr address staker_id = do
    call (update_delegation_balance address staker_id)
    elim (repo.delegation_balance address staker_id) [
      | updated ↦ return
      | unknown amount ↦ make_ad_hoc_delegation lr address staker_id amount
      | failed ↦ return
    ]

  unfoldable pub handle_sfc1_increased_delegation : LogRecord → Act (Unit {0})
  handle_sfc1_increased_delegation lr = do
    delegator ← topic lr 1
    validator ← topic lr 2
    update_balance lr (to_address delegator) validator

  -- `handleNewWithdrawRequest`
  unfoldable pub handle_new_withdraw_request :
      WithdrawType → Address → ℕ → ℕ → ℕ → LogRecord → Act (Unit {0})
  handle_new_withdraw_request type address validator request amount lr = do
    call (
        store_withdraw_request (record {
          type = type;
          request_trx = lr.log.tx_hash;
          withdraw_request_id = request;
          address = address;
          staker_id = validator;
          created_time = lr.block.time_stamp;
          amount = amount;
          withdraw_trx = none;
          withdraw_time = none;
          penalty = none;
        }))
    update_balance lr address validator

  -- `handleFinishedWithdrawRequest`: the balance is updated by a deferred call, on each way out.
  unfoldable pub handle_finished_withdraw_request : Address → ℕ → ℕ → ℕ → LogRecord → Act (Unit {0})
  handle_finished_withdraw_request address validator request penalty lr = do
    elim (repo.find_withdraw_request address validator request) [
      | none ↦ return
      | some req ↦ call (
          update_withdraw_request (record req {
            withdraw_time = some lr.block.time_stamp;
            withdraw_trx = some lr.log.tx_hash;
            penalty = some penalty;
          }))
    ]
    update_balance lr address validator

  unfoldable pub handle_sfc_undelegated : LogRecord → Act (Unit {0})
  handle_sfc_undelegated lr = if length lr.log.bytes != 32 then return else do
    delegator ← topic lr 1
    validator ← topic lr 2
    request ← topic lr 3
    handle_new_withdraw_request undelegated (to_address delegator) validator request
        (set_bytes lr.log.bytes) lr

  unfoldable pub handle_sfc1_deactivated_delegation : LogRecord → Act (Unit {0})
  handle_sfc1_deactivated_delegation lr = if length lr.log.bytes != 0 then return else do
    delegator ← topic lr 1
    validator ← topic lr 2
    handle_new_withdraw_request deactivated_dlg (to_address delegator) validator 0 0 lr

  unfoldable pub handle_sfc1_created_withdraw_request : LogRecord → Act (Unit {0})
  handle_sfc1_created_withdraw_request lr = if length lr.log.bytes != 96 then return else do
    auth ← topic lr 1
    validator ← topic lr 3
    handle_new_withdraw_request withdraw_request (to_address auth) validator
        (set_bytes (take 32 lr.log.bytes)) (set_bytes (drop 64 lr.log.bytes)) lr

  unfoldable pub handle_sfc1_partial_withdraw_by_request : LogRecord → Act (Unit {0})
  handle_sfc1_partial_withdraw_by_request lr = if length lr.log.bytes != 96 then return else do
    auth ← topic lr 1
    validator ← topic lr 3
    handle_finished_withdraw_request (to_address auth) validator (set_bytes (take 32 lr.log.bytes))
        (set_bytes (drop 64 lr.log.bytes)) lr

  unfoldable pub handle_sfc1_updated_delegation : LogRecord → Act (Unit {0})
  handle_sfc1_updated_delegation lr =
      if length lr.log.topics != 4 || length lr.log.bytes != 32 then return else do
        delegator ← topic lr 1
        old ← topic lr 2
        update_balance lr (to_address delegator) old
        new ← topic lr 3
        handle_new_delegation lr new (to_address delegator) (set_bytes lr.log.bytes)

  unfoldable pub handle_sfc_withdrawn : LogRecord → Act (Unit {0})
  handle_sfc_withdrawn lr =
      if length lr.log.topics != 4 || length lr.log.bytes != 32 then return else do
        delegator ← topic lr 1
        validator ← topic lr 2
        request ← topic lr 3
        handle_finished_withdraw_request (to_address delegator) validator request 0 lr

  unfoldable pub handle_sfc1_withdrawn_delegation : LogRecord → Act (Unit {0})
  handle_sfc1_withdrawn_delegation lr =
      if length lr.log.topics != 3 || length lr.log.bytes != 32 then return else do
        delegator ← topic lr 1
        validator ← topic lr 2
        handle_finished_withdraw_request (to_address delegator) validator 0 0 lr

-- `handleLockedUpStake`. The duration is turned into nanoseconds, in 64 bits.
unfoldable pub handle_locked_up_stake : LogRecord → Act (Unit {0})
handle_locked_up_stake lr =
    if length lr.log.topics != 3 || length lr.log.bytes != 64 then return else do
      delegator ← topic lr 1
      validator ← topic lr 2
      let duration = int64 (set_bytes (take 32 lr.log.bytes))
      let amount = set_bytes (drop 32 lr.log.bytes)
      call (
          store_locked_delegation (record {
            delegator = to_address delegator;
            validator_id = int64 validator;
            locked = lr.block.time_stamp;
            duration = duration;
            expires_after = (duration * 1_000_000_000) % u64;
            amount = amount;
            value = locked_delegation_value amount;
          }))

-- `handleUnlockedStake`
unfoldable pub handle_unlocked_stake : LogRecord → Act (Unit {0})
handle_unlocked_stake lr =
    if length lr.log.topics != 3 || length lr.log.bytes != 64 then return else do
      delegator ← topic lr 1
      validator ← topic lr 2
      call (
          adjust_locked_delegation (to_address delegator) (int64 validator)
            (neg64 (locked_delegation_value (set_bytes (drop 32 lr.log.bytes)))))
