-- ===== src/Logs/Safe/Delegations.antt =====
-- The handlers of delegations, on logs that have the topics of their events.
use explorer_api_gql.Base.{◌≤◌, arith, length}
use explorer_api_gql.Logs.Effects.{LogRecord, Repo}
use explorer_api_gql.Logs.Delegation.{
  handle_sfc_created_delegation, handle_sfc1_increased_delegation, handle_sfc_undelegated,
  handle_sfc1_deactivated_delegation, handle_sfc1_created_withdraw_request,
  handle_sfc1_partial_withdraw_by_request, handle_sfc1_updated_delegation, handle_sfc_withdrawn,
  handle_sfc1_withdrawn_delegation, handle_locked_up_stake, handle_unlocked_stake,
}
use explorer_api_gql.Logs.Safe.{
  Safe, return-Safe, bind-Safe, topic-Safe, topics2-Safe, topics3-Safe, unless-Safe,
  handle_new_delegation-Safe, update_balance-Safe, handle_new_withdraw_request-Safe,
  handle_finished_withdraw_request-Safe,
}

module _ (repo : Repo) (lr : LogRecord) where
  pub handle_sfc_created_delegation-Safe :
      3 ≤ length lr.log.topics → Safe (handle_sfc_created_delegation repo lr)
  unfolding handle_sfc_created_delegation
  handle_sfc_created_delegation-Safe h =
      topics2-Safe lr 2 1 _ (omega arith) (omega arith)
        (λ a b. handle_new_delegation-Safe repo lr _ _ _)

  pub handle_sfc1_increased_delegation-Safe :
      3 ≤ length lr.log.topics → Safe (handle_sfc1_increased_delegation repo lr)
  unfolding handle_sfc1_increased_delegation
  handle_sfc1_increased_delegation-Safe h =
      topics2-Safe lr 1 2 _ (omega arith) (omega arith) (λ a b. update_balance-Safe repo lr _ _)

  pub handle_sfc_undelegated-Safe : 4 ≤ length lr.log.topics → Safe (handle_sfc_undelegated repo lr)
  unfolding handle_sfc_undelegated
  handle_sfc_undelegated-Safe h = unless-Safe _ _ (
      topics3-Safe lr 1 2 3 _ (omega arith) (omega arith) (omega arith)
        (λ a b c. handle_new_withdraw_request-Safe repo lr _ _ _ _ _))

  pub handle_sfc1_deactivated_delegation-Safe :
      3 ≤ length lr.log.topics → Safe (handle_sfc1_deactivated_delegation repo lr)
  unfolding handle_sfc1_deactivated_delegation
  handle_sfc1_deactivated_delegation-Safe h = unless-Safe _ _ (
      topics2-Safe lr 1 2 _ (omega arith) (omega arith)
        (λ a b. handle_new_withdraw_request-Safe repo lr _ _ _ _ _))

  pub handle_sfc1_created_withdraw_request-Safe :
      4 ≤ length lr.log.topics → Safe (handle_sfc1_created_withdraw_request repo lr)
  unfolding handle_sfc1_created_withdraw_request
  handle_sfc1_created_withdraw_request-Safe h = unless-Safe _ _ (
      topics2-Safe lr 1 3 _ (omega arith) (omega arith)
        (λ a b. handle_new_withdraw_request-Safe repo lr _ _ _ _ _))

  pub handle_sfc1_partial_withdraw_by_request-Safe :
      4 ≤ length lr.log.topics → Safe (handle_sfc1_partial_withdraw_by_request repo lr)
  unfolding handle_sfc1_partial_withdraw_by_request
  handle_sfc1_partial_withdraw_by_request-Safe h = unless-Safe _ _ (
      topics2-Safe lr 1 3 _ (omega arith) (omega arith)
        (λ a b. handle_finished_withdraw_request-Safe repo lr _ _ _ _))

  pub handle_sfc1_updated_delegation-Safe :
      4 ≤ length lr.log.topics → Safe (handle_sfc1_updated_delegation repo lr)
  unfolding handle_sfc1_updated_delegation
  handle_sfc1_updated_delegation-Safe h = unless-Safe _ _ (
      topics2-Safe lr 1 2 _ (omega arith) (omega arith) (λ a b.
        bind-Safe _ _ (update_balance-Safe repo lr _ _)
          (λ u. topic-Safe lr 3 _ (omega arith) (λ a. handle_new_delegation-Safe repo lr _ _ _))))

  pub handle_sfc_withdrawn-Safe : 4 ≤ length lr.log.topics → Safe (handle_sfc_withdrawn repo lr)
  unfolding handle_sfc_withdrawn
  handle_sfc_withdrawn-Safe h = unless-Safe _ _ (
      topics3-Safe lr 1 2 3 _ (omega arith) (omega arith) (omega arith)
        (λ a b c. handle_finished_withdraw_request-Safe repo lr _ _ _ _))

  pub handle_sfc1_withdrawn_delegation-Safe :
      3 ≤ length lr.log.topics → Safe (handle_sfc1_withdrawn_delegation repo lr)
  unfolding handle_sfc1_withdrawn_delegation
  handle_sfc1_withdrawn_delegation-Safe h = unless-Safe _ _ (
      topics2-Safe lr 1 2 _ (omega arith) (omega arith)
        (λ a b. handle_finished_withdraw_request-Safe repo lr _ _ _ _))

module _ (lr : LogRecord) where
  pub handle_locked_up_stake-Safe : 3 ≤ length lr.log.topics → Safe (handle_locked_up_stake lr)
  unfolding handle_locked_up_stake
  handle_locked_up_stake-Safe h =
      unless-Safe _ _ (topics2-Safe lr 1 2 _ (omega arith) (omega arith) (λ a b. return-Safe))

  pub handle_unlocked_stake-Safe : 3 ≤ length lr.log.topics → Safe (handle_unlocked_stake lr)
  unfolding handle_unlocked_stake
  handle_unlocked_stake-Safe h =
      unless-Safe _ _ (topics2-Safe lr 1 2 _ (omega arith) (omega arith) (λ a b. return-Safe))
