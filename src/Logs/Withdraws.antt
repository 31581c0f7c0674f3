-- ===== src/Logs/Withdraws.antt =====
-- The requests of withdrawals, from the log that opens one to the log that closes it.
use explorer_api_gql.Base.{
  ℕ, ◌^◌, ◌<◌, ◌≡◌, refl, ap, ◌∙◌, true, Option, some, none, List, [], ◌∷◌, ◌++◌, arith, ◌==◌, ◌&&◌,
  if◌then◌else◌,
}
use explorer_api_gql.Types.{Hash, Address}
use explorer_api_gql.Logs.Effects.{
  LogRecord, WithdrawRequest, withdraw_request, Repo, Call, store_withdraw_request,
  update_withdraw_request, ◌>>◌, call, to_address,
}
use explorer_api_gql.Logs.Delegation.{
  update_balance, handle_new_withdraw_request, handle_sfc1_created_withdraw_request,
  handle_sfc1_partial_withdraw_by_request, handle_finished_withdraw_request,
}
use explorer_api_gql.Logs.Abi.{word_of, words3}

-- The first request with a key that some calls store.
abbrev pub stored_request : List Call → Address → ℕ → ℕ → Option WithdrawRequest
stored_request [] address validator request = none
stored_request (store_withdraw_request w ∷ calls) address validator request =
    if w.address == address && (w.staker_id == validator && w.withdraw_request_id == request)
    then some w
    else stored_request calls address validator request
stored_request (_ ∷ calls) address validator request =
    stored_request calls address validator request

same_key : (a b c : ℕ) → (a == a && (b == b && c == c)) ≡ true
same_key a b c = ground arith

abbrev pub open_request : LogRecord → Address → ℕ → ℕ → ℕ → WithdrawRequest
open_request lr address validator request amount = record {
  type = withdraw_request;
  request_trx = lr.log.tx_hash;
  withdraw_request_id = request;
  address = address;
  staker_id = validator;
  created_time = lr.block.time_stamp;
  amount = amount;
  withdraw_trx = none;
  withdraw_time = none;
  penalty = none;
}

module _ (repo : Repo) where
  created_eq :
      (lr : LogRecord) (t : Hash) (auth receiver validator request flag amount : ℕ)
      → lr.log.topics ≡ t ∷ auth ∷ receiver ∷ validator ∷ []
      → lr.log.bytes ≡ word_of request ++ (word_of flag ++ word_of amount)
      → request < 2 ^ 256
      → flag < 2 ^ 256
      → amount < 2 ^ 256
      → handle_sfc1_created_withdraw_request repo lr ≡ (
          call (store_withdraw_request (open_request lr (to_address auth) validator request amount))
          >> update_balance repo lr (to_address auth) validator)
  unfolding handle_sfc1_created_withdraw_request handle_new_withdraw_request
  created_eq lr t auth receiver validator request flag amount topics bytes r f a =
      let w = words3 request flag amount lr.log.bytes bytes r f a in
      rw (w.length_eq, w.first_eq, w.third_eq, topics) refl

  finished_eq :
      (lr : LogRecord) (t : Hash) (auth receiver validator request flag penalty : ℕ)
      → lr.log.topics ≡ t ∷ auth ∷ receiver ∷ validator ∷ []
      → lr.log.bytes ≡ word_of request ++ (word_of flag ++ word_of penalty)
      → request < 2 ^ 256
      → flag < 2 ^ 256
      → penalty < 2 ^ 256
      → handle_sfc1_partial_withdraw_by_request repo lr
        ≡ handle_finished_withdraw_request repo (to_address auth) validator request penalty lr
  unfolding handle_sfc1_partial_withdraw_by_request
  finished_eq lr t auth receiver validator request flag penalty topics bytes r f p =
      let w = words3 request flag penalty lr.log.bytes bytes r f p in
      rw (w.length_eq, w.first_eq, w.third_eq, topics) refl

  finish_found :
      (lr : LogRecord) (address : Address) (validator request penalty : ℕ) (w : WithdrawRequest)
      → repo.find_withdraw_request address validator request ≡ some w
      → handle_finished_withdraw_request repo address validator request penalty lr ≡ (
          call (
            update_withdraw_request (record w {
              withdraw_time = some lr.block.time_stamp;
              withdraw_trx = some lr.log.tx_hash;
              penalty = some penalty;
            }))
          >> update_balance repo lr address validator)
  unfolding handle_finished_withdraw_request
  finish_found lr address validator request penalty w e = rw e refl

  -- A request that a log `CreatedWithdrawRequest` stores is found again by the log
  -- `PartialWithdrawnByRequest` of the same account, validator and number, if the repository looks
  -- it up among what was stored: it is updated with the time, the transaction and the penalty of
  -- that log, all else kept, the amount included, and then the balance of the delegation is updated.
  pub request_closed :
      (created finished : LogRecord) (t u : Hash)
      (auth receiver receiver' validator request flag flag' amount penalty : ℕ)
      → created.log.topics ≡ t ∷ auth ∷ receiver ∷ validator ∷ []
      → created.log.bytes ≡ word_of request ++ (word_of flag ++ word_of amount)
      → finished.log.topics ≡ u ∷ auth ∷ receiver' ∷ validator ∷ []
      → finished.log.bytes ≡ word_of request ++ (word_of flag' ++ word_of penalty)
      → request < 2 ^ 256
      → flag < 2 ^ 256
      → flag' < 2 ^ 256
      → amount < 2 ^ 256
      → penalty < 2 ^ 256
      → repo.find_withdraw_request (to_address auth) validator request
        ≡ stored_request
            (handle_sfc1_created_withdraw_request repo created).1
            (to_address auth)
            validator
            request
      → handle_sfc1_partial_withdraw_by_request repo finished ≡ (
          call (
            update_withdraw_request
              (record (open_request created (to_address auth) validator request amount) {
                withdraw_time = some finished.block.time_stamp;
                withdraw_trx = some finished.log.tx_hash;
                penalty = some penalty;
              }))
          >> update_balance repo finished (to_address auth) validator)
  request_closed created finished t u auth receiver receiver' validator request flag flag' amount
        penalty ct cb ft fb r f f' a p found =
      let opened = created_eq created t auth receiver validator request flag amount ct cb r f a in
      finished_eq finished u auth receiver' validator request flag' penalty ft fb r f' p
      ∙ finish_found finished (to_address auth) validator request penalty
          (open_request created (to_address auth) validator request amount)
          (found
            ∙ ap (λ m. stored_request m.1 (to_address auth) validator request) opened
            ∙ rw (same_key (to_address auth) validator request) refl)
