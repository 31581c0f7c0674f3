-- ===== src/Logs/Safe/Tokens.antt =====
-- The handlers of tokens, fMint and Uniswap, on logs that have the topics of their events.
use explorer_api_gql.Base.{
  ℕ, suc, ◌+◌, ◌≤◌, ◌≡◌, ◌==◌, ◌&&◌, arith, length, List, [], ◌∷◌, Bool, true, false, Option,
}
use explorer_api_gql.Types.{Address}
use explorer_api_gql.Logs.Effects.{LogRecord, TokenTrxType, Repo, Act}
use explorer_api_gql.Logs.FMint.{
  handle_new_fmint_record, handle_fmint_deposit, handle_fmint_withdraw, handle_fmint_mint,
  handle_fmint_repay, handle_fmint_reward,
}
use explorer_api_gql.Logs.Token.{
  store_transaction, store_batch, handle_erc_transaction, handle_erc_token_approval,
  handle_erc_token_transfer, handle_erc1155_transfer_single, handle_erc1155_transfer_batch,
}
use explorer_api_gql.Logs.Uniswap.{
  KnownPairs, is_known_uniswap_pair, guarded, on_known_pair, swap_body, mint_body, burn_body,
  sync_body,
}
use explorer_api_gql.Logs.Safe.{
  Safe, return-Safe, bind-Safe, element-Safe, topic-Safe, topics2-Safe, topics3-Safe, unless-Safe,
  when-Safe,
}

first_eq : (a n b m : ℕ) → (a == n && b == m) ≡ true → a ≡ n
first_eq a n b m e = ground arith

eq_of : (a n : ℕ) → (a == n) ≡ true → a ≡ n
eq_of a n e = ground arith

module _ (lr : LogRecord) where
  pub handle_fmint_deposit-Safe : 3 ≤ length lr.log.topics → Safe (handle_fmint_deposit lr)
  unfolding handle_new_fmint_record handle_fmint_deposit
  handle_fmint_deposit-Safe h =
      unless-Safe _ _ (topics2-Safe lr 2 1 _ (omega arith) (omega arith) (λ a b. return-Safe))

  pub handle_fmint_withdraw-Safe : 3 ≤ length lr.log.topics → Safe (handle_fmint_withdraw lr)
  unfolding handle_new_fmint_record handle_fmint_withdraw
  handle_fmint_withdraw-Safe h =
      unless-Safe _ _ (topics2-Safe lr 2 1 _ (omega arith) (omega arith) (λ a b. return-Safe))

  pub handle_fmint_mint-Safe : 3 ≤ length lr.log.topics → Safe (handle_fmint_mint lr)
  unfolding handle_new_fmint_record handle_fmint_mint
  handle_fmint_mint-Safe h =
      unless-Safe _ _ (topics2-Safe lr 2 1 _ (omega arith) (omega arith) (λ a b. return-Safe))

  pub handle_fmint_repay-Safe : 3 ≤ length lr.log.topics → Safe (handle_fmint_repay lr)
  unfolding handle_new_fmint_record handle_fmint_repay
  handle_fmint_repay-Safe h =
      unless-Safe _ _ (topics2-Safe lr 2 1 _ (omega arith) (omega arith) (λ a b. return-Safe))

  pub handle_fmint_reward-Safe : 2 ≤ length lr.log.topics → Safe (handle_fmint_reward lr)
  unfolding handle_new_fmint_record handle_fmint_reward
  handle_fmint_reward-Safe h = unless-Safe _ _ return-Safe

  handle_erc_transaction-Safe : (type : TokenTrxType) → Safe (handle_erc_transaction lr type)
  unfolding handle_erc_transaction store_transaction
  handle_erc_transaction-Safe type =
      when-Safe _ _ _
        (λ e.
          let l = first_eq (length lr.log.topics) 3 (length lr.log.bytes) 32 e in
          topics2-Safe lr 1 2 _ (omega arith) (omega arith) (λ a b. return-Safe))
        (when-Safe _ _ _
          (λ e.
            let l = first_eq (length lr.log.topics) 4 (length lr.log.bytes) 0 e in
            topics3-Safe lr 1 2 3 _ (omega arith) (omega arith) (omega arith)
              (λ a b c. return-Safe))
          return-Safe)

  pub handle_erc_token_approval-Safe : Safe (handle_erc_token_approval lr)
  unfolding handle_erc_token_approval
  handle_erc_token_approval-Safe = handle_erc_transaction-Safe _

  pub handle_erc_token_transfer-Safe : Safe (handle_erc_token_transfer lr)
  unfolding handle_erc_token_transfer
  handle_erc_token_transfer-Safe = handle_erc_transaction-Safe _

  pub handle_erc1155_transfer_single-Safe : Safe (handle_erc1155_transfer_single lr)
  unfolding handle_erc1155_transfer_single store_transaction
  handle_erc1155_transfer_single-Safe =
      when-Safe _ _ _
        (λ e.
          let l = first_eq (length lr.log.topics) 4 (length lr.log.bytes) 64 e in
          topics2-Safe lr 2 3 _ (omega arith) (omega arith) (λ a b. return-Safe))
        return-Safe

  store_batch-Safe :
      (from to : Address) (values : List ℕ) (i : ℕ) (ids : List ℕ)
      → i + length ids ≤ length values
      → Safe (store_batch lr from to values i ids)
  unfolding store_batch store_transaction
  store_batch-Safe from to values i [] h = return-Safe
  store_batch-Safe from to values i (id ∷ ids) h =
      bind-Safe _ _ (element-Safe values i (omega arith))
        (λ amount. store_batch-Safe from to values (suc i) ids (omega arith))

  pub handle_erc1155_transfer_batch-Safe :
      (repo : Repo)
      → length (repo.parse_transfer_batch lr.log.bytes).0
        ≤ length (repo.parse_transfer_batch lr.log.bytes).1
      → Safe (handle_erc1155_transfer_batch repo lr)
  unfolding handle_erc1155_transfer_batch
  handle_erc1155_transfer_batch-Safe repo h =
      when-Safe _ _ _
        (λ e.
          let l = eq_of (length lr.log.topics) 4 e in
          topics2-Safe lr 2 3 _ (omega arith) (omega arith)
            (λ a b. store_batch-Safe _ _ _ 0 _ (omega (arith, h))))
        return-Safe

  guarded-Safe : (b : Bool) (m : Act (Unit {0})) → Safe m → Safe (guarded b m)
  guarded-Safe true m s = s
  guarded-Safe false m s = return-Safe

  pub on_known_pair-Safe :
      (body : LogRecord → Act (Unit {0})) (answer : Option (List Address)) (pairs : KnownPairs)
      → Safe (body lr)
      → Safe (on_known_pair body answer pairs lr).0
  on_known_pair-Safe body answer pairs s =
      guarded-Safe (is_known_uniswap_pair answer lr.log.address pairs).0 (body lr) s

  pub swap_body-Safe : 3 ≤ length lr.log.topics → Safe (swap_body lr)
  unfolding swap_body
  swap_body-Safe h = unless-Safe _ _ (topic-Safe lr 1 _ (omega arith) (λ a. return-Safe))

  pub mint_body-Safe : 2 ≤ length lr.log.topics → Safe (mint_body lr)
  unfolding mint_body
  mint_body-Safe h = unless-Safe _ _ (topic-Safe lr 1 _ (omega arith) (λ a. return-Safe))

  pub burn_body-Safe : 3 ≤ length lr.log.topics → Safe (burn_body lr)
  unfolding burn_body
  burn_body-Safe h = unless-Safe _ _ (topic-Safe lr 1 _ (omega arith) (λ a. return-Safe))

  pub sync_body-Safe : Safe (sync_body lr)
  unfolding sync_body
  sync_body-Safe = unless-Safe _ _ return-Safe
