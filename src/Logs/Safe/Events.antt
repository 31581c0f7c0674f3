-- ===== src/Logs/Safe/Events.antt =====
-- Each event of the table has a handler that returns when the log has the topics of the event.
use explorer_api_gql.Base.{
  ℕ, ◌≤◌, ◌≡◌, refl, ap, ◌∙◌, sym, Bool-cases, inl, inr, Option, none, some, List, [], ◌∷◌, arith,
  length, ◌==◌,
}
use explorer_api_gql.Types.{Hash, Address}
use explorer_api_gql.Logs.Effects.{LogRecord, Repo}
use explorer_api_gql.Logs.Uniswap.{
  KnownPairs, swap_body, mint_body, burn_body, sync_body, handle_uniswap_swap, handle_uniswap_mint,
  handle_uniswap_burn, handle_uniswap_sync,
}
use explorer_api_gql.Logs.Table.{Handler, known_topics, lookup}
use explorer_api_gql.Logs.Safe.{Safe}
use explorer_api_gql.Logs.Safe.Declared.{event_topics, declared}
use explorer_api_gql.Logs.Safe.Delegations.{
  handle_sfc_created_delegation-Safe, handle_sfc1_increased_delegation-Safe,
  handle_sfc_undelegated-Safe, handle_sfc1_deactivated_delegation-Safe,
  handle_sfc1_created_withdraw_request-Safe, handle_sfc1_partial_withdraw_by_request-Safe,
  handle_sfc1_updated_delegation-Safe, handle_sfc_withdrawn-Safe,
  handle_sfc1_withdrawn_delegation-Safe, handle_locked_up_stake-Safe, handle_unlocked_stake-Safe,
}
use explorer_api_gql.Logs.Safe.Rewards.{
  handle_sfc_restake_rewards-Safe, handle_sfc_claimed_rewards-Safe,
  handle_sfc1_claimed_delegation_reward-Safe, handle_sfc1_unstashed_reward-Safe,
  handle_sfc1_claimed_validator_reward-Safe, handle_sfc_created_stake-Safe,
  handle_sfc1_increased_stake-Safe, handle_sfc1_withdrawn_stake-Safe,
  handle_sfc1_deactivated_stake-Safe, handle_sfc1_updated_stake-Safe,
}
use explorer_api_gql.Logs.Safe.Tokens.{
  handle_fmint_deposit-Safe, handle_fmint_withdraw-Safe, handle_fmint_mint-Safe,
  handle_fmint_repay-Safe, handle_fmint_reward-Safe, handle_erc_token_approval-Safe,
  handle_erc_token_transfer-Safe, handle_erc1155_transfer_single-Safe,
  handle_erc1155_transfer_batch-Safe, on_known_pair-Safe, swap_body-Safe, mint_body-Safe,
  burn_body-Safe, sync_body-Safe,
}

abbrev SafeFrom : ℕ → Handler → Type 0
SafeFrom n handler =
    (answer : Option (List Address)) (pairs : KnownPairs) (lr : LogRecord)
    → n ≤ length lr.log.topics
    → Safe (handler answer pairs lr).0

abbrev Fits : List (Hash × Handler) → List (Hash × ℕ) → Type 0
Fits [] topics = Unit {0}
Fits ((t, handler) ∷ table) [] = ⊥
Fits ((t, handler) ∷ table) ((u, n) ∷ topics) = ((t ≡ u) × SafeFrom n handler) × Fits table topics

abbrev pub SafeOption : ℕ → Option Handler → Type 0
SafeOption n none = Unit {0}
SafeOption n (some handler) = SafeFrom n handler

lookup-SafeOption :
    (table : List (Hash × Handler)) (topics : List (Hash × ℕ)) (t : Hash)
    → Fits table topics
    → SafeOption (declared topics t) (lookup table t)
unfolding lookup
lookup-SafeOption [] topics t f = tt
lookup-SafeOption ((u, handler) ∷ table) [] t f = elim f [ ]
lookup-SafeOption ((u, handler) ∷ table) ((v, n) ∷ topics) t ((e, s), f) =
    elim (Bool-cases (u == t)) [
      | inl b ↦ rw (b, sym (ap (λ k. k == t) e) ∙ b) s
      | inr b ↦ rw (b, sym (ap (λ k. k == t) e) ∙ b) (lookup-SafeOption table topics t f)
    ]

module _ (repo : Repo)
    (batches : (bytes : List ℕ)
      → length (repo.parse_transfer_batch bytes).0
        ≤ length (repo.parse_transfer_batch bytes).1) where
  known_topics-Fits : Fits (known_topics repo) event_topics
  unfolding handle_uniswap_swap handle_uniswap_mint handle_uniswap_burn handle_uniswap_sync
  known_topics-Fits = (
    (refl, λ answer pairs lr h. handle_sfc_created_delegation-Safe repo lr h),
    (
      (refl, λ answer pairs lr h. handle_sfc_created_stake-Safe repo lr h),
      (
        (refl, λ answer pairs lr h. handle_sfc1_increased_stake-Safe repo lr h),
        (
          (refl, λ answer pairs lr h. handle_sfc1_increased_delegation-Safe repo lr h),
          (
            (refl, λ answer pairs lr h. handle_sfc1_claimed_delegation_reward-Safe repo lr h),
            (
              (refl, λ answer pairs lr h. handle_sfc1_claimed_validator_reward-Safe repo lr h),
              (
                (
                  refl,
                  λ answer pairs lr h. handle_sfc1_unstashed_reward-Safe repo lr (omega arith),
                ),
                (
                  (refl, λ answer pairs lr h. handle_sfc1_deactivated_stake-Safe repo lr h),
                  (
                    (refl, λ answer pairs lr h. handle_sfc1_deactivated_stake-Safe repo lr h),
                    (
                      (
                        refl,
                        λ answer pairs lr h. handle_sfc1_deactivated_delegation-Safe repo lr h,
                      ),
                      (
                        (
                          refl,
                          λ answer pairs lr h. handle_sfc1_deactivated_delegation-Safe repo lr h,
                        ),
                        (
                          (
                            refl,
                            λ answer pairs lr h.
                                handle_sfc1_created_withdraw_request-Safe repo lr h,
                          ),
                          (
                            (refl, λ answer pairs lr h. handle_sfc1_withdrawn_stake-Safe repo lr h),
                            (
                              (
                                refl,
                                λ answer pairs lr h.
                                    handle_sfc1_withdrawn_delegation-Safe repo lr h,
                              ),
                              (
                                (
                                  refl,
                                  λ answer pairs lr h.
                                      handle_sfc1_partial_withdraw_by_request-Safe repo lr h,
                                ),
                                (
                                  (
                                    refl,
                                    λ answer pairs lr h.
                                        handle_sfc1_updated_delegation-Safe repo lr h,
                                  ),
                                  (
                                    (
                                      refl,
                                      λ answer pairs lr h. handle_sfc1_updated_stake-Safe repo lr h,
                                    ),
                                    (
                                      (
                                        refl,
                                        λ answer pairs lr h.
                                            handle_sfc_created_delegation-Safe repo lr h,
                                      ),
                                      (
                                        (
                                          refl,
                                          λ answer pairs lr h.
                                              handle_sfc_undelegated-Safe repo lr h,
                                        ),
                                        (
                                          (
                                            refl,
                                            λ answer pairs lr h.
                                                handle_sfc_withdrawn-Safe repo lr h,
                                          ),
                                          (
                                            (
                                              refl,
                                              λ answer pairs lr h.
                                                  handle_sfc_claimed_rewards-Safe repo lr h,
                                            ),
                                            (
                                              (
                                                refl,
                                                λ answer pairs lr h.
                                                    handle_sfc_restake_rewards-Safe repo lr h,
                                              ),
                                              (
                                                (
                                                  refl,
                                                  λ answer pairs lr h.
                                                      handle_locked_up_stake-Safe lr h,
                                                ),
                                                (
                                                  (
                                                    refl,
                                                    λ answer pairs lr h.
                                                        handle_unlocked_stake-Safe lr h,
                                                  ),
                                                  (
                                                    (
                                                      refl,
                                                      λ answer pairs lr h.
                                                          handle_erc_token_approval-Safe lr,
                                                    ),
                                                    (
                                                      (
                                                        refl,
                                                        λ answer pairs lr h.
                                                            handle_erc_token_transfer-Safe lr,
                                                      ),
                                                      (
                                                        (
                                                          refl,
                                                          λ answer pairs lr h.
                                                            handle_erc1155_transfer_single-Safe lr,
                                                        ),
                                                        (
                                                          (
                                                            refl,
                                                            λ answer pairs lr h.
                                                            handle_erc1155_transfer_batch-Safe lr
                                                            repo (batches lr.log.bytes),
                                                          ),
                                                          (
                                                            (
                                                            refl,
                                                            λ answer pairs lr h.
                                                            on_known_pair-Safe lr swap_body answer
                                                            pairs (swap_body-Safe lr h),
                                                            ),
                                                            (
                                                            (
                                                            refl,
                                                            λ answer pairs lr h.
                                                            on_known_pair-Safe lr mint_body answer
                                                            pairs (mint_body-Safe lr h),
                                                            ),
                                                            (
                                                            (
                                                            refl,
                                                            λ answer pairs lr h.
                                                            on_known_pair-Safe lr burn_body answer
                                                            pairs (burn_body-Safe lr h),
                                                            ),
                                                            (
                                                            (
                                                            refl,
                                                            λ answer pairs lr h.
                                                            on_known_pair-Safe lr sync_body answer
                                                            pairs (sync_body-Safe lr),
                                                            ),
                                                            (
                                                            (
                                                            refl,
                                                            λ answer pairs lr h.
                                                            handle_fmint_deposit-Safe lr h,
                                                            ),
                                                            (
                                                            (
                                                            refl,
                                                            λ answer pairs lr h.
                                                            handle_fmint_withdraw-Safe lr h,
                                                            ),
                                                            (
                                                            (
                                                            refl,
                                                            λ answer pairs lr h.
                                                            handle_fmint_mint-Safe lr h,
                                                            ),
                                                            (
                                                            (
                                                            refl,
                                                            λ answer pairs lr h.
                                                            handle_fmint_repay-Safe lr h,
                                                            ),
                                                            (
                                                            (
                                                            refl,
                                                            λ answer pairs lr h.
                                                            handle_fmint_reward-Safe lr h,
                                                            ),
                                                            tt,
                                                            ),
                                                            ),
                                                            ),
                                                            ),
                                                            ),
                                                            ),
                                                            ),
                                                            ),
                                                          ),
                                                        ),
                                                      ),
                                                    ),
                                                  ),
                                                ),
                                              ),
                                            ),
                                          ),
                                        ),
                                      ),
                                    ),
                                  ),
                                ),
                              ),
                            ),
                          ),
                        ),
                      ),
                    ),
                  ),
                ),
              ),
            ),
          ),
        ),
      ),
    ),
  )

  pub lookup-known_topics-SafeOption :
      (t : Hash) → SafeOption (declared event_topics t) (lookup (known_topics repo) t)
  lookup-known_topics-SafeOption t =
      lookup-SafeOption (known_topics repo) event_topics t known_topics-Fits
