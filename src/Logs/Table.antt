-- ===== src/Logs/Table.antt =====
-- The handlers by the first topic of a log: `knownTopics` of internal/svc/dispatch_log.go.
use explorer_api_gql.Base.{Option, none, some, List, [], ◌∷◌, ◌==◌, if◌then◌else◌}
use explorer_api_gql.Types.{Hash, Address}
use explorer_api_gql.Logs.Effects.{LogRecord, Repo, Act}
use explorer_api_gql.Logs.Delegation.{
  handle_sfc_created_delegation, handle_sfc1_increased_delegation, handle_sfc_undelegated,
  handle_sfc1_deactivated_delegation, handle_sfc1_created_withdraw_request,
  handle_sfc1_partial_withdraw_by_request, handle_sfc1_updated_delegation, handle_sfc_withdrawn,
  handle_sfc1_withdrawn_delegation, handle_locked_up_stake, handle_unlocked_stake,
}
use explorer_api_gql.Logs.Reward.{
  handle_sfc_restake_rewards, handle_sfc_claimed_rewards, handle_sfc1_claimed_delegation_reward,
  handle_sfc1_unstashed_reward, handle_sfc1_claimed_validator_reward,
}
use explorer_api_gql.Logs.Stake.{
  handle_sfc_created_stake, handle_sfc1_increased_stake, handle_sfc1_withdrawn_stake,
  handle_sfc1_deactivated_stake, handle_sfc1_updated_stake,
}
use explorer_api_gql.Logs.FMint.{
  handle_fmint_deposit, handle_fmint_withdraw, handle_fmint_mint, handle_fmint_repay,
  handle_fmint_reward,
}
use explorer_api_gql.Logs.Token.{
  handle_erc_token_approval, handle_erc_token_transfer, handle_erc1155_transfer_single,
  handle_erc1155_transfer_batch,
}
use explorer_api_gql.Logs.Uniswap.{
  KnownPairs, handle_uniswap_swap, handle_uniswap_mint, handle_uniswap_burn, handle_uniswap_sync,
}

-- A handler gets what the repository answers to a request of the known pairs, and passes their map on.
abbrev pub Handler : Type 0
Handler = Option (List Address) → KnownPairs → LogRecord → Act (Unit {0}) × KnownPairs

-- a handler that does not look at the pairs
abbrev pub plain : (LogRecord → Act (Unit {0})) → Handler
plain handler answer pairs lr = (handler lr, pairs)

abbrev pub known_topics : Repo → List (Hash × Handler)
known_topics repo =
    (
      0xfd8c857fb9acd6f4ad59b8621a2a77825168b7b4b76de9586d08e00d4ed462be,
      plain (handle_sfc_created_delegation repo),
    )
    ∷ (
      0x0697dfe5062b9db8108e4b31254f47a912ae6bbb78837667b2e923a6f5160d39,
      plain (handle_sfc_created_stake repo),
    )
    ∷ (
      0xa1d93e9a2a16bf4c2d0cdc6f47fe0fa054c741c96b3dac1297c79eaca31714e9,
      plain (handle_sfc1_increased_stake repo),
    )
    ∷ (
      0x4ca781bfe171e588a2661d5a7f2f5f59df879c53489063552fbad2145b707fc1,
      plain (handle_sfc1_increased_delegation repo),
    )
    ∷ (
      0x2676e1697cf4731b93ddb4ef54e0e5a98c06cccbbbb2202848a3c6286595e6ce,
      plain (handle_sfc1_claimed_delegation_reward repo),
    )
    ∷ (
      0x2ea54c2b22a07549d19fb5eb8e4e48ebe1c653117215e94d5468c5612750d35c,
      plain (handle_sfc1_claimed_validator_reward repo),
    )
    ∷ (
      0x80b36a0e929d7e7925087e54acfeecf4c6043e451b9d71ac5e908b66f9e5d126,
      plain (handle_sfc1_unstashed_reward repo),
    )
    ∷ (
      0xf7c308d0d978cce3aec157d1b34e355db4636b4e71ce91b4f5ec9e7a4f5cdc60,
      plain (handle_sfc1_deactivated_stake repo),
    )
    ∷ (
      0x84244546a9da4942f506db48ff90ebc240c73bb399e3e47d58843c6bb60e7185,
      plain (handle_sfc1_deactivated_stake repo),
    )
    ∷ (
      0x912c4125a208704a342cbdc4726795d26556b0170b7fc95bc706d5cb1f506469,
      plain (handle_sfc1_deactivated_delegation repo),
    )
    ∷ (
      0x5b1eea49e405ef6d509836aac841959c30bb0673b1fd70859bfc6ae5e4ee3df2,
      plain (handle_sfc1_deactivated_delegation repo),
    )
    ∷ (
      0xde2d2a87af2fa2de55bde86f04143144eb632fa6be266dc224341a371fb8916d,
      plain (handle_sfc1_created_withdraw_request repo),
    )
    ∷ (
      0x8c6548258f8f12a9d4b593fa89a223417ed901d4ee9712ba09beb4d56f5262b6,
      plain (handle_sfc1_withdrawn_stake repo),
    )
    ∷ (
      0x87e86b3710b72c10173ca52c6a9f9cf2df27e77ed177741a8b4feb12bb7a606f,
      plain (handle_sfc1_withdrawn_delegation repo),
    )
    ∷ (
      0xd5304dabc5bd47105b6921889d1b528c4b2223250248a916afd129b1c0512ddd,
      plain (handle_sfc1_partial_withdraw_by_request repo),
    )
    ∷ (
      0x19b46b9014e4dc8ca74f505b8921797c6a8a489860217d15b3c7d741637dfcff,
      plain (handle_sfc1_updated_delegation repo),
    )
    ∷ (
      0x509404fa75ce234a1273cf9f7918bcf54e0ef19f2772e4f71b6526606a723b7c,
      plain (handle_sfc1_updated_stake repo),
    )
    ∷ (
      0x9a8f44850296624dadfd9c246d17e47171d35727a181bd090aa14bbbe00238bb,
      plain (handle_sfc_created_delegation repo),
    )
    ∷ (
      0xd3bb4e423fbea695d16b982f9f682dc5f35152e5411646a8a5a79a6b02ba8d57,
      plain (handle_sfc_undelegated repo),
    )
    ∷ (
      0x75e161b3e824b114fc1a33274bd7091918dd4e639cede50b78b15a4eea956a21,
      plain (handle_sfc_withdrawn repo),
    )
    ∷ (
      0xc1d8eb6e444b89fb8ff0991c19311c070df704ccb009e210d1462d5b2410bf45,
      plain (handle_sfc_claimed_rewards repo),
    )
    ∷ (
      0x4119153d17a36f9597d40e3ab4148d03261a439dddbec4e91799ab7159608e26,
      plain (handle_sfc_restake_rewards repo),
    )
    ∷ (
      0x138940e95abffcd789b497bf6188bba3afa5fbd22fb5c42c2f6018d1bf0f4e78,
      plain handle_locked_up_stake,
    )
    ∷ (
      0xef6c0c14fe9aa51af36acd791464dec3badbde668b63189b47bfa4e25be9b2b9,
      plain handle_unlocked_stake,
    )
    ∷ (
      0x8c5be1e5ebec7d5bd14f71427d1e84f3dd0314c0f7b2291e5b200ac8c7c3b925,
      plain handle_erc_token_approval,
    )
    ∷ (
      0xddf252ad1be2c89b69c2b068fc378daa952ba7f163c4a11628f55a4df523b3ef,
      plain handle_erc_token_transfer,
    )
    ∷ (
      0xc3d58168c5ae7397731d063d5bbf3d657854427343f4c083240f7aacaa2d0f62,
      plain handle_erc1155_transfer_single,
    )
    ∷ (
      0x4a39dc06d4c0dbc64b70af90fd698a233a518aa5d07e595d983b8c0526c8f7fb,
      plain (handle_erc1155_transfer_batch repo),
    )
    ∷ (0xd78ad95fa46c994b6551d0da85fc275fe613ce37657fb8d5e3d130840159d822, handle_uniswap_swap)
    ∷ (0x4c209b5fc8ad50758f13e2e1088ba56a560dff690a1c6fef26394f4c03821c4f, handle_uniswap_mint)
    ∷ (0xdccd412f0b1252819cb1fd330b93224ca42612892bb3f4f789976e6d81936496, handle_uniswap_burn)
    ∷ (0x1c411e9a96e071241c2f21f7726b17ae89e3cab4c78be50e062b03a9fffbbad1, handle_uniswap_sync)
    ∷ (
      0x8752a472e571a816aea92eec8dae9baf628e840f4929fbcc2d155e6233ff68a7,
      plain handle_fmint_deposit,
    )
    ∷ (
      0xd1c19fbcd4551a5edfb66d43d2e337c04837afda3482b42bdf569a8fccdae5fb,
      plain handle_fmint_withdraw,
    )
    ∷ (0x03f17d66ad3bf18e9412eb06582908831508cdb9b8da9cddb1431f645a5b8632, plain handle_fmint_mint)
    ∷ (0x0a3fbbea70e93f2daafa3102f5c9a1b8315e6d7a1e43e4bc020bc1162327470a, plain handle_fmint_repay)
    ∷ (
      0xe2403640ba68fed3a2f88b7557551d1993f84b99bb10ff833f0cf8db0c5e0486,
      plain handle_fmint_reward,
    )
    ∷ []

unfoldable pub lookup : List (Hash × Handler) → Hash → Option Handler
lookup [] t = none
lookup ((known, handler) ∷ table) t = if known == t then some handler else lookup table t
