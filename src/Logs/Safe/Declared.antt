-- ===== src/Logs/Safe/Declared.antt =====
-- How many topics the events of the contracts have.
use explorer_api_gql.Base.{ℕ, List, [], ◌∷◌, ◌==◌, if◌then◌else◌}
use explorer_api_gql.Types.{Hash}

-- The events as the contracts declare them: the hash of the signature, and how many topics a log of
-- the event has, that hash and one for each indexed parameter.
abbrev pub event_topics : List (Hash × ℕ)
event_topics =
    (0xfd8c857fb9acd6f4ad59b8621a2a77825168b7b4b76de9586d08e00d4ed462be, 3)
    ∷ (0x0697dfe5062b9db8108e4b31254f47a912ae6bbb78837667b2e923a6f5160d39, 3)
    ∷ (0xa1d93e9a2a16bf4c2d0cdc6f47fe0fa054c741c96b3dac1297c79eaca31714e9, 2)
    ∷ (0x4ca781bfe171e588a2661d5a7f2f5f59df879c53489063552fbad2145b707fc1, 3)
    ∷ (0x2676e1697cf4731b93ddb4ef54e0e5a98c06cccbbbb2202848a3c6286595e6ce, 3)
    ∷ (0x2ea54c2b22a07549d19fb5eb8e4e48ebe1c653117215e94d5468c5612750d35c, 2)
    ∷ (0x80b36a0e929d7e7925087e54acfeecf4c6043e451b9d71ac5e908b66f9e5d126, 3)
    ∷ (0xf7c308d0d978cce3aec157d1b34e355db4636b4e71ce91b4f5ec9e7a4f5cdc60, 2)
    ∷ (0x84244546a9da4942f506db48ff90ebc240c73bb399e3e47d58843c6bb60e7185, 2)
    ∷ (0x912c4125a208704a342cbdc4726795d26556b0170b7fc95bc706d5cb1f506469, 3)
    ∷ (0x5b1eea49e405ef6d509836aac841959c30bb0673b1fd70859bfc6ae5e4ee3df2, 3)
    ∷ (0xde2d2a87af2fa2de55bde86f04143144eb632fa6be266dc224341a371fb8916d, 4)
    ∷ (0x8c6548258f8f12a9d4b593fa89a223417ed901d4ee9712ba09beb4d56f5262b6, 2)
    ∷ (0x87e86b3710b72c10173ca52c6a9f9cf2df27e77ed177741a8b4feb12bb7a606f, 3)
    ∷ (0xd5304dabc5bd47105b6921889d1b528c4b2223250248a916afd129b1c0512ddd, 4)
    ∷ (0x19b46b9014e4dc8ca74f505b8921797c6a8a489860217d15b3c7d741637dfcff, 4)
    ∷ (0x509404fa75ce234a1273cf9f7918bcf54e0ef19f2772e4f71b6526606a723b7c, 2)
    ∷ (0x9a8f44850296624dadfd9c246d17e47171d35727a181bd090aa14bbbe00238bb, 3)
    ∷ (0xd3bb4e423fbea695d16b982f9f682dc5f35152e5411646a8a5a79a6b02ba8d57, 4)
    ∷ (0x75e161b3e824b114fc1a33274bd7091918dd4e639cede50b78b15a4eea956a21, 4)
    ∷ (0xc1d8eb6e444b89fb8ff0991c19311c070df704ccb009e210d1462d5b2410bf45, 3)
    ∷ (0x4119153d17a36f9597d40e3ab4148d03261a439dddbec4e91799ab7159608e26, 3)
    ∷ (0x138940e95abffcd789b497bf6188bba3afa5fbd22fb5c42c2f6018d1bf0f4e78, 3)
    ∷ (0xef6c0c14fe9aa51af36acd791464dec3badbde668b63189b47bfa4e25be9b2b9, 3)
    ∷ (0x8c5be1e5ebec7d5bd14f71427d1e84f3dd0314c0f7b2291e5b200ac8c7c3b925, 3)
    ∷ (0xddf252ad1be2c89b69c2b068fc378daa952ba7f163c4a11628f55a4df523b3ef, 3)
    ∷ (0xc3d58168c5ae7397731d063d5bbf3d657854427343f4c083240f7aacaa2d0f62, 4)
    ∷ (0x4a39dc06d4c0dbc64b70af90fd698a233a518aa5d07e595d983b8c0526c8f7fb, 4)
    ∷ (0xd78ad95fa46c994b6551d0da85fc275fe613ce37657fb8d5e3d130840159d822, 3)
    ∷ (0x4c209b5fc8ad50758f13e2e1088ba56a560dff690a1c6fef26394f4c03821c4f, 2)
    ∷ (0xdccd412f0b1252819cb1fd330b93224ca42612892bb3f4f789976e6d81936496, 3)
    ∷ (0x1c411e9a96e071241c2f21f7726b17ae89e3cab4c78be50e062b03a9fffbbad1, 1)
    ∷ (0x8752a472e571a816aea92eec8dae9baf628e840f4929fbcc2d155e6233ff68a7, 3)
    ∷ (0xd1c19fbcd4551a5edfb66d43d2e337c04837afda3482b42bdf569a8fccdae5fb, 3)
    ∷ (0x03f17d66ad3bf18e9412eb06582908831508cdb9b8da9cddb1431f645a5b8632, 3)
    ∷ (0x0a3fbbea70e93f2daafa3102f5c9a1b8315e6d7a1e43e4bc020bc1162327470a, 3)
    ∷ (0xe2403640ba68fed3a2f88b7557551d1993f84b99bb10ff833f0cf8db0c5e0486, 2)
    ∷ []

abbrev pub declared : List (Hash × ℕ) → Hash → ℕ
declared [] t = 0
declared ((known, n) ∷ table) t = if known == t then n else declared table t
