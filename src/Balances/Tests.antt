-- ===== src/Balances/Tests.antt =====
-- A delegation of 100 that has grown to 150.
use explorer_api_gql.Base.{◌≡◌, refl, inl, true, false, some, [], ◌∷◌}
use explorer_api_gql.Logs.Effects.{Delegation}
use explorer_api_gql.Balances.{Book, find_delegation, update_balance}
use explorer_api_gql.Balances.Followed.{Left, served, balance_followed}
use explorer_api_gql.Balances.Lag.{updates, balance_lags}

abbrev grown : Delegation
grown = record {
  transaction = 99;
  address = 42;
  to_staker_id = 7;
  to_staker_address = 700;
  amount_delegated = 150;
  amount_staked = 100;
  created_time = 1000;
}

abbrev book : Book
book = record { delegations = grown ∷ []; cache = [] }

balance_followed_example :
    Left
      (update_balance (some 130) (served true) 42 7 book)
      42
      7
      (record grown { amount_delegated = 130 })
unfolding find_delegation
balance_followed_example = balance_followed true book 42 7 130 grown (inl refl) refl refl

balance_lags_example :
    find_delegation (updates ((130, true) ∷ (100, false) ∷ []) 42 7 book).delegations 42 7
    ≡ some (record grown { amount_delegated = 130 })
unfolding find_delegation
balance_lags_example =
    balance_lags ((130, true) ∷ (100, false) ∷ []) book 42 7 grown (inl refl) refl
