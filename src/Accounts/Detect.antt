-- ===== src/Accounts/Detect.antt =====
-- What the account dispatcher stores of an account.
use explorer_api_gql.Base.{
  ℕ, ◌≡◌, refl, ap, ◌∙◌, Bool, true, false, ◌&&◌, Bool-cases, Option-cases, inl, inr, Option, none,
  some, List, [], ◌∷◌, ◌++◌, ltb, if◌then◌else◌,
}
use explorer_api_gql.Types.{Address}
use explorer_api_gql.Accounts.{
  EventAcc, Call, erc1155_interface, account_mark_activity, store_account, store_contract, Repo,
  Contract, sfc_calls, detect_contract, check_sfc, add_wallet, process_contract, process,
  has_contract, sfc_check_below_block, detect_erc20, detect_token, detect_erc20_token,
  detect_erc721_token,
}

-- the addresses of the accounts and of the contracts that some calls store
abbrev pub accounts_in : List Call → List Address
accounts_in [] = []
accounts_in (store_account account ∷ calls) = account.address ∷ accounts_in calls
accounts_in (store_contract contract ∷ calls) = accounts_in calls
accounts_in (account_mark_activity addr time ∷ calls) = accounts_in calls

module _ (repo : Repo) where
  sfc_calls-none :
      (acc : EventAcc) (version : Option ℕ) (calls : List Call)
      → accounts_in (sfc_calls repo acc version ++ calls) ≡ accounts_in calls
  sfc_calls-none acc none calls = refl
  sfc_calls-none acc (some v) calls = refl

  add_wallet-once : (acc : EventAcc) → accounts_in (add_wallet repo acc) ≡ acc.addr ∷ []
  unfolding add_wallet check_sfc
  add_wallet-once acc =
      elim (Bool-cases
        (ltb acc.blk.number sfc_check_below_block && repo.is_sfc_contract acc.addr)) [
          | inl e ↦ rw e (sfc_calls-none acc repo.sfc_version _)
          | inr e ↦ rw e refl
        ]

  detect_erc20-address :
      (acc : EventAcc) (name : Option _) → (detect_erc20 repo acc name).address ≡ acc.addr
  detect_erc20-address acc none = refl
  detect_erc20-address acc (some name) = refl

  detect_token-address :
      (acc : EventAcc) (name : Option _) → (detect_token repo acc name).address ≡ acc.addr
  detect_token-address acc none = detect_erc20-address acc (detect_erc20_token repo acc.addr)
  detect_token-address acc (some name) = refl

  detect_contract-address : (acc : EventAcc) → (detect_contract repo acc).address ≡ acc.addr
  unfolding detect_contract
  detect_contract-address acc =
      elim (Option-cases (repo.erc165_supports_interface acc.addr erc1155_interface)) [
        | inl e ↦
            rw (e, detect_contract) (detect_erc20-address acc (detect_erc20_token repo acc.addr))
        | inr (supported, e) ↦
            rw (e, detect_contract)
              (elim (Bool-cases supported) [
                | inl t ↦ rw t refl
                | inr f ↦ rw f (detect_token-address acc (detect_erc721_token repo acc.addr))
              ])
      ]

  process_known :
      (acc : EventAcc)
      → repo.account_is_known acc.addr ≡ true
      → process repo acc ≡ account_mark_activity acc.addr acc.blk.time_stamp ∷ []
  unfolding process
  process_known acc e = rw e refl

  process_wallet :
      (acc : EventAcc)
      → repo.account_is_known acc.addr ≡ false
      → has_contract acc.trx.contract_address ≡ false
      → process repo acc ≡ add_wallet repo acc
  unfolding process
  process_wallet acc e h = rw (e, h) refl

  process_deploying :
      (acc : EventAcc)
      → repo.account_is_known acc.addr ≡ false
      → has_contract acc.trx.contract_address ≡ true
      → process repo acc ≡ process_contract repo acc
  unfolding process
  process_deploying acc e h = rw (e, h) refl

  contract_stored :
      (acc : EventAcc) (b : Bool)
      → repo.succeeds (store_contract (detect_contract repo acc)) ≡ b
      → process_contract repo acc ≡ (
          store_contract (detect_contract repo acc)
          ∷ (if b
              then add_wallet repo (record acc { act = (detect_contract repo acc).type })
              else []))
  unfolding process_contract
  contract_stored acc true e = rw e refl
  contract_stored acc false e = rw e refl

  -- An account that is not known yet is stored exactly once if the calls succeed, whatever its
  -- contract is detected to be, and one that is known is not stored again.
  pub stored_once :
      (acc : EventAcc)
      → ((call : Call) → repo.succeeds call ≡ true)
      → accounts_in (process repo acc)
        ≡ (if repo.account_is_known acc.addr then [] else acc.addr ∷ [])
  stored_once acc ok = elim (Bool-cases (repo.account_is_known acc.addr)) [
    | inl e ↦ rw (e, process_known acc e) refl
    | inr e ↦ rw e (elim (Bool-cases (has_contract acc.trx.contract_address)) [
      | inl h ↦
          ap accounts_in (
            process_deploying acc e h
            ∙ contract_stored acc true (ok (store_contract (detect_contract repo acc))))
          ∙ add_wallet-once (record acc { act = (detect_contract repo acc).type })
      | inr h ↦ ap accounts_in (process_wallet acc e h) ∙ add_wallet-once acc
    ])
  ]

  -- If a transaction deploys a contract, then each of its accounts that is not known yet is first
  -- stored as a contract of its own: its sender too, though that is a wallet.
  pub deployer_stored_as_contract :
      (acc : EventAcc) (created : Address)
      → repo.account_is_known acc.addr ≡ false
      → acc.trx.contract_address ≡ some created
      → (c : Contract) × (rest : List Call) × (process repo acc ≡ store_contract c ∷ rest)
        × (c.address ≡ acc.addr)
  deployer_stored_as_contract acc created new deploys =
      let b = repo.succeeds (store_contract (detect_contract repo acc)) in
      (
        detect_contract repo acc,
        (if b then add_wallet repo (record acc { act = (detect_contract repo acc).type }) else []),
        process_deploying acc new (ap has_contract deploys) ∙ contract_stored acc b refl,
        detect_contract-address acc,
      )
