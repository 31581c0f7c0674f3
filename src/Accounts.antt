-- ===== src/Accounts.antt =====
-- The account dispatcher of internal/svc/dispatch_acc.go. What it asks the repository for is a
-- parameter, and what it writes is a sequence of calls.
pub mod Detect
mod Tests
use explorer_api_gql.Base.{
  ℕ, Bool, true, false, not, ◌&&◌, Option, none, some, List, [], ◌∷◌, ◌++◌, String, ltb,
  if◌then◌else◌,
}
use explorer_api_gql.Types.{Hash, Address, Block, Transaction}

-- the types of an account
pub data AccountType : Type 0 where
  wallet contract sfc erc20 erc721 erc1155 : AccountType

-- `eventAcc`; the wait group of the transaction is named by a number
pub record EventAcc : Type 0 where
  pub watch_dog : ℕ
  pub addr : Address
  pub act : AccountType
  pub blk : Block
  pub trx : Transaction

-- `types.Account`; the transaction of the contract is never known here
pub record Account : Type 0 where
  pub address : Address
  pub type : AccountType
  pub last_activity : ℕ
  pub trx_counter : ℕ

-- `types.Contract`, with the fields that tell contracts apart here
pub record Contract : Type 0 where
  pub type : AccountType
  pub address : Address
  pub transaction_hash : Hash
  pub time_stamp : ℕ
  pub name : String

pub data Call : Type 0 where
  account_mark_activity : Address → ℕ → Call
  store_account : Account → Call
  store_contract : Contract → Call

-- `erc1155InterfaceId` and `erc721InterfaceId`
pub data Interface : Type 0 where
  erc1155_interface erc721_interface : Interface

-- What the dispatcher asks for; `none` is an error. The calls that write succeed or fail.
pub record Repo : Type 0 where
  pub account_is_known : Address → Bool
  pub erc165_supports_interface : Address → Interface → Option Bool
  pub erc20_name : Address → Option String
  pub erc20_symbol : Address → Option String
  pub erc20_balance_of : Address → Option ℕ
  pub erc20_total_supply : Address → Option ℕ
  pub is_sfc_contract : Address → Bool
  pub sfc_version : Option ℕ
  pub succeeds : Call → Bool

-- `sfcCheckBelowBlock`
abbrev pub sfc_check_below_block : ℕ
sfc_check_below_block = 100000

abbrev pub new_contract : AccountType → String → EventAcc → Contract
new_contract type name acc = record {
  type = type;
  address = acc.addr;
  transaction_hash = acc.trx.hash;
  time_stamp = acc.blk.time_stamp;
  name = name;
}

infixl 5 ◌>>=◌
abbrev pub ◌>>=◌ : {A B : Type 0} → Option A → (A → Option B) → Option B
none >>= f = none
some a >>= f = f a

abbrev pub has_contract : Option Address → Bool
has_contract none = false
has_contract (some _) = true

module _ (repo : Repo) where
  -- `detectErc20Token`
  pub detect_erc20_token : Address → Option String
  detect_erc20_token addr = do
    name ← repo.erc20_name addr
    symbol ← repo.erc20_symbol addr
    balance ← repo.erc20_balance_of addr
    supply ← repo.erc20_total_supply addr
    some name

  -- the name of an ERC721 token is optional
  abbrev pub optional_name : Option String → String
  optional_name none = ""
  optional_name (some name) = name

  -- `detectErc721Token`
  pub detect_erc721_token : Address → Option String
  detect_erc721_token addr = elim (repo.erc165_supports_interface addr erc721_interface) [
    | none ↦ none
    | some supported ↦ if supported then some (optional_name (repo.erc20_name addr)) else none
  ]

  abbrev pub detect_erc20 : EventAcc → Option String → Contract
  detect_erc20 acc (some name) = new_contract erc20 name acc
  detect_erc20 acc none = new_contract contract "" acc

  abbrev pub detect_token : EventAcc → Option String → Contract
  detect_token acc (some name) = new_contract erc721 name acc
  detect_token acc none = detect_erc20 acc (detect_erc20_token acc.addr)

  -- `detectContract`: an error of the first request rules ERC721 out as well.
  pub detect_contract : EventAcc → Contract
  detect_contract acc = elim (repo.erc165_supports_interface acc.addr erc1155_interface) [
    | none ↦ detect_erc20 acc (detect_erc20_token acc.addr)
    | some supported ↦
        if supported
        then new_contract erc1155 "" acc
        else detect_token acc (detect_erc721_token acc.addr)
  ]

  abbrev pub sfc_calls : EventAcc → Option ℕ → List Call
  sfc_calls acc none = []
  sfc_calls acc (some version) = store_contract (new_contract sfc "SFC Contract" acc) ∷ []

  -- `checkSfc`: the type of the account and the calls
  pub check_sfc : EventAcc → AccountType × List Call
  check_sfc acc =
      if ltb acc.blk.number sfc_check_below_block && repo.is_sfc_contract acc.addr
      then (sfc, sfc_calls acc repo.sfc_version)
      else (acc.act, [])

  -- `wallet`
  pub add_wallet : EventAcc → List Call
  add_wallet acc =
      let (type, calls) = check_sfc acc in
      calls
      ++ store_account (record {
        address = acc.addr;
        type = type;
        last_activity = acc.blk.time_stamp;
        trx_counter = 1;
      })
        ∷ []

  -- `processContract`, and what follows it if the contract can be stored
  pub process_contract : EventAcc → List Call
  process_contract acc =
      let found = detect_contract acc in
      let rest = add_wallet (record acc { act = found.type }) in
      if repo.succeeds (store_contract found)
      then store_contract found ∷ rest
      else store_contract found ∷ []

  -- `process`
  pub process : EventAcc → List Call
  process acc =
      if repo.account_is_known acc.addr
      then account_mark_activity acc.addr acc.blk.time_stamp ∷ []
      else (if has_contract acc.trx.contract_address then process_contract acc else add_wallet acc)

  -- the loop of `execute` over what comes in, up to the stop signal: the calls, and the watch dogs
  -- that were told that an account is done, which also happens after an error
  unfoldable pub run : List EventAcc → List Call × List ℕ
  run [] = ([], [])
  run (acc ∷ accs) = let (calls, done) = run accs in (process acc ++ calls, acc.watch_dog ∷ done)
