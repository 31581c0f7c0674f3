-- ===== src/Logs/Effects.antt =====
-- What the handlers share: the records that they store, the repository, and their effects.
use explorer_api_gql.Base.{
  ℕ, ◌+◌, ◌-◌, ◌*◌, ◌/◌, ◌%◌, ◌^◌, Bool, Option, none, some, List, [], ◌∷◌, ◌++◌, get_elem?,
}
use explorer_api_gql.Types.{Hash, Address, Log, Block, Transaction, u64}

-- `LogRecord` of a log whose block and transaction are known
pub record LogRecord : Type 0 where
  pub block : Block
  pub trx : Transaction
  pub log : Log

-- `types.Delegation`, as the handlers fill it
pub record Delegation : Type 0 where
  pub transaction : Hash
  pub address : Address
  pub to_staker_id : ℕ
  pub to_staker_address : Address
  pub amount_delegated : ℕ
  pub amount_staked : ℕ
  pub created_time : ℕ

-- the kinds of `types.WithdrawRequest`
pub data WithdrawType : Type 0 where
  undelegated withdraw_request deactivated_dlg deactivated_val : WithdrawType

pub record WithdrawRequest : Type 0 where
  pub type : WithdrawType
  pub request_trx : Hash
  pub withdraw_request_id : ℕ
  pub address : Address
  pub staker_id : ℕ
  pub created_time : ℕ
  pub amount : ℕ
  pub withdraw_trx : Option Hash
  pub withdraw_time : Option ℕ
  pub penalty : Option ℕ

-- `types.LockedDelegation`. An int64 is its bit pattern, below 2 ^ 64. The lock expires
-- `expires_after` nanoseconds, an int64, after its beginning.
pub record LockedDelegation : Type 0 where
  pub delegator : Address
  pub validator_id : ℕ
  pub locked : ℕ
  pub duration : ℕ
  pub expires_after : ℕ
  pub amount : ℕ
  pub value : ℕ

pub record RewardClaim : Type 0 where
  pub delegator : Address
  pub to_validator_id : ℕ
  pub claimed : ℕ
  pub claim_trx : Hash
  pub amount : ℕ
  pub is_delegated : Bool

pub data FMintTrxType : Type 0 where
  deposit withdraw mint repay : FMintTrxType

pub record FMintTransaction : Type 0 where
  pub user_address : Address
  pub token_address : Address
  pub type : FMintTrxType
  pub amount : ℕ
  pub fee : ℕ
  pub trx_hash : Hash
  pub trx_index : ℕ
  pub time_stamp : ℕ

pub data TokenTrxType : Type 0 where
  transfer approval mint burn : TokenTrxType

pub data TokenType : Type 0 where
  erc20 erc721 erc1155 : TokenType

pub record TokenTransaction : Type 0 where
  pub transaction : Hash
  pub trx_index : ℕ
  pub token_address : Address
  pub type : TokenTrxType
  pub token_type : TokenType
  pub sender : Address
  pub recipient : Address
  pub amount : ℕ
  pub token_id : ℕ
  pub time_stamp : ℕ
  pub log_index : ℕ
  pub block_number : ℕ
  pub seq : ℕ

-- the types of `types.Swap`
pub data SwapType : Type 0 where
  swap_mint swap_burn swap_sync : SwapType

pub record Swap : Type 0 where
  pub ord_index : ℕ
  pub block_number : ℕ
  pub type : SwapType
  pub time_stamp : ℕ
  pub pair : Address
  pub sender : Address
  pub hash : Hash
  pub amount0_in : ℕ
  pub amount0_out : ℕ
  pub amount1_in : ℕ
  pub amount1_out : ℕ
  pub reserve0 : ℕ
  pub reserve1 : ℕ

-- the calls that write to the repository
pub data Call : Type 0 where
  store_delegation : Delegation → Call
  update_delegation_balance : Address → ℕ → Call
  store_withdraw_request : WithdrawRequest → Call
  update_withdraw_request : WithdrawRequest → Call
  store_locked_delegation : LockedDelegation → Call
  adjust_locked_delegation : Address → ℕ → ℕ → Call
  store_reward_claim : RewardClaim → Call
  add_fmint_transaction : FMintTransaction → Call
  store_token_transaction : TokenTransaction → Call
  uniswap_add : Swap → Call

-- How `UpdateDelegationBalance` of the repository ends: the stored delegation is in order, there
-- is none and the given function is called with the current amount, or there is an error.
pub data Balance : Type 0 where
  updated : Balance
  unknown : (amount : ℕ) → Balance
  failed : Balance

-- What the handlers ask the repository for; `none` and `false` are errors.
pub record Repo : Type 0 where
  pub validator_address : ℕ → Option Address
  pub delegation_amount_staked : Address → ℕ → Option ℕ
  pub delegation_balance : Address → ℕ → Balance
  pub find_withdraw_request : Address → ℕ → ℕ → Option WithdrawRequest
  pub reward_claim_accepted : RewardClaim → Bool
  pub parse_transfer_batch : List ℕ → List ℕ × List ℕ

-- The calls up to the end, or up to a panic: then there is no result.
abbrev pub Act : Type 0 → Type 0
Act A = Option A × List Call

infixl 5 ◌>>=◌ ◌>>◌
abbrev pub prefixed : {A : Type 0} → List Call → Act A → Act A
prefixed calls m = (m.0, calls ++ m.1)

abbrev pub ◌>>=◌ : {A B : Type 0} → Act A → (A → Act B) → Act B
(some a, calls) >>= f = prefixed calls (f a)
(none, calls) >>= f = (none, calls)

abbrev pub ◌>>◌ : {A B : Type 0} → Act A → Act B → Act B
m >> k = m >>= λ _. k

abbrev pub pure : {A : Type 0} → A → Act A
pure a = (some a, [])

abbrev pub panic : {A : Type 0} → Act A
panic = (none, [])

abbrev pub call : Call → Act (Unit {0})
call c = (some tt, c ∷ [])

abbrev pub return : Act (Unit {0})
return = pure tt

-- the element of a slice at an index; one out of range panics
abbrev pub element : List ℕ → ℕ → Act ℕ
element xs i = elim (get_elem? xs i) [ none ↦ panic | some x ↦ pure x ]

-- `lr.Topics[i]`
abbrev pub topic : LogRecord → ℕ → Act Hash
topic lr i = element lr.log.topics i

-- `new(big.Int).SetBytes`, the big-endian number
abbrev pub set_bytes_from : ℕ → List ℕ → ℕ
set_bytes_from n [] = n
set_bytes_from n (b ∷ bytes) = set_bytes_from (n * 256 + b) bytes

abbrev pub set_bytes : List ℕ → ℕ
set_bytes bytes = set_bytes_from 0 bytes

-- `common.BytesToAddress` of a topic keeps its last twenty bytes.
abbrev pub to_address : Hash → Address
to_address t = t % 2 ^ 160

-- `Int64` of a big number, as a bit pattern
abbrev pub int64 : ℕ → ℕ
int64 n = n % u64

abbrev pub neg64 : ℕ → ℕ
neg64 w = (u64 - w) % u64

-- `DelegationDecimalsCorrection`
abbrev pub decimals_correction : ℕ
decimals_correction = 1_000_000_000

-- `LockedDelegationValue`
pub locked_delegation_value : ℕ → ℕ
locked_delegation_value amount = int64 (amount / decimals_correction)
