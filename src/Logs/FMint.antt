-- ===== src/Logs/FMint.antt =====
-- The handlers of internal/svc/logs_fmint.go.
use Prim.Native.Nat.{bit_xor}
use explorer_api_gql.Base.{ℕ, ◌*◌, ◌%◌, length, take, drop, ◌||◌, ◌!=◌, if◌then◌else◌}
use explorer_api_gql.Types.{Address, u64}
use explorer_api_gql.Logs.Effects.{
  LogRecord, FMintTrxType, deposit, withdraw, mint, repay, add_fmint_transaction, Act, ◌>>=◌, call,
  return, topic, set_bytes, to_address,
}

-- `handleNewFMintRecord`. The index is `int64(lr.TxIndex)<<8 ^ int64(lr.Index)`, as a bit pattern.
unfoldable pub handle_new_fmint_record :
    LogRecord → FMintTrxType → Address → Address → ℕ → ℕ → Act (Unit {0})
handle_new_fmint_record lr type user token amount fee = call (
    add_fmint_transaction (record {
      user_address = user;
      token_address = token;
      type = type;
      amount = amount;
      fee = fee;
      trx_hash = lr.log.tx_hash;
      trx_index = bit_xor ((lr.log.tx_index * 256) % u64) lr.log.log_index;
      time_stamp = lr.block.time_stamp;
    }))

unfoldable pub handle_fmint_deposit : LogRecord → Act (Unit {0})
handle_fmint_deposit lr =
    if length lr.log.bytes != 32 || length lr.log.topics != 3 then return else do
      user ← topic lr 2
      token ← topic lr 1
      handle_new_fmint_record lr deposit (to_address user) (to_address token)
          (set_bytes lr.log.bytes) 0

unfoldable pub handle_fmint_withdraw : LogRecord → Act (Unit {0})
handle_fmint_withdraw lr =
    if length lr.log.bytes != 32 || length lr.log.topics != 3 then return else do
      user ← topic lr 2
      token ← topic lr 1
      handle_new_fmint_record lr withdraw (to_address user) (to_address token)
          (set_bytes lr.log.bytes) 0

unfoldable pub handle_fmint_mint : LogRecord → Act (Unit {0})
handle_fmint_mint lr = if length lr.log.bytes != 64 || length lr.log.topics != 3 then return else do
  user ← topic lr 2
  token ← topic lr 1
  handle_new_fmint_record lr mint (to_address user) (to_address token)
      (set_bytes (take 32 lr.log.bytes)) (set_bytes (drop 32 lr.log.bytes))

unfoldable pub handle_fmint_repay : LogRecord → Act (Unit {0})
handle_fmint_repay lr =
    if length lr.log.bytes != 32 || length lr.log.topics != 3 then return else do
      user ← topic lr 2
      token ← topic lr 1
      handle_new_fmint_record lr repay (to_address user) (to_address token) (set_bytes lr.log.bytes)
          0

-- A claim of a reward is checked and dropped.
unfoldable pub handle_fmint_reward : LogRecord → Act (Unit {0})
handle_fmint_reward lr =
    if length lr.log.bytes != 32 || length lr.log.topics != 2 then return else return
