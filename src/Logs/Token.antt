-- ===== src/Logs/Token.antt =====
-- The handlers of internal/svc/logs_erc_token.go.
use explorer_api_gql.Base.{
  ℕ, suc, ◌%◌, List, [], ◌∷◌, length, take, drop, ◌&&◌, ◌==◌, if◌then◌else◌,
}
use explorer_api_gql.Types.{Address}
use explorer_api_gql.Logs.Effects.{
  LogRecord, TokenTrxType, transfer, approval, mint, burn, TokenType, erc20, erc721, erc1155,
  store_token_transaction, Repo, Act, ◌>>=◌, ◌>>◌, element, call, return, topic, set_bytes,
  to_address,
}

-- `tokenTrxType`: a transfer from the zero address is a mint, one to it is a burn.
pub token_trx_type : TokenTrxType → Address → Address → TokenTrxType
token_trx_type transfer from to = if from == 0 then mint else if to == 0 then burn else transfer
token_trx_type approval from to = approval
token_trx_type mint from to = mint
token_trx_type burn from to = burn

-- `storeTokenTransaction`
unfoldable pub store_transaction :
    LogRecord → TokenType → TokenTrxType → Address → Address → ℕ → ℕ → ℕ → Act (Unit {0})
store_transaction lr token_type type from to amount token_id seq = call (
    store_token_transaction (record {
      transaction = lr.log.tx_hash;
      trx_index = lr.log.tx_index;
      token_address = lr.log.address;
      type = type;
      token_type = token_type;
      sender = from;
      recipient = to;
      amount = amount;
      token_id = token_id;
      time_stamp = lr.block.time_stamp;
      log_index = lr.log.log_index;
      block_number = lr.log.block_number;
      seq = seq;
    }))

-- `handleErcTransaction`: three topics and a word of data are ERC20, four topics and no data ERC721.
unfoldable pub handle_erc_transaction : LogRecord → TokenTrxType → Act (Unit {0})
handle_erc_transaction lr type =
    if length lr.log.topics == 3 && length lr.log.bytes == 32
    then (do
      from ← topic lr 1
      to ← topic lr 2
      store_transaction lr erc20 (token_trx_type type (to_address from) (to_address to))
          (to_address from) (to_address to) (set_bytes lr.log.bytes) 0 0)
    else if length lr.log.topics == 4 && length lr.log.bytes == 0
    then (do
      from ← topic lr 1
      to ← topic lr 2
      token_id ← topic lr 3
      store_transaction lr erc721 (token_trx_type type (to_address from) (to_address to))
          (to_address from) (to_address to) 1 token_id 0)
    else return

unfoldable pub handle_erc_token_approval : LogRecord → Act (Unit {0})
handle_erc_token_approval lr = handle_erc_transaction lr approval

unfoldable pub handle_erc_token_transfer : LogRecord → Act (Unit {0})
handle_erc_token_transfer lr = handle_erc_transaction lr transfer

unfoldable pub handle_erc1155_transfer_single : LogRecord → Act (Unit {0})
handle_erc1155_transfer_single lr =
    if length lr.log.topics == 4 && length lr.log.bytes == 64
    then (do
      from ← topic lr 2
      to ← topic lr 3
      store_transaction lr erc1155 (token_trx_type transfer (to_address from) (to_address to))
          (to_address from) (to_address to) (set_bytes (drop 32 lr.log.bytes))
          (set_bytes (take 32 lr.log.bytes)) 0)
    else return

-- the loop of `handleErc1155TransferBatch` over the remaining ids, from index `i`
unfoldable pub store_batch : LogRecord → Address → Address → List ℕ → ℕ → List ℕ → Act (Unit {0})
store_batch lr from to values i [] = return
store_batch lr from to values i (id ∷ ids) = do
  amount ← element values i
  store_transaction lr erc1155 transfer from to amount id (i % 65536)
  store_batch lr from to values (suc i) ids

-- `handleErc1155TransferBatch`. An error of the parser leaves what it has read, and a difference
-- of the lengths is only reported.
unfoldable pub handle_erc1155_transfer_batch : Repo → LogRecord → Act (Unit {0})
handle_erc1155_transfer_batch repo lr =
    if length lr.log.topics == 4
    then (do
      from ← topic lr 2
      to ← topic lr 3
      let batch = repo.parse_transfer_batch lr.log.bytes
      store_batch lr (to_address from) (to_address to) batch.1 0 batch.0)
    else return
