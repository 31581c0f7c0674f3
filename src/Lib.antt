-- ===== src/Lib.antt =====
-- The API server of the Fantom explorer: the services that follow the chain and fill the database, and
-- the paged lists that clients read. Paths are given from the root of the repository.
--
-- How the parts interact. The block scanner (Scanner, internal/svc/scan_blk.go) loads old blocks by
-- their number and sends them to the block dispatcher; when it reaches the head of the chain it goes
-- idle and tells the orchestrator. The orchestrator (Orchestrator, internal/svc/orchestrator.go) gets
-- the new heads: while the scanner works, it keeps the last fifty of their blocks in a ring (Ring,
-- internal/repository/cache/ring/ring.go), and on the switch to idle it sends them on; from then on it
-- sends each new block at once. The block dispatcher (Blocks, internal/svc/dispatch_blk.go)
-- announces the block to the scanner and sends its transactions on. The transaction dispatcher
-- (Transactions, internal/svc/dispatch_trx.go) sends the accounts of a transaction to the account
-- dispatcher (Accounts, internal/svc/dispatch_acc.go) and waits until they and its logs are done. The logs reach the log dispatcher (Logs.Dispatch,
-- internal/svc/dispatch_log.go), which calls the handler of the event (Logs, internal/svc/logs_*.go);
-- the handlers write to the repository. The burn dispatcher (Burn, internal/svc/dispatch_burn.go)
-- collects the fees of each block's transactions and stores what is burned of them. Beside them run
-- the epoch scanner (Epochs, internal/svc/scan_epochs.go), the scanner of the information on
-- validators (Stakers, internal/svc/scan_sti.go) and the monitor of the gas price (Gas,
-- internal/svc/scan_gas.go). What is stored goes through the documents of the database (Documents,
-- internal/types). Clients read the transactions page by page (Paging,
-- internal/repository/db/transaction.go), likewise the delegations, withdrawals, reward claims, fMint
-- and token transactions (Lists, internal/repository/db), and the blocks from the ring that the block dispatcher fills,
-- or from the node (BlockPages, internal/repository/block.go).
--
-- How the code corresponds to the model.
--   Types: the records of internal/types, with the fields that the modelled code reads.
--   Ring: New, Add, Reset and List are new, add, reset and list; a value is a node that is not nil.
--     Each holds the lock of the ring, so that each is one step.
--   Scanner: blkScanner with what was sent to its channels; boundaries, observe, updateState and shift
--     are functions on it. Each event of the loop of execute carries what the environment answers:
--     the height of the chain, or whether the stop signal is taken instead of a send. Numbers of
--     blocks wrap at 2 ^ 64.
--   Orchestrator: the same for its loop; handleNewHead and unloadCache are functions.
--   Logs: a handler is a function from a log to the calls that it makes on the repository, which end in
--     a panic or a return (the monad Act). What it reads of the repository is the record Repo, so that
--     the theorems hold for whatever the repository answers. Logs/Effects has what is shared, one
--     file each the handlers of one source file, Logs/Table the table of topics, Logs/Dispatch the
--     loop, and Logs/Safe what makes a handler return. Logs/Abi encodes the data of a log as a contract
--     does.
--   Ordinals: the numbers by which the lists are sorted (internal/types, and internal/svc/logs_uniswap.go).
--   Balances: UpdateDelegationBalance of internal/repository/sfc_delegation.go, which the handlers of
--     Logs call, with the collection of delegations and the cache before it. Each call of
--     the database may fail.
--   Blocks: process, processTxs and load, with what was sent and cached.
--   Transactions: process and the pushes of accounts and logs. A wait group is a number; each call of
--     Add and Done is an entry of a list. For each send it is a parameter whether the stop signal
--     is taken instead. Transactions/Released composes the three dispatchers.
--     Transactions/Store: waitAndStore and updateLastSeenBlock, with AddTransaction, UpdateTransaction
--     and IsTransactionKnown of internal/repository/db/transaction.go. The storing of a transaction is
--     one step; that two goroutines look up the same hash before either inserts it is left to the
--     primary key of the collection.
--   Accounts: process and the detection of a contract, as calls that write to the repository.
--   Burn: process and burnedFee, with the shares of internal/repository/burn.go. Fees are integers: a
--     used gas is converted to an int64 and may be negative then.
--   Paging: Transactions with initTrxList, trxListWithRangeMarks, txListFilter, txListOptions and
--     txListLoad, over a driver that stands for the collection of the database.
--   Lists: Withdrawals, Delegations, FMintTransactions and Erc20Transactions with their helpers, over the
--     same driver. Lists/Places says where a page may start; whether the cursor of a query closes is
--     a parameter, since three of the lists return the error of that.
--   BlockPages: Blocks with RecentBlocks, makeBlocksList, initBlockList, pullBlocks and
--     checkBlocksListBoundary, BlockByNumber, BlockByHash and getBlock, over what the node answers and
--     a cache that may have dropped any entry. BlockPages/Chain says what the lists are to be.
--   Documents: MarshalBSON and UnmarshalBSON as functions to and from the rows. A panic, and an error
--     of a decoding, is none.
--   Epochs: the two loops of the epoch scanner as steps of one state, with the collection of AddEpoch.
--   Stakers: next and syncTop, a tick at a time, with what was asked and kept.
--   Gas: read, flip, store and avg, with the periods that were stored. An int64 is its word.
--   Base: notation, tests, lists with native indices, and the integers of list counts and fees.
--
-- Bounds. A count of a list request is an integer other than -2 ^ 31, whose negation overflows. The
-- loops are structural recursions on lists of events or rows, so that no fuel is needed, but for the
-- client in Paging/Walk, whose fuel is the number of documents and one.
--
-- What is a parameter. The database driver (Paging.Driver): Paging/Serves says what is relied on,
-- that a query returns the documents that match, sorted and up to the limit. The node and the
-- repository behind the services: functions that answer or fail. The parser of ERC1155 batches. The
-- hexadecimal texts (Documents.Hex) and the encoder of rows (Documents.Driver), with what is relied
-- on beside them. The division of floats of the mean gas price.
--
-- What is not modelled: goroutines and the buffers of channels, beyond the order of events; log output;
-- the flow monitor of internal/svc; the encodings to JSON; the GraphQL layer, the bindings of contracts, configuration and network discovery.
pub mod Base
pub mod Ring
pub mod Types
pub mod Lists
pub mod Paging
pub mod Scanner
pub mod Orchestrator
pub mod Logs
pub mod Accounts
pub mod Transactions
pub mod Documents
pub mod Epochs
pub mod Gas
pub mod Stakers
pub mod BlockPages
pub mod Blocks
pub mod Balances
pub mod Ordinals
pub mod Burn
