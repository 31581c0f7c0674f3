-- ===== src/Logs.antt =====
-- The event handlers of internal/svc/logs_*.go. A handler reads the repository, which is a
-- parameter, and its effect is the sequence of calls that write to the repository.
pub mod Effects
pub mod Delegation
pub mod Reward
pub mod Stake
pub mod FMint
pub mod Token
pub mod Uniswap
pub mod Abi
pub mod Decode
pub mod Withdraws
pub mod Batch
pub mod Pairs
pub mod Safe
pub mod Table
pub mod Dispatch
pub mod Done
pub mod Short
mod Tests
