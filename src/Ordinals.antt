-- ===== src/Ordinals.antt =====
-- The ordinal indexes, by which the lists of the database are sorted: Uid of
-- internal/types/transaction.go, and OrdinalIndex of internal/types/{delegation,withdraw,reward}.go.
-- A mask of the lowest `k` bits is a remainder by 2 ^ k. The first eight bytes of a hash are its
-- quotient by 2 ^ 192.
pub mod Ordered
mod Tests
use Prim.Native.Nat.{bit_or}
use explorer_api_gql.Base.{ℕ, ◌*◌, ◌/◌, ◌%◌, ◌^◌, Option, none, some}
use explorer_api_gql.Types.{Hash, Transaction, u64}
use explorer_api_gql.Logs.Effects.{Delegation, WithdrawRequest, RewardClaim}

abbrev pub first_bytes : Hash → ℕ
first_bytes hash = hash / 2 ^ 192

-- The mask of 63 bits only covers the index.
pub processed_uid : ℕ → ℕ → ℕ
processed_uid number index = bit_or ((number * 2 ^ 14) % u64) ((index % 2 ^ 14) % 2 ^ 63)

abbrev pub uid_of : Hash → Option ℕ → Option ℕ → Option ℕ
uid_of hash none number = some (first_bytes hash % 2 ^ 63)
uid_of hash (some index) none = none
uid_of hash (some index) (some number) = some (processed_uid number index)

-- `Uid`; it panics, `none`, for an index without the number of a block.
abbrev pub uid : Transaction → Option ℕ
uid trx = uid_of trx.hash trx.index trx.block_number

-- `OrdinalIndex` of a delegation
pub delegation_ordinal_index : Delegation → ℕ
delegation_ordinal_index dl =
    bit_or
      (bit_or (((dl.created_time % 2 ^ 39) * 2 ^ 24) % u64)
        ((((dl.to_staker_id % u64) % 2 ^ 12) * 2 ^ 12) % u64))
      (first_bytes dl.transaction % 2 ^ 12)

-- `OrdinalIndex` of a withdraw request
pub withdraw_ordinal_index : WithdrawRequest → ℕ
withdraw_ordinal_index wr =
    bit_or
      (bit_or (((wr.created_time % 2 ^ 40) * 2 ^ 24) % u64)
        ((((wr.staker_id % u64) % 2 ^ 12) * 2 ^ 12) % u64))
      (first_bytes wr.request_trx % 2 ^ 12)

-- `OrdinalIndex` of a reward claim
pub reward_ordinal_index : RewardClaim → ℕ
reward_ordinal_index rwc =
    bit_or (((rwc.claimed % 2 ^ 39) * 2 ^ 24) % u64) (first_bytes rwc.claim_trx % 2 ^ 24)
