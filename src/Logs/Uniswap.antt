-- ===== src/Logs/Uniswap.antt =====
-- The handlers of internal/svc/logs_uniswap.go, with the map of the pairs that they have asked for.
use Prim.Native.Nat.{bit_or}
use explorer_api_gql.Base.{
  ℕ, ◌*◌, ◌%◌, ◌^◌, Bool, true, false, Option, none, some, List, [], ◌∷◌, length, take, drop, ◌||◌,
  ◌==◌, ◌!=◌, if◌then◌else◌,
}
use explorer_api_gql.Types.{Address, u64}
use explorer_api_gql.Logs.Effects.{
  LogRecord, SwapType, swap_mint, swap_burn, swap_sync, uniswap_add, Act, ◌>>=◌, call, return,
  topic, set_bytes,
}

-- `uniswapOrdinalIndex`
unfoldable pub uniswap_ordinal_index : LogRecord → ℕ
uniswap_ordinal_index lr =
    bit_or
      (bit_or (((lr.block.number * 2 ^ 14) % u64) % 2 ^ 63)
        (((lr.log.tx_index * 2 ^ 8) % u64) % 2 ^ 14))
      (lr.log.log_index % 2 ^ 8)

-- `uniswapKnownPairs`, the latest entry first
abbrev pub KnownPairs : Type 0
KnownPairs = List (Address × Bool)

unfoldable pub approved : KnownPairs → Address → Option Bool
approved [] pair = none
approved ((known, apr) ∷ pairs) pair = if known == pair then some apr else approved pairs pair

-- the search of `isKnownUniswapPair` through the list of the repository
pub listed : List Address → Address → Bool
listed [] pair = false
listed (a ∷ l) pair = if a == pair then true else listed l pair

-- `isKnownUniswapPair`. The repository answers with its list, or with an error.
unfoldable pub is_known_uniswap_pair :
    Option (List Address) → Address → KnownPairs → Bool × KnownPairs
is_known_uniswap_pair answer pair pairs = elim (approved pairs pair) [
  | some apr ↦ (apr, pairs)
  | none ↦ elim answer [
    | none ↦ (false, pairs)
    | some l ↦ (listed l pair, (pair, listed l pair) ∷ pairs)
  ]
]

abbrev pub add_swap : LogRecord → SwapType → ℕ → ℕ → ℕ → ℕ → ℕ → ℕ → Act (Unit {0})
add_swap lr type in0 out0 in1 out1 reserve0 reserve1 = call (
    uniswap_add (record {
      ord_index = uniswap_ordinal_index lr;
      block_number = lr.block.number;
      type = type;
      time_stamp = lr.block.time_stamp;
      pair = lr.log.address;
      sender = lr.trx.from;
      hash = lr.trx.hash;
      amount0_in = in0;
      amount0_out = out0;
      amount1_in = in1;
      amount1_out = out1;
      reserve0 = reserve0;
      reserve1 = reserve1;
    }))

-- the `i`-th word of the data
abbrev pub word : ℕ → LogRecord → ℕ
word i lr = set_bytes (take 32 (drop (32 * i) lr.log.bytes))

abbrev pub guarded : Bool → Act (Unit {0}) → Act (Unit {0})
guarded true m = m
guarded false m = return

-- A handler looks the pair up, and only goes on with a known one.
abbrev pub on_known_pair :
    (LogRecord → Act (Unit {0}))
    → Option (List Address)
    → KnownPairs
    → LogRecord
    → Act (Unit {0}) × KnownPairs
on_known_pair body answer pairs lr =
    let (known, pairs') = is_known_uniswap_pair answer lr.log.address pairs in
    (guarded known (body lr), pairs')

-- A swap is stored with the type of a mint.
unfoldable pub swap_body : LogRecord → Act (Unit {0})
swap_body lr = if length lr.log.bytes != 128 || length lr.log.topics != 3 then return else do
  sender ← topic lr 1
  add_swap lr swap_mint (word 0 lr) (word 2 lr) (word 1 lr) (set_bytes (drop 96 lr.log.bytes)) 0 0

unfoldable pub mint_body : LogRecord → Act (Unit {0})
mint_body lr = if length lr.log.bytes != 64 || length lr.log.topics != 2 then return else do
  sender ← topic lr 1
  add_swap lr swap_mint (word 0 lr) 0 (set_bytes (drop 32 lr.log.bytes)) 0 0 0

unfoldable pub burn_body : LogRecord → Act (Unit {0})
burn_body lr = if length lr.log.bytes != 64 || length lr.log.topics != 3 then return else do
  sender ← topic lr 1
  add_swap lr swap_burn 0 (word 0 lr) 0 (set_bytes (drop 32 lr.log.bytes)) 0 0

unfoldable pub sync_body : LogRecord → Act (Unit {0})
sync_body lr =
    if length lr.log.bytes != 64
    then return
    else add_swap lr swap_sync 0 0 0 0 (word 0 lr) (set_bytes (drop 32 lr.log.bytes))

unfoldable pub handle_uniswap_swap :
    Option (List Address) → KnownPairs → LogRecord → Act (Unit {0}) × KnownPairs
handle_uniswap_swap = on_known_pair swap_body

unfoldable pub handle_uniswap_mint :
    Option (List Address) → KnownPairs → LogRecord → Act (Unit {0}) × KnownPairs
handle_uniswap_mint = on_known_pair mint_body

unfoldable pub handle_uniswap_burn :
    Option (List Address) → KnownPairs → LogRecord → Act (Unit {0}) × KnownPairs
handle_uniswap_burn = on_known_pair burn_body

unfoldable pub handle_uniswap_sync :
    Option (List Address) → KnownPairs → LogRecord → Act (Unit {0}) × KnownPairs
handle_uniswap_sync = on_known_pair sync_body
