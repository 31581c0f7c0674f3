-- ===== src/BlockPages.antt =====
-- The lists of blocks of internal/repository/block.go, over the node (internal/repository/rpc/block.go)
-- and the caches of internal/repository/cache/{block,blk_list}.go. What the node answers, and which
-- entries the cache has kept, are parameters; the chain does not move while a list is made.
pub mod Loaded
pub mod Listed
pub mod Chain
pub mod Made
pub mod Agrees
pub mod Quick
mod Tests
use explorer_api_gql.Base.{
  ℕ, zero, suc, ◌+◌, ◌-◌, ◌%◌, ◌^◌, Bool, true, false, ◌&&◌, ◌||◌, Option, none, some, List, [],
  ◌∷◌, ◌++◌, reverse, length, ltb, ◌==◌, ◌!=◌, if◌then◌else◌,
}
use explorer_api_gql.Base.Int.{ℤ, positive, negative, magnitude}
use explorer_api_gql.Types.{Hash, Block, u64}
use explorer_api_gql.Ring.{Ring, list}

-- `ErrNoResult` of the client, `ErrBlockNotFound`, and all other errors
pub data Failure : Type 0 where
  no_result block_not_found other : Failure

-- what is asked of the node: a tag, an encoded number, or a hash
pub data Tag : Type 0 where
  latest earliest : Tag
  number : ℕ → Tag
  hash : Hash → Tag

-- a call of the node: an error, or the hash and the rest of a block, zero where there is none
pub data Called : Type 0 where
  failed : Failure → Called
  loaded : Hash → Block → Called

pub data Reply : Type 0 where
  found : Block → Reply
  error : Failure → Reply

-- `Block` of the node client
abbrev pub rpc_block : Called → Reply
rpc_block (failed e) = error e
rpc_block (loaded h blk) = if blk.number == 0 && h == 0 then error other else found blk

-- `BlockByHash` of the node client
abbrev pub rpc_block_by_hash : Called → Reply
rpc_block_by_hash (failed e) = error e
rpc_block_by_hash (loaded h blk) = if blk.number == 0 then error other else found blk

abbrev pub not_found : Failure → Failure
not_found no_result = block_not_found
not_found block_not_found = block_not_found
not_found other = other

abbrev pub translate : Reply → Reply
translate (found blk) = found blk
translate (error e) = error (not_found e)

abbrev pub same_tag : Tag → Tag → Bool
same_tag latest latest = true
same_tag earliest earliest = true
same_tag (number n) (number m) = n == m
same_tag (hash n) (hash m) = n == m
same_tag _ _ = false

-- the entries of the cache, the latest first
abbrev pub Cache : Type 0
Cache = List (Tag × Block)

pub find_block : Tag → Cache → Option Block
find_block tag [] = none
find_block tag ((key, blk) ∷ cache) = if same_tag key tag then some blk else find_block tag cache

-- `PullBlock`; `hit` says whether the cache has kept the entry.
abbrev pub pull_block : Bool → Tag → Cache → Option Block
pull_block hit tag cache = if hit then find_block tag cache else none

-- what `getBlock` does with the answer of its pull function
abbrev pub pulled : Tag → Reply → Cache → Reply × Cache
pulled tag (found blk) cache = (found blk, (tag, blk) ∷ cache)
pulled tag (error e) cache = (error (not_found e), cache)

abbrev pub cached_block : Option Block → Tag → Reply → Cache → Reply × Cache
cached_block (some blk) tag reply cache = (found blk, cache)
cached_block none tag reply cache = pulled tag reply cache

-- `getBlock`, with the answer of its pull function
pub get_block : Bool → Tag → Reply → Cache → Reply × Cache
get_block hit tag reply cache = cached_block (pull_block hit tag cache) tag reply cache

-- `BlockList`
pub record BlockList : Type 0 where
  pub collection : List Block
  pub is_start : Bool
  pub is_end : Bool

-- The swaps of elements reverse the slice.
abbrev pub reverse_blocks : BlockList → BlockList
reverse_blocks b =
    if ltb (length b.collection) 2 then b else record b { collection = reverse b.collection }

-- a pending block goes to the list unless it is the one of the cursor
abbrev pub is_listed : Option ℕ → Block → Bool
is_listed none current = true
is_listed (some num) current = current.number != num

abbrev pub append_block : Option ℕ → Block → List Block → List Block
append_block num current collection =
    if is_listed num current then collection ++ current ∷ [] else collection

-- the number of the next block, in 64 bits
abbrev pub next_number : ℤ → Block → ℕ
next_number count current =
    if positive count then (current.number + u64 - 1) % u64 else (current.number + 1) % u64

-- the variables of the loop of `pullBlocks`
pub record Scan : Type 0 where
  pub next : Option Block
  pub current : Block
  pub collection : List Block
  pub cache : Cache

-- the first part of a round: a block that waits takes the place of the current one
abbrev pub use_next : Option ℕ → Option Block → Scan → Scan
use_next num none s = s
use_next num (some blk) s = record s {
  current = blk;
  collection = append_block num s.current s.collection;
}

-- the rounds of the loop for `toPull`, an int32 that may have wrapped
abbrev pub rounds : ℕ → ℕ
rounds n = if ltb n (2 ^ 31) then n else 0

abbrev pub to_pull : Option ℕ → ℤ → ℕ
to_pull none count = rounds (magnitude count)
to_pull (some num) count = rounds (magnitude count + 1)

abbrev pub on_edge : ℤ → Option Block → BlockList → BlockList
on_edge count none list = record list {
  is_start = list.is_start || negative count;
  is_end = list.is_end || positive count;
}
on_edge count (some _) list = list

-- `blockByTag`
pub block_by_tag : (Tag → Called) → Tag → Reply
block_by_tag node tag = translate (rpc_block (node tag))

-- `initBlockList`
abbrev pub first_tag : Option ℕ → ℤ → Tag
first_tag none count = if negative count then earliest else latest
first_tag (some num) count = number num

abbrev pub no_number : Option ℕ → Bool
no_number none = true
no_number (some num) = false

abbrev pub marked_list : Option ℕ → ℤ → BlockList
marked_list num count = record {
  collection = [];
  is_start = no_number num && positive count;
  is_end = no_number num && negative count;
}

abbrev pub turned_list : ℤ → BlockList × Cache → Option BlockList × Cache
turned_list count (list, cache) =
    (some (if negative count then reverse_blocks list else list), cache)

module _ (node : Tag → Called) (hit : Tag → Bool) where
  -- `BlockByNumber`
  pub block_by_number : Option ℕ → Cache → Reply × Cache
  block_by_number none cache = (block_by_tag node latest, cache)
  block_by_number (some num) cache =
      get_block (hit (number num)) (number num) (block_by_tag node (number num)) cache

  -- `BlockByHash`
  pub block_by_hash : Option Hash → Cache → Reply × Cache
  block_by_hash none cache = (block_by_tag node latest, cache)
  block_by_hash (some h) cache =
      get_block (hit (hash h)) (hash h) (rpc_block_by_hash (node (hash h))) cache

  -- The loop of `pullBlocks`; an error ends it with no block waiting.
  pub pull_rounds : Option ℕ → ℤ → ℕ → Scan → Scan
  pull_rounds num count zero s = s
  pull_rounds num count (suc left) s =
      let s' = use_next num s.next s in
      let (reply, cache) = block_by_number (some (next_number count s'.current)) s'.cache in
      elim reply [
        | found blk ↦ pull_rounds num count left (record s' { next = some blk; cache = cache })
        | error e ↦ record s' { next = none; cache = cache }
      ]

  -- `pullBlocks`, with `checkBlocksListBoundary`
  pub pull_blocks : Option ℕ → ℤ → ℕ → Block → BlockList → Cache → BlockList × Cache
  pull_blocks num count left first list cache =
      let s =
        pull_rounds num count left
          (record { next = none; current = first; collection = list.collection; cache = cache }) in
      (
        on_edge count s.next (record list { collection = append_block num s.current s.collection }),
        s.cache,
      )

  abbrev pub listed_from : Option ℕ → ℤ → Reply → Cache → Option BlockList × Cache
  listed_from num count (error e) cache = (none, cache)
  listed_from num count (found first) cache =
      turned_list count
        (pull_blocks num count (to_pull num count) first (marked_list num count) cache)

  -- `makeBlocksList`
  pub make_blocks_list : Option ℕ → ℤ → Cache → Option BlockList × Cache
  make_blocks_list num count cache =
      listed_from num count (block_by_tag node (first_tag num count)) cache

-- `BlockRingCacheSize`
abbrev pub block_ring_cache_size : ℕ
block_ring_cache_size = 75

abbrev pub recent : List Block → Option BlockList
recent [] = none
recent (blk ∷ blks) = some (record { collection = blk ∷ blks; is_start = true; is_end = false })

-- `RecentBlocks`
pub recent_blocks : ℕ → Ring Block → Option BlockList
recent_blocks length ring = recent (list length ring)

abbrev pub is_quick : Option ℕ → ℤ → Bool
is_quick none count = positive count && ltb (magnitude count) block_ring_cache_size
is_quick (some num) count = false

abbrev pub quick_list : Option ℕ → ℤ → Ring Block → Option BlockList
quick_list num count ring =
    if is_quick num count then recent_blocks (magnitude count) ring else none

-- `Blocks`
pub blocks :
    (Tag → Called) → (Tag → Bool) → Ring Block → Option ℕ → ℤ → Cache → Option BlockList × Cache
blocks node hit ring num count cache =
    if magnitude count == 0 then (none, cache) else elim (quick_list num count ring) [
      | some list ↦ (some list, cache)
      | none ↦ make_blocks_list node hit num count cache
    ]
