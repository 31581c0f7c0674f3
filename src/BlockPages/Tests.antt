-- ===== src/BlockPages/Tests.antt =====
-- A chain of the blocks 0 to 2, and a ring that they have filled.
use explorer_api_gql.Base.{
  ℕ, ◌+◌, ◌<◌, ◌≤◌, ◌≡◌, refl, arith, inl, true, false, none, some, List, [], ◌∷◌, leb,
  if◌then◌else◌, replicate,
}
use explorer_api_gql.Base.Int.{pos, negsuc}
use explorer_api_gql.Types.{Block}
use explorer_api_gql.Ring.{Ring, new}
use explorer_api_gql.Ring.Recent.{Op, push, run, pushed}
use explorer_api_gql.BlockPages.{
  Tag, latest, earliest, number, hash, Called, loaded, failed, other, blocks, make_blocks_list,
  block_by_tag, pull_blocks, pull_rounds, block_by_number, get_block, find_block,
}
use explorer_api_gql.BlockPages.Chain.{Chain, Nothing, reference}
use explorer_api_gql.BlockPages.Quick.{blocks-eq-reference}

abbrev block : ℕ → Block
block n = record { number = n; time_stamp = 100 + n; txs = [] }

abbrev hash_of : ℕ → ℕ
hash_of n = 7 + n

abbrev node : Tag → Called
node latest = loaded (hash_of 2) (block 2)
node earliest = loaded (hash_of 0) (block 0)
node (number n) = if leb n 2 then loaded (hash_of n) (block n) else failed other
node (hash h) = failed other

no_block : (n : ℕ) → 2 < n → Nothing (node (number n))
no_block n lt = let e : leb n 2 ≡ false = ground arith in rw e (inl (other, refl))

a_block : (n : ℕ) → n ≤ 2 → node (number n) ≡ loaded (hash_of n) (block n)
a_block n le = let e : leb n 2 ≡ true = ground arith in rw e refl

chain : Chain node block hash_of 2
chain = record {
  numbered = λ n. refl;
  hashed = λ n. omega arith;
  bounded = omega arith;
  known = a_block;
  unknown = λ n lt b. no_block n lt;
  top = refl;
  bottom = refl;
}

abbrev ops : List (Op Block)
ops = push (block 0) ∷ push (block 1) ∷ push (block 2) ∷ []

abbrev empty_ring : Ring Block
empty_ring = record { nodes = replicate 75 none; capacity = 75; head = 0; depth = 0 }

blocks-eq-reference_example :
    (blocks node (λ t. true) (run empty_ring ops) none (pos 2) []).0
    ≡ some (reference block 2 none (pos 2))
unfolding new pushed
blocks-eq-reference_example =
    blocks-eq-reference chain refl ops 3 refl (λ t. true) none (pos 2) [] tt tt (omega arith)
      (omega arith) (λ q. (omega arith, omega arith))

-- the two blocks above block 0, the newest first
above :
    (make_blocks_list node (λ t. false) (some 0) (negsuc 1) []).0
    ≡ some (record { collection = block 2 ∷ block 1 ∷ []; is_start = true; is_end = false })
unfolding make_blocks_list block_by_tag pull_blocks pull_rounds block_by_number get_block find_block
above = refl
