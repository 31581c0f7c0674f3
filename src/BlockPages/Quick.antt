-- ===== src/BlockPages/Quick.antt =====
-- A request for blocks, with the quick list of the ring that the block dispatcher fills.
use explorer_api_gql.Base.{
  ℕ, zero, suc, ◌-◌, ◌^◌, ◌≤◌, ◌<◌, ◌≡◌, ◌≢◌, refl, ap, ◌∙◌, Bool, Bool-cases, true, false, inl,
  inr, Option, none, some, List, [], ◌∷◌, arith, take, min, ltb, ltb→lt,
}
use explorer_api_gql.Base.Int.{ℤ, pos, negsuc, magnitude}
use explorer_api_gql.Types.{Hash, Block}
use explorer_api_gql.Ring.{Ring, new, list}
use explorer_api_gql.Ring.Recent.{Op, run, pushed, list-run}
use explorer_api_gql.BlockPages.{
  Tag, Called, Cache, BlockList, block_ring_cache_size, recent, recent_blocks, is_quick, quick_list,
  make_blocks_list, blocks,
}
use explorer_api_gql.BlockPages.Loaded.{Coherent}
use explorer_api_gql.BlockPages.Chain.{Chain, down, reference}
use explorer_api_gql.BlockPages.Agrees.{Within, make-eq-reference}

take_within : {A : Type 0} (n m : ℕ) (xs : List A) → n ≤ m → take n (take m xs) ≡ take n xs
take_within zero m xs h = refl
take_within (suc n) zero xs h = absurd (omega arith)
take_within (suc n) (suc m) [] h = refl
take_within (suc n) (suc m) (x ∷ xs) h = ap (λ l. x ∷ l) (take_within n m xs (omega arith))

blocks_quick :
    (node : Tag → Called) (hit : Tag → Bool) (ring : Ring Block) (num : Option ℕ) (count : ℤ)
    (cache : Cache) (l : BlockList)
    → magnitude count ≢ 0
    → quick_list num count ring ≡ some l
    → (blocks node hit ring num count cache).0 ≡ some l
unfolding blocks
blocks_quick node hit ring num count cache l z e = ground arith

blocks_slow :
    (node : Tag → Called) (hit : Tag → Bool) (ring : Ring Block) (num : Option ℕ) (count : ℤ)
    (cache : Cache)
    → magnitude count ≢ 0
    → is_quick num count ≡ false
    → (blocks node hit ring num count cache).0 ≡ (make_blocks_list node hit num count cache).0
unfolding blocks
blocks_slow node hit ring num count cache z e = ground arith

module _ {node : Tag → Called} {block : ℕ → Block} {hash_of : ℕ → Hash} {h : ℕ}
    (chain : Chain node block hash_of h) {r : Ring Block}
    (fresh : new block_ring_cache_size ≡ some r) (ops : List (Op Block)) (m : ℕ)
    (filled : pushed [] ops ≡ take m (down block (suc h))) where
  quick_top :
      (c : ℕ)
      → suc c ≤ m
      → suc c < block_ring_cache_size
      → list (suc c) (run r ops) ≡ take (suc c) (down block (suc h))
  quick_top c le lt =
      let capped : min (suc c) block_ring_cache_size ≡ suc c = omega arith in
      list-run block_ring_cache_size fresh ops (suc c)
      ∙ ap (λ n. take n (pushed [] ops)) capped
      ∙ ap (take (suc c)) filled
      ∙ take_within (suc c) m (down block (suc h)) le

  more_below :
      (c : ℕ)
      → c ≤ h
      → some (record { collection = take c (down block (suc h)); is_start = true; is_end = false })
        ≡ some (reference block h none (pos c))
  unfolding reference
  more_below c le = let e : ltb h c ≡ false = ground arith in rw e refl

  quick-reference :
      (c : ℕ)
      → suc c ≤ m
      → suc c ≤ h
      → suc c < block_ring_cache_size
      → recent_blocks (suc c) (run r ops) ≡ some (reference block h none (pos (suc c)))
  unfolding recent_blocks reference
  quick-reference c le below lt = ap recent (quick_top c le lt) ∙ more_below (suc c) below

  quick_list-reference :
      (num : Option ℕ) (count : ℤ)
      → magnitude count ≢ 0
      → is_quick num count ≡ true
      → magnitude count ≤ m
      → magnitude count ≤ h
      → quick_list num count (run r ops) ≡ some (reference block h num count)
  quick_list-reference none (pos zero) z q le below = absurd (z refl)
  quick_list-reference none (pos (suc c)) z q le below =
      rw q (quick-reference c le below (ltb→lt (suc c) block_ring_cache_size q))
  quick_list-reference none (negsuc c) z q le below = cc
  quick_list-reference (some num) count z q le below = cc

  -- The node has a chain of height `h`, and the ring was filled with its last `m` blocks. A request
  -- for blocks from the top, from the bottom or from a number of the chain, of a count that is not
  -- zero and at most 2 ^ 31 - 2 in each direction, gets the reference list, whatever the cache has
  -- kept, be it made by the loop or taken from the ring: in the second case the ring has as many
  -- blocks as asked for, and the chain has more.
  pub blocks-eq-reference :
      (hit : Tag → Bool) (num : Option ℕ) (count : ℤ) (cache : Cache)
      → Within num h
      → Coherent node cache
      → magnitude count ≢ 0
      → magnitude count < 2 ^ 31 - 1
      → (is_quick num count ≡ true → (magnitude count ≤ m) × (magnitude count ≤ h))
      → (blocks node hit (run r ops) num count cache).0 ≡ some (reference block h num count)
  blocks-eq-reference hit num count cache w c z b q = elim (Bool-cases (is_quick num count)) [
    | inr slow ↦
        blocks_slow node hit (run r ops) num count cache z slow
        ∙ make-eq-reference chain hit num count cache w c z b
    | inl quick ↦
        blocks_quick node hit (run r ops) num count cache (reference block h num count) z
          (quick_list-reference num count z quick (q quick).0 (q quick).1)
  ]
