-- ===== src/BlockPages/Chain.antt =====
-- A chain of blocks on the node, and the lists that are to be made of it.
use explorer_api_gql.Base.{
  ℕ, zero, suc, ◌+◌, ◌-◌, ◌≤◌, ◌<◌, ◌≡◌, refl, ap, ◌⊎◌, inl, inr, true, false, Option, none, some,
  List, [], ◌∷◌, arith, length, take, reverse, ltb, leb, ◌%◌,
}
use explorer_api_gql.Base.Int.{ℤ, pos, negsuc}
use explorer_api_gql.Types.{Hash, Block, u64}
use explorer_api_gql.BlockPages.{
  Failure, Tag, latest, earliest, number, Called, failed, loaded, found, error, block_by_tag,
  BlockList, not_found, other,
}
use explorer_api_gql.BlockPages.Listed.{Trail}

-- the node has no block for what it is asked: it fails, or gives a block that is all zero
abbrev pub Nothing : Called → Type 0
Nothing c =
    ((e : Failure) × (c ≡ failed e)) ⊎ ((blk : Block) × (c ≡ loaded 0 blk) × (blk.number ≡ 0))

-- The node has the blocks 0 to `h`, each with a hash other than zero.
pub record Chain (node : Tag → Called) (block : ℕ → Block) (hash_of : ℕ → Hash) (h : ℕ)
    : Type 0 where
  pub numbered : (n : ℕ) → (block n).number ≡ n
  pub hashed : (n : ℕ) → 0 < hash_of n
  pub bounded : h < u64 - 1
  pub known : (n : ℕ) → n ≤ h → node (number n) ≡ loaded (hash_of n) (block n)
  pub unknown : (n : ℕ) → h < n → n < u64 → Nothing (node (number n))
  pub top : node latest ≡ loaded (hash_of h) (block h)
  pub bottom : node earliest ≡ loaded (hash_of 0) (block 0)

module _ (block : ℕ → Block) where
  -- the `n` blocks below number `n`, the newest first
  abbrev pub down : ℕ → List Block
  down zero = []
  down (suc n) = block n ∷ down n

  -- `m` blocks from number `n` on
  abbrev pub up : ℕ → ℕ → List Block
  up n zero = []
  up n (suc m) = block n ∷ up (suc n) m

  -- The list that is to be made on a chain of height `h`: without a number, from the top or the
  -- bottom of the chain; with one, the blocks below or above it. The newest block comes first.
  unfoldable pub reference : ℕ → Option ℕ → ℤ → BlockList
  reference h none (pos c) = record {
    collection = take c (down (suc h));
    is_start = true;
    is_end = ltb h c;
  }
  reference h none (negsuc c) = record {
    collection = reverse (take (suc c) (up 0 (suc h)));
    is_start = ltb h (suc c);
    is_end = true;
  }
  reference h (some num) (pos c) = record {
    collection = take c (down num);
    is_start = false;
    is_end = leb num c;
  }
  reference h (some num) (negsuc c) = record {
    collection = reverse (take (suc c) (up (suc num) (h - num)));
    is_start = leb (h - num) (suc c);
    is_end = false;
  }

  pub length-down : (n : ℕ) → length (down n) ≡ n
  length-down zero = refl
  length-down (suc n) = ap suc (length-down n)

  pub length-up : (n m : ℕ) → length (up n m) ≡ m
  length-up n zero = refl
  length-up n (suc m) = ap suc (length-up (suc n) m)

module _ {node : Tag → Called} {block : ℕ → Block} {hash_of : ℕ → Hash} {h : ℕ}
    (chain : Chain node block hash_of h) where
  tag_found :
      (n : ℕ) (tag : Tag)
      → node tag ≡ loaded (hash_of n) (block n)
      → block_by_tag node tag ≡ found (block n)
  unfolding block_by_tag
  tag_found n tag e = let positive_hash = chain.hashed n in rw e (ground arith)

  pub tag_known : (n : ℕ) → n ≤ h → block_by_tag node (number n) ≡ found (block n)
  tag_known n le = tag_found n (number n) (chain.known n le)

  pub tag_top : block_by_tag node latest ≡ found (block h)
  tag_top = tag_found h latest chain.top

  pub tag_bottom : block_by_tag node earliest ≡ found (block 0)
  tag_bottom = tag_found 0 earliest chain.bottom

  Nothing-errs :
      (tag : Tag) → Nothing (node tag) → (e : Failure) × (block_by_tag node tag ≡ error e)
  unfolding block_by_tag
  Nothing-errs tag (inl (e, p)) = (not_found e, rw p refl)
  Nothing-errs tag (inr (blk, p, z)) = (other, rw p (ground arith))

  pub tag_unknown :
      (n : ℕ) → h < n → n < u64 → (e : Failure) × (block_by_tag node (number n) ≡ error e)
  tag_unknown n lt b = Nothing-errs (number n) (chain.unknown n lt b)

  before : (n m : ℕ) → m ≡ suc n → m < u64 → (m + u64 - 1) % u64 ≡ n
  before n m e b = omega arith

  pub down-Trail :
      (num : Option ℕ) (c n : ℕ) → n ≤ h → Trail node num (pos (suc c)) (block n) (down block n)
  down-Trail num c zero le =
      rw (chain.numbered 0) (tag_unknown (u64 - 1) chain.bounded (omega arith))
  down-Trail num c (suc n) le =
      let small = chain.bounded in
      (
        rw
            (before n (block (suc n)).number (chain.numbered (suc n))
              (omega (arith, chain.numbered (suc n))))
            (tag_known n (omega arith)),
        down-Trail num c n (omega arith),
      )

  after : (n m : ℕ) → m ≡ n → n + 1 < u64 → (m + 1) % u64 ≡ suc n
  after n m e b = omega arith

  pub up-Trail :
      (num : Option ℕ) (c n m : ℕ)
      → n + m ≡ h
      → Trail node num (negsuc c) (block n) (up block (suc n) m)
  up-Trail num c n zero e =
      let small = chain.bounded in
      rw (after n (block n).number (chain.numbered n) (omega arith))
        (tag_unknown (suc n) (omega arith) (omega arith))
  up-Trail num c n (suc m) e =
      let small = chain.bounded in
      (
        rw (after n (block n).number (chain.numbered n) (omega arith))
            (tag_known (suc n) (omega arith)),
        up-Trail num c (suc n) m (omega arith),
      )
