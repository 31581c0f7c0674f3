-- ===== src/BlockPages/Agrees.antt =====
-- The lists of blocks are the ones that the chain asks for, and the quick lists are their tops.
use explorer_api_gql.Base.{
  ℕ, zero, suc, ◌+◌, ◌-◌, ◌^◌, ◌≤◌, ◌<◌, ◌≡◌, ◌≢◌, refl, ap, ◌∙◌, Bool, Option, none, some, List,
  [], ◌∷◌, arith, length, take, ltb, leb,
}
use explorer_api_gql.Base.Int.{ℤ, pos, negsuc, magnitude}
use explorer_api_gql.Types.{Hash, Block}
use explorer_api_gql.BlockPages.{Tag, Called, Cache, rounds, make_blocks_list}
use explorer_api_gql.BlockPages.Loaded.{Coherent}
use explorer_api_gql.BlockPages.Listed.{without_cursor}
use explorer_api_gql.BlockPages.Chain.{
  Chain, down, up, reference, length-down, length-up, down-Trail, up-Trail, tag_known, tag_top,
  tag_bottom,
}
use explorer_api_gql.BlockPages.Made.{turn, closed, make-Trail}

rounds_small : (n : ℕ) → n < 2 ^ 31 → rounds n ≡ n
rounds_small n h = ground arith

rounds_next : (n : ℕ) → suc n < 2 ^ 31 → rounds (n + 1) ≡ suc n
rounds_next n h = ground arith

listed_none :
    (node : Tag → Called) (count : ℤ) (blks : List Block)
    → without_cursor node none count blks ≡ blks
listed_none node count [] = refl
listed_none node count (blk ∷ blks) = ap (λ l. blk ∷ l) (listed_none node count blks)

-- the same blocks and the same mark make the same list
same_list :
    (num : Option ℕ) (count : ℤ) {l l' : List Block} {e e' : Bool}
    → l ≡ l'
    → e ≡ e'
    → some (turn num count (closed num count l e)) ≡ some (turn num count (closed num count l' e'))
same_list num count {l} {l'} {e} {e'} p q =
    ap (λ k. some (turn num count (closed num count k e))) p
    ∙ ap (λ b. some (turn num count (closed num count l' b))) q

leb-suc : (n h k : ℕ) → n ≡ h → leb n k ≡ ltb h (suc k)
leb-suc n h k e = ground arith

abbrev pub Within : Option ℕ → ℕ → Type 0
Within none h = Unit {0}
Within (some num) h = num ≤ h

module _ {node : Tag → Called} {block : ℕ → Block} {hash_of : ℕ → Hash} {h : ℕ}
    (chain : Chain node block hash_of h) where
  drop_cursor :
      (count : ℤ) (num : ℕ) (blks : List Block)
      → without_cursor node (some num) count (block num ∷ blks)
        ≡ without_cursor node (some num) count blks
  drop_cursor count num blks = let e = chain.numbered num in ground arith

  keep_other :
      (count : ℤ) (num n : ℕ) (blks : List Block)
      → n ≢ num
      → without_cursor node (some num) count (block n ∷ blks)
        ≡ block n ∷ without_cursor node (some num) count blks
  keep_other count num n blks d = let e = chain.numbered n in ground arith

  listed_down :
      (count : ℤ) (num c n : ℕ)
      → n ≤ num
      → without_cursor node (some num) count (take c (down block n)) ≡ take c (down block n)
  listed_down count num zero n le = refl
  listed_down count num (suc c) zero le = refl
  listed_down count num (suc c) (suc n) le =
      keep_other count num n (take c (down block n)) (omega arith)
      ∙ ap (λ l. block n ∷ l) (listed_down count num c n (omega arith))

  listed_up :
      (count : ℤ) (num c n m : ℕ)
      → num < n
      → without_cursor node (some num) count (take c (up block n m)) ≡ take c (up block n m)
  listed_up count num zero n m lt = refl
  listed_up count num (suc c) n zero lt = refl
  listed_up count num (suc c) n (suc m) lt =
      keep_other count num n (take c (up block (suc n) m)) (omega arith)
      ∙ ap (λ l. block n ∷ l) (listed_up count num c (suc n) m (omega arith))

  -- On a chain of height `h`, with a cache that holds no other blocks, and a count of at most
  -- 2 ^ 31 - 2 in each direction but not zero, the list from the top, from the bottom, or from a number
  -- of the chain is the reference list, whatever the cache has kept of its entries: its blocks,
  -- their order and both marks.
  pub make-eq-reference :
      (hit : Tag → Bool) (num : Option ℕ) (count : ℤ) (cache : Cache)
      → Within num h
      → Coherent node cache
      → magnitude count ≢ 0
      → magnitude count < 2 ^ 31 - 1
      → (make_blocks_list node hit num count cache).0 ≡ some (reference block h num count)
  unfolding reference
  make-eq-reference hit none (pos zero) cache w c z b = absurd (z refl)
  make-eq-reference hit none (pos (suc k)) cache w c z b =
      make-Trail node hit none (pos (suc k)) k (block h) (down block h) cache
        (rounds_small (suc k) (omega arith)) (tag_top chain)
        (down-Trail chain none k h (omega arith)) c
      ∙ same_list none (pos (suc k))
          (listed_none node (pos (suc k)) (take (suc k) (down block (suc h))))
          (leb-suc (length (down block h)) h k (length-down block h))
  make-eq-reference hit none (negsuc k) cache w c z b =
      make-Trail node hit none (negsuc k) k (block 0) (up block 1 h) cache
        (rounds_small (suc k) (omega arith)) (tag_bottom chain)
        (up-Trail chain none k 0 h (omega arith)) c
      ∙ same_list none (negsuc k) (listed_none node (negsuc k) (take (suc k) (up block 0 (suc h))))
          (leb-suc (length (up block 1 h)) h k (length-up block 1 h))
  make-eq-reference hit (some num) (pos zero) cache w c z b = absurd (z refl)
  make-eq-reference hit (some num) (pos (suc k)) cache w c z b =
      make-Trail node hit (some num) (pos (suc k)) (suc k) (block num) (down block num) cache
        (rounds_next (suc k) (omega arith)) (tag_known chain num w)
        (down-Trail chain (some num) k num w) c
      ∙ same_list (some num) (pos (suc k))
          (drop_cursor (pos (suc k)) num (take (suc k) (down block num))
            ∙ listed_down (pos (suc k)) num (suc k) num (omega arith))
          (ap (λ n. leb n (suc k)) (length-down block num))
  make-eq-reference hit (some num) (negsuc k) cache w c z b =
      make-Trail node hit (some num) (negsuc k) (suc k) (block num) (up block (suc num) (h - num))
        cache (rounds_next (suc k) (omega arith)) (tag_known chain num w)
        (up-Trail chain (some num) k num (h - num) (omega arith)) c
      ∙ same_list (some num) (negsuc k)
          (drop_cursor (negsuc k) num (take (suc k) (up block (suc num) (h - num)))
            ∙ listed_up (negsuc k) num (suc k) (suc num) (h - num) (omega arith))
          (ap (λ n. leb n (suc k)) (length-up block (suc num) (h - num)))
