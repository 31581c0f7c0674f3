-- ===== src/BlockPages/Listed.antt =====
-- What the lists of blocks hold, over a node that has the blocks of a chain.
use mathlib.Core.List.{append-nil, append_assoc}
use explorer_api_gql.Base.{
  ℕ, zero, suc, ◌≡◌, refl, sym, ap, ◌∙◌, Option, none, some, List, [], ◌∷◌, ◌++◌, get_elem?, take,
  if◌then◌else◌, Bool-cases, Bool, inl, inr,
}
use explorer_api_gql.Base.Int.{ℤ}
use explorer_api_gql.Types.{Block}
use explorer_api_gql.BlockPages.{
  Tag, Called, found, error, number, Cache, Scan, is_listed, append_block, next_number,
  block_by_tag, block_by_number, pull_rounds, Failure,
}
use explorer_api_gql.BlockPages.Loaded.{Coherent, by_number-Gives}

take_nil : (n : ℕ) → take {A = Block} n [] ≡ []
take_nil zero = refl
take_nil (suc n) = refl

module _ (node : Tag → Called) (num : Option ℕ) (count : ℤ) where
  -- the blocks that follow one in the direction of the count, until an error of the node
  abbrev pub Trail : Block → List Block → Type 0
  Trail current [] =
      (e : Failure) × (block_by_tag node (number (next_number count current)) ≡ error e)
  Trail current (blk ∷ blks) =
      (block_by_tag node (number (next_number count current)) ≡ found blk) × Trail blk blks

  abbrev pub without_cursor : List Block → List Block
  without_cursor [] = []
  without_cursor (blk ∷ blks) =
      if is_listed num blk then blk ∷ without_cursor blks else without_cursor blks

  abbrev pub listing : Scan → List Block
  listing s = append_block num s.current s.collection

  append_listed :
      (blk : Block) (collection blks : List Block)
      → append_block num blk collection ++ without_cursor blks
        ≡ collection ++ without_cursor (blk ∷ blks)
  append_listed blk collection blks = elim (Bool-cases (is_listed num blk)) [
    | inl s ↦ rw s (append_assoc collection (blk ∷ []) (without_cursor blks))
    | inr s ↦ rw s refl
  ]

  append_one :
      (blk : Block) (collection : List Block)
      → append_block num blk collection ≡ collection ++ without_cursor (blk ∷ [])
  append_one blk collection =
      sym (append-nil (append_block num blk collection)) ∙ append_listed blk collection []

  -- The loop, from the current block `blk` with none waiting, when `k` and one rounds are left.
  pub record Pulled (k : ℕ) (blk : Block) (collection blks : List Block) (s : Scan) : Type 0 where
    pub all : listing s ≡ collection ++ without_cursor (take (suc k) (blk ∷ blks))
    pub waiting : s.next ≡ get_elem? blks k
    pub coherent : Coherent node s.cache

  module _ (hit : Tag → Bool) where
    abbrev from : ℕ → Block → List Block → Cache → Scan
    from k blk collection cache =
        pull_rounds node hit num count k
          (record { next = none; current = blk; collection = collection; cache = cache })

    round_fails :
        (k : ℕ) (blk : Block) (collection : List Block) (cache : Cache) (e : Failure)
        → (block_by_number node hit (some (next_number count blk)) cache).0 ≡ error e
        → from (suc k) blk collection cache ≡ record {
          next = none;
          current = blk;
          collection = collection;
          cache = (block_by_number node hit (some (next_number count blk)) cache).1;
        }
    unfolding pull_rounds
    round_fails k blk collection cache e h = rw (h, pull_rounds) refl

    round_finds :
        (k : ℕ) (blk : Block) (collection : List Block) (cache : Cache) (b : Block)
        → (block_by_number node hit (some (next_number count blk)) cache).0 ≡ found b
        → from (suc k) blk collection cache
          ≡ pull_rounds node hit num count k (record {
            next = some b;
            current = blk;
            collection = collection;
            cache = (block_by_number node hit (some (next_number count blk)) cache).1;
          })
    unfolding pull_rounds
    round_finds k blk collection cache b h = rw (h, pull_rounds) refl

    round_moves :
        (k : ℕ) (blk b : Block) (collection : List Block) (cache : Cache)
        → pull_rounds node hit num count
            (suc k)
            (record { next = some b; current = blk; collection = collection; cache = cache })
          ≡ from (suc k) b (append_block num blk collection) cache
    unfolding pull_rounds
    round_moves k blk b collection cache = refl

    rounds_end : (s : Scan) → pull_rounds node hit num count zero s ≡ s
    unfolding pull_rounds
    rounds_end s = refl

    pub rounds-Pulled :
        (k : ℕ) (blk : Block) (collection blks : List Block) (cache : Cache)
        → Trail blk blks
        → Coherent node cache
        → Pulled k blk collection blks (from (suc k) blk collection cache)
    rounds-Pulled k blk collection [] cache (e, h) c =
        let g = by_number-Gives node hit (next_number count blk) cache c in
        rw (round_fails k blk collection cache e (g.answer ∙ h)) (record {
          all =
              append_one blk collection
              ∙ ap (λ l. collection ++ without_cursor (blk ∷ l)) (sym (take_nil k));
          waiting = refl;
          coherent = g.coherent;
        })
    rounds-Pulled zero blk collection (b ∷ blks) cache (h, t) c =
        let g = by_number-Gives node hit (next_number count blk) cache c in
        rw (round_finds zero blk collection cache b (g.answer ∙ h), rounds_end _)
          (record { all = append_one blk collection; waiting = refl; coherent = g.coherent })
    rounds-Pulled (suc k) blk collection (b ∷ blks) cache (h, t) c =
        let g = by_number-Gives node hit (next_number count blk) cache c in
        let cache' = (block_by_number node hit (some (next_number count blk)) cache).1 in
        let r = rounds-Pulled k b (append_block num blk collection) blks cache' t g.coherent in
        rw
          (
            round_finds (suc k) blk collection cache b (g.answer ∙ h),
            round_moves k blk b collection cache',
          )
          (record {
            all = r.all ∙ append_listed blk collection (take (suc k) (b ∷ blks));
            waiting = r.waiting;
            coherent = r.coherent;
          })
