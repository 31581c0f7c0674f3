-- ===== src/BlockPages/Made.antt =====
-- The lists that the loop makes are those of the chain.
use explorer_api_gql.Base.{
  ℕ, zero, suc, ◌≡◌, refl, ap, ◌∙◌, Bool, ◌&&◌, ◌||◌, Option, none, some, List, [], ◌∷◌, arith,
  length, get_elem?, take, reverse, ltb, leb, if◌then◌else◌, Bool-cases, inl, inr, ltb→lt,
}
use explorer_api_gql.Base.Int.{ℤ, positive, negative}
use explorer_api_gql.Types.{Block}
use explorer_api_gql.BlockPages.{
  Tag, Called, found, block_by_tag, Cache, BlockList, reverse_blocks, on_edge, first_tag,
  marked_list, pull_blocks, to_pull, turned_list, listed_from, make_blocks_list, pull_rounds,
}
use explorer_api_gql.BlockPages.Loaded.{Coherent}
use explorer_api_gql.BlockPages.Listed.{Trail, without_cursor, rounds-Pulled, listing}
use explorer_api_gql.Paging.Load.{reverse_short}

reverse_all : (b : BlockList) → reverse_blocks b ≡ record b { collection = reverse b.collection }
reverse_all b = elim (Bool-cases (ltb (length b.collection) 2)) [
  | inl s ↦ rw s (rw (reverse_short b.collection (ltb→lt (length b.collection) 2 s)) refl)
  | inr s ↦ rw s refl
]

-- what the marks become when `blks` are the blocks that follow
edge_marks :
    (count : ℤ) (blks : List Block) (k : ℕ) (list : BlockList)
    → on_edge count (get_elem? blks k) list ≡ record list {
      is_start = list.is_start || (negative count && leb (length blks) k);
      is_end = list.is_end || (positive count && leb (length blks) k);
    }
edge_marks count [] k list = ground arith
edge_marks count (blk ∷ blks) zero list = ground arith
edge_marks count (blk ∷ blks) (suc k) list = edge_marks count blks k list ∙ ground arith

module _ (num : Option ℕ) (count : ℤ) where
  -- the list of `marked_list` with these blocks, and the marks of an edge `edge`
  abbrev pub closed : List Block → Bool → BlockList
  closed collection edge = record {
    collection = collection;
    is_start = (marked_list num count).is_start || (negative count && edge);
    is_end = (marked_list num count).is_end || (positive count && edge);
  }

  abbrev pub turn : BlockList → BlockList
  turn list = if negative count then record list { collection = reverse list.collection } else list

module _ (node : Tag → Called) (hit : Tag → Bool) (num : Option ℕ) (count : ℤ) where
  -- What `pullBlocks` returns when blocks follow the first one.
  pull_blocks-Trail :
      (k : ℕ) (first : Block) (blks : List Block) (cache : Cache)
      → Trail node num count first blks
      → Coherent node cache
      → (pull_blocks node hit num count (suc k) first (marked_list num count) cache).0
        ≡ closed num count
            (without_cursor node num count (take (suc k) (first ∷ blks)))
            (leb (length blks) k)
  unfolding pull_blocks
  pull_blocks-Trail k first blks cache t c =
      let s =
        pull_rounds node hit num count (suc k)
          (record { next = none; current = first; collection = []; cache = cache }) in
      let r = rounds-Pulled node num count hit k first [] blks cache t c in
      let list : BlockList = record (marked_list num count) {
        collection = listing node num count s;
      } in
      ap (λ o. on_edge count o list) r.waiting
      ∙ edge_marks count blks k list
      ∙ ap (λ l. closed num count l (leb (length blks) k)) r.all

  turned_eq : (r : BlockList × Cache) → (turned_list count r).0 ≡ some (turn num count r.0)
  turned_eq r = elim (Bool-cases (negative count)) [
    | inl s ↦ rw s (ap some (reverse_all r.0))
    | inr s ↦ rw s refl
  ]

  -- The list that is made, when the first block and those that follow are known.
  pub make-Trail :
      (k : ℕ) (first : Block) (blks : List Block) (cache : Cache)
      → to_pull num count ≡ suc k
      → block_by_tag node (first_tag num count) ≡ found first
      → Trail node num count first blks
      → Coherent node cache
      → (make_blocks_list node hit num count cache).0
        ≡ some (
            turn num count (
              closed num count
                (without_cursor node num count (take (suc k) (first ∷ blks)))
                (leb (length blks) k)))
  unfolding make_blocks_list
  make-Trail k first blks cache e f t c =
      ap (λ r. (listed_from node hit num count r cache).0) f
      ∙ ap
          (λ n.
            (turned_list count
              (pull_blocks node hit num count n first (marked_list num count) cache)).0)
          e
      ∙ turned_eq (pull_blocks node hit num count (suc k) first (marked_list num count) cache)
      ∙ ap (λ l. some (turn num count l)) (pull_blocks-Trail k first blks cache t c)
