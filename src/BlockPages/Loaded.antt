-- ===== src/BlockPages/Loaded.antt =====
-- What is loaded by number, whatever the cache has kept.
use explorer_api_gql.Base.{
  ℕ, ◌≡◌, refl, sym, ap, ◌∙◌, Bool, Bool-cases, true, false, inl, inr, Option, none, some, [], ◌∷◌,
  arith, ==_iff,
}
use explorer_api_gql.BlockPages.{
  no_result, block_not_found, other, Tag, number, Called, Reply, found, error, rpc_block, translate,
  same_tag, Cache, find_block, pull_block, pulled, cached_block, get_block, block_by_tag,
  block_by_number,
}
use explorer_api_gql.Types.{Block}

module _ (node : Tag → Called) where
  -- an entry of the cache under a number is what the node answers for it
  abbrev pub Agrees : Tag → Block → Type 0
  Agrees tag blk =
      (n : ℕ) → same_tag tag (number n) ≡ true → block_by_tag node (number n) ≡ found blk

  abbrev pub Coherent : Cache → Type 0
  Coherent [] = Unit {0}
  Coherent ((tag, blk) ∷ cache) = Agrees tag blk × Coherent cache

  find-Coherent :
      (n : ℕ) (cache : Cache) (blk : Block)
      → Coherent cache
      → find_block (number n) cache ≡ some blk
      → block_by_tag node (number n) ≡ found blk
  unfolding find_block
  find-Coherent n [] blk c e = cc
  find-Coherent n ((tag, b) ∷ cache) blk c e = elim (Bool-cases (same_tag tag (number n))) [
    | inl s ↦ c.0 n s ∙ ground arith
    | inr s ↦ find-Coherent n cache blk c.1 (ground arith)
  ]

  -- The node's answer, with a cache that is coherent still.
  pub record Gives (n : ℕ) (r : Reply × Cache) : Type 0 where
    pub answer : r.0 ≡ block_by_tag node (number n)
    pub coherent : Coherent r.1

  pulled-Gives :
      (n : ℕ) (cache : Cache) (r : Reply)
      → Coherent cache
      → block_by_tag node (number n) ≡ r
      → translate r ≡ r
      → Gives n (pulled (number n) r cache)
  pulled-Gives n cache (found blk) c e t = record {
    answer = sym e;
    coherent = (λ m s. ap (λ k. block_by_tag node (number k)) (sym ((==_iff n m).0 s)) ∙ e, c);
  }
  pulled-Gives n cache (error f) c e t = record { answer = t ∙ sym e; coherent = c }

  translate_idem : (r : Reply) → translate (translate r) ≡ translate r
  translate_idem (found blk) = refl
  translate_idem (error no_result) = refl
  translate_idem (error block_not_found) = refl
  translate_idem (error other) = refl

  cached-Gives :
      (n : ℕ) (cache : Cache) (o : Option Block)
      → Coherent cache
      → ((blk : Block) → o ≡ some blk → block_by_tag node (number n) ≡ found blk)
      → Gives n (cached_block o (number n) (block_by_tag node (number n)) cache)
  unfolding block_by_tag
  cached-Gives n cache (some blk) c h = record { answer = sym (h blk refl); coherent = c }
  cached-Gives n cache none c h =
      pulled-Gives n cache (block_by_tag node (number n)) c refl
        (translate_idem (rpc_block (node (number n))))

  pull-Coherent :
      (hit : Bool) (n : ℕ) (cache : Cache) (blk : Block)
      → Coherent cache
      → pull_block hit (number n) cache ≡ some blk
      → block_by_tag node (number n) ≡ found blk
  pull-Coherent true n cache blk c e = find-Coherent n cache blk c e
  pull-Coherent false n cache blk c e = cc

  -- whatever the cache has kept
  pub by_number-Gives :
      (hit : Tag → Bool) (n : ℕ) (cache : Cache)
      → Coherent cache
      → Gives n (block_by_number node hit (some n) cache)
  unfolding block_by_number get_block
  by_number-Gives hit n cache c =
      cached-Gives n cache (pull_block (hit (number n)) (number n) cache) c
        (λ blk e. pull-Coherent (hit (number n)) n cache blk c e)
