-- ===== src/Ring/Holds.antt =====
-- What a ring holds: the values added since the last reset, the newest first.
use explorer_api_gql.Base.{
  ℕ, zero, suc, ◌≤◌, ◌<◌, min, ◌≡◌, ◌≢◌, refl, ◌∙◌, Option, none, some, List, [], ◌∷◌, arith,
  length, get_or, get_elem?, set, length-set, replicate, length-replicate, get_or-set_self,
  get_or-set_ne,
}
use explorer_api_gql.Ring.{Ring, new, advance, deepen, add, reset, index}

module _ {ℓ} {A : Type ℓ} where
  -- The values `history` are the last ones that were added, and the deepest are overwritten.
  pub record Holds (r : Ring A) (history : List A) : Type ℓ where
    pub roomy : 2 ≤ r.capacity
    pub storage : length r.nodes ≡ r.capacity
    pub head_in : r.head < r.capacity
    pub deep : r.depth ≡ min r.capacity (length history)
    pub held : (i : ℕ) → i < r.depth → get_or r.nodes (index r i) none ≡ get_elem? history i

  -- Every node that `List` visits lies inside the array.
  pub index-lt :
      {r : Ring A} {history : List A} (i : ℕ)
      → Holds r history
      → i < r.depth
      → index r i < length r.nodes
  index-lt i h lt = ground (arith, h.roomy, h.storage, h.head_in, h.deep)

  pub new-Holds : (capacity : ℕ) {r : Ring A} → new capacity ≡ some r → Holds r []
  unfolding new
  new-Holds capacity {r} e = record {
    roomy = ground arith;
    storage = ground (arith, length-replicate {A = Option A} capacity none);
    head_in = ground arith;
    deep = ground arith;
    held = λ i lt. ground arith;
  }

  pub reset-Holds : {r : Ring A} {history : List A} → Holds r history → Holds (reset r) []
  unfolding reset
  reset-Holds h = record {
    roomy = h.roomy;
    storage = h.storage;
    head_in = h.head_in;
    deep = ground arith;
    held = λ i lt. absurd (omega arith);
  }

  -- One step back from the new head is the old head.
  index-add :
      (v : Option A) (r : Ring A) (i : ℕ)
      → r.head < r.capacity
      → suc i < r.capacity
      → index (add v r) (suc i) ≡ index r i
  unfolding add
  index-add v r i h lt = ground arith

  index-ne-advance :
      (r : Ring A) (i : ℕ) → r.head < r.capacity → suc i < r.capacity → advance r ≢ index r i
  index-ne-advance r i h lt = ground arith

  index_head : (v : Option A) (r : Ring A) → index (add v r) 0 ≡ advance r
  unfolding add
  index_head v r = ground arith

  advance-lt : (r : Ring A) {history : List A} → Holds r history → advance r < length r.nodes
  advance-lt r h = ground (arith, h.storage, h.head_in)

  deepen-lt :
      (r : Ring A) (history : List A)
      → Holds r history
      → (i : ℕ) → suc i < deepen r
      → suc i < r.capacity
  deepen-lt r history h i lt = ground (arith, h.deep)

  deepen-pred :
      (r : Ring A) (history : List A) → Holds r history → (i : ℕ) → suc i < deepen r → i < r.depth
  deepen-pred r history h i lt = ground (arith, h.deep)

  add-held :
      (v : A) (r : Ring A) (history : List A)
      → Holds r history
      → (i : ℕ) → i < deepen r
      → get_or (set r.nodes (advance r) (some v)) (index (add (some v) r) i) none
        ≡ get_elem? (v ∷ history) i
  add-held v r history h zero lt =
      rw (index_head (some v) r)
        (get_or-set_self r.nodes (advance r) (some v) none (advance-lt r h))
  add-held v r history h (suc i) lt =
      rw (index-add (some v) r i h.head_in (deepen-lt r history h i lt)) (
        get_or-set_ne r.nodes (advance r) (index r i) (some v) none
          (index-ne-advance r i h.head_in (deepen-lt r history h i lt))
        ∙ h.held i (deepen-pred r history h i lt))

  -- Adding a value puts it in front of what the ring holds.
  pub add-Holds :
      (v : A) {r : Ring A} {history : List A}
      → Holds r history
      → Holds (add (some v) r) (v ∷ history)
  unfolding add
  add-Holds v {r} {history} h = record {
    roomy = h.roomy;
    storage = length-set r.nodes (advance r) (some v) ∙ h.storage;
    head_in = ground (arith, h.head_in);
    deep = ground (arith, h.deep);
    held = add-held v r history h;
  }

  pub capacity-add : (v : Option A) (r : Ring A) → (add v r).capacity ≡ r.capacity
  unfolding add
  capacity-add v r = refl

  pub capacity-reset : (r : Ring A) → (reset r).capacity ≡ r.capacity
  unfolding reset
  capacity-reset r = refl

  pub capacity-new : (capacity : ℕ) {r : Ring A} → new capacity ≡ some r → r.capacity ≡ capacity
  unfolding new
  capacity-new capacity e = ground arith

  pub new_ring : (capacity : ℕ) → 2 ≤ capacity → (r : Ring A) × (new capacity ≡ some r)
  unfolding new
  new_ring capacity h = (
    record { nodes = replicate capacity none; capacity = capacity; head = 0; depth = 0 },
    ground arith,
  )
