-- ===== src/Ring.antt =====
-- The circular buffer of internal/repository/cache/ring/ring.go. A node is an unsafe pointer,
-- which may be nil: an optional value. Its mutex makes each call one step.
pub mod Holds
pub mod Recent
mod Tests
use explorer_api_gql.Base.{
  ℕ, zero, suc, ◌+◌, ◌-◌, Option, none, some, List, [], ◌∷◌, ltb, ◌==◌, if◌then◌else◌, get_or, set,
  replicate,
}

pub record Ring {ℓ} (A : Type ℓ) : Type ℓ where
  pub nodes : List (Option A)
  pub capacity : ℕ
  pub head : ℕ
  pub depth : ℕ

module _ {ℓ} {A : Type ℓ} where
  -- `none` is the panic on a capacity below 2.
  unfoldable pub new : ℕ → Option (Ring A)
  new capacity =
      if ltb capacity 2
      then none
      else some
          (record { nodes = replicate capacity none; capacity = capacity; head = 0; depth = 0 })

  -- the head after `r.head++` and its return to zero at the top
  abbrev pub advance : Ring A → ℕ
  advance r = if r.head + 1 == r.capacity then 0 else r.head + 1

  abbrev pub deepen : Ring A → ℕ
  deepen r = if ltb r.capacity (r.depth + 1) then r.capacity else r.depth + 1

  pub add : Option A → Ring A → Ring A
  add value r = record r {
    head = advance r;
    depth = deepen r;
    nodes = set r.nodes (advance r) value;
  }

  pub reset : Ring A → Ring A
  reset r = record r { depth = 0 }

  -- The index of the node `i` steps before the head. The source subtracts first and adds the
  -- capacity to a negative result.
  abbrev pub index : Ring A → ℕ → ℕ
  index r i = if ltb r.head i then r.head + r.capacity - i else r.head - i

  -- The loop of `List` from step `i`, with the rounds that are left; a nil node ends it.
  pub list_from : Ring A → ℕ → ℕ → List A
  list_from r i zero = []
  list_from r i (suc rounds) =
      let rest = list_from r (i + 1) rounds in
      elim (get_or r.nodes (index r i) none) [ none ↦ [] | some v ↦ v ∷ rest ]

  pub list : ℕ → Ring A → List A
  unfolding list_from
  list length r = list_from r 0 (if ltb r.depth length then r.depth else length)
