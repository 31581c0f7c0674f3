-- ===== src/Ring/Recent.antt =====
-- What `List` of internal/repository/cache/ring/ring.go returns, after a sequence of operations.
use explorer_api_gql.Base.{
  ℕ, zero, suc, ◌+◌, ◌≤◌, ◌<◌, min, ◌≡◌, refl, sym, ap, ◌∙◌, none, some, List, [], ◌∷◌, arith,
  length, get_or, get_elem?-some, take, take-min, drop, drop_step, ltb, if◌then◌else◌,
}
use explorer_api_gql.Ring.{Ring, new, add, reset, index, list_from, list}
use explorer_api_gql.Ring.Holds.{Holds, capacity-new, new-Holds, add-Holds, reset-Holds}

-- What a client does to a ring between two readings of it.
pub data Op {ℓ} (A : Type ℓ) : Type ℓ where
  push : A → Op A
  clear : Op A

add_one : (i : ℕ) → i + 1 ≡ suc i
add_one i = omega arith

limit : (n depth : ℕ) → (if ltb depth n then depth else n) ≡ min n depth
limit n depth = ground arith

min_assoc : (a b c : ℕ) → min a (min b c) ≡ min (min a b) c
min_assoc a b c = omega arith

module _ {ℓ} {A : Type ℓ} where
  unfoldable pub run : Ring A → List (Op A) → Ring A
  run r [] = r
  run r (push v ∷ ops) = run (add (some v) r) ops
  run r (clear ∷ ops) = run (reset r) ops

  -- the values pushed since the last `clear`, the newest first
  unfoldable pub pushed : List A → List (Op A) → List A
  pushed history [] = history
  pushed history (push v ∷ ops) = pushed (v ∷ history) ops
  pushed history (clear ∷ ops) = pushed [] ops

  run-Holds :
      (ops : List (Op A)) (r : Ring A) (history : List A)
      → Holds r history
      → Holds (run r ops) (pushed history ops)
  unfolding run pushed
  run-Holds [] r history h = h
  run-Holds (push v ∷ ops) r history h =
      run-Holds ops (add (some v) r) (v ∷ history) (add-Holds v h)
  run-Holds (clear ∷ ops) r history h = run-Holds ops (reset r) [] (reset-Holds h)

  list_from-step :
      (r : Ring A) (i rounds : ℕ) (v : A)
      → get_or r.nodes (index r i) none ≡ some v
      → list_from r i (suc rounds) ≡ v ∷ list_from r (i + 1) rounds
  unfolding list_from
  list_from-step r i rounds v e = rw (e, list_from)

  list_from-take :
      (r : Ring A) (history : List A)
      → Holds r history
      → (i rounds : ℕ) → i + rounds ≤ r.depth
      → list_from r i rounds ≡ take rounds (drop i history)
  unfolding list_from
  list_from-take r history h i zero le = refl
  list_from-take r history h i (suc rounds) le =
      let inside : i < length history = ground (arith, h.deep) in
      let (v, e) = get_elem?-some history i inside in
      let below : i < r.depth = omega arith in
      list_from-step r i rounds v (h.held i below ∙ e)
      ∙ ap (λ l. v ∷ l) (list_from-take r history h (i + 1) rounds (omega arith))
      ∙ rw (add_one i) (sym (ap (take (suc rounds)) (drop_step history i v e)))

  -- A ring that holds a history lists its newest values: as many as asked for, and as the
  -- capacity allows.
  pub list-take :
      (n : ℕ) (r : Ring A) (history : List A)
      → Holds r history
      → list n r ≡ take (min n r.capacity) history
  unfolding list
  list-take n r history h = rw (limit n r.depth) (
      list_from-take r history h 0 (min n r.depth) (omega arith)
      ∙ rw (h.deep, min_assoc n r.capacity (length history))
          (sym (take-min (min n r.capacity) history)))

  capacity-run : (ops : List (Op A)) (r : Ring A) → (run r ops).capacity ≡ r.capacity
  unfolding run add reset
  capacity-run [] r = refl
  capacity-run (push v ∷ ops) r = capacity-run ops (add (some v) r)
  capacity-run (clear ∷ ops) r = capacity-run ops (reset r)

  -- After any additions and resets of a new ring, `List` of a length returns the values added since
  -- the last reset, the newest first, cut off at that length and at the capacity.
  pub list-run :
      (capacity : ℕ) {r : Ring A}
      → new capacity ≡ some r
      → (ops : List (Op A)) (n : ℕ) → list n (run r ops) ≡ take (min n capacity) (pushed [] ops)
  list-run capacity {r} e ops n =
      list-take n (run r ops) (pushed [] ops) (run-Holds ops r [] (new-Holds capacity e))
      ∙ ap (λ c. take (min n c) (pushed [] ops)) (capacity-run ops r ∙ capacity-new capacity e)
