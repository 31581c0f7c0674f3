-- ===== src/Paging/Load.antt =====
-- The loading loop, on rows that decode, and what becomes of a loaded list.
use explorer_api_gql.Base.{
  ℕ, suc, ◌≤◌, ◌<◌, ◌≡◌, refl, ap, ◌∙◌, true, false, none, some, List, [], ◌∷◌, ◌++◌, map, arith,
  length, take, take_all, reverse, ltb, length-append, if◌then◌else◌,
}
use explorer_api_gql.Base.Int.{pos, negsuc}
use explorer_api_gql.Paging.{TransactionList, collect, close_list, finish_list, reverse_list}
use mathlib.Core.List.{append_assoc, reverse-append}

module _ {D : Type 0} where
  -- A list is empty or has a last element.
  pub data IsSnoc (xs : List D) : Type 0 where
    empty : xs ≡ [] → IsSnoc xs
    snoc : (ys : List D) (y : D) → xs ≡ ys ++ y ∷ [] → IsSnoc xs

  IsSnoc-cons : (x : D) {xs : List D} → IsSnoc xs → IsSnoc (x ∷ xs)
  IsSnoc-cons x (empty e) = snoc [] x (ap (λ r. x ∷ r) e)
  IsSnoc-cons x (snoc ys y e) = snoc (x ∷ ys) y (ap (λ r. x ∷ r) e)

  pub IsSnoc-all : (xs : List D) → IsSnoc xs
  IsSnoc-all [] = empty refl
  IsSnoc-all (x ∷ xs) = IsSnoc-cons x (IsSnoc-all xs)

  collect-some :
      (rows : List D) (row x : D) (acc : List D)
      → collect (map some (rows ++ row ∷ [])) (some x) acc ≡ some (acc ++ x ∷ rows, some row)
  unfolding collect
  collect-some [] row x acc = refl
  collect-some (r ∷ rows) row x acc =
      collect-some rows row r (acc ++ x ∷ [])
      ∙ ap (λ l. some (l, some row)) (append_assoc acc (x ∷ []) (r ∷ rows))

  -- All rows but the last are collected.
  pub collect_rows :
      (rows : List D) (row : D)
      → collect (map some (rows ++ row ∷ [])) none [] ≡ some (rows, some row)
  unfolding collect
  collect_rows [] row = refl
  collect_rows (r ∷ rows) row = collect-some rows row r []

  pub take_init : (ys : List D) (y : D) → take (length ys) (ys ++ y ∷ []) ≡ ys
  take_init [] y = refl
  take_init (x ∷ ys) y = ap (λ r. x ∷ r) (take_init ys y)

  pub length-reverse : (xs : List D) → length (reverse xs) ≡ length xs
  length-reverse [] = refl
  length-reverse (x ∷ xs) =
      ap length (reverse-append (x ∷ []) xs)
      ∙ length-append (reverse xs) (x ∷ [])
      ∙ omega (arith, length-reverse xs)

  -- A slice of fewer than two elements is its own reverse.
  pub reverse_short : (xs : List D) → length xs < 2 → reverse xs ≡ xs
  reverse_short [] h = refl
  reverse_short (x ∷ []) h = refl
  reverse_short (x ∷ y ∷ xs) h = absurd (omega arith)

  -- The rows are `ys` and a last one: what the first page from the top keeps of them.
  pub first_page :
      (K : Type 0) (n : ℕ) (ys : List D) (y : D) (list : TransactionList D)
      → length ys ≤ suc n
      → let l =
          finish_list (pos (suc n)) (close_list {K = K} none (pos (suc n)) list ys (some y)) in
        (l.collection ≡ take (suc n) (ys ++ y ∷ []))
        × (l.is_start ≡ true)
        × (l.is_end ≡ ltb (length ys) (suc n))
  unfolding finish_list close_list
  first_page K n ys y list h =
      ground (arith, length-append ys (y ∷ []), take_init ys y, take_all (suc n) (ys ++ y ∷ []))

  pub next_page :
      {K : Type 0} (cursor : K) (n : ℕ) (ys : List D) (y : D) (list : TransactionList D)
      → length ys ≤ suc n
      → let l =
          finish_list (pos (suc n)) (close_list (some cursor) (pos (suc n)) list ys (some y)) in
        (l.collection ≡ take (suc n) (ys ++ y ∷ []))
        × (l.is_start ≡ false)
        × (l.is_end ≡ ltb (length ys) (suc n))
  unfolding finish_list close_list
  next_page cursor n ys y list h =
      ground (arith, length-append ys (y ∷ []), take_init ys y, take_all (suc n) (ys ++ y ∷ []))

  -- The rows of a page before a cursor come from the lowest, and are turned round.
  pub previous_page :
      {K : Type 0} (cursor : K) (n : ℕ) (ys : List D) (y : D) (list : TransactionList D)
      → length ys ≤ suc n
      → let l = finish_list (negsuc n) (close_list (some cursor) (negsuc n) list ys (some y)) in
        (l.collection ≡ reverse (take (suc n) (ys ++ y ∷ [])))
        × (l.is_start ≡ ltb (length ys) (suc n))
        × (l.is_end ≡ false)
  unfolding finish_list close_list reverse_list
  previous_page cursor n ys y list h = ground (
    arith,
    length-append ys (y ∷ []),
    length-reverse (ys ++ y ∷ []),
    length-reverse ys,
    reverse_short (ys ++ y ∷ []),
    reverse_short ys,
    take_init ys y,
    take_all (suc n) (ys ++ y ∷ []),
  )

  pub last_page :
      (K : Type 0) (n : ℕ) (ys : List D) (y : D) (list : TransactionList D)
      → length ys ≤ suc n
      → let l = finish_list (negsuc n) (close_list {K = K} none (negsuc n) list ys (some y)) in
        (l.collection ≡ (
          if ltb (length ys) (suc n)
          then reverse (ys ++ y ∷ [])
          else take (length ys) (reverse (ys ++ y ∷ []))))
        × (l.is_start ≡ ltb (length ys) (suc n))
        × (l.is_end ≡ true)
  unfolding finish_list close_list reverse_list
  last_page K n ys y list h = ground (
    arith,
    length-append ys (y ∷ []),
    length-reverse (ys ++ y ∷ []),
    reverse_short (ys ++ y ∷ []),
  )

  -- No rows at all beyond the cursor: an empty list, marked on the side that was looked at.
  pub no_rows_after :
      {K : Type 0} (cursor : K) (n : ℕ) (list : TransactionList D)
      → let l = finish_list (pos (suc n)) (close_list (some cursor) (pos (suc n)) list [] none) in
        (l.collection ≡ []) × (l.is_start ≡ false) × (l.is_end ≡ true)
  unfolding finish_list close_list
  no_rows_after cursor n list = ground arith

  pub no_rows_before :
      {K : Type 0} (cursor : K) (n : ℕ) (list : TransactionList D)
      → let l = finish_list (negsuc n) (close_list (some cursor) (negsuc n) list [] none) in
        (l.collection ≡ []) × (l.is_start ≡ true) × (l.is_end ≡ false)
  unfolding finish_list close_list reverse_list
  no_rows_before cursor n list = ground arith
