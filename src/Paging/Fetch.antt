-- ===== src/Paging/Fetch.antt =====
-- The way through `Transactions` when there is something to load: the marks that it starts from and
-- the rows that it fetches.
use explorer_api_gql.Base.{
  ℕ, suc, ◌+◌, ◌≤◌, ◌<◌, ◌≡◌, refl, sym, ap, ◌∙◌, Bool, true, false, Option, none, some, List, [],
  ◌∷◌, ◌++◌, arith, length, length-append, length-take, take, take_all, min, reverse, map, ltb, leb,
  if◌then◌else◌,
}
use mathlib.Core.List.{reverse-reverse}
use explorer_api_gql.Base.Int.{ℤ, pos, negsuc, magnitude}
use explorer_api_gql.Paging.{
  Driver, TransactionList, Order, tx_list_filter, tx_list_order, tx_list_limit, given_filter,
  list_documents_count, list_with_range_marks, init_list, collect, close_list, list_load,
  finish_list, transactions,
}
use explorer_api_gql.Paging.Serves.{Serves, select, arrange}
use explorer_api_gql.Paging.Load.{collect_rows, length-reverse}

-- `transactions` returned a list with these contents and marks.
pub record Returned {D : Type 0} (result : Option (TransactionList D)) (collection : List D)
    (is_start is_end : Bool) : Type 0 where
  pub list : TransactionList D
  pub returned : result ≡ some list
  pub collection_eq : list.collection ≡ collection
  pub start_eq : list.is_start ≡ is_start
  pub end_eq : list.is_end ≡ is_end

pub two : (n : ℕ) → suc n + 1 ≡ suc (suc n)
two n = omega arith

-- How many rows came back says whether the end was reached.
pub snoc_length :
    {D : Type 0} (n : ℕ) (xs ys : List D) (y : D)
    → take (suc (suc n)) xs ≡ ys ++ y ∷ []
    → min (suc (suc n)) (length xs) ≡ length ys + 1
snoc_length n xs ys y e =
    sym (length-take (suc (suc n)) xs) ∙ ap length e ∙ length-append ys (y ∷ [])

pub snoc-le :
    {D : Type 0} (n : ℕ) (xs ys : List D) (y : D)
    → take (suc (suc n)) xs ≡ ys ++ y ∷ []
    → length ys ≤ suc n
snoc-le n xs ys y e = omega (arith, snoc_length n xs ys y e)

pub snoc-end :
    {D : Type 0} (n : ℕ) (xs ys : List D) (y : D)
    → take (suc (suc n)) xs ≡ ys ++ y ∷ []
    → ltb (length ys) (suc n) ≡ leb (length xs) (suc n)
snoc-end n xs ys y e = ground (arith, snoc_length n xs ys y e)

pub take_nil : {D : Type 0} (k : ℕ) (xs : List D) → take (suc k) xs ≡ [] → xs ≡ []
take_nil k [] e = refl
take_nil k (x ∷ xs) e = cc

pub length_split :
    {D : Type 0} (above : List D) (d : D) (below : List D)
    → length (above ++ d ∷ below) ≡ suc (length above + length below)
length_split above d below = omega (arith, length-append above (d ∷ below))

pub short_end :
    {D : Type 0} (n : ℕ) (xs ys : List D)
    → length ys ≡ length xs
    → xs ≡ []
    → true ≡ leb (length ys) (suc n)
short_end n xs ys l e = ground (arith, ap length e)

pub length_snoc :
    {D : Type 0} (front : List D) (z : D) → length (front ++ z ∷ []) ≡ suc (length front)
length_snoc front z = omega (arith, length-append front (z ∷ []))

pub snoc-ne-nil :
    {D : Type 0} (n : ℕ) (front : List D) (z : D)
    → take (suc (suc n)) (reverse (front ++ z ∷ [])) ≡ []
    → ⊥
snoc-ne-nil n front z e = omega (
  arith,
  ap length (take_nil (suc n) (reverse (front ++ z ∷ [])) e),
  length-reverse (front ++ z ∷ []),
  length_snoc front z,
)

-- The page from the bottom. Of the `n + 2` oldest documents it keeps the newest `n + 1`.
unfoldable pub bottom : {D : Type 0} → ℕ → List D → List D
bottom n docs =
    if leb (length docs) (suc n)
    then docs
    else take (suc n) (reverse (take (suc (suc n)) (reverse docs)))

pub bottom_rows :
    {D : Type 0} (n : ℕ) (docs ys : List D) (y : D)
    → take (suc (suc n)) (reverse docs) ≡ ys ++ y ∷ []
    → (if ltb (length ys) (suc n)
        then reverse (ys ++ y ∷ [])
        else take (length ys) (reverse (ys ++ y ∷ [])))
      ≡ bottom n docs
unfolding bottom
bottom_rows n docs ys y e = ground (
  arith,
  snoc_length n (reverse docs) ys y e,
  length-reverse docs,
  take_all (suc (suc n)) (reverse docs),
  reverse-reverse docs,
)

module _ {F K D : Type 0} (db : Driver F K D) where
  -- The way through `Transactions` when there is something to load.
  pub loaded :
      (cursor : Option K) (count : ℤ) (filter : Option F) (list : TransactionList D)
      (rows : List (Option D)) (collected : List D) (trx : Option D)
      → (magnitude count ≡ 0 → ⊥)
      → init_list db cursor count filter ≡ some list
      → 0 < list.total
      → list.collection ≡ []
      → db.find
          (given_filter db filter)
          (tx_list_filter cursor count list.first)
          (tx_list_order count)
          (tx_list_limit count)
        ≡ some rows
      → collect rows none [] ≡ some (collected, trx)
      → transactions db cursor count filter
        ≡ some (finish_list count (close_list cursor count list collected trx))
  unfolding transactions list_load
  loaded cursor count filter list rows collected trx ne init total new found walk = ground arith

  abbrev pub marked : ℕ → ℕ → Bool → Bool → TransactionList D
  marked total first is_start is_end = record {
    collection = [];
    total = total;
    first = first;
    last = 0;
    is_start = is_start;
    is_end = is_end;
  }

  pub init_list_top :
      (n : ℕ) (filter : Option F) (total first : ℕ)
      → db.count_documents (given_filter db filter) ≡ some (suc total)
      → db.find_border (given_filter db filter) Order.descending ≡ some first
      → init_list db none (pos (suc n)) filter ≡ some (marked (suc total) first true false)
  unfolding init_list list_documents_count list_with_range_marks
  init_list_top n filter total first c b = ground arith

  pub init_list_bottom :
      (n : ℕ) (filter : Option F) (total first : ℕ)
      → db.count_documents (given_filter db filter) ≡ some (suc total)
      → db.find_border (given_filter db filter) Order.ascending ≡ some first
      → init_list db none (negsuc n) filter ≡ some (marked (suc total) first false true)
  unfolding init_list list_documents_count list_with_range_marks
  init_list_bottom n filter total first c b = ground arith

  pub init_list_cursor :
      (cursor : K) (count : ℤ) (filter : Option F) (total first : ℕ)
      → db.count_documents (given_filter db filter) ≡ some (suc total)
      → db.find_key cursor ≡ some first
      → init_list db (some cursor) count filter ≡ some (marked (suc total) first false false)
  unfolding init_list list_documents_count list_with_range_marks
  init_list_cursor cursor count filter total first c b = ground arith

  module _ {ordinal : D → ℕ} {key : D → K} (filter : Option F) {docs : List D} (n : ℕ)
      (s : Serves db ordinal key (given_filter db filter) docs) where
    -- The rows that are found for one more document than is asked for.
    pub fetched :
        (cursor : Option K) (count : ℤ) (total first : ℕ) (is_start is_end : Bool) (xs : List D)
        → magnitude count ≡ suc n
        → init_list db cursor count filter ≡ some (marked (suc total) first is_start is_end)
        → arrange (tx_list_order count) (select ordinal (tx_list_filter cursor count first) docs)
          ≡ xs
        → db.find
            (given_filter db filter)
            (tx_list_filter cursor count first)
            (tx_list_order count)
            (tx_list_limit count)
          ≡ some (map some (take (suc (suc n)) xs))
    fetched cursor count total first is_start is_end xs m init sel =
        s.found (tx_list_filter cursor count first) (tx_list_order count) (tx_list_limit count)
        ∙ rw (sel, m, two n)

    pub fetched_some :
        (cursor : Option K) (count : ℤ) (total first : ℕ) (is_start is_end : Bool) (xs ys : List D)
        (y : D)
        → magnitude count ≡ suc n
        → init_list db cursor count filter ≡ some (marked (suc total) first is_start is_end)
        → arrange (tx_list_order count) (select ordinal (tx_list_filter cursor count first) docs)
          ≡ xs
        → take (suc (suc n)) xs ≡ ys ++ y ∷ []
        → transactions db cursor count filter
          ≡ some (
              finish_list count
                (close_list cursor count (marked (suc total) first is_start is_end) ys (some y)))
    fetched_some cursor count total first is_start is_end xs ys y m init sel rows =
        loaded cursor count filter (marked (suc total) first is_start is_end)
          (map some (ys ++ y ∷ [])) ys (some y) (λ e. omega arith) init (omega arith) refl
          (fetched cursor count total first is_start is_end xs m init sel
            ∙ ap (λ r. some (map some r)) rows)
          (collect_rows ys y)

    pub fetched_none :
        (cursor : Option K) (count : ℤ) (total first : ℕ) (is_start is_end : Bool)
        → magnitude count ≡ suc n
        → init_list db cursor count filter ≡ some (marked (suc total) first is_start is_end)
        → arrange (tx_list_order count) (select ordinal (tx_list_filter cursor count first) docs)
          ≡ []
        → transactions db cursor count filter
          ≡ some (
              finish_list count
                (close_list cursor count (marked (suc total) first is_start is_end) [] none))
    unfolding collect
    fetched_none cursor count total first is_start is_end m init sel =
        loaded cursor count filter (marked (suc total) first is_start is_end) [] [] none
          (λ e. omega arith) init (omega arith) refl
          (fetched cursor count total first is_start is_end [] m init sel) refl
