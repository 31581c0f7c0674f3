-- ===== src/Paging.antt =====
-- The paged list of transactions of internal/repository/db/transaction.go, over a collection of
-- documents that the database driver serves. The driver is a parameter; what is relied on is in
-- Paging/Serves.
pub mod Serves
pub mod Select
pub mod Load
pub mod Fetch
pub mod Pages
pub mod Walk
pub mod Bottom
pub mod Tests
use explorer_api_gql.Base.{
  ℕ, zero, suc, ◌+◌, ◌-◌, Bool, true, false, ◌&&◌, ◌||◌, Option, none, some, List, [], ◌∷◌, ◌++◌,
  length, take, reverse, ltb, ◌==◌, if◌then◌else◌,
}
use explorer_api_gql.Base.Int.{ℤ, pos, negsuc, positive, negative, magnitude, neg}

-- the condition on the ordinal index that is appended to a filter
pub data Bound : Type 0 where
  lte gte lt gt : ℕ → Bound

-- the sort by ordinal index: -1 is descending, 1 is ascending
pub data Order : Type 0 where
  descending ascending : Order

-- What the code calls of a mongo.Collection. `none` is an error of the driver; a row that is `none`
-- is one that does not decode.
pub record Driver (F K D : Type 0) : Type 0 where
  pub no_filter : F
  pub count_documents : F → Option ℕ
  pub estimated_document_count : Option ℕ
  -- FindOne by a filter and an order, projected to the ordinal index
  pub find_border : F → Order → Option ℕ
  -- FindOne by the primary key, projected to the ordinal index
  pub find_key : K → Option ℕ
  -- Find by a filter and a bound, sorted and limited
  pub find : F → Bound → Order → ℕ → Option (List (Option D))

-- `TransactionList`; the bound that the filter gets is passed to `find` by itself.
pub record TransactionList (D : Type 0) : Type 0 where
  pub collection : List D
  pub total : ℕ
  pub first : ℕ
  pub last : ℕ
  pub is_start : Bool
  pub is_end : Bool

-- `txListFilter`
abbrev pub tx_list_filter : {K : Type 0} → Option K → ℤ → ℕ → Bound
tx_list_filter none count first = if positive count then lte first else gte first
tx_list_filter (some _) count first = if positive count then lt first else gt first

abbrev pub no_cursor : {K : Type 0} → Option K → Bool
no_cursor none = true
no_cursor (some _) = false

module _ {D : Type 0} where
  -- The swaps of elements reverse the slice; a list of fewer than two is left alone, and so are the
  -- marks then.
  unfoldable pub reverse_list : TransactionList D → TransactionList D
  reverse_list b =
      if ltb (length b.collection) 2
      then b
      else record b { collection = reverse b.collection; first = b.last; last = b.first }

  abbrev pub keep : Option D → List D → List D
  keep none collection = collection
  keep (some trx) collection = collection ++ trx ∷ []

  -- The loop over the rows: each row is appended when the next one comes, and the last one is left
  -- over. A row that does not decode ends the loading with an error.
  unfoldable pub collect : List (Option D) → Option D → List D → Option (List D × Option D)
  collect [] trx collection = some (collection, trx)
  collect (none ∷ rows) trx collection = none
  collect (some row ∷ rows) trx collection = collect rows (some row) (keep trx collection)

  -- The marks after the loop, and the last row on a boundary.
  unfoldable pub close_list :
      {K : Type 0} → Option K → ℤ → TransactionList D → List D → Option D → TransactionList D
  close_list cursor count list collected trx =
      let n = length collected in
      let is_end =
        (no_cursor cursor && negative count) || (positive count && ltb n (magnitude count)) in
      let is_start =
        (no_cursor cursor && positive count) || (negative count && ltb n (magnitude count)) in
      record list {
        collection = if is_start || is_end then keep trx collected else collected;
        is_start = is_start;
        is_end = is_end;
      }

  -- The list is turned round on a negative count, and then its end is cut if it is too long.
  unfoldable pub finish_list : ℤ → TransactionList D → TransactionList D
  finish_list count list =
      let turned = if negative count then reverse_list list else list in
      if ltb (magnitude count) (length turned.collection)
      then record turned { collection = take (length turned.collection - 1) turned.collection }
      else turned

abbrev pub tx_list_order : ℤ → Order
tx_list_order count = if positive count then descending else ascending

-- one more than is asked for, so that the end of the list is detected
abbrev pub tx_list_limit : ℤ → ℕ
tx_list_limit count = magnitude count + 1

module _ {F K D : Type 0} (db : Driver F K D) where
  -- `listDocumentsCount`: the whole collection is estimated if the count fails.
  unfoldable pub list_documents_count : F → Option ℕ
  list_documents_count filter = elim (db.count_documents filter) [
    | some total ↦ some total
    | none ↦ db.estimated_document_count
  ]

  abbrev pub with_first : TransactionList D → Option ℕ → Option (TransactionList D)
  with_first list none = none
  with_first list (some first) = some (record list { first = first })

  -- `trxListWithRangeMarks`; a list without cursor and with a count of zero keeps its marks.
  unfoldable pub list_with_range_marks :
      TransactionList D → Option K → ℤ → F → Option (TransactionList D)
  list_with_range_marks list none count filter =
      if positive count
      then with_first (record list { is_start = true }) (db.find_border filter descending)
      else (if negative count
          then with_first (record list { is_end = true }) (db.find_border filter ascending)
          else some list)
  list_with_range_marks list (some cursor) count filter = with_first list (db.find_key cursor)

  abbrev pub given_filter : Option F → F
  given_filter none = db.no_filter
  given_filter (some filter) = filter

  abbrev pub empty_list : ℕ → TransactionList D
  empty_list total = record {
    collection = [];
    total = total;
    first = 0;
    last = 0;
    is_start = total == 0;
    is_end = total == 0;
  }

  -- `initTrxList`
  unfoldable pub init_list : Option K → ℤ → Option F → Option (TransactionList D)
  init_list cursor count filter = elim (list_documents_count (given_filter filter)) [
    | none ↦ none
    | some total ↦
        if ltb 0 total
        then list_with_range_marks (empty_list total) cursor count (given_filter filter)
        else some (empty_list total)
  ]

  -- `txListLoad`
  unfoldable pub list_load : Option K → ℤ → F → TransactionList D → Option (TransactionList D)
  list_load cursor count filter list =
      elim (db.find filter (tx_list_filter cursor count list.first) (tx_list_order count)
        (tx_list_limit count)) [
          | none ↦ none
          | some rows ↦ elim (collect rows none list.collection) [
            | none ↦ none
            | some (collected, trx) ↦ some (close_list cursor count list collected trx)
          ]
        ]

  -- `Transactions`
  unfoldable pub transactions : Option K → ℤ → Option F → Option (TransactionList D)
  transactions cursor count filter =
      if magnitude count == 0 then none else elim (init_list cursor count filter) [
        | none ↦ none
        | some list ↦
            if ltb 0 list.total
            then elim (list_load cursor count (given_filter filter) list) [
              | none ↦ none
              | some loaded ↦ some (finish_list count loaded)
            ]
            else some list
      ]
