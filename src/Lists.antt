-- ===== src/Lists.antt =====
-- The paged lists of withdrawals and of reward claims, of delegations, of fMint transactions and of
-- token transactions, of internal/repository/db/{withdrawal,reward,delegation,fmint_trx,erc_trx}.go.
-- They follow the list of transactions (Paging), over the same driver; what differs is here: how the
-- documents are counted, what becomes of an error, and which rows are kept.
pub mod Split
pub mod Places
pub mod Served
pub mod Erc
pub mod FMint
pub mod Withdrawals
pub mod Lost
mod Tests
use explorer_api_gql.Base.{
  ℕ, Bool, true, false, ◌&&◌, ◌||◌, Option, none, some, List, [], ◌∷◌, length, ltb, ◌==◌,
  if◌then◌else◌,
}
use explorer_api_gql.Base.Int.{ℤ, positive, negative, magnitude}
use explorer_api_gql.Paging.{
  Driver, TransactionList, descending, ascending, no_cursor, keep, collect, close_list, finish_list,
  reverse_list, tx_list_filter, tx_list_order, tx_list_limit, empty_list, given_filter, with_first,
  list_documents_count, list_with_range_marks,
}

-- The loop over the rows of a list: what is collected, and the row that is left over, or what was
-- collected when a row did not decode.
pub data Loop (D : Type 0) : Type 0 where
  walked : List D → Option D → Loop D
  failed : List D → Loop D

module _ {D : Type 0} where
  pub load_rows : List (Option D) → Option D → List D → Loop D
  load_rows [] trx collection = walked collection trx
  load_rows (none ∷ rows) trx collection = failed (keep trx collection)
  load_rows (some row ∷ rows) trx collection = load_rows rows (some row) (keep trx collection)

  -- The marks of a list of token transactions, and the last row if there is no further one.
  pub erc_close_list :
      {K : Type 0} → Option K → ℤ → TransactionList D → List D → Option D → TransactionList D
  erc_close_list cursor count list collected trx =
      let n = length collected in
      let is_end =
        (no_cursor cursor && negative count) || (positive count && ltb n (magnitude count)) in
      let is_start =
        (no_cursor cursor && positive count) || (negative count && ltb n (magnitude count)) in
      record list {
        collection =
            if (negative count && is_start) || (positive count && is_end)
            then keep trx collected
            else collected;
        is_start = is_start;
        is_end = is_end;
      }

  -- The deferred close of the cursor writes the result of the loading, so that the error of a row
  -- that did not decode is lost: the list stays as far as it was loaded.
  pub closed_list :
      Bool
      → (List D → Option D → TransactionList D)
      → TransactionList D
      → Loop D
      → Option (TransactionList D)
  closed_list false close list loop = none
  closed_list true close list (walked collected trx) = some (close collected trx)
  closed_list true close list (failed collected) = some (record list { collection = collected })

  -- a list that is turned round on a negative count, and not cut
  pub turn_list : ℤ → TransactionList D → TransactionList D
  turn_list count list = if negative count then reverse_list list else list

  -- What the lists do with a list that is made: it is loaded and finished unless it is empty.
  pub load_made :
      (TransactionList D → Option (TransactionList D))
      → (TransactionList D → TransactionList D)
      → Option (TransactionList D)
      → Option (TransactionList D)
  load_made load finish none = none
  load_made load finish (some list) =
      if ltb 0 list.total
      then elim (load list) [ none ↦ none | some loaded ↦ some (finish loaded) ]
      else some list

module _ {F K D : Type 0} (db : Driver F K D) where
  -- `wrListInit`, and the same of the other lists, by the count of the documents: a count that fails
  -- is an error.
  pub list_init :
      (TransactionList D → Option (TransactionList D)) → Option ℕ → Option (TransactionList D)
  list_init range_marks none = none
  list_init range_marks (some total) =
      if ltb 0 total then range_marks (empty_list db total) else some (empty_list db total)

  -- `wrListLoad`
  pub withdrawals_load : Option K → ℤ → F → TransactionList D → Option (TransactionList D)
  withdrawals_load cursor count filter list =
      elim (db.find filter (tx_list_filter cursor count list.first) (tx_list_order count)
        (tx_list_limit count)) [
          | none ↦ none
          | some rows ↦ elim (collect rows none list.collection) [
            | none ↦ none
            | some (collected, trx) ↦ some (close_list cursor count list collected trx)
          ]
        ]

  -- `dlgListLoad`, `fMintTrxListLoad` and `ercTrxListLoad`; whether the cursor closes is `closes`.
  pub deferred_load :
      Bool
      → (Option K → ℤ → TransactionList D → List D → Option D → TransactionList D)
      → Option K
      → ℤ
      → F
      → TransactionList D
      → Option (TransactionList D)
  deferred_load closes close cursor count filter list =
      elim (db.find filter (tx_list_filter cursor count list.first) (tx_list_order count)
        (tx_list_limit count)) [
          | none ↦ none
          | some rows ↦
              closed_list closes (close cursor count list) list
                (load_rows rows none list.collection)
        ]

  -- `Withdrawals`, and `RewardClaims` likewise
  pub withdrawals : Option K → ℤ → Option F → Option (TransactionList D)
  withdrawals cursor count filter =
      if magnitude count == 0
      then none
      else load_made (withdrawals_load cursor count (given_filter db filter)) (finish_list count) (
          list_init (λ l. list_with_range_marks db l cursor count (given_filter db filter))
            (db.count_documents (given_filter db filter)))

  -- `FMintTransactions`
  pub fmint_transactions : Bool → Option K → ℤ → Option F → Option (TransactionList D)
  fmint_transactions closes cursor count filter =
      if magnitude count == 0
      then none
      else load_made (deferred_load closes close_list cursor count (given_filter db filter))
          (turn_list count)
          (list_init (λ l. list_with_range_marks db l cursor count (given_filter db filter))
            (db.count_documents (given_filter db filter)))

  -- `Erc20Transactions`; the whole collection is estimated if the count fails.
  pub erc20_transactions : Bool → Option K → ℤ → Option F → Option (TransactionList D)
  erc20_transactions closes cursor count filter =
      if magnitude count == 0
      then none
      else load_made (deferred_load closes erc_close_list cursor count (given_filter db filter))
          (turn_list count)
          (list_init (λ l. list_with_range_marks db l cursor count (given_filter db filter))
            (list_documents_count db (given_filter db filter)))

  -- A cursor of the list of delegations is the text of an object ID, and it is looked up among the
  -- documents of the filter.
  module _ {I : Type 0} (object_id : K → Option I) (find_id : F → I → Option ℕ) where
    abbrev found_or_zero : Option ℕ → ℕ
    found_or_zero none = 0
    found_or_zero (some first) = first

    -- `dlgListCollectRangeMarks`: the error of the lookup of a cursor is that of an inner variable,
    -- and the outer one, which is checked, stays nil.
    pub delegation_range_marks : TransactionList D → Option K → ℤ → F → Option (TransactionList D)
    delegation_range_marks list none count filter =
        if positive count
        then with_first db (record list { is_start = true }) (db.find_border filter descending)
        else (if negative count
            then with_first db (record list { is_end = true }) (db.find_border filter ascending)
            else some list)
    delegation_range_marks list (some cursor) count filter = elim (object_id cursor) [
      | none ↦ none
      | some id ↦ some (record list { first = found_or_zero (find_id filter id) })
    ]

    -- `Delegations`
    pub delegations : Bool → Option K → ℤ → Option F → Option (TransactionList D)
    delegations closes cursor count filter =
        if magnitude count == 0
        then none
        else load_made (deferred_load closes close_list cursor count (given_filter db filter))
            (finish_list count)
            (list_init (λ l. delegation_range_marks l cursor count (given_filter db filter))
              (db.count_documents (given_filter db filter)))
