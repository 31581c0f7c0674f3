-- ===== src/Lists/Served.antt =====
-- The lists of a place, over a database that serves the collection.
use explorer_api_gql.Base.{
  ℕ, suc, ◌+◌, ◌≡◌, refl, ap, ◌∙◌, true, false, Option, none, some, List, map, arith, length, take,
  reverse, ◌==◌,
}
use explorer_api_gql.Base.Int.{ℤ, pos, negsuc}
use explorer_api_gql.Paging.{
  Driver, TransactionList, tx_list_filter, tx_list_order, tx_list_limit, given_filter,
  list_documents_count, init_list, list_with_range_marks, reverse_list,
}
use explorer_api_gql.Paging.Serves.{Serves, select, arrange}
use explorer_api_gql.Paging.Select.{select_lt, select_gt, select_lte, select_gte}
use explorer_api_gql.Paging.Load.{reverse_short}
use explorer_api_gql.Paging.Fetch.{
  init_list_top, init_list_bottom, init_list_cursor, two, length_split, length_snoc,
}
use explorer_api_gql.Lists.{list_init, load_made, deferred_load, closed_list, turn_list}
use explorer_api_gql.Lists.Places.{
  made, magnitude_eq, documents, place_cursor, place_count, ahead, PagePlace, top, bottom, after,
  before, first_mark, in_order,
}
use explorer_api_gql.Lists.Split.{split_rows}

module _ {F K D : Type 0} (db : Driver F K D) (cursor : Option K) (count : ℤ)
    (filter : Option F) where
  abbrev pub marks : TransactionList D → Option (TransactionList D)
  marks list = list_with_range_marks db list cursor count (given_filter db filter)

  list_init-counts :
      (counted : Option ℕ)
      → list_documents_count db (given_filter db filter) ≡ counted
      → list_init db marks counted ≡ init_list db cursor count filter
  unfolding list_init init_list
  list_init-counts none e = ground arith
  list_init-counts (some total) e = ground arith

module _ {F K D : Type 0} (db : Driver F K D) {ordinal : D → ℕ} {key : D → K} (filter : Option F)
    (n : ℕ) where
  made_eq :
      (place : PagePlace D)
      → Serves db ordinal key (given_filter db filter) (documents place)
      → init_list db (place_cursor key place) (place_count place n) filter
        ≡ some (made ordinal place)
  made_eq (top d rest) s =
      init_list_top db n filter (length rest) (ordinal d) s.counted (s.highest d rest refl)
  made_eq (bottom front z) s =
      init_list_bottom db n filter (length front) (ordinal z)
        (s.counted ∙ ap some (length_snoc front z)) (s.lowest front z refl)
  made_eq (after above d below) s =
      init_list_cursor db (key d) (pos (suc n)) filter (length above + length below) (ordinal d)
        (s.counted ∙ ap some (length_split above d below)) (s.located above d below refl)
  made_eq (before above d below) s =
      init_list_cursor db (key d) (negsuc n) filter (length above + length below) (ordinal d)
        (s.counted ∙ ap some (length_split above d below)) (s.located above d below refl)

  -- By either count, the list is made.
  pub estimated_eq :
      (place : PagePlace D)
      → Serves db ordinal key (given_filter db filter) (documents place)
      → list_init db
          (marks db (place_cursor key place) (place_count place n) filter)
          (list_documents_count db (given_filter db filter))
        ≡ some (made ordinal place)
  estimated_eq place s =
      list_init-counts db (place_cursor key place) (place_count place n) filter
        (list_documents_count db (given_filter db filter)) refl
      ∙ made_eq place s

  pub counted_eq :
      (place : PagePlace D)
      → Serves db ordinal key (given_filter db filter) (documents place)
      → list_init db
          (marks db (place_cursor key place) (place_count place n) filter)
          (db.count_documents (given_filter db filter))
        ≡ some (made ordinal place)
  unfolding list_documents_count
  counted_eq place s =
      list_init-counts db (place_cursor key place) (place_count place n) filter
        (db.count_documents (given_filter db filter)) (ground (arith, s.counted))
      ∙ made_eq place s

  selected :
      (place : PagePlace D)
      → Serves db ordinal key (given_filter db filter) (documents place)
      → arrange (tx_list_order (place_count place n)) (
          select ordinal
            (tx_list_filter
              (place_cursor key place)
              (place_count place n)
              (first_mark ordinal place))
            (documents place))
        ≡ ahead place
  selected (top d rest) s = select_lte ordinal d rest s.sorted
  selected (bottom front z) s = ap reverse (select_gte ordinal front z s.sorted)
  selected (after above d below) s = select_lt ordinal above d below s.sorted
  selected (before above d below) s = ap reverse (select_gt ordinal above d below s.sorted)

  -- The rows of the query are the documents ahead, one more than asked for.
  pub rows_eq :
      (place : PagePlace D)
      → Serves db ordinal key (given_filter db filter) (documents place)
      → db.find
          (given_filter db filter)
          (tx_list_filter (place_cursor key place) (place_count place n) (first_mark ordinal place))
          (tx_list_order (place_count place n))
          (tx_list_limit (place_count place n))
        ≡ some (map some (take (suc (suc n)) (ahead place)))
  rows_eq place s =
      s.found
        (tx_list_filter (place_cursor key place) (place_count place n) (first_mark ordinal place))
        (tx_list_order (place_count place n)) (tx_list_limit (place_count place n))
      ∙ rw (selected place s, magnitude_eq place n, two n)

  module _ (close : Option K → ℤ → TransactionList D → List D → Option D → TransactionList D)
      (finish : TransactionList D → TransactionList D) where
    -- A list of the place is what is collected of the documents ahead, closed and finished.
    pub load_made-made :
        (place : PagePlace D)
        → Serves db ordinal key (given_filter db filter) (documents place)
        → load_made
            (deferred_load db true close
              (place_cursor key place)
              (place_count place n)
              (given_filter db filter))
            finish
            (some (made ordinal place))
          ≡ some (
              finish (
                close
                  (place_cursor key place)
                  (place_count place n)
                  (made ordinal place)
                  (split_rows n (ahead place)).collected
                  (split_rows n (ahead place)).trx))
    unfolding load_made deferred_load closed_list
    load_made-made place s =
        rw (rows_eq place s, (split_rows n (ahead place)).loop_eq) (ground arith)

-- A page from the bottom or before a document is turned round.
pub turn_list-turned :
    {D : Type 0} (n : ℕ) (place : PagePlace D) (list : TransactionList D)
    → let l = turn_list (place_count place n) list in
      (l.collection ≡ in_order place list.collection)
      × (l.is_start ≡ list.is_start)
      × (l.is_end ≡ list.is_end)
unfolding turn_list reverse_list
turn_list-turned n (top d rest) list = (refl, refl, refl)
turn_list-turned n (bottom front z) list = ground (arith, reverse_short list.collection)
turn_list-turned n (after above d below) list = (refl, refl, refl)
turn_list-turned n (before above d below) list = ground (arith, reverse_short list.collection)

pub suc-eq-zero : (n : ℕ) → (suc n == 0) ≡ false
suc-eq-zero n = ground arith
