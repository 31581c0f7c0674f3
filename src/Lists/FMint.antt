-- ===== src/Lists/FMint.antt =====
-- The pages of the list of fMint transactions (FMintTransactions), over a database that serves the
-- collection: the first page from either side has one more than is asked for.
use explorer_api_gql.Base.{
  ℕ, suc, ◌≡◌, ap, ◌∙◌, true, Option, some, [], ◌∷◌, ◌++◌, arith, take, reverse,
}
use explorer_api_gql.Paging.{Driver, TransactionList, given_filter, close_list}
use explorer_api_gql.Paging.Serves.{Serves}
use explorer_api_gql.Paging.Fetch.{Returned}
use explorer_api_gql.Lists.{turn_list, fmint_transactions}
use explorer_api_gql.Lists.Split.{split_rows}
use explorer_api_gql.Lists.Places.{
  PagePlace, top, bottom, after, before, documents, place_cursor, place_count, ahead, in_order,
  starts, ends, made, magnitude_eq,
}
use explorer_api_gql.Lists.Served.{counted_eq, load_made-made, turn_list-turned, suc-eq-zero}

-- how many documents a page of `n + 1` has, if there are enough
abbrev pub page_length : {D : Type 0} → PagePlace D → ℕ → ℕ
page_length (top d rest) n = suc (suc n)
page_length (bottom front z) n = suc (suc n)
page_length (after above d below) n = suc n
page_length (before above d below) n = suc n

module _ {F K D : Type 0} (db : Driver F K D) (key : D → K) (filter : Option F) (n : ℕ)
    (ordinal : D → ℕ) where
  abbrev closed : PagePlace D → TransactionList D
  closed place =
      close_list (place_cursor key place) (place_count place n) (made ordinal place)
        (split_rows n (ahead place)).collected (split_rows n (ahead place)).trx

  fmint_transactions-closed :
      (place : PagePlace D)
      → Serves db ordinal key (given_filter db filter) (documents place)
      → fmint_transactions db true (place_cursor key place) (place_count place n) filter
        ≡ some (turn_list (place_count place n) (closed place))
  unfolding fmint_transactions
  fmint_transactions-closed place s =
      rw (magnitude_eq place n, counted_eq db filter n place s, suc-eq-zero n)
        (load_made-made db filter n close_list (turn_list (place_count place n)) place s)

  closed-eq :
      (place : PagePlace D)
      → ((closed place).collection ≡ take (page_length place n) (ahead place))
        × ((closed place).is_start ≡ starts place n)
        × ((closed place).is_end ≡ ends place n)
  unfolding close_list
  closed-eq (top d rest) = let p = split_rows n (d ∷ rest) in ground (arith, p.all_eq, p.end_eq)
  closed-eq (bottom front z) =
      let p = split_rows n (reverse (front ++ z ∷ [])) in ground (arith, p.all_eq, p.end_eq)
  closed-eq (after above d below) =
      let p = split_rows n below in ground (arith, p.page_eq, p.end_eq)
  closed-eq (before above d below) =
      let p = split_rows n (reverse above) in ground (arith, p.page_eq, p.end_eq)

  -- Over a collection that the driver serves, if the cursor of the query closes, the list of fMint
  -- transactions of a count other than zero is the documents next to its place, in the order of the
  -- whole list: up to the count after a document and before one, and up to one more than the count
  -- from the top and from the bottom. It is marked as the start and as the end of the list as if it
  -- had no more than the count.
  pub fmint_transactions-Returned :
      (place : PagePlace D)
      → Serves db ordinal key (given_filter db filter) (documents place)
      → Returned
          (fmint_transactions db true (place_cursor key place) (place_count place n) filter)
          (in_order place (take (page_length place n) (ahead place)))
          (starts place n)
          (ends place n)
  fmint_transactions-Returned place s =
      let c = closed-eq place in
      let t = turn_list-turned n place (closed place) in
      record {
        list = turn_list (place_count place n) (closed place);
        returned = fmint_transactions-closed place s;
        collection_eq = t.0 ∙ ap (in_order place) (c.0);
        start_eq = t.1 ∙ c.1;
        end_eq = t.2 ∙ c.2;
      }
