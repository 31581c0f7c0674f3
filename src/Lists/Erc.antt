-- ===== src/Lists/Erc.antt =====
-- The pages of the list of token transactions (Erc20Transactions), over a database that serves the
-- collection.
use explorer_api_gql.Base.{
  ℕ, suc, ◌≡◌, ap, ◌∙◌, true, Option, some, [], ◌∷◌, ◌++◌, arith, take, reverse,
}
use explorer_api_gql.Paging.{Driver, TransactionList, given_filter}
use explorer_api_gql.Paging.Serves.{Serves}
use explorer_api_gql.Paging.Fetch.{Returned}
use explorer_api_gql.Lists.{erc_close_list, turn_list, erc20_transactions}
use explorer_api_gql.Lists.Split.{split_rows}
use explorer_api_gql.Lists.Places.{
  PagePlace, top, bottom, after, before, documents, place_cursor, place_count, ahead, in_order,
  starts, ends, made, magnitude_eq,
}
use explorer_api_gql.Lists.Served.{estimated_eq, load_made-made, turn_list-turned, suc-eq-zero}

module _ {F K D : Type 0} (db : Driver F K D) (key : D → K) (filter : Option F) (n : ℕ)
    (ordinal : D → ℕ) where
  abbrev closed : PagePlace D → TransactionList D
  closed place =
      erc_close_list (place_cursor key place) (place_count place n) (made ordinal place)
        (split_rows n (ahead place)).collected (split_rows n (ahead place)).trx

  erc20_transactions-closed :
      (place : PagePlace D)
      → Serves db ordinal key (given_filter db filter) (documents place)
      → erc20_transactions db true (place_cursor key place) (place_count place n) filter
        ≡ some (turn_list (place_count place n) (closed place))
  unfolding erc20_transactions
  erc20_transactions-closed place s =
      rw (magnitude_eq place n, estimated_eq db filter n place s, suc-eq-zero n)
        (load_made-made db filter n erc_close_list (turn_list (place_count place n)) place s)

  closed-eq :
      (place : PagePlace D)
      → ((closed place).collection ≡ take (suc n) (ahead place))
        × ((closed place).is_start ≡ starts place n)
        × ((closed place).is_end ≡ ends place n)
  unfolding erc_close_list
  closed-eq (top d rest) = let p = split_rows n (d ∷ rest) in ground (arith, p.page_eq, p.end_eq)
  closed-eq (bottom front z) =
      let p = split_rows n (reverse (front ++ z ∷ [])) in ground (arith, p.page_eq, p.end_eq)
  closed-eq (after above d below) =
      let p = split_rows n below in ground (arith, p.page_eq, p.end_eq)
  closed-eq (before above d below) =
      let p = split_rows n (reverse above) in ground (arith, p.page_eq, p.end_eq)

  -- Over a collection that the driver serves, if the cursor of the query closes, the list of token
  -- transactions of a count other than zero is the documents next to its place, up to the count,
  -- in the order of the whole list: from the top, from the bottom, after a document and before one.
  -- It is marked as the start of the list exactly if it is asked for from the top, or no more come
  -- before it; as its end exactly if it is asked for from the bottom, or no more come after it.
  pub erc20_transactions-Returned :
      (place : PagePlace D)
      → Serves db ordinal key (given_filter db filter) (documents place)
      → Returned
          (erc20_transactions db true (place_cursor key place) (place_count place n) filter)
          (in_order place (take (suc n) (ahead place)))
          (starts place n)
          (ends place n)
  erc20_transactions-Returned place s =
      let c = closed-eq place in
      let t = turn_list-turned n place (closed place) in
      record {
        list = turn_list (place_count place n) (closed place);
        returned = erc20_transactions-closed place s;
        collection_eq = t.0 ∙ ap (in_order place) (c.0);
        start_eq = t.1 ∙ c.1;
        end_eq = t.2 ∙ c.2;
      }
