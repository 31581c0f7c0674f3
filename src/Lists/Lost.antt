-- ===== src/Lists/Lost.antt =====
-- The errors that the list of delegations loses, where the list of withdrawals keeps them.
use explorer_api_gql.Base.{
  ℕ, suc, ◌≤◌, ◌≡◌, refl, ap, ◌∙◌, true, false, Option, none, some, List, [], ◌∷◌, ◌++◌, map, arith,
  length, take, ◌+◌,
}
use explorer_api_gql.Base.Int.{pos}
use explorer_api_gql.Paging.{
  Driver, lte, descending, given_filter, collect, finish_list, list_with_range_marks, lt,
  close_list,
}
use explorer_api_gql.Paging.Fetch.{Returned}
use explorer_api_gql.Lists.{
  load_rows, list_init, load_made, deferred_load, withdrawals_load, closed_list,
  delegation_range_marks, delegations, withdrawals,
}
use explorer_api_gql.Lists.Split.{load_rows-some-none}
use explorer_api_gql.Paging.Serves.{Serves, select}

collect-some-none :
    {D : Type 0} (rows : List D) (rest : List (Option D)) (trx : Option D) (acc : List D)
    → collect (map some rows ++ none ∷ rest) trx acc ≡ none
unfolding collect
collect-some-none [] rest trx acc = refl
collect-some-none (r ∷ rows) rest none acc = collect-some-none rows rest (some r) acc
collect-some-none (r ∷ rows) rest (some x) acc =
    collect-some-none rows rest (some r) (acc ++ x ∷ [])

module _ {F K D I : Type 0} (db : Driver F K D) (object_id : K → Option I)
    (find_id : F → I → Option ℕ) (filter : Option F) (n total first : ℕ) (rows : List D)
    (rest : List (Option D)) where
  -- what the driver answers for a page from the top, with a row that does not decode
  pub record IsBroken : Type 0 where
    pub counted : db.count_documents (given_filter db filter) ≡ some (suc total)
    pub highest : db.find_border (given_filter db filter) descending ≡ some first
    pub found :
        db.find (given_filter db filter) (lte first) descending (suc n + 1)
        ≡ some (map some rows ++ none ∷ rest)
    pub limited : length rows ≤ suc n

  delegations-broken :
      IsBroken
      → Returned (delegations db object_id find_id true none (pos (suc n)) filter) rows true false
  unfolding delegations list_init delegation_range_marks load_made deferred_load closed_list
      finish_list
  delegations-broken b = record {
    list = record {
      collection = rows;
      total = suc total;
      first = first;
      last = 0;
      is_start = true;
      is_end = false;
    };
    returned =
        ground (arith, b.counted, b.highest, b.found, b.limited, load_rows-some-none rows rest);
    collection_eq = refl;
    start_eq = refl;
    end_eq = refl;
  }

  withdrawals-broken : IsBroken → withdrawals db none (pos (suc n)) filter ≡ none
  unfolding withdrawals list_init list_with_range_marks load_made withdrawals_load
  withdrawals-broken b =
      ground (arith, b.counted, b.highest, b.found, collect-some-none rows rest none [])

  -- Let a row of a page from the top not decode, after the rows `rows`. The list of withdrawals is an
  -- error then. The list of delegations is a list without an error if the cursor of the query
  -- closes: it has the rows before that one, and is not marked as the end.
  pub delegations-withdrawals :
      IsBroken
      → Returned (delegations db object_id find_id true none (pos (suc n)) filter) rows true false
        × (withdrawals db none (pos (suc n)) filter ≡ none)
  delegations-withdrawals b = (delegations-broken b, withdrawals-broken b)

select_below_zero : {D : Type 0} (ordinal : D → ℕ) (docs : List D) → select ordinal (lt 0) docs ≡ []
select_below_zero ordinal [] = refl
select_below_zero ordinal (d ∷ docs) = ground (arith, select_below_zero ordinal docs)

module _ {F K D I : Type 0} (db : Driver F K D) (object_id : K → Option I)
    (find_id : F → I → Option ℕ) (filter : Option F) where
  -- Over a collection that the driver serves, which is not empty, if a cursor is the text of an
  -- object ID that the driver does not find, and the cursor of the query closes, then the list of
  -- delegations of a positive count after it is not an error: it has no documents, and is marked as
  -- the end.
  pub unknown_cursor_ends :
      {ordinal : D → ℕ} {key : D → K} (d : D) (docs : List D) (cursor : K) (id : I) (n : ℕ)
      → Serves db ordinal key (given_filter db filter) (d ∷ docs)
      → object_id cursor ≡ some id
      → find_id (given_filter db filter) id ≡ none
      → Returned
          (delegations db object_id find_id true (some cursor) (pos (suc n)) filter)
          []
          false
          true
  unfolding delegations list_init delegation_range_marks load_made deferred_load closed_list
      finish_list close_list load_rows
  unknown_cursor_ends {ordinal} d docs cursor id n s o f = record {
    list = record {
      collection = [];
      total = suc (length docs);
      first = 0;
      last = 0;
      is_start = false;
      is_end = true;
    };
    returned = ground (
      arith,
      s.counted,
      o,
      f,
      s.found (lt 0) descending (suc n + 1)
          ∙ ap (λ r. some (map some (take (suc n + 1) r))) (select_below_zero ordinal (d ∷ docs)),
    );
    collection_eq = refl;
    start_eq = refl;
    end_eq = refl;
  }
