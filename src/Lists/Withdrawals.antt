-- ===== src/Lists/Withdrawals.antt =====
-- The list of withdrawals (Withdrawals, and RewardClaims likewise) beside that of transactions.
use explorer_api_gql.Base.{ℕ, ◌≡◌, Option, some, arith}
use explorer_api_gql.Base.Int.{ℤ}
use explorer_api_gql.Paging.{
  Driver, given_filter, list_documents_count, init_list, list_load, transactions,
}
use explorer_api_gql.Lists.{list_init, load_made, withdrawals_load, withdrawals}

module _ {F K D : Type 0} (db : Driver F K D) where
  -- While the documents of a filter can be counted, the list of withdrawals is what the list of
  -- transactions makes of them, so that its pages are those of Paging/Pages.
  pub withdrawals-eq-transactions :
      (cursor : Option K) (count : ℤ) (filter : Option F) (total : ℕ)
      → db.count_documents (given_filter db filter) ≡ some total
      → withdrawals db cursor count filter ≡ transactions db cursor count filter
  unfolding withdrawals list_init load_made withdrawals_load transactions init_list
      list_documents_count list_load
  withdrawals-eq-transactions cursor count filter total c = ground arith
