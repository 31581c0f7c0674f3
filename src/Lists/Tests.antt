-- ===== src/Lists/Tests.antt =====
-- The lists over a collection of ordinal indexes that serve as their own documents and keys.
use explorer_api_gql.Base.{
  ℕ, ◌≡◌, refl, true, false, Option, none, some, [], ◌∷◌, arith, ◌==◌, if◌then◌else◌,
}
use explorer_api_gql.Base.Int.{pos, negsuc}
use explorer_api_gql.Paging.{Driver}
use explorer_api_gql.Paging.Fetch.{Returned}
use explorer_api_gql.Paging.Tests.{self, stored, five, five-Serves}
use explorer_api_gql.Lists.{erc20_transactions, fmint_transactions, delegations, withdrawals}
use explorer_api_gql.Lists.Places.{bottom, top}
use explorer_api_gql.Lists.Erc.{erc20_transactions-Returned}
use explorer_api_gql.Lists.FMint.{fmint_transactions-Returned}
use explorer_api_gql.Lists.Lost.{delegations-withdrawals, unknown_cursor_ends}

erc20_transactions-Returned_example :
    Returned (erc20_transactions (stored five) true none (negsuc 1) none) (3 ∷ 1 ∷ []) false true
erc20_transactions-Returned_example =
    erc20_transactions-Returned (stored five) self none 1 self (bottom (9 ∷ 7 ∷ 5 ∷ 3 ∷ []) 1)
      five-Serves

fmint_transactions-Returned_example :
    Returned (fmint_transactions (stored five) true none (pos 2) none) (9 ∷ 7 ∷ 5 ∷ []) true false
fmint_transactions-Returned_example =
    fmint_transactions-Returned (stored five) self none 1 self (top 9 (7 ∷ 5 ∷ 3 ∷ 1 ∷ []))
      five-Serves

-- only 4 is the text of an object ID
abbrev object_id : ℕ → Option ℕ
object_id k = if k == 4 then some k else none

abbrev find_none : Unit {0} → ℕ → Option ℕ
find_none _ _ = none

unknown_cursor_ends_example :
    Returned
      (delegations (stored five) object_id find_none true (some 4) (pos 2) none)
      []
      false
      true
unknown_cursor_ends_example =
    unknown_cursor_ends (stored five) object_id find_none none 9 (7 ∷ 5 ∷ 3 ∷ 1 ∷ []) 4 4 1
      five-Serves refl refl

-- The second row that is found does not decode.
abbrev broken : Driver (Unit {0}) ℕ ℕ
broken = record {
  no_filter = tt;
  count_documents = λ _. some 3;
  estimated_document_count = some 3;
  find_border = λ _ _. some 9;
  find_key = λ _. none;
  find = λ _ _ _ _. some (some 9 ∷ none ∷ some 5 ∷ []);
}

delegations-withdrawals_example :
    Returned (delegations broken object_id find_none true none (pos 2) none) (9 ∷ []) true false
    × (withdrawals broken none (pos 2) none ≡ none)
delegations-withdrawals_example =
    delegations-withdrawals broken object_id find_none none 1 2 9 (9 ∷ []) (some 5 ∷ [])
      (record { counted = refl; highest = refl; found = refl; limited = omega arith })
