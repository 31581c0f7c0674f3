-- ===== src/Paging/Tests.antt =====
-- A collection of ordinal indexes that serve as their own documents and keys, and the theorems at it.
use explorer_api_gql.Base.{
  ℕ, ◌≡◌, refl, ap, ◌∙◌, Bool, true, false, Option, none, some, List, [], ◌∷◌, ◌++◌, map, arith,
  length, take, ◌==◌, ◌||◌, if◌then◌else◌,
}
use explorer_api_gql.Base.Int.{negsuc}
use explorer_api_gql.Paging.{Driver, Order, ascending, descending, transactions}
use explorer_api_gql.Paging.Serves.{Serves, IsDescending, select, arrange}
use explorer_api_gql.Paging.Fetch.{Returned}
use explorer_api_gql.Paging.Pages.{page_before}
use explorer_api_gql.Paging.Walk.{walk, walk_all}
use explorer_api_gql.Paging.Bottom.{bottom_page_drops}

abbrev pub self : ℕ → ℕ
self n = n

abbrev first_of_list : List ℕ → Option ℕ
first_of_list [] = none
first_of_list (d ∷ docs) = some d

abbrev last_of_list : List ℕ → Option ℕ
last_of_list [] = none
last_of_list (d ∷ []) = some d
last_of_list (d ∷ e ∷ docs) = last_of_list (e ∷ docs)

abbrev contains : List ℕ → ℕ → Bool
contains [] k = false
contains (d ∷ docs) k = d == k || contains docs k

abbrev border : List ℕ → Order → Option ℕ
border docs descending = first_of_list docs
border docs ascending = last_of_list docs

-- A filter is not looked at: every document matches.
abbrev pub stored : List ℕ → Driver (Unit {0}) ℕ ℕ
stored docs = record {
  no_filter = tt;
  count_documents = λ _. some (length docs);
  estimated_document_count = some (length docs);
  find_border = λ _ order. border docs order;
  find_key = λ k. if contains docs k then some k else none;
  find =
      λ _ bound order limit. some (map some (take limit (arrange order (select self bound docs))));
}

last_of_snoc : (rest : List ℕ) (d : ℕ) → last_of_list (rest ++ d ∷ []) ≡ some d
last_of_snoc [] d = refl
last_of_snoc (x ∷ []) d = refl
last_of_snoc (x ∷ y ∷ rest) d = last_of_snoc (y ∷ rest) d

contains_split : (above : List ℕ) (d : ℕ) (below : List ℕ) → contains (above ++ d ∷ below) d ≡ true
contains_split [] d below = ground arith
contains_split (x ∷ above) d below = ground (arith, contains_split above d below)

stored-Serves : (docs : List ℕ) → IsDescending self docs → Serves (stored docs) self self tt docs
stored-Serves docs h = record {
  sorted = h;
  counted = refl;
  highest = λ d rest e. ap first_of_list e;
  lowest = λ rest d e. ap last_of_list e ∙ last_of_snoc rest d;
  located = λ above d below e. rw (ap (λ l. contains l d) e ∙ contains_split above d below);
  found = λ bound order limit. refl;
}

abbrev pub five : List ℕ
five = 9 ∷ 7 ∷ 5 ∷ 3 ∷ 1 ∷ []

pub five-Serves : Serves (stored five) self self tt five
five-Serves = stored-Serves five (omega arith)

page_before_example :
    Returned (transactions (stored five) (some 3) (negsuc 1) none) (7 ∷ 5 ∷ []) false false
page_before_example = page_before (stored five) none (9 ∷ 7 ∷ 5 ∷ []) 3 (1 ∷ []) 1 five-Serves

walk_all_example : walk (stored five) self none 1 6 none ≡ some five
walk_all_example = walk_all (stored five) self none 1 five five-Serves

bottom_page_drops_example :
    Returned (transactions (stored five) none (negsuc 1) none) (5 ∷ 3 ∷ []) false true
bottom_page_drops_example =
    bottom_page_drops (stored five) self none 1 (9 ∷ 7 ∷ []) 5 (3 ∷ []) 1 refl five-Serves
