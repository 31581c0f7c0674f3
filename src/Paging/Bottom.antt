-- ===== src/Paging/Bottom.antt =====
-- The first page from the bottom, when there are more documents than it takes.
use mathlib.Core.List.{reverse-append, reverse-reverse}
use explorer_api_gql.Base.{
  ℕ, suc, ◌≡◌, sym, ap, ◌∙◌, true, false, Option, none, List, [], ◌∷◌, ◌++◌, arith, length,
  length-append, take, take_append, reverse, leb,
}
use explorer_api_gql.Base.Int.{negsuc}
use explorer_api_gql.Paging.{Driver, given_filter, transactions}
use explorer_api_gql.Paging.Serves.{Serves}
use explorer_api_gql.Paging.Load.{length-reverse}
use explorer_api_gql.Paging.Fetch.{Returned, bottom}
use explorer_api_gql.Paging.Pages.{bottom_page}

module _ {D : Type 0} {n : ℕ} (newer : List D) (y : D) (page : List D) (z : D)
    (l : length page ≡ n) where
  too_many : leb (length ((newer ++ y ∷ page) ++ z ∷ [])) (suc n) ≡ false
  too_many =
      ground (arith, length-append (newer ++ y ∷ page) (z ∷ []), length-append newer (y ∷ page))

  reversed : reverse ((newer ++ y ∷ page) ++ z ∷ []) ≡ (z ∷ reverse page ++ y ∷ []) ++ reverse newer
  reversed =
      reverse-append (newer ++ y ∷ page) (z ∷ [])
      ∙ ap (λ r. z ∷ r)
          (reverse-append newer (y ∷ page)
            ∙ ap (λ r. r ++ reverse newer) (reverse-append (y ∷ []) page))

  rows_length : length (z ∷ reverse page ++ y ∷ []) ≡ suc (suc n)
  rows_length = omega (arith, length-append (reverse page) (y ∷ []), length-reverse page)

  rows_eq :
      take (suc (suc n)) (reverse ((newer ++ y ∷ page) ++ z ∷ [])) ≡ z ∷ reverse page ++ y ∷ []
  rows_eq =
      ap (take (suc (suc n))) reversed
      ∙ ap (λ k. take k ((z ∷ reverse page ++ y ∷ []) ++ reverse newer)) (sym rows_length)
      ∙ take_append (z ∷ reverse page ++ y ∷ []) (reverse newer)

  turned : reverse (z ∷ reverse page ++ y ∷ []) ≡ (y ∷ page) ++ z ∷ []
  turned =
      reverse-append (z ∷ reverse page) (y ∷ [])
      ∙ ap (λ r. y ∷ r)
          (reverse-append (z ∷ []) (reverse page) ∙ ap (λ r. r ++ z ∷ []) (reverse-reverse page))

  bottom_drops : bottom n ((newer ++ y ∷ page) ++ z ∷ []) ≡ y ∷ page
  unfolding bottom
  bottom_drops = rw too_many (
      ap (λ r. take (suc n) (reverse r)) rows_eq
      ∙ ap (take (suc n)) turned
      ∙ ap (λ k. take k ((y ∷ page) ++ z ∷ [])) (ap suc (sym l))
      ∙ take_append (y ∷ page) (z ∷ []))

module _ {F K D : Type 0} (db : Driver F K D) (key : D → K) (filter : Option F) (n : ℕ) where
  module _ {ordinal : D → ℕ} where
    -- Over a collection that the driver serves, the list of a negative count from the bottom, when
    -- there are more documents than the count, leaves out the oldest document, `z`, and starts one
    -- document too early, with `y`; it is marked as the end of the list all the same.
    pub bottom_page_drops :
        (newer : List D) (y : D) (page : List D) (z : D)
        → length page ≡ n
        → Serves db ordinal key (given_filter db filter) ((newer ++ y ∷ page) ++ z ∷ [])
        → Returned (transactions db none (negsuc n) filter) (y ∷ page) false true
    bottom_page_drops newer y page z l s =
        let r = bottom_page db filter (newer ++ y ∷ page) z n s in
        record {
          list = r.list;
          returned = r.returned;
          collection_eq = r.collection_eq ∙ bottom_drops newer y page z l;
          start_eq = r.start_eq ∙ too_many newer y page z l;
          end_eq = r.end_eq;
        }
