-- ===== src/Lists/Split.antt =====
-- What the loop of a list makes of the rows that are found, which are one more than are asked for.
use explorer_api_gql.Base.{
  ℕ, suc, ◌≡◌, refl, sym, ap, ◌∙◌, Option, none, some, List, [], ◌∷◌, ◌++◌, map, arith, length,
  length-append, take, take_all, take-take-suc, ltb, leb, if◌then◌else◌,
}
use mathlib.Core.List.{append_assoc}
use explorer_api_gql.Paging.{keep}
use explorer_api_gql.Paging.Load.{IsSnoc-all, empty, snoc, take_init}
use explorer_api_gql.Paging.Fetch.{snoc-le, snoc-end, take_nil}
use explorer_api_gql.Lists.{walked, failed, load_rows}

module _ {D : Type 0} where
  load_rows-some :
      (rows : List D) (row x : D) (acc : List D)
      → load_rows (map some (rows ++ row ∷ [])) (some x) acc ≡ walked (acc ++ x ∷ rows) (some row)
  unfolding load_rows
  load_rows-some [] row x acc = refl
  load_rows-some (r ∷ rows) row x acc =
      load_rows-some rows row r (acc ++ x ∷ [])
      ∙ ap (λ l. walked l (some row)) (append_assoc acc (x ∷ []) (r ∷ rows))

  load_rows-all :
      (rows : List D) (row : D)
      → load_rows (map some (rows ++ row ∷ [])) none [] ≡ walked rows (some row)
  unfolding load_rows
  load_rows-all [] row = refl
  load_rows-all (r ∷ rows) row = load_rows-some rows row r []

  load_rows-failed :
      (rows : List D) (x : D) (acc : List D) (rest : List (Option D))
      → load_rows (map some rows ++ none ∷ rest) (some x) acc ≡ failed (acc ++ x ∷ rows)
  unfolding load_rows
  load_rows-failed [] x acc rest = refl
  load_rows-failed (r ∷ rows) x acc rest =
      load_rows-failed rows r (acc ++ x ∷ []) rest
      ∙ ap failed (append_assoc acc (x ∷ []) (r ∷ rows))

  -- The rows before one that does not decode are kept.
  pub load_rows-some-none :
      (rows : List D) (rest : List (Option D))
      → load_rows (map some rows ++ none ∷ rest) none [] ≡ failed rows
  unfolding load_rows
  load_rows-some-none [] rest = refl
  load_rows-some-none (r ∷ rows) rest = load_rows-failed rows r [] rest

  -- Of the documents `xs` in the order of the query, `n + 2` are loaded.
  pub record Split (n : ℕ) (xs : List D) : Type 0 where
    pub collected : List D
    pub trx : Option D
    pub loop_eq : load_rows (map some (take (suc (suc n)) xs)) none [] ≡ walked collected trx
    -- with the row that is left over
    pub all_eq : keep trx collected ≡ take (suc (suc n)) xs
    -- with that row if the end is reached
    pub page_eq :
        (if ltb (length collected) (suc n) then keep trx collected else collected) ≡ take (suc n) xs
    pub end_eq : ltb (length collected) (suc n) ≡ leb (length xs) (suc n)

  page_of_snoc :
      (n : ℕ) (xs ys : List D) (y : D)
      → take (suc (suc n)) xs ≡ ys ++ y ∷ []
      → (if ltb (length ys) (suc n) then ys ++ y ∷ [] else ys) ≡ take (suc n) xs
  page_of_snoc n xs ys y e = page ∙ ap (take (suc n)) (sym e) ∙ take-take-suc (suc n) xs
    where
      page : (if ltb (length ys) (suc n) then ys ++ y ∷ [] else ys) ≡ take (suc n) (ys ++ y ∷ [])
      page = ground (
        arith,
        snoc-le n xs ys y e,
        length-append ys (y ∷ []),
        take_init ys y,
        take_all (suc n) (ys ++ y ∷ []),
      )

  pub split_rows : (n : ℕ) (xs : List D) → Split n xs
  unfolding load_rows
  split_rows n xs = elim (IsSnoc-all (take (suc (suc n)) xs)) [
    | empty e ↦
        let nil = take_nil (suc n) xs e in
        record {
          collected = [];
          trx = none;
          loop_eq = ap (λ r. load_rows (map some r) none []) e;
          all_eq = sym e;
          page_eq = ground (arith, ap (take (suc n)) nil);
          end_eq = ground (arith, ap length nil);
        }
    | snoc ys y e ↦ record {
      collected = ys;
      trx = some y;
      loop_eq = ap (λ r. load_rows (map some r) none []) e ∙ load_rows-all ys y;
      all_eq = sym e;
      page_eq = page_of_snoc n xs ys y e;
      end_eq = snoc-end n xs ys y e;
    }
  ]
