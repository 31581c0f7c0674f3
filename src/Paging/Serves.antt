-- ===== src/Paging/Serves.antt =====
-- What is relied on of the database: a query returns the documents that match, in the order of
-- their ordinal index, up to the limit. The ordinal index is unique among the documents.
use explorer_api_gql.Base.{
  ℕ, ◌<◌, ◌≡◌, Bool, some, List, [], ◌∷◌, ◌++◌, map, reverse, length, take, ltb, leb, if◌then◌else◌,
}
use explorer_api_gql.Paging.{Bound, lte, gte, lt, gt, Order, descending, ascending, Driver}

abbrev pub matches : Bound → ℕ → Bool
matches (lte first) n = leb n first
matches (gte first) n = leb first n
matches (lt first) n = ltb n first
matches (gt first) n = ltb first n

module _ {D : Type 0} (ordinal : D → ℕ) where
  -- the documents are listed from the highest ordinal index to the lowest
  abbrev pub IsDescending : List D → Type 0
  IsDescending [] = Unit {0}
  IsDescending (d ∷ []) = Unit {0}
  IsDescending (d ∷ e ∷ docs) = (ordinal e < ordinal d) × IsDescending (e ∷ docs)

  abbrev pub select : Bound → List D → List D
  select bound [] = []
  select bound (d ∷ docs) =
      let rest = select bound docs in if matches bound (ordinal d) then d ∷ rest else rest

abbrev pub arrange : {D : Type 0} → Order → List D → List D
arrange descending docs = docs
arrange ascending docs = reverse docs

-- The driver serves the documents `docs` for a filter. They are listed in descending order.
pub record Serves {F K D : Type 0} (db : Driver F K D) (ordinal : D → ℕ) (key : D → K) (filter : F)
    (docs : List D) : Type 0 where
  pub sorted : IsDescending ordinal docs
  pub counted : db.count_documents filter ≡ some (length docs)
  pub highest :
      (d : D) (rest : List D)
      → docs ≡ d ∷ rest
      → db.find_border filter descending ≡ some (ordinal d)
  pub lowest :
      (rest : List D) (d : D)
      → docs ≡ rest ++ d ∷ []
      → db.find_border filter ascending ≡ some (ordinal d)
  pub located :
      (above : List D) (d : D) (below : List D)
      → docs ≡ above ++ d ∷ below
      → db.find_key (key d) ≡ some (ordinal d)
  pub found :
      (bound : Bound) (order : Order) (limit : ℕ)
      → db.find filter bound order limit
        ≡ some (map some (take limit (arrange order (select ordinal bound docs))))
