-- ===== src/Lists/Places.antt =====
-- The places that a list may be asked for: from the top, from the bottom, and after or before a
-- document. A place says what the rows of the query are, whatever the list makes of them.
use explorer_api_gql.Base.{
  ℕ, suc, ◌+◌, ◌≡◌, refl, Bool, true, false, Option, none, some, List, [], ◌∷◌, ◌++◌, length,
  reverse, leb,
}
use explorer_api_gql.Base.Int.{ℤ, pos, negsuc, magnitude}
use explorer_api_gql.Paging.{TransactionList}

pub data PagePlace (D : Type 0) : Type 0 where
  top : D → List D → PagePlace D
  bottom : List D → D → PagePlace D
  after before : List D → D → List D → PagePlace D

module _ {D : Type 0} where
  -- the whole collection, from the highest ordinal index to the lowest
  abbrev pub documents : PagePlace D → List D
  documents (top d rest) = d ∷ rest
  documents (bottom front z) = front ++ z ∷ []
  documents (after above d below) = above ++ d ∷ below
  documents (before above d below) = above ++ d ∷ below

  abbrev pub place_cursor : {K : Type 0} → (D → K) → PagePlace D → Option K
  place_cursor key (top d rest) = none
  place_cursor key (bottom front z) = none
  place_cursor key (after above d below) = some (key d)
  place_cursor key (before above d below) = some (key d)

  abbrev pub place_count : PagePlace D → ℕ → ℤ
  place_count (top d rest) n = pos (suc n)
  place_count (bottom front z) n = negsuc n
  place_count (after above d below) n = pos (suc n)
  place_count (before above d below) n = negsuc n

  -- the documents on from the place, the nearest first
  abbrev pub ahead : PagePlace D → List D
  ahead (top d rest) = d ∷ rest
  ahead (bottom front z) = reverse (front ++ z ∷ [])
  ahead (after above d below) = below
  ahead (before above d below) = reverse above

  -- whether the page starts at the start of the collection, or ends at its end
  abbrev pub starts : PagePlace D → ℕ → Bool
  starts (top d rest) n = true
  starts (bottom front z) n = leb (length (ahead (bottom front z))) (suc n)
  starts (after above d below) n = false
  starts (before above d below) n = leb (length (ahead (before above d below))) (suc n)

  abbrev pub ends : PagePlace D → ℕ → Bool
  ends (top d rest) n = leb (length (ahead (top d rest))) (suc n)
  ends (bottom front z) n = true
  ends (after above d below) n = leb (length (ahead (after above d below))) (suc n)
  ends (before above d below) n = false

  -- A page is in the order of the whole collection.
  abbrev pub in_order : PagePlace D → List D → List D
  in_order (top d rest) rows = rows
  in_order (bottom front z) rows = reverse rows
  in_order (after above d below) rows = rows
  in_order (before above d below) rows = reverse rows

  abbrev pub first_mark : (D → ℕ) → PagePlace D → ℕ
  first_mark ordinal (top d rest) = ordinal d
  first_mark ordinal (bottom front z) = ordinal z
  first_mark ordinal (after above d below) = ordinal d
  first_mark ordinal (before above d below) = ordinal d

  abbrev pub others : PagePlace D → ℕ
  others (top d rest) = length rest
  others (bottom front z) = length front
  others (after above d below) = length above + length below
  others (before above d below) = length above + length below

  abbrev pub at_top : PagePlace D → Bool
  at_top (top d rest) = true
  at_top (bottom front z) = false
  at_top (after above d below) = false
  at_top (before above d below) = false

  abbrev pub at_bottom : PagePlace D → Bool
  at_bottom (top d rest) = false
  at_bottom (bottom front z) = true
  at_bottom (after above d below) = false
  at_bottom (before above d below) = false

  -- the list that the range marks make for the place
  abbrev pub made : (D → ℕ) → PagePlace D → TransactionList D
  made ordinal place = record {
    collection = [];
    total = suc (others place);
    first = first_mark ordinal place;
    last = 0;
    is_start = at_top place;
    is_end = at_bottom place;
  }

  pub magnitude_eq : (place : PagePlace D) (n : ℕ) → magnitude (place_count place n) ≡ suc n
  magnitude_eq (top d rest) n = refl
  magnitude_eq (bottom front z) n = refl
  magnitude_eq (after above d below) n = refl
  magnitude_eq (before above d below) n = refl
