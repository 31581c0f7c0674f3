-- ===== src/Paging/Walk.antt =====
-- A client that asks for page after page from the top.
use mathlib.Core.List.{append_assoc}
use mathlib.Core.Option
use explorer_api_gql.Base.{
  ℕ, zero, suc, ◌≤◌, ◌<◌, ◌≡◌, refl, sym, ap, ◌∙◌, inl, inr, Bool, true, false, Bool-cases, Option,
  none, some, List, [], ◌∷◌, ◌++◌, arith, length, take, take_all, drop, length-take,
  take-append-drop, length-drop, leb,
}
use explorer_api_gql.Base.Int.{pos}
use explorer_api_gql.Paging.{Driver, given_filter, transactions}
use explorer_api_gql.Paging.Serves.{Serves}
use explorer_api_gql.Paging.Load.{empty, snoc, IsSnoc-all}
use explorer_api_gql.Paging.Fetch.{Returned}
use explorer_api_gql.Paging.Pages.{top_page, page_after}

module _ {D : Type 0} (n : ℕ) (docs : List D) where
  few_le : leb (length docs) (suc n) ≡ true → length docs ≤ suc n
  few_le h = ground arith

  many_not_nil : leb (length docs) (suc n) ≡ false → take (suc n) docs ≡ [] → ⊥
  many_not_nil h e = ground (arith, length-take (suc n) docs, ap length e)

  rest-lt :
      leb (length docs) (suc n) ≡ false
      → (fuel : ℕ) → length docs < suc fuel
      → length (drop (suc n) docs) < fuel
  rest-lt h fuel lt = ground (arith, length-drop (suc n) docs)

  snoc_parts :
      (ys : List D) (y : D) → take (suc n) docs ≡ ys ++ y ∷ [] → ys ++ y ∷ drop (suc n) docs ≡ docs
  snoc_parts ys y e =
      sym (append_assoc ys (y ∷ []) (drop (suc n) docs))
      ∙ ap (λ r. r ++ drop (suc n) docs) (sym e)
      ∙ take-append-drop (suc n) docs

module _ {F K D : Type 0} (db : Driver F K D) (key : D → K) (filter : Option F) (n : ℕ) where
  abbrev last_key : List D → Option K
  last_key [] = none
  last_key (d ∷ []) = some (key d)
  last_key (d ∷ e ∷ docs) = last_key (e ∷ docs)

  -- Pages of `n + 1` documents, each after the last document of the page before, up to the page
  -- that is marked as the end. The fuel bounds the number of pages.
  pub walk : ℕ → Option K → Option (List D)
  walk zero cursor = none
  walk (suc fuel) cursor = elim (transactions db cursor (pos (suc n)) filter) [
    | none ↦ none
    | some list ↦ elim list.is_end [
      | true ↦ some list.collection
      | false ↦ Option.map (λ rest. list.collection ++ rest) (walk fuel (last_key list.collection))
    ]
  ]

  walk_end :
      (fuel : ℕ) (cursor : Option K) (xs : List D) (is_start is_end : Bool)
      → Returned (transactions db cursor (pos (suc n)) filter) xs is_start is_end
      → is_end ≡ true
      → walk (suc fuel) cursor ≡ some xs
  unfolding walk
  walk_end fuel cursor xs is_start is_end r e =
      rw (r.returned, walk) (rw (r.end_eq ∙ e) (ap some r.collection_eq))

  walk_more :
      (fuel : ℕ) (cursor : Option K) (xs ys : List D) (is_start is_end : Bool)
      → Returned (transactions db cursor (pos (suc n)) filter) xs is_start is_end
      → is_end ≡ false
      → walk fuel (last_key xs) ≡ some ys
      → walk (suc fuel) cursor ≡ some (xs ++ ys)
  unfolding walk
  walk_more fuel cursor xs ys is_start is_end r e w =
      rw (r.returned, walk) (rw (r.end_eq ∙ e) (rw (r.collection_eq) (rw w refl)))

  last_key-snoc : (xs : List D) (x : D) → last_key (xs ++ x ∷ []) ≡ some (key x)
  last_key-snoc [] x = refl
  last_key-snoc (y ∷ []) x = refl
  last_key-snoc (y ∷ z ∷ xs) x = last_key-snoc (z ∷ xs) x

  module _ {ordinal : D → ℕ} where
    -- After a document the walk returns all that is below it.
    walk_after :
        (fuel : ℕ) (above : List D) (d : D) (below : List D)
        → Serves db ordinal key (given_filter db filter) (above ++ d ∷ below)
        → length below < fuel
        → walk fuel (some (key d)) ≡ some below
    walk_after zero above d below s lt = absurd (omega arith)
    walk_after (suc fuel) above d below s lt = elim (Bool-cases (leb (length below) (suc n))) [
      | inl few ↦
          walk_end fuel (some (key d)) (take (suc n) below) false (leb (length below) (suc n))
            (page_after db filter above d below n s) few
          ∙ ap some (take_all (suc n) below (few_le n below few))
      | inr many ↦ elim (IsSnoc-all (take (suc n) below)) [
        | empty e ↦ absurd (many_not_nil n below many e)
        | snoc ys y e ↦
            let rest = drop (suc n) below in
            let parts : ys ++ y ∷ rest ≡ below = snoc_parts n below ys y e in
            let s' : Serves db ordinal key (given_filter db filter)
                ((above ++ d ∷ ys) ++ y ∷ rest) =
              rw (append_assoc above (d ∷ ys) (y ∷ rest)) (rw parts s) in
            walk_more fuel (some (key d)) (take (suc n) below) rest false
              (leb (length below) (suc n)) (page_after db filter above d below n s) many
              (ap (walk fuel) (ap last_key e ∙ last_key-snoc ys y)
                ∙ walk_after fuel (above ++ d ∷ ys) y rest s' (rest-lt n below many fuel lt))
            ∙ ap some (take-append-drop (suc n) below)
      ]
    ]

    -- Over a collection that the driver serves, a client that walks from the top, page by page, each
    -- page after the last document of the one before, gets all the documents, each once and in their
    -- order, whatever the size of the pages; it asks for at most as many pages as there are
    -- documents, and one.
    pub walk_all :
        (docs : List D)
        → Serves db ordinal key (given_filter db filter) docs
        → walk (suc (length docs)) none ≡ some docs
    walk_all docs s = elim (Bool-cases (leb (length docs) (suc n))) [
      | inl few ↦
          walk_end (length docs) none (take (suc n) docs) true (leb (length docs) (suc n))
            (top_page db filter docs n s) few
          ∙ ap some (take_all (suc n) docs (few_le n docs few))
      | inr many ↦ elim (IsSnoc-all (take (suc n) docs)) [
        | empty e ↦ absurd (many_not_nil n docs many e)
        | snoc ys y e ↦
            let rest = drop (suc n) docs in
            let parts : ys ++ y ∷ rest ≡ docs = snoc_parts n docs ys y e in
            let s' : Serves db ordinal key (given_filter db filter) (ys ++ y ∷ rest) = rw parts s in
            walk_more (length docs) none (take (suc n) docs) rest true (leb (length docs) (suc n))
              (top_page db filter docs n s) many
              (ap (walk (length docs)) (ap last_key e ∙ last_key-snoc ys y)
                ∙ walk_after (length docs) ys y rest s'
                    (rest-lt n docs many (length docs) (omega arith)))
            ∙ ap some (take-append-drop (suc n) docs)
      ]
    ]
