-- ===== src/Paging/Pages.antt =====
-- What `Transactions` returns for each direction and cursor, over a database that serves `docs`.
use explorer_api_gql.Base.{
  ℕ, suc, ◌+◌, refl, sym, ap, ◌∙◌, true, false, Option, none, some, List, [], ◌∷◌, ◌++◌, arith,
  length, take, take-take-suc, reverse, leb,
}
use explorer_api_gql.Base.Int.{pos, negsuc}
use explorer_api_gql.Paging.{
  Driver, given_filter, list_documents_count, init_list, close_list, finish_list, transactions,
}
use explorer_api_gql.Paging.Serves.{Serves}
use explorer_api_gql.Paging.Select.{select_lt, select_gt, select_lte, select_gte}
use explorer_api_gql.Paging.Load.{
  empty, snoc, IsSnoc-all, first_page, next_page, previous_page, last_page, length-reverse,
  no_rows_after, no_rows_before,
}
use explorer_api_gql.Paging.Fetch.{
  Returned, marked, init_list_top, init_list_bottom, init_list_cursor, fetched_some, fetched_none,
  snoc-le, snoc-end, take_nil, length_split, short_end, length_snoc, snoc-ne-nil, bottom,
  bottom_rows,
}

module _ {F K D : Type 0} (db : Driver F K D) where
  module _ {ordinal : D → ℕ} {key : D → K} (filter : Option F) where
    -- Over a collection of documents sorted by falling ordinal index that the driver serves, the list
    -- of a positive count from the top is the first documents, up to the count, marked as the start
    -- of the list, and as its end exactly if there are no more.
    pub top_page :
        (docs : List D) (n : ℕ)
        → Serves db ordinal key (given_filter db filter) docs
        → Returned
            (transactions db none (pos (suc n)) filter)
            (take (suc n) docs)
            true
            (leb (length docs) (suc n))
    unfolding transactions init_list list_documents_count
    top_page [] n s = record {
      list = marked db 0 0 true true;
      returned = ground (arith, s.counted);
      collection_eq = refl;
      start_eq = refl;
      end_eq = ground arith;
    }
    top_page (d ∷ rest) n s = elim (IsSnoc-all (take (suc (suc n)) (d ∷ rest))) [
      | empty e ↦ cc
      | snoc ys y e ↦
          let list = marked db (suc (length rest)) (ordinal d) true false in
          let kept = first_page K n ys y list (snoc-le n (d ∷ rest) ys y e) in
          record {
            list = finish_list (pos (suc n)) (close_list none (pos (suc n)) list ys (some y));
            returned =
                fetched_some db filter n s none (pos (suc n)) (length rest) (ordinal d) true false
                  (d ∷ rest) ys y refl
                  (init_list_top db n filter (length rest) (ordinal d) s.counted
                    (s.highest d rest refl))
                  (select_lte ordinal d rest s.sorted) e;
            collection_eq = kept.0 ∙ ap (take (suc n)) (sym e) ∙ take-take-suc (suc n) (d ∷ rest);
            start_eq = kept.1;
            end_eq = kept.2 ∙ snoc-end n (d ∷ rest) ys y e;
          }
    ]

    -- Over a collection that the driver serves, the list of a positive count after the document `d` is
    -- the documents that follow `d`, up to the count, not marked as the start of the list, and marked
    -- as its end exactly if there are no more.
    pub page_after :
        (above : List D) (d : D) (below : List D) (n : ℕ)
        → Serves db ordinal key (given_filter db filter) (above ++ d ∷ below)
        → Returned
            (transactions db (some (key d)) (pos (suc n)) filter)
            (take (suc n) below)
            false
            (leb (length below) (suc n))
    page_after above d below n s =
        let total = length above + length below in
        let init =
          init_list_cursor db (key d) (pos (suc n)) filter total (ordinal d)
            (s.counted ∙ ap some (length_split above d below)) (s.located above d below refl) in
        let selected = select_lt ordinal above d below s.sorted in
        let list = marked db (suc total) (ordinal d) false false in
        elim (IsSnoc-all (take (suc (suc n)) below)) [
          | empty e ↦
              let nil = take_nil (suc n) below e in
              record {
                list =
                    finish_list (pos (suc n))
                      (close_list (some (key d)) (pos (suc n)) list [] none);
                returned =
                    fetched_none db filter n s (some (key d)) (pos (suc n)) total (ordinal d) false
                      false refl init (selected ∙ nil);
                collection_eq = (no_rows_after (key d) n list).0 ∙ sym (ap (take (suc n)) nil);
                start_eq = (no_rows_after (key d) n list).1;
                end_eq = (no_rows_after (key d) n list).2 ∙ short_end n below below refl nil;
              }
          | snoc ys y e ↦
              let kept = next_page (key d) n ys y list (snoc-le n below ys y e) in
              record {
                list =
                    finish_list (pos (suc n))
                      (close_list (some (key d)) (pos (suc n)) list ys (some y));
                returned =
                    fetched_some db filter n s (some (key d)) (pos (suc n)) total (ordinal d) false
                      false below ys y refl init selected e;
                collection_eq = kept.0 ∙ ap (take (suc n)) (sym e) ∙ take-take-suc (suc n) below;
                start_eq = kept.1;
                end_eq = kept.2 ∙ snoc-end n below ys y e;
              }
        ]

    -- Over a collection that the driver serves, the list of a negative count before the document `d`
    -- is the documents right before `d`, up to the count, in the order of the whole list, marked as
    -- the start of the list exactly if there are no more, and not marked as its end.
    pub page_before :
        (above : List D) (d : D) (below : List D) (n : ℕ)
        → Serves db ordinal key (given_filter db filter) (above ++ d ∷ below)
        → Returned
            (transactions db (some (key d)) (negsuc n) filter)
            (reverse (take (suc n) (reverse above)))
            (leb (length above) (suc n))
            false
    page_before above d below n s =
        let total = length above + length below in
        let init =
          init_list_cursor db (key d) (negsuc n) filter total (ordinal d)
            (s.counted ∙ ap some (length_split above d below)) (s.located above d below refl) in
        let selected = ap reverse (select_gt ordinal above d below s.sorted) in
        let list = marked db (suc total) (ordinal d) false false in
        elim (IsSnoc-all (take (suc (suc n)) (reverse above))) [
          | empty e ↦
              let nil = take_nil (suc n) (reverse above) e in
              record {
                list = finish_list (negsuc n) (close_list (some (key d)) (negsuc n) list [] none);
                returned =
                    fetched_none db filter n s (some (key d)) (negsuc n) total (ordinal d) false
                      false refl init (selected ∙ nil);
                collection_eq =
                    (no_rows_before (key d) n list).0
                    ∙ sym (ap (λ r. reverse (take (suc n) r)) nil);
                start_eq =
                    (no_rows_before (key d) n list).1
                    ∙ short_end n (reverse above) above (sym (length-reverse above)) nil;
                end_eq = (no_rows_before (key d) n list).2;
              }
          | snoc ys y e ↦
              let kept = previous_page (key d) n ys y list (snoc-le n (reverse above) ys y e) in
              record {
                list =
                    finish_list (negsuc n) (close_list (some (key d)) (negsuc n) list ys (some y));
                returned =
                    fetched_some db filter n s (some (key d)) (negsuc n) total (ordinal d) false
                      false (reverse above) ys y refl init selected e;
                collection_eq =
                    kept.0
                    ∙ ap (λ r. reverse (take (suc n) r)) (sym e)
                    ∙ ap reverse (take-take-suc (suc n) (reverse above));
                start_eq =
                    kept.1
                    ∙ snoc-end n (reverse above) ys y e
                    ∙ ap (λ l. leb l (suc n)) (length-reverse above);
                end_eq = kept.2;
              }
        ]

    -- From the bottom, with `docs` ending in `z`.
    pub bottom_page :
        (front : List D) (z : D) (n : ℕ)
        → Serves db ordinal key (given_filter db filter) (front ++ z ∷ [])
        → Returned
            (transactions db none (negsuc n) filter)
            (bottom n (front ++ z ∷ []))
            (leb (length (front ++ z ∷ [])) (suc n))
            true
    bottom_page front z n s =
        let docs = front ++ z ∷ [] in
        let init =
          init_list_bottom db n filter (length front) (ordinal z)
            (s.counted ∙ ap some (length_snoc front z)) (s.lowest front z refl) in
        let selected = ap reverse (select_gte ordinal front z s.sorted) in
        let list = marked db (suc (length front)) (ordinal z) false true in
        elim (IsSnoc-all (take (suc (suc n)) (reverse docs))) [
          | empty e ↦ absurd (snoc-ne-nil n front z e)
          | snoc ys y e ↦
              let kept = last_page K n ys y list (snoc-le n (reverse docs) ys y e) in
              record {
                list = finish_list (negsuc n) (close_list none (negsuc n) list ys (some y));
                returned =
                    fetched_some db filter n s none (negsuc n) (length front) (ordinal z) false true
                      (reverse docs) ys y refl init selected e;
                collection_eq = kept.0 ∙ bottom_rows n docs ys y e;
                start_eq =
                    kept.1
                    ∙ snoc-end n (reverse docs) ys y e
                    ∙ ap (λ l. leb l (suc n)) (length-reverse docs);
                end_eq = kept.2;
              }
        ]
