-- ===== src/Paging/Select.antt =====
-- What a bound on the ordinal index selects from documents in descending order.
use explorer_api_gql.Base.{
  ℕ, ◌≤◌, ◌<◌, ◌≡◌, refl, ap, ◌∙◌, true, false, List, [], ◌∷◌, ◌++◌, arith, All, All-map,
}
use explorer_api_gql.Paging.{Bound, lte, gte, lt, gt}
use explorer_api_gql.Paging.Serves.{matches, IsDescending, select}
use mathlib.Core.List.{append-nil}

module _ {D : Type 0} (ordinal : D → ℕ) where
  select_kept :
      (b : Bound) (xs : List D)
      → All (λ e. matches b (ordinal e) ≡ true) xs
      → select ordinal b xs ≡ xs
  select_kept b [] h = refl
  select_kept b (x ∷ xs) h = rw (h.0) (ap (λ r. x ∷ r) (select_kept b xs h.1))

  select_none :
      (b : Bound) (xs : List D)
      → All (λ e. matches b (ordinal e) ≡ false) xs
      → select ordinal b xs ≡ []
  select_none b [] h = refl
  select_none b (x ∷ xs) h = rw (h.0) (select_none b xs h.1)

  select-append :
      (b : Bound) (xs ys : List D)
      → select ordinal b (xs ++ ys) ≡ select ordinal b xs ++ select ordinal b ys
  select-append b [] ys = refl
  select-append b (x ∷ xs) ys = ground (arith, select-append b xs ys)

  IsDescending-tail :
      (d : D) (docs : List D) → IsDescending ordinal (d ∷ docs) → IsDescending ordinal docs
  IsDescending-tail d [] h = tt
  IsDescending-tail d (e ∷ docs) h = h.1

  below_head :
      (d : D) (docs : List D) (k : ℕ)
      → ordinal d ≤ k
      → IsDescending ordinal (d ∷ docs)
      → All (λ e. ordinal e < k) docs
  below_head d [] k le h = tt
  below_head d (e ∷ docs) k le h = (omega arith, below_head e docs k (omega arith) h.1)

  -- Around a document, those before it are above it and those after it are below it.
  pub around :
      (above : List D) (d : D) (below : List D)
      → IsDescending ordinal (above ++ d ∷ below)
      → All (λ e. ordinal d < ordinal e) above × All (λ e. ordinal e < ordinal d) below
  around [] d below h = (tt, below_head d below (ordinal d) (omega arith) h)
  around (x ∷ above) d below h =
      let (a, b) = around above d below (IsDescending-tail x (above ++ d ∷ below) h) in
      ((first_above above x h, a), b)
    where
      first_above :
          (above : List D) (x : D)
          → IsDescending ordinal (x ∷ above ++ d ∷ below)
          → ordinal d < ordinal x
      first_above [] x h = h.0
      first_above (y ∷ above) x h = omega (arith, first_above above y h.1)

  not-below : (k n : ℕ) → k < n → matches (lt k) n ≡ false
  not-below k n h = ground arith

  lt_below : (k n : ℕ) → n < k → matches (lt k) n ≡ true
  lt_below k n h = ground arith

  not-above : (k n : ℕ) → n < k → matches (gt k) n ≡ false
  not-above k n h = ground arith

  gt_above : (k n : ℕ) → k < n → matches (gt k) n ≡ true
  gt_above k n h = ground arith

  lte_below : (k n : ℕ) → n < k → matches (lte k) n ≡ true
  lte_below k n h = ground arith

  gte_above : (k n : ℕ) → k < n → matches (gte k) n ≡ true
  gte_above k n h = ground arith

  lt_self :
      (d : D) (xs : List D)
      → select ordinal (lt (ordinal d)) (d ∷ xs) ≡ select ordinal (lt (ordinal d)) xs
  lt_self d xs = ground arith

  gt_self :
      (d : D) (xs : List D)
      → select ordinal (gt (ordinal d)) (d ∷ xs) ≡ select ordinal (gt (ordinal d)) xs
  gt_self d xs = ground arith

  lte_self :
      (d : D) (xs : List D)
      → select ordinal (lte (ordinal d)) (d ∷ xs) ≡ d ∷ select ordinal (lte (ordinal d)) xs
  lte_self d xs = ground arith

  gte_self :
      (d : D) (xs : List D)
      → select ordinal (gte (ordinal d)) (d ∷ xs) ≡ d ∷ select ordinal (gte (ordinal d)) xs
  gte_self d xs = ground arith

  module _ (above : List D) (d : D) (below : List D)
      (h : IsDescending ordinal (above ++ d ∷ below)) where
    pub select_lt : select ordinal (lt (ordinal d)) (above ++ d ∷ below) ≡ below
    select_lt =
        let (a, b) = around above d below h in
        select-append (lt (ordinal d)) above (d ∷ below)
        ∙ rw
            (
              select_none (lt (ordinal d)) above
                  (All-map (λ e. not-below (ordinal d) (ordinal e)) above a),
              lt_self d below,
            )
            (select_kept (lt (ordinal d)) below
              (All-map (λ e. lt_below (ordinal d) (ordinal e)) below b))

    pub select_gt : select ordinal (gt (ordinal d)) (above ++ d ∷ below) ≡ above
    select_gt =
        let (a, b) = around above d below h in
        select-append (gt (ordinal d)) above (d ∷ below)
        ∙ rw
            (
              select_kept (gt (ordinal d)) above
                  (All-map (λ e. gt_above (ordinal d) (ordinal e)) above a),
              gt_self d below,
              select_none (gt (ordinal d)) below
                  (All-map (λ e. not-above (ordinal d) (ordinal e)) below b),
            )
            (append-nil above)

  pub select_lte :
      (d : D) (docs : List D)
      → IsDescending ordinal (d ∷ docs)
      → select ordinal (lte (ordinal d)) (d ∷ docs) ≡ d ∷ docs
  select_lte d docs h =
      let (a, b) = around [] d docs h in
      lte_self d docs
      ∙ ap (λ r. d ∷ r)
          (select_kept (lte (ordinal d)) docs
            (All-map (λ e. lte_below (ordinal d) (ordinal e)) docs b))

  pub select_gte :
      (docs : List D) (d : D)
      → IsDescending ordinal (docs ++ d ∷ [])
      → select ordinal (gte (ordinal d)) (docs ++ d ∷ []) ≡ docs ++ d ∷ []
  select_gte docs d h =
      let (a, b) = around docs d [] h in
      select-append (gte (ordinal d)) docs (d ∷ [])
      ∙ rw (
        select_kept (gte (ordinal d)) docs
            (All-map (λ e. gte_above (ordinal d) (ordinal e)) docs a),
        gte_self d [],
      )
