-- ===== src/Stakers/Rounds.antt =====
-- A round of the scanner over all validators.
use mathlib.Core.List.{append-nil, append_assoc}
use explorer_api_gql.Base.{
  ℕ, zero, suc, ◌+◌, ◌-◌, ◌<◌, ◌≡◌, refl, sym, ap, ◌∙◌, Bool, true, false, Option, none, some, List,
  [], ◌∷◌, ◌++◌, arith, length, if◌then◌else◌, ltb, ◌%◌, ◌==◌,
}
use explorer_api_gql.Types.{u64}
use explorer_api_gql.Stakers.{
  StiScanner, sync_top, keep_info, advance_staker, next_synced, next_staker, reset_ticker,
  StakerTick, tick_staker, run_stakers,
}

-- `n` numbers from `first` on
abbrev pub numbers : ℕ → ℕ → List ℕ
numbers first zero = []
numbers first (suc n) = first ∷ numbers (suc first) n

module _ {I : Type 0} where
  -- the entry of a validator, if there is an answer and the cache takes it
  abbrev pub entry : ℕ → Option I → Bool → List (ℕ × I)
  entry n none cached = []
  entry n (some info) cached = if cached then (n, info) ∷ [] else []

  -- the entries of ticks that come one by one for the validators from `first` on
  abbrev pub entries : ℕ → List (StakerTick I) → List (ℕ × I)
  entries first [] = []
  entries first (t ∷ ticks) = entry first (t.info first) t.cached ++ entries (suc first) ticks

  keep_info_eq :
      (o : Option I) (cached : Bool) (s : StiScanner I)
      → keep_info o cached s ≡ record s { kept = s.kept ++ entry s.current o cached }
  keep_info_eq none cached s = ap (λ k. record s { kept = k }) (sym (append-nil s.kept))
  keep_info_eq (some info) true s = refl
  keep_info_eq (some info) false s = ap (λ k. record s { kept = k }) (sym (append-nil s.kept))

  -- What a tick makes of a scanner whose counter is not at the start.
  abbrev pub after : StiScanner I → StakerTick I → StiScanner I
  after s t = record s {
    asked = s.asked ++ s.current ∷ [];
    kept = s.kept ++ entry s.current (t.info s.current) t.cached;
  }

  sync_skips : (last : Option ℕ) (s : StiScanner I) → 0 < s.current → sync_top last s ≡ (true, s)
  unfolding sync_top
  sync_skips none s p = ground arith
  sync_skips (some last) s p = ground arith

  tick_synced :
      (s u : StiScanner I) (t : StakerTick I)
      → sync_top t.last s ≡ (true, u)
      → tick_staker s t ≡ reset_ticker (advance_staker (after u t))
  unfolding tick_staker next_staker
  tick_synced s u t e =
      ap (λ o. reset_ticker (next_synced o t.info t.cached)) e
      ∙ ap (λ k. reset_ticker (advance_staker k))
          (keep_info_eq (t.info u.current) t.cached
            (record u { asked = u.asked ++ u.current ∷ [] }))

  -- on to the next one, if the top is not reached
  moves :
      (s : StiScanner I)
      → s.current < s.top
      → s.top < u64
      → reset_ticker (advance_staker s) ≡ record s { current = suc s.current }
  moves s q b =
      let e : ltb s.top ((s.current + 1) % u64) ≡ false = ground arith in
      let n : (s.current + 1) % u64 ≡ suc s.current = omega arith in
      rw e (ap (λ k. record s { current = k }) n)

  -- back to the start from the top
  wraps :
      (s : StiScanner I)
      → s.current ≡ s.top
      → s.top < u64 - 1
      → reset_ticker (advance_staker s) ≡ record s { current = 0; slow = true }
  wraps s q b = let e : ltb s.top ((s.current + 1) % u64) ≡ true = ground arith in rw e refl

  -- What is asked and kept between two states.
  pub record Round (s t : StiScanner I) (first n : ℕ) (ticks : List (StakerTick I)) : Type 0 where
    pub back : t.current ≡ 0
    pub asked : t.asked ≡ s.asked ++ numbers first n
    pub kept : t.kept ≡ s.kept ++ entries first ticks
    pub calm : t.slow ≡ true

  rest-Round :
      (ticks : List (StakerTick I)) (s : StiScanner I)
      → 0 < s.current
      → s.top < u64 - 1
      → s.current + length ticks ≡ suc s.top
      → 0 < length ticks
      → Round s (run_stakers s ticks) s.current (length ticks) ticks
  unfolding run_stakers
  rest-Round [] s p b e z = absurd (omega arith)
  rest-Round (t ∷ []) s p b e z =
      rw (tick_synced s s t (sync_skips t.last s p) ∙ wraps (after s t) (omega arith) b) (record {
        back = refl;
        asked = refl;
        kept =
            ap (λ l. s.kept ++ l) (sym (append-nil (entry s.current (t.info s.current) t.cached)));
        calm = refl;
      })
  rest-Round (t ∷ u ∷ ticks) s p b e z =
      let step =
        tick_synced s s t (sync_skips t.last s p) ∙ moves (after s t) (omega arith) (omega arith) in
      let r =
        rest-Round (u ∷ ticks) (record (after s t) { current = suc s.current }) (omega arith) b
          (omega arith) (omega arith) in
      rw step (record {
        back = r.back;
        asked =
            r.asked
            ∙ append_assoc s.asked (s.current ∷ []) (numbers (suc s.current) (suc (length ticks)));
        kept =
            r.kept
            ∙ append_assoc s.kept (entry s.current (t.info s.current) t.cached)
                (entries (suc s.current) (u ∷ ticks));
        calm = r.calm;
      })

  abbrev synced : ℕ → StiScanner I → StiScanner I
  synced n s = record s { top = n; current = 1 }

  sync_starts :
      (n : ℕ) (s : StiScanner I) → s.current ≡ 0 → sync_top (some n) s ≡ (true, synced n s)
  unfolding sync_top
  sync_starts n s z =
      let e : (s.current == 0) ≡ true = ground arith in
      let one : (s.current + 1) % u64 ≡ 1 = omega arith in
      rw e (ap (λ k. (true, record s { top = n; current = k })) one)

  first_tick :
      (n : ℕ) (s : StiScanner I) (t : StakerTick I)
      → s.current ≡ 0
      → t.last ≡ some n
      → tick_staker s t ≡ tick_staker (synced n s) t
  first_tick n s t z e =
      tick_synced s (synced n s) t (ap (λ o. sync_top o s) e ∙ sync_starts n s z)
      ∙ sym (tick_synced (synced n s) (synced n s) t (sync_skips t.last (synced n s) (omega arith)))

  -- Let a scanner stand at its start, and let the first of `n` ticks find that the last validator is
  -- `n`, which is not zero. Then the ticks ask for the validators 1 to `n`, each once and in their
  -- order, keep each answer that the cache takes under the number of its validator, and leave the scanner
  -- at its start again, with the long delay, whatever is answered for the last validator in between.
  pub ticks-Round :
      (n : ℕ) (s : StiScanner I) (t : StakerTick I) (ticks : List (StakerTick I))
      → s.current ≡ 0
      → t.last ≡ some n
      → n < u64 - 1
      → length (t ∷ ticks) ≡ n
      → Round s (run_stakers s (t ∷ ticks)) 1 n (t ∷ ticks)
  unfolding run_stakers
  ticks-Round n s t ticks z e b l =
      let r = rest-Round (t ∷ ticks) (synced n s) (omega arith) b (omega arith) (omega arith) in
      rw (first_tick n s t z e) (record {
        back = r.back;
        asked = r.asked ∙ ap (λ k. s.asked ++ numbers 1 k) l;
        kept = r.kept;
        calm = r.calm;
      })
