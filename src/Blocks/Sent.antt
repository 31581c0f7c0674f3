-- ===== src/Blocks/Sent.antt =====
-- What the block dispatcher sends.
use mathlib.Core.List.{append-nil, append_assoc}
use explorer_api_gql.Base.{
  ℕ, suc, ◌≡◌, refl, sym, ap, ◌∙◌, ◌⊎◌, Bool, Bool-cases, true, false, inl, inr, Option,
  Option-cases, none, some, List, [], ◌∷◌, ◌++◌, map, arith,
}
use explorer_api_gql.Types.{Hash, Block, Transaction}
use explorer_api_gql.Burn.{EventTrx}
use explorer_api_gql.Blocks.{BlockDispatcher, load, process_txs, process, cache_block, run}

module _ (transaction : Hash → Option Transaction) where
  abbrev packed : Block → Option Transaction → List EventTrx
  packed blk none = []
  packed blk (some trx) = record { blk = blk; trx = trx } ∷ []

  -- the transactions of some hashes that can be loaded
  abbrev pub loaded : Block → List Hash → List EventTrx
  loaded blk [] = []
  loaded blk (th ∷ txs) = packed blk (load transaction blk th) ++ loaded blk txs

  -- those of some blocks
  abbrev pub loaded_all : List Block → List EventTrx
  loaded_all [] = []
  loaded_all (blk ∷ blocks) = loaded blk blk.txs ++ loaded_all blocks

  -- A block is announced unless it is stopped at once, and a part of its transactions from the
  -- first on is sent, all of them if nothing is stopped.
  pub record Part (blk : Block) (txs : List Hash) (d : BlockDispatcher) (r : Bool × BlockDispatcher)
      : Type 0 where
    pub rest : List EventTrx
    pub sent : r.1.out_transaction ++ rest ≡ d.out_transaction ++ loaded blk txs
    pub complete : r.0 ≡ true → rest ≡ []
    pub announced : r.1.out_dispatched ≡ d.out_dispatched
    pub kept : r.1.cached ≡ d.cached

  abbrev sending : EventTrx → BlockDispatcher → BlockDispatcher
  sending evt d = record d { out_transaction = d.out_transaction ++ evt ∷ [] }

  nothing-eq :
      (stop : ℕ → Bool) (i : ℕ) (blk : Block) (d : BlockDispatcher)
      → process_txs transaction stop i [] blk d ≡ (true, d)
  unfolding process_txs
  nothing-eq stop i blk d = refl

  skipped-eq :
      (stop : ℕ → Bool) (i : ℕ) (th : Hash) (txs : List Hash) (blk : Block) (d : BlockDispatcher)
      → load transaction blk th ≡ none
      → process_txs transaction stop i (th ∷ txs) blk d
        ≡ process_txs transaction stop (suc i) txs blk d
  unfolding process_txs
  skipped-eq stop i th txs blk d e = rw (e, process_txs) refl

  stopped-eq :
      (stop : ℕ → Bool) (i : ℕ) (th : Hash) (txs : List Hash) (blk : Block) (d : BlockDispatcher)
      (trx : Transaction)
      → load transaction blk th ≡ some trx
      → stop i ≡ true
      → process_txs transaction stop i (th ∷ txs) blk d ≡ (false, d)
  unfolding process_txs
  stopped-eq stop i th txs blk d trx e s = rw (e, process_txs, s) refl

  sent-eq :
      (stop : ℕ → Bool) (i : ℕ) (th : Hash) (txs : List Hash) (blk : Block) (d : BlockDispatcher)
      (trx : Transaction)
      → load transaction blk th ≡ some trx
      → stop i ≡ false
      → process_txs transaction stop i (th ∷ txs) blk d
        ≡ process_txs transaction stop (suc i) txs blk (sending (record { blk = blk; trx = trx }) d)
  unfolding process_txs
  sent-eq stop i th txs blk d trx e s = rw (e, process_txs, s) refl

  process_txs-Part :
      (stop : ℕ → Bool) (i : ℕ) (txs : List Hash) (blk : Block) (d : BlockDispatcher)
      → Part blk txs d (process_txs transaction stop i txs blk d)
  process_txs-Part stop i [] blk d =
      rw (nothing-eq stop i blk d)
        (record { rest = []; sent = refl; complete = λ h. refl; announced = refl; kept = refl })
  process_txs-Part stop i (th ∷ txs) blk d = elim (Option-cases (load transaction blk th)) [
    | inl e ↦
        let p = process_txs-Part stop (suc i) txs blk d in
        rw (skipped-eq stop i th txs blk d e) (record {
          rest = p.rest;
          sent = p.sent ∙ ap (λ o. d.out_transaction ++ (packed blk o ++ loaded blk txs)) (sym e);
          complete = p.complete;
          announced = p.announced;
          kept = p.kept;
        })
    | inr (trx, e) ↦ elim (Bool-cases (stop i)) [
      | inl s ↦ rw (stopped-eq stop i th txs blk d trx e s) (record {
        rest = loaded blk (th ∷ txs);
        sent = refl;
        complete = λ h. ground arith;
        announced = refl;
        kept = refl;
      })
      | inr s ↦
          let p =
            process_txs-Part stop (suc i) txs blk (sending (record { blk = blk; trx = trx }) d) in
          rw (sent-eq stop i th txs blk d trx e s) (record {
            rest = p.rest;
            sent =
                p.sent
                ∙ append_assoc d.out_transaction (record { blk = blk; trx = trx } ∷ [])
                    (loaded blk txs)
                ∙ ap (λ o. d.out_transaction ++ (packed blk o ++ loaded blk txs)) (sym e);
            complete = p.complete;
            announced = p.announced;
            kept = p.kept;
          })
    ]
  ]

  abbrev announcing : Block → BlockDispatcher → BlockDispatcher
  announcing blk d = record d { out_dispatched = d.out_dispatched ++ blk.number ∷ [] }

  process_stopped :
      (stop : ℕ → Bool) (blk : Block) (d : BlockDispatcher)
      → stop 0 ≡ true
      → process transaction stop blk d ≡ (false, d)
  unfolding process
  process_stopped stop blk d e = rw e refl

  process_going :
      (stop : ℕ → Bool) (blk : Block) (d : BlockDispatcher)
      → stop 0 ≡ false
      → process transaction stop blk d
        ≡ process_txs transaction stop 1 blk.txs blk (announcing blk d)
  unfolding process
  process_going stop blk d e = rw e refl

  -- What is left of a block, and whether it is cached.
  pub record Handled (blk : Block) (d e : BlockDispatcher) : Type 0 where
    pub rest : List EventTrx
    pub sent : e.out_transaction ++ rest ≡ d.out_transaction ++ loaded blk blk.txs
    pub cached : (e.cached ≡ d.cached) ⊎ ((rest ≡ []) × (e.cached ≡ d.cached ++ blk ∷ []))

  cache_block-Handled :
      (blk : Block) (d d' : BlockDispatcher) (r : Bool × BlockDispatcher)
      → d'.out_transaction ≡ d.out_transaction
      → d'.cached ≡ d.cached
      → Part blk blk.txs d' r
      → Handled blk d (cache_block transaction blk r)
  cache_block-Handled blk d d' (true, e) out kept p = record {
    rest = p.rest;
    sent = p.sent ∙ ap (λ l. l ++ loaded blk blk.txs) out;
    cached = inr (p.complete refl, ap (λ l. l ++ blk ∷ []) (p.kept ∙ kept));
  }
  cache_block-Handled blk d d' (false, e) out kept p = record {
    rest = p.rest;
    sent = p.sent ∙ ap (λ l. l ++ loaded blk blk.txs) out;
    cached = inl (p.kept ∙ kept);
  }

  -- Wherever the stop signal is taken, what a block sends is its transactions that can be loaded,
  -- from the first on and in their order, with the time of the block, up to some rest; and the
  -- block is cached only if nothing of them is left.
  pub process-Handled :
      (stop : ℕ → Bool) (blk : Block) (d : BlockDispatcher)
      → Handled blk d (cache_block transaction blk (process transaction stop blk d))
  process-Handled stop blk d = elim (Bool-cases (stop 0)) [
    | inl e ↦
        rw (process_stopped stop blk d e)
          (record { rest = loaded blk blk.txs; sent = refl; cached = inl refl })
    | inr e ↦ rw (process_going stop blk d e) (
        cache_block-Handled blk d (announcing blk d)
          (process_txs transaction stop 1 blk.txs blk (announcing blk d)) refl refl
          (process_txs-Part stop 1 blk.txs blk (announcing blk d)))
  ]

  unstopped :
      (i : ℕ) (txs : List Hash) (blk : Block) (d : BlockDispatcher)
      → (process_txs transaction (λ k. false) i txs blk d).0 ≡ true
  unstopped i [] blk d = ap (λ r. r.0) (nothing-eq (λ k. false) i blk d)
  unstopped i (th ∷ txs) blk d = elim (Option-cases (load transaction blk th)) [
    | inl e ↦ ap (λ r. r.0) (skipped-eq (λ k. false) i th txs blk d e) ∙ unstopped (suc i) txs blk d
    | inr (trx, e) ↦
        ap (λ r. r.0) (sent-eq (λ k. false) i th txs blk d trx e refl)
        ∙ unstopped (suc i) txs blk (sending (record { blk = blk; trx = trx }) d)
  ]

  pub record Passed (blocks : List Block) (d e : BlockDispatcher) : Type 0 where
    pub announced : e.out_dispatched ≡ d.out_dispatched ++ map (λ blk. blk.number) blocks
    pub sent : e.out_transaction ≡ d.out_transaction ++ loaded_all blocks
    pub cached : e.cached ≡ d.cached ++ blocks

  cache_block-true :
      (blk : Block) (d : BlockDispatcher) (r : Bool × BlockDispatcher)
      → r.0 ≡ true
      → Part blk blk.txs (announcing blk d) r
      → Passed (blk ∷ []) d (cache_block transaction blk r)
  cache_block-true blk d (true, e) t p = record {
    announced = p.announced;
    sent =
        sym (append-nil e.out_transaction)
        ∙ ap (λ l. e.out_transaction ++ l) (sym (p.complete refl))
        ∙ p.sent
        ∙ ap (λ l. d.out_transaction ++ l) (sym (append-nil (loaded blk blk.txs)));
    cached = ap (λ l. l ++ blk ∷ []) p.kept;
  }
  cache_block-true blk d (false, e) t p = ground arith

  block-Passed :
      (blk : Block) (d : BlockDispatcher)
      → Passed (blk ∷ []) d (cache_block transaction blk (process transaction (λ k. false) blk d))
  block-Passed blk d = rw (process_going (λ k. false) blk d refl) (
      cache_block-true blk d (process_txs transaction (λ k. false) 1 blk.txs blk (announcing blk d))
        (unstopped 1 blk.txs blk (announcing blk d))
        (process_txs-Part (λ k. false) 1 blk.txs blk (announcing blk d)))

  loaded_all-cons :
      (blk : Block) (blocks : List Block)
      → loaded_all (blk ∷ []) ++ loaded_all blocks ≡ loaded_all (blk ∷ blocks)
  loaded_all-cons blk blocks = ap (λ l. l ++ loaded_all blocks) (append-nil (loaded blk blk.txs))

  -- Without a stop signal, the numbers of all blocks are announced to the scanner in their order, the
  -- transactions that can be loaded are sent block after block, in their order and with the time
  -- of their block, and all blocks are cached.
  pub run-Passed :
      (blocks : List Block) (d : BlockDispatcher)
      → Passed blocks d (run transaction (map (λ blk. ((λ k. false), blk)) blocks) d)
  unfolding run
  run-Passed [] d = record {
    announced = sym (append-nil d.out_dispatched);
    sent = sym (append-nil d.out_transaction);
    cached = sym (append-nil d.cached);
  }
  run-Passed (blk ∷ blocks) d =
      let p = block-Passed blk d in
      let r =
        run-Passed blocks (cache_block transaction blk (process transaction (λ k. false) blk d)) in
      record {
        announced =
            r.announced
            ∙ ap (λ l. l ++ map (λ blk. blk.number) blocks) p.announced
            ∙ append_assoc d.out_dispatched (blk.number ∷ []) (map (λ blk. blk.number) blocks);
        sent =
            r.sent
            ∙ ap (λ l. l ++ loaded_all blocks) p.sent
            ∙ append_assoc d.out_transaction (loaded_all (blk ∷ [])) (loaded_all blocks)
            ∙ ap (λ l. d.out_transaction ++ l) (loaded_all-cons blk blocks);
        cached =
            r.cached ∙ ap (λ l. l ++ blocks) p.cached ∙ append_assoc d.cached (blk ∷ []) blocks;
      }
