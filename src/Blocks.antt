-- ===== src/Blocks.antt =====
-- The block dispatcher of internal/svc/dispatch_blk.go. The environment says at which sends the stop
-- signal is taken instead.
pub mod Sent
mod Tests
use explorer_api_gql.Base.{
  ℕ, suc, Bool, true, false, Option, none, some, List, [], ◌∷◌, ◌++◌, if◌then◌else◌,
}
use explorer_api_gql.Types.{Hash, Block, Transaction}
use explorer_api_gql.Burn.{EventTrx}

-- `blockDispatcher` with what was sent and cached, the oldest first
pub record BlockDispatcher : Type 0 where
  pub out_dispatched : List ℕ
  pub out_transaction : List EventTrx
  pub cached : List Block

module _ (transaction : Hash → Option Transaction) where
  abbrev pub stamped : Block → Option Transaction → Option Transaction
  stamped blk none = none
  stamped blk (some trx) = some (record trx { time_stamp = blk.time_stamp })

  -- `load`: a transaction gets the time of its block.
  abbrev pub load : Block → Hash → Option Transaction
  load blk th = stamped blk (transaction th)

  -- `processTxs`, from the send `i` on; a transaction that can not be loaded is left out.
  pub process_txs : (ℕ → Bool) → ℕ → List Hash → Block → BlockDispatcher → Bool × BlockDispatcher
  process_txs stop i [] blk d = (true, d)
  process_txs stop i (th ∷ txs) blk d = elim (load blk th) [
    | none ↦ process_txs stop (suc i) txs blk d
    | some trx ↦
        if stop i
        then (false, d)
        else process_txs stop (suc i) txs blk (record d {
          out_transaction = d.out_transaction ++ record { blk = blk; trx = trx } ∷ [];
        })
  ]

  -- `process`
  pub process : (ℕ → Bool) → Block → BlockDispatcher → Bool × BlockDispatcher
  process stop blk d =
      if stop 0
      then (false, d)
      else process_txs stop 1 blk.txs blk
          (record d { out_dispatched = d.out_dispatched ++ blk.number ∷ [] })

  -- what `execute` does of a block; the broadcast has no effect on the rest
  abbrev pub cache_block : Block → Bool × BlockDispatcher → BlockDispatcher
  cache_block blk (true, d) = record d { cached = d.cached ++ blk ∷ [] }
  cache_block blk (false, d) = d

  -- the loop of `execute` over what comes in, up to the stop signal
  pub run : List ((ℕ → Bool) × Block) → BlockDispatcher → BlockDispatcher
  run [] d = d
  run ((stop, blk) ∷ blocks) d = run blocks (cache_block blk (process stop blk d))
