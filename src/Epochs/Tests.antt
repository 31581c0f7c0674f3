-- ===== src/Epochs/Tests.antt =====
-- A collection with epoch 4, and a scan of the epochs 4 to 6, of which 5 has no end.
use mathlib.Core.Option.{some-injective}
use explorer_api_gql.Base.{
  ℕ, ◌+◌, ◌≡◌, refl, arith, min, true, false, Option, some, List, [], ◌∷◌, ◌==◌, if◌then◌else◌, sym,
  ap,
}
use explorer_api_gql.Types.{Epoch}
use explorer_api_gql.Epochs.{
  EpochScanner, started_epochs, starting_epoch, Event, observe_tick, scan_tick, dequeue_tick, run,
  step, observe_epoch, next_epoch, dequeue, store, add_epoch, is_epoch_known,
}
use explorer_api_gql.Epochs.Stored.{Inv, run_stores}
use explorer_api_gql.Epochs.Caught.{ticks, run_reaches, Smooth}

abbrev epoch : ℕ → Epoch
epoch n = record {
  id = n;
  end_time = if n == 5 then 0 else 1000 + n;
  epoch_fee = 0;
  epoch_fee_burn = 0;
  epoch_fee_treasury = 0;
  total_base_reward_weight = 0;
  total_tx_reward_weight = 0;
  base_reward_per_second = 0;
  stake_total_amount = 30;
  total_supply = 100;
}

abbrev node : ℕ → Option Epoch
node n = some (epoch n)

abbrev events : List Event
events =
    observe_tick (some (some (epoch 6)))
    ∷ scan_tick node false
    ∷ dequeue_tick true
    ∷ scan_tick node false
    ∷ scan_tick node false
    ∷ dequeue_tick true
    ∷ dequeue_tick true
    ∷ []

node_numbers : (n : ℕ) (e : Epoch) → node n ≡ some e → e.id ≡ n
node_numbers n e q = sym (ap (λ k. k.id) (some-injective (epoch n) e q))

run_stores_example :
    Inv
      (starting_epoch (some 4))
      6
      (epoch 4 ∷ [])
      (run (started_epochs (some 4) (epoch 4 ∷ [])) events)
run_stores_example =
    run_stores (some 4) (epoch 4 ∷ []) 6 events (omega arith) (omega arith)
      (omega arith, (node_numbers, (refl, (node_numbers, (node_numbers, (refl, (refl, tt)))))))

-- the epoch that is known and the one without an end are not stored
stored : (run (started_epochs (some 4) (epoch 4 ∷ [])) events).collection ≡ epoch 4 ∷ epoch 6 ∷ []
unfolding run started_epochs step observe_epoch next_epoch dequeue store add_epoch is_epoch_known
stored = refl

abbrev waiting : EpochScanner
waiting = record { current = 4; top = some (epoch 6); queue = []; taken = []; collection = [] }

answered : Smooth (epoch 6) (scan_tick node false)
answered = (λ n le. (epoch n, refl), refl)

run_reaches_example :
    (run waiting events).current ≡ min (waiting.current + ticks events) ((epoch 6).id + 1)
run_reaches_example =
    run_reaches (epoch 6) events waiting (omega arith)
      (refl, (answered, (tt, (answered, (answered, (tt, (tt, tt))))))) refl (omega arith)
