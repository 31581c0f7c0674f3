-- ===== src/Epochs.antt =====
-- The epoch scanner of internal/svc/scan_epochs.go, down to the collection that AddEpoch of
-- internal/repository/db/epoch.go fills. What the node answers, whether an insert succeeds and which
-- channel is ready are the environment. The queue is as long as it gets: a send that waits for a
-- place comes after the steps that make it.
pub mod Stored
pub mod Caught
mod Tests
use explorer_api_gql.Base.{
  ℕ, ◌+◌, ◌%◌, Bool, true, false, ◌&&◌, ◌||◌, Option, none, some, List, [], ◌∷◌, ◌++◌, ltb, ◌==◌,
  if◌then◌else◌,
}
use explorer_api_gql.Types.{Epoch, u64}

-- `epochScanner`, with the epochs that were taken from the queue, and the collection
pub record EpochScanner : Type 0 where
  pub current : ℕ
  pub top : Option Epoch
  pub queue : List Epoch
  pub taken : List Epoch
  pub collection : List Epoch

-- `run`: the last known epoch, or an error
abbrev pub starting_epoch : Option ℕ → ℕ
starting_epoch none = 1
starting_epoch (some last) = last

pub started_epochs : Option ℕ → List Epoch → EpochScanner
started_epochs last collection = record {
  current = starting_epoch last;
  top = none;
  queue = [];
  taken = [];
  collection = collection;
}

abbrev pub same_top : Option Epoch → Epoch → Bool
same_top none ep = false
same_top (some top) ep = top.id == ep.id

abbrev pub update_top : Option Epoch → EpochScanner → EpochScanner
update_top none s = s
update_top (some ep) s = if same_top s.top ep then s else record s { top = some ep }

-- `observe`; the answer is an error, or an epoch that may be nil
pub observe_epoch : Option (Option Epoch) → EpochScanner → EpochScanner
observe_epoch none s = s
observe_epoch (some ep) s = update_top ep s

-- the send to the queue, unless the stop signal is taken
abbrev pub push_epoch : Option Epoch → Bool → EpochScanner → EpochScanner
push_epoch none stop s = s
push_epoch (some ep) stop s =
    if stop then s else record s { queue = s.queue ++ ep ∷ []; current = (s.current + 1) % u64 }

abbrev pub next_below : Option Epoch → (ℕ → Option Epoch) → Bool → EpochScanner → EpochScanner
next_below none epoch stop s = s
next_below (some top) epoch stop s =
    if ltb top.id s.current then s else push_epoch (epoch s.current) stop s

-- `next`; `epoch` is what the repository answers, `none` for an error
pub next_epoch : (ℕ → Option Epoch) → Bool → EpochScanner → EpochScanner
next_epoch epoch stop s = next_below s.top epoch stop s

-- `isEpochKnown`
pub is_epoch_known : List Epoch → Epoch → Bool
is_epoch_known [] e = false
is_epoch_known (known ∷ col) e = known.id == e.id || is_epoch_known col e

-- `AddEpoch`; `inserted` says whether the driver takes the document.
pub add_epoch : Bool → Epoch → List Epoch → List Epoch
add_epoch inserted e col =
    if e.end_time == 0 || e.stake_total_amount == 0
    then col
    else (if is_epoch_known col e then col else (if inserted then col ++ e ∷ [] else col))

-- `store`; an epoch without an end is left out, and an error is only logged
pub store : Bool → Epoch → EpochScanner → EpochScanner
store inserted ep s =
    if ep.end_time == 0 then s else record s { collection = add_epoch inserted ep s.collection }

abbrev pub take_epoch : Bool → List Epoch → EpochScanner → EpochScanner
take_epoch inserted [] s = s
take_epoch inserted (ep ∷ queue) s =
    store inserted ep (record s { queue = queue; taken = s.taken ++ ep ∷ [] })

-- a round of `dequeue`
pub dequeue : Bool → EpochScanner → EpochScanner
dequeue inserted s = take_epoch inserted s.queue s

-- the rounds of the loops of `execute` and of `dequeue`, which run side by side
pub data Event : Type 0 where
  observe_tick : Option (Option Epoch) → Event
  scan_tick : (ℕ → Option Epoch) → Bool → Event
  dequeue_tick : Bool → Event

pub step : EpochScanner → Event → EpochScanner
step s (observe_tick ep) = observe_epoch ep s
step s (scan_tick epoch stop) = next_epoch epoch stop s
step s (dequeue_tick inserted) = dequeue inserted s

pub run : EpochScanner → List Event → EpochScanner
run s [] = s
run s (e ∷ events) = run (step s e) events
