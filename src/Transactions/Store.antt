-- ===== src/Transactions/Store.antt =====
-- What follows a transaction that the dispatcher of internal/svc/dispatch_trx.go has sent: its
-- goroutine stores it (AddTransaction of internal/repository/db/transaction.go), counts it, keeps it
-- in the ring of recent transactions, and notes its block, which a ticker writes to the database. The
-- storing of one transaction is one step; the steps come in any order.
pub mod Once
mod Tests
use explorer_api_gql.Base.{
  ℕ, ◌+◌, Bool, true, false, Option, none, some, List, [], ◌∷◌, ◌++◌, ◌==◌, ◌||◌, if◌then◌else◌,
  ◌%◌,
}
use explorer_api_gql.Types.{Hash, Address, Transaction, u64}
use explorer_api_gql.Burn.{EventTrx}
use explorer_api_gql.Ordinals.{uid}
use explorer_api_gql.Ring
use explorer_api_gql.Ring.{Ring}

-- A document of the collection, with the fields that an update sets; the others are those of the
-- transaction that was inserted.
pub record TrxDocument : Type 0 where
  pub hash : Hash
  pub ordinal : ℕ
  pub sender : Address
  pub value : ℕ
  pub time_stamp : ℕ
  pub inserted : Transaction

-- which calls of the driver succeed
pub record Answer : Type 0 where
  pub looked_up : Bool
  pub inserted : Bool
  pub updated : Bool

-- `IsTransactionKnown`, if the lookup succeeds
pub is_transaction_known : List TrxDocument → Hash → Bool
is_transaction_known [] hash = false
is_transaction_known (doc ∷ col) hash = doc.hash == hash || is_transaction_known col hash

-- `shouldAddTransaction`
pub should_add_transaction : Bool → List TrxDocument → Transaction → Bool
should_add_transaction false col trx = false
should_add_transaction true col trx = if is_transaction_known col trx.hash then false else true

-- UpdateOne sets the fields of the first document that matches.
pub set_document : Transaction → ℕ → List TrxDocument → List TrxDocument
set_document trx ordinal [] = []
set_document trx ordinal (doc ∷ col) =
    let rest = set_document trx ordinal col in
    if doc.hash == trx.hash
    then record doc {
      ordinal = ordinal;
      sender = trx.from;
      value = trx.value;
      time_stamp = trx.time_stamp;
    }
      ∷ col
    else doc ∷ rest

-- `UpdateTransaction`; the result says whether there is no error.
pub update_transaction : Bool → Transaction → ℕ → List TrxDocument → Bool × List TrxDocument
update_transaction false trx ordinal col = (false, col)
update_transaction true trx ordinal col =
    (is_transaction_known col trx.hash, set_document trx ordinal col)

abbrev pub document : Transaction → ℕ → TrxDocument
document trx ordinal = record {
  hash = trx.hash;
  ordinal = ordinal;
  sender = trx.from;
  value = trx.value;
  time_stamp = trx.time_stamp;
  inserted = trx;
}

-- `AddTransaction`; a transaction without an identifier panics: `none`.
pub add_transaction : Answer → Transaction → List TrxDocument → Option (Bool × List TrxDocument)
add_transaction answer trx col = elim (uid trx) [
  | none ↦ none
  | some ordinal ↦ some (
      if should_add_transaction answer.looked_up col trx
      then (if answer.inserted then (true, col ++ document trx ordinal ∷ []) else (false, col))
      else update_transaction answer.updated trx ordinal col)
]

-- the collection, the estimate of the count, the ring, `blkObserver` and the last known block
pub record Storage : Type 0 where
  pub collection : List TrxDocument
  pub trx_count : ℕ
  pub recent_trxs : Ring Transaction
  pub blk_observer : ℕ
  pub last_known_block : Option ℕ

abbrev pub with_collection : EventTrx → Storage → Bool × List TrxDocument → Storage
with_collection evt s (stored, col) = record s {
  collection = col;
  trx_count = (s.trx_count + 1) % u64;
  recent_trxs = Ring.add (some evt.trx) s.recent_trxs;
  blk_observer = evt.blk.number;
}

-- `waitAndStore` after its wait; an error of the storing is only logged.
pub wait_and_store : Answer → EventTrx → Storage → Option Storage
wait_and_store answer evt s = elim (add_transaction answer evt.trx s.collection) [
  | none ↦ none
  | some result ↦ some (with_collection evt s result)
]

-- `updateLastSeenBlock`
abbrev pub update_last_seen_block : Bool → Storage → Storage
update_last_seen_block true s = record s { last_known_block = some s.blk_observer }
update_last_seen_block false s = s

-- A goroutine goes on after its wait, or the ticker of the last seen block ticks.
pub data Event : Type 0 where
  go_on : Answer → EventTrx → Event
  tick : Bool → Event

pub step : Event → Storage → Option Storage
step (go_on answer evt) s = wait_and_store answer evt s
step (tick succeeds) s = some (update_last_seen_block succeeds s)

pub run : List Event → Storage → Option Storage
run [] s = some s
run (e ∷ es) s = elim (step e s) [ none ↦ none | some next ↦ run es next ]
