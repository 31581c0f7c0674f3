-- ===== src/Logs/Dispatch.antt =====
-- The log dispatcher of internal/svc/dispatch_log.go. The channel, the stop signal and what the
-- repository answers to a request of the known pairs are the environment.
use explorer_api_gql.Base.{ℕ, Option, none, some, List, [], ◌∷◌, ◌++◌}
use explorer_api_gql.Types.{Hash, Address, Log, Block, Transaction}
use explorer_api_gql.Logs.Effects.{Call, Repo, Act}
use explorer_api_gql.Logs.Uniswap.{KnownPairs}
use explorer_api_gql.Logs.Table.{Handler, known_topics, lookup}

-- `types.LogRecord` as it comes: the block and the transaction may be nil. A watch dog is the wait
-- group of the transaction, named by a number.
pub record Incoming : Type 0 where
  pub watch_dog : ℕ
  pub log : Log
  pub block : Option Block
  pub trx : Option Transaction

pub data Status : Type 0 where
  running terminated crashed : Status

-- `logDispatcher`: the calls to the repository so far, and the watch dogs that were told that a
-- record is done, the oldest first
pub record LogDispatcher : Type 0 where
  pub known_pairs : KnownPairs
  pub calls : List Call
  pub done : List ℕ
  pub status : Status

pub data Event : Type 0 where
  stop : Event
  -- the channel is closed
  closed : Event
  -- what came in, with what the repository would answer to a request of the pairs
  in_log : (lr : Option Incoming) (answer : Option (List Address)) → Event

abbrev pub finish : ℕ → LogDispatcher → Act (Unit {0}) × KnownPairs → LogDispatcher
finish dog d ((some _, calls), pairs) = record d {
  known_pairs = pairs;
  calls = d.calls ++ calls;
  done = d.done ++ dog ∷ [];
}
finish dog d ((none, calls), pairs) = record d {
  known_pairs = pairs;
  calls = d.calls ++ calls;
  status = crashed;
}

abbrev pub call_handler :
    Option Handler
    → Option (List Address)
    → KnownPairs
    → Log
    → Option Block
    → Option Transaction
    → Act (Unit {0}) × KnownPairs
call_handler (some handler) answer pairs log (some block) (some trx) =
    handler answer pairs (record { block = block; trx = trx; log = log })
call_handler (some handler) answer pairs log (some block) none = ((some tt, []), pairs)
call_handler (some handler) answer pairs log none trx = ((some tt, []), pairs)
call_handler none answer pairs log block trx = ((some tt, []), pairs)

abbrev pub first_topic : List Hash → List (Hash × Handler) → Option Handler
first_topic [] table = none
first_topic (t ∷ _) table = lookup table t

module _ (repo : Repo) where
  -- The handler for the first topic, if there is one, and then the watch dog. It is read from the
  -- record also if that is nil.
  unfoldable pub process : Option Incoming → Option (List Address) → LogDispatcher → LogDispatcher
  process none answer d = record d { status = crashed }
  process (some lr) answer d = finish lr.watch_dog d (
      call_handler (first_topic lr.log.topics (known_topics repo)) answer d.known_pairs lr.log
        lr.block lr.trx)

  abbrev pub receive : Status → Event → LogDispatcher → LogDispatcher
  receive running stop d = record d { status = terminated }
  receive running closed d = record d { status = terminated }
  receive running (in_log lr answer) d = process lr answer d
  receive terminated e d = d
  receive crashed e d = d

  -- `execute`
  unfoldable pub run : LogDispatcher → List Event → LogDispatcher
  run d [] = d
  run d (e ∷ events) = run (receive d.status e d) events
