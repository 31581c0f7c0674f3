-- ===== src/Logs/Done.antt =====
-- The run of the log dispatcher over logs that have the topics of their events.
use mathlib.Core.List.{append-nil, append_assoc}
use explorer_api_gql.Base.{
  ℕ, suc, ◌≤◌, ◌≡◌, refl, sym, ap, ◌∙◌, ◌⊎◌, inl, inr, Option, none, some, List, [], ◌∷◌, ◌++◌, All,
  arith, length,
}
use explorer_api_gql.Types.{Hash, Address, Log, Block, Transaction}
use explorer_api_gql.Logs.Effects.{Repo, Act}
use explorer_api_gql.Logs.Uniswap.{KnownPairs}
use explorer_api_gql.Logs.Table.{Handler, known_topics, lookup}
use explorer_api_gql.Logs.Safe.{Safe}
use explorer_api_gql.Logs.Safe.Declared.{event_topics, declared}
use explorer_api_gql.Logs.Safe.Events.{SafeOption, lookup-known_topics-SafeOption}
use explorer_api_gql.Logs.Dispatch.{
  Incoming, LogDispatcher, Status, running, terminated, Event, stop, closed, in_log, finish,
  call_handler, first_topic, process, receive, run,
}

-- the log has at least the topics of the event that its first topic names
abbrev pub HasTopics : List Hash → Type 0
HasTopics [] = Unit {0}
HasTopics (t ∷ topics) = declared event_topics t ≤ suc (length topics)

-- no record is nil, and the logs have the topics of their events
abbrev pub Sound : Event → Type 0
Sound stop = Unit {0}
Sound closed = Unit {0}
Sound (in_log none answer) = ⊥
Sound (in_log (some lr) answer) = HasTopics lr.log.topics

-- the watch dogs of the records up to the end of the loop
abbrev pub watch_dogs : List Event → List ℕ
watch_dogs [] = []
watch_dogs (stop ∷ events) = []
watch_dogs (closed ∷ events) = []
watch_dogs (in_log none answer ∷ events) = []
watch_dogs (in_log (some lr) answer ∷ events) = lr.watch_dog ∷ watch_dogs events

record Released (dog : ℕ) (d e : LogDispatcher) : Type 0 where
  still : e.status ≡ d.status
  dog_done : e.done ≡ d.done ++ dog ∷ []

finish-Released :
    (dog : ℕ) (d : LogDispatcher) (r : Act (Unit {0}) × KnownPairs)
    → Safe r.0
    → Released dog d (finish dog d r)
finish-Released dog d ((some u, calls), pairs) s = record { still = refl; dog_done = refl }
finish-Released dog d ((none, calls), pairs) (u, e) = ground arith

call_handler-Safe :
    (handler : Option Handler) (n : ℕ) (answer : Option (List Address)) (pairs : KnownPairs)
    (log : Log) (block : Option Block) (trx : Option Transaction)
    → SafeOption n handler
    → n ≤ length log.topics
    → Safe (call_handler handler answer pairs log block trx).0
call_handler-Safe (some handler) n answer pairs log (some block) (some trx) s h =
    s answer pairs (record { block = block; trx = trx; log = log }) h
call_handler-Safe (some handler) n answer pairs log (some block) none s h = (tt, refl)
call_handler-Safe (some handler) n answer pairs log none trx s h = (tt, refl)
call_handler-Safe none n answer pairs log block trx s h = (tt, refl)

step_eq :
    (repo : Repo) (event : Event) (events : List Event) (d : LogDispatcher) {s : Status}
    → d.status ≡ s
    → run repo (receive repo d.status event d) events ≡ run repo (receive repo s event d) events
step_eq repo event events d e = ap (λ s. run repo (receive repo s event d) events) e

ended :
    (repo : Repo) (events : List Event) (d : LogDispatcher)
    → d.status ≡ terminated
    → run repo d events ≡ d
unfolding run
ended repo [] d e = refl
ended repo (event ∷ events) d e = step_eq repo event events d e ∙ ended repo events d e

module _ (repo : Repo)
    (batches : (bytes : List ℕ)
      → length (repo.parse_transfer_batch bytes).0
        ≤ length (repo.parse_transfer_batch bytes).1) where
  first_topic-Safe :
      (topics : List Hash) (answer : Option (List Address)) (pairs : KnownPairs) (log : Log)
      (block : Option Block) (trx : Option Transaction)
      → HasTopics topics
      → log.topics ≡ topics
      → Safe (call_handler (first_topic topics (known_topics repo)) answer pairs log block trx).0
  first_topic-Safe [] answer pairs log block trx h e = (tt, refl)
  first_topic-Safe (t ∷ topics) answer pairs log block trx h e =
      call_handler-Safe (lookup (known_topics repo) t) (declared event_topics t) answer pairs log
        block trx (lookup-known_topics-SafeOption repo batches t) (rw e h)

  process-Released :
      (lr : Incoming) (answer : Option (List Address)) (d : LogDispatcher)
      → HasTopics lr.log.topics
      → Released lr.watch_dog d (process repo (some lr) answer d)
  unfolding process
  process-Released lr answer d h =
      finish-Released lr.watch_dog d _
        (first_topic-Safe lr.log.topics answer d.known_pairs lr.log lr.block lr.trx h refl)

  -- If no record is nil, each log has the topics of its event, and the parser of batches returns at
  -- least as many values as ids, then the dispatcher does not panic, whatever the repository
  -- answers, and it tells the watch dog of each record that it took, once and in order, that the
  -- record is done: those of logs that no handler is for, and those of failed handlers included.
  pub every_log_done :
      (events : List Event) (d : LogDispatcher)
      → d.status ≡ running
      → All Sound events
      → ((run repo d events).done ≡ d.done ++ watch_dogs events)
        × (((run repo d events).status ≡ running) ⊎ ((run repo d events).status ≡ terminated))
  unfolding run
  every_log_done [] d r all = (sym (append-nil d.done), inl r)
  every_log_done (stop ∷ events) d r all =
      rw (step_eq repo stop events d r ∙ ended repo events (record d { status = terminated }) refl)
        (sym (append-nil d.done), inr refl)
  every_log_done (closed ∷ events) d r all =
      rw
        (step_eq repo closed events d r ∙ ended repo events (record d { status = terminated }) refl)
        (sym (append-nil d.done), inr refl)
  every_log_done (in_log none answer ∷ events) d r (h, all) = elim h [ ]
  every_log_done (in_log (some lr) answer ∷ events) d r (h, all) =
      let p = process-Released lr answer d h in
      let (done, after) =
        every_log_done events (process repo (some lr) answer d) (p.still ∙ r) all in
      rw (step_eq repo (in_log (some lr) answer) events d r) (
        done
            ∙ ap (λ k. k ++ watch_dogs events) p.dog_done
            ∙ append_assoc d.done (lr.watch_dog ∷ []) (watch_dogs events),
        after,
      )
