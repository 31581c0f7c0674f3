-- ===== src/Logs/Short.antt =====
-- The log dispatcher on a log with fewer topics than its event has.
use explorer_api_gql.Base.{
  ◌≡◌, refl, ap, ◌∙◌, ◌<◌, Option, none, some, List, [], ◌∷◌, ◌++◌, arith, length,
}
use explorer_api_gql.Types.{Hash, Address, Block, Transaction}
use explorer_api_gql.Logs.Effects.{LogRecord, Repo}
use explorer_api_gql.Logs.Delegation.{handle_sfc_created_delegation}
use explorer_api_gql.Logs.Table.{plain, known_topics, lookup}
use explorer_api_gql.Logs.Dispatch.{
  Incoming, LogDispatcher, running, crashed, Event, in_log, finish, call_handler, first_topic,
  process, receive, run,
}

-- `Delegated(address indexed delegator, uint256 indexed toValidatorID, uint256 amount)` of the SFC
abbrev pub delegated : Hash
delegated = 0x9a8f44850296624dadfd9c246d17e47171d35727a181bd090aa14bbbe00238bb

stays_crashed :
    (repo : Repo) (events : List Event) (d : LogDispatcher)
    → d.status ≡ crashed
    → run repo d events ≡ d
unfolding run
stays_crashed repo [] d e = refl
stays_crashed repo (event ∷ events) d e =
    ap (λ s. run repo (receive repo s event d) events) e ∙ stays_crashed repo events d e

created-short :
    (repo : Repo) (lr : LogRecord) (second : List Hash)
    → lr.log.topics ≡ delegated ∷ second
    → length second < 2
    → handle_sfc_created_delegation repo lr ≡ (none, [])
unfolding handle_sfc_created_delegation
created-short repo lr [] e h = rw e refl
created-short repo lr (a ∷ []) e h = rw e refl
created-short repo lr (a ∷ b ∷ more) e h = ground arith

process-short :
    (repo : Repo) (lr : Incoming) (block : Block) (trx : Transaction) (second : List Hash)
    (answer : Option (List Address)) (d : LogDispatcher)
    → lr.block ≡ some block
    → lr.trx ≡ some trx
    → lr.log.topics ≡ delegated ∷ second
    → length second < 2
    → process repo (some lr) answer d ≡ record d { calls = d.calls ++ []; status = crashed }
unfolding process lookup
process-short repo lr block trx second answer d b t e h =
    let handler = ap (λ topics. first_topic topics (known_topics repo)) e in
    ap (λ k. finish lr.watch_dog d (call_handler k answer d.known_pairs lr.log lr.block lr.trx))
      handler
    ∙ ap
        (λ k. finish lr.watch_dog d (
          call_handler (some (plain (handle_sfc_created_delegation repo))) answer d.known_pairs
            lr.log k lr.trx))
        b
    ∙ ap
        (λ k. finish lr.watch_dog d (
          call_handler (some (plain (handle_sfc_created_delegation repo))) answer d.known_pairs
            lr.log (some block) k))
        t
    ∙ ap (λ k. finish lr.watch_dog d (k, d.known_pairs))
        (created-short repo (record { block = block; trx = trx; log = lr.log }) second e h)

-- A log of any contract, whose first topic is that of `Delegated` and that has fewer than two more,
-- ends the service in a panic: the wait group of its transaction is not released, and nothing that
-- comes after is processed.
pub short_log_crashes :
    (repo : Repo) (lr : Incoming) (block : Block) (trx : Transaction) (second : List Hash)
    (answer : Option (List Address)) (later : List Event) (d : LogDispatcher)
    → d.status ≡ running
    → lr.block ≡ some block
    → lr.trx ≡ some trx
    → lr.log.topics ≡ delegated ∷ second
    → length second < 2
    → ((run repo d (in_log (some lr) answer ∷ later)).status ≡ crashed)
      × ((run repo d (in_log (some lr) answer ∷ later)).done ≡ d.done)
unfolding run
short_log_crashes repo lr block trx second answer later d r b t e h =
    let short = process-short repo lr block trx second answer d b t e h in
    rw
      (ap (λ s. run repo (receive repo s (in_log (some lr) answer) d) later) r
        ∙ ap (λ k. run repo k later) short
        ∙ stays_crashed repo later (record d { calls = d.calls ++ []; status = crashed }) refl)
      (refl, refl)
