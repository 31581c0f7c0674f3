-- ===== src/Transactions/Released.antt =====
-- The wait groups of the transactions, over the three dispatchers.
use mathlib.Core.List.{append-nil, append_assoc}
use explorer_api_gql.Base.{
  ℕ, ◌+◌, ◌≤◌, ◌≡◌, refl, sym, ap, ◌∙◌, Bool, false, Option, none, some, List, [], ◌∷◌, ◌++◌, map,
  All, arith, length, ◌==◌, if◌then◌else◌,
}
use explorer_api_gql.Types.{Address, Log}
use explorer_api_gql.Accounts
use explorer_api_gql.Accounts.{EventAcc}
use explorer_api_gql.Burn.{EventTrx}
use explorer_api_gql.Logs.Effects
use explorer_api_gql.Logs.Dispatch
use explorer_api_gql.Logs.Dispatch.{Incoming, LogDispatcher, Event, in_log, running}
use explorer_api_gql.Logs.Done.{HasTopics, Sound, watch_dogs, every_log_done}
use explorer_api_gql.Transactions.{TrxDispatcher, process, run}
use explorer_api_gql.Transactions.Sent.{
  optional_account, accounts_of, logs_of, log_of, marks, Sent, process-Sent,
}

abbrev pub count : ℕ → List ℕ → ℕ
count k [] = 0
count k (x ∷ xs) = (if x == k then 1 else 0) + count k xs

count-append : (k : ℕ) (xs ys : List ℕ) → count k (xs ++ ys) ≡ count k xs + count k ys
count-append k [] ys = omega arith
count-append k (x ∷ xs) ys = omega (arith, count-append k xs ys)

map-append : {A B : Type 0} (f : A → B) (xs ys : List A) → map f (xs ++ ys) ≡ map f xs ++ map f ys
map-append f [] ys = refl
map-append f (x ∷ xs) ys = ap (λ l. f x ∷ l) (map-append f xs ys)

All-append : {A : Type 0} (P : A → Type 0) (xs ys : List A) → All P xs → All P ys → All P (xs ++ ys)
All-append P [] ys p q = q
All-append P (x ∷ xs) ys p q = (p.0, All-append P xs ys p.1 q)

abbrev account_dogs : List EventAcc → List ℕ
account_dogs accs = map (λ acc. acc.watch_dog) accs

abbrev log_dogs : List Incoming → List ℕ
log_dogs logs = map (λ lr. lr.watch_dog) logs

-- the logs of a transaction have the topics of their events
abbrev pub Declared : EventTrx → Type 0
Declared evt = All (λ lg. HasTopics lg.topics) evt.trx.logs

record Good (d : TrxDispatcher) (evts : List EventTrx) : Type 0 where
  balanced :
      (k : ℕ)
      → count k d.added ≡ count k (account_dogs d.out_account) + count k (log_dogs d.out_log)
  declared : All (λ lr. HasTopics lr.log.topics) d.out_log
  waits : map (λ w. w.1) d.waiting ≡ evts

optional_dogs :
    (evt : EventTrx) (wg : ℕ) (to created : Option Address)
    → account_dogs (
        optional_account Accounts.wallet evt wg to
        ++ optional_account Accounts.contract evt wg created)
      ≡ marks wg (
          optional_account Accounts.wallet evt wg to
          ++ optional_account Accounts.contract evt wg created)
optional_dogs evt wg none none = refl
optional_dogs evt wg none (some b) = refl
optional_dogs evt wg (some a) none = refl
optional_dogs evt wg (some a) (some b) = refl

-- all marks of the accounts and logs of a transaction are its own
account_dogs-marks :
    (evt : EventTrx) (wg : ℕ) → account_dogs (accounts_of evt wg) ≡ marks wg (accounts_of evt wg)
account_dogs-marks evt wg =
    ap (λ l. wg ∷ l) (optional_dogs evt wg evt.trx.to evt.trx.contract_address)

log_dogs-marks :
    (evt : EventTrx) (wg : ℕ) (logs : List Log)
    → log_dogs (map (log_of evt wg) logs) ≡ marks wg (map (log_of evt wg) logs)
log_dogs-marks evt wg [] = refl
log_dogs-marks evt wg (lg ∷ logs) = ap (λ l. wg ∷ l) (log_dogs-marks evt wg logs)

logs_declared :
    (evt : EventTrx) (wg : ℕ) (logs : List Log)
    → All (λ lg. HasTopics lg.topics) logs
    → All (λ lr. HasTopics lr.log.topics) (map (log_of evt wg) logs)
logs_declared evt wg [] all = tt
logs_declared evt wg (lg ∷ logs) all = (all.0, logs_declared evt wg logs all.1)

Sent-balanced :
    (evt : EventTrx) (d e : TrxDispatcher) (k : ℕ)
    → Sent evt d e
    → count k d.added ≡ count k (account_dogs d.out_account) + count k (log_dogs d.out_log)
    → count k e.added ≡ count k (account_dogs e.out_account) + count k (log_dogs e.out_log)
Sent-balanced evt d e k s b =
    let wg = d.groups in
    let accs = accounts_of evt wg in
    let logs = logs_of evt wg in
    let added =
      ap (count k) s.raised
      ∙ count-append k (d.added ++ marks wg accs) (marks wg logs)
      ∙ ap (λ n. n + count k (marks wg logs)) (count-append k d.added (marks wg accs)) in
    let of_accounts =
      ap (λ l. count k (account_dogs l)) s.accounts
      ∙ ap (count k) (map-append (λ acc. acc.watch_dog) d.out_account accs)
      ∙ count-append k (account_dogs d.out_account) (account_dogs accs)
      ∙ ap (λ l. count k (account_dogs d.out_account) + count k l) (account_dogs-marks evt wg) in
    let of_logs =
      ap (λ l. count k (log_dogs l)) s.logs
      ∙ ap (count k) (map-append (λ lr. lr.watch_dog) d.out_log logs)
      ∙ count-append k (log_dogs d.out_log) (log_dogs logs)
      ∙ ap (λ l. count k (log_dogs d.out_log) + count k l) (log_dogs-marks evt wg evt.trx.logs) in
    omega (arith, added, of_accounts, of_logs, b)

Sent-Good :
    (evt : EventTrx) (evts : List EventTrx) (d e : TrxDispatcher)
    → Declared evt
    → Sent evt d e
    → Good d evts
    → Good e (evts ++ evt ∷ [])
Sent-Good evt evts d e declared s g = record {
  balanced = λ k. Sent-balanced evt d e k s (g.balanced k);
  declared = rw s.logs (
      All-append (λ lr. HasTopics lr.log.topics) d.out_log (logs_of evt d.groups) g.declared
        (logs_declared evt d.groups evt.trx.logs declared));
  waits =
      ap (map (λ w. w.1)) s.waits
      ∙ map-append (λ w. w.1) d.waiting ((d.groups, evt) ∷ [])
      ∙ ap (λ l. l ++ evt ∷ []) g.waits;
}

-- Nothing is stopped.
abbrev pub never : List EventTrx → List ((ℕ → Bool) × EventTrx)
never evts = map (λ evt. ((λ k. false), evt)) evts

run-Good :
    (evts before : List EventTrx) (d : TrxDispatcher)
    → All Declared evts
    → Good d before
    → Good (run (never evts) d) (before ++ evts)
unfolding run
run-Good [] before d all g = rw (append-nil before) g
run-Good (evt ∷ evts) before d (declared, all) g = rw (sym (append_assoc before (evt ∷ []) evts)) (
    run-Good evts (before ++ evt ∷ []) (process (λ k. false) evt d) all (
      Sent-Good evt before d (process (λ k. false) evt d) declared
        (process-Sent evt (λ k. false) d (λ k. refl)) g))

abbrev fresh : TrxDispatcher
fresh = record {
  out_transaction = [];
  out_account = [];
  out_log = [];
  groups = 0;
  added = [];
  waiting = [];
}

-- the transaction dispatcher after some transactions
abbrev pub sent : List EventTrx → TrxDispatcher
sent evts = run (never evts) fresh

abbrev pub started_logs : LogDispatcher
started_logs = record { known_pairs = []; calls = []; done = []; status = running }

-- the logs as events of the log dispatcher, with what the repository would answer to each
abbrev pub log_events : (Incoming → Option (List Address)) → List Incoming → List Event
log_events answer logs = map (λ lr. in_log (some lr) (answer lr)) logs

accounts_done :
    (repo : Accounts.Repo) (accs : List EventAcc) → (Accounts.run repo accs).1 ≡ account_dogs accs
unfolding Accounts.run
accounts_done repo [] = refl
accounts_done repo (acc ∷ accs) = ap (λ l. acc.watch_dog ∷ l) (accounts_done repo accs)

log_events-dogs :
    (answer : Incoming → Option (List Address)) (logs : List Incoming)
    → watch_dogs (log_events answer logs) ≡ log_dogs logs
log_events-dogs answer [] = refl
log_events-dogs answer (lr ∷ logs) = ap (λ l. lr.watch_dog ∷ l) (log_events-dogs answer logs)

log_events-Sound :
    (answer : Incoming → Option (List Address)) (logs : List Incoming)
    → All (λ lr. HasTopics lr.log.topics) logs
    → All Sound (log_events answer logs)
log_events-Sound answer [] all = tt
log_events-Sound answer (lr ∷ logs) all = (all.0, log_events-Sound answer logs all.1)

-- Let the parser of batches return at least as many values as ids for any data. Let transactions,
-- whose logs have the topics of their events, pass without a stop signal, and let the account and
-- the log dispatcher take all that was sent to them, whatever else the repository answers. Then each wait group was told as often that something is done as it was raised, so that
-- the goroutine of each transaction, one for each and in their order, goes on to store it.
pub all_released :
    (accounts_repo : Accounts.Repo) (repo : Effects.Repo)
    (batches : (bytes : List ℕ)
      → length (repo.parse_transfer_batch bytes).0 ≤ length (repo.parse_transfer_batch bytes).1)
    (answer : Incoming → Option (List Address)) (evts : List EventTrx)
    → All Declared evts
    → ((k : ℕ)
        → count k (sent evts).added
          ≡ count k (Accounts.run accounts_repo (sent evts).out_account).1
            + count k (Dispatch.run repo started_logs (log_events answer (sent evts).out_log)).done)
      × (map (λ w. w.1) (sent evts).waiting ≡ evts)
all_released accounts_repo repo batches answer evts all =
    let g =
      run-Good evts [] fresh all (record { balanced = λ k. refl; declared = tt; waits = refl }) in
    let logs_done =
      (every_log_done repo batches (log_events answer (sent evts).out_log) started_logs refl
        (log_events-Sound answer (sent evts).out_log g.declared)).0
      ∙ log_events-dogs answer (sent evts).out_log in
    (
      (λ k. rw (accounts_done accounts_repo (sent evts).out_account, logs_done) (g.balanced k)),
      g.waits,
    )
