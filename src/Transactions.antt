-- ===== src/Transactions.antt =====
-- The transaction dispatcher of internal/svc/dispatch_trx.go. What is sent goes to the channels of
-- the account, log and burn dispatchers; the environment says at which sends the stop signal is
-- taken instead.
pub mod Sent
pub mod Released
pub mod Store
mod Tests
use explorer_api_gql.Base.{
  ℕ, suc, ◌+◌, Bool, true, false, Option, none, some, List, [], ◌∷◌, ◌++◌, if◌then◌else◌,
}
use explorer_api_gql.Types.{Hash, Address, Log, Block, Transaction}
use explorer_api_gql.Accounts.{AccountType, wallet, contract, EventAcc}
use explorer_api_gql.Burn.{EventTrx}
use explorer_api_gql.Logs.Dispatch.{Incoming}

-- `trxDispatcher` with what was sent, the oldest first. A wait group is named by a number: `groups`
-- is how many there are, `added` has an entry for each call of Add(1), and `waiting` the
-- transactions that a goroutine waits for.
pub record TrxDispatcher : Type 0 where
  pub out_transaction : List EventTrx
  pub out_account : List EventAcc
  pub out_log : List Incoming
  pub groups : ℕ
  pub added : List ℕ
  pub waiting : List (ℕ × EventTrx)

-- A push returns whether it went through.
abbrev pub Pushed : Type 0
Pushed = Bool × TrxDispatcher

-- the next push, if the one before went through
abbrev pub and_also : Pushed → (TrxDispatcher → Pushed) → Pushed
and_also (true, d) push = push d
and_also (false, d) push = (false, d)

-- `pushAccount`; the wait group is raised before the send.
pub push_account : Bool → AccountType → Address → EventTrx → ℕ → TrxDispatcher → Pushed
push_account stop act addr evt wg d =
    if stop then (false, record d { added = d.added ++ wg ∷ [] }) else (
      true,
      record d {
        added = d.added ++ wg ∷ [];
        out_account =
            d.out_account
            ++ record { watch_dog = wg; addr = addr; act = act; blk = evt.blk; trx = evt.trx } ∷ [];
      },
    )

-- `pushLog`
pub push_log : Bool → Log → EventTrx → ℕ → TrxDispatcher → Pushed
push_log stop lg evt wg d = if stop then (false, record d { added = d.added ++ wg ∷ [] }) else (
  true,
  record d {
    added = d.added ++ wg ∷ [];
    out_log =
        d.out_log
        ++ record { watch_dog = wg; log = lg; block = some evt.blk; trx = some evt.trx } ∷ [];
  },
)

abbrev pub push_optional :
    Bool → AccountType → Option Address → EventTrx → ℕ → TrxDispatcher → Pushed
push_optional stop act none evt wg d = (true, d)
push_optional stop act (some addr) evt wg d = push_account stop act addr evt wg d

-- `pushAccounts`: the sender, the recipient and the new contract
pub push_accounts : (ℕ → Bool) → EventTrx → ℕ → TrxDispatcher → Pushed
push_accounts stop evt wg d = and_also (push_account (stop 1) wallet evt.trx.from evt wg d) λ d.
    and_also (push_optional (stop 2) wallet evt.trx.to evt wg d)
      λ d. push_optional (stop 3) contract evt.trx.contract_address evt wg d

-- the loop of `process` over the logs, from the send `i` on
pub push_logs : (ℕ → Bool) → ℕ → List Log → EventTrx → ℕ → TrxDispatcher → Pushed
push_logs stop i [] evt wg d = (true, d)
push_logs stop i (lg ∷ logs) evt wg d =
    and_also (push_log (stop i) lg evt wg d) (push_logs stop (suc i) logs evt wg)

-- `go trd.waitAndStore(evt, &wg)`
abbrev pub start_waiting : ℕ → EventTrx → Pushed → TrxDispatcher
start_waiting wg evt (true, d) = record d { waiting = d.waiting ++ (wg, evt) ∷ [] }
start_waiting wg evt (false, d) = d

-- `process`; the broadcast at its end has no effect on the rest.
pub process : (ℕ → Bool) → EventTrx → TrxDispatcher → TrxDispatcher
process stop evt d =
    if stop 0
    then d
    else (let wg = d.groups in
        let sent = record d { out_transaction = d.out_transaction ++ evt ∷ []; groups = suc wg } in
        start_waiting wg evt
          (and_also (push_accounts stop evt wg sent) (push_logs stop 4 evt.trx.logs evt wg)))

-- the loop of `execute` over what comes in, up to the stop signal
pub run : List ((ℕ → Bool) × EventTrx) → TrxDispatcher → TrxDispatcher
run [] d = d
run ((stop, evt) ∷ evts) d = run evts (process stop evt d)
