-- ===== src/Transactions/Sent.antt =====
-- What a transaction sends when no stop signal comes.
use mathlib.Core.List.{append-nil, append_assoc}
use explorer_api_gql.Base.{
  ℕ, suc, ◌≡◌, refl, sym, ap, ◌∙◌, Bool, true, false, Option, none, some, List, [], ◌∷◌, ◌++◌, map,
}
use explorer_api_gql.Types.{Address, Log}
use explorer_api_gql.Accounts.{AccountType, wallet, contract, EventAcc}
use explorer_api_gql.Burn.{EventTrx}
use explorer_api_gql.Logs.Dispatch.{Incoming}
use explorer_api_gql.Transactions.{
  TrxDispatcher, and_also, push_account, push_log, push_optional, push_accounts, push_logs, process,
}

abbrev pub account_of : AccountType → EventTrx → ℕ → Address → EventAcc
account_of act evt wg addr = record {
  watch_dog = wg;
  addr = addr;
  act = act;
  blk = evt.blk;
  trx = evt.trx;
}

abbrev pub optional_account : AccountType → EventTrx → ℕ → Option Address → List EventAcc
optional_account act evt wg none = []
optional_account act evt wg (some addr) = account_of act evt wg addr ∷ []

-- the sender, the recipient and the new contract, those that there are
abbrev pub accounts_of : EventTrx → ℕ → List EventAcc
accounts_of evt wg =
    account_of wallet evt wg evt.trx.from
    ∷ (optional_account wallet evt wg evt.trx.to
        ++ optional_account contract evt wg evt.trx.contract_address)

abbrev pub log_of : EventTrx → ℕ → Log → Incoming
log_of evt wg lg = record { watch_dog = wg; log = lg; block = some evt.blk; trx = some evt.trx }

abbrev pub logs_of : EventTrx → ℕ → List Incoming
logs_of evt wg = map (log_of evt wg) evt.trx.logs

-- as many entries of a wait group as there are elements
abbrev pub marks : {A : Type 0} → ℕ → List A → List ℕ
marks wg [] = []
marks wg (x ∷ xs) = wg ∷ marks wg xs

module _ (evt : EventTrx) (wg : ℕ) where
  push_account-true :
      (act : AccountType) (addr : Address) (d : TrxDispatcher)
      → push_account false act addr evt wg d ≡ (
        true,
        record d {
          added = d.added ++ wg ∷ [];
          out_account = d.out_account ++ account_of act evt wg addr ∷ [];
        },
      )
  unfolding push_account
  push_account-true act addr d = refl

  -- with the accounts of an optional address
  push_optional-true :
      (act : AccountType) (addr : Option Address) (d : TrxDispatcher)
      → push_optional false act addr evt wg d ≡ (
        true,
        record d {
          added = d.added ++ marks wg (optional_account act evt wg addr);
          out_account = d.out_account ++ optional_account act evt wg addr;
        },
      )
  unfolding push_account
  push_optional-true act none d = rw (append-nil d.added, append-nil d.out_account) refl
  push_optional-true act (some addr) d = refl

  with_accounts : List EventAcc → TrxDispatcher → TrxDispatcher
  with_accounts accs d = record d {
    added = d.added ++ marks wg accs;
    out_account = d.out_account ++ accs;
  }

  with_logs : List Incoming → TrxDispatcher → TrxDispatcher
  with_logs logs d = record d { added = d.added ++ marks wg logs; out_log = d.out_log ++ logs }

  marks-append : {A : Type 0} (xs ys : List A) → marks wg (xs ++ ys) ≡ marks wg xs ++ marks wg ys
  marks-append [] ys = refl
  marks-append (x ∷ xs) ys = ap (λ l. wg ∷ l) (marks-append xs ys)

  with_accounts-append :
      (xs ys : List EventAcc) (d : TrxDispatcher)
      → with_accounts ys (with_accounts xs d) ≡ with_accounts (xs ++ ys) d
  unfolding with_accounts
  with_accounts-append xs ys d =
      rw
        (
          marks-append xs ys,
          append_assoc d.added (marks wg xs) (marks wg ys),
          append_assoc d.out_account xs ys,
        )
        refl

  with_logs-append :
      (xs ys : List Incoming) (d : TrxDispatcher)
      → with_logs ys (with_logs xs d) ≡ with_logs (xs ++ ys) d
  unfolding with_logs
  with_logs-append xs ys d =
      rw
        (
          marks-append xs ys,
          append_assoc d.added (marks wg xs) (marks wg ys),
          append_assoc d.out_log xs ys,
        )
        refl

  with_logs-nil : (d : TrxDispatcher) → with_logs [] d ≡ d
  unfolding with_logs
  with_logs-nil d = rw (append-nil d.added, append-nil d.out_log) refl

  optional-pushed :
      (act : AccountType) (addr : Option Address) (d : TrxDispatcher)
      → push_optional false act addr evt wg d
        ≡ (true, with_accounts (optional_account act evt wg addr) d)
  unfolding with_accounts
  optional-pushed act addr d = push_optional-true act addr d

  account-pushed :
      (act : AccountType) (addr : Address) (d : TrxDispatcher)
      → push_account false act addr evt wg d
        ≡ (true, with_accounts (account_of act evt wg addr ∷ []) d)
  unfolding with_accounts
  account-pushed act addr d = push_account-true act addr d

  log-pushed :
      (lg : Log) (d : TrxDispatcher)
      → push_log false lg evt wg d ≡ (true, with_logs (log_of evt wg lg ∷ []) d)
  unfolding push_log with_logs
  log-pushed lg d = refl

  module _ (stop : ℕ → Bool) (going : (k : ℕ) → stop k ≡ false) where
    accounts-pushed :
        (d : TrxDispatcher)
        → push_accounts stop evt wg d ≡ (true, with_accounts (accounts_of evt wg) d)
    unfolding push_accounts
    accounts-pushed d =
        let to = optional_account wallet evt wg evt.trx.to in
        let created = optional_account contract evt wg evt.trx.contract_address in
        rw (going 1, going 2, going 3)
          (ap
              (λ p. and_also p λ d.
                and_also (push_optional false wallet evt.trx.to evt wg d)
                  λ d. push_optional false contract evt.trx.contract_address evt wg d)
              (account-pushed wallet evt.trx.from d)
            ∙ ap
                (λ p.
                  and_also p λ d. push_optional false contract evt.trx.contract_address evt wg d)
                (optional-pushed wallet evt.trx.to
                  (with_accounts (account_of wallet evt wg evt.trx.from ∷ []) d))
            ∙ optional-pushed contract evt.trx.contract_address
                (with_accounts to (with_accounts (account_of wallet evt wg evt.trx.from ∷ []) d))
            ∙ ap (λ e. (true, e))
                (ap (with_accounts created)
                    (with_accounts-append (account_of wallet evt wg evt.trx.from ∷ []) to d)
                  ∙ with_accounts-append (account_of wallet evt wg evt.trx.from ∷ to) created d))

    logs-pushed :
        (i : ℕ) (logs : List Log) (d : TrxDispatcher)
        → push_logs stop i logs evt wg d ≡ (true, with_logs (map (log_of evt wg) logs) d)
    unfolding push_logs
    logs-pushed i [] d = ap (λ e. (true, e)) (sym (with_logs-nil d))
    logs-pushed i (lg ∷ logs) d = rw (going i) (
        ap (λ p. and_also p (push_logs stop (suc i) logs evt wg)) (log-pushed lg d)
        ∙ logs-pushed (suc i) logs (with_logs (log_of evt wg lg ∷ []) d)
        ∙ ap (λ e. (true, e))
            (with_logs-append (log_of evt wg lg ∷ []) (map (log_of evt wg) logs) d))

-- What a transaction leaves of a dispatcher: its accounts and logs are sent with a new wait group,
-- which each of them has raised, and the transaction waits for that group.
pub record Sent (evt : EventTrx) (d e : TrxDispatcher) : Type 0 where
  pub burned : e.out_transaction ≡ d.out_transaction ++ evt ∷ []
  pub accounts : e.out_account ≡ d.out_account ++ accounts_of evt d.groups
  pub logs : e.out_log ≡ d.out_log ++ logs_of evt d.groups
  pub raised :
      e.added
      ≡ (d.added ++ marks d.groups (accounts_of evt d.groups))
        ++ marks d.groups (logs_of evt d.groups)
  pub waits : e.waiting ≡ d.waiting ++ (d.groups, evt) ∷ []
  pub next : e.groups ≡ suc d.groups

-- A transaction that passes without a stop signal is sent to the burn dispatcher, and its sender,
-- its recipient and its new contract, those that there are, to the account dispatcher, and its logs,
-- in their order and with their block, to the log dispatcher. Its own wait group is raised once for
-- each of them, and it waits for that group.
pub process-Sent :
    (evt : EventTrx) (stop : ℕ → Bool) (d : TrxDispatcher)
    → ((k : ℕ) → stop k ≡ false)
    → Sent evt d (process stop evt d)
unfolding process with_accounts with_logs
process-Sent evt stop d going =
    let wg = d.groups in
    let sent : TrxDispatcher = record d {
      out_transaction = d.out_transaction ++ evt ∷ [];
      groups = suc wg;
    } in
    let pushed =
      ap (λ p. and_also p (push_logs stop 4 evt.trx.logs evt wg))
        (accounts-pushed evt wg stop going sent)
      ∙ logs-pushed evt wg stop going 4 evt.trx.logs
          (with_accounts evt wg (accounts_of evt wg) sent) in
    rw (going 0, pushed)
      (record {
        burned = refl;
        accounts = refl;
        logs = refl;
        raised = refl;
        waits = refl;
        next = refl;
      })
