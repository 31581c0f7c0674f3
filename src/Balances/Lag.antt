-- ===== src/Balances/Lag.antt =====
-- What is stored of a balance after any updates: an amount of the node that is the one staked at first
-- is never stored.
use explorer_api_gql.Base.{
  ℕ, ◌≡◌, Bool, Bool-cases, inl, inr, some, List, [], ◌∷◌, ◌==◌, if◌then◌else◌,
}
use explorer_api_gql.Types.{Address}
use explorer_api_gql.Logs.Effects.{Delegation}
use explorer_api_gql.Balances.{Book, find_delegation, update_balance}
use explorer_api_gql.Balances.Followed.{Coherent, served, balance_followed, balance_skipped}

-- the updates with amounts of the node, each with whether the cache has kept the entry
abbrev pub updates : List (ℕ × Bool) → Address → ℕ → Book → Book
updates [] addr id book = book
updates ((val, hit) ∷ vals) addr id book =
    updates vals addr id (update_balance (some val) (served hit) addr id book).1

-- the last of the amounts that is not the one that was staked at first
abbrev pub last_other : ℕ → ℕ → List (ℕ × Bool) → ℕ
last_other staked balance [] = balance
last_other staked balance ((val, hit) ∷ vals) =
    last_other staked (if staked == val then balance else val) vals

-- Let the database have a delegation, and the cache nothing else of it. After any updates whose calls
-- go through, whether the cache has kept its entry at each or not, the balance that is stored is the
-- last amount of the node other than the amount that was staked at first, or the one before the
-- updates if there is no such amount, and all else of the delegation is kept: when the amount of the
-- node has gone back to that first amount, the balance that is stored is still the one before that.
pub balance_lags :
    (vals : List (ℕ × Bool)) (book : Book) (addr : Address) (id : ℕ) (dlg : Delegation)
    → Coherent book addr id
    → find_delegation book.delegations addr id ≡ some dlg
    → find_delegation (updates vals addr id book).delegations addr id
      ≡ some
          (record dlg { amount_delegated = last_other dlg.amount_staked dlg.amount_delegated vals })
balance_lags [] book addr id dlg c e = e
balance_lags ((val, hit) ∷ vals) book addr id dlg c e =
    let after = (update_balance (some val) (served hit) addr id book).1 in
    elim (Bool-cases (dlg.amount_staked == val)) [
      | inl eq ↦
          let l = balance_skipped hit book addr id val dlg c e eq in
          rw eq (balance_lags vals after addr id dlg l.coherent l.stored)
      | inr ne ↦
          let l = balance_followed hit book addr id val dlg c e ne in
          rw ne (
            balance_lags vals after addr id (record dlg { amount_delegated = val }) l.coherent
              l.stored)
    ]
