-- ===== src/Balances.antt =====
-- The balance of a delegation in the repository: UpdateDelegationBalance and Delegation of
-- internal/repository/sfc_delegation.go, over the collection of internal/repository/db/delegation.go
-- and the cache of internal/repository/cache/delegation.go. The cache may have dropped an entry,
-- and the calls of the database may fail.
pub mod Followed
pub mod Lag
mod Tests
use explorer_api_gql.Base.{
  ℕ, Bool, true, false, Option, none, some, List, [], ◌∷◌, ◌&&◌, ◌==◌, if◌then◌else◌,
}
use explorer_api_gql.Types.{Address}
use explorer_api_gql.Logs.Effects.{Delegation, Balance, updated, unknown, failed}

-- the collection and the entries of the cache, the latest first
pub record Book : Type 0 where
  pub delegations : List Delegation
  pub cache : List Delegation

abbrev pub same_key : Address → ℕ → Delegation → Bool
same_key addr id dlg = dlg.address == addr && dlg.to_staker_id == id

-- the first entry of an address and a validator, which `Delegation` of the database and
-- `PullDelegation` look for
unfoldable pub find_delegation : List Delegation → Address → ℕ → Option Delegation
find_delegation [] addr id = none
find_delegation (dlg ∷ dlgs) addr id =
    if same_key addr id dlg then some dlg else find_delegation dlgs addr id

-- what `UpdateDelegationBalance` of the database sets, on the first entry that matches
pub set_balance : List Delegation → Address → ℕ → ℕ → List Delegation
set_balance [] addr id amo = []
set_balance (dlg ∷ dlgs) addr id amo =
    if same_key addr id dlg
    then record dlg { amount_delegated = amo } ∷ dlgs
    else dlg ∷ set_balance dlgs addr id amo

abbrev pub pull_delegation : Bool → Book → Address → ℕ → Option Delegation
pull_delegation hit book addr id = if hit then find_delegation book.cache addr id else none

-- `PushDelegation`
abbrev pub push_delegation : Delegation → Book → Book
push_delegation dlg book = record book { cache = dlg ∷ book.cache }

-- The result of an update, as the error of the source: none, ErrUnknownDelegation, or another one.
pub data Result : Type 0 where
  done unknown_delegation other_error : Result

-- What the calls of one update find: whether the cache has kept the entry, and whether the lookup and
-- the write of the database go through.
pub record Calls : Type 0 where
  pub hit : Bool
  pub looked_up : Bool
  pub written : Bool

-- A delegation, or the error.
pub data Lookup : Type 0 where
  found : Delegation → Lookup
  missing : Result → Lookup

abbrev pub from_db : Bool → Option Delegation → Book → Lookup × Book
from_db false o book = (missing other_error, book)
from_db true none book = (missing unknown_delegation, book)
from_db true (some dlg) book = (found dlg, push_delegation dlg book)

abbrev pub from_cache : Bool → Option Delegation → Address → ℕ → Book → Lookup × Book
from_cache looked_up (some dlg) addr id book = (found dlg, book)
from_cache looked_up none addr id book =
    from_db looked_up (find_delegation book.delegations addr id) book

-- `Delegation`
abbrev pub delegation : Calls → Address → ℕ → Book → Lookup × Book
delegation calls addr id book =
    from_cache calls.looked_up (pull_delegation calls.hit book addr id) addr id book

-- the write to the database, and to the cache if an entry was there
abbrev pub write_balance :
    Bool → Option Delegation → Address → ℕ → ℕ → Delegation → Book → Result × Book
write_balance false o addr id amo dlg book = (other_error, book)
write_balance true none addr id amo dlg book = (unknown_delegation, book)
write_balance true (some _) addr id amo dlg book = (
  done,
  push_delegation (record dlg { amount_delegated = amo })
      (record book { delegations = set_balance book.delegations addr id amo }),
)

abbrev pub update_found : Bool → Address → ℕ → ℕ → Lookup × Book → Result × Book
update_found written addr id amo (missing err, book) = (err, book)
update_found written addr id amo (found dlg, book) =
    if dlg.amount_staked == amo
    then (done, book)
    else write_balance written (find_delegation book.delegations addr id) addr id amo dlg book

-- `updateDelegationBalance`
pub update_delegation_balance : Calls → Address → ℕ → ℕ → Book → Result × Book
update_delegation_balance calls addr id amo book =
    update_found calls.written addr id amo (delegation calls addr id book)

-- what `UpdateDelegationBalance` does with the result; the unknown delegation goes to its callback.
abbrev pub outcome : ℕ → Result → Balance
outcome val done = updated
outcome val unknown_delegation = unknown val
outcome val other_error = failed

-- `UpdateDelegationBalance`, with the amount that the node gives, `none` for an error
pub update_balance : Option ℕ → Calls → Address → ℕ → Book → Balance × Book
update_balance none calls addr id book = (failed, book)
update_balance (some val) calls addr id book =
    let (result, book') = update_delegation_balance calls addr id val book in
    (outcome val result, book')
