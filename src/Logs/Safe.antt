-- ===== src/Logs/Safe.antt =====
-- Which handlers return, instead of a panic.
pub mod Delegations
pub mod Rewards
pub mod Tokens
pub mod Declared
pub mod Events
use explorer_api_gql.Base.{
  ℕ, zero, suc, ◌+◌, ◌≤◌, ◌<◌, ◌≡◌, refl, ◌≢◌, Bool, true, false, none, some, inl, inr,
  Option-cases, List, [], ◌∷◌, ◌++◌, arith, length, get_elem?-some, if◌then◌else◌,
}
use explorer_api_gql.Types.{Address}
use explorer_api_gql.Logs.Effects.{
  LogRecord, WithdrawType, Repo, Act, Call, ◌>>=◌, ◌>>◌, prefixed, call, return, element, topic,
}
use explorer_api_gql.Logs.Delegation.{
  handle_new_delegation, make_ad_hoc_delegation, update_balance, handle_new_withdraw_request,
  handle_finished_withdraw_request,
}

-- An act returns, if it does not end in a panic.
abbrev pub Safe : {A : Type 0} → Act A → Type 0
Safe {A} m = (a : A) × (m.0 ≡ some a)

pub bind-Safe :
    {A B : Type 0} (m : Act A) (f : A → Act B) → Safe m → ((a : A) → Safe (f a)) → Safe (m >>= f)
bind-Safe (some a, calls) f s t = t a
bind-Safe (none, calls) f (a, e) t = ground arith

pub return-Safe : Safe return
return-Safe = (tt, refl)

pub unless-Safe : (b : Bool) (m : Act (Unit {0})) → Safe m → Safe (if b then return else m)
unless-Safe true m s = return-Safe
unless-Safe false m s = s

pub when-Safe :
    (b : Bool) (m k : Act (Unit {0})) → (b ≡ true → Safe m) → Safe k → Safe (if b then m else k)
when-Safe true m k s t = s refl
when-Safe false m k s t = t

pub element-Safe : (xs : List ℕ) (i : ℕ) → i < length xs → Safe (element xs i)
element-Safe xs i h = let (x, e) = get_elem?-some xs i h in (x, rw (e, element) refl)

-- What comes after the reading of a topic that is there returns if it does so for any topic.
pub topic-Safe :
    (lr : LogRecord) (i : ℕ) (f : ℕ → Act (Unit {0}))
    → i < length lr.log.topics
    → ((t : ℕ) → Safe (f t))
    → Safe (topic lr i >>= f)
topic-Safe lr i f h s = bind-Safe (topic lr i) f (element-Safe lr.log.topics i h) s

pub topics2-Safe :
    (lr : LogRecord) (i j : ℕ) (f : ℕ → ℕ → Act (Unit {0}))
    → i < length lr.log.topics
    → j < length lr.log.topics
    → ((t u : ℕ) → Safe (f t u))
    → Safe (topic lr i >>= λ t. topic lr j >>= f t)
topics2-Safe lr i j f h k s = topic-Safe lr i _ h (λ t. topic-Safe lr j (f t) k (s t))

pub topics3-Safe :
    (lr : LogRecord) (i j k : ℕ) (f : ℕ → ℕ → ℕ → Act (Unit {0}))
    → i < length lr.log.topics
    → j < length lr.log.topics
    → k < length lr.log.topics
    → ((t u v : ℕ) → Safe (f t u v))
    → Safe (topic lr i >>= λ t. topic lr j >>= λ u. topic lr k >>= f t u)
topics3-Safe lr i j k f h h' h'' s =
    topic-Safe lr i _ h (λ t. topics2-Safe lr j k (f t) h' h'' (s t))

module _ (repo : Repo) (lr : LogRecord) where
  pub handle_new_delegation-Safe :
      (staker : ℕ) (address : Address) (amount : ℕ)
      → Safe (handle_new_delegation repo lr staker address amount)
  unfolding handle_new_delegation
  handle_new_delegation-Safe staker address amount = ground arith

  pub update_balance-Safe :
      (address : Address) (staker : ℕ) → Safe (update_balance repo lr address staker)
  unfolding update_balance make_ad_hoc_delegation
  update_balance-Safe address staker = ground arith

  pub handle_new_withdraw_request-Safe :
      (type : WithdrawType) (address : Address) (validator request amount : ℕ)
      → Safe (handle_new_withdraw_request repo type address validator request amount lr)
  unfolding handle_new_withdraw_request
  handle_new_withdraw_request-Safe type address validator request amount =
      update_balance-Safe address validator

  pub handle_finished_withdraw_request-Safe :
      (address : Address) (validator request penalty : ℕ)
      → Safe (handle_finished_withdraw_request repo address validator request penalty lr)
  unfolding handle_finished_withdraw_request
  handle_finished_withdraw_request-Safe address validator request penalty =
      elim (Option-cases (repo.find_withdraw_request address validator request)) [
        | inl e ↦ rw e (update_balance-Safe address validator)
        | inr (req, e) ↦ rw e (update_balance-Safe address validator)
      ]
