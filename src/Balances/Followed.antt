-- ===== src/Balances/Followed.antt =====
-- How the stored balance follows the amount of the node.
use mathlib.Core.Path.{subst}
use mathlib.Core.Option.{some-injective, none-ne-some}
use explorer_api_gql.Base.{
  ℕ, ◌≡◌, refl, sym, ap, ◌∙◌, ◌⊎◌, Bool, Bool-cases, true, false, inl, inr, Option, none, some,
  List, [], ◌∷◌, ◌==◌,
}
use explorer_api_gql.Types.{Address}
use explorer_api_gql.Logs.Effects.{Delegation, Balance, updated}
use explorer_api_gql.Balances.{
  Book, same_key, find_delegation, set_balance, push_delegation, pull_delegation, Calls, Lookup,
  found, delegation, outcome, update_found, update_delegation_balance, update_balance,
}

abbrev with_balance : ℕ → Delegation → Option Delegation
with_balance amo dlg = some (record dlg { amount_delegated = amo })

module _ (addr : Address) (id : ℕ) where
  find_same :
      (d : Delegation) (dlgs : List Delegation)
      → same_key addr id d ≡ true
      → find_delegation (d ∷ dlgs) addr id ≡ some d
  unfolding find_delegation
  find_same d dlgs s = rw s refl

  find_other :
      (d : Delegation) (dlgs : List Delegation)
      → same_key addr id d ≡ false
      → find_delegation (d ∷ dlgs) addr id ≡ find_delegation dlgs addr id
  unfolding find_delegation
  find_other d dlgs s = rw s refl

  set_same :
      (d : Delegation) (dlgs : List Delegation) (amo : ℕ)
      → same_key addr id d ≡ true
      → set_balance (d ∷ dlgs) addr id amo ≡ record d { amount_delegated = amo } ∷ dlgs
  unfolding set_balance
  set_same d dlgs amo s = rw s refl

  set_other :
      (d : Delegation) (dlgs : List Delegation) (amo : ℕ)
      → same_key addr id d ≡ false
      → set_balance (d ∷ dlgs) addr id amo ≡ d ∷ set_balance dlgs addr id amo
  unfolding set_balance
  set_other d dlgs amo s = rw s refl

  find_nothing : find_delegation [] addr id ≡ none
  unfolding find_delegation
  find_nothing = refl

  find-set_balance :
      (dlgs : List Delegation) (amo : ℕ) (dlg : Delegation)
      → find_delegation dlgs addr id ≡ some dlg
      → find_delegation (set_balance dlgs addr id amo) addr id
        ≡ some (record dlg { amount_delegated = amo })
  find-set_balance [] amo dlg e =
      let clash : none ≡ some dlg = sym find_nothing ∙ e in absurd (none-ne-some dlg clash)
  find-set_balance (d ∷ dlgs) amo dlg e = elim (Bool-cases (same_key addr id d)) [
    | inl s ↦
        ap (λ l. find_delegation l addr id) (set_same d dlgs amo s)
        ∙ find_same (record d { amount_delegated = amo }) dlgs s
        ∙ ap (with_balance amo) (some-injective d dlg (sym (find_same d dlgs s) ∙ e))
    | inr s ↦
        ap (λ l. find_delegation l addr id) (set_other d dlgs amo s)
        ∙ find_other d (set_balance dlgs addr id amo) s
        ∙ find-set_balance dlgs amo dlg (sym (find_other d dlgs s) ∙ e)
  ]

-- what the cache has of an entry is what the database has
abbrev pub Coherent : Book → Address → ℕ → Type 0
Coherent book addr id =
    (find_delegation book.cache addr id ≡ none)
    ⊎ (find_delegation book.cache addr id ≡ find_delegation book.delegations addr id)

pub find-same_key :
    (dlgs : List Delegation) (addr : Address) (id : ℕ) (dlg : Delegation)
    → find_delegation dlgs addr id ≡ some dlg
    → same_key addr id dlg ≡ true
find-same_key [] addr id dlg e =
    let clash : none ≡ some dlg = sym (find_nothing addr id) ∙ e in absurd (none-ne-some dlg clash)
find-same_key (d ∷ dlgs) addr id dlg e = elim (Bool-cases (same_key addr id d)) [
  | inl s ↦
      subst (λ d. same_key addr id d ≡ true)
        (some-injective d dlg (sym (find_same addr id d dlgs s) ∙ e)) s
  | inr s ↦ find-same_key dlgs addr id dlg (sym (find_other addr id d dlgs s) ∙ e)
]

-- The entry that is found, wherever it is found; it is in the database afterwards as before.
pub record Found (calls : Calls) (book : Book) (addr : Address) (id : ℕ) (dlg : Delegation)
    : Type 0 where
  pub after : Book
  pub lookup_eq : delegation calls addr id book ≡ (found dlg, after)
  pub kept : after.delegations ≡ book.delegations
  pub cached : find_delegation after.cache addr id ≡ some dlg

Found-dropped :
    (calls : Calls) (book : Book) (addr : Address) (id : ℕ) (dlg : Delegation)
    → calls.looked_up ≡ true
    → pull_delegation calls.hit book addr id ≡ none
    → find_delegation book.delegations addr id ≡ some dlg
    → Found calls book addr id dlg
Found-dropped calls book addr id dlg l n e = record {
  after = push_delegation dlg book;
  lookup_eq = rw (n, l, e) refl;
  kept = refl;
  cached = find_same addr id dlg book.cache (find-same_key book.delegations addr id dlg e);
}

pub Found-Coherent :
    (hit written : Bool) (book : Book) (addr : Address) (id : ℕ) (dlg : Delegation)
    → Coherent book addr id
    → find_delegation book.delegations addr id ≡ some dlg
    → Found (record { hit = hit; looked_up = true; written = written }) book addr id dlg
Found-Coherent true written book addr id dlg (inl n) e =
    Found-dropped (record { hit = true; looked_up = true; written = written }) book addr id dlg refl
      n e
Found-Coherent true written book addr id dlg (inr c) e = record {
  after = book;
  lookup_eq = rw (c, e) refl;
  kept = refl;
  cached = c ∙ e;
}
Found-Coherent false written book addr id dlg c e =
    Found-dropped (record { hit = false; looked_up = true; written = written }) book addr id dlg
      refl refl e

-- the calls of an update that go through, whether the cache has kept the entry or not
abbrev pub served : Bool → Calls
served hit = record { hit = hit; looked_up = true; written = true }

update_eq :
    (calls : Calls) (book : Book) (addr : Address) (id val : ℕ) (o : Lookup × Book)
    → delegation calls addr id book ≡ o
    → update_balance (some val) calls addr id book ≡ (
      outcome val (update_found calls.written addr id val o).0,
      (update_found calls.written addr id val o).1,
    )
unfolding update_balance update_delegation_balance
update_eq calls book addr id val o e =
    ap
      (λ o. (
        outcome val (update_found calls.written addr id val o).0,
        (update_found calls.written addr id val o).1,
      ))
      e

-- What an update leaves: the delegation that is in the database, and in the cache if it has one.
pub record Left (result : Balance × Book) (addr : Address) (id : ℕ) (dlg : Delegation)
    : Type 0 where
  pub reported : result.0 ≡ updated
  pub stored : find_delegation result.1.delegations addr id ≡ some dlg
  pub coherent : Coherent result.1 addr id

module _ (hit : Bool) (book : Book) (addr : Address) (id val : ℕ) (dlg : Delegation)
    (c : Coherent book addr id) (e : find_delegation book.delegations addr id ≡ some dlg) where
  -- If the database has a delegation, the cache nothing else of it, and the calls of the database
  -- go through, then an amount of the node other than the amount that was staked at first becomes
  -- the balance of the delegation, all else of it kept, whether the cache has dropped its entry or
  -- not; the cache then has nothing else of it either.
  pub balance_followed :
      (dlg.amount_staked == val) ≡ false
      → Left
          (update_balance (some val) (served hit) addr id book)
          addr
          id
          (record dlg { amount_delegated = val })
  balance_followed ne =
      let f = Found-Coherent hit true book addr id dlg c e in
      let there : find_delegation f.after.delegations addr id ≡ some dlg =
        ap (λ l. find_delegation l addr id) f.kept ∙ e in
      let set = find-set_balance addr id f.after.delegations val dlg there in
      rw (update_eq (served hit) book addr id val (found dlg, f.after) f.lookup_eq, ne, there)
        (record {
          reported = refl;
          stored = set;
          coherent = inr (
              find_same addr id (record dlg { amount_delegated = val }) f.after.cache
                (find-same_key book.delegations addr id dlg e)
              ∙ sym set);
        })

  -- An update with the amount that was staked at first changes nothing in the database.
  pub balance_skipped :
      (dlg.amount_staked == val) ≡ true
      → Left (update_balance (some val) (served hit) addr id book) addr id dlg
  balance_skipped eq =
      let f = Found-Coherent hit true book addr id dlg c e in
      let there : find_delegation f.after.delegations addr id ≡ some dlg =
        ap (λ l. find_delegation l addr id) f.kept ∙ e in
      rw (update_eq (served hit) book addr id val (found dlg, f.after) f.lookup_eq, eq)
        (record { reported = refl; stored = there; coherent = inr (f.cached ∙ sym there) })
