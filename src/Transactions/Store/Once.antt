-- ===== src/Transactions/Store/Once.antt =====
-- Each transaction is stored exactly once, however often it comes and in whatever order.
use explorer_api_gql.Base.{
  ℕ, suc, ◌+◌, ◌≤◌, ◌<◌, ◌≡◌, refl, ◌∙◌, Bool, Bool-cases, true, false, inl, inr, none, some, List,
  [], ◌∷◌, ◌++◌, arith, ltb, ◌==◌, length, if◌then◌else◌, All, ==_iff, Option-cases, ◌%◌,
}
use explorer_api_gql.Types.{Hash, Transaction, u64}
use explorer_api_gql.Burn.{EventTrx}
use explorer_api_gql.Ordinals.{uid}
use explorer_api_gql.Transactions.Store.{
  TrxDocument, Answer, is_transaction_known, should_add_transaction, set_document,
  update_transaction, document, add_transaction, Storage, wait_and_store, update_last_seen_block,
  Event, go_on, tick, step, run, with_collection,
}
use mathlib.Core.Path.{subst}

-- how many documents have the hash
abbrev pub times : Hash → List TrxDocument → ℕ
times hash [] = 0
times hash (doc ∷ col) = let rest = times hash col in if doc.hash == hash then suc rest else rest

abbrev pub handled : List Event → List EventTrx
handled [] = []
handled (go_on answer evt ∷ es) = evt ∷ handled es
handled (tick succeeds ∷ es) = handled es

-- the block of the last transaction that was handled
abbrev pub last_number : ℕ → List Event → ℕ
last_number number [] = number
last_number number (go_on answer evt ∷ es) = last_number evt.blk.number es
last_number number (tick succeeds ∷ es) = last_number number es

-- The calls for a transaction succeed, and it has an identifier.
abbrev pub Succeeds : Event → Type 0
Succeeds (go_on answer evt) =
    (answer.looked_up ≡ true)
    × (answer.inserted ≡ true)
    × (answer.updated ≡ true)
    × ((uid evt.trx ≡ none) → ⊥)
Succeeds (tick succeeds) = Unit {0}

known-times :
    (col : List TrxDocument) (hash : Hash) → is_transaction_known col hash ≡ ltb 0 (times hash col)
unfolding is_transaction_known
known-times [] hash = refl
known-times (doc ∷ col) hash = ground (arith, known-times col hash)

times-append :
    (hash : Hash) (col : List TrxDocument) (doc : TrxDocument)
    → times hash (col ++ doc ∷ []) ≡ times hash col + (if doc.hash == hash then 1 else 0)
times-append hash [] doc = ground arith
times-append hash (d ∷ col) doc = ground (arith, times-append hash col doc)

times-set_document :
    (hash : Hash) (trx : Transaction) (ordinal : ℕ) (col : List TrxDocument)
    → times hash (set_document trx ordinal col) ≡ times hash col
unfolding set_document
times-set_document hash trx ordinal [] = refl
times-set_document hash trx ordinal (doc ∷ col) =
    ground (arith, times-set_document hash trx ordinal col)

-- What the storing of a transaction makes of a collection without duplicates.
record Added (trx : Transaction) (before after : List TrxDocument) : Type 0 where
  pub unique : (hash : Hash) → times hash after ≤ 1
  pub kept : (hash : Hash) → times hash before ≤ times hash after
  pub present : times trx.hash after ≡ 1

times-unknown :
    (col : List TrxDocument) (hash other : Hash)
    → is_transaction_known col hash ≡ false
    → (hash == other) ≡ true
    → times other col ≡ 0
times-unknown col hash other u e =
    subst (λ h. times h col ≡ 0) ((==_iff hash other).0 e) (ground (arith, known-times col hash))

Added-append :
    (col : List TrxDocument) (trx : Transaction) (ordinal : ℕ)
    → ((hash : Hash) → times hash col ≤ 1)
    → is_transaction_known col trx.hash ≡ false
    → Added trx col (col ++ document trx ordinal ∷ [])
Added-append col trx ordinal unique u = record {
  unique = λ hash. grind (
    arith,
    times-append hash col (document trx ordinal),
    unique hash,
    times-unknown col trx.hash hash u,
  );
  kept = λ hash. omega (arith, times-append hash col (document trx ordinal));
  present =
      ground (arith, times-append trx.hash col (document trx ordinal), known-times col trx.hash);
}

-- the result of an addition, with the collection after it
record AddedTo (answer : Answer) (trx : Transaction) (col : List TrxDocument) : Type 0 where
  pub result : Bool × List TrxDocument
  pub added_eq : add_transaction answer trx col ≡ some result
  pub added : Added trx col result.1

add_transaction-AddedTo :
    (answer : Answer) (trx : Transaction) (col : List TrxDocument) (ordinal : ℕ)
    → answer.looked_up ≡ true
    → answer.inserted ≡ true
    → answer.updated ≡ true
    → uid trx ≡ some ordinal
    → ((hash : Hash) → times hash col ≤ 1)
    → AddedTo answer trx col
unfolding add_transaction should_add_transaction update_transaction
add_transaction-AddedTo answer trx col ordinal l i u o unique =
    elim (Bool-cases (is_transaction_known col trx.hash)) [
      | inl known ↦ record {
        result = (true, set_document trx ordinal col);
        added_eq = ground (arith, o, l, known, u);
        added = record {
          unique = λ hash. omega (arith, times-set_document hash trx ordinal col, unique hash);
          kept = λ hash. omega (arith, times-set_document hash trx ordinal col);
          present = ground (
            arith,
            times-set_document trx.hash trx ordinal col,
            unique trx.hash,
            known-times col trx.hash,
          );
        };
      }
      | inr unknown ↦ record {
        result = (true, col ++ document trx ordinal ∷ []);
        added_eq = ground (arith, o, l, unknown, i);
        added = Added-append col trx ordinal unique unknown;
      }
    ]

add_succeeds :
    (answer : Answer) (trx : Transaction) (col : List TrxDocument)
    → (answer.looked_up ≡ true)
      × (answer.inserted ≡ true)
      × (answer.updated ≡ true)
      × ((uid trx ≡ none) → ⊥)
    → ((hash : Hash) → times hash col ≤ 1)
    → AddedTo answer trx col
add_succeeds answer trx col ok unique = elim (Option-cases (uid trx)) [
  | inl e ↦ absurd (ok.3 e)
  | inr (ordinal, e) ↦ add_transaction-AddedTo answer trx col ordinal ok.0 ok.1 ok.2 e unique
]

-- The run goes through without a panic, with each transaction stored once.
pub record StoredOnce (events : List Event) (s : Storage) : Type 0 where
  pub after : Storage
  pub run_eq : run events s ≡ some after
  pub unique : (hash : Hash) → times hash after.collection ≤ 1
  pub kept : (hash : Hash) → times hash s.collection ≤ times hash after.collection
  pub present : All (λ evt. times evt.trx.hash after.collection ≡ 1) (handled events)
  pub counted : after.trx_count ≡ (s.trx_count + length (handled events)) % u64
  pub observed : after.blk_observer ≡ last_number s.blk_observer events

tick-StoredOnce :
    (succeeds : Bool) (events : List Event) (s : Storage)
    → StoredOnce events (update_last_seen_block succeeds s)
    → StoredOnce (tick succeeds ∷ events) s
unfolding run step
tick-StoredOnce true events s r = record {
  after = r.after;
  run_eq = r.run_eq;
  unique = r.unique;
  kept = r.kept;
  present = r.present;
  counted = r.counted;
  observed = r.observed;
}
tick-StoredOnce false events s r = record {
  after = r.after;
  run_eq = r.run_eq;
  unique = r.unique;
  kept = r.kept;
  present = r.present;
  counted = r.counted;
  observed = r.observed;
}

raise_count : (c n : ℕ) → ((c + 1) % u64 + n) % u64 ≡ (c + suc n) % u64
raise_count c n = omega arith

go_on-StoredOnce :
    (answer : Answer) (evt : EventTrx) (events : List Event) (s : Storage)
    (a : AddedTo answer evt.trx s.collection)
    → StoredOnce events (with_collection evt s a.result)
    → StoredOnce (go_on answer evt ∷ events) s
unfolding run step wait_and_store
go_on-StoredOnce answer evt events s a r = record {
  after = r.after;
  run_eq = ground (arith, a.added_eq, r.run_eq);
  unique = r.unique;
  kept = λ hash. omega (arith, a.added.kept hash, r.kept hash);
  present = (omega (arith, a.added.present, r.kept evt.trx.hash, r.unique evt.trx.hash), r.present);
  counted = r.counted ∙ raise_count s.trx_count (length (handled events));
  observed = r.observed;
}

-- Let a collection have no two documents of one hash, and the estimate of the count be of 64 bits. If
-- the transactions whose waits end have identifiers, and the calls of the database for them succeed,
-- then, in whatever order they come, however often, and whenever the last seen block is written, the
-- run goes through without a panic. In the collection after it there are no two documents of one
-- hash, each hash that it had is kept, and each of the transactions has exactly one document. The
-- estimate is raised by their number, modulo 2 ^ 64, and the block that is noted is that of the last
-- of them.
pub run-StoredOnce :
    (events : List Event) (s : Storage)
    → All Succeeds events
    → ((hash : Hash) → times hash s.collection ≤ 1)
    → s.trx_count < u64
    → StoredOnce events s
unfolding run
run-StoredOnce [] s ok unique small = record {
  after = s;
  run_eq = refl;
  unique = unique;
  kept = λ hash. omega arith;
  present = tt;
  counted = omega arith;
  observed = refl;
}
run-StoredOnce (tick true ∷ es) s ok unique small =
    tick-StoredOnce true es s (run-StoredOnce es (update_last_seen_block true s) ok.1 unique small)
run-StoredOnce (tick false ∷ es) s ok unique small =
    tick-StoredOnce false es s (run-StoredOnce es s ok.1 unique small)
run-StoredOnce (go_on answer evt ∷ es) s ok unique small =
    let a = add_succeeds answer evt.trx s.collection (ok.0) unique in
    go_on-StoredOnce answer evt es s a
      (run-StoredOnce es (with_collection evt s a.result) ok.1 a.added.unique (omega arith))
