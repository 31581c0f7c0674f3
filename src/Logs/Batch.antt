-- ===== src/Logs/Batch.antt =====
-- The loop of internal/svc/logs_erc_token.go over the transfers of a batch.
use mathlib.Core.Option.{some-injective}
use explorer_api_gql.Base.{
  ℕ, zero, suc, ◌+◌, ◌%◌, ◌≤◌, ◌<◌, ◌≡◌, refl, sym, ap, ◌∙◌, some, List, [], ◌∷◌, length, get_elem?,
  get_elem?-some, arith,
}
use explorer_api_gql.Types.{Address}
use explorer_api_gql.Logs.Effects.{
  LogRecord, Repo, Act, TokenTransaction, transfer, erc1155, store_token_transaction, to_address,
  element,
}
use explorer_api_gql.Logs.Token.{store_transaction, store_batch, handle_erc1155_transfer_batch}

abbrev pub batch_transfer : LogRecord → Address → Address → ℕ → ℕ → ℕ → TokenTransaction
batch_transfer lr from to id amount seq = record {
  transaction = lr.log.tx_hash;
  trx_index = lr.log.tx_index;
  token_address = lr.log.address;
  type = transfer;
  token_type = erc1155;
  sender = from;
  recipient = to;
  amount = amount;
  token_id = id;
  time_stamp = lr.block.time_stamp;
  log_index = lr.log.log_index;
  block_number = lr.log.block_number;
  seq = seq;
}

-- What is stored for the ids from index `k` on.
pub record Stored (lr : LogRecord) (from to : Address) (values : List ℕ) (k : ℕ) (ids : List ℕ)
    (m : Act (Unit {0})) : Type 0 where
  pub returned : m.0 ≡ some tt
  pub length_eq : length m.1 ≡ length ids
  pub stored :
      (i id amount : ℕ)
      → get_elem? ids i ≡ some id
      → get_elem? values (k + i) ≡ some amount
      → get_elem? m.1 i
        ≡ some (store_token_transaction (batch_transfer lr from to id amount (k + i)))

module _ (lr : LogRecord) (from to : Address) (values : List ℕ) where
  batch_cons :
      (k id amount : ℕ) (ids : List ℕ)
      → get_elem? values k ≡ some amount
      → store_batch lr from to values k (id ∷ ids) ≡ (
        (store_batch lr from to values (suc k) ids).0,
        store_token_transaction (batch_transfer lr from to id amount (k % 65536))
            ∷ (store_batch lr from to values (suc k) ids).1,
      )
  unfolding store_batch store_transaction
  batch_cons k id amount ids e = rw (e, element) refl

  batch_nil : (k : ℕ) → store_batch lr from to values k [] ≡ (some tt, [])
  unfolding store_batch
  batch_nil k = refl

  cons-Stored :
      (k id amount : ℕ) (ids : List ℕ) (m : Act (Unit {0}))
      → get_elem? values k ≡ some amount
      → k < 65536
      → Stored lr from to values (suc k) ids m
      → (i id' amount' : ℕ) → get_elem? (id ∷ ids) i ≡ some id'
      → get_elem? values (k + i) ≡ some amount'
      → get_elem?
          (store_token_transaction (batch_transfer lr from to id amount (k % 65536)) ∷ m.1)
          i
        ≡ some (store_token_transaction (batch_transfer lr from to id' amount' (k + i)))
  cons-Stored k id amount ids m e small s zero id' amount' f g =
      let ids_eq : id ≡ id' = some-injective id id' f in
      let amounts_eq : amount ≡ amount' =
        some-injective amount amount'
          (sym e ∙ ap (get_elem? values) (let p : k ≡ k + 0 = omega arith in p) ∙ g) in
      let seq_eq : k % 65536 ≡ k + 0 = omega arith in rw (ids_eq, amounts_eq, seq_eq) refl
  cons-Stored k id amount ids m e small s (suc i) id' amount' f g =
      let shift : k + suc i ≡ suc k + i = omega arith in
      s.stored i id' amount' f (sym (ap (get_elem? values) shift) ∙ g)
      ∙ ap (λ n. some (store_token_transaction (batch_transfer lr from to id' amount' n)))
          (sym shift)

  store_batch-Stored :
      (k : ℕ) (ids : List ℕ)
      → k + length ids ≤ length values
      → k + length ids ≤ 65536
      → Stored lr from to values k ids (store_batch lr from to values k ids)
  store_batch-Stored k [] h small =
      rw (batch_nil k)
        (record { returned = refl; length_eq = refl; stored = λ i id amount e f. ground arith })
  store_batch-Stored k (id ∷ ids) h small =
      let (amount, e) = get_elem?-some values k (omega arith) in
      let rest = store_batch-Stored (suc k) ids (omega arith) (omega arith) in
      rw (batch_cons k id amount ids e) (record {
        returned = rest.returned;
        length_eq = ap suc rest.length_eq;
        stored =
            cons-Stored k id amount ids (store_batch lr from to values (suc k) ids) e (omega arith)
              rest;
      })

batch_eq :
    (repo : Repo) (lr : LogRecord) (t operator from to : ℕ)
    → lr.log.topics ≡ t ∷ operator ∷ from ∷ to ∷ []
    → handle_erc1155_transfer_batch repo lr
      ≡ store_batch lr
          (to_address from)
          (to_address to)
          (repo.parse_transfer_batch lr.log.bytes).1
          0
          (repo.parse_transfer_batch lr.log.bytes).0
unfolding handle_erc1155_transfer_batch
batch_eq repo lr t operator from to topics = rw topics refl

-- A log `TransferBatch` of four topics, whose ids and values are as many, at most 65536, stores one
-- transfer for each id and returns: the transfer at each place has the id and the value of that
-- place and its number in the batch, so that no two of them have the same number.
pub handle_erc1155_transfer_batch-Stored :
    (repo : Repo) (lr : LogRecord) (t operator from to : ℕ)
    → lr.log.topics ≡ t ∷ operator ∷ from ∷ to ∷ []
    → length (repo.parse_transfer_batch lr.log.bytes).0
      ≡ length (repo.parse_transfer_batch lr.log.bytes).1
    → length (repo.parse_transfer_batch lr.log.bytes).0 ≤ 65536
    → Stored lr
        (to_address from)
        (to_address to)
        (repo.parse_transfer_batch lr.log.bytes).1
        0
        (repo.parse_transfer_batch lr.log.bytes).0
        (handle_erc1155_transfer_batch repo lr)
handle_erc1155_transfer_batch-Stored repo lr t operator from to topics l small =
    let batch = repo.parse_transfer_batch lr.log.bytes in
    let s =
      store_batch-Stored lr (to_address from) (to_address to) batch.1 0 batch.0 (omega arith)
        (omega arith) in
    rw (batch_eq repo lr t operator from to topics) s
