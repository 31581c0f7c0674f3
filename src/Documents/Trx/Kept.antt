-- ===== src/Documents/Trx/Kept.antt =====
-- A mined transaction is read back from its document.
use explorer_api_gql.Base.{
  ℕ, ◌%◌, ◌^◌, ◌<◌, ◌≡◌, refl, sym, ap, ◌∙◌, Option, none, some, List, [], ◌∷◌, arith, map, ltb,
  if◌then◌else◌, All,
}
use explorer_api_gql.Types.{Hash, Address, Log, Transaction}
use explorer_api_gql.Ordinals.{uid_of, processed_uid}
use explorer_api_gql.Ordinals.Ordered.{processed_uid-eq}
use explorer_api_gql.Documents.{Hex, Reads, Driver, Keeps, map_option, then_do}
use explorer_api_gql.Documents.Trx.{
  BsonTransaction, MinedPart, mined, stored_gas, log_row, is_large, pending_row, mined_row,
  with_block, trx_row, Place, place_of, read_log, read_logs, value_or_zero, read_trx, trx_of_row,
  marshal_trx, unmarshal_trx,
}

abbrev pub Below63 : Option ℕ → Type 0
Below63 none = Unit {0}
Below63 (some n) = n < 2 ^ 63

-- the unsigned numbers of a row fit in an int64
abbrev pub Fits : {Text : Type 0} → BsonTransaction Text → Type 0
Fits row =
    (row.ordinal < 2 ^ 63)
    × Below63 row.block_id
    × Below63 row.blk_index
    × Below63 row.used_gas
    × Below63 row.cum_gas
    × (row.status < 2 ^ 63)
    × All (λ lg. lg.index < 2 ^ 63) row.logs

-- a log of the transaction with this hash, at this place
pub record IsLogOf (hash h : Hash) (mi : MinedPart) (lg : Log) : Type 0 where
  pub log_hash : lg.tx_hash ≡ hash
  pub log_block : lg.block_hash ≡ h
  pub log_number : lg.block_number ≡ mi.block_number
  pub log_place : lg.tx_index ≡ mi.index
  pub log_address : lg.address < 2 ^ 160
  pub log_topics : All (λ t. t < 2 ^ 256) lg.topics
  pub log_fits : lg.log_index < 2 ^ 63

abbrev pub IsAddress : Option Address → Type 0
IsAddress none = Unit {0}
IsAddress (some a) = a < 2 ^ 160

-- A mined transaction, all of whose numbers are in their range.
pub record IsMined (trx : Transaction) (h : Hash) (mi : MinedPart) : Type 0 where
  pub in_block : trx.block_hash ≡ some h
  pub numbered : trx.block_number ≡ some mi.block_number
  pub indexed : trx.index ≡ some mi.index
  pub placed : trx.trx_index ≡ some mi.index
  pub used : trx.gas_used ≡ some mi.gas_used
  pub cumulated : trx.cumulative_gas_used ≡ some mi.cumulative_gas_used
  pub done : trx.status ≡ some mi.status
  pub block_range : h < 2 ^ 256
  pub number_range : mi.block_number < 2 ^ 49
  pub index_range : mi.index < 2 ^ 14
  pub used_range : mi.gas_used < 2 ^ 63
  pub cumulative_range : mi.cumulative_gas_used < 2 ^ 63
  pub status_range : mi.status < 2 ^ 63
  pub hash_range : trx.hash < 2 ^ 256
  pub from_range : trx.from < 2 ^ 160
  pub to_range : IsAddress trx.to
  pub contract_range : IsAddress trx.contract_address
  pub value_range : trx.value < 2 ^ 256
  pub price_range : trx.gas_price < 2 ^ 256
  pub own_logs : All (IsLogOf trx.hash h mi) trx.logs

-- What is read back: a large input is dropped and marked, and no more gas was used than the cumulative.
abbrev pub restored : Transaction → MinedPart → Transaction
restored trx mi = record trx {
  input_data = if is_large trx then [] else trx.input_data;
  large_input = is_large trx;
  gas_used =
      some (if ltb mi.cumulative_gas_used mi.gas_used then mi.cumulative_gas_used else mi.gas_used);
}

module _ {Text : Type 0} (hex : Hex Text) where
  abbrev row_of : Transaction → Hash → MinedPart → BsonTransaction Text
  row_of trx h mi =
      mined_row hex h mi (pending_row hex trx (processed_uid mi.block_number mi.index))

  mined_eq :
      (trx : Transaction) (h : Hash) (mi : MinedPart) → IsMined trx h mi → mined trx ≡ some mi
  unfolding mined
  mined_eq trx h mi m = rw (m.numbered, m.indexed, m.cumulated, m.used, m.done) refl

  trx_row_eq :
      (trx : Transaction) (h : Hash) (mi : MinedPart)
      → IsMined trx h mi
      → trx_row hex trx ≡ some (row_of trx h mi)
  unfolding trx_row
  trx_row_eq trx h mi m =
      ap
        (λ o.
          then_do (uid_of trx.hash o trx.block_number)
            (λ ordinal. with_block hex trx.block_hash (mined trx) (pending_row hex trx ordinal)))
        m.indexed
      ∙ ap
          (λ o.
            then_do (uid_of trx.hash (some mi.index) o)
              (λ ordinal. with_block hex trx.block_hash (mined trx) (pending_row hex trx ordinal)))
          m.numbered
      ∙ ap
          (λ o.
            with_block hex o (mined trx)
              (pending_row hex trx (processed_uid mi.block_number mi.index)))
          m.in_block
      ∙ ap
          (λ o.
            with_block hex (some h) o
              (pending_row hex trx (processed_uid mi.block_number mi.index)))
          (mined_eq trx h mi m)

  gas_eq : (u c : ℕ) → u < 2 ^ 63 → c < 2 ^ 63 → stored_gas u c ≡ (if ltb c u then c else u)
  gas_eq u c p q =
      let cut : c % 2 ^ 63 ≡ c = omega arith in
      let cut' : u % 2 ^ 63 ≡ u = omega arith in rw (cut, cut') refl

  abbrev stored_place : Hash → MinedPart → Place
  stored_place h mi = record {
    block_hash = hex.to_hash (hex.of_hash h);
    block_number = mi.block_number;
    index = mi.index;
    gas_used = stored_gas mi.gas_used mi.cumulative_gas_used;
    cumulative_gas_used = mi.cumulative_gas_used % 2 ^ 63;
  }

  logs_fit :
      (hash h : Hash) (mi : MinedPart) (lgs : List Log)
      → All (IsLogOf hash h mi) lgs
      → All (λ lg. lg.index < 2 ^ 63) (map (log_row hex) lgs)
  logs_fit hash h mi [] a = tt
  logs_fit hash h mi (lg ∷ lgs) a = (a.0.log_fits, logs_fit hash h mi lgs a.1)

  module _ (reads : Reads hex) where
    topics_back :
        (ts : List Hash) → All (λ t. t < 2 ^ 256) ts → map hex.to_hash (map hex.of_hash ts) ≡ ts
    topics_back [] a = refl
    topics_back (t ∷ ts) a =
        ap (λ x. x ∷ map hex.to_hash (map hex.of_hash ts)) (reads.hash_back t a.0)
        ∙ ap (λ l. t ∷ l) (topics_back ts a.1)

    address_option :
        (o : Option Address)
        → IsAddress o
        → map_option hex.to_address (map_option hex.of_address o) ≡ o
    address_option none a = refl
    address_option (some x) a = ap some (reads.address_back x a)

    module _ (trx : Transaction) (h : Hash) (mi : MinedPart) (m : IsMined trx h mi) where
      log_back :
          (lg : Log)
          → IsLogOf trx.hash h mi lg
          → read_log hex (row_of trx h mi) (log_row hex lg) ≡ some lg
      unfolding pending_row
      log_back lg l = λ i. some (record {
        address = reads.address_back lg.address l.log_address i;
        topics = topics_back lg.topics l.log_topics i;
        bytes = lg.bytes;
        block_number = sym l.log_number i;
        tx_hash = (reads.hash_back trx.hash m.hash_range ∙ sym l.log_hash) i;
        tx_index = sym l.log_place i;
        log_index = lg.log_index;
        block_hash = (reads.hash_back h m.block_range ∙ sym l.log_block) i;
        removed = lg.removed;
      })

      logs_back :
          (lgs : List Log)
          → All (IsLogOf trx.hash h mi) lgs
          → read_logs hex (row_of trx h mi) (map (log_row hex) lgs) ≡ some lgs
      unfolding read_logs
      logs_back [] a = refl
      logs_back (lg ∷ lgs) a =
          ap
            (λ o. then_do o (λ log.
              then_do (read_logs hex (row_of trx h mi) (map (log_row hex) lgs))
                (λ logs. some (log ∷ logs))))
            (log_back lg a.0)
          ∙ ap (λ o. then_do o (λ logs. some (lg ∷ logs))) (logs_back lgs a.1)

      read_back :
          read_trx hex (row_of trx h mi) trx.gas_price (some (stored_place h mi)) trx.logs
          ≡ restored trx mi
      unfolding pending_row
      read_back =
          let cut : mi.cumulative_gas_used % 2 ^ 63 ≡ mi.cumulative_gas_used =
            omega (arith, m.cumulative_range) in
          λ i. record {
            block_hash = (ap some (reads.hash_back h m.block_range) ∙ sym m.in_block) i;
            block_number = sym m.numbered i;
            time_stamp = trx.time_stamp;
            from = reads.address_back trx.from m.from_range i;
            gas = trx.gas;
            gas_used =
                some (gas_eq mi.gas_used mi.cumulative_gas_used m.used_range m.cumulative_range i);
            cumulative_gas_used = (ap some cut ∙ sym m.cumulated) i;
            gas_price = trx.gas_price;
            hash = reads.hash_back trx.hash m.hash_range i;
            nonce = trx.nonce;
            to = address_option trx.to m.to_range i;
            contract_address = address_option trx.contract_address m.contract_range i;
            trx_index = sym m.placed i;
            value = ap value_or_zero (reads.big_back trx.value m.value_range) i;
            input_data = if is_large trx then [] else trx.input_data;
            large_input = is_large trx;
            index = sym m.indexed i;
            status = sym m.done i;
            logs = trx.logs;
          }

      row_back : trx_of_row hex (row_of trx h mi) ≡ some (restored trx mi)
      unfolding trx_of_row pending_row
      row_back =
          ap
            (λ o. then_do o (λ gas_price.
              then_do (place_of hex (row_of trx h mi).block_hash (row_of trx h mi)) (λ pl.
                then_do (read_logs hex (row_of trx h mi) (row_of trx h mi).logs)
                  (λ logs. some (read_trx hex (row_of trx h mi) gas_price pl logs)))))
            (reads.big_back trx.gas_price m.price_range)
          ∙ ap
              (λ o. then_do o (λ logs.
                some
                  (read_trx hex (row_of trx h mi) trx.gas_price (some (stored_place h mi)) logs)))
              (logs_back trx.logs m.own_logs)
          ∙ ap some read_back

      row_Fits : Fits (row_of trx h mi)
      unfolding pending_row
      row_Fits =
          let n = m.number_range in
          let c = m.cumulative_range in
          (
            omega (
              arith,
              processed_uid-eq mi.block_number mi.index (omega arith) m.index_range,
              m.index_range,
            ),
            omega arith,
            omega (arith, m.index_range),
            ground (arith, m.used_range),
            omega arith,
            m.status_range,
            logs_fit trx.hash h mi trx.logs m.own_logs,
          )

-- Let the texts of hashes, addresses and big numbers be read back, and the driver give back rows
-- whose numbers fit in 63 bits. A mined transaction, with the logs of its own and all numbers in
-- their ranges, is stored without a panic, and what is loaded of it is the transaction itself, its logs
-- and their places included, but for two things: an input of more than 256 bytes is dropped, and
-- marked as large, and the gas used is not above the cumulative gas of the block.
pub trx_back :
    {Text Doc : Type 0} (hex : Hex Text) (driver : Driver (BsonTransaction Text) Doc)
    → Reads hex
    → Keeps driver Fits
    → (trx : Transaction) (h : Hash) (mi : MinedPart) → IsMined trx h mi
    → (doc : Doc) × (marshal_trx hex driver trx ≡ some doc)
      × (unmarshal_trx hex driver doc ≡ some (restored trx mi))
unfolding marshal_trx unmarshal_trx
trx_back hex driver reads keeps trx h mi m =
    let (doc, written, loaded) = keeps (row_of hex trx h mi) (row_Fits hex reads trx h mi m) in
    (
      doc,
      ap (λ o. then_do o driver.marshal) (trx_row_eq hex trx h mi m) ∙ written,
      ap (λ o. then_do o (trx_of_row hex)) loaded ∙ row_back hex reads trx h mi m,
    )
