-- ===== src/Documents/Staking/Kept.antt =====
-- What is read back of the documents of the staking contract.
use explorer_api_gql.Base.{
  ℕ, ◌%◌, ◌^◌, ◌<◌, ◌≡◌, refl, sym, ap, ◌∙◌, Bool-cases, inl, inr, Option, none, some, arith, ltb,
  ltb→lt, if◌then◌else◌,
}
use explorer_api_gql.Types.{Hash, Epoch, u64}
use explorer_api_gql.Logs.Effects.{Delegation, WithdrawRequest, RewardClaim}
use explorer_api_gql.Documents.{Hex, Reads, Driver, Keeps, map_option, then_do}
use explorer_api_gql.Documents.Staking.{
  corrected, BsonWithdrawRequest, delegation_row, delegation_of_row, penalty_row, withdraw_row,
  read_penalty, withdraw_of_row, claim_row, claim_of_row, epoch_row, epoch_of_row, marshal_withdraw,
  unmarshal_withdraw,
}
use explorer_api_gql.Documents.Trx.Kept.{Below63}
use explorer_api_gql.Ordinals.{withdraw_ordinal_index}
use explorer_api_gql.Ordinals.Ordered.{withdraw_ordinal_index-lt}

module _ {Text : Type 0} (hex : Hex Text) (reads : Reads hex) where
  -- The rows of delegations, claims and epochs lose nothing.
  delegation_back :
      (dl : Delegation)
      → dl.transaction < 2 ^ 256
      → dl.address < 2 ^ 160
      → dl.to_staker_address < 2 ^ 160
      → dl.to_staker_id < 2 ^ 256
      → dl.amount_staked < 2 ^ 256
      → dl.amount_delegated < 2 ^ 256
      → delegation_of_row hex (delegation_row hex dl) ≡ some dl
  unfolding delegation_of_row delegation_row
  delegation_back dl t a s i m n =
      rw
        (
          reads.big_back dl.to_staker_id i,
          reads.big_back dl.amount_staked m,
          reads.big_back dl.amount_delegated n,
          reads.hash_back dl.transaction t,
          reads.address_back dl.address a,
          reads.address_back dl.to_staker_address s,
        )
        refl

  claim_back :
      (rwc : RewardClaim)
      → rwc.claim_trx < 2 ^ 256
      → rwc.delegator < 2 ^ 160
      → rwc.to_validator_id < 2 ^ 256
      → rwc.amount < 2 ^ 256
      → claim_of_row hex (claim_row hex rwc) ≡ some rwc
  unfolding claim_of_row claim_row
  claim_back rwc t d v a =
      rw
        (
          reads.big_back rwc.to_validator_id v,
          reads.big_back rwc.amount a,
          reads.hash_back rwc.claim_trx t,
          reads.address_back rwc.delegator d,
        )
        refl

  -- the amounts of an epoch fit in 256 bits, and its number and time in 64
  pub record IsEpoch (e : Epoch) : Type 0 where
    id_range : e.id < u64
    end_range : e.end_time < u64
    fee_range : e.epoch_fee < 2 ^ 256
    burn_range : e.epoch_fee_burn < 2 ^ 256
    treasury_range : e.epoch_fee_treasury < 2 ^ 256
    base_range : e.total_base_reward_weight < 2 ^ 256
    tx_range : e.total_tx_reward_weight < 2 ^ 256
    second_range : e.base_reward_per_second < 2 ^ 256
    stake_range : e.stake_total_amount < 2 ^ 256
    supply_range : e.total_supply < 2 ^ 256

  epoch_back : (e : Epoch) → IsEpoch e → epoch_of_row hex (epoch_row hex e) ≡ some e
  unfolding epoch_of_row epoch_row
  epoch_back e r =
      let id_word : e.id % u64 ≡ e.id = omega (arith, r.id_range) in
      let end_word : e.end_time % u64 ≡ e.end_time = omega (arith, r.end_range) in
      rw
        (
          reads.big_back e.epoch_fee r.fee_range,
          reads.big_back e.epoch_fee_burn r.burn_range,
          reads.big_back e.epoch_fee_treasury r.treasury_range,
          reads.big_back e.total_base_reward_weight r.base_range,
          reads.big_back e.total_tx_reward_weight r.tx_range,
          reads.big_back e.base_reward_per_second r.second_range,
          reads.big_back e.stake_total_amount r.stake_range,
          reads.big_back e.total_supply r.supply_range,
          id_word,
          end_word,
        )
        refl

abbrev pub IsFinal : Option Hash → Option ℕ → Type 0
IsFinal none none = Unit {0}
IsFinal none (some penalty) = ⊥
IsFinal (some h) penalty = h < 2 ^ 256

-- A request whose numbers are in their ranges; one with a penalty has a finalising transaction.
pub record IsRequest (wr : WithdrawRequest) : Type 0 where
  pub trx_range : wr.request_trx < 2 ^ 256
  pub id_range : wr.withdraw_request_id < 2 ^ 256
  pub address_range : wr.address < 2 ^ 160
  pub staker_range : wr.staker_id < 2 ^ 256
  pub time_range : wr.created_time < 2 ^ 39
  pub amount_range : wr.amount < 2 ^ 92
  pub final : IsFinal wr.withdraw_trx wr.penalty
  pub final_time : Below63 wr.withdraw_time

-- the unsigned numbers of a row fit in an int64
abbrev pub Fits : {Text : Type 0} → BsonWithdrawRequest Text → Type 0
Fits row =
    (row.ordinal < 2 ^ 63) × (row.cr_time < 2 ^ 63) × (row.value < 2 ^ 63) × Below63 row.fin_time

-- the transaction is read as the penalty, if it has no leading zero
abbrev pub mixed_up : Hash → WithdrawRequest → Option WithdrawRequest
mixed_up h wr = if ltb h (2 ^ 252) then none else some (record wr { penalty = some h })

-- what is read back, by the finalising transaction and the penalty
abbrev pub kept_of : Option Hash → Option ℕ → WithdrawRequest → Option WithdrawRequest
kept_of fin none wr = some wr
kept_of none (some penalty) wr = none
kept_of (some h) (some penalty) wr = mixed_up h wr

abbrev pub kept : WithdrawRequest → Option WithdrawRequest
kept wr = kept_of wr.withdraw_trx wr.penalty wr

module _ {Text : Type 0} (hex : Hex Text) (reads : Reads hex) where
  -- the row of a request with this text of a penalty
  abbrev row_of : WithdrawRequest → Option Text → BsonWithdrawRequest Text
  row_of wr penalty = record {
    id = hex.of_hash wr.request_trx;
    ordinal = withdraw_ordinal_index wr;
    req_id = hex.of_big wr.withdraw_request_id;
    addr = hex.of_address wr.address;
    to = hex.of_big wr.staker_id;
    cr_time = wr.created_time;
    stamp = wr.created_time;
    amount = hex.of_big wr.amount;
    penalty = penalty;
    value = corrected wr.amount;
    req_trx = hex.of_hash wr.request_trx;
    fin_trx = map_option hex.of_hash wr.withdraw_trx;
    fin_time = wr.withdraw_time;
    type = wr.type;
  }

  fin_back :
      (fin : Option Hash) (penalty : Option ℕ)
      → IsFinal fin penalty
      → map_option hex.to_hash (map_option hex.of_hash fin) ≡ fin
  fin_back none penalty f = refl
  fin_back (some h) penalty f = ap some (reads.hash_back h f)

  row_back :
      (wr : WithdrawRequest) (t : Option Text)
      → IsRequest wr
      → withdraw_of_row hex (row_of wr t)
        ≡ then_do (read_penalty hex t) (λ p. some (record wr { penalty = p }))
  unfolding withdraw_of_row
  row_back wr t r =
      rw
        (
          reads.big_back wr.withdraw_request_id r.id_range,
          reads.big_back wr.staker_id r.staker_range,
          reads.big_back wr.amount (omega (arith, r.amount_range)),
          reads.hash_back wr.request_trx r.trx_range,
          reads.address_back wr.address r.address_range,
          fin_back wr.withdraw_trx wr.penalty r.final,
        )
        refl

  -- the text that is stored for a penalty, and what becomes of it
  record Penalty (fin : Option Hash) (penalty : Option ℕ) (wr : WithdrawRequest) : Type 0 where
    text : Option Text
    written : penalty_row hex penalty fin ≡ some text
    loaded :
        then_do (read_penalty hex text) (λ p. some (record wr { penalty = p }))
        ≡ kept_of fin penalty wr

  Penalty-kept :
      (fin : Option Hash) (penalty : Option ℕ) (wr : WithdrawRequest)
      → wr.penalty ≡ penalty
      → IsFinal fin penalty
      → Penalty fin penalty wr
  Penalty-kept fin none wr e f = record {
    text = none;
    written = refl;
    loaded = ap (λ p. some (record wr { penalty = p })) (sym e);
  }
  Penalty-kept none (some penalty) wr e f = absurd f
  Penalty-kept (some h) (some penalty) wr e f = record {
    text = some (hex.of_hash h);
    written = refl;
    loaded = elim (Bool-cases (ltb h (2 ^ 252))) [
      | inl small ↦ rw (small, reads.leading_zero h (ltb→lt h (2 ^ 252) small)) refl
      | inr large ↦ rw (large, reads.hash_as_big h (ground arith) f) refl
    ];
  }

  row_Fits : (wr : WithdrawRequest) (t : Option Text) → IsRequest wr → Fits (row_of wr t)
  row_Fits wr t r =
      let time = r.time_range in
      let amount = r.amount_range in
      (withdraw_ordinal_index-lt wr time, omega arith, omega arith, r.final_time)

-- Let the texts and the rows be read back, as for a transaction, and let a text of a hash be read as a
-- number exactly if it has no leading zero. A withdraw request, all of whose numbers are in their
-- ranges, is stored without a panic. If it has no penalty, then it is read back as it was. If it has
-- one, then the hash of the finalising transaction is read in the place of the penalty, all
-- else being the same; and if that hash is below 2 ^ 252, then the request can not be read at all.
pub withdraw_back :
    {Text Doc : Type 0} (hex : Hex Text) (driver : Driver (BsonWithdrawRequest Text) Doc)
    → Reads hex
    → Keeps driver Fits
    → (wr : WithdrawRequest) → IsRequest wr
    → (doc : Doc) × (marshal_withdraw hex driver wr ≡ some doc)
      × (unmarshal_withdraw hex driver doc ≡ kept wr)
unfolding marshal_withdraw unmarshal_withdraw withdraw_row
withdraw_back hex driver reads keeps wr r =
    let k = Penalty-kept hex reads wr.withdraw_trx wr.penalty wr refl r.final in
    let row = row_of hex reads wr k.text in
    let (doc, written, loaded) = keeps row (row_Fits hex reads wr k.text r) in
    (
      doc,
      ap (λ o. then_do (then_do o (λ t. some (row_of hex reads wr t))) driver.marshal) k.written
          ∙ written,
      ap (λ o. then_do o (withdraw_of_row hex)) loaded ∙ row_back hex reads wr k.text r ∙ k.loaded,
    )
