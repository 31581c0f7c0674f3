-- ===== src/Ordinals/Ordered.antt =====
-- The order of the ordinal indexes.
use Prim.Native.Nat.{bit_or}
use explorer_api_gql.Base.{
  ℕ, ◌+◌, ◌*◌, ◌%◌, ◌^◌, ◌<◌, ◌≡◌, refl, ap, ◌∙◌, ◌⊎◌, inl, inr, some, arith,
}
use explorer_api_gql.Base.Bits.{bit_or-add}
use explorer_api_gql.Types.{Transaction, u64}
use explorer_api_gql.Logs.Effects.{LogRecord, Delegation, WithdrawRequest}
use explorer_api_gql.Logs.Uniswap.{uniswap_ordinal_index}
use explorer_api_gql.Ordinals.{
  first_bytes, processed_uid, uid, delegation_ordinal_index, withdraw_ordinal_index,
}

pub processed_uid-eq :
    (number index : ℕ)
    → number < 2 ^ 50
    → index < 2 ^ 14
    → processed_uid number index ≡ number * 2 ^ 14 + index
unfolding processed_uid
processed_uid-eq number index h k =
    let high : (number * 2 ^ 14) % u64 ≡ number * 2 ^ 14 = omega arith in
    let low : (index % 2 ^ 14) % 2 ^ 63 ≡ index = omega arith in
    rw (high, low) (bit_or-add 14 number index k)

-- Transactions of blocks below 2 ^ 50, and of an index below 2 ^ 14 in their block, are ordered by
-- their identifier as they are in the chain: by the block, and then by the index.
pub uid-ordered :
    (t u : Transaction) (b c i j : ℕ)
    → t.block_number ≡ some b
    → t.index ≡ some i
    → u.block_number ≡ some c
    → u.index ≡ some j
    → b < 2 ^ 50
    → c < 2 ^ 50
    → i < 2 ^ 14
    → j < 2 ^ 14
    → (b < c) ⊎ ((b ≡ c) × (i < j))
    → (n m : ℕ) × (uid t ≡ some n) × (uid u ≡ some m) × (n < m)
uid-ordered t u b c i j tb ti ub uj hb hc hi hj before =
    let below : processed_uid b i < processed_uid c j = elim before [
      | inl h ↦ omega (arith, processed_uid-eq b i hb hi, processed_uid-eq c j hc hj)
      | inr (e, h) ↦ omega (arith, processed_uid-eq b i hb hi, processed_uid-eq c j hc hj)
    ] in
    (processed_uid b i, processed_uid c j, rw (ti, tb) refl, rw (uj, ub) refl, below)

-- three parts of 12 bits each but the first, which do not overlap
three_parts :
    (time staker salt : ℕ)
    → staker < 2 ^ 12
    → salt < 2 ^ 12
    → bit_or (bit_or (time * 2 ^ 24) (staker * 2 ^ 12)) salt
      ≡ time * 2 ^ 24 + staker * 2 ^ 12 + salt
three_parts time staker salt h k =
    let inner = bit_or-add 24 time (staker * 2 ^ 12) (omega arith) in
    let joined : time * 2 ^ 24 + staker * 2 ^ 12 ≡ (time * 4096 + staker) * 2 ^ 12 = omega arith in
    ap (λ n. bit_or n salt) (inner ∙ joined)
    ∙ bit_or-add 12 (time * 4096 + staker) salt k
    ∙ omega arith

-- the parts, when the first one fits in 40 bits
timed :
    (bits staker hash time : ℕ)
    → (time % bits) * 2 ^ 24 < u64
    → bit_or
        (bit_or (((time % bits) * 2 ^ 24) % u64) ((((staker % u64) % 2 ^ 12) * 2 ^ 12) % u64))
        (first_bytes hash % 2 ^ 12)
      ≡ (time % bits) * 2 ^ 24 + ((staker % u64) % 2 ^ 12) * 2 ^ 12 + first_bytes hash % 2 ^ 12
timed bits staker hash time h =
    let high : ((time % bits) * 2 ^ 24) % u64 ≡ (time % bits) * 2 ^ 24 = omega arith in
    let middle : (((staker % u64) % 2 ^ 12) * 2 ^ 12) % u64 ≡ ((staker % u64) % 2 ^ 12) * 2 ^ 12 =
      omega arith in
    rw (high, middle)
      (three_parts (time % bits) ((staker % u64) % 2 ^ 12) (first_bytes hash % 2 ^ 12) (omega arith)
        (omega arith))

-- A delegation that was created later, before 2 ^ 39 seconds, comes later in the order of its
-- ordinal index, whatever the validators and the transactions are.
pub delegation-ordered :
    (d e : Delegation)
    → d.created_time < e.created_time
    → e.created_time < 2 ^ 39
    → delegation_ordinal_index d < delegation_ordinal_index e
unfolding delegation_ordinal_index
delegation-ordered d e h k =
    let a = timed (2 ^ 39) d.to_staker_id d.transaction d.created_time (omega arith) in
    let b = timed (2 ^ 39) e.to_staker_id e.transaction e.created_time (omega arith) in
    omega (arith, a, b)

-- a request that was created before 2 ^ 39 seconds has an ordinal index of 63 bits
pub withdraw_ordinal_index-lt :
    (wr : WithdrawRequest) → wr.created_time < 2 ^ 39 → withdraw_ordinal_index wr < 2 ^ 63
unfolding withdraw_ordinal_index
withdraw_ordinal_index-lt wr h =
    omega (arith, timed (2 ^ 40) wr.staker_id wr.request_trx wr.created_time (omega arith))

-- A withdraw request that was created later, before 2 ^ 40 seconds, comes later in the order of its
-- ordinal index, whatever the validators and the transactions are.
pub withdraw-ordered :
    (w v : WithdrawRequest)
    → w.created_time < v.created_time
    → v.created_time < 2 ^ 40
    → withdraw_ordinal_index w < withdraw_ordinal_index v
unfolding withdraw_ordinal_index
withdraw-ordered w v h k =
    let a = timed (2 ^ 40) w.staker_id w.request_trx w.created_time (omega arith) in
    let b = timed (2 ^ 40) v.staker_id v.request_trx v.created_time (omega arith) in
    omega (arith, a, b)

uniswap_ordinal_index-eq :
    (lr : LogRecord)
    → lr.block.number < 2 ^ 49
    → lr.log.tx_index < 2 ^ 6
    → lr.log.log_index < 2 ^ 8
    → uniswap_ordinal_index lr
      ≡ lr.block.number * 2 ^ 14 + lr.log.tx_index * 2 ^ 8 + lr.log.log_index
unfolding uniswap_ordinal_index
uniswap_ordinal_index-eq lr h k l =
    let high : ((lr.block.number * 2 ^ 14) % u64) % 2 ^ 63 ≡ lr.block.number * 2 ^ 14 =
      omega arith in
    let middle : ((lr.log.tx_index * 2 ^ 8) % u64) % 2 ^ 14 ≡ lr.log.tx_index * 2 ^ 8 =
      omega arith in
    let low : lr.log.log_index % 2 ^ 8 ≡ lr.log.log_index = omega arith in
    let inner = bit_or-add 14 lr.block.number (lr.log.tx_index * 2 ^ 8) (omega arith) in
    let joined : lr.block.number * 2 ^ 14 + lr.log.tx_index * 2 ^ 8
        ≡ (lr.block.number * 64 + lr.log.tx_index) * 2 ^ 8 =
      omega arith in
    ap
      (λ n.
        bit_or (bit_or n (((lr.log.tx_index * 2 ^ 8) % u64) % 2 ^ 14)) (lr.log.log_index % 2 ^ 8))
      high
    ∙ ap (λ n. bit_or (bit_or (lr.block.number * 2 ^ 14) n) (lr.log.log_index % 2 ^ 8)) middle
    ∙ ap (λ n. bit_or n (lr.log.log_index % 2 ^ 8)) (inner ∙ joined)
    ∙ ap (bit_or ((lr.block.number * 64 + lr.log.tx_index) * 2 ^ 8)) low
    ∙ bit_or-add 8 (lr.block.number * 64 + lr.log.tx_index) lr.log.log_index l
    ∙ omega arith

-- Uniswap events of blocks below 2 ^ 49, of an index of their transaction below 64 and of a log
-- index below 256 have different ordinal indexes, unless they are the same event.
pub uniswap_ordinal_index-injective :
    (lr lr' : LogRecord)
    → lr.block.number < 2 ^ 49
    → lr.log.tx_index < 2 ^ 6
    → lr.log.log_index < 2 ^ 8
    → lr'.block.number < 2 ^ 49
    → lr'.log.tx_index < 2 ^ 6
    → lr'.log.log_index < 2 ^ 8
    → uniswap_ordinal_index lr ≡ uniswap_ordinal_index lr'
    → (lr.block.number ≡ lr'.block.number)
      × (lr.log.tx_index ≡ lr'.log.tx_index)
      × (lr.log.log_index ≡ lr'.log.log_index)
uniswap_ordinal_index-injective lr lr' h k l h' k' l' e =
    let a = uniswap_ordinal_index-eq lr h k l in
    let b = uniswap_ordinal_index-eq lr' h' k' l' in
    (omega (arith, a, b, e), omega (arith, a, b, e), omega (arith, a, b, e))
