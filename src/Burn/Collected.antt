-- ===== src/Burn/Collected.antt =====
-- What becomes of the fee of one transaction.
use mathlib.Core.List.{append-nil, append_assoc}
use explorer_api_gql.Base.{
  ℕ, ◌*◌, ◌<◌, ◌≡◌, refl, sym, ap, ◌∙◌, inl, inr, Bool-cases, Option, none, some, List, [], ◌∷◌,
  ◌++◌, All, length, length-append, ◌==◌,
}
use explorer_api_gql.Base.Int.{ℤ, pos, ◌+ℤ◌, ◌≤ℤ◌, scale, int64, int_laws, add_comm, add_assoc}
use explorer_api_gql.Types.{Hash, u64}
use explorer_api_gql.Burn.{
  BurnTreasuryShare, BurnedFee, FtmBurn, EventTrx, BurnDispatcher, new_burn, add_burn, collect_fee,
  fee_of, no_fee, split, share_by_block, burn_treasury, process,
}
use explorer_api_gql.Burn.Share.{Shared, split-Shared}

-- What a transaction pays: nothing while it is pending, and its gas, as an int64, at its price else.
abbrev paid_of : ℕ → Option ℕ → Option ℕ → ℤ
paid_of gas_price none gas_used = pos 0
paid_of gas_price (some number) none = pos 0
paid_of gas_price (some number) (some gas) = scale gas_price (int64 gas)

abbrev pub paid : EventTrx → ℤ
paid tx = paid_of tx.trx.gas_price tx.trx.block_number tx.trx.gas_used

-- A transaction is pending, or it has a block number of 64 bits and the gas that it used.
abbrev MinedOf : Option ℕ → Option ℕ → Type 0
MinedOf none gas_used = Unit {0}
MinedOf (some number) none = ⊥
MinedOf (some number) (some gas) = number < u64

abbrev pub Mined : EventTrx → Type 0
Mined tx = MinedOf tx.trx.block_number tx.trx.gas_used

abbrev pub total : {A : Type 0} → (A → ℤ) → List A → ℤ
total f [] = pos 0
total f (x ∷ xs) = f x +ℤ total f xs

-- all burns of a dispatcher, the collected one as the last
abbrev pub burns_of : Option FtmBurn → List FtmBurn → List FtmBurn
burns_of none stored = stored
burns_of (some burn) stored = stored ++ burn ∷ []

abbrev pub burns : BurnDispatcher → List FtmBurn
burns d = burns_of d.current d.stored

abbrev pub transactions_of : List FtmBurn → List Hash
transactions_of [] = []
transactions_of (burn ∷ more) = burn.tx_list ++ transactions_of more

-- The parts of a burn add up to its fee, but for two units for each of its transactions.
pub record Balanced (burn : FtmBurn) : Type 0 where
  pub at_most : burn.burn_amount +ℤ burn.treasury_amount +ℤ burn.rewards_amount ≤ℤ burn.fee_amount
  pub nearly :
      burn.fee_amount
      ≤ℤ burn.burn_amount
        +ℤ burn.treasury_amount
        +ℤ burn.rewards_amount
        +ℤ pos (2 * length burn.tx_list)

total-snoc :
    {A : Type 0} (f : A → ℤ) (xs : List A) (x : A) → total f (xs ++ x ∷ []) ≡ total f xs +ℤ f x
total-snoc f [] x = add_comm (f x) (pos 0)
total-snoc f (y ∷ xs) x =
    ap (λ t. f y +ℤ t) (total-snoc f xs x) ∙ sym (add_assoc (f y) (total f xs) (f x))

transactions_of-snoc :
    (stored : List FtmBurn) (burn : FtmBurn)
    → transactions_of (stored ++ burn ∷ []) ≡ transactions_of stored ++ burn.tx_list
transactions_of-snoc [] burn = append-nil burn.tx_list
transactions_of-snoc (b ∷ stored) burn =
    ap (λ l. b.tx_list ++ l) (transactions_of-snoc stored burn)
    ∙ sym (append_assoc b.tx_list (transactions_of stored) burn.tx_list)

All-snoc :
    (P : FtmBurn → Type 0) (stored : List FtmBurn) (burn : FtmBurn)
    → All P stored
    → P burn
    → All P (stored ++ burn ∷ [])
All-snoc P [] burn all p = (p, tt)
All-snoc P (b ∷ stored) burn all p = (all.0, All-snoc P stored burn all.1 p)

-- the step of one transaction
pub record Collected (tx : EventTrx) (d e : BurnDispatcher) : Type 0 where
  pub fees : total (λ b. b.fee_amount) (burns e) ≡ total (λ b. b.fee_amount) (burns d) +ℤ paid tx
  pub hashes : transactions_of (burns e) ≡ transactions_of (burns d) ++ tx.trx.hash ∷ []
  pub balanced : All Balanced (burns d) → All Balanced (burns e)

new_burn-Balanced : (tx : EventTrx) (f : BurnedFee) → Shared f → Balanced (new_burn tx f)
new_burn-Balanced tx f s = record {
  at_most = omega (int_laws, s.at_most);
  nearly = omega (int_laws, s.nearly);
}

add_burn-Balanced :
    (tx : EventTrx) (f : BurnedFee) (burn : FtmBurn)
    → Shared f
    → Balanced burn
    → Balanced (add_burn tx f burn)
add_burn-Balanced tx f burn s b =
    let l = length-append burn.tx_list (tx.trx.hash ∷ []) in
    record {
      at_most = omega (int_laws, s.at_most, b.at_most);
      nearly = omega (int_laws, s.nearly, b.nearly, l);
    }

All-split :
    (P : FtmBurn → Type 0) (stored : List FtmBurn) (burn : FtmBurn)
    → All P (stored ++ burn ∷ [])
    → All P stored × P burn
All-split P [] burn all = (tt, all.0)
All-split P (b ∷ stored) burn all =
    let (rest, p) = All-split P stored burn all.1 in ((all.0, rest), p)

module _ (tx : EventTrx) (f : BurnedFee) (shared : Shared f) (fee_eq : f.fee ≡ paid tx) where
  started-Collected :
      (stored : List FtmBurn) (d : BurnDispatcher)
      → burns d ≡ stored
      → Collected tx d (record { current = some (new_burn tx f); stored = stored })
  started-Collected stored d e = record {
    fees = total-snoc (λ b. b.fee_amount) stored (new_burn tx f) ∙ rw (e, fee_eq) refl;
    hashes = transactions_of-snoc stored (new_burn tx f) ∙ rw e refl;
    balanced = λ all.
        All-snoc Balanced stored (new_burn tx f) (rw⁻¹ e all) (new_burn-Balanced tx f shared);
  }

  added-Collected :
      (burn : FtmBurn) (stored : List FtmBurn)
      → Collected tx
          (record { current = some burn; stored = stored })
          (record { current = some (add_burn tx f burn); stored = stored })
  added-Collected burn stored = record {
    fees =
        total-snoc (λ b. b.fee_amount) stored (add_burn tx f burn)
        ∙ sym (add_assoc (total (λ b. b.fee_amount) stored) burn.fee_amount f.fee)
        ∙ rw (total-snoc (λ b. b.fee_amount) stored burn, fee_eq) refl;
    hashes =
        transactions_of-snoc stored (add_burn tx f burn)
        ∙ sym (append_assoc (transactions_of stored) burn.tx_list (tx.trx.hash ∷ []))
        ∙ ap (λ l. l ++ tx.trx.hash ∷ []) (sym (transactions_of-snoc stored burn));
    balanced = λ all.
        let (rest, b) = All-split Balanced stored burn all in
        All-snoc Balanced stored (add_burn tx f burn) rest (add_burn-Balanced tx f burn shared b);
  }

  collect-Collected :
      (current : Option FtmBurn) (stored : List FtmBurn)
      → Collected tx
          (record { current = current; stored = stored })
          (collect_fee tx f current stored)
  collect-Collected none stored =
      started-Collected stored (record { current = none; stored = stored }) refl
  collect-Collected (some burn) stored = elim (Bool-cases (tx.blk.number == burn.block_number)) [
    | inl e ↦ rw e (added-Collected burn stored)
    | inr e ↦ rw e (
        started-Collected (stored ++ burn ∷ []) (record { current = some burn; stored = stored })
          refl)
  ]

split_fee : (fee : ℤ) (share : Option BurnTreasuryShare) → (split fee share).fee ≡ fee
split_fee fee none = refl
split_fee fee (some share) = refl

no_fee-Shared : Shared no_fee
no_fee-Shared = record { at_most = omega int_laws; nearly = omega int_laws }

fee_of-Shared :
    (gas_price : ℕ) (number gas_used : Option ℕ)
    → MinedOf number gas_used
    → (f : BurnedFee) × (fee_of gas_price number gas_used ≡ some f)
      × Shared f
      × (f.fee ≡ paid_of gas_price number gas_used)
fee_of-Shared gas_price none gas_used m = (no_fee, refl, no_fee-Shared, refl)
fee_of-Shared gas_price (some number) none m = elim m [ ]
fee_of-Shared gas_price (some number) (some gas) m =
    let share = share_by_block number burn_treasury in
    (
      split (scale gas_price (int64 gas)) share,
      refl,
      split-Shared number (scale gas_price (int64 gas)) m,
      split_fee (scale gas_price (int64 gas)) share,
    )

pub process-Collected :
    (tx : EventTrx) (d : BurnDispatcher)
    → Mined tx
    → (e : BurnDispatcher) × (process tx d ≡ some e) × Collected tx d e
unfolding process
process-Collected tx d m =
    let (f, known, shared, fee_eq) =
      fee_of-Shared tx.trx.gas_price tx.trx.block_number tx.trx.gas_used m in
    (
      collect_fee tx f d.current d.stored,
      rw known refl,
      collect-Collected tx f shared fee_eq d.current d.stored,
    )
