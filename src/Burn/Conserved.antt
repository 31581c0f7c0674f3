-- ===== src/Burn/Conserved.antt =====
-- What becomes of the fees, over a run of the burn dispatcher.
use mathlib.Core.List.{append-nil, append_assoc}
use explorer_api_gql.Base.{◌≡◌, refl, sym, ap, ◌∙◌, some, List, [], ◌∷◌, ◌++◌, All, map}
use explorer_api_gql.Base.Int.{◌+ℤ◌, add_assoc, add_zero}
use explorer_api_gql.Burn.{EventTrx, BurnDispatcher, run}
use explorer_api_gql.Burn.Collected.{
  paid, Mined, total, burns, transactions_of, Balanced, process-Collected,
}

-- What a run leaves of the fees and of the transactions.
pub record Conserved (txs : List EventTrx) (d e : BurnDispatcher) : Type 0 where
  pub fees :
      total (λ b. b.fee_amount) (burns e) ≡ total (λ b. b.fee_amount) (burns d) +ℤ total paid txs
  pub hashes : transactions_of (burns e) ≡ transactions_of (burns d) ++ map (λ tx. tx.trx.hash) txs
  pub balanced : All Balanced (burns d) → All Balanced (burns e)

-- A run over transactions that are pending or come with their block number, of 64 bits, and the gas
-- that they used does not panic. A transaction pays nothing while it is pending, and else its gas,
-- taken as an int64, at its price, which is negative for a gas from 2 ^ 63 on. The fees of all its burns, the stored ones and the one that is
-- still collected, are those before and what the transactions pay; each transaction is listed in
-- one burn, once and in order; and in each burn the burned, the treasury and the reward part add up
-- to the fee, but for two units for each transaction, if they did so before.
pub fees-Conserved :
    (txs : List EventTrx) (d : BurnDispatcher)
    → All Mined txs
    → (e : BurnDispatcher) × (run txs d ≡ some e) × Conserved txs d e
unfolding run
fees-Conserved [] d all = (
  d,
  refl,
  record {
    fees = add_zero (total (λ b. b.fee_amount) (burns d));
    hashes = sym (append-nil (transactions_of (burns d)));
    balanced = λ b. b;
  },
)
fees-Conserved (tx ∷ txs) d (m, all) =
    let (d', e, c) = process-Collected tx d m in
    let (d'', e', r) = fees-Conserved txs d' all in
    (
      d'',
      rw e e',
      record {
        fees =
            r.fees
            ∙ ap (λ t. t +ℤ total paid txs) c.fees
            ∙ add_assoc (total (λ b. b.fee_amount) (burns d)) (paid tx) (total paid txs);
        hashes =
            r.hashes
            ∙ ap (λ l. l ++ map (λ tx. tx.trx.hash) txs) c.hashes
            ∙ append_assoc (transactions_of (burns d)) (tx.trx.hash ∷ [])
                (map (λ tx. tx.trx.hash) txs);
        balanced = λ b. r.balanced (c.balanced b);
      },
    )
