-- ===== src/Burn/Share.antt =====
-- The parts of a fee.
use explorer_api_gql.Base.{ℕ, ◌-◌, ◌≤◌, ◌<◌, ◌≡◌, inl, inr, some, arith, leb, leb→le, Bool-cases}
use explorer_api_gql.Base.Int.{ℤ, pos, negsuc, ◌+ℤ◌, ◌≤ℤ◌, int_laws}
use explorer_api_gql.Types.{u64}
use explorer_api_gql.Burn.{BurnTreasuryShare, burn_treasury, share_by_block, BurnedFee, split}

-- The parts of a fee add up to it, but for at most two of the smallest units.
pub record Shared (f : BurnedFee) : Type 0 where
  pub at_most : f.burn +ℤ f.treasury +ℤ f.reward ≤ℤ f.fee
  pub nearly : f.fee ≤ℤ f.burn +ℤ f.treasury +ℤ f.reward +ℤ pos 2

abbrev early : BurnTreasuryShare
early = record {
  since_block_id = 0;
  until_block_id = 48552263;
  to_burn = 300;
  to_treasury = 0;
  to_rewards = 700;
  digit_correction = 1000;
}

abbrev late : BurnTreasuryShare
late = record {
  since_block_id = 48552264;
  until_block_id = u64 - 1;
  to_burn = 200;
  to_treasury = 100;
  to_rewards = 700;
  digit_correction = 1000;
}

early-Shared : (fee : ℤ) → Shared (split fee (some early))
early-Shared (pos n) = record { at_most = omega int_laws; nearly = omega int_laws }
early-Shared (negsuc n) = record { at_most = omega int_laws; nearly = omega int_laws }

late-Shared : (fee : ℤ) → Shared (split fee (some late))
late-Shared (pos n) = record { at_most = omega int_laws; nearly = omega int_laws }
late-Shared (negsuc n) = record { at_most = omega int_laws; nearly = omega int_laws }

share_early : (number : ℕ) → number ≤ 48552263 → share_by_block number burn_treasury ≡ some early
unfolding share_by_block
share_early number h = ground arith

share_late :
    (number : ℕ)
    → 48552263 < number
    → number < u64
    → share_by_block number burn_treasury ≡ some late
unfolding share_by_block
share_late number h k = ground arith

-- Every block of a 64-bit number has a share, and the parts of any fee by that share, a negative
-- one included, add up to the fee, but for at most two units that the divisions lose.
pub split-Shared :
    (number : ℕ) (fee : ℤ) → number < u64 → Shared (split fee (share_by_block number burn_treasury))
split-Shared number fee h = elim (Bool-cases (leb number 48552263)) [
  | inl e ↦ rw (share_early number (leb→le number 48552263 e)) (early-Shared fee)
  | inr e ↦
      rw (share_late number (let k : 48552263 < number = ground arith in k) h) (late-Shared fee)
]
