-- ===== src/Billing/Settlement/Fees.antt =====
-- src/exchange/internal/billing/tigerbeetle_settle.go: what the split of a charge and of its refunds
-- adds up to.
use reference_implementation.Common.{
  ℕ, ◌+◌, ◌*◌, ◌-◌, ◌≤◌, ◌<◌, ◌≡◌, refl, List, [], ◌∷◌, arith, pos, negsuc, Bool-cases, inl, inr,
  ◌==◌, none, some,
}
use native.Mathlib.Nat.{
  div-le_of_le-mul, div-mul-le_self, div-eq_of_lt, mul-div_cancel, le_of_mul-le-mul_right,
}
use reference_implementation.Billing.Settlement.Wire.{Leg}
use reference_implementation.Billing.Settlement.Split.{
  fee_minor, fee_reversal, settle_legs, refund_legs,
}

-- The fee is the exact share gross × bps / 10000 rounded down, and at a rate of at most 10000 basis
-- points it is at most the gross.
pub fee_minor_bounds :
    (gross bps : ℕ)
    → bps ≤ 10000
    → (fee_minor gross bps * 10000 ≤ gross * bps)
      × (gross * bps < (fee_minor gross bps + 1) * 10000)
      × (fee_minor gross bps ≤ gross)
unfolding fee_minor
fee_minor_bounds gross bps h =
    let capped : gross * bps ≤ gross * 10000 = grind arith in
    (omega arith, omega arith, omega arith)

-- The reversed fee is at most the refund when the fee is at most the gross.
fee_reversal-le : (fee r gross : ℕ) → fee ≤ gross → fee_reversal fee r gross ≤ r
unfolding fee_reversal
fee_reversal-le fee r gross h = div-le_of_le-mul gross (grind arith)

abbrev leg_amount : Leg → ℕ
leg_amount leg = elim leg.amount [ none ↦ 0 | some v ↦ elim v [ pos n ↦ n | negsuc n ↦ 0 ] ]

abbrev pub legs_total : List Leg → ℕ
legs_total [] = 0
legs_total (leg ∷ legs) = leg_amount leg + legs_total legs

-- The legs of a settlement at a rate of at most 10000 basis points move the whole gross; the legs
-- of a refund of at most the gross move the whole refund.
pub legs_conserve :
    (ledger pending_id post_id fee_id debit platform net_id agent owner gross bps r token : ℕ)
    → bps ≤ 10000
    → r ≤ gross
    → let fee = fee_minor gross bps in
      let fee_rev = fee_reversal fee r gross in
      (legs_total (settle_legs ledger pending_id post_id fee_id debit platform gross fee) ≡ gross)
      × (legs_total (
            refund_legs ledger pending_id net_id fee_id agent owner platform
              (r - fee_rev)
              fee_rev
              token)
          ≡ r)
unfolding settle_legs refund_legs
legs_conserve ledger pending_id post_id fee_id debit platform net_id agent owner gross bps r token h
      le =
    let (low, high, within) = fee_minor_bounds gross bps h in
    let rev = fee_reversal-le (fee_minor gross bps) r gross within in
    (
      omega arith,
      elim (Bool-cases (fee_reversal (fee_minor gross bps) r gross == 0)) [
        | inl none_due ↦ rw none_due (ground arith)
        | inr some_due ↦ rw some_due (omega arith)
      ],
    )

-- The refunds of one charge, in minor units, with what they take back from each side.
abbrev pub sum : List ℕ → ℕ
sum [] = 0
sum (r ∷ rs) = r + sum rs

abbrev pub fee_reversals : ℕ → ℕ → List ℕ → ℕ
fee_reversals fee gross [] = 0
fee_reversals fee gross (r ∷ rs) = fee_reversal fee r gross + fee_reversals fee gross rs

abbrev pub net_reversals : ℕ → ℕ → List ℕ → ℕ
net_reversals fee gross [] = 0
net_reversals fee gross (r ∷ rs) = (r - fee_reversal fee r gross) + net_reversals fee gross rs

fee_reversals-mul-le :
    (fee gross : ℕ) (rs : List ℕ) → fee_reversals fee gross rs * gross ≤ fee * sum rs
unfolding fee_reversal
fee_reversals-mul-le fee gross [] = grind arith
fee_reversals-mul-le fee gross (r ∷ rs) =
    omega (arith, fee_reversals-mul-le fee gross rs, div-mul-le_self (fee * r) gross)

net-fee-sum :
    (fee gross : ℕ) (rs : List ℕ)
    → fee ≤ gross
    → net_reversals fee gross rs + fee_reversals fee gross rs ≡ sum rs
net-fee-sum fee gross [] h = refl
net-fee-sum fee gross (r ∷ rs) h =
    omega (arith, net-fee-sum fee gross rs h, fee_reversal-le fee r gross h)

-- Refunds that add up to at most the gross never take back from the platform more than the fee that
-- it was paid, and what they take back from the owner and the platform adds up to the refunds.
pub refunds_bound :
    (fee gross : ℕ) (rs : List ℕ)
    → 0 < gross
    → fee ≤ gross
    → sum rs ≤ gross
    → (fee_reversals fee gross rs ≤ fee)
      × (net_reversals fee gross rs + fee_reversals fee gross rs ≡ sum rs)
refunds_bound fee gross rs p h le =
    let below = fee_reversals-mul-le fee gross rs in
    let bound : fee * sum rs ≤ fee * gross = grind arith in
    let scaled : fee_reversals fee gross rs * gross ≤ fee * gross = omega arith in
    (le_of_mul-le-mul_right scaled p, net-fee-sum fee gross rs h)

-- One refund of the whole gross takes back the fee from the platform and the net from the owner.
pub full_refund :
    (fee gross : ℕ)
    → 0 < gross
    → (fee_reversal fee gross gross ≡ fee) × (gross - fee_reversal fee gross gross ≡ gross - fee)
unfolding fee_reversal
full_refund fee gross p = let exact = mul-div_cancel fee p in (exact, rw exact)

-- Each refund is so small that its share of the fee rounds down to nothing.
abbrev pub AllSmall : ℕ → ℕ → List ℕ → Type 0
AllSmall fee gross [] = Unit
AllSmall fee gross (r ∷ rs) = (fee * r < gross) × AllSmall fee gross rs

fee_reversals-small :
    (fee gross : ℕ) (rs : List ℕ) → AllSmall fee gross rs → fee_reversals fee gross rs ≡ 0
unfolding fee_reversal
fee_reversals-small fee gross [] h = refl
fee_reversals-small fee gross (r ∷ rs) h =
    omega (arith, fee_reversals-small fee gross rs h.1, div-eq_of_lt h.0)

-- The share of the fee is rounded for each refund alone. So when a charge that carries a fee is
-- refunded whole by refunds whose fee share each rounds down to nothing, the platform gives nothing
-- back, and the owner is asked for the gross, more than the net that it was paid.
pub small_refunds_overdraw :
    (fee gross : ℕ) (rs : List ℕ)
    → 0 < fee
    → fee ≤ gross
    → AllSmall fee gross rs
    → sum rs ≡ gross
    → (fee_reversals fee gross rs ≡ 0)
      × (net_reversals fee gross rs ≡ gross)
      × (gross - fee < net_reversals fee gross rs)
small_refunds_overdraw fee gross rs p h small whole =
    let nothing = fee_reversals-small fee gross rs small in
    let total = net-fee-sum fee gross rs h in (nothing, omega arith, omega arith)
