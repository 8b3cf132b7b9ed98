-- ===== src/Billing/Money.antt =====
-- src/exchange/internal/money/money.go: the exact conversion of an amount to minor units.
use reference_implementation.Common.{
  ℕ, suc, ◌*◌, ◌/◌, ◌%◌, ◌^◌, ◌<◌, ◌==◌, ◌≡◌, ◌↔◌, Option, none, some, arith, if◌then◌else◌, ℤ, pos,
  negsuc, sub_ℕ, ◌*ℤ◌,
}
use native.Mathlib.Nat.{div-add-mod', mul-mod_left, mul-div_cancel}

-- A `big.Rat`: a numerator over a denominator, which is positive.
pub record Rat : Type 0 where
  pub num : ℤ
  pub den : ℕ

abbrev pub asset_scale : ℕ
asset_scale = 8

abbrev pub scale_factor : ℕ
scale_factor = 10 ^ asset_scale

pub data MoneyError : Type 0 where
  nil_amount amount_not_representable : MoneyError

pub data Minor : Type 0 where
  units : ℤ → Minor
  refused : MoneyError → Minor

-- The scaled value a / d, or its negation, when it is an integer.
abbrev exact : (ℕ → ℤ) → ℕ → ℕ → Minor
exact sign a d = if a % d == 0 then units (sign (a / d)) else refused amount_not_representable

-- `none` is a nil amount.
unfoldable pub minor_units : Option Rat → Minor
minor_units none = refused nil_amount
minor_units (some v) = elim v.num [
  | pos a ↦ exact pos (a * scale_factor) v.den
  | negsuc a ↦ exact (sub_ℕ 0) (suc a * scale_factor) v.den
]

abbrev Exact : ℕ → ℕ → ℕ → Type 0
Exact a d q = (a % d ≡ 0) × (a / d ≡ q)

Exact-iff : (a d q : ℕ) → 0 < d → Exact a d q ↔ (q * d ≡ a)
Exact-iff a d q p = (
  λ (e, f). let whole = div-add-mod' a d in rw (← f) (omega (arith, whole)),
  λ e. (rw (← e) (mul-mod_left q d), rw (← e) (mul-div_cancel q p)),
)

pos-*ℤ : (a b : ℕ) → pos a *ℤ pos b ≡ pos (a * b)
unfolding ◌*ℤ◌
pos-*ℤ a b = ground arith

negsuc-*ℤ : (a b : ℕ) → negsuc a *ℤ pos b ≡ sub_ℕ 0 (suc a * b)
unfolding ◌*ℤ◌
negsuc-*ℤ a b = ground arith

-- An amount is converted exactly when some integer number of minor units is that amount, and then to
-- that integer, whatever its sign; there is no rounding. The denominator is positive.
pub minor_units-units_iff :
    (n m : ℤ) (d : ℕ)
    → 0 < d
    → (minor_units (some (record { num = n; den = d })) ≡ units m)
      ↔ (m *ℤ pos d ≡ n *ℤ pos scale_factor)
unfolding minor_units
minor_units-units_iff (pos a) (pos q) d p =
    let divides = Exact-iff (a * scale_factor) d q p in
    rw (pos-*ℤ q d, pos-*ℤ a scale_factor) ground (arith, divides)
minor_units-units_iff (pos a) (negsuc q) d p =
    let positive : 0 < suc q * d = grind arith in
    rw (negsuc-*ℤ q d, pos-*ℤ a scale_factor) ground (arith, positive)
minor_units-units_iff (negsuc a) (pos q) d p =
    let divides = Exact-iff (suc a * scale_factor) d 0 p in
    rw (pos-*ℤ q d, negsuc-*ℤ a scale_factor) ground (arith, divides)
minor_units-units_iff (negsuc a) (negsuc q) d p =
    let divides = Exact-iff (suc a * scale_factor) d (suc q) p in
    rw (negsuc-*ℤ q d, negsuc-*ℤ a scale_factor) ground (arith, divides)
