-- ===== src/Billing/Tests.antt =====
-- src/exchange/internal/money/money.go: three quarters of a unit.
use reference_implementation.Common.{◌≡◌, ◌↔◌, some, arith, pos, ◌*ℤ◌}
use reference_implementation.Billing.Money.{minor_units, units, scale_factor, minor_units-units_iff}

minor_units-units_iff_example :
    (minor_units (some (record { num = pos 3; den = 4 })) ≡ units (pos 75000000))
    ↔ (pos 75000000 *ℤ pos 4 ≡ pos 3 *ℤ pos scale_factor)
minor_units-units_iff_example = minor_units-units_iff (pos 3) (pos 75000000) 4 (omega arith)
