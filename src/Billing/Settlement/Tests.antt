-- ===== src/Billing/Settlement/Tests.antt =====
-- src/exchange/internal/billing/tigerbeetle_settle.go and tigerbeetle/: fees, batches and holds at
-- small amounts, over a ledger that is a list of transfers.
use reference_implementation.Common.{◌+◌, ◌-◌, ◌≤◌, ◌<◌, ◌≡◌, refl, true, List, [], ◌∷◌, arith}
use reference_implementation.Billing.Settlement.Wire.{Leg, Transfer, blank}
use reference_implementation.Billing.Settlement.Client.{ok}
use reference_implementation.Billing.Settlement.Ids.{encode_id, decode_id, decode_id-encode_id}
use reference_implementation.Billing.Settlement.Split.{
  fee_minor, fee_reversal, settle_legs, refund_legs,
}
use reference_implementation.Billing.Settlement.Fees.{
  legs_total, legs_conserve, fee_reversals, net_reversals, refunds_bound, small_refunds_overdraw,
}

legs_conserve_example :
    (legs_total (settle_legs 1 7 8 9 2 3 1999 (fee_minor 1999 250)) ≡ 1999)
    × (legs_total (
          refund_legs 1 7 10 9 2 4 3
            (600 - fee_reversal (fee_minor 1999 250) 600 1999)
            (fee_reversal (fee_minor 1999 250) 600 1999)
            5)
        ≡ 600)
legs_conserve_example = legs_conserve 1 7 8 9 2 3 10 2 4 1999 250 600 5 (omega arith) (omega arith)

refunds_bound_example :
    (fee_reversals 49 1999 (600 ∷ 600 ∷ []) ≤ 49)
    × (net_reversals 49 1999 (600 ∷ 600 ∷ []) + fee_reversals 49 1999 (600 ∷ 600 ∷ []) ≡ 1200)
refunds_bound_example =
    refunds_bound 49 1999 (600 ∷ 600 ∷ []) (omega arith) (omega arith) (omega arith)

small_refunds_overdraw_example :
    (fee_reversals 1 4 (1 ∷ 3 ∷ []) ≡ 0)
    × (net_reversals 1 4 (1 ∷ 3 ∷ []) ≡ 4)
    × (4 - 1 < net_reversals 1 4 (1 ∷ 3 ∷ []))
small_refunds_overdraw_example =
    small_refunds_overdraw 1 4 (1 ∷ 3 ∷ []) (omega arith) (omega arith)
      (omega arith, (omega arith, tt)) refl

decode_id-encode_id_example : decode_id (encode_id 4660) ≡ ok 4660
decode_id-encode_id_example = decode_id-encode_id 4660 (omega arith)

abbrev legs : List Leg
legs = settle_legs 1 7 8 9 2 3 1999 49

abbrev batch : List Transfer
batch =
    record blank { id = 8; pending_id = 7; amount = 1950; linked = true; post_pending = true }
    ∷ record blank {
      id = 9;
      debit_account = 2;
      credit_account = 3;
      amount = 49;
      ledger = 1;
      code = 1;
    }
    ∷ []
