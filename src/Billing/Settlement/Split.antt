-- ===== src/Billing/Settlement/Split.antt =====
-- src/exchange/internal/billing/tigerbeetle_adapter.go and tigerbeetle_settle.go: the
-- split of a settled charge and of a refund, and the reading of the ledger's outcomes.
use reference_implementation.Common.{
  ℕ, ◌*◌, ◌-◌, ◌/◌, ◌^◌, ◌==◌, Option, none, some, List, [], ◌∷◌, Text, if◌then◌else◌, pos, ltb,
}
use reference_implementation.Billing.Types.{Error, unknown_billing_id, exists_mismatch}
use reference_implementation.Billing.Settlement.Wire.{
  LedgerId, Leg, LinkedOutcome, linked_applied, linked_exceeds_credits, linked_pending_resolved,
  linked_exists_mismatch, ResolveOutcome, resolve_applied, resolve_exists, resolve_not_found,
  resolve_already_resolved, code_settlement, code_refund,
}

-- The options that the calls read; `hold_timeout` is in nanoseconds.
pub record Config : Type 0 where
  pub ledger : ℕ
  pub id_ns : Text
  pub hold_timeout : ℕ

-- floor(gross × bps / 10000). A hold stamps a rate that is not negative.
unfoldable pub fee_minor : ℕ → ℕ → ℕ
fee_minor gross bps = gross * bps / 10000

-- The part of a refund that the platform gives back.
unfoldable pub fee_reversal : ℕ → ℕ → ℕ → ℕ
fee_reversal fee_posted r gross = fee_posted * r / gross

unfoldable pub timeout_seconds : ℕ → ℕ
timeout_seconds hold_timeout =
    let s = hold_timeout / 1000000000 in
    if s == 0 then 1 else if ltb (2 ^ 32 - 1) s then 2 ^ 32 - 1 else s

unfoldable pub linked_err : LinkedOutcome → Error → Option Error
linked_err linked_applied e = none
linked_err linked_exceeds_credits e = some e
linked_err linked_pending_resolved e = some unknown_billing_id
linked_err linked_exists_mismatch e = some exists_mismatch

unfoldable pub resolve_err : ResolveOutcome → Option Error
resolve_err resolve_applied = none
resolve_err resolve_exists = none
resolve_err resolve_not_found = some unknown_billing_id
resolve_err resolve_already_resolved = some unknown_billing_id

-- The net leg posts the hold in part; the fee leg moves the rest to the platform.
unfoldable pub settle_legs :
    ℕ → LedgerId → LedgerId → LedgerId → LedgerId → LedgerId → ℕ → ℕ → List Leg
settle_legs ledger pending_id post_id fee_id debit platform gross fee =
    record {
      id = post_id;
      pending_id = pending_id;
      debit = 0;
      credit = 0;
      amount = some (pos (gross - fee));
      ledger = 0;
      code = 0;
      user_data128 = 0;
      user_data64 = 0;
    }
    ∷ record {
      id = fee_id;
      pending_id = 0;
      debit = debit;
      credit = platform;
      amount = some (pos fee);
      ledger = ledger;
      code = code_settlement;
      user_data128 = 0;
      user_data64 = 0;
    }
    ∷ []

abbrev pub refund_leg : ℕ → LedgerId → LedgerId → LedgerId → LedgerId → ℕ → ℕ → Leg
refund_leg ledger pending_id id debit credit amount token = record {
  id = id;
  pending_id = 0;
  debit = debit;
  credit = credit;
  amount = some (pos amount);
  ledger = ledger;
  code = code_refund;
  user_data128 = pending_id;
  user_data64 = token;
}

-- The net goes back from the owner, the reversed fee from the platform when there is one.
unfoldable pub refund_legs :
    ℕ → LedgerId → LedgerId → LedgerId → LedgerId → LedgerId → LedgerId → ℕ → ℕ → ℕ → List Leg
refund_legs ledger pending_id net_id fee_id agent owner platform net_rev fee_rev token =
    refund_leg ledger pending_id net_id owner agent net_rev token
    ∷ (if fee_rev == 0
        then []
        else refund_leg ledger pending_id fee_id platform agent fee_rev 0 ∷ [])
