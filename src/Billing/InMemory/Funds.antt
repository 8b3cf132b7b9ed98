-- ===== src/Billing/InMemory/Funds.antt =====
-- src/exchange/internal/billing/inmemory_adapter.go: Refund, Credit, EnsureAgentAccount and the reads.
use reference_implementation.Common.{
  Sha256, Option, none, some, List, [], ◌∷◌, ◌++◌, Text, text_eq, if◌then◌else◌, ℤ, pos, ◌+ℤ◌,
  leb_ℤ, ltb_ℤ, put, lookup,
}
use reference_implementation.Billing.Types.{
  Amount, AmountArg, Error, unknown_billing_id, invalid_amount, refund_before_record,
  refund_exceeds_record, empty_billing_ref, currency_mismatch, panicked, demo_currency,
  validate_credit_args,
}
use reference_implementation.Billing.InMemory.State.{
  RecordedTx, RefundEntry, Adapter, op_refund, add_key, or_zero, bound_key, op_already_done,
  mark_op_done,
}

pub data Refundable : Type 0 where
  refuse : Error → Refundable
  against : RecordedTx → ℤ → Refundable

module _ ⦃sha : Sha256⦄ where
  -- The nil and sign tests on the amount, then its currency and the cap.
  abbrev pub check_refund : RecordedTx → AmountArg → ℤ → Refundable
  check_refund rec amount prev = elim amount.value [
    | none ↦ refuse invalid_amount
    | some v ↦
        if leb_ℤ v (pos 0)
        then refuse invalid_amount
        else if text_eq amount.currency rec.amt.currency
        then if ltb_ℤ rec.amt.value (prev +ℤ v) then refuse refund_exceeds_record else against rec v
        else refuse invalid_amount
  ]

  unfoldable pub validate_refund : Text → AmountArg → Adapter → Refundable
  validate_refund billing_id amount a = elim (a.recorded billing_id) [
    | none ↦ elim (lookup billing_id a.reserved) [
      | none ↦ refuse unknown_billing_id
      | some _ ↦ refuse refund_before_record
    ]
    | some rec ↦ check_refund rec amount (or_zero (a.refunded billing_id))
  ]

  unfoldable pub apply_refund :
      Text → Text → Text → Text → RecordedTx → ℤ → Adapter → Option Error × Adapter
  unfolding mark_op_done
  apply_refund billing_id currency reason key rec v a = elim (a.balances rec.billing_ref) [
    | none ↦ (some panicked, a)
    | some bal ↦ (
      none,
      mark_op_done billing_id op_refund key (record a {
        balances = put a.balances rec.billing_ref (record bal { value = bal.value +ℤ v });
        refunded = put a.refunded billing_id (or_zero (a.refunded billing_id) +ℤ v);
        refund_log = λ id.
            if text_eq billing_id id
            then a.refund_log id
              ++ record {
                amt = record { value = v; currency = currency };
                reason = reason;
                key = key;
              }
                ∷ []
            else a.refund_log id;
      }),
    )
  ]

  abbrev pub refund_as :
      Refundable → Text → AmountArg → Text → Text → Adapter → Option Error × Adapter
  refund_as (refuse e) billing_id amount reason key a = (some e, a)
  refund_as (against rec v) billing_id amount reason key a =
      apply_refund billing_id amount.currency reason key rec v a

  unfoldable pub refund : Text → AmountArg → Text → Text → Adapter → Option Error × Adapter
  unfolding op_already_done validate_refund apply_refund
  refund billing_id amount reason key a =
      if op_already_done billing_id op_refund key a
      then (none, a)
      else refund_as (validate_refund billing_id amount a) billing_id amount reason key a

  abbrev pub balance_or_new : Option Amount → Text → Amount
  balance_or_new none currency = record { value = pos 0; currency = currency }
  balance_or_new (some bal) currency = bal

  abbrev pub apply_credit : Text → Amount → ℤ → Text → Text → Adapter → Option Error × Adapter
  apply_credit billing_ref bal v currency key a =
      if text_eq bal.currency currency
      then (
        none,
        record a {
          balances = put a.balances billing_ref (record bal { value = bal.value +ℤ v });
          credit_seen = add_key a.credit_seen (bound_key key);
        },
      )
      else (some currency_mismatch, a)

  unfoldable pub credit : Text → AmountArg → Text → Adapter → Option Error × Adapter
  unfolding validate_credit_args
  credit billing_ref amount key a =
      elim (validate_credit_args billing_ref amount key demo_currency) [
        | some e ↦ (some e, a)
        | none ↦ if a.credit_seen (bound_key key) then (none, a) else elim amount.value [
          | none ↦ (some panicked, a)
          | some v ↦
              apply_credit billing_ref (balance_or_new (a.balances billing_ref) amount.currency) v
                amount.currency key a
        ]
      ]

unfoldable pub ensure_agent_account : Text → Adapter → Option Error × Adapter
ensure_agent_account billing_ref a =
    if text_eq billing_ref [] then (some empty_billing_ref, a) else elim (a.balances billing_ref) [
      | some _ ↦ (none, a)
      | none ↦ (
        none,
        record a {
          balances =
              put a.balances billing_ref (record { value = pos 0; currency = demo_currency });
        },
      )
    ]

unfoldable pub get_balance : Text → Adapter → Option Amount
get_balance billing_ref a = a.balances billing_ref

unfoldable pub get_quota : Text → Adapter → ℤ
get_quota billing_ref a = or_zero (a.quotas billing_ref)

unfoldable pub refunds_of : Text → Adapter → List RefundEntry
refunds_of billing_id a = a.refund_log billing_id
