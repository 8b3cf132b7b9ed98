-- ===== src/Billing/Types.antt =====
-- src/exchange/internal/billing/adapter.go: the amounts, requests, results and errors that the
-- billing adapters share, and the argument gate of Credit.
use reference_implementation.Common.{
  Bool, true, false, ◌||◌, Option, none, some, List, [], ◌∷◌, Text, codes, text_eq, has_prefix,
  if◌then◌else◌, ℤ, pos, ◌*ℤ◌, leb_ℤ,
}

-- A `big.Rat` value is an exact rational. The adapters only add, subtract, compare and multiply by
-- an int64, so an integer stands for it: its multiple of 1/d, for a common denominator d of the
-- amounts of the run.
pub record Amount : Type 0 where
  pub value : ℤ
  pub currency : Text

-- An amount that a caller passes, where `Value` may be a nil pointer.
pub record AmountArg : Type 0 where
  pub value : Option ℤ
  pub currency : Text

unfoldable pub total_charge : Amount → ℤ → Amount
total_charge unit_cost quantity = record unit_cost { value = unit_cost.value *ℤ quantity }

pub record AuthorizeRequest : Type 0 where
  pub tenant_id : Text
  pub billing_ref : Text
  pub unit_cost : Amount
  pub quantity : ℤ
  pub unit : Text
  pub idempotency_key : Text
  pub resource_owner_id : Text
  pub fee_rate_bps : ℤ

pub record AuthorizeResult : Type 0 where
  pub billing_id : Text
  pub approved : Bool
  pub reason : Text

-- The sentinel and plain errors; `panicked` stands for a nil pointer dereference.
pub data Error : Type 0 where
  unknown_billing_id invalid_amount refund_before_record refund_exceeds_record : Error
  refund_unsupported insufficient_balance unknown_payee amount_not_representable : Error
  backend_failure bad_id empty_id reserved_id generations_exhausted : Error
  empty_billing_ref empty_credit_key reserved_credit_key bad_credit_amount : Error
  currency_mismatch unknown_account exists_mismatch unexpected_outcome panicked : Error

abbrev pub demo_currency : Text
demo_currency = codes "USD"

-- The prefixes of tigerbeetle/ids.go that the transaction lifecycle reserves.
abbrev pub reserved_credit_key_prefixes : List Text
reserved_credit_key_prefixes =
    codes "pending:" ∷ codes "post:" ∷ codes "void:" ∷ codes "fee:" ∷ codes "refund:" ∷ []

pub has_reserved_prefix : List Text → Text → Bool
has_reserved_prefix [] key = false
has_reserved_prefix (p ∷ ps) key = has_prefix p key || has_reserved_prefix ps key

abbrev is_positive : Option ℤ → Bool
is_positive none = false
is_positive (some v) = if leb_ℤ v (pos 0) then false else true

unfoldable pub validate_credit_args : Text → AmountArg → Text → Text → Option Error
unfolding has_reserved_prefix
validate_credit_args billing_ref amount key expected_currency =
    if text_eq billing_ref []
    then some empty_billing_ref
    else if text_eq key []
    then some empty_credit_key
    else if has_reserved_prefix reserved_credit_key_prefixes key
    then some reserved_credit_key
    else if is_positive amount.value
    then if text_eq amount.currency []
      then some bad_credit_amount
      else if text_eq amount.currency expected_currency
      then none
      else some invalid_amount
    else some bad_credit_amount
