-- ===== src/Exchange/Kinds.antt =====
-- src/exchange/internal/exchange/error.go and src/exchange/internal/service/{denial,billing_errors}.go:
-- the kinds of a failure, those that deny one item, and the kinds of the adapters' errors.
use reference_implementation.Common.{
  ◌≡◌, ◌⊎◌, inl, inr, refl, Bool, true, false, Option, none, some,
}
use reference_implementation.Billing.Types.{
  Error, unknown_billing_id, invalid_amount, refund_before_record, refund_exceeds_record,
  refund_unsupported, unknown_payee, amount_not_representable, backend_failure,
}

pub data Kind : Type 0 where
  invalid_request not_found signature_invalid billing_denied idempotent internal : Kind
  unauthenticated failed_precondition permission_denied unimplemented : Kind
  entitlement_missing entitlement_malformed entitlement_expired entitlement_wrong_buyer : Kind
  subscription_lapsed entitlement_not_granted offer_expired unavailable : Kind
  account_not_registered account_inactive registration_data_invalid terms_digest_stale : Kind
  content_unavailable reporting_overdue : Kind

-- An `*exchange.Error` is its kind: the code that runs a transaction reads nothing else of it.
pub data Result {ℓ} (A : Type ℓ) : Type ℓ where
  failure : Kind → Result A
  success : A → Result A

pub data DenialReason : Type 0 where
  content_unavailable insufficient_balance account_not_registered account_inactive : DenialReason
  signature_invalid offer_expired entitlement_missing entitlement_malformed : DenialReason
  entitlement_expired entitlement_wrong_buyer subscription_lapsed : DenialReason
  entitlement_not_granted reporting_overdue : DenialReason

-- The map from kinds to reasons; `none` is a kind with no reason on the wire.
unfoldable pub denial_reason_for_kind : Kind → Option DenialReason
denial_reason_for_kind Kind.content_unavailable = some DenialReason.content_unavailable
denial_reason_for_kind Kind.billing_denied = some DenialReason.insufficient_balance
denial_reason_for_kind Kind.account_not_registered = some DenialReason.account_not_registered
denial_reason_for_kind Kind.account_inactive = some DenialReason.account_inactive
denial_reason_for_kind Kind.signature_invalid = some DenialReason.signature_invalid
denial_reason_for_kind Kind.offer_expired = some DenialReason.offer_expired
denial_reason_for_kind Kind.entitlement_missing = some DenialReason.entitlement_missing
denial_reason_for_kind Kind.entitlement_malformed = some DenialReason.entitlement_malformed
denial_reason_for_kind Kind.entitlement_expired = some DenialReason.entitlement_expired
denial_reason_for_kind Kind.entitlement_wrong_buyer = some DenialReason.entitlement_wrong_buyer
denial_reason_for_kind Kind.subscription_lapsed = some DenialReason.subscription_lapsed
denial_reason_for_kind Kind.entitlement_not_granted = some DenialReason.entitlement_not_granted
denial_reason_for_kind Kind.reporting_overdue = some DenialReason.reporting_overdue
denial_reason_for_kind _ = none

abbrev pub is_idempotent_replay : Kind → Bool
is_idempotent_replay Kind.idempotent = true
is_idempotent_replay _ = false

unfoldable pub billing_error_kind : Error → Kind
billing_error_kind refund_unsupported = Kind.unimplemented
billing_error_kind unknown_billing_id = Kind.not_found
billing_error_kind refund_before_record = Kind.failed_precondition
billing_error_kind refund_exceeds_record = Kind.failed_precondition
billing_error_kind unknown_payee = Kind.failed_precondition
billing_error_kind invalid_amount = Kind.invalid_request
billing_error_kind amount_not_representable = Kind.invalid_request
billing_error_kind Error.insufficient_balance = Kind.billing_denied
billing_error_kind backend_failure = Kind.unavailable
billing_error_kind _ = Kind.internal

pub Result-cases {ℓ} :
    {A : Type ℓ} (r : Result A) → ((k : Kind) × (r ≡ failure k)) ⊎ ((x : A) × (r ≡ success x))
Result-cases (failure k) = inl (k, refl)
Result-cases (success x) = inr (x, refl)
