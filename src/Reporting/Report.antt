-- ===== src/Reporting/Report.antt =====
-- src/exchange/internal/service/report_validator.go and reporting_obligation.go: the checks of a
-- usage report against its obligation. Times are in nanoseconds.
use reference_implementation.Common.{
  Bool, true, false, not, ◌||◌, Option, none, some, List, [], ◌∷◌, Text, codes, text_eq,
  if◌then◌else◌, ℤ, pos, ◌+ℤ◌, ◌-ℤ◌, ◌*ℤ◌, ltb_ℤ, eqb_ℤ, wrap64,
}

pub data Outcome : Type 0 where
  validated rejected_fields rejected_tolerance rejected_billing_id rejected_timestamp : Outcome

-- The tolerance is a float of which the code reads the sign and `int64(tol * 1e6)`.
pub record Tolerance : Type 0 where
  pub negative : Bool
  pub ppm : ℤ

pub data ObligationState : Type 0 where
  pending received : ObligationState

pub record Obligation : Type 0 where
  pub obligation_id : Text
  pub transaction_id : Text
  pub state : ObligationState
  pub deadline : ℤ
  pub consumed_quantity : Option ℤ
  pub received_at : Option ℤ
  pub required_fields : List Text
  pub estimated_quantity : ℤ
  pub quantity_tolerance : Tolerance
  pub validation_outcome : Option Outcome
  pub validated_at : Option ℤ
  pub source_report_id : Option Text
  pub issued_report_id : Option Text

pub record Usage : Type 0 where
  pub consumed_quantity : ℤ
  pub function : Text

pub record UsageReport : Type 0 where
  pub transaction_id : Text
  pub billing_id : Text
  pub idempotency_key : Text
  pub exchange : Text
  pub usage : Option Usage
  pub timestamp : Option ℤ

-- The outcome of a failed check and the field that its error names.
pub record Rejection : Type 0 where
  pub outcome : Outcome
  pub field : Text

-- `CreatedAt` is `none` when it is the zero time.
pub record ReportInput : Type 0 where
  pub obligation : Obligation
  pub billing_id : Text
  pub created_at : Option ℤ
  pub report : UsageReport
  pub now : ℤ

abbrev pub timestamp_skew_future : ℤ
timestamp_skew_future = pos 300000000000

abbrev pub timestamp_skew_past : ℤ
timestamp_skew_past = pos 5000000000

abbrev pub tolerance_scale : ℤ
tolerance_scale = pos 1000000

-- `int64(defaultQuantityTolerance * 1e6)`, of the default 0.2.
abbrev pub default_ppm : ℤ
default_ppm = pos 200000

abbrev pub known_report_fields : List Text
known_report_fields =
    codes "billing_id"
    ∷ codes "transaction_id"
    ∷ codes "consumed_quantity"
    ∷ codes "function"
    ∷ codes "exchange"
    ∷ codes "timestamp"
    ∷ codes "id"
    ∷ []

unfoldable pub is_member : Text → List Text → Bool
is_member x [] = false
is_member x (y ∷ ys) = text_eq x y || is_member x ys

abbrev pub is_some {ℓ} : {A : Type ℓ} → Option A → Bool
is_some none = false
is_some (some a) = true

abbrev has_function : Option Usage → Bool
has_function none = false
has_function (some u) = not (text_eq u.function [])

-- The switch over a known name.
unfoldable pub field_present : UsageReport → Text → Bool
field_present report field =
    if text_eq field (codes "billing_id")
    then not (text_eq report.billing_id [])
    else if text_eq field (codes "transaction_id")
    then not (text_eq report.transaction_id [])
    else if text_eq field (codes "consumed_quantity")
    then is_some report.usage
    else if text_eq field (codes "function")
    then has_function report.usage
    else if text_eq field (codes "exchange")
    then not (text_eq report.exchange [])
    else if text_eq field (codes "timestamp")
    then is_some report.timestamp
    else if text_eq field (codes "id")
    then not (text_eq report.idempotency_key [])
    else false

unfoldable pub report_has_field : UsageReport → Text → Bool
report_has_field report field =
    if is_member field known_report_fields then field_present report field else false

abbrev pub rejected : Outcome → Text → Option Rejection
rejected outcome field = some (record { outcome = outcome; field = field })

unfoldable pub validate_required_fields : List Text → UsageReport → Option Rejection
validate_required_fields [] report = none
validate_required_fields (field ∷ fields) report =
    let rest = validate_required_fields fields report in
    if report_has_field report field then rest else rejected rejected_fields field

abbrev pub consumed_of : UsageReport → ℤ
consumed_of report = elim report.usage [ none ↦ pos 0 | some u ↦ u.consumed_quantity ]

abbrev pub out_of_tolerance : Option Rejection
out_of_tolerance = rejected rejected_tolerance (codes "consumed_quantity")

abbrev pub effective_ppm : Tolerance → ℤ
effective_ppm tol = if tol.negative then default_ppm else tol.ppm

-- The difference and its negation are int64 operations, as are the two products.
abbrev pub magnitude : ℤ → ℤ
magnitude diff = if ltb_ℤ diff (pos 0) then wrap64 (pos 0 -ℤ diff) else diff

unfoldable pub is_out_of_tolerance : ℤ → ℤ → ℤ → Bool
is_out_of_tolerance consumed estimated ppm =
    if ltb_ℤ consumed (pos 0)
    then true
    else if eqb_ℤ estimated (pos 0)
    then not (eqb_ℤ consumed (pos 0))
    else ltb_ℤ (wrap64 (ppm *ℤ estimated))
        (wrap64 (magnitude (wrap64 (consumed -ℤ estimated)) *ℤ tolerance_scale))

unfoldable pub validate_tolerance : ℤ → Tolerance → UsageReport → Option Rejection
unfolding is_out_of_tolerance
validate_tolerance estimated tol report =
    if is_out_of_tolerance (consumed_of report) estimated (effective_ppm tol)
    then out_of_tolerance
    else none

unfoldable pub validate_billing_id : Text → UsageReport → Option Rejection
validate_billing_id want report =
    if text_eq report.billing_id want
    then none
    else rejected rejected_billing_id (codes "billing_id")

abbrev pub bad_timestamp : Option Rejection
bad_timestamp = rejected rejected_timestamp (codes "timestamp")

abbrev pub precedes : ℤ → Option ℤ → Bool
precedes t none = false
precedes t (some created) = ltb_ℤ t (created -ℤ timestamp_skew_past)

unfoldable pub validate_timestamp : Option ℤ → ℤ → UsageReport → Option Rejection
validate_timestamp created_at now report = elim report.timestamp [
  | none ↦ none
  | some t ↦
      if precedes t created_at
      then bad_timestamp
      else if ltb_ℤ (now +ℤ timestamp_skew_future) t
      then bad_timestamp
      else none
]

abbrev pub or_else : Option Rejection → Option Rejection → Option Rejection
or_else none next = next
or_else (some r) next = some r

-- `none` is a validated report.
unfoldable pub validate_usage_report : ReportInput → Option Rejection
validate_usage_report input =
    or_else (validate_required_fields input.obligation.required_fields input.report) (
      or_else
        (validate_tolerance input.obligation.estimated_quantity input.obligation.quantity_tolerance
          input.report)
        (or_else (validate_billing_id input.billing_id input.report)
          (validate_timestamp input.created_at input.now input.report)))

-- `none` accepts the policy; else the first name that is not known.
unfoldable pub validate_required_field_names : List Text → Option Text
validate_required_field_names [] = none
validate_required_field_names (name ∷ names) =
    let rest = validate_required_field_names names in
    if is_member name known_report_fields then rest else some name

abbrev delete_billing_id : List Text → List Text
delete_billing_id [] = []
delete_billing_id (f ∷ fs) =
    let rest = delete_billing_id fs in if text_eq f (codes "billing_id") then rest else f ∷ rest

-- A nil list is the empty one.
unfoldable pub required_fields_for : List Text → Bool → List Text
required_fields_for fields is_free = if is_free then delete_billing_id fields else fields
