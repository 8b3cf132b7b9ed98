-- ===== src/Reporting/Verdicts.antt =====
-- src/exchange/internal/service/report_validator.go: which reports the checks let through, and which
-- reporting policies a report can meet.
use reference_implementation.Common.{
  ℕ, ◌+◌, ◌-◌, ◌*◌, ◌^◌, ◌≤◌, ◌<◌, ◌≡◌, ◌↔◌, Bool, true, false, Option, none, some, List, [], ◌∷◌,
  arith, ◌∙◌, Text, codes, text_eq, text_eq_iff, ℤ, pos, negsuc, ◌+ℤ◌, ◌-ℤ◌, ◌*ℤ◌, ◌≤ℤ◌, wrap64,
  wrap64_id, Bool-cases, inl, inr,
}
use reference_implementation.Reporting.Report.{
  ReportInput, UsageReport, Rejection, Tolerance, report_has_field, field_present,
  validate_required_fields, consumed_of, effective_ppm, validate_tolerance, is_out_of_tolerance,
  magnitude, validate_billing_id, validate_timestamp, timestamp_skew_past, timestamp_skew_future,
  or_else, validate_usage_report, is_member, known_report_fields, validate_required_field_names,
  required_fields_for,
}

abbrev pub AllPresent : List Text → UsageReport → Type 0
AllPresent [] report = Unit
AllPresent (f ∷ fs) report = (report_has_field report f ≡ true) × AllPresent fs report

validate_required_fields-none_iff :
    (fields : List Text) (report : UsageReport)
    → (validate_required_fields fields report ≡ none) ↔ AllPresent fields report
unfolding validate_required_fields
validate_required_fields-none_iff [] report = ground arith
validate_required_fields-none_iff (f ∷ fs) report =
    ground (arith, validate_required_fields-none_iff fs report)

-- |c - e| is at most the fraction ppm / 1000000 of e.
abbrev pub Within : ℕ → ℕ → ℕ → Type 0
Within c e ppm = (c * 1000000 ≤ (1000000 + ppm) * e) × (1000000 * e ≤ c * 1000000 + ppm * e)

abbrev pub InTolerance : ℤ → ℕ → ℕ → Type 0
InTolerance (pos c) e ppm = Within c e ppm
InTolerance (negsuc c) e ppm = ⊥

product_bound : (e ppm : ℕ) → e < 2 ^ 40 → ppm ≤ 2 ^ 22 → ppm * e < 2 ^ 63
product_bound e ppm small cap = let scaled : ppm * e ≤ 2 ^ 22 * e = grind arith in omega arith

magnitude_distance :
    (c e : ℕ)
    → c < 2 ^ 31
    → e < 2 ^ 40
    → magnitude (wrap64 (pos c -ℤ pos e)) ≡ pos (c - e + (e - c))
unfolding wrap64 ◌-ℤ◌
magnitude_distance c e lt small = ground arith

wrap64-*ℤ : (a b : ℕ) → a * b < 2 ^ 63 → wrap64 (pos a *ℤ pos b) ≡ pos (a * b)
unfolding ◌*ℤ◌
wrap64-*ℤ a b h =
    let exact : pos a *ℤ pos b ≡ pos (a * b) = ground arith in
    rw exact (wrap64_id (pos (a * b)) (h, omega arith))

is_out_of_tolerance_iff :
    (c : ℤ) (e ppm : ℕ)
    → c ≤ℤ pos (2 ^ 31 - 1)
    → e < 2 ^ 40
    → ppm ≤ 2 ^ 22
    → (is_out_of_tolerance c (pos e) (pos ppm) ≡ false) ↔ InTolerance c e ppm
unfolding is_out_of_tolerance
is_out_of_tolerance_iff (negsuc c) e ppm int32 small rate = ground arith
is_out_of_tolerance_iff (pos c) e ppm int32 small rate =
    let allowed = wrap64-*ℤ ppm e (product_bound e ppm small rate) in
    let differs = magnitude_distance c e (omega arith) small in
    let scaled = wrap64-*ℤ (c - e + (e - c)) 1000000 (omega arith) in
    rw (differs, allowed, scaled) ground arith

-- The report's time is at most five seconds before the transaction and five minutes after now.
abbrev pub InTime : Option ℤ → Option ℤ → ℤ → Type 0
InTime none created_at now = Unit
InTime (some t) none now = t ≤ℤ now +ℤ timestamp_skew_future
InTime (some t) (some created) now =
    (created -ℤ timestamp_skew_past ≤ℤ t) × (t ≤ℤ now +ℤ timestamp_skew_future)

validate_timestamp-none_iff :
    (created_at : Option ℤ) (now : ℤ) (report : UsageReport)
    → (validate_timestamp created_at now report ≡ none) ↔ InTime report.timestamp created_at now
unfolding validate_timestamp
validate_timestamp-none_iff created_at now report = ground arith

or_else-none_iff : (a b : Option Rejection) → (or_else a b ≡ none) ↔ ((a ≡ none) × (b ≡ none))
or_else-none_iff none b = ground arith
or_else-none_iff (some r) b = ground arith

validate_tolerance-none_iff :
    (e ppm : ℕ) (tol : Tolerance) (report : UsageReport)
    → effective_ppm tol ≡ pos ppm
    → (validate_tolerance (pos e) tol report ≡ none)
      ↔ (is_out_of_tolerance (consumed_of report) (pos e) (pos ppm) ≡ false)
unfolding validate_tolerance
validate_tolerance-none_iff e ppm tol report rate = rw rate ground arith

validate_billing_id-none_iff :
    (want : Text) (report : UsageReport)
    → (validate_billing_id want report ≡ none) ↔ (report.billing_id ≡ want)
unfolding validate_billing_id
validate_billing_id-none_iff want report = ground (arith, text_eq_iff report.billing_id want)

-- For an estimate e below 2^40 and a tolerance of ppm millionths, at most 2^22 of them, a report is
-- validated exactly when it carries every required field, its quantity is not negative and differs
-- from the estimate by at most the tolerance's share of the estimate, in exact arithmetic, its
-- billing id is the transaction's, and its time, if it claims one, lies between five seconds before
-- the transaction and five minutes after now.
pub validate_usage_report-none_iff :
    (input : ReportInput) (e ppm : ℕ)
    → input.obligation.estimated_quantity ≡ pos e
    → e < 2 ^ 40
    → effective_ppm input.obligation.quantity_tolerance ≡ pos ppm
    → ppm ≤ 2 ^ 22
    → consumed_of input.report ≤ℤ pos (2 ^ 31 - 1)
    → (validate_usage_report input ≡ none) ↔ (
        AllPresent input.obligation.required_fields input.report
        × InTolerance (consumed_of input.report) e ppm
        × (input.report.billing_id ≡ input.billing_id)
        × InTime input.report.timestamp input.created_at input.now)
unfolding validate_usage_report
validate_usage_report-none_iff input e ppm estimate small rate cap_rate int32 =
    let fields = validate_required_fields-none_iff input.obligation.required_fields input.report in
    let tolerance = is_out_of_tolerance_iff (consumed_of input.report) e ppm int32 small cap_rate in
    let time = validate_timestamp-none_iff input.created_at input.now input.report in
    let quantity =
      validate_tolerance-none_iff e ppm input.obligation.quantity_tolerance input.report rate in
    let ids = validate_billing_id-none_iff input.billing_id input.report in
    rw estimate (
      λ h.
          let (f, h1) = (or_else-none_iff _ _).0 h in
          let (q, h2) = (or_else-none_iff _ _).0 h1 in
          let (b, t) = (or_else-none_iff _ _).0 h2 in
          (fields.0 f, tolerance.0 (quantity.0 q), ids.0 b, time.0 t),
      λ (f, q, b, t). (or_else-none_iff _ _).1 (
        fields.1 f,
        (or_else-none_iff _ _).1
            (quantity.1 (tolerance.1 q), (or_else-none_iff _ _).1 (ids.1 b, time.1 t)),
      ),
    )

-- A report that carries every field, and one of a free transaction, which names no billing id.
abbrev pub full_report : UsageReport
full_report = record {
  transaction_id = codes "t";
  billing_id = codes "b";
  idempotency_key = codes "k";
  exchange = codes "x";
  usage = some (record { consumed_quantity = pos 0; function = codes "f" });
  timestamp = some (pos 0);
}

abbrev pub free_report : UsageReport
free_report = record full_report { billing_id = [] }

full_report-known :
    (name : Text) → report_has_field full_report name ≡ is_member name known_report_fields
unfolding report_has_field field_present is_member text_eq
full_report-known name = ground arith

validate_required_field_names-full :
    (names : List Text)
    → (validate_required_field_names names ≡ none) ↔ AllPresent names full_report
unfolding validate_required_field_names
validate_required_field_names-full [] = ground arith
validate_required_field_names-full (name ∷ names) =
    ground (arith, full_report-known name, validate_required_field_names-full names)

abbrev is_free_name : Text → Bool
is_free_name name = text_eq name (codes "billing_id")

free_report-full :
    (name : Text)
    → is_free_name name ≡ false
    → report_has_field free_report name ≡ report_has_field full_report name
unfolding report_has_field field_present is_member text_eq
free_report-full name h = ground arith

required_fields_for-free :
    (names : List Text)
    → AllPresent names full_report
    → AllPresent (required_fields_for names true) free_report
unfolding required_fields_for
required_fields_for-free [] h = tt
required_fields_for-free (name ∷ names) h =
    let rest = required_fields_for-free names h.1 in
    elim (Bool-cases (is_free_name name)) [
      | inl drop ↦ rw drop rest
      | inr keep ↦ rw keep (free_report-full name keep ∙ h.0, rest)
    ]

-- The names of a reporting policy are all known exactly when one report can carry all of them.
pub validate_required_field_names-none_iff :
    (names : List Text)
    → (validate_required_field_names names ≡ none)
      ↔ (validate_required_fields names full_report ≡ none)
validate_required_field_names-none_iff names =
    let known = validate_required_field_names-full names in
    let met = validate_required_fields-none_iff names full_report in
    (λ h. met.1 (known.0 h), λ h. known.1 (met.0 h))

-- When the names of a reporting policy are all known, the fields that it asks of a free transaction
-- can all be carried by a report without a billing id, which is what a free transaction has.
pub required_fields_for-satisfiable :
    (names : List Text)
    → validate_required_field_names names ≡ none
    → validate_required_fields (required_fields_for names true) free_report ≡ none
required_fields_for-satisfiable names h =
    (validate_required_fields-none_iff (required_fields_for names true) free_report).1
      (required_fields_for-free names ((validate_required_field_names-full names).0 h))
