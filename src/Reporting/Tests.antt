-- ===== src/Reporting/Tests.antt =====
-- src/exchange/internal/service/report_usage.go: one agent with one pending obligation, and its reports.
use reference_implementation.Common.{
  ℕ, ◌+◌, ◌*◌, ◌<◌, ◌≡◌, ◌↔◌, ◌⊎◌, inr, refl, true, false, none, some, List, [], ◌∷◌, arith, Text,
  codes, text_eq, pos, wrap64, ◌*ℤ◌, ◌-ℤ◌, ◌+ℤ◌,
}
use reference_implementation.Reporting.Report.{
  Obligation, UsageReport, ReportInput, Rejection, pending, received, rejected_tolerance,
  validate_usage_report, validate_required_fields, is_member, report_has_field, field_present,
  validate_tolerance, is_out_of_tolerance, validate_billing_id, validate_timestamp,
}
use reference_implementation.Reporting.Store.{
  ReportContext, Rows, load_for_report, find_accepted, is_accepted,
}
use reference_implementation.Reporting.Usage.{
  Caller, caller_agent, permission_denied, invalid, Request, ok, err, authorize_for_agent,
  persist_validation, run_report_usage_tx, report_usage, run_reports, verdict,
}
use reference_implementation.Reporting.Overdue.{
  Bucket, deny_if_reporting_overdue, count_in, past_deadline, blocks, deny_if_reporting_overdue_iff,
}
use reference_implementation.Reporting.Verdicts.{
  AllPresent, InTolerance, InTime, validate_usage_report-none_iff, full_report,
}
use reference_implementation.Reporting.Settled.{AllKept, run_reports-AllKept}
use reference_implementation.Reporting.Replayed.{report_usage_replay}
use reference_implementation.Reporting.Consistent.{AllConsistent, run_reports-AllConsistent}
use reference_implementation.Reporting.Retried.{report_usage_retry}

abbrev obligation : Obligation
obligation = record {
  obligation_id = codes "o";
  transaction_id = codes "t";
  state = pending;
  deadline = pos 50;
  consumed_quantity = none;
  received_at = none;
  required_fields = codes "billing_id" ∷ [];
  estimated_quantity = pos 10;
  quantity_tolerance = record { negative = false; ppm = pos 200000 };
  validation_outcome = none;
  validated_at = none;
  source_report_id = none;
  issued_report_id = none;
}

abbrev row : ReportContext
row = record {
  obligation = obligation;
  billing_id = codes "b";
  created_at = some (pos 7);
  tenant_id = codes "n";
  agent_id = codes "a";
  allow_broker_relay = false;
}

abbrev rows : Rows
rows = row ∷ []

abbrev agent : Text → Caller
agent id = record { kind = caller_agent; agent_id = id }

abbrev report : ℕ → UsageReport
report n = record full_report {
  usage = some (record { consumed_quantity = pos n; function = codes "f" });
  timestamp = some (pos 8);
}

abbrev request : ℕ → Text → Request
request n who = record {
  caller = some (agent who);
  report = report n;
  now = pos 9;
  new_report_id = codes "r";
}

abbrev input : ℕ → ReportInput
input n = record {
  obligation = obligation;
  billing_id = codes "b";
  created_at = some (pos 7);
  report = report n;
  now = pos 9;
}

validate_usage_report-none_iff_example : (validate_usage_report (input 12) ≡ none) ↔ (
    AllPresent (codes "billing_id" ∷ []) (report 12)
    × InTolerance (pos 12) 10 200000
    × (codes "b" ≡ codes "b")
    × InTime (some (pos 8)) (some (pos 7)) (pos 9))
validate_usage_report-none_iff_example =
    validate_usage_report-none_iff (input 12) 10 200000 refl (omega arith) refl (omega arith)
      (omega arith)

-- Two buckets only: the others have no obligation.
abbrev some_buckets : List Bucket
some_buckets =
    record { state = received; past_deadline = true; count = pos 8 }
    ∷ record { state = pending; past_deadline = true; count = pos 2 }
    ∷ []

refused_at_eleven :
    (deny_if_reporting_overdue
        (record { state = pending; past_deadline = true; count = pos 11 } ∷ [])
      ≡ true)
    × (deny_if_reporting_overdue [] ≡ false)
unfolding deny_if_reporting_overdue count_in past_deadline blocks wrap64 ◌+ℤ◌ ◌*ℤ◌
refused_at_eleven = (refl, refl)

deny_if_reporting_overdue_iff_example :
    (deny_if_reporting_overdue some_buckets ≡ true) ↔ ((10 < 2) ⊎ (2 + 8 < 5 * 2))
deny_if_reporting_overdue_iff_example =
    deny_if_reporting_overdue_iff some_buckets ((refl, tt), (tt, tt))
      (omega arith, (omega arith, tt)) (omega arith)

run_reports-AllKept_example :
    AllKept rows (run_reports (request 13 (codes "a") ∷ request 12 (codes "a") ∷ []) rows)
run_reports-AllKept_example =
    run_reports-AllKept (request 13 (codes "a") ∷ request 12 (codes "a") ∷ []) rows

abbrev rejection : Rejection
rejection = record { outcome = rejected_tolerance; field = codes "consumed_quantity" }

forbidden : (report_usage (request 12 (codes "z")) rows).0 ≡ err permission_denied
unfolding report_usage run_report_usage_tx find_accepted load_for_report is_accepted
    authorize_for_agent text_eq
forbidden = refl

accepted_once : (report_usage (request 12 (codes "a")) rows).0 ≡ ok (codes "r")
unfolding report_usage run_report_usage_tx find_accepted load_for_report is_accepted
    authorize_for_agent text_eq validate_usage_report validate_required_fields report_has_field
    is_member field_present validate_tolerance is_out_of_tolerance wrap64 ◌*ℤ◌ ◌-ℤ◌
    validate_billing_id validate_timestamp ◌+ℤ◌ persist_validation
accepted_once = refl

-- Another key is refused in between, and another transaction is unknown.
abbrev between : List Request
between =
    record (request 12 (codes "a")) {
      report = record (report 12) { idempotency_key = codes "other" };
    }
    ∷ request 99 (codes "z")
    ∷ []

report_usage_replay_example :
    report_usage
      (request 99 (codes "z"))
      (run_reports between (report_usage (request 12 (codes "a")) rows).1)
    ≡ (ok (codes "r"), run_reports between (report_usage (request 12 (codes "a")) rows).1)
unfolding text_eq
report_usage_replay_example =
    report_usage_replay (request 12 (codes "a")) (request 99 (codes "z")) between rows
      (agent (codes "z")) (codes "r") (tt, tt) ((refl, refl, refl), tt) accepted_once refl refl refl
      refl refl

checked :
    (verdict (request 13 (codes "a")) row ≡ some rejection)
    × (verdict (request 12 (codes "a")) row ≡ none)
unfolding text_eq validate_usage_report validate_required_fields report_has_field is_member
    field_present validate_tolerance is_out_of_tolerance wrap64 ◌*ℤ◌ ◌-ℤ◌ validate_billing_id
    validate_timestamp ◌+ℤ◌
checked = (refl, refl)

report_usage_retry_example :
    ((report_usage (request 13 (codes "a")) rows).0 ≡ err (invalid rejection))
    × ((report_usage (request 12 (codes "a")) (report_usage (request 13 (codes "a")) rows).1).0
        ≡ ok (codes "r"))
unfolding text_eq find_accepted is_accepted load_for_report authorize_for_agent
report_usage_retry_example =
    report_usage_retry (request 13 (codes "a")) (request 12 (codes "a")) rows row
      (agent (codes "a")) rejection (inr refl, tt) refl refl refl refl refl refl refl refl refl refl
      checked.0 checked.1

run_reports-AllConsistent_example :
    AllConsistent (run_reports (request 13 (codes "a") ∷ request 12 (codes "a") ∷ []) rows)
run_reports-AllConsistent_example =
    run_reports-AllConsistent (request 13 (codes "a") ∷ request 12 (codes "a") ∷ []) rows
      ((refl, refl, refl), tt)
