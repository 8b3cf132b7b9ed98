-- ===== src/Reporting/Usage.antt =====
-- src/exchange/internal/service/report_usage.go and authz.go: ReportUsage. The caller that the
-- request resolves to, the clock and the new report id are inputs. A failing database call, which
-- ends a request with an internal error and rolls back, is not modelled.
use reference_implementation.Common.{
  Bool, Option, none, some, List, [], ◌∷◌, Text, text_eq, if◌then◌else◌, ℤ,
}
use reference_implementation.Reporting.Report.{
  UsageReport, Rejection, validate_usage_report, consumed_of, Obligation,
}
use reference_implementation.Reporting.Store.{
  AcceptReport, RejectReport, ReportContext, Rows, load_for_report, find_accepted,
  mark_validation_validated, mark_validation_rejected,
}

pub data CallerKind : Type 0 where
  caller_unknown caller_agent caller_broker : CallerKind

pub record Caller : Type 0 where
  pub kind : CallerKind
  pub agent_id : Text

pub data ReportError : Type 0 where
  transaction_id_required report_id_required unresolved_caller no_obligation : ReportError
  permission_denied unauthenticated already_reported : ReportError
  invalid : Rejection → ReportError

-- `none` authorizes.
unfoldable pub authorize_for_agent : Caller → Text → Bool → Option ReportError
authorize_for_agent caller agent_id allow_broker_relay = elim caller.kind [
  | caller_agent ↦ if text_eq caller.agent_id agent_id then none else some permission_denied
  | caller_broker ↦ if allow_broker_relay then none else some permission_denied
  | caller_unknown ↦ some unauthenticated
]

pub data Result (A : Type 0) : Type 0 where
  ok : A → Result A
  err : ReportError → Result A

-- A transaction that ends without an error either accepted the report, under the id that it
-- returns, or recorded its rejection.
pub data Filed : Type 0 where
  accepted : Text → Filed
  refused : Rejection → Filed

pub record Request : Type 0 where
  pub caller : Option Caller
  pub report : UsageReport
  pub now : ℤ
  pub new_report_id : Text

abbrev pub issued_of : Obligation → Text
issued_of o = elim o.issued_report_id [ none ↦ [] | some id ↦ id ]

abbrev pub acceptance : Request → ReportContext → AcceptReport
acceptance req rc = record {
  obligation_id = rc.obligation.obligation_id;
  source_report_id = req.report.idempotency_key;
  issued_report_id = req.new_report_id;
  consumed = consumed_of req.report;
  now = req.now;
}

abbrev pub rejection : Request → ReportContext → Rejection → RejectReport
rejection req rc rej = record {
  obligation_id = rc.obligation.obligation_id;
  outcome = rej.outcome;
  source_report_id = req.report.idempotency_key;
  now = req.now;
}

unfoldable pub persist_rejection : Request → ReportContext → Rejection → Rows → Result Filed × Rows
unfolding mark_validation_rejected
persist_rejection req rc rej rows =
    let (updated, rows') = mark_validation_rejected (rejection req rc rej) rows in
    (elim updated [ none ↦ err already_reported | some o ↦ ok (refused rej) ], rows')

unfoldable pub persist_validation : Request → ReportContext → Rows → Result Filed × Rows
unfolding mark_validation_validated
persist_validation req rc rows =
    let (updated, rows') = mark_validation_validated (acceptance req rc) rows in
    (elim updated [ none ↦ err already_reported | some o ↦ ok (accepted (issued_of o)) ], rows')

abbrev pub verdict : Request → ReportContext → Option Rejection
verdict req rc = validate_usage_report (record {
  obligation = rc.obligation;
  billing_id = rc.billing_id;
  created_at = rc.created_at;
  report = req.report;
  now = req.now;
})

abbrev pub persist : Option Rejection → Request → ReportContext → Rows → Result Filed × Rows
persist none req rc rows = persist_validation req rc rows
persist (some rej) req rc rows = persist_rejection req rc rej rows

unfoldable pub run_report_usage_tx : Caller → Request → Rows → Result Filed × Rows
run_report_usage_tx caller req rows = elim (load_for_report req.report.transaction_id rows) [
  | none ↦ (err no_obligation, rows)
  | some rc ↦ elim (authorize_for_agent caller rc.agent_id rc.allow_broker_relay) [
    | some e ↦ (err e, rows)
    | none ↦ persist (verdict req rc) req rc rows
  ]
]

-- A transaction that ends with an error is rolled back.
abbrev pub ended : {A : Type 0} → Result A × Rows → Rows → Result A × Rows
ended (ok a, rows') rows = (ok a, rows')
ended (err e, rows') rows = (err e, rows)

abbrev pub with_tx : {A : Type 0} → (Rows → Result A × Rows) → Rows → Result A × Rows
with_tx body rows = ended (body rows) rows

abbrev pub answer : Result Filed → Result Text
answer (ok (accepted id)) = ok id
answer (ok (refused rej)) = err (invalid rej)
answer (err e) = err e

abbrev pub answered : Result Filed × Rows → Result Text × Rows
answered (r, rows) = (answer r, rows)

-- The id of the accepted report, or an error.
unfoldable pub report_usage : Request → Rows → Result Text × Rows
report_usage req rows =
    if text_eq req.report.transaction_id []
    then (err transaction_id_required, rows)
    else if text_eq req.report.idempotency_key []
    then (err report_id_required, rows)
    else elim req.caller [
      | none ↦ (err unresolved_caller, rows)
      | some caller ↦
          elim (find_accepted req.report.transaction_id req.report.idempotency_key rows) [
            | some o ↦ (ok (issued_of o), rows)
            | none ↦ answered (with_tx (run_report_usage_tx caller req) rows)
          ]
    ]

unfoldable pub run_reports : List Request → Rows → Rows
run_reports [] rows = rows
run_reports (req ∷ reqs) rows = run_reports reqs (report_usage req rows).1
