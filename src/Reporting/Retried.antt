-- ===== src/Reporting/Retried.antt =====
-- src/exchange/internal/service/report_usage.go: a rejected report leaves its obligation pending, and a
-- corrected one is accepted under the same key.
use reference_implementation.Common.{
  ◌≡◌, refl, ◌⊎◌, inl, inr, true, false, none, some, [], ◌∷◌, arith, Text, text_eq, text_eq_refl,
  Bool-cases, ◌∙◌, ap,
}
use reference_implementation.Reporting.Report.{Obligation, Rejection, validate_usage_report}
use reference_implementation.Reporting.Store.{
  ReportContext, Rows, load_for_report, find_accepted, is_accepted, update_where, returned,
  is_target, is_pending, accepted_by, rejected_by, AcceptReport, RejectReport,
  mark_validation_validated, mark_validation_rejected,
}
use reference_implementation.Reporting.Usage.{
  Caller, invalid, Request, ok, err, persist, persist_validation, persist_rejection,
  authorize_for_agent, ended, answered, issued_of, acceptance, rejection, report_usage, verdict,
}
use reference_implementation.Reporting.Filing.{run_report_usage_tx-persist}

-- No pending row has an issued report id.
abbrev pub Unissued : Rows → Type 0
Unissued [] = Unit
Unissued (r ∷ rs) =
    ((is_pending r.obligation.state ≡ false) ⊎ (r.obligation.issued_report_id ≡ none)) × Unissued rs

find_accepted-rejected :
    (tx key id : Text) (input : RejectReport) (rows : Rows)
    → Unissued rows
    → find_accepted tx key rows ≡ none
    → find_accepted tx key (update_where id (rejected_by input) rows) ≡ none
unfolding find_accepted is_accepted update_where rejected_by
find_accepted-rejected tx key id input [] u miss = refl
find_accepted-rejected tx key id input (r ∷ rs) u miss =
    ground (arith, find_accepted-rejected tx key id input rs u.1)

abbrev rejected_row : RejectReport → ReportContext → ReportContext
rejected_row input rc = record rc { obligation = rejected_by input rc.obligation }

load_for_report-rejected :
    (tx : Text) (input : RejectReport) (rows : Rows) (rc : ReportContext)
    → load_for_report tx rows ≡ some rc
    → is_pending rc.obligation.state ≡ true
    → load_for_report tx (update_where rc.obligation.obligation_id (rejected_by input) rows)
      ≡ some (rejected_row input rc)
unfolding load_for_report update_where rejected_by
load_for_report-rejected tx input [] rc e opened = absurd (cc)
load_for_report-rejected tx input (r ∷ rs) rc e opened =
    ground
      (arith, load_for_report-rejected tx input rs rc, text_eq_refl rc.obligation.obligation_id)

-- The newest pending row of a transaction is written.
load_for_report-returned :
    (tx : Text) (f : Obligation → Obligation) (rows : Rows) (rc : ReportContext)
    → load_for_report tx rows ≡ some rc
    → is_pending rc.obligation.state ≡ true
    → (o : Obligation) × (returned rc.obligation.obligation_id f rows ≡ some o)
unfolding load_for_report returned
load_for_report-returned tx f [] rc e opened = absurd (cc)
load_for_report-returned tx f (r ∷ rs) rc e opened =
    elim (Bool-cases (text_eq r.obligation.transaction_id tx)) [
      | inl same ↦ (f rc.obligation, ground (arith, text_eq_refl rc.obligation.obligation_id))
      | inr other ↦
          let (o, wrote) =
            load_for_report-returned tx f rs rc (rw (other, load_for_report) at e) opened in
          elim (Bool-cases (is_target rc.obligation.obligation_id r.obligation)) [
            | inl hit ↦ (f r.obligation, rw (hit, returned) refl)
            | inr miss ↦ (o, rw (miss, returned) wrote)
          ]
    ]

returned-issued :
    (id : Text) (input : AcceptReport) (rows : Rows) (o : Obligation)
    → returned id (accepted_by input) rows ≡ some o
    → issued_of o ≡ input.issued_report_id
unfolding returned accepted_by
returned-issued id input [] o e = absurd (cc)
returned-issued id input (r ∷ rs) o e = ground (arith, returned-issued id input rs o)

-- One call, when the probe misses and the caller is authorized.
report_usage-persist :
    (req : Request) (rows : Rows) (rc : ReportContext) (caller : Caller)
    → text_eq req.report.transaction_id [] ≡ false
    → text_eq req.report.idempotency_key [] ≡ false
    → req.caller ≡ some caller
    → find_accepted req.report.transaction_id req.report.idempotency_key rows ≡ none
    → load_for_report req.report.transaction_id rows ≡ some rc
    → authorize_for_agent caller rc.agent_id rc.allow_broker_relay ≡ none
    → report_usage req rows ≡ answered (ended (persist (verdict req rc) req rc rows) rows)
unfolding report_usage
report_usage-persist req rows rc caller named keyed known miss e allows =
    let same = run_report_usage_tx-persist caller req rows rc e allows in
    simp (named, keyed, known, miss, report_usage, same) refl

persist-rejects :
    (req : Request) (rows : Rows) (rc : ReportContext) (rej : Rejection)
    → load_for_report req.report.transaction_id rows ≡ some rc
    → is_pending rc.obligation.state ≡ true
    → answered (ended (persist (some rej) req rc rows) rows) ≡ (
      err (invalid rej),
      update_where rc.obligation.obligation_id (rejected_by (rejection req rc rej)) rows,
    )
unfolding persist_rejection mark_validation_rejected
persist-rejects req rows rc rej e opened =
    let (o, wrote) =
      load_for_report-returned req.report.transaction_id (rejected_by (rejection req rc rej)) rows
        rc e opened in
    rw (wrote, persist_rejection) refl

persist-accepts :
    (req : Request) (rows : Rows) (rc : ReportContext)
    → load_for_report req.report.transaction_id rows ≡ some rc
    → is_pending rc.obligation.state ≡ true
    → answered (ended (persist none req rc rows) rows) ≡ (
      ok req.new_report_id,
      update_where rc.obligation.obligation_id (accepted_by (acceptance req rc)) rows,
    )
unfolding persist_validation mark_validation_validated
persist-accepts req rows rc e opened =
    let (o, wrote) =
      load_for_report-returned req.report.transaction_id (accepted_by (acceptance req rc)) rows rc e
        opened in
    let issued = returned-issued rc.obligation.obligation_id (acceptance req rc) rows o wrote in
    rw (wrote, persist_validation) (rw issued refl)

-- A report that fails a check is refused with that check's rejection, and its obligation stays
-- pending: a report of the same transaction that passes the checks is then accepted under a new
-- report id, even under the key of the refused one.
pub report_usage_retry :
    (req req' : Request) (rows : Rows) (rc : ReportContext) (caller : Caller) (rej : Rejection)
    → Unissued rows
    → text_eq req.report.transaction_id [] ≡ false
    → text_eq req.report.idempotency_key [] ≡ false
    → req.caller ≡ some caller
    → req'.caller ≡ some caller
    → req'.report.transaction_id ≡ req.report.transaction_id
    → req'.report.idempotency_key ≡ req.report.idempotency_key
    → find_accepted req.report.transaction_id req.report.idempotency_key rows ≡ none
    → load_for_report req.report.transaction_id rows ≡ some rc
    → is_pending rc.obligation.state ≡ true
    → authorize_for_agent caller rc.agent_id rc.allow_broker_relay ≡ none
    → verdict req rc ≡ some rej
    → verdict req' rc ≡ none
    → ((report_usage req rows).0 ≡ err (invalid rej))
      × ((report_usage req' (report_usage req rows).1).0 ≡ ok req'.new_report_id)
unfolding rejected_by validate_usage_report
report_usage_retry req req' rows rc caller rej u named keyed known known' tx key miss e opened
      allows fails passes =
    let input = rejection req rc rej in
    let after = update_where rc.obligation.obligation_id (rejected_by input) rows in
    let first : report_usage req rows ≡ (err (invalid rej), after) =
      report_usage-persist req rows rc caller named keyed known miss e allows
      ∙ rw fails (persist-rejects req rows rc rej e opened) in
    let e' = load_for_report-rejected req.report.transaction_id input rows rc e opened in
    let miss' =
      find_accepted-rejected req.report.transaction_id req.report.idempotency_key
        rc.obligation.obligation_id input rows u miss in
    let second =
      report_usage-persist req' after (rejected_row input rc) caller (rw tx named) (rw key keyed)
        known' (rw (tx, key) miss') (rw tx e') allows in
    let done = persist-accepts req' after (rejected_row input rc) (rw tx e') opened in
    let accepts : answered
          (ended (persist (verdict req' rc) req' (rejected_row input rc) after) after)
        ≡ answered (ended (persist none req' (rejected_row input rc) after) after) =
      rw passes refl in
    (ap (λ p. p.0) first, rw first (ap (λ p. p.0) (second ∙ accepts ∙ done)))
