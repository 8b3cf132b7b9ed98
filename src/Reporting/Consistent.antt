-- ===== src/Reporting/Consistent.antt =====
-- src/exchange/internal/service/report_usage.go: the state of an obligation agrees with the ids and
-- the outcome that its row stores.
use reference_implementation.Common.{
  ◌≡◌, refl, inl, inr, true, Option, none, some, List, [], ◌∷◌, arith, Text, Option-cases,
  Bool-cases,
}
use reference_implementation.Reporting.Report.{
  Obligation, ObligationState, Rejection, validated, pending, received, is_some,
}
use reference_implementation.Reporting.Store.{
  AcceptReport, RejectReport, ReportContext, Rows, load_for_report, update_where, is_target,
  is_pending, accepted_by, rejected_by, mark_validation_validated, mark_validation_rejected,
}
use reference_implementation.Reporting.Usage.{
  Caller, Request, Result, ok, err, Filed, accepted, refused, persist, persist_validation,
  persist_rejection, run_report_usage_tx, authorize_for_agent, ended, answered, acceptance,
  rejection, report_usage, run_reports, verdict,
}
use reference_implementation.Reporting.Settled.{report_usage-cases}

-- A pending row has no issued id, quantity or time of receipt; a received one has them and was
-- validated.
abbrev pub IsConsistent : Obligation → Type 0
IsConsistent o = elim o.state [
  | pending ↦ (o.issued_report_id ≡ none) × (o.consumed_quantity ≡ none) × (o.received_at ≡ none)
  | received ↦
      (is_some o.issued_report_id ≡ true)
      × (is_some o.consumed_quantity ≡ true)
      × (is_some o.received_at ≡ true)
      × (o.validation_outcome ≡ some validated)
]

abbrev pub AllConsistent : Rows → Type 0
AllConsistent [] = Unit
AllConsistent (r ∷ rs) = IsConsistent r.obligation × AllConsistent rs

accepted_by-IsConsistent : (i : AcceptReport) (o : Obligation) → IsConsistent (accepted_by i o)
unfolding accepted_by
accepted_by-IsConsistent i o = (refl, refl, refl, refl)

rejected_by-IsConsistent :
    (i : RejectReport) (o : Obligation)
    → is_pending o.state ≡ true
    → IsConsistent o
    → IsConsistent (rejected_by i o)
unfolding rejected_by
rejected_by-IsConsistent i o p h = go o.state p h
  where
    go :
        (st : ObligationState)
        → is_pending st ≡ true
        → IsConsistent (record o { state = st })
        → IsConsistent (rejected_by i (record o { state = st }))
    go pending p h = h
    go received p h = absurd (cc)

update_where-AllConsistent :
    (id : Text) (f : Obligation → Obligation) (rows : Rows)
    → ((o : Obligation) → is_pending o.state ≡ true → IsConsistent o → IsConsistent (f o))
    → AllConsistent rows
    → AllConsistent (update_where id f rows)
unfolding update_where
update_where-AllConsistent id f [] keeps h = tt
update_where-AllConsistent id f (r ∷ rs) keeps h = elim (Bool-cases (is_target id r.obligation)) [
  | inl hit ↦
      rw (hit, update_where)
        (keeps r.obligation (ground (arith, hit)) h.0, update_where-AllConsistent id f rs keeps h.1)
  | inr miss ↦ rw (miss, update_where) (h.0, update_where-AllConsistent id f rs keeps h.1)
]

persist-AllConsistent :
    (v : Option Rejection) (req : Request) (rc : ReportContext) (rows : Rows)
    → AllConsistent rows
    → AllConsistent (persist v req rc rows).1
unfolding persist_validation persist_rejection mark_validation_validated mark_validation_rejected
persist-AllConsistent none req rc rows h =
    update_where-AllConsistent rc.obligation.obligation_id _ rows
      (λ o p k. accepted_by-IsConsistent (acceptance req rc) o) h
persist-AllConsistent (some rej) req rc rows h =
    update_where-AllConsistent rc.obligation.obligation_id _ rows
      (rejected_by-IsConsistent (rejection req rc rej)) h

run_report_usage_tx-AllConsistent :
    (caller : Caller) (req : Request) (rows : Rows)
    → AllConsistent rows
    → AllConsistent (run_report_usage_tx caller req rows).1
unfolding run_report_usage_tx
run_report_usage_tx-AllConsistent caller req rows h =
    elim (Option-cases (load_for_report req.report.transaction_id rows)) [
      | inl missing ↦ rw (missing, run_report_usage_tx) h
      | inr (rc, e) ↦
          elim (Option-cases (authorize_for_agent caller rc.agent_id rc.allow_broker_relay)) [
            | inr (why, denies) ↦ rw (e, denies, run_report_usage_tx) h
            | inl allows ↦
                rw (e, allows, run_report_usage_tx)
                  (persist-AllConsistent (verdict req rc) req rc rows h)
          ]
    ]

ended-AllConsistent :
    (p : Result Filed × Rows) (rows : Rows)
    → AllConsistent rows
    → AllConsistent p.1
    → AllConsistent (answered (ended p rows)).1
ended-AllConsistent (ok (accepted id), rows') rows h k = k
ended-AllConsistent (ok (refused rej), rows') rows h k = k
ended-AllConsistent (err e, rows') rows h k = h

-- Every sequence of usage reports keeps each obligation consistent: while it is pending it has no
-- issued report id, consumed quantity or time of receipt, and once it is received it has all three
-- and its outcome is that it was validated.
pub run_reports-AllConsistent :
    (reqs : List Request) (rows : Rows) → AllConsistent rows → AllConsistent (run_reports reqs rows)
unfolding run_reports
run_reports-AllConsistent [] rows h = h
run_reports-AllConsistent (req ∷ reqs) rows h =
    run_reports-AllConsistent reqs (report_usage req rows).1 (
      report_usage-cases req rows (λ p. AllConsistent p.1) (λ e k. h) (λ o hit. h)
        (λ caller known miss.
          ended-AllConsistent (run_report_usage_tx caller req rows) rows h
            (run_report_usage_tx-AllConsistent caller req rows h)))
