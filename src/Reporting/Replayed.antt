-- ===== src/Reporting/Replayed.antt =====
-- src/exchange/internal/service/report_usage.go: replays of an accepted report, however many reports
-- come in between.
use reference_implementation.Common.{
  ◌≡◌, inl, inr, false, Option, none, some, List, [], ◌∷◌, Text, text_eq, Option-cases,
}
use reference_implementation.Reporting.Report.{Obligation, Rejection}
use reference_implementation.Reporting.Store.{ReportContext, Rows, load_for_report, find_accepted}
use reference_implementation.Reporting.Usage.{
  Caller, Request, Result, ok, err, Filed, accepted, refused, persist, run_report_usage_tx,
  authorize_for_agent, ended, answered, issued_of, report_usage, run_reports, verdict,
}
use reference_implementation.Reporting.Settled.{report_usage-cases}
use reference_implementation.Reporting.Consistent.{AllConsistent, run_reports-AllConsistent}
use reference_implementation.Reporting.Filing.{UniqueIds, report_usage-Replayed}
use reference_implementation.Reporting.Updates.{persist-UniqueIds, persist-hit}

report_usage-AllConsistent :
    (req : Request) (rows : Rows) → AllConsistent rows → AllConsistent (report_usage req rows).1
unfolding run_reports
report_usage-AllConsistent req rows all = run_reports-AllConsistent (req ∷ []) rows all

-- What holds of the rows, and of what a filed report makes of them, holds after any report.
report_usage-rows :
    (req : Request) (rows : Rows) (P : Rows → Type 0)
    → P rows
    → ((rc : ReportContext) (v : Option Rejection)
        → load_for_report req.report.transaction_id rows ≡ some rc
        → find_accepted req.report.transaction_id req.report.idempotency_key rows ≡ none
        → P (persist v req rc rows).1)
    → P (report_usage req rows).1
unfolding run_report_usage_tx
report_usage-rows req rows P same filed =
    report_usage-cases req rows (λ p. P p.1) (λ e k. same) (λ o hit. same)
      (λ caller known miss. elim (Option-cases (load_for_report req.report.transaction_id rows)) [
        | inl missing ↦ rw (missing, run_report_usage_tx) same
        | inr (rc, e) ↦
            elim (Option-cases (authorize_for_agent caller rc.agent_id rc.allow_broker_relay)) [
              | inr (why, denies) ↦ rw (e, denies, run_report_usage_tx) same
              | inl allows ↦
                  rw (e, allows, run_report_usage_tx)
                    (committed (persist (verdict req rc) req rc rows)
                      (filed rc (verdict req rc) e miss))
            ]
      ])
  where
    committed : (p : Result Filed × Rows) → P p.1 → P (answered (ended p rows)).1
    committed (ok (accepted id), rows') h = h
    committed (ok (refused rej), rows') h = h
    committed (err e, rows') h = same

module _ (tx key : Text) where
  -- What the probe needs of the rows to find an acceptance again.
  abbrev Remembers : Obligation → Rows → Type 0
  Remembers o rows = UniqueIds rows × AllConsistent rows × (find_accepted tx key rows ≡ some o)

  report_usage-Remembers :
      (o : Obligation) (req : Request) (rows : Rows)
      → Remembers o rows
      → Remembers o (report_usage req rows).1
  report_usage-Remembers o req rows (u, all, hit) = (
    report_usage-rows req rows UniqueIds u (λ rc v e miss. persist-UniqueIds v req rc rows u),
    report_usage-AllConsistent req rows all,
    report_usage-rows req rows (λ after. find_accepted tx key after ≡ some o) hit
        (λ rc v e miss. persist-hit tx key v req rc rows o u all e miss hit),
  )

  run_reports-Remembers :
      (o : Obligation) (reqs : List Request) (rows : Rows)
      → Remembers o rows
      → Remembers o (run_reports reqs rows)
  unfolding run_reports
  run_reports-Remembers o [] rows h = h
  run_reports-Remembers o (req ∷ reqs) rows h =
      run_reports-Remembers o reqs (report_usage req rows).1 (report_usage-Remembers o req rows h)

-- Once a report has been answered with a report id, every later report of the transaction under its
-- key, by any caller that the request resolves to and with any content, is answered with that id
-- and changes nothing, whatever reports came in between. The rows have distinct obligation ids and
-- are consistent, and the transaction id and the key are not empty.
pub report_usage_replay :
    (req req' : Request) (between : List Request) (rows : Rows) (caller : Caller) (id : Text)
    → UniqueIds rows
    → AllConsistent rows
    → (report_usage req rows).0 ≡ ok id
    → text_eq req.report.transaction_id [] ≡ false
    → text_eq req.report.idempotency_key [] ≡ false
    → req'.report.transaction_id ≡ req.report.transaction_id
    → req'.report.idempotency_key ≡ req.report.idempotency_key
    → req'.caller ≡ some caller
    → report_usage req' (run_reports between (report_usage req rows).1)
      ≡ (ok id, run_reports between (report_usage req rows).1)
report_usage_replay req req' between rows caller id u all done named keyed same_tx same_key known =
    let (o, hit, issued) = report_usage-Replayed req rows id u done in
    let unique =
      report_usage-rows req rows UniqueIds u (λ rc v e miss. persist-UniqueIds v req rc rows u) in
    let (_, _, still) =
      run_reports-Remembers req.report.transaction_id req.report.idempotency_key o between
        (report_usage req rows).1 (unique, report_usage-AllConsistent req rows all, hit) in
    go (run_reports between (report_usage req rows).1) o still issued
  where
    go :
        (after : Rows) (o : Obligation)
        → find_accepted req.report.transaction_id req.report.idempotency_key after ≡ some o
        → issued_of o ≡ id
        → report_usage req' after ≡ (ok id, after)
    go after o hit issued =
        unfold report_usage in
        rw (same_tx, same_key, named, keyed, known, same_tx, same_key, hit) (cc issued)
