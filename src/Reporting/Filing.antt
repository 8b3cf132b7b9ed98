-- ===== src/Reporting/Filing.antt =====
-- src/exchange/internal/service/report_usage.go: what an accepted report leaves for the probe.
use reference_implementation.Common.{
  ◌≡◌, refl, inl, inr, false, Option, none, some, [], ◌∷◌, arith, Text, text_eq, text_eq_iff,
  text_eq_refl, Option-cases, Bool-cases,
}
use reference_implementation.Reporting.Report.{Obligation, Rejection}
use reference_implementation.Reporting.Store.{
  ReportContext, Rows, load_for_report, find_accepted, is_accepted, update_where, returned,
  accepted_by, rejected_by, AcceptReport, mark_validation_validated, mark_validation_rejected,
}
use reference_implementation.Reporting.Usage.{
  Caller, Request, ok, persist, persist_validation, persist_rejection, run_report_usage_tx,
  authorize_for_agent, ended, answered, issued_of, acceptance, rejection, report_usage, verdict,
}
use reference_implementation.Reporting.Settled.{report_usage-cases}

-- The obligation id is the table's primary key.
abbrev pub NotIn : Text → Rows → Type 0
NotIn id [] = Unit
NotIn id (r ∷ rs) = (text_eq r.obligation.obligation_id id ≡ false) × NotIn id rs

abbrev pub UniqueIds : Rows → Type 0
UniqueIds [] = Unit
UniqueIds (r ∷ rs) = NotIn r.obligation.obligation_id rs × UniqueIds rs

NotIn-returned :
    (id : Text) (f : Obligation → Obligation) (rows : Rows)
    → NotIn id rows
    → returned id f rows ≡ none
unfolding returned
NotIn-returned id f [] h = refl
NotIn-returned id f (r ∷ rs) h = ground (arith, NotIn-returned id f rs h.1)

pub NotIn-load :
    (id tx : Text) (rows : Rows) (rc : ReportContext)
    → NotIn id rows
    → load_for_report tx rows ≡ some rc
    → text_eq rc.obligation.obligation_id id ≡ false
unfolding load_for_report
NotIn-load id tx [] rc h e = absurd (cc)
NotIn-load id tx (r ∷ rs) rc h e = elim (Bool-cases (text_eq r.obligation.transaction_id tx)) [
  | inl same ↦ ground arith
  | inr other ↦ NotIn-load id tx rs rc h.1 (rw (other, load_for_report) at e)
]

-- After an acceptance, the probe finds the row that it wrote.
find_accepted-update :
    (tx key : Text) (input : AcceptReport) (rows : Rows) (rc : ReportContext) (o : Obligation)
    → UniqueIds rows
    → input.source_report_id ≡ key
    → input.obligation_id ≡ rc.obligation.obligation_id
    → load_for_report tx rows ≡ some rc
    → find_accepted tx key rows ≡ none
    → returned input.obligation_id (accepted_by input) rows ≡ some o
    → find_accepted tx key (update_where input.obligation_id (accepted_by input) rows) ≡ some o
unfolding load_for_report find_accepted is_accepted returned update_where accepted_by
find_accepted-update tx key input [] rc o u k i e miss done = absurd (cc)
find_accepted-update tx key input (r ∷ rs) rc o u k i e miss done =
    elim (Bool-cases (text_eq r.obligation.transaction_id tx)) [
      | inl same ↦ ground (
        arith,
        NotIn-returned r.obligation.obligation_id (accepted_by input) rs u.0,
        text_eq_refl key,
        text_eq_refl input.obligation_id,
      )
      | inr other ↦ ground (
        arith,
        NotIn-load r.obligation.obligation_id tx rs rc u.0,
        find_accepted-update tx key input rs rc o u.1 k i,
        text_eq_iff r.obligation.obligation_id input.obligation_id,
        text_eq_refl rc.obligation.obligation_id,
      )
    ]

-- What an accepted report leaves behind.
abbrev pub Replayed : Text → Text → Text → Rows → Type 0
Replayed tx key id rows =
    (o : Obligation) × (find_accepted tx key rows ≡ some o) × (issued_of o ≡ id)

persist-Replayed :
    (req : Request) (rows : Rows) (rc : ReportContext) (v : Option Rejection) (id : Text)
    → UniqueIds rows
    → load_for_report req.report.transaction_id rows ≡ some rc
    → find_accepted req.report.transaction_id req.report.idempotency_key rows ≡ none
    → (answered (ended (persist v req rc rows) rows)).0 ≡ ok id
    → Replayed req.report.transaction_id req.report.idempotency_key id
        (answered (ended (persist v req rc rows) rows)).1
unfolding persist_validation persist_rejection mark_validation_validated mark_validation_rejected
persist-Replayed req rows rc (some rej) id u e miss done =
    elim (Option-cases
      (returned rc.obligation.obligation_id (rejected_by (rejection req rc rej)) rows)) [
        | inl untouched ↦ absurd (cc (rw (untouched, persist_rejection) at done))
        | inr (o, wrote) ↦ absurd (cc (rw (wrote, persist_rejection) at done))
      ]
persist-Replayed req rows rc none id u e miss done =
    elim (Option-cases
      (returned rc.obligation.obligation_id (accepted_by (acceptance req rc)) rows)) [
        | inl untouched ↦ absurd (cc (rw (untouched, persist_validation) at done))
        | inr (o, wrote) ↦
            rw (wrote, persist_validation)
              (
                o,
                find_accepted-update req.report.transaction_id req.report.idempotency_key
                    (acceptance req rc) rows rc o u refl refl e miss wrote,
                cc (rw (wrote, persist_validation) at done),
              )
      ]

pub run_report_usage_tx-persist :
    (caller : Caller) (req : Request) (rows : Rows) (rc : ReportContext)
    → load_for_report req.report.transaction_id rows ≡ some rc
    → authorize_for_agent caller rc.agent_id rc.allow_broker_relay ≡ none
    → run_report_usage_tx caller req rows ≡ persist (verdict req rc) req rc rows
unfolding run_report_usage_tx
run_report_usage_tx-persist caller req rows rc e allows = rw (e, allows, run_report_usage_tx) refl

run_report_usage_tx-Replayed :
    (caller : Caller) (req : Request) (rows : Rows) (id : Text)
    → UniqueIds rows
    → find_accepted req.report.transaction_id req.report.idempotency_key rows ≡ none
    → (answered (ended (run_report_usage_tx caller req rows) rows)).0 ≡ ok id
    → Replayed req.report.transaction_id req.report.idempotency_key id
        (answered (ended (run_report_usage_tx caller req rows) rows)).1
unfolding run_report_usage_tx
run_report_usage_tx-Replayed caller req rows id u miss done =
    elim (Option-cases (load_for_report req.report.transaction_id rows)) [
      | inl missing ↦ absurd (cc (rw (missing, run_report_usage_tx) at done))
      | inr (rc, e) ↦
          elim (Option-cases (authorize_for_agent caller rc.agent_id rc.allow_broker_relay)) [
            | inr (why, denies) ↦ absurd (cc (rw (e, denies, run_report_usage_tx) at done))
            | inl allows ↦
                let same = run_report_usage_tx-persist caller req rows rc e allows in
                rw same
                  (persist-Replayed req rows rc (verdict req rc) id u e miss (rw same at done))
          ]
    ]

pub report_usage-Replayed :
    (req : Request) (rows : Rows) (id : Text)
    → UniqueIds rows
    → (report_usage req rows).0 ≡ ok id
    → Replayed req.report.transaction_id req.report.idempotency_key id (report_usage req rows).1
report_usage-Replayed req rows id u =
    report_usage-cases req rows
      (λ p. p.0 ≡ ok id → Replayed req.report.transaction_id req.report.idempotency_key id p.1)
      (λ e h eq. absurd (cc)) (λ o hit eq. (o, hit, cc))
      (λ caller known miss eq. run_report_usage_tx-Replayed caller req rows id u miss eq)
