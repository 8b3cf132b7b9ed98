-- ===== src/Reporting/Settled.antt =====
-- src/exchange/internal/service/report_usage.go: what a report can change. A failed call changes
-- nothing but the record of a rejection, and a settled obligation stays as it is.
use reference_implementation.Common.{
  ◌≡◌, ◌⊎◌, inl, inr, refl, true, Option, none, some, List, [], ◌∷◌, arith, Text, text_eq,
  Option-cases, Bool-cases, ◌∙◌,
}
use reference_implementation.Reporting.Report.{Obligation, Rejection}
use reference_implementation.Reporting.Store.{
  ReportContext, Rows, load_for_report, find_accepted, update_where, is_target, is_pending,
  accepted_by, rejected_by, mark_validation_validated, mark_validation_rejected,
}
use reference_implementation.Reporting.Usage.{
  Caller, ReportError, invalid, Request, Result, ok, err, Filed, accepted, refused, persist,
  persist_validation, persist_rejection, run_report_usage_tx, authorize_for_agent, ended, answered,
  issued_of, transaction_id_required, report_id_required, unresolved_caller, report_usage,
  run_reports, verdict,
}

-- How one obligation may change: the terms that reports are held to never, and nothing once it is
-- settled.
abbrev pub Terms : Obligation → Obligation → Type 0
Terms o o' =
    (o.obligation_id ≡ o'.obligation_id)
    × (o.transaction_id ≡ o'.transaction_id)
    × (o.deadline ≡ o'.deadline)
    × (o.required_fields ≡ o'.required_fields)
    × (o.estimated_quantity ≡ o'.estimated_quantity)
    × (o.quantity_tolerance ≡ o'.quantity_tolerance)

abbrev pub Keeps : Obligation → Obligation → Type 0
Keeps o o' = Terms o o' × ((is_pending o.state ≡ true) ⊎ (o ≡ o'))

abbrev pub AllKept : Rows → Rows → Type 0
AllKept [] [] = Unit
AllKept (r ∷ rs) (r' ∷ rs') =
    (r.billing_id ≡ r'.billing_id)
    × (r.agent_id ≡ r'.agent_id)
    × Keeps r.obligation r'.obligation
    × AllKept rs rs'
AllKept _ _ = ⊥

Terms-refl : (o : Obligation) → Terms o o
Terms-refl o = (refl, refl, refl, refl, refl, refl)

AllKept-refl : (rows : Rows) → AllKept rows rows
AllKept-refl [] = tt
AllKept-refl (r ∷ rs) = (refl, refl, (Terms-refl r.obligation, inr refl), AllKept-refl rs)

Terms-trans : (o p q : Obligation) → Terms o p → Terms p q → Terms o q
Terms-trans o p q t u = (cc, cc, cc, cc, cc, cc)

Keeps-trans : (o p q : Obligation) → Keeps o p → Keeps p q → Keeps o q
Keeps-trans o p q (t, inl e) (u, v) = (Terms-trans o p q t u, inl e)
Keeps-trans o p q (t, inr e) (u, inl h) = (Terms-trans o p q t u, inl (rw e h))
Keeps-trans o p q (t, inr e) (u, inr e') = (Terms-trans o p q t u, inr (e ∙ e'))

AllKept-trans : (xs ys zs : Rows) → AllKept xs ys → AllKept ys zs → AllKept xs zs
AllKept-trans [] [] zs h k = k
AllKept-trans [] (y ∷ ys) zs h k = absurd h
AllKept-trans (x ∷ xs) [] zs h k = absurd h
AllKept-trans (x ∷ xs) (y ∷ ys) [] h k = absurd k
AllKept-trans (x ∷ xs) (y ∷ ys) (z ∷ zs) (b, a, o, h) (b', a', o', k) = (
  b ∙ b',
  a ∙ a',
  Keeps-trans x.obligation y.obligation z.obligation o o',
  AllKept-trans xs ys zs h k,
)

-- An update of the pending rows that keeps their terms.
update_where-AllKept :
    (id : Text) (f : Obligation → Obligation) (rows : Rows)
    → ((o : Obligation) → Terms o (f o))
    → AllKept rows (update_where id f rows)
unfolding update_where
update_where-AllKept id f [] h = tt
update_where-AllKept id f (r ∷ rs) h = elim (Bool-cases (is_target id r.obligation)) [
  | inl hit ↦
      rw (hit, update_where)
        (refl, refl, (h r.obligation, inl (ground arith)), update_where-AllKept id f rs h)
  | inr miss ↦
      rw (miss, update_where)
        (refl, refl, (Terms-refl r.obligation, inr refl), update_where-AllKept id f rs h)
]

persist-AllKept :
    (v : Option Rejection) (req : Request) (rc : ReportContext) (rows : Rows)
    → AllKept rows (persist v req rc rows).1
unfolding persist_validation persist_rejection mark_validation_validated mark_validation_rejected
    accepted_by rejected_by
persist-AllKept none req rc rows =
    update_where-AllKept rc.obligation.obligation_id _ rows
      (λ o. (refl, refl, refl, refl, refl, refl))
persist-AllKept (some rej) req rc rows =
    update_where-AllKept rc.obligation.obligation_id _ rows
      (λ o. (refl, refl, refl, refl, refl, refl))

run_report_usage_tx-AllKept :
    (caller : Caller) (req : Request) (rows : Rows)
    → AllKept rows (run_report_usage_tx caller req rows).1
unfolding run_report_usage_tx
run_report_usage_tx-AllKept caller req rows =
    elim (Option-cases (load_for_report req.report.transaction_id rows)) [
      | inl missing ↦ rw (missing, run_report_usage_tx) (AllKept-refl rows)
      | inr (rc, e) ↦
          elim (Option-cases (authorize_for_agent caller rc.agent_id rc.allow_broker_relay)) [
            | inr (why, denies) ↦ rw (e, denies, run_report_usage_tx) (AllKept-refl rows)
            | inl allows ↦
                rw (e, allows, run_report_usage_tx) (persist-AllKept (verdict req rc) req rc rows)
          ]
    ]

ended-AllKept :
    (p : Result Filed × Rows) (rows : Rows)
    → AllKept rows p.1
    → AllKept rows (answered (ended p rows)).1
ended-AllKept (ok (accepted id), rows') rows h = h
ended-AllKept (ok (refused rej), rows') rows h = h
ended-AllKept (err e, rows') rows h = AllKept-refl rows

abbrev pub IsInvalid : ReportError → Type 0
IsInvalid (invalid rej) = Unit
IsInvalid _ = ⊥

-- The ways that a call can end, for any statement about its end.
pub report_usage-cases :
    (req : Request) (rows : Rows) (P : Result Text × Rows → Type 0)
    → ((e : ReportError) → (IsInvalid e → ⊥) → P (err e, rows))
    → ((o : Obligation)
        → find_accepted req.report.transaction_id req.report.idempotency_key rows ≡ some o
        → P (ok (issued_of o), rows))
    → ((caller : Caller)
        → req.caller ≡ some caller
        → find_accepted req.report.transaction_id req.report.idempotency_key rows ≡ none
        → P (answered (ended (run_report_usage_tx caller req rows) rows)))
    → P (report_usage req rows)
unfolding report_usage
report_usage-cases req rows P fails replays files =
    elim (Bool-cases (text_eq req.report.transaction_id [])) [
      | inl empty_tx ↦ rw (empty_tx, report_usage) (fails transaction_id_required (λ h. h))
      | inr named_tx ↦ elim (Bool-cases (text_eq req.report.idempotency_key [])) [
        | inl keyless ↦ rw (named_tx, keyless, report_usage) (fails report_id_required (λ h. h))
        | inr keyed ↦ elim (Option-cases req.caller) [
          | inl unknown ↦
              rw (named_tx, keyed, unknown, report_usage) (fails unresolved_caller (λ h. h))
          | inr (caller, known) ↦
              elim (Option-cases
                (find_accepted req.report.transaction_id req.report.idempotency_key rows)) [
                  | inr (o, hit) ↦ rw (named_tx, keyed, known, hit, report_usage) (replays o hit)
                  | inl miss ↦
                      rw (named_tx, keyed, known, miss, report_usage) (files caller known miss)
                ]
        ]
      ]
    ]

report_usage-AllKept : (req : Request) (rows : Rows) → AllKept rows (report_usage req rows).1
report_usage-AllKept req rows =
    report_usage-cases req rows (λ p. AllKept rows p.1) (λ e h. AllKept-refl rows)
      (λ o h. AllKept-refl rows)
      (λ caller known miss.
        ended-AllKept (run_report_usage_tx caller req rows) rows
          (run_report_usage_tx-AllKept caller req rows))

-- No sequence of usage reports changes an obligation that is settled, nor the terms that reports are
-- held to, the order of the rows or the accounts and agents that they belong to.
pub run_reports-AllKept : (reqs : List Request) (rows : Rows) → AllKept rows (run_reports reqs rows)
unfolding run_reports
run_reports-AllKept [] rows = AllKept-refl rows
run_reports-AllKept (req ∷ reqs) rows =
    AllKept-trans rows (report_usage req rows).1 _ (report_usage-AllKept req rows)
      (run_reports-AllKept reqs (report_usage req rows).1)
