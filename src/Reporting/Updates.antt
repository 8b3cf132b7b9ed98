-- ===== src/Reporting/Updates.antt =====
-- src/exchange/internal/service/report_usage.go: what an acceptance or a rejection of a report leaves
-- of the obligation ids and of the answer of the probe.
use reference_implementation.Common.{
  ◌≡◌, refl, inl, inr, false, true, Option, none, some, [], ◌∷◌, arith, Text, text_eq, text_eq_iff,
  text_eq_refl, text_eq→eq, Bool-cases,
}
use mathlib.Core.Path.{subst}
use reference_implementation.Reporting.Report.{
  Obligation, ObligationState, pending, received, Rejection,
}
use reference_implementation.Reporting.Store.{
  ReportContext, Rows, load_for_report, find_accepted, is_accepted, is_target, is_pending,
  update_where, accepted_by, rejected_by, AcceptReport, RejectReport, mark_validation_validated,
  mark_validation_rejected,
}
use reference_implementation.Reporting.Usage.{
  Request, persist, persist_validation, persist_rejection, acceptance, rejection,
}
use reference_implementation.Reporting.Consistent.{IsConsistent, AllConsistent}
use reference_implementation.Reporting.Filing.{NotIn, UniqueIds, NotIn-load}

NotIn-update :
    (other id : Text) (f : Obligation → Obligation) (rows : Rows)
    → ((o : Obligation) → (f o).obligation_id ≡ o.obligation_id)
    → NotIn other rows
    → NotIn other (update_where id f rows)
unfolding update_where
NotIn-update other id f [] keeps h = tt
NotIn-update other id f (r ∷ rs) keeps h = elim (Bool-cases (is_target id r.obligation)) [
  | inl hit ↦ rw (hit, update_where, keeps r.obligation) (h.0, NotIn-update other id f rs keeps h.1)
  | inr miss ↦ rw (miss, update_where) (h.0, NotIn-update other id f rs keeps h.1)
]

UniqueIds-update :
    (id : Text) (f : Obligation → Obligation) (rows : Rows)
    → ((o : Obligation) → (f o).obligation_id ≡ o.obligation_id)
    → UniqueIds rows
    → UniqueIds (update_where id f rows)
unfolding update_where
UniqueIds-update id f [] keeps h = tt
UniqueIds-update id f (r ∷ rs) keeps h =
    let others = NotIn-update r.obligation.obligation_id id f rs keeps h.0 in
    let rest = UniqueIds-update id f rs keeps h.1 in
    elim (Bool-cases (is_target id r.obligation)) [
      | inl hit ↦ rw (hit, update_where, keeps r.obligation) (others, rest)
      | inr miss ↦ rw (miss, update_where) (others, rest)
    ]

pub persist-UniqueIds :
    (v : Option Rejection) (req : Request) (rc : ReportContext) (rows : Rows)
    → UniqueIds rows
    → UniqueIds (persist v req rc rows).1
unfolding persist_validation persist_rejection mark_validation_validated mark_validation_rejected
    accepted_by rejected_by
persist-UniqueIds none req rc rows u =
    UniqueIds-update rc.obligation.obligation_id (accepted_by (acceptance req rc)) rows (λ o. refl)
      u
persist-UniqueIds (some rej) req rc rows u =
    UniqueIds-update rc.obligation.obligation_id (rejected_by (rejection req rc rej)) rows
      (λ o. refl) u

module _ (tx key : Text) where
  pending-unaccepted :
      (o : Obligation) → IsConsistent o → is_pending o.state ≡ true → is_accepted tx key o ≡ false
  unfolding is_accepted
  pending-unaccepted o h p = go o.state h p
    where
      go :
          (st : ObligationState)
          → IsConsistent (record o { state = st })
          → is_pending st ≡ true
          → is_accepted tx key o ≡ false
      go pending h p = ground (arith, h.0)
      go received h p = absurd (cc)

  -- The update makes no row that the probe would find.
  abbrev Spares : Text → (Obligation → Obligation) → Rows → Type 0
  Spares id f [] = Unit
  Spares id f (r ∷ rs) =
      (is_target id r.obligation ≡ true → is_accepted tx key (f r.obligation) ≡ false)
      × Spares id f rs

  find_accepted-update_where :
      (id : Text) (f : Obligation → Obligation) (rows : Rows) (o : Obligation)
      → AllConsistent rows
      → Spares id f rows
      → find_accepted tx key rows ≡ some o
      → find_accepted tx key (update_where id f rows) ≡ some o
  unfolding find_accepted update_where
  find_accepted-update_where id f [] o all spares hit = absurd (cc)
  find_accepted-update_where id f (r ∷ rs) o (con, all) (spared, spares) hit =
      let rest = find_accepted-update_where id f rs o all spares in
      elim (Bool-cases (is_target id r.obligation)) [
        | inl target ↦
            let old = pending-unaccepted r.obligation con (ground (arith, target)) in
            rw (target, update_where, spared target, find_accepted)
              (rest (rw (old, find_accepted) at hit))
        | inr other ↦ elim (Bool-cases (is_accepted tx key r.obligation)) [
          | inl this ↦
              rw (other, update_where, this, find_accepted) (rw (this, find_accepted) at hit)
          | inr no_hit ↦
              rw (other, update_where, no_hit, find_accepted)
                (rest (rw (no_hit, find_accepted) at hit))
        ]
      ]

  rejected_by-Spares :
      (id : Text) (i : RejectReport) (rows : Rows)
      → AllConsistent rows
      → Spares id (rejected_by i) rows
  unfolding rejected_by is_accepted
  rejected_by-Spares id i [] all = tt
  rejected_by-Spares id i (r ∷ rs) (con, all) =
      (λ target. go r.obligation.state con (ground (arith, target)), rejected_by-Spares id i rs all)
    where
      go :
          (st : ObligationState)
          → IsConsistent (record r.obligation { state = st })
          → is_pending st ≡ true
          → is_accepted tx key (rejected_by i r.obligation) ≡ false
      go pending h p = ground (arith, h.0)
      go received h p = absurd (cc)

  other_key-Spares :
      (id : Text) (i : AcceptReport) (rows : Rows)
      → text_eq i.source_report_id key ≡ false
      → Spares id (accepted_by i) rows
  unfolding accepted_by is_accepted
  other_key-Spares id i [] other = tt
  other_key-Spares id i (r ∷ rs) other =
      (λ target. ground (arith, other), other_key-Spares id i rs other)

  absent-Spares :
      (id : Text) (f : Obligation → Obligation) (rows : Rows) → NotIn id rows → Spares id f rows
  absent-Spares id f [] out = tt
  absent-Spares id f (r ∷ rs) (other, out) =
      (λ target. absurd (ground (arith, target, other)), absent-Spares id f rs out)

  other_tx-Spares :
      (tx' : Text) (i : AcceptReport) (rows : Rows) (rc : ReportContext)
      → UniqueIds rows
      → load_for_report tx' rows ≡ some rc
      → text_eq tx' tx ≡ false
      → Spares rc.obligation.obligation_id (accepted_by i) rows
  unfolding load_for_report accepted_by is_accepted
  other_tx-Spares tx' i [] rc u e other = tt
  other_tx-Spares tx' i (r ∷ rs) rc u e other =
      elim (Bool-cases (text_eq r.obligation.transaction_id tx')) [
        | inl same ↦
            let head : some r ≡ some rc = rw (same, load_for_report) at e in
            let here : r ≡ rc = cc head in
            (
              λ target. ground (arith, text_eq_iff r.obligation.transaction_id tx', same, other),
              subst (λ x. Spares x.obligation.obligation_id (accepted_by i) rs) here
                  (absent-Spares r.obligation.obligation_id (accepted_by i) rs u.0),
            )
        | inr differs ↦
            let later = rw (differs, load_for_report) at e in
            let apart = NotIn-load r.obligation.obligation_id tx' rs rc u.0 later in
            (
              λ target. absurd (
                  ground (
                    arith,
                    target,
                    apart,
                    text_eq_iff r.obligation.obligation_id rc.obligation.obligation_id,
                    text_eq_refl rc.obligation.obligation_id,
                  )),
              other_tx-Spares tx' i rs rc u.1 later other,
            )
      ]

  pub persist-hit :
      (v : Option Rejection) (req : Request) (rc : ReportContext) (rows : Rows) (o : Obligation)
      → UniqueIds rows
      → AllConsistent rows
      → load_for_report req.report.transaction_id rows ≡ some rc
      → find_accepted req.report.transaction_id req.report.idempotency_key rows ≡ none
      → find_accepted tx key rows ≡ some o
      → find_accepted tx key (persist v req rc rows).1 ≡ some o
  unfolding persist_validation persist_rejection mark_validation_validated mark_validation_rejected
  persist-hit (some rej) req rc rows o u all e miss hit =
      find_accepted-update_where rc.obligation.obligation_id (rejected_by (rejection req rc rej))
        rows o all (rejected_by-Spares rc.obligation.obligation_id (rejection req rc rej) rows all)
        hit
  persist-hit none req rc rows o u all e miss hit =
      find_accepted-update_where rc.obligation.obligation_id (accepted_by (acceptance req rc)) rows
        o all
        (elim (Bool-cases (text_eq req.report.idempotency_key key)) [
          | inr other ↦ other_key-Spares rc.obligation.obligation_id (acceptance req rc) rows other
          | inl same_key ↦ elim (Bool-cases (text_eq req.report.transaction_id tx)) [
            | inr other ↦
                other_tx-Spares req.report.transaction_id (acceptance req rc) rows rc u e other
            | inl same_tx ↦
                let key' = text_eq→eq req.report.idempotency_key key same_key in
                let tx' = text_eq→eq req.report.transaction_id tx same_tx in
                absurd (cc (rw (key', tx') at miss, hit))
          ]
        ])
        hit
