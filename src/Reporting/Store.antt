-- ===== src/Reporting/Store.antt =====
-- src/exchange/internal/repo/obligation.go: the obligation rows and the statements on them. A row
-- carries the fields of its transaction and tenant that the join reads, which no statement here
-- writes; the newest row of a transaction stands first.
use reference_implementation.Common.{
  Bool, true, false, ◌&&◌, Option, none, some, List, [], ◌∷◌, Text, text_eq, if◌then◌else◌, ℤ,
}
use reference_implementation.Reporting.Report.{
  Outcome, validated, Obligation, ObligationState, pending, received, is_some,
}

pub record ReportContext : Type 0 where
  pub obligation : Obligation
  pub billing_id : Text
  pub created_at : Option ℤ
  pub tenant_id : Text
  pub agent_id : Text
  pub allow_broker_relay : Bool

abbrev pub Rows : Type 0
Rows = List ReportContext

unfoldable pub load_for_report : Text → Rows → Option ReportContext
load_for_report transaction_id [] = none
load_for_report transaction_id (r ∷ rs) =
    let rest = load_for_report transaction_id rs in
    if text_eq r.obligation.transaction_id transaction_id then some r else rest

abbrev pub is_source : Option Text → Text → Bool
is_source none key = false
is_source (some k) key = text_eq k key

-- The row accepted this source id: the statement asks for an issued id.
unfoldable pub is_accepted : Text → Text → Obligation → Bool
is_accepted transaction_id key o =
    text_eq o.transaction_id transaction_id
    && (is_source o.source_report_id key && is_some o.issued_report_id)

unfoldable pub find_accepted : Text → Text → Rows → Option Obligation
unfolding is_accepted
find_accepted transaction_id key [] = none
find_accepted transaction_id key (r ∷ rs) =
    let rest = find_accepted transaction_id key rs in
    if is_accepted transaction_id key r.obligation then some r.obligation else rest

abbrev pub is_pending : ObligationState → Bool
is_pending pending = true
is_pending received = false

pub record AcceptReport : Type 0 where
  pub obligation_id : Text
  pub source_report_id : Text
  pub issued_report_id : Text
  pub consumed : ℤ
  pub now : ℤ

pub record RejectReport : Type 0 where
  pub obligation_id : Text
  pub outcome : Outcome
  pub source_report_id : Text
  pub now : ℤ

unfoldable pub accepted_by : AcceptReport → Obligation → Obligation
accepted_by input o = record o {
  state = received;
  consumed_quantity = some input.consumed;
  received_at = some input.now;
  validation_outcome = some validated;
  validated_at = some input.now;
  source_report_id = some input.source_report_id;
  issued_report_id = some input.issued_report_id;
}

unfoldable pub rejected_by : RejectReport → Obligation → Obligation
rejected_by input o = record o {
  validation_outcome = some input.outcome;
  validated_at = some input.now;
  source_report_id = some input.source_report_id;
}

-- `WHERE obligation_id = $1 AND state = 'PENDING'`
abbrev pub is_target : Text → Obligation → Bool
is_target id o = text_eq o.obligation_id id && is_pending o.state

-- An update of the rows that the statement selects.
unfoldable pub update_where : Text → (Obligation → Obligation) → Rows → Rows
update_where id f [] = []
update_where id f (r ∷ rs) =
    let rest = update_where id f rs in
    (if is_target id r.obligation then record r { obligation = f r.obligation } else r) ∷ rest

-- `RETURNING *`: the first row that it wrote.
unfoldable pub returned : Text → (Obligation → Obligation) → Rows → Option Obligation
returned id f [] = none
returned id f (r ∷ rs) =
    let rest = returned id f rs in if is_target id r.obligation then some (f r.obligation) else rest

-- `none` is ErrObligationAlreadyReported: no row was selected.
unfoldable pub mark_validation_validated : AcceptReport → Rows → Option Obligation × Rows
unfolding update_where returned accepted_by
mark_validation_validated input rows = (
  returned input.obligation_id (accepted_by input) rows,
  update_where input.obligation_id (accepted_by input) rows,
)

unfoldable pub mark_validation_rejected : RejectReport → Rows → Option Obligation × Rows
unfolding update_where returned rejected_by
mark_validation_rejected input rows = (
  returned input.obligation_id (rejected_by input) rows,
  update_where input.obligation_id (rejected_by input) rows,
)
