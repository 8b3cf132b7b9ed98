-- ===== src/Billing/Settlement/Wire.antt =====
-- src/exchange/internal/billing/tigerbeetle/split.go and transfers.go: the legs and transfers of the
-- persisted ledger, and the reading of its per-transfer statuses.
use reference_implementation.Common.{
  ℕ, ◌==◌, Bool, true, false, Option, none, some, List, [], ◌∷◌, if◌then◌else◌, ltb_ℤ, ℤ, pos,
  pos_part,
}

-- A 128-bit id as a number; zero is the empty id.
abbrev pub LedgerId : Type 0
LedgerId = ℕ

pub record Leg : Type 0 where
  pub id : LedgerId
  pub pending_id : LedgerId
  pub debit : LedgerId
  pub credit : LedgerId
  pub amount : Option ℤ
  pub ledger : ℕ
  pub code : ℕ
  pub user_data128 : LedgerId
  pub user_data64 : ℕ

pub record Transfer : Type 0 where
  pub id : LedgerId
  pub pending_id : LedgerId
  pub debit_account : LedgerId
  pub credit_account : LedgerId
  pub amount : ℕ
  pub user_data128 : LedgerId
  pub user_data64 : ℕ
  pub timeout : ℕ
  pub ledger : ℕ
  pub code : ℕ
  pub linked : Bool
  pub pending : Bool
  pub post_pending : Bool
  pub void_pending : Bool

abbrev pub code_settlement : ℕ
code_settlement = 1

abbrev pub code_refund : ℕ
code_refund = 2

-- The transfer that sets no field; each call names what it sets.
abbrev pub blank : Transfer
blank = record {
  id = 0;
  pending_id = 0;
  debit_account = 0;
  credit_account = 0;
  amount = 0;
  user_data128 = 0;
  user_data64 = 0;
  timeout = 0;
  ledger = 0;
  code = 0;
  linked = false;
  pending = false;
  post_pending = false;
  void_pending = false;
}

-- One leg of a batch; `none` is the amount that is nil or negative.
unfoldable pub build_leg : Leg → Bool → Option Transfer
build_leg leg linked = elim leg.amount [
  | none ↦ none
  | some v ↦
      if ltb_ℤ v (pos 0)
      then none
      else if leg.pending_id == 0
      then some (record blank {
        id = leg.id;
        debit_account = leg.debit;
        credit_account = leg.credit;
        amount = pos_part v;
        user_data128 = leg.user_data128;
        user_data64 = leg.user_data64;
        ledger = leg.ledger;
        code = leg.code;
        linked = linked;
      })
      else some (record blank {
        id = leg.id;
        pending_id = leg.pending_id;
        amount = pos_part v;
        user_data128 = leg.user_data128;
        user_data64 = leg.user_data64;
        linked = linked;
        post_pending = true;
      })
]

abbrev pub is_cons : List Leg → Bool
is_cons [] = false
is_cons (leg ∷ legs) = true

abbrev pub cons? : Option Transfer → Option (List Transfer) → Option (List Transfer)
cons? none rest = none
cons? (some t) none = none
cons? (some t) (some ts) = some (t ∷ ts)

-- The loop of `buildLinkedBatch`: every leg but the last is linked to the next.
unfoldable pub build_legs : List Leg → Option (List Transfer)
build_legs [] = some []
build_legs (leg ∷ legs) = cons? (build_leg leg (is_cons legs)) (build_legs legs)

unfoldable pub build_linked_batch : List Leg → Option (List Transfer)
build_linked_batch [] = none
build_linked_batch (leg ∷ legs) = build_legs (leg ∷ legs)

-- The statuses that the code tells apart; `other` stands for the rest.
pub data Status : Type 0 where
  created exists linked_event_failed exceeds_credits exceeds_debits : Status
  pending_not_found pending_already_posted pending_already_voided pending_expired : Status
  exists_different_flags exists_different_debit_account exists_different_credit_account : Status
  exists_different_amount exists_different_pending_id exists_different_user_data128 : Status
  exists_different_user_data64 exists_different_user_data32 exists_different_timeout : Status
  exists_different_code exists_different_ledger other : Status

pub data LinkedOutcome : Type 0 where
  linked_applied linked_exceeds_credits linked_pending_resolved linked_exists_mismatch :
      LinkedOutcome

-- What one status decides: nothing, an outcome, or an error.
pub data Verdict : Type 0 where
  go_on fail : Verdict
  outcome : LinkedOutcome → Verdict

unfoldable pub status_verdict : Status → Verdict
status_verdict created = go_on
status_verdict exists = go_on
status_verdict linked_event_failed = go_on
status_verdict exceeds_credits = outcome linked_exceeds_credits
status_verdict exceeds_debits = outcome linked_exceeds_credits
status_verdict pending_already_posted = outcome linked_pending_resolved
status_verdict pending_already_voided = outcome linked_pending_resolved
status_verdict pending_expired = outcome linked_pending_resolved
status_verdict pending_not_found = fail
status_verdict other = fail
status_verdict _ = outcome linked_exists_mismatch

-- `none` is an error.
unfoldable pub linked_outcome : List Status → Option LinkedOutcome
unfolding status_verdict
linked_outcome [] = some linked_applied
linked_outcome (s ∷ ss) =
    let rest = linked_outcome ss in
    elim (status_verdict s) [ go_on ↦ rest | fail ↦ none | outcome o ↦ some o ]

pub data PendingOutcome : Type 0 where
  pending_created pending_exists pending_insufficient_funds : PendingOutcome

unfoldable pub pending_outcome : Status → Option PendingOutcome
pending_outcome created = some pending_created
pending_outcome exists = some pending_exists
pending_outcome exceeds_credits = some pending_insufficient_funds
pending_outcome _ = none

pub data ResolveOutcome : Type 0 where
  resolve_applied resolve_exists resolve_not_found resolve_already_resolved : ResolveOutcome

unfoldable pub resolve_outcome : Status → Option ResolveOutcome
resolve_outcome created = some resolve_applied
resolve_outcome exists = some resolve_exists
resolve_outcome pending_not_found = some resolve_not_found
resolve_outcome pending_already_posted = some resolve_already_resolved
resolve_outcome pending_already_voided = some resolve_already_resolved
resolve_outcome pending_expired = some resolve_already_resolved
resolve_outcome _ = none

pub data HoldState : Type 0 where
  hold_free hold_live hold_resolved : HoldState
