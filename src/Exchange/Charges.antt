-- ===== src/Exchange/Charges.antt =====
-- src/exchange/internal/service: the hold of an item and its release (exchange_helpers.go,
-- exchange.go, exchange_batch_replay.go), and the commission (fee_resolution.go).
use reference_implementation.Common.{
  Bool, Option, none, some, [], Text, text_eq, if◌then◌else◌, ℤ, pos, leb_ℤ,
}
use reference_implementation.Billing.Types.{AuthorizeRequest, AuthorizeResult}
use reference_implementation.Exchange.Kinds.{Kind, Result, failure, success, billing_error_kind}
use reference_implementation.Exchange.Messages.{PricingDoc}
use reference_implementation.Exchange.Deps.{
  Approval, errored, answered, BillingAdapter, Row, World, Env, Schedule, account_active,
  account_off, account_missing, account_unreachable,
}
use reference_implementation.Exchange.Rows.{by_idempotency_key}

unfoldable pub resolve_fee_rate_bps : ℤ → Option ℤ → ℤ
resolve_fee_rate_bps tenant_default none = tenant_default
resolve_fee_rate_bps tenant_default (some rate) = rate

pub record BillingResolution : Type 0 where
  pub tenant_id : Text
  pub billing_ref : Text
  pub pricing : PricingDoc
  pub idempotency_key : Text
  pub resource_owner_id : Text
  pub fee_rate_bps : ℤ

abbrev pub at_least_one : ℤ → ℤ
at_least_one q = if leb_ℤ q (pos 0) then pos 1 else q

-- The text of a decimal always parses as a rational, so the amount is the unit cost itself.
unfoldable pub authorize_request : BillingResolution → AuthorizeRequest
authorize_request r = record {
  tenant_id = r.tenant_id;
  billing_ref = r.billing_ref;
  unit_cost = record { value = r.pricing.unit_cost; currency = r.pricing.currency };
  quantity = at_least_one r.pricing.est_qty;
  unit = r.pricing.unit;
  idempotency_key = r.idempotency_key;
  resource_owner_id = r.resource_owner_id;
  fee_rate_bps = r.fee_rate_bps;
}

abbrev pub approval_verdict : Approval → Result AuthorizeResult
approval_verdict (errored e) = failure (billing_error_kind e)
approval_verdict (answered r) = if r.approved then success r else failure Kind.billing_denied

abbrev pub has_no_reservation : Text → Bool
has_no_reservation billing_id = text_eq billing_id []

-- An account that cannot be read passes; `none` passes.
unfoldable pub check_account_active : ⦃env : Env⦄ → Text → Option Kind
check_account_active ⦃env⦄ billing_ref = elim (env.account billing_ref) [
  | account_missing ↦ some Kind.account_inactive
  | account_unreachable ↦ none
  | account_off ↦ some Kind.account_inactive
  | account_active ↦ none
]

module _ {B : Type 0} ⦃api : BillingAdapter B⦄ where
  unfoldable pub authorize_billing : BillingResolution → World B → Result AuthorizeResult × World B
  authorize_billing r w =
      let p = api.authorize (authorize_request r) w.billing in
      (approval_verdict p.0, record w { billing = p.1 })

  unfoldable pub resolve_billing :
      ⦃env : Env⦄ → BillingResolution → World B → Result AuthorizeResult × World B
  unfolding authorize_billing check_account_active
  resolve_billing r w =
      if text_eq r.billing_ref []
      then (failure Kind.account_not_registered, w)
      else elim (check_account_active r.billing_ref) [
        | some k ↦ (failure k, w)
        | none ↦ authorize_billing r w
      ]

  -- The error of a release is only logged.
  unfoldable pub release_hold : Text → Text → World B → World B
  release_hold billing_id key w =
      if has_no_reservation billing_id
      then w
      else record w { billing = (api.release billing_id key w.billing).1 }

  abbrev pub release_unless_shared : Result (Option Row) → Text → Text → World B → World B
  release_unless_shared (failure k) billing_id key w = w
  release_unless_shared (success none) billing_id key w = w
  release_unless_shared (success (some row)) billing_id key w =
      if text_eq row.billing_id billing_id then w else release_hold billing_id key w

  unfoldable pub release_duplicate_loss_hold :
      ⦃sched : Schedule B⦄ → Text → Text → World B → World B
  unfolding release_hold by_idempotency_key
  release_duplicate_loss_hold billing_id key w =
      if has_no_reservation billing_id
      then w
      else let p = by_idempotency_key key w in release_unless_shared p.0 billing_id key p.1
