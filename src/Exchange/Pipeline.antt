-- ===== src/Exchange/Pipeline.antt =====
-- src/exchange/internal/service/exchange_batch.go: executeBatchItem and runBatchItemBilling, with
-- persistTransaction (persist_intent.go).
use reference_implementation.Common.{suc, Option, none, some, Text, ℤ, if◌then◌else◌}
use reference_implementation.Billing.Types.{AuthorizeResult}
use reference_implementation.Reporting.Overdue.{deny_if_reporting_overdue}
use reference_implementation.Exchange.Kinds.{Kind, Result, failure, success, is_idempotent_replay}
use reference_implementation.Exchange.Messages.{
  Item, Request, ResultItem, Tenant, ResolvedOffer, Agent, Binding, SignedUrl,
}
use reference_implementation.Exchange.Deps.{BillingAdapter, World, Env, Schedule}
use reference_implementation.Exchange.Offers.{is_free, resolve_offer_for_tx, plan_obligation}
use reference_implementation.Exchange.Agents.{authorize_execute}
use reference_implementation.Exchange.Rows.{derived_item_key, insert_all}
use reference_implementation.Exchange.Charges.{
  BillingResolution, resolve_fee_rate_bps, resolve_billing, release_hold,
  release_duplicate_loss_hold,
}
use reference_implementation.Exchange.Items.{
  ItemBilling, no_hold, mint_signed_url, build_batch_result_item, offer_evidence, row_of, due_of,
}

-- A uuid has been drawn.
abbrev pub drawn : {B : Type 0} → World B → World B
drawn w = record w { clock = suc w.clock }

abbrev pub billing_resolution : ItemBilling → BillingResolution
billing_resolution job = record {
  tenant_id = job.tenant.id;
  billing_ref = job.agent.billing_ref;
  pricing = job.resolved.pricing;
  idempotency_key = job.derived_key;
  resource_owner_id = job.resolved.entry.resource_owner_id;
  fee_rate_bps = job.fee_rate_bps;
}

-- What the checks before the hold settle about an item: the overdue gate stands between the
-- authorization and the commission.
abbrev pub item_billing :
    Request → Item → Agent → Tenant → ResolvedOffer → Binding → Option ℤ → ItemBilling
item_billing req item agent tenant resolved binding override = record {
  tenant = tenant;
  resolved = resolved;
  req = req;
  item = item;
  agent = agent;
  binding = binding;
  derived_key = derived_item_key req.idempotency_key item.offer.offer_id;
  fee_rate_bps = resolve_fee_rate_bps tenant.fee_rate_bps override;
}

abbrev pub bound_to : Text → Result ResultItem → Result (ResultItem × Text)
bound_to thumbprint (failure k) = failure k
bound_to thumbprint (success result) = success (result, thumbprint)

module _ ⦃env : Env⦄ where
  abbrev pub overdue_gate : Text → Text → Option Kind
  overdue_gate tenant_id agent_id = elim (env.overdue_counts tenant_id agent_id) [
    | none ↦ some Kind.internal
    | some counts ↦ if deny_if_reporting_overdue counts then some Kind.reporting_overdue else none
  ]

  abbrev pub commission_gate :
      Request → Item → Agent → Tenant → ResolvedOffer → Binding → Result ItemBilling
  commission_gate req item agent tenant resolved binding =
      elim (env.fee_override tenant.id resolved.entry.resource_owner_id) [
        | none ↦ failure Kind.internal
        | some override ↦ success (item_billing req item agent tenant resolved binding override)
      ]

  abbrev pub agent_gate : Request → Item → Agent → Tenant → ResolvedOffer → Result ItemBilling
  agent_gate req item agent tenant resolved = elim (authorize_execute req item agent.key tenant) [
    | failure k ↦ failure k
    | success binding ↦ elim (overdue_gate tenant.id agent.id) [
      | some k ↦ failure k
      | none ↦ commission_gate req item agent tenant resolved binding
    ]
  ]

  -- The part of executeBatchItem before the hold.
  unfoldable pub admit_item : Request → Item → Agent → Result ItemBilling
  unfolding resolve_offer_for_tx authorize_execute
  admit_item req item agent = elim (resolve_offer_for_tx item.offer) [
    | failure k ↦ failure k
    | success resolved ↦ elim (env.tenant_by_id resolved.entry.tenant_id) [
      | none ↦ failure Kind.internal
      | some tenant ↦ agent_gate req item agent tenant resolved
    ]
  ]

module _ {B : Type 0} ⦃env : Env⦄ ⦃sched : Schedule B⦄ ⦃api : BillingAdapter B⦄ where
  -- `none` is success.
  unfoldable pub persist_transaction :
      ItemBilling → SignedUrl → Text → Text → Text → World B → Option Kind × World B
  unfolding offer_evidence row_of insert_all plan_obligation
  persist_transaction job signed billing_id transaction_id payload w =
      elim (offer_evidence job signed transaction_id) [
        | none ↦ (some Kind.internal, w)
        | some evidence ↦
            insert_all (row_of job signed billing_id transaction_id payload)
              (due_of (plan_obligation job.tenant job.resolved.pricing) job.resolved.pricing
                (env.uuid w.clock) transaction_id)
              evidence (drawn w)
      ]

  -- A lost key may share its hold with the request that won it.
  unfoldable pub undo_hold : Kind → Text → Text → World B → World B
  unfolding release_hold release_duplicate_loss_hold
  undo_hold k billing_id key w =
      if is_idempotent_replay k
      then release_duplicate_loss_hold billing_id key w
      else release_hold billing_id key w

  -- Record's error is only logged.
  unfoldable pub confirm_hold : ItemBilling → Text → World B → World B
  unfolding is_free
  confirm_hold job billing_id w = if is_free job.resolved.pricing then w else record w {
    billing = (api.record_tx billing_id job.resolved.pricing.est_qty job.derived_key w.billing).1;
  }

  unfoldable pub commit_item :
      ItemBilling → SignedUrl → Text → ResultItem → Text → World B → Result ResultItem × World B
  unfolding persist_transaction undo_hold confirm_hold
  commit_item job signed billing_id result payload w =
      let p = persist_transaction job signed billing_id result.transaction_id payload w in
      elim p.0 [
        | some k ↦ (failure k, undo_hold k billing_id job.derived_key p.1)
        | none ↦ (success result, confirm_hold job billing_id p.1)
      ]

  unfoldable pub deliver_item :
      ItemBilling → SignedUrl → Text → World B → Result ResultItem × World B
  unfolding build_batch_result_item plan_obligation commit_item release_hold
  deliver_item job signed billing_id w =
      let result =
        build_batch_result_item job.item (env.uuid w.clock) billing_id signed job.resolved.pricing
          (plan_obligation job.tenant job.resolved.pricing) in
      elim (env.sdk.marshal_item result) [
        | none ↦ (failure Kind.internal, release_hold billing_id job.derived_key (drawn w))
        | some payload ↦ commit_item job signed billing_id result payload (drawn w)
      ]

  unfoldable pub run_under_hold : ItemBilling → Text → World B → Result ResultItem × World B
  unfolding mint_signed_url deliver_item release_hold
  run_under_hold job billing_id w =
      elim (mint_signed_url job.tenant job.resolved job.binding.thumbprint) [
        | failure k ↦ (failure k, release_hold billing_id job.derived_key w)
        | success signed ↦ deliver_item job signed billing_id w
      ]

  -- A free item takes no hold.
  unfoldable pub take_hold : ItemBilling → World B → Result AuthorizeResult × World B
  unfolding is_free resolve_billing
  take_hold job w =
      if is_free job.resolved.pricing
      then (success no_hold, w)
      else resolve_billing (billing_resolution job) w

  abbrev pub under_hold :
      ItemBilling → Result AuthorizeResult × World B → Result ResultItem × World B
  under_hold job (failure k, w) = (failure k, w)
  under_hold job (success auth, w) = run_under_hold job auth.billing_id w

  unfoldable pub run_batch_item_billing : ItemBilling → World B → Result ResultItem × World B
  unfolding take_hold run_under_hold
  run_batch_item_billing job w = under_hold job (take_hold job w)

  -- The result, and the agent's thumbprint.
  unfoldable pub execute_batch_item :
      Request → Item → Agent → World B → Result (ResultItem × Text) × World B
  unfolding admit_item run_batch_item_billing
  execute_batch_item req item agent w = elim (admit_item req item agent) [
    | failure k ↦ (failure k, w)
    | success job ↦
        let p = run_batch_item_billing job w in (bound_to job.binding.thumbprint p.0, p.1)
  ]
