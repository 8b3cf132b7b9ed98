-- ===== src/Exchange/Items.antt =====
-- src/exchange/internal/service: one item of a batch (exchange_batch.go), the rows it commits
-- (persist_intent.go) and the URL it delivers (exchange_helpers.go).
use reference_implementation.Common.{
  false, Option, none, some, [], Text, text_eq, if◌then◌else◌, ℤ, ◌+ℤ◌, ◌*ℤ◌,
}
use reference_implementation.Billing.Types.{AuthorizeResult}
use reference_implementation.Exchange.Kinds.{Kind, Result, failure, success}
use reference_implementation.Exchange.Messages.{
  Item, Request, Cost, ResultItem, Tenant, PricingDoc, ResolvedOffer, Agent, Binding, SignedUrl,
  Correlation, Plan,
}
use reference_implementation.Exchange.Deps.{
  Row, Due, Evidence, Env, Signer, signs, rsa_unavailable, signer_error,
}
use reference_implementation.Exchange.Offers.{build_reporting_obligation}
use reference_implementation.Exchange.Charges.{at_least_one}

pub record ItemBilling : Type 0 where
  pub tenant : Tenant
  pub resolved : ResolvedOffer
  pub req : Request
  pub item : Item
  pub agent : Agent
  pub binding : Binding
  pub derived_key : Text
  pub fee_rate_bps : ℤ

-- The charge: a zero or negative quantity counts as one.
unfoldable pub item_charge : PricingDoc → ℤ
item_charge p = p.unit_cost *ℤ at_least_one p.est_qty

abbrev pub no_hold : AuthorizeResult
no_hold = record { billing_id = []; approved = false; reason = [] }

abbrev pub cost_from : Option Text → Option Text → Text → Option Cost
cost_from (some amount) (some unit_cost) currency =
    some (record { amount = amount; currency = currency; unit_cost = some unit_cost })
cost_from _ _ currency = none

module _ ⦃env : Env⦄ where
  unfoldable pub resolve_request_correlation : Correlation
  resolve_request_correlation =
      if text_eq env.correlation_id []
      then record { id = none; is_minted = none }
      else record { id = some env.correlation_id; is_minted = some env.correlation_minted }

  abbrev pub sign_as : Signer → ResolvedOffer → Text → Result SignedUrl
  sign_as rsa_unavailable resolved thumbprint = failure Kind.failed_precondition
  sign_as signer_error resolved thumbprint = failure Kind.internal
  sign_as (signs key) resolved thumbprint =
      elim (env.sign_url key resolved.entry.uri thumbprint (env.now +ℤ env.url_ttl)) [
        | none ↦ failure Kind.internal
        | some signed ↦ success signed
      ]

  unfoldable pub mint_signed_url : Tenant → ResolvedOffer → Text → Result SignedUrl
  mint_signed_url tenant resolved thumbprint = sign_as (env.url_signer tenant) resolved thumbprint

  unfoldable pub build_batch_result_item :
      Item → Text → Text → SignedUrl → PricingDoc → Plan → ResultItem
  unfolding item_charge build_reporting_obligation
  build_batch_result_item item transaction_id billing_id signed pricing plan = record {
    offer_id = item.offer.offer_id;
    transaction_id = transaction_id;
    billing_id = billing_id;
    resource_title = item.offer.title;
    cost =
        cost_from (env.sdk.format_money (item_charge pricing))
          (env.sdk.format_money pricing.unit_cost) pricing.currency;
    expires_at = some signed.expiry;
    retrieval_endpoint = some signed.url;
    obligation = some (build_reporting_obligation plan);
    denial_reason = none;
  }

  -- `none` is an offer that does not marshal.
  unfoldable pub offer_evidence : ItemBilling → SignedUrl → Text → Option Evidence
  unfolding resolve_request_correlation
  offer_evidence in_ signed transaction_id = elim (env.sdk.offer_json in_.item.offer) [
    | none ↦ none
    | some json ↦ some (record {
      transaction_id = transaction_id;
      tenant_id = in_.tenant.id;
      offer_id = in_.item.offer.offer_id;
      offer_json = json;
      offer_canonical_bytes = in_.resolved.canonical_bytes;
      offer_signature = in_.item.offer.signature;
      exchange_public_key = env.offer_public_key;
      acceptance_signature = in_.item.acceptance_signature;
      acceptance_canonical_bytes = in_.binding.acceptance_bytes;
      requester_id = in_.req.requester.id;
      requester_domain = in_.req.requester.domain;
      request_idempotency_key = in_.req.idempotency_key;
      agent_public_key = in_.binding.public_key;
      agent_discovery_url = in_.binding.discovery_url;
      signed_url = signed.url;
      request_id = resolve_request_correlation.id;
      request_id_minted = resolve_request_correlation.is_minted;
    })
  ]

  unfoldable pub row_of : ItemBilling → SignedUrl → Text → Text → Text → Row
  row_of in_ signed billing_id transaction_id payload = record {
    transaction_id = transaction_id;
    idempotency_key = in_.derived_key;
    tenant_id = in_.tenant.id;
    agent_id = in_.agent.id;
    resource_id = in_.resolved.entry.resource_id;
    offer_id = in_.item.offer.offer_id;
    agent_identity_hash = in_.binding.digest;
    signed_url_hash = signed.hash;
    expiry = signed.expiry;
    billing_id = billing_id;
    unit_cost = in_.resolved.pricing.unit_cost;
    currency = in_.resolved.pricing.currency;
    result_payload = payload;
  }

  -- Times are in seconds.
  abbrev pub due_of : Plan → PricingDoc → Text → Text → Option Due
  due_of plan pricing obligation_id transaction_id =
      if plan.is_owed
      then some (record {
        obligation_id = obligation_id;
        transaction_id = transaction_id;
        window_seconds = plan.window_seconds;
        deadline = env.now +ℤ plan.window_seconds;
        required_fields = plan.required_fields;
        estimated_quantity = pricing.est_qty;
        quantity_tolerance = plan.quantity_tolerance;
      })
      else none
