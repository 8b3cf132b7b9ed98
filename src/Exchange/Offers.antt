-- ===== src/Exchange/Offers.antt =====
-- src/exchange/internal/service: verifyPresentedOffer (exchange_helpers.go), resolveOfferForTx
-- (exchange.go), the price of an offer (catalog_pricing.go) and its reporting obligation
-- (reporting_obligation.go, reporting_policy.go).
use reference_implementation.Common.{
  Bool, true, false, Option, none, some, [], Text, text_eq, if◌then◌else◌, ℤ, pos, ltb_ℤ, eqb_ℤ,
}
use reference_implementation.Reporting.Report.{Tolerance, default_ppm, required_fields_for}
use reference_implementation.Exchange.Kinds.{Kind, Result, failure, success}
use reference_implementation.Exchange.Messages.{
  metering_none, Pricing, Offer, ReportingObligation, Tenant, PricingDoc, ResolvedOffer, Policy,
  Plan,
}
use reference_implementation.Exchange.Deps.{Env, authentic, expired, forged, malformed}

unfoldable pub is_free : PricingDoc → Bool
is_free p = eqb_ℤ p.unit_cost (pos 0)

unfoldable pub meters_usage : PricingDoc → Bool
meters_usage p = elim p.metering [ some metering_none ↦ false | _ ↦ true ]

abbrev pub default_tolerance : Tolerance
default_tolerance = record { negative = false; ppm = default_ppm }

abbrev pub internal_or : Option Text → Result Text
internal_or none = failure Kind.internal
internal_or (some x) = success x

abbrev pub positive_or : Option ℤ → ℤ → ℤ
positive_or none fallback = fallback
positive_or (some v) fallback = if ltb_ℤ (pos 0) v then v else fallback

module _ ⦃env : Env⦄ where
  unfoldable pub money_or_zero : Text → Option ℤ
  money_or_zero s = if text_eq s [] then some (pos 0) else env.sdk.parse_money s

  -- The unit cost, which is the rate where the block has none.
  unfoldable pub unit_cost_of : Option Text → ℤ → Option ℤ
  unit_cost_of none rate = some rate
  unit_cost_of (some s) rate = money_or_zero s

  -- `none` is a price that does not parse.
  unfoldable pub pricing_doc_from_pricing : Pricing → Option PricingDoc
  unfolding money_or_zero unit_cost_of
  pricing_doc_from_pricing p = elim (money_or_zero p.rate) [
    | none ↦ none
    | some rate ↦ elim (unit_cost_of p.unit_cost rate) [
      | none ↦ none
      | some unit_cost ↦ some (record {
        model = p.model;
        rate = rate;
        currency = p.currency;
        unit_cost = unit_cost;
        unit = p.unit;
        est_qty = p.estimated_quantity;
        metering = p.metering;
      })
    ]
  ]

  -- The canonical bytes of an offer that verifies.
  unfoldable pub verify_presented_offer : Offer → Result Text
  verify_presented_offer offer =
      elim (env.sdk.verify_presented_offer offer env.offer_public_key env.now) [
        | authentic ↦ internal_or (env.sdk.canonical_offer_bytes offer)
        | expired ↦ failure Kind.offer_expired
        | forged ↦ failure Kind.signature_invalid
        | malformed ↦ failure Kind.invalid_request
      ]

  unfoldable pub resolve_offer_for_tx : Offer → Result ResolvedOffer
  unfolding verify_presented_offer pricing_doc_from_pricing
  resolve_offer_for_tx presented = elim (verify_presented_offer presented) [
    | failure k ↦ failure k
    | success canonical ↦ elim (env.catalog_by_uri presented.canonical_url) [
      | none ↦ failure Kind.content_unavailable
      | some entry ↦ elim (pricing_doc_from_pricing presented.pricing) [
        | none ↦ failure Kind.invalid_request
        | some pricing ↦
            success (record { entry = entry; pricing = pricing; canonical_bytes = canonical })
      ]
    ]
  ]

  unfoldable pub window_seconds_for_obligation : Policy → ℤ
  window_seconds_for_obligation policy = positive_or policy.window_seconds env.report_window_seconds

  unfoldable pub plan_obligation : Tenant → PricingDoc → Plan
  unfolding meters_usage is_free window_seconds_for_obligation
  plan_obligation tenant pricing =
      let policy = env.decode_policy tenant.reporting_policy in
      record {
        is_owed = meters_usage pricing;
        window_seconds = window_seconds_for_obligation policy;
        required_fields = required_fields_for policy.required_fields (is_free pricing);
        quantity_tolerance = elim policy.quantity_tolerance [
          | none ↦ default_tolerance
          | some t ↦ t
        ];
      }

unfoldable pub build_reporting_obligation : Plan → ReportingObligation
build_reporting_obligation p =
    if p.is_owed
    then record {
      is_owed = true;
      window_seconds = p.window_seconds;
      required_fields = p.required_fields;
    }
    else record { is_owed = false; window_seconds = pos 0; required_fields = [] }
