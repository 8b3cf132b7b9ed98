-- ===== src/Exchange/Responses.antt =====
-- src/internal/rampcost/rampcost.go and buildBatchTxResponse of
-- src/exchange/internal/service/exchange_batch.go: the response of a batch and its total.
use reference_implementation.Common.{
  Option, none, some, List, [], ◌∷◌, Text, text_eq, if◌then◌else◌, ℤ, ◌+ℤ◌,
}
use reference_implementation.Exchange.Kinds.{Kind, Result, failure, success, denial_reason_for_kind}
use reference_implementation.Exchange.Messages.{Item, Cost, ResultItem, Response}
use reference_implementation.Exchange.Deps.{Env}

-- `sums[cur] += amount`; the keys stand in the order of their first use, which is `order`.
unfoldable pub add_sum : Text → ℤ → List (Text × ℤ) → List (Text × ℤ)
add_sum cur amount [] = (cur, amount) ∷ []
add_sum cur amount ((c, total) ∷ sums) =
    let rest = add_sum cur amount sums in
    if text_eq c cur then (c, total +ℤ amount) ∷ sums else (c, total) ∷ rest

-- A per-item denial, or `none` for a failure that aborts the batch.
unfoldable pub batch_denial_result : Item → Kind → Option ResultItem
unfolding denial_reason_for_kind
batch_denial_result item k = elim (denial_reason_for_kind k) [
  | none ↦ none
  | some reason ↦ some (record {
    offer_id = item.offer.offer_id;
    transaction_id = [];
    billing_id = [];
    resource_title = none;
    cost = none;
    expires_at = none;
    retrieval_endpoint = none;
    obligation = none;
    denial_reason = some reason;
  })
]

module _ ⦃env : Env⦄ where
  -- `none` is an amount that does not parse.
  unfoldable pub add_cost : Option Cost → List (Text × ℤ) → Option (List (Text × ℤ))
  unfolding add_sum
  add_cost none sums = some sums
  add_cost (some cost) sums =
      if text_eq cost.currency [] then some sums else elim (env.sdk.parse_money cost.amount) [
        | none ↦ none
        | some amount ↦ some (add_sum cost.currency amount sums)
      ]

  unfoldable pub sum_costs : List ResultItem → List (Text × ℤ) → Option (List (Text × ℤ))
  unfolding add_cost
  sum_costs [] sums = some sums
  sum_costs (it ∷ items) sums = elim (add_cost it.cost sums) [
    | none ↦ none
    | some sums' ↦ sum_costs items sums'
  ]

  -- The single currency's sum, where there is one.
  unfoldable pub scalar_total : List (Text × ℤ) → Result (Option Cost)
  scalar_total [] = success none
  scalar_total ((cur, total) ∷ []) = elim (env.sdk.format_money total) [
    | none ↦ failure Kind.internal
    | some amount ↦ success (some (record { amount = amount; currency = cur; unit_cost = none }))
  ]
  scalar_total (_ ∷ _ ∷ _) = success none

  unfoldable pub batch_total : List ResultItem → Result (Option Cost)
  unfolding sum_costs scalar_total
  batch_total items = elim (sum_costs items []) [
    | none ↦ failure Kind.internal
    | some sums ↦ scalar_total sums
  ]

  unfoldable pub build_batch_tx_response : List ResultItem → Text → Result Response
  unfolding batch_total
  build_batch_tx_response items agent_thumbprint = elim (batch_total items) [
    | failure k ↦ failure k
    | success total ↦
        success
          (record { items = items; agent_identity_hash = agent_thumbprint; total_cost = total })
  ]
