-- ===== src/Exchange/Admission.antt =====
-- src/exchange/internal/service/exchange_batch_replay.go: admitBatchRequest and the relay gate.
use reference_implementation.Common.{
  Bool, true, false, Option, none, some, List, [], ◌∷◌, Text, text_eq, if◌then◌else◌,
}
use reference_implementation.Exchange.Kinds.{Kind, Result, failure, success}
use reference_implementation.Exchange.Messages.{Item, Request, Response, Agent, AgentKey, Binding}
use reference_implementation.Exchange.Deps.{World, Env, Schedule}
use reference_implementation.Exchange.Agents.{
  classify_transport_chain, authorize_transport_relay, verify_agent_acceptance,
  verify_request_acceptance, prove_requester_possession,
}
use reference_implementation.Exchange.Rows.{Claimed, won, lost_to, claim_request}
use reference_implementation.Exchange.Replay.{replay_batch_response, serve_lost_claim}

-- `done` of the source is that there is a response.
pub record Admission : Type 0 where
  pub response : Option Response
  pub is_claimed : Bool
  pub binding : Binding

abbrev pub no_binding : Binding
no_binding = record {
  thumbprint = [];
  digest = [];
  public_key = [];
  discovery_url = [];
  acceptance_bytes = [];
}

abbrev pub admitted : Bool → Binding → Result (Option Response) → Result Admission
admitted is_claimed binding (failure k) = failure k
admitted is_claimed binding (success response) =
    success (record { response = response; is_claimed = is_claimed; binding = binding })

module _ ⦃env : Env⦄ where
  -- `none` is an item that no tenant owns.
  unfoldable pub resolve_relay_tenant : Item → Option Text
  resolve_relay_tenant item =
      if env.sdk.verify_offer item.offer item.offer.signature env.offer_public_key
      then if text_eq item.offer.canonical_url []
        then none
        else elim (env.catalog_by_uri item.offer.canonical_url) [
          | none ↦ none
          | some entry ↦ some entry.tenant_id
        ]
      else none

  -- `none` passes.
  unfoldable pub all_accepted : Request → List Item → AgentKey → Option Kind
  unfolding verify_agent_acceptance
  all_accepted req [] key = none
  all_accepted req (item ∷ items) key =
      let rest = all_accepted req items key in
      elim (verify_agent_acceptance req item key) [ failure k ↦ some k | success _ ↦ rest ]

  abbrev pub relay_verdict : Text → Option Text → Option Kind
  relay_verdict broker_key none = some Kind.permission_denied
  relay_verdict broker_key (some tenant_id) = elim (env.tenant_by_id tenant_id) [
    | none ↦ some Kind.internal
    | some tenant ↦ authorize_transport_relay (some broker_key) tenant
  ]

  unfoldable pub all_relayable : Text → List Item → Option Kind
  unfolding resolve_relay_tenant authorize_transport_relay
  all_relayable broker_key [] = none
  all_relayable broker_key (item ∷ items) =
      let rest = all_relayable broker_key items in
      elim (relay_verdict broker_key (resolve_relay_tenant item)) [ some k ↦ some k | none ↦ rest ]

  unfoldable pub relay_policy_gate : Request → Agent → Option Kind
  unfolding classify_transport_chain all_accepted all_relayable
  relay_policy_gate req agent = elim (classify_transport_chain env.transport_keys) [
    | none ↦ none
    | some broker_key ↦ elim (all_accepted req req.items agent.key) [
      | some k ↦ some k
      | none ↦ all_relayable broker_key req.items
    ]
  ]

module _ {B : Type 0} ⦃env : Env⦄ ⦃sched : Schedule B⦄ where
  abbrev pub replay_as : Bool → Request → Binding → World B → Result Admission × World B
  replay_as is_claimed req binding w =
      let p = replay_batch_response req binding w in (admitted is_claimed binding p.0, p.1)

  -- A request without the proof of its whole item set: nothing is claimed.
  unfoldable pub admit_legacy : Request → Agent → World B → Result Admission × World B
  unfolding prove_requester_possession relay_policy_gate replay_batch_response
  admit_legacy req agent w = elim (prove_requester_possession req req.items agent.key) [
    | none ↦ (admitted false no_binding (success none), w)
    | some binding ↦ elim (relay_policy_gate req agent) [
      | some k ↦ (failure k, w)
      | none ↦ replay_as false req binding w
    ]
  ]

  abbrev pub or_replay :
      Result (Option Response) → Request → Binding → World B → Result Admission × World B
  or_replay (failure k) req binding w = (failure k, w)
  or_replay (success (some resp)) req binding w = (admitted true binding (success (some resp)), w)
  or_replay (success none) req binding w = replay_as true req binding w

  unfoldable pub admit_claimed :
      Claimed → Text → Request → Agent → Binding → World B → Result Admission × World B
  unfolding serve_lost_claim replay_batch_response
  admit_claimed won digest req agent binding w = replay_as true req binding w
  admit_claimed (lost_to stored) digest req agent binding w =
      let p = serve_lost_claim req agent.id binding w in
      if text_eq stored digest then or_replay p.0 req binding p.1 else (failure Kind.idempotent, w)

  abbrev pub claim_for : Request → Agent → Binding → Text → World B → Result Admission × World B
  claim_for req agent binding digest w =
      let p = claim_request agent.id req.idempotency_key digest w in
      elim p.0 [
        | failure k ↦ (failure k, p.1)
        | success claimed ↦ admit_claimed claimed digest req agent binding p.1
      ]

  unfoldable pub admit_proven : Text → Request → Agent → World B → Result Admission × World B
  unfolding verify_request_acceptance relay_policy_gate claim_request admit_claimed
  admit_proven proof req agent w = elim (verify_request_acceptance req proof agent.key) [
    | failure k ↦ (failure k, w)
    | success (binding, canonical) ↦ elim (relay_policy_gate req agent) [
      | some k ↦ (failure k, w)
      | none ↦ claim_for req agent binding (env.sdk.sha256 canonical) w
    ]
  ]

  unfoldable pub admit_batch_request : Request → Agent → World B → Result Admission × World B
  unfolding admit_legacy admit_proven
  admit_batch_request req agent w = elim req.request_acceptance [
    | none ↦ admit_legacy req agent w
    | some proof ↦ admit_proven proof req agent w
  ]
