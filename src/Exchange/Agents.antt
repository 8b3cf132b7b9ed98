-- ===== src/Exchange/Agents.antt =====
-- src/exchange/internal/service: the agent's acceptance (agent_acceptance.go), its key (exchange.go)
-- and the transport chain (authz_multisig.go).
use reference_implementation.Common.{
  ℕ, Option, none, some, List, [], ◌∷◌, Text, length, ◌==◌, if◌then◌else◌,
}
use reference_implementation.Exchange.Kinds.{Kind, Result, failure, success}
use reference_implementation.Exchange.Messages.{Item, Request, Tenant, AgentKey, Binding}
use reference_implementation.Exchange.Deps.{Env}

abbrev pub public_key_size : ℕ
public_key_size = 32

-- `none` refuses the key.
unfoldable pub verifier : AgentKey → Option Text
verifier key = if length key.public_key == public_key_size then some key.public_key else none

-- The keys of the verified signatures: the first is the agent's, and the last that of the relay.
unfoldable pub classify_transport_chain : List Text → Option Text
classify_transport_chain [] = none
classify_transport_chain (k ∷ []) = none
classify_transport_chain (k ∷ j ∷ []) = some j
classify_transport_chain (k ∷ j ∷ i ∷ ks) = classify_transport_chain (j ∷ i ∷ ks)

unfoldable pub authorize_transport_relay : Option Text → Tenant → Option Kind
authorize_transport_relay none tenant = none
authorize_transport_relay (some broker_key) tenant =
    if tenant.allow_broker_relay then none else some Kind.permission_denied

module _ ⦃env : Env⦄ where
  unfoldable pub agent_binding_for_key : AgentKey → Text → Result Binding
  agent_binding_for_key key acceptance_bytes = elim (env.sdk.thumbprint_bytes key.public_key) [
    | none ↦ failure Kind.internal
    | some digest ↦ success (record {
      thumbprint = env.sdk.base64url digest;
      digest = digest;
      public_key = key.public_key;
      discovery_url = key.discovery_url;
      acceptance_bytes = acceptance_bytes;
    })
  ]

  unfoldable pub verify_agent_acceptance : Request → Item → AgentKey → Result Binding
  unfolding verifier agent_binding_for_key
  verify_agent_acceptance req item key = elim (verifier key) [
    | none ↦ failure Kind.internal
    | some pub_key ↦
        if env.sdk.verify_offer_acceptance item.offer req.requester req.idempotency_key
          item.acceptance_signature pub_key
        then elim (env.sdk.canonical_acceptance_bytes item.offer req.requester
            req.idempotency_key) [
              | none ↦ failure Kind.internal
              | some accepted ↦ agent_binding_for_key key accepted
            ]
        else failure Kind.signature_invalid
  ]

  -- The binding, and the canonical bytes of the request.
  unfoldable pub verify_request_acceptance : Request → Text → AgentKey → Result (Binding × Text)
  unfolding verifier agent_binding_for_key
  verify_request_acceptance req proof key = elim (verifier key) [
    | none ↦ failure Kind.internal
    | some pub_key ↦
        elim (env.sdk.verify_request_acceptance req proof env.exchange_domain pub_key) [
          | none ↦ failure Kind.signature_invalid
          | some canonical ↦ elim (agent_binding_for_key key []) [
            | failure k ↦ failure k
            | success binding ↦ success (binding, canonical)
          ]
        ]
  ]

  unfoldable pub authorize_execute : Request → Item → AgentKey → Tenant → Result Binding
  unfolding classify_transport_chain authorize_transport_relay verify_agent_acceptance
  authorize_execute req item key tenant =
      elim (authorize_transport_relay (classify_transport_chain env.transport_keys) tenant) [
        | some k ↦ failure k
        | none ↦ verify_agent_acceptance req item key
      ]

  -- The first item whose acceptance verifies.
  unfoldable pub prove_requester_possession : Request → List Item → AgentKey → Option Binding
  unfolding verify_agent_acceptance
  prove_requester_possession req [] key = none
  prove_requester_possession req (item ∷ items) key =
      let rest = prove_requester_possession req items key in
      elim (verify_agent_acceptance req item key) [
        | failure k ↦ rest
        | success binding ↦ some binding
      ]
