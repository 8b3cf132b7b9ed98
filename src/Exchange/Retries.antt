-- ===== src/Exchange/Retries.antt =====
-- src/exchange/internal/service/exchange_batch.go and exchange_batch_replay.go: a request whose key
-- its agent has used before.
use reference_implementation.Common.{ℕ, ◌≡◌, ◌⊎◌, true, false, some, [], text_eq}
use reference_implementation.Exchange.Messages.{Request, Response, Agent, Binding}
use reference_implementation.Exchange.Deps.{Claim, World, Env, Schedule}
use reference_implementation.Exchange.Rows.{find_claim}
use reference_implementation.Exchange.Admission.{Admission}
use reference_implementation.Exchange.Ledger.{Alone}

module _ {B : Type 0} ⦃env : Env⦄ ⦃sched : Schedule B⦄ (alone : Alone sched)
    (reliable : (n : ℕ) → sched.down n ≡ false) (req : Request) (agent : Agent) (binding : Binding)
    (c : Claim) where
  abbrev IsClaimed : World B → Type 0
  IsClaimed w = find_claim agent.id req.idempotency_key w.claims ≡ some c

  module _ (resp : Response) (full : text_eq c.response [] ≡ false)
      (decoded : env.sdk.unmarshal_response c.response ≡ some resp)
      (owned : (resp.agent_identity_hash ≡ [])
        ⊎ (resp.agent_identity_hash ≡ binding.thumbprint)) where
    abbrev served_admission : Admission
    served_admission = record { response = some resp; is_claimed = true; binding = binding }
