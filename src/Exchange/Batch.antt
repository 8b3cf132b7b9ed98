-- ===== src/Exchange/Batch.antt =====
-- src/exchange/internal/service: executeBatch and runBatchItems (exchange_batch.go), the
-- finalization (exchange_batch_finalized.go) and resolveAgent (agent_resolution.go).
use reference_implementation.Common.{
  Bool, true, false, Option, none, some, List, [], ◌∷◌, ◌++◌, Text, text_eq, if◌then◌else◌,
}
use reference_implementation.Exchange.Kinds.{Kind, Result, failure, success, is_idempotent_replay}
use reference_implementation.Exchange.Messages.{Item, Request, ResultItem, Response, Agent, Binding}
use reference_implementation.Exchange.Deps.{BillingAdapter, AgentRow, World, Env, Schedule}
use reference_implementation.Exchange.Validate.{validate_batch_request}
use reference_implementation.Exchange.Rows.{finalize_request, request_response}
use reference_implementation.Exchange.Pipeline.{execute_batch_item}
use reference_implementation.Exchange.Responses.{batch_denial_result, build_batch_tx_response}
use reference_implementation.Exchange.Replay.{serve_lost_claim, stored_response}
use reference_implementation.Exchange.Admission.{Admission, admit_batch_request}

pub record BatchOutcome : Type 0 where
  pub results : List ResultItem
  pub shared_thumbprint : Text
  pub last_tx_id : Text
  pub recovered : Option Response

abbrev pub nothing_run : BatchOutcome
nothing_run = record { results = []; shared_thumbprint = []; last_tx_id = []; recovered = none }

unfoldable pub add_result : ResultItem → Text → BatchOutcome → BatchOutcome
add_result res thumb out = record out {
  results = out.results ++ res ∷ [];
  shared_thumbprint = if text_eq out.shared_thumbprint [] then thumb else out.shared_thumbprint;
  last_tx_id = res.transaction_id;
}

unfoldable pub add_denied : ResultItem → BatchOutcome → BatchOutcome
add_denied denied out = record out { results = out.results ++ denied ∷ [] }

-- What a lost key leads to: the winner's response, or the refusal itself.
abbrev pub recovered_or : Kind → Result (Option Response) → Result BatchOutcome
recovered_or k (failure j) = failure j
recovered_or k (success none) = failure k
recovered_or k (success (some resp)) = success (record nothing_run { recovered = some resp })

abbrev pub agent_of : Text → Result AgentRow → Result Agent
agent_of id (failure k) = failure k
agent_of id (success row) = success (record {
  id = id;
  billing_ref = row.billing_ref;
  key = record { public_key = row.public_key; discovery_url = row.discovery_url };
})

unfoldable pub resolve_agent : ⦃env : Env⦄ → Request → Result Agent
resolve_agent ⦃env⦄ req = elim (env.directory_host req.requester.id) [
  | none ↦ failure Kind.invalid_request
  | some id ↦ elim env.agents [
    | none ↦
        success (record {
          id = id;
          billing_ref = [];
          key = record { public_key = []; discovery_url = [] };
        })
    | some registered ↦ agent_of id (registered id)
  ]
]

module _ {B : Type 0} ⦃env : Env⦄ ⦃sched : Schedule B⦄ where
  unfoldable pub abort_batch :
      Request → Agent → Binding → Kind → World B → Result BatchOutcome × World B
  unfolding serve_lost_claim
  abort_batch req agent binding k w =
      let p = serve_lost_claim req agent.id binding w in
      if is_idempotent_replay k then (recovered_or k p.0, p.1) else (failure k, w)

  abbrev pub winner_of : Result Text × World B → Result Response × World B
  winner_of (failure k, w) = (failure k, w)
  winner_of (success stored, w) = (stored_response stored, w)

  abbrev pub select_finalized :
      Request → Text → Response → Result Bool × World B → Result Response × World B
  select_finalized req agent_id local (failure k, w) = (failure k, w)
  select_finalized req agent_id local (success true, w) = (success local, w)
  select_finalized req agent_id local (success false, w) =
      winner_of (request_response agent_id req.idempotency_key w)

  -- The write, or the response that was written before.
  unfoldable pub finalize_batch_response :
      Request → Text → Response → World B → Result Response × World B
  unfolding finalize_request request_response stored_response
  finalize_batch_response req agent_id resp w = elim (env.sdk.marshal_response resp) [
    | none ↦ (failure Kind.internal, w)
    | some payload ↦
        select_finalized req agent_id resp (finalize_request agent_id req.idempotency_key payload w)
  ]

  abbrev pub answer_run :
      Request → Agent → Bool → BatchOutcome → World B → Result Response × World B
  answer_run req agent is_claimed out w =
      elim (build_batch_tx_response out.results out.shared_thumbprint) [
        | failure k ↦ (failure k, w)
        | success resp ↦
            if is_claimed then finalize_batch_response req agent.id resp w else (success resp, w)
      ]

  -- The response of the items that ran, or the one that was recovered.
  unfoldable pub answer_batch :
      Request → Agent → Bool → BatchOutcome → World B → Result Response × World B
  unfolding build_batch_tx_response finalize_batch_response
  answer_batch req agent is_claimed out w = elim out.recovered [
    | some resp ↦ (success resp, w)
    | none ↦ answer_run req agent is_claimed out w
  ]

module _ {B : Type 0} ⦃env : Env⦄ ⦃sched : Schedule B⦄ ⦃api : BillingAdapter B⦄ where
  unfoldable pub run_items_from :
      Request → Agent → Binding → List Item → BatchOutcome → World B → Result BatchOutcome × World B
  unfolding execute_batch_item batch_denial_result add_result add_denied abort_batch
  run_items_from req agent binding [] out w = (success out, w)
  run_items_from req agent binding (item ∷ items) out w =
      let p = execute_batch_item req item agent w in
      elim p.0 [
        | success (res, thumb) ↦
            run_items_from req agent binding items (add_result res thumb out) p.1
        | failure k ↦ elim (batch_denial_result item k) [
          | some denied ↦ run_items_from req agent binding items (add_denied denied out) p.1
          | none ↦ abort_batch req agent binding k p.1
        ]
      ]

  unfoldable pub run_batch_items :
      Request → Agent → Binding → World B → Result BatchOutcome × World B
  unfolding run_items_from
  run_batch_items req agent binding w = run_items_from req agent binding req.items nothing_run w

  abbrev pub run_admitted : Request → Agent → Admission → World B → Result Response × World B
  run_admitted req agent adm w = elim adm.response [
    | some resp ↦ (success resp, w)
    | none ↦
        let p = run_batch_items req agent adm.binding w in
        elim p.0 [
          | failure k ↦ (failure k, p.1)
          | success out ↦ answer_batch req agent adm.is_claimed out p.1
        ]
  ]

  unfoldable pub execute_batch : Request → World B → Result Response × World B
  unfolding validate_batch_request resolve_agent admit_batch_request run_batch_items answer_batch
  execute_batch req w = elim (validate_batch_request req) [
    | some k ↦ (failure k, w)
    | none ↦ elim (resolve_agent req) [
      | failure k ↦ (failure k, w)
      | success agent ↦
          let p = admit_batch_request req agent w in
          elim p.0 [ failure k ↦ (failure k, p.1) | success adm ↦ run_admitted req agent adm p.1 ]
    ]
  ]
