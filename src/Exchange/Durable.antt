-- ===== src/Exchange/Durable.antt =====
-- src/exchange/internal/service/exchange_batch_finalized.go: the response that is returned is the one
-- that is stored.
use reference_implementation.Common.{
  ◌≡◌, ◌∙◌, ap, Bool, inl, inr, refl, true, false, some, List, [], ◌∷◌, Text, text_eq, Bool-cases,
  Option-cases,
}
use reference_implementation.Exchange.Kinds.{Result, failure, success}
use reference_implementation.Exchange.Messages.{Request, Response}
use reference_implementation.Exchange.Deps.{Claim, World, Env, Schedule, tick}
use reference_implementation.Exchange.Rows.{
  find_claim, set_response, is_claim, is_unset, response_of, finalize_request, request_response,
}
use reference_implementation.Exchange.Replay.{stored_response}
use reference_implementation.Exchange.Batch.{winner_of, select_finalized, finalize_batch_response}

-- The claim's first finalization is what a read then finds.
find_claim-set_response :
    (agent_id key payload : Text) (cs : List Claim)
    → is_unset (find_claim agent_id key cs) ≡ true
    → response_of (find_claim agent_id key (set_response agent_id key payload cs)) ≡ payload
unfolding find_claim set_response
find_claim-set_response agent_id key payload [] h = absurd (cc)
find_claim-set_response agent_id key payload (c ∷ cs) h =
    elim (Bool-cases (is_claim agent_id key c)) [
      | inl same ↦
          (let unset : text_eq c.response [] ≡ true = rw (find_claim, same) at h in
            rw (same, unset, same) refl)
      | inr other ↦
          rw (other, other)
            (find_claim-set_response agent_id key payload cs (rw (find_claim, other) at h))
    ]

stored_response-of :
    ⦃env : Env⦄
    → (stored : Text) (resp : Response) → stored_response stored ≡ success resp
    → env.sdk.unmarshal_response stored ≡ some resp
unfolding stored_response
stored_response-of ⦃env⦄ stored resp h = elim (Bool-cases (text_eq stored [])) [
  | inl blank ↦ absurd (cc (rw (stored_response, blank) at h))
  | inr full ↦ elim (Option-cases (env.sdk.unmarshal_response stored)) [
    | inl broken ↦ absurd (cc (rw (stored_response, full, broken) at h))
    | inr (winner, e) ↦ e ∙ cc (rw (stored_response, full, e) at h)
  ]
]

module _ {B : Type 0} ⦃env : Env⦄ ⦃sched : Schedule B⦄ where
  -- The claim holds the response.
  abbrev pub IsStored : Text → Text → Response → World B → Type 0
  IsStored agent_id key resp w =
      (env.sdk.unmarshal_response (response_of (find_claim agent_id key w.claims)) ≡ some resp)

  finalize_request-won :
      (agent_id key payload : Text) (w : World B)
      → (finalize_request agent_id key payload w).0 ≡ success true
      → response_of (find_claim agent_id key (finalize_request agent_id key payload w).1.claims)
        ≡ payload
  unfolding finalize_request
  finalize_request-won agent_id key payload w h = elim (Bool-cases (sched.down w.clock)) [
    | inl fails ↦ absurd (cc (rw (finalize_request, fails) at h))
    | inr works ↦
        rw (finalize_request, works)
          (find_claim-set_response agent_id key payload (tick w).claims
            (cc (rw (finalize_request, works) at h)))
  ]

  request_response-read :
      (agent_id key stored : Text) (w : World B)
      → (request_response agent_id key w).0 ≡ success stored
      → response_of (find_claim agent_id key (request_response agent_id key w).1.claims) ≡ stored
  unfolding request_response
  request_response-read agent_id key stored w h = elim (Bool-cases (sched.down w.clock)) [
    | inl fails ↦ absurd (cc (rw (request_response, fails) at h))
    | inr works ↦ rw (request_response, works) (cc (rw (request_response, works) at h))
  ]

  -- When finalization returns a response, the claim holds that response: this call wrote it, or it is
  -- the response of the request that finalized first, read back. Other requests may write before each
  -- call of the database, and calls may fail. What marshals is read back as it was.
  pub finalize_batch_response_durable :
      (req : Request) (agent_id : Text) (local resp : Response) (w : World B)
      → ((r : Response) (payload : Text)
          → env.sdk.marshal_response r ≡ some payload
          → env.sdk.unmarshal_response payload ≡ some r)
      → (finalize_batch_response req agent_id local w).0 ≡ success resp
      → IsStored agent_id req.idempotency_key resp (finalize_batch_response req agent_id local w).1
  unfolding finalize_batch_response
  finalize_batch_response_durable req agent_id local resp w round_trip h =
      elim (Option-cases (env.sdk.marshal_response local)) [
        | inl broken ↦ absurd (cc (rw (finalize_batch_response, broken) at h))
        | inr (payload, e) ↦
            rw (finalize_batch_response, e)
              (selected payload e (finalize_request agent_id req.idempotency_key payload w) refl
                (rw (finalize_batch_response, e) at h))
      ]
    where
      read :
          (v : World B) (p : Result Text × World B)
          → request_response agent_id req.idempotency_key v ≡ p
          → (winner_of p).0 ≡ success resp
          → IsStored agent_id req.idempotency_key resp (winner_of p).1
      read v (failure k, u) e g = absurd (cc)
      read v (success stored, u) e g =
          let found =
            request_response-read agent_id req.idempotency_key stored v (ap (λ p. p.0) e) in
          ap env.sdk.unmarshal_response (rw e at found) ∙ stored_response-of stored resp g

      selected :
          (payload : Text)
          → env.sdk.marshal_response local ≡ some payload
          → (p : Result Bool × World B)
          → finalize_request agent_id req.idempotency_key payload w ≡ p
          → (select_finalized req agent_id local p).0 ≡ success resp
          → IsStored agent_id req.idempotency_key resp (select_finalized req agent_id local p).1
      selected payload e (failure k, v) f g = absurd (cc)
      selected payload e (success true, v) f g =
          let found =
            finalize_request-won agent_id req.idempotency_key payload w (ap (λ p. p.0) f) in
          let same : local ≡ resp = cc in
          ap env.sdk.unmarshal_response (rw f at found)
          ∙ round_trip local payload e
          ∙ ap (λ r. some r) same
      selected payload e (success false, v) f g =
          read v (request_response agent_id req.idempotency_key v) refl g
