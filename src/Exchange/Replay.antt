-- ===== src/Exchange/Replay.antt =====
-- src/exchange/internal/service: replayBatchResponse (exchange_batch_replay.go), and the finalized
-- response of a claim (exchange_batch_finalized.go).
use reference_implementation.Common.{
  ℕ, zero, suc, ◌+◌, Bool, true, ◌&&◌, Option, none, some, List, [], ◌∷◌, Text, text_eq, length,
  leb, ◌==◌, if◌then◌else◌,
}
use reference_implementation.Exchange.Kinds.{Kind, Result, failure, success, is_idempotent_replay}
use reference_implementation.Exchange.Messages.{Item, Request, ResultItem, Response, Binding}
use reference_implementation.Exchange.Deps.{World, Env, Schedule}
use reference_implementation.Exchange.Rows.{derived_item_key, by_idempotency_key, request_response}
use reference_implementation.Exchange.Responses.{build_batch_tx_response}

-- The polls of a wait, 50 ms apart.
abbrev pub finalized_wait_polls : ℕ
finalized_wait_polls = 60

abbrev pub cons_found : {A : Type 0} → A → Result (List A) → Result (List A)
cons_found x (failure k) = failure k
cons_found x (success xs) = success (x ∷ xs)

-- Every row's digest is the proven one.
unfoldable pub are_owned : Text → List (ResultItem × Text) → Bool
are_owned digest [] = true
are_owned digest ((_, hash) ∷ found) = text_eq digest hash && are_owned digest found

abbrev pub results_of : List (ResultItem × Text) → List ResultItem
results_of [] = []
results_of ((result, _) ∷ found) = result ∷ results_of found

abbrev pub served : Result Response → Result (Option Response)
served (failure k) = failure k
served (success resp) = success (some resp)

abbrev pub or_unserved :
    {B : Type 0}
    → World B
    → Option (Result (Option Response) × World B)
    → Result (Option Response) × World B
or_unserved w none = (success none, w)
or_unserved w (some p) = p

module _ ⦃env : Env⦄ where
  -- What the rows that were found answer; `none` is a request that is no replay.
  unfoldable pub replay_of : ℕ → Binding → List (ResultItem × Text) → Result (Option Response)
  unfolding are_owned build_batch_tx_response
  replay_of items binding found =
      if length found == 0
      then success none
      else if length found == items
      then if are_owned binding.digest found
        then served (build_batch_tx_response (results_of found) binding.thumbprint)
        else failure Kind.permission_denied
      else failure Kind.idempotent

  -- A response that carries a thumbprint is served to its owner alone.
  unfoldable pub serve_finalized_response : Binding → Text → Result (Option Response)
  serve_finalized_response binding payload = elim (env.sdk.unmarshal_response payload) [
    | none ↦ failure Kind.internal
    | some resp ↦
        if text_eq resp.agent_identity_hash []
        then success (some resp)
        else if text_eq resp.agent_identity_hash binding.thumbprint
        then success (some resp)
        else failure Kind.permission_denied
  ]

  unfoldable pub stored_response : Text → Result Response
  stored_response stored =
      if text_eq stored []
      then failure Kind.internal
      else elim (env.sdk.unmarshal_response stored) [
        | none ↦ failure Kind.internal
        | some winner ↦ success winner
      ]

module _ {B : Type 0} ⦃env : Env⦄ ⦃sched : Schedule B⦄ where
  -- The results and the digests of the rows that the items have.
  unfoldable pub probe_items :
      Text → List Item → World B → Result (List (ResultItem × Text)) × World B
  unfolding derived_item_key by_idempotency_key
  probe_items key [] w = (success [], w)
  probe_items key (item ∷ items) w =
      let p = by_idempotency_key (derived_item_key key item.offer.offer_id) w in
      elim p.0 [
        | failure k ↦ (failure k, p.1)
        | success none ↦ probe_items key items p.1
        | success (some row) ↦
            if text_eq row.result_payload []
            then (failure Kind.idempotent, p.1)
            else elim (env.sdk.unmarshal_item row.result_payload) [
              | none ↦ (failure Kind.internal, p.1)
              | some result ↦
                  let q = probe_items key items p.1 in
                  (cons_found (result, row.agent_identity_hash) q.0, q.1)
            ]
      ]

  unfoldable pub replay_batch_response :
      Request → Binding → World B → Result (Option Response) × World B
  unfolding probe_items replay_of
  replay_batch_response req binding w =
      let p = probe_items req.idempotency_key req.items w in
      elim p.0 [
        | failure k ↦ (failure k, p.1)
        | success found ↦ (replay_of (length req.items) binding found, p.1)
      ]

  -- `none` is a claim without a response.
  unfoldable pub finalized_response :
      Request → Text → Binding → World B → Result (Option Response) × World B
  unfolding request_response serve_finalized_response
  finalized_response req agent_id binding w =
      let p = request_response agent_id req.idempotency_key w in
      elim p.0 [
        | failure k ↦ (failure k, p.1)
        | success payload ↦ (
          if text_eq payload [] then success none else serve_finalized_response binding payload,
          p.1,
        )
      ]

  -- The loop from a poll on, on fuel.
  unfoldable pub await_from :
      ℕ → ℕ → Request → Text → Binding → World B → Option (Result (Option Response) × World B)
  unfolding finalized_response
  await_from zero poll req agent_id binding w = none
  await_from (suc fuel) poll req agent_id binding w =
      let p = finalized_response req agent_id binding w in
      elim p.0 [
        | failure k ↦ some (failure k, p.1)
        | success (some resp) ↦ some (success (some resp), p.1)
        | success none ↦
            if leb finalized_wait_polls poll
            then some (success none, p.1)
            else if leb env.patience poll
            then some (success none, p.1)
            else await_from fuel (poll + 1) req agent_id binding p.1
      ]

  unfoldable pub await_finalized_response :
      Request → Text → Binding → World B → Result (Option Response) × World B
  unfolding await_from
  await_finalized_response req agent_id binding w =
      or_unserved w (await_from (suc finalized_wait_polls) 0 req agent_id binding w)

  -- The persisted rows answer, or a final error; otherwise the wait does.
  abbrev pub probe_or_await :
      Result (Option Response)
      → Request
      → Text
      → Binding
      → World B
      → Result (Option Response) × World B
  probe_or_await (success (some resp)) req agent_id binding w = (success (some resp), w)
  probe_or_await (success none) req agent_id binding w =
      await_finalized_response req agent_id binding w
  probe_or_await (failure k) req agent_id binding w =
      if is_idempotent_replay k
      then await_finalized_response req agent_id binding w
      else (failure k, w)

  unfoldable pub serve_lost_claim :
      Request → Text → Binding → World B → Result (Option Response) × World B
  unfolding finalized_response replay_batch_response await_finalized_response
  serve_lost_claim req agent_id binding w =
      let p = finalized_response req agent_id binding w in
      elim p.0 [
        | failure k ↦ (failure k, p.1)
        | success (some resp) ↦ (success (some resp), p.1)
        | success none ↦
            let q = replay_batch_response req binding p.1 in
            probe_or_await q.0 req agent_id binding q.1
      ]
