-- ===== src/Exchange/Reads.antt =====
-- src/exchange/internal/service: answering a replay only reads.
use reference_implementation.Common.{
  ℕ, zero, suc, ◌+◌, ◌≡◌, inl, inr, refl, ap, ◌∙◌, Option, none, some, List, [], ◌∷◌, Text, text_eq,
  leb, Bool-cases, Option-cases,
}
use reference_implementation.Exchange.Kinds.{
  Result, failure, success, Result-cases, is_idempotent_replay,
}
use reference_implementation.Exchange.Messages.{Item, Request, Response, Binding}
use reference_implementation.Exchange.Deps.{World, Env, Schedule, tick}
use reference_implementation.Exchange.Rows.{derived_item_key, by_idempotency_key, request_response}
use reference_implementation.Exchange.Replay.{
  finalized_wait_polls, probe_items, replay_batch_response, finalized_response, await_from,
  await_finalized_response, or_unserved, probe_or_await, serve_lost_claim,
}
use reference_implementation.Exchange.Ledger.{Alone}

-- The two worlds differ in the number of calls made.
pub record Unchanged {B : Type 0} (w v : World B) : Type 0 where
  pub billing : v.billing ≡ w.billing
  pub log : v.log ≡ w.log
  pub claims : v.claims ≡ w.claims

pub Unchanged-refl : {B : Type 0} (w : World B) → Unchanged w w
Unchanged-refl w = record { billing = refl; log = refl; claims = refl }

pub Unchanged-trans : {B : Type 0} (u v w : World B) → Unchanged u v → Unchanged v w → Unchanged u w
Unchanged-trans u v w h k = record {
  billing = k.billing ∙ h.billing;
  log = k.log ∙ h.log;
  claims = k.claims ∙ h.claims;
}

module _ {B : Type 0} ⦃env : Env⦄ ⦃sched : Schedule B⦄ (alone : Alone sched) where
  pub ticked : (w : World B) → Unchanged w (tick w)
  ticked w = record {
    billing = ap (λ v. v.billing) (alone w.clock w);
    log = ap (λ v. v.log) (alone w.clock w);
    claims = ap (λ v. v.claims) (alone w.clock w);
  }

  by_idempotency_key-Unchanged :
      (key : Text) (w : World B) → Unchanged w (by_idempotency_key key w).1
  unfolding by_idempotency_key
  by_idempotency_key-Unchanged key w = elim (Bool-cases (sched.down w.clock)) [
    | inl fails ↦ rw (fails, by_idempotency_key) (ticked w)
    | inr works ↦ rw (works, by_idempotency_key) (ticked w)
  ]

  request_response-Unchanged :
      (id key : Text) (w : World B) → Unchanged w (request_response id key w).1
  unfolding request_response
  request_response-Unchanged id key w = elim (Bool-cases (sched.down w.clock)) [
    | inl fails ↦ rw (fails, request_response) (ticked w)
    | inr works ↦ rw (works, request_response) (ticked w)
  ]

  probe_items-Unchanged :
      (key : Text) (items : List Item) (w : World B) → Unchanged w (probe_items key items w).1
  unfolding probe_items
  probe_items-Unchanged key [] w = Unchanged-refl w
  probe_items-Unchanged key (item ∷ items) w =
      let p = by_idempotency_key (derived_item_key key item.offer.offer_id) w in
      let once = by_idempotency_key-Unchanged (derived_item_key key item.offer.offer_id) w in
      let rest = Unchanged-trans w p.1 _ once (probe_items-Unchanged key items p.1) in
      elim (Result-cases p.0) [
        | inl (k, e) ↦ rw (e, probe_items) once
        | inr (none, e) ↦ rw (e, probe_items) rest
        | inr (some row, e) ↦ elim (Bool-cases (text_eq row.result_payload [])) [
          | inl blank ↦ rw (e, probe_items, blank) once
          | inr stored ↦ elim (Option-cases (env.sdk.unmarshal_item row.result_payload)) [
            | inl broken ↦ rw (e, probe_items, stored, broken) once
            | inr (result, f) ↦ rw (e, probe_items, stored, f) rest
          ]
        ]
      ]

  module _ (req : Request) (binding : Binding) where
    pub replay_batch_response-Unchanged :
        (w : World B) → Unchanged w (replay_batch_response req binding w).1
    unfolding replay_batch_response
    replay_batch_response-Unchanged w =
        elim (Result-cases (probe_items req.idempotency_key req.items w).0) [
          | inl (k, e) ↦
              rw (e, replay_batch_response) (probe_items-Unchanged req.idempotency_key req.items w)
          | inr (found, e) ↦
              rw (e, replay_batch_response) (probe_items-Unchanged req.idempotency_key req.items w)
        ]

    finalized_response-Unchanged :
        (id : Text) (w : World B) → Unchanged w (finalized_response req id binding w).1
    unfolding finalized_response
    finalized_response-Unchanged id w =
        elim (Result-cases (request_response id req.idempotency_key w).0) [
          | inl (k, e) ↦
              rw (e, finalized_response) (request_response-Unchanged id req.idempotency_key w)
          | inr (payload, e) ↦
              rw (e, finalized_response) (request_response-Unchanged id req.idempotency_key w)
        ]

    -- What an answer of the loop leaves, if it answers.
    abbrev Waited : World B → Option (Result (Option Response) × World B) → Type 0
    Waited w none = Unit
    Waited w (some p) = Unchanged w p.1

    Waited-after :
        (w v : World B) (r : Option (Result (Option Response) × World B))
        → Unchanged w v
        → Waited v r
        → Waited w r
    Waited-after w v none h k = tt
    Waited-after w v (some p) h k = Unchanged-trans w v p.1 h k

    await_from-Waited :
        (fuel poll : ℕ) (id : Text) (w : World B) → Waited w (await_from fuel poll req id binding w)
    unfolding await_from
    await_from-Waited zero poll id w = tt
    await_from-Waited (suc fuel) poll id w =
        let p = finalized_response req id binding w in
        let once = finalized_response-Unchanged id w in
        elim (Result-cases p.0) [
          | inl (k, e) ↦ rw (e, await_from) once
          | inr (some resp, e) ↦ rw (e, await_from) once
          | inr (none, e) ↦ elim (Bool-cases (leb finalized_wait_polls poll)) [
            | inl over ↦ rw (e, over, await_from) once
            | inr more ↦ elim (Bool-cases (leb env.patience poll)) [
              | inl cancelled ↦ rw (e, more, cancelled, await_from) once
              | inr waits ↦
                  rw (e, more, waits, await_from)
                    (Waited-after w p.1 _ once (await_from-Waited fuel (poll + 1) id p.1))
            ]
          ]
        ]

    await_finalized_response-Unchanged :
        (id : Text) (w : World B) → Unchanged w (await_finalized_response req id binding w).1
    unfolding await_finalized_response
    await_finalized_response-Unchanged id w =
        go (await_from (suc finalized_wait_polls) 0 req id binding w)
          (await_from-Waited (suc finalized_wait_polls) 0 id w)
      where
        go :
            (r : Option (Result (Option Response) × World B))
            → Waited w r
            → Unchanged w (or_unserved w r).1
        go none h = Unchanged-refl w
        go (some p) h = h

    probe_or_await-Unchanged :
        (r : Result (Option Response)) (id : Text) (w : World B)
        → Unchanged w (probe_or_await r req id binding w).1
    probe_or_await-Unchanged (success (some resp)) id w = Unchanged-refl w
    probe_or_await-Unchanged (success none) id w = await_finalized_response-Unchanged id w
    probe_or_await-Unchanged (failure k) id w = elim (Bool-cases (is_idempotent_replay k)) [
      | inl replayed ↦ rw replayed (await_finalized_response-Unchanged id w)
      | inr final ↦ rw final (Unchanged-refl w)
    ]

    pub serve_lost_claim-Unchanged :
        (id : Text) (w : World B) → Unchanged w (serve_lost_claim req id binding w).1
    unfolding serve_lost_claim
    serve_lost_claim-Unchanged id w =
        let p = finalized_response req id binding w in
        let q = replay_batch_response req binding p.1 in
        let once = finalized_response-Unchanged id w in
        elim (Result-cases p.0) [
          | inl (k, e) ↦ rw (e, serve_lost_claim) once
          | inr (some resp, e) ↦ rw (e, serve_lost_claim) once
          | inr (none, e) ↦
              rw (e, serve_lost_claim)
                (Unchanged-trans w p.1 _ once (
                  Unchanged-trans p.1 q.1 _ (replay_batch_response-Unchanged p.1)
                    (probe_or_await-Unchanged q.0 id q.1)))
        ]
