-- ===== src/Exchange/Waiting.antt =====
-- src/exchange/internal/service/exchange_batch_finalized.go: the wait for a finalized response.
use reference_implementation.Common.{
  ℕ, zero, suc, ◌+◌, ◌≤◌, ◌≡◌, inl, inr, refl, Option, none, some, Text, arith, leb, Bool-cases,
}
use reference_implementation.Exchange.Kinds.{Result, failure, success, Result-cases}
use reference_implementation.Exchange.Messages.{Request, Response, Binding}
use reference_implementation.Exchange.Deps.{World, Env, Schedule}
use reference_implementation.Exchange.Rows.{request_response}
use reference_implementation.Exchange.Replay.{
  finalized_wait_polls, finalized_response, await_from, await_finalized_response,
}

module _ {B : Type 0} ⦃env : Env⦄ ⦃sched : Schedule B⦄ (req : Request) (id : Text)
    (b : Binding) where
  request_response-clock :
      (w : World B) → (request_response id req.idempotency_key w).1.clock ≡ suc w.clock
  unfolding request_response
  request_response-clock w = elim (Bool-cases (sched.down w.clock)) [
    | inl fails ↦ rw (fails, request_response)
    | inr works ↦ rw (works, request_response)
  ]

  finalized_response-clock : (w : World B) → (finalized_response req id b w).1.clock ≡ suc w.clock
  unfolding finalized_response
  finalized_response-clock w = elim (Result-cases (request_response id req.idempotency_key w).0) [
    | inl (k, e) ↦ rw (e, finalized_response) (request_response-clock w)
    | inr (payload, e) ↦ rw (e, finalized_response) (request_response-clock w)
  ]

  -- The loop answers, after at most `n` reads.
  abbrev Ends : ℕ → World B → Option (Result (Option Response) × World B) → Type 0
  Ends n w r = (p : Result (Option Response) × World B) × (r ≡ some p) × (p.1.clock ≤ w.clock + n)

  await_from-Ends :
      (fuel poll : ℕ) (w : World B)
      → suc finalized_wait_polls ≤ fuel + poll
      → poll ≤ finalized_wait_polls
      → Ends fuel w (await_from fuel poll req id b w)
  unfolding await_from
  await_from-Ends zero poll w long short = absurd (omega arith)
  await_from-Ends (suc fuel) poll w long short =
      let p = finalized_response req id b w in
      let once = finalized_response-clock w in
      elim (Result-cases p.0) [
        | inl (k, e) ↦ rw (e, await_from) ((failure k, p.1), refl, omega (arith, once))
        | inr (some resp, e) ↦
            rw (e, await_from) ((success (some resp), p.1), refl, omega (arith, once))
        | inr (none, e) ↦ elim (Bool-cases (leb finalized_wait_polls poll)) [
          | inl over ↦ rw (e, over, await_from) ((success none, p.1), refl, omega (arith, once))
          | inr more ↦ elim (Bool-cases (leb env.patience poll)) [
            | inl cancelled ↦
                rw (e, more, cancelled, await_from) ((success none, p.1), refl, omega (arith, once))
            | inr waits ↦
                let (q, same, bound) =
                  await_from-Ends fuel (poll + 1) p.1 (omega arith) (ground arith) in
                rw (e, more, waits, await_from) (q, same, omega (arith, once, bound))
          ]
        ]
      ]

  -- The wait for a response ends by itself after at most 61 reads of the claim, whatever other
  -- requests write meanwhile and whichever reads fail: with 61 steps of fuel the loop answers, and
  -- that answer is the one that the wait gives.
  pub await_ends :
      (w : World B)
      → (await_from (suc finalized_wait_polls) 0 req id b w
          ≡ some (await_finalized_response req id b w))
        × ((await_finalized_response req id b w).1.clock ≤ w.clock + suc finalized_wait_polls)
  unfolding await_finalized_response
  await_ends w =
      let (p, e, bound) =
        await_from-Ends (suc finalized_wait_polls) 0 w (omega arith) (omega arith) in
      rw (e, await_finalized_response) (refl, bound)
