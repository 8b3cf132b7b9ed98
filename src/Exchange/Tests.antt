-- ===== src/Exchange/Tests.antt =====
-- src/exchange/internal/service: the theorems on ExecuteTransaction, applied to the shop of
-- Exchange/Shop.
use reference_implementation.Common.{
  suc, ◌≤◌, ◌≡◌, ◌≢◌, ◌↔◌, ap, sym, refl, Option, none, some, List, [], ◌∷◌, Text, codes, text_eq,
  length, pos, arith, ◌-ℤ◌, ◌+ℤ◌, ◌*ℤ◌, wrap64,
}
use reference_implementation.Billing.InMemory.Holds.{
  authorize, authorize_fresh, authorize_held, held, reserve,
}
use reference_implementation.Reporting.Overdue.{deny_if_reporting_overdue}
use reference_implementation.Exchange.Charges.{authorize_request}
use reference_implementation.Billing.InMemory.State.{new_adapter}
use reference_implementation.Exchange.Kinds.{success}
use reference_implementation.Exchange.Messages.{ResultItem, Response, Cost}
use reference_implementation.Exchange.Validate.{validate_batch_request}
use reference_implementation.Exchange.Rows.{
  find_row, find_claim, finalize_request, derived_item_key,
}
use reference_implementation.Exchange.Batch.{run_batch_items, finalize_batch_response}
use reference_implementation.Exchange.Ledger.{Alone, debit}
use reference_implementation.Exchange.PrepaidHolds.{QuietAccount}
use reference_implementation.Exchange.Prepaid.{prepaid_balance}
use reference_implementation.Exchange.PrepaidLedger.{prepaid_ledger}
use reference_implementation.Exchange.Bills.{bill}
use reference_implementation.Exchange.Answers.{offer_ids, run_batch_items_answers}
use reference_implementation.Exchange.Waiting.{await_ends}
use reference_implementation.Exchange.Envelope.{AreComplete, validate_batch_request_iff}
use reference_implementation.Exchange.Durable.{IsStored, finalize_batch_response_durable}
use reference_implementation.Exchange.Replay.{
  finalized_wait_polls, await_from, await_finalized_response,
}
use reference_implementation.Exchange.Accounting.{run_batch_items_quiet, run_batch_items_debits}
use reference_implementation.Exchange.Shop.{
  plain_sha, marshal_bare, bare, unmarshal_bare, test_env, test_schedule, test_adapter, start,
  world, request, buyer, proven, outcome, claim_of, with_claims,
}

always-Alone : Alone test_schedule
always-Alone n w = refl

valid : validate_batch_request request ≡ none
unfolding validate_batch_request text_eq
valid = refl

start-Quiet : QuietAccount 2 (codes "a") start
unfolding new_adapter text_eq
start-Quiet = record {
  roomy = record {
    room = omega arith;
    distinct = tt;
    prefixed = refl;
    unheld = λ i later. refl;
    unmarked = λ op key i later. refl;
  };
  unlocked = λ key. refl;
}

unlogged : (id : Text) → find_row (derived_item_key (codes "k") id) [] ≡ none
unfolding find_row
unlogged id = refl

run_batch_items_quiet_example :
    QuietAccount 0 (codes "a") (run_batch_items request buyer proven world).1.billing
run_batch_items_quiet_example =
    run_batch_items_quiet always-Alone prepaid_ledger (codes "a") request buyer proven world valid
      unlogged start-Quiet

outcome_ends : (run_batch_items request buyer proven world).0 ≡ success outcome
unfolding run_batch_items text_eq deny_if_reporting_overdue wrap64 ◌*ℤ◌ authorize authorize_request
    new_adapter authorize_fresh ◌-ℤ◌ held authorize_held reserve
outcome_ends = refl

outcome_fresh : outcome.recovered ≡ none
unfolding run_batch_items text_eq deny_if_reporting_overdue wrap64 ◌*ℤ◌ authorize authorize_request
    new_adapter authorize_fresh ◌-ℤ◌ held authorize_held reserve
outcome_fresh = refl

-- Six dollars of the ten: the item that is gone costs nothing.
outcome_billed : debit (codes "a") (codes "a") (bill request.items outcome.results) (pos 10) ≡ pos 4
unfolding run_batch_items text_eq deny_if_reporting_overdue wrap64 ◌*ℤ◌ authorize authorize_request
    new_adapter authorize_fresh ◌-ℤ◌ held authorize_held reserve ◌+ℤ◌
outcome_billed = refl

run_batch_items_debits_example :
    prepaid_balance (codes "a") (run_batch_items request buyer proven world).1.billing
    ≡ debit
        (codes "a")
        (codes "a")
        (bill request.items outcome.results)
        (prepaid_balance (codes "a") start)
run_batch_items_debits_example =
    run_batch_items_debits always-Alone prepaid_ledger (codes "a") request buyer proven world valid
      unlogged start-Quiet outcome outcome_ends outcome_fresh

run_batch_items_answers_example : offer_ids outcome.results ≡ codes "o1" ∷ codes "o2" ∷ []
run_batch_items_answers_example =
    run_batch_items_answers request buyer proven world outcome outcome_ends outcome_fresh

await_ends_example :
    (await_from (suc finalized_wait_polls) 0 request (codes "agent") proven world
      ≡ some (await_finalized_response request (codes "agent") proven world))
    × ((await_finalized_response request (codes "agent") proven world).1.clock ≤ 61)
await_ends_example = await_ends request (codes "agent") proven world

validate_batch_request_iff_example : (validate_batch_request request ≡ none) ↔ (
    (request.idempotency_key ≢ [])
    × (length request.idempotency_key ≤ 256)
    × (request.requester.id ≢ [])
    × (length request.requester.domain ≤ 253)
    × (request.items ≢ [])
    × AreComplete [] request.items)
validate_batch_request_iff_example = validate_batch_request_iff request

bare_round_trip :
    (r : Response) (payload : Text)
    → marshal_bare r ≡ some payload
    → unmarshal_bare payload ≡ some r
bare_round_trip r payload h = go r.items r.total_cost r.agent_identity_hash h
  where
    go :
        (items : List ResultItem) (total : Option Cost) (hash : Text)
        → marshal_bare (record { items = items; agent_identity_hash = hash; total_cost = total })
          ≡ some payload
        → unmarshal_bare payload
          ≡ some (record { items = items; agent_identity_hash = hash; total_cost = total })
    go (x ∷ items) total hash e = absurd (cc)
    go [] (some cost) hash e = absurd (cc)
    go [] none hash e = let same : 114 ∷ hash ≡ payload = cc in sym (ap unmarshal_bare same)

finalize_batch_response_durable_example :
    IsStored
      (codes "agent")
      (codes "k")
      (bare [])
      (finalize_batch_response request
        (codes "agent")
        (bare [])
        (with_claims (claim_of (codes "k") []))).1
unfolding finalize_batch_response finalize_request find_claim text_eq
finalize_batch_response_durable_example =
    finalize_batch_response_durable request (codes "agent") (bare []) (bare [])
      (with_claims (claim_of (codes "k") [])) bare_round_trip refl
