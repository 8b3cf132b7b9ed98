-- ===== src/Billing/InMemory/Tests.antt =====
-- src/exchange/internal/billing/inmemory_adapter.go: an agent with ten dollars, in cents, and its calls.
use reference_implementation.Common.{
  wrap64, Sha256, ℕ, ◌≡◌, refl, none, some, List, [], ◌∷◌, arith, Text, codes, text_eq, ℤ, pos, Map,
  if◌then◌else◌, true, false, lookup, ◌*ℤ◌, ◌-ℤ◌, ◌+ℤ◌, print_padded,
}
use reference_implementation.Billing.Types.{Amount, AmountArg, AuthorizeRequest}
use reference_implementation.Billing.InMemory.State.{
  Adapter, Reservation, new_adapter, op_already_done, bound_key, op_key, mint_id, free_auth,
  mark_op_done, op_record, op_release, approved_as, auth_map_key,
}
use reference_implementation.Billing.InMemory.Holds.{
  authorize, authorize_fresh, check_currency_and_balance, consume_quota, reserve, authorize_held,
  settle, record_tx, release, held, live_hold,
}
use reference_implementation.Billing.InMemory.Funds.{refund, validate_refund, apply_refund}
use reference_implementation.Billing.InMemory.Step.{
  Call, authorize_call, record_call, release_call, refund_call, credit_call, run, step,
}
use reference_implementation.Billing.InMemory.SolventHolds.{IsSolvent}
use reference_implementation.Billing.InMemory.Solvent.{run-IsSolvent}
use reference_implementation.Billing.InMemory.CappedRuns.{IsCapped, run-IsCapped}
use reference_implementation.Billing.InMemory.Replays.{record_tx_replay, refund_replay}
use reference_implementation.Billing.InMemory.LiveHolds.{
  IsLive, authorize_replay, resolve_frees_key,
}

instance abbrev plain_sha : Sha256
plain_sha = record { hex = λ t. t }

abbrev agent : Text
agent = codes "a"

abbrev dollars : ℕ → Amount
dollars n = record { value = pos n; currency = codes "USD" }

abbrev wallets : Map Amount
wallets k = if text_eq k agent then some (dollars 10) else none

abbrev allowances : Map ℤ
allowances k = if text_eq k agent then some (pos 5) else none

abbrev start : Adapter
start = new_adapter wallets allowances (codes "b-")

abbrev order : AuthorizeRequest
order = record {
  tenant_id = codes "t";
  billing_ref = agent;
  unit_cost = dollars 3;
  quantity = pos 2;
  unit = codes "call";
  idempotency_key = codes "k";
  resource_owner_id = codes "o";
  fee_rate_bps = pos 0;
}

abbrev first_id : Text
first_id = codes "b-000001"

abbrev back : AmountArg
back = record { value = some (pos 4); currency = codes "USD" }

abbrev held_once : Adapter
held_once = (authorize order start).1

abbrev settled_once : Adapter
settled_once = (record_tx first_id (pos 2) (codes "s") held_once).1

abbrev second_order : AuthorizeRequest
second_order = record order { idempotency_key = codes "z"; quantity = pos 1 }

abbrev second_id : Text
second_id = codes "b-000002"

abbrev meanwhile : List Call
meanwhile = authorize_call second_order ∷ release_call second_id (codes "v") ∷ []

abbrev day : List Call
day =
    authorize_call order
    ∷ record_call first_id (pos 2) (codes "s")
    ∷ refund_call first_id back (codes "late") (codes "r")
    ∷ release_call first_id (codes "v")
    ∷ []

start-IsSolvent : IsSolvent start
unfolding new_adapter held
start-IsSolvent = record { backed = tt; within = λ ref b e. ground arith }

start-IsCapped : IsCapped start
unfolding new_adapter
start-IsCapped = record {
  distinct = tt;
  unused = λ i h. (refl, refl);
  apart = λ k r e. refl;
  unpaid = λ k e. refl;
  cap = λ k t e. absurd (cc);
}

run-IsSolvent_example : IsSolvent (run day start)
run-IsSolvent_example = run-IsSolvent day start (omega arith, (tt, (tt, (tt, tt)))) start-IsSolvent

run-IsCapped_example : IsCapped (run day start)
unfolding new_adapter
run-IsCapped_example =
    run-IsCapped day start (omega arith, (tt, (tt, (tt, tt)))) (omega arith) start-IsSolvent
      start-IsCapped

approved_once : (authorize order start).0.approved ≡ true
unfolding new_adapter authorize authorize_fresh check_currency_and_balance consume_quota
    authorize_held reserve held text_eq ◌*ℤ◌ ◌-ℤ◌ print_padded mint_id
approved_once = refl

recorded_once : (record_tx first_id (pos 2) (codes "s") held_once).0 ≡ none
unfolding new_adapter authorize authorize_fresh check_currency_and_balance consume_quota
    authorize_held reserve held text_eq ◌*ℤ◌ ◌-ℤ◌ print_padded mint_id record_tx settle
recorded_once = refl

released_once : (release first_id (codes "v") held_once).0 ≡ none
unfolding new_adapter authorize authorize_fresh check_currency_and_balance consume_quota
    authorize_held reserve held text_eq ◌*ℤ◌ ◌-ℤ◌ print_padded mint_id release
released_once = refl

refunded_once : (refund first_id back (codes "late") (codes "r") settled_once).0 ≡ none
unfolding new_adapter authorize authorize_fresh check_currency_and_balance consume_quota
    authorize_held reserve held text_eq ◌*ℤ◌ ◌-ℤ◌ print_padded mint_id record_tx settle refund
    validate_refund apply_refund free_auth mark_op_done op_key bound_key ◌+ℤ◌
refunded_once = refl

-- Between a settlement or a refund and its repetition, another order is taken and settled.
abbrev between : List Call
between =
    credit_call agent (record { value = some (pos 30); currency = codes "USD" }) (codes "c")
    ∷ authorize_call second_order
    ∷ record_call second_id (pos 2) (codes "s")
    ∷ []

record_tx_replay_example :
    record_tx first_id (pos 9) (codes "s") (run between settled_once)
    ≡ (none, run between settled_once)
unfolding text_eq
record_tx_replay_example =
    record_tx_replay first_id (pos 2) (pos 9) (codes "s") held_once between refl recorded_once

abbrev refunded : Adapter
refunded = (refund first_id back (codes "late") (codes "r") settled_once).1

refund_replay_example :
    refund first_id back (codes "again") (codes "r") (run between refunded)
    ≡ (none, run between refunded)
unfolding text_eq
refund_replay_example =
    refund_replay first_id back back (codes "late") (codes "again") (codes "r") settled_once between
      refl refunded_once

abbrev first_hold : Reservation
first_hold = record {
  billing_ref = agent;
  est_amt = dollars 6;
  est_qty = pos 2;
  auth_key = codes "k";
}

pending_once :
    (lookup first_id held_once.reserved ≡ some first_hold)
    × (held_once.balances agent ≡ some (dollars 10))
    × (op_already_done first_id op_record (codes "s") held_once ≡ false)
    × (op_already_done first_id op_release (codes "s") held_once ≡ false)
unfolding new_adapter authorize authorize_fresh check_currency_and_balance consume_quota
    authorize_held reserve held text_eq ◌*ℤ◌ ◌-ℤ◌ print_padded mint_id op_already_done op_key
    bound_key
pending_once = (refl, refl, refl, refl)

resolve_frees_key_example :
    (live_hold order (record_tx first_id (pos 2) (codes "s") held_once).1 ≡ none)
    × (live_hold order (release first_id (codes "s") held_once).1 ≡ none)
resolve_frees_key_example =
    let (e, f, first, first') = pending_once in
    resolve_frees_key order first_id (codes "s") (pos 2) first_hold held_once first first' e
      (λ gone. absurd (cc (gone, f))) refl refl

still_pending : lookup first_id (run meanwhile held_once).reserved ≡ some first_hold
unfolding wrap64 run step new_adapter authorize authorize_fresh check_currency_and_balance
    consume_quota authorize_held reserve held text_eq ◌*ℤ◌ ◌-ℤ◌ ◌+ℤ◌ print_padded mint_id release
    free_auth mark_op_done op_already_done op_key bound_key auth_map_key
still_pending = refl

authorize_replay_example :
    IsLive order (authorize order start)
    × (authorize order (run meanwhile held_once) ≡ (approved_as first_id, run meanwhile held_once))
unfolding text_eq run new_adapter
authorize_replay_example =
    authorize_replay wallets allowances (codes "b-") [] meanwhile order order first_id first_hold
      refl approved_once refl refl still_pending refl refl
