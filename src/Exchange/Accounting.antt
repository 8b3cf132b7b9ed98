-- ===== src/Exchange/Accounting.antt =====
-- src/exchange/internal/service/exchange_batch.go: what a batch does to the accounts.
use reference_implementation.Common.{◌≡◌, ap, ◌∙◌, inl, inr, none, Text, length}
use reference_implementation.Exchange.Kinds.{Result, failure, success}
use reference_implementation.Exchange.Messages.{Request, Agent, Binding}
use reference_implementation.Exchange.Deps.{BillingAdapter, World, Env, Schedule}
use reference_implementation.Exchange.Validate.{validate_batch_request}
use reference_implementation.Exchange.Rows.{find_row, derived_item_key}
use reference_implementation.Exchange.Batch.{BatchOutcome, run_batch_items}
use reference_implementation.Exchange.Envelope.{validate_batch_request_iff}
use reference_implementation.Exchange.Ledger.{Ledger, debit, Alone}
use reference_implementation.Exchange.Bills.{bill}
use reference_implementation.Exchange.Billed.{Settled, run_batch_items-Settled}

module _ {B : Type 0} ⦃env : Env⦄ ⦃sched : Schedule B⦄ ⦃api : BillingAdapter B⦄
    (alone : Alone sched) (ledger : Ledger api) (acct : Text) (req : Request) (agent : Agent)
    (binding : Binding) (w : World B) (valid : validate_batch_request req ≡ none)
    (new : (id : Text) → find_row (derived_item_key req.idempotency_key id) w.log ≡ none)
    (quiet : ledger.Quiet (length req.items) agent.billing_ref w.billing) where
  settled :
      Settled alone ledger acct req agent
        (ledger.balance acct w.billing)
        (run_batch_items req agent binding w)
  settled =
      run_batch_items-Settled alone ledger acct req agent binding w
        ((validate_batch_request_iff req).0 valid).5 new quiet

  -- However a batch ends, aborted or not, it leaves no open hold on the agent's account. The adapter
  -- is an account ledger, the envelope is valid, the account has no open hold and room for one per
  -- item, no row stands under the request's key, and no other request runs meanwhile; database calls
  -- and signing may fail at any point.
  pub run_batch_items_quiet :
      ledger.Quiet 0 agent.billing_ref (run_batch_items req agent binding w).1.billing
  run_batch_items_quiet = go (run_batch_items req agent binding w) settled
    where
      go :
          (p : Result BatchOutcome × World B)
          → Settled alone ledger acct req agent (ledger.balance acct w.billing) p
          → ledger.Quiet 0 agent.billing_ref p.1.billing
      go (failure k, v) h = h
      go (success out, v) h = h.0

  -- Let the adapter be an account ledger, the envelope valid, the agent's account without an open
  -- hold and with room for one per item, no row stand under the request's key, and no other request
  -- run meanwhile. Then a batch that runs to its end refines a ledger that books one line: it takes
  -- from the agent's account the sum of the signed prices of the items that it grants, nothing for
  -- those it denies, and leaves every other account as it was. A response that is recovered from a
  -- concurrent duplicate is excepted.
  pub run_batch_items_debits :
      (out : BatchOutcome)
      → (run_batch_items req agent binding w).0 ≡ success out
      → out.recovered ≡ none
      → ledger.balance acct (run_batch_items req agent binding w).1.billing
        ≡ debit agent.billing_ref acct (bill req.items out.results) (ledger.balance acct w.billing)
  run_batch_items_debits out ends fresh = go (run_batch_items req agent binding w) ends settled
    where
      go :
          (p : Result BatchOutcome × World B)
          → p.0 ≡ success out
          → Settled alone ledger acct req agent (ledger.balance acct w.billing) p
          → ledger.balance acct p.1.billing
            ≡ debit agent.billing_ref acct
                (bill req.items out.results)
                (ledger.balance acct w.billing)
      go (failure k, v) e h = absurd (cc)
      go (success o, v) e (q, inl h) = absurd (h (cc))
      go (success o, v) e (q, inr h) =
          let same : o ≡ out = cc in
          h
          ∙ ap
              (λ x.
                debit agent.billing_ref acct (bill req.items x.results)
                  (ledger.balance acct w.billing))
              same
