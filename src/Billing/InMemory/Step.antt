-- ===== src/Billing/InMemory/Step.antt =====
-- src/exchange/internal/billing/inmemory_adapter.go: every call that changes the adapter, and
-- sequences of calls; the mutex makes any concurrent use of the adapter such a sequence.
use reference_implementation.Common.{Sha256, List, [], ◌∷◌, Text, ℤ}
use reference_implementation.Billing.Types.{AmountArg, AuthorizeRequest}
use reference_implementation.Billing.InMemory.State.{Adapter}
use reference_implementation.Billing.InMemory.Holds.{authorize, record_tx, release}
use reference_implementation.Billing.InMemory.Funds.{refund, credit, ensure_agent_account}

pub data Call : Type 0 where
  authorize_call : AuthorizeRequest → Call
  record_call : Text → ℤ → Text → Call
  release_call : Text → Text → Call
  refund_call : Text → AmountArg → Text → Text → Call
  credit_call : Text → AmountArg → Text → Call
  ensure_call : Text → Call

module _ ⦃sha : Sha256⦄ where
  unfoldable pub step : Call → Adapter → Adapter
  step (authorize_call req) a = (authorize req a).1
  step (record_call id quantity key) a = (record_tx id quantity key a).1
  step (release_call id key) a = (release id key a).1
  step (refund_call id amount reason key) a = (refund id amount reason key a).1
  step (credit_call ref amount key) a = (credit ref amount key a).1
  step (ensure_call ref) a = (ensure_agent_account ref a).1

  unfoldable pub run : List Call → Adapter → Adapter
  run [] a = a
  run (c ∷ cs) a = run cs (step c a)
