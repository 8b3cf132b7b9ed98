-- ===== src/Exchange/Ledger.antt =====
-- src/exchange/internal/billing/adapter.go: what ExecuteTransaction relies on from a billing adapter,
-- as an account ledger. An adapter fills the record with its balances and the laws.
use reference_implementation.Common.{ℕ, suc, ◌≡◌, false, Text, [], text_eq, if◌then◌else◌, ℤ, ◌-ℤ◌}
use reference_implementation.Billing.Types.{AuthorizeRequest, AuthorizeResult, total_charge}
use reference_implementation.Exchange.Kinds.{Kind, failure, success}
use reference_implementation.Exchange.Deps.{BillingAdapter, World, Schedule}
use reference_implementation.Exchange.Charges.{approval_verdict}

-- What a charge to `ref` leaves on the account `acct`.
abbrev pub debit : Text → Text → ℤ → ℤ → ℤ
debit ref acct charge balance = if text_eq ref acct then balance -ℤ charge else balance

-- `Quiet n ref b`: the account has no open hold, and n more can be opened. `Open n req id b`: the
-- only open hold of the account is that of the request, under the id.
pub record Ledger {B : Type 0} (api : BillingAdapter B) : Type 1 where
  pub balance : Text → B → ℤ
  pub Quiet : ℕ → Text → B → Type 0
  pub Open : ℕ → AuthorizeRequest → Text → B → Type 0
  pub weaken : (n : ℕ) (ref : Text) (b : B) → Quiet (suc n) ref b → Quiet n ref b
  pub refuses :
      (acct : Text) (n : ℕ) (req : AuthorizeRequest) (b : B) (k : Kind)
      → Quiet (suc n) req.billing_ref b
      → text_eq req.idempotency_key [] ≡ false
      → approval_verdict (api.authorize req b).0 ≡ failure k
      → Quiet n req.billing_ref (api.authorize req b).1
        × (balance acct (api.authorize req b).1 ≡ balance acct b)
  pub holds :
      (acct : Text) (n : ℕ) (req : AuthorizeRequest) (b : B) (r : AuthorizeResult)
      → Quiet (suc n) req.billing_ref b
      → text_eq req.idempotency_key [] ≡ false
      → approval_verdict (api.authorize req b).0 ≡ success r
      → Open n req r.billing_id (api.authorize req b).1
        × (text_eq r.billing_id [] ≡ false)
        × (balance acct (api.authorize req b).1 ≡ balance acct b)
  pub releases :
      (acct : Text) (n : ℕ) (req : AuthorizeRequest) (id : Text) (b : B)
      → Open n req id b
      → Quiet n req.billing_ref (api.release id req.idempotency_key b).1
        × (balance acct (api.release id req.idempotency_key b).1 ≡ balance acct b)
  pub charges :
      (acct : Text) (n : ℕ) (req : AuthorizeRequest) (id : Text) (q : ℤ) (b : B)
      → Open n req id b
      → Quiet n req.billing_ref (api.record_tx id q req.idempotency_key b).1
        × (balance acct (api.record_tx id q req.idempotency_key b).1
            ≡ debit req.billing_ref acct
                (total_charge req.unit_cost req.quantity).value
                (balance acct b))

-- No other request writes meanwhile.
abbrev pub Alone : {B : Type 0} → Schedule B → Type 0
Alone {B} sched = (n : ℕ) (w : World B) → sched.others n w ≡ w
