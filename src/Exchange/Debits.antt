-- ===== src/Exchange/Debits.antt =====
-- src/exchange/internal/service/exchange_batch.go: a batch over an account ledger.
use reference_implementation.Common.{ℕ, suc, ◌≡◌, refl, sym, ap, ◌∙◌, Option, none, ◌∷◌, Text, ℤ}
use mathlib.Core.Path.{subst}
use reference_implementation.Exchange.Kinds.{Result, failure, success}
use reference_implementation.Exchange.Messages.{
  Item, Request, ResultItem, Agent, Binding, Tenant, ResolvedOffer,
}
use reference_implementation.Exchange.Deps.{BillingAdapter, Row, World, Env, Schedule}
use reference_implementation.Exchange.Rows.{find_row, derived_item_key}
use reference_implementation.Exchange.Items.{ItemBilling, item_charge}
use reference_implementation.Exchange.Pipeline.{
  item_billing, admit_item, execute_batch_item, bound_to, run_batch_item_billing,
}
use reference_implementation.Exchange.ItemCases.{Admitted, admit_item-Admitted}
use reference_implementation.Exchange.Ledger.{Ledger, debit, Alone}
use reference_implementation.Exchange.UnderHold.{ItemDone}
use reference_implementation.Exchange.Charged.{run_batch_item_billing-ItemDone}
use reference_implementation.Exchange.Bills.{price_of, price_of-resolved, derived_item_key-nonempty}

module _ {B : Type 0} ⦃env : Env⦄ ⦃sched : Schedule B⦄ ⦃api : BillingAdapter B⦄
    (alone : Alone sched) (ledger : Ledger api) (acct : Text) (req : Request) (agent : Agent) where
  abbrev pub key_of : Item → Text
  key_of item = derived_item_key req.idempotency_key item.offer.offer_id

  -- What one item does, by its signed offer.
  abbrev pub Step : ℕ → Item → World B → Result (ResultItem × Text) × World B → Type 0
  Step n item w (failure k, v) =
      ledger.Quiet n agent.billing_ref v.billing
      × (ledger.balance acct v.billing ≡ ledger.balance acct w.billing)
      × (v.log ≡ w.log)
  Step n item w (success (res, thumb), v) =
      ledger.Quiet n agent.billing_ref v.billing
      × (ledger.balance acct v.billing
          ≡ debit agent.billing_ref acct (price_of item) (ledger.balance acct w.billing))
      × ((row : Row) × (row.idempotency_key ≡ key_of item) × (v.log ≡ row ∷ w.log))
      × (res.denial_reason ≡ none)

  bound_to-Step :
      (n : ℕ) (item : Item) (w : World B) (thumb : Text) (tenant : Tenant)
      (resolved : ResolvedOffer) (binding : Binding) (override : Option ℤ)
      (p : Result ResultItem × World B)
      → price_of item ≡ item_charge resolved.pricing
      → ItemDone alone
          (item_billing req item agent tenant resolved binding override)
          ledger
          acct
          n
          w
          p
      → Step n item w (bound_to thumb p.0, p.1)
  bound_to-Step n item w thumb tenant resolved binding override (failure k, v) priced h = h
  bound_to-Step n item w thumb tenant resolved binding override (success res, v) priced
        (quiet, paid, row, granted) =
      (
        quiet,
        paid
            ∙ ap (λ c. debit agent.billing_ref acct c (ledger.balance acct w.billing)) (sym priced),
        row,
        granted,
      )

  pub execute_batch_item-Step :
      (n : ℕ) (item : Item) (w : World B)
      → ledger.Quiet (suc n) agent.billing_ref w.billing
      → find_row (key_of item) w.log ≡ none
      → Step n item w (execute_batch_item req item agent w)
  unfolding execute_batch_item
  execute_batch_item-Step n item w quiet new =
      go (admit_item req item agent) refl (admit_item-Admitted req item agent)
    where
      go :
          (r : Result ItemBilling)
          → admit_item req item agent ≡ r
          → Admitted req item agent r
          → Step n item w (execute_batch_item req item agent w)
      go (failure k) e h = rw (e, execute_batch_item) (ledger.weaken n _ _ quiet, refl, refl)
      go (success job) e (tenant, resolved, binding, override, same, priced) =
          rw (e, execute_batch_item)
            (subst
              (λ j. Step n item w (
                bound_to j.binding.thumbprint (run_batch_item_billing j w).0,
                (run_batch_item_billing j w).1,
              ))
              (sym same)
              (bound_to-Step n item w binding.thumbprint tenant resolved binding override
                (run_batch_item_billing
                  (item_billing req item agent tenant resolved binding override) w)
                (price_of-resolved item resolved priced)
                (run_batch_item_billing-ItemDone alone
                  (item_billing req item agent tenant resolved binding override) ledger acct n w
                  quiet (derived_item_key-nonempty req.idempotency_key item.offer.offer_id) new)))
