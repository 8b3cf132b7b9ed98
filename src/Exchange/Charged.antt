-- ===== src/Exchange/Charged.antt =====
-- src/exchange/internal/service/exchange_batch.go: what one item does to the ledger and to the log,
-- when no other request runs.
use reference_implementation.Common.{
  ℕ, suc, ◌≡◌, inl, inr, refl, ap, ◌∙◌, false, true, none, [], ◌∷◌, Text, text_eq, Bool-cases,
  Option-cases,
}
use reference_implementation.Billing.Types.{AuthorizeRequest, AuthorizeResult}
use reference_implementation.Exchange.Kinds.{Result, failure, success}
use reference_implementation.Exchange.Messages.{ResultItem}
use reference_implementation.Exchange.Deps.{BillingAdapter, World, Env, Schedule}
use reference_implementation.Exchange.Offers.{is_free}
use reference_implementation.Exchange.Rows.{find_row}
use reference_implementation.Exchange.Charges.{
  authorize_request, authorize_billing, resolve_billing, check_account_active, approval_verdict,
}
use reference_implementation.Exchange.Items.{ItemBilling, item_charge, no_hold}
use reference_implementation.Exchange.Pipeline.{
  under_hold, billing_resolution, take_hold, run_under_hold, run_batch_item_billing,
}
use reference_implementation.Exchange.Ledger.{Ledger, debit, Alone}
use reference_implementation.Exchange.UnderHold.{ItemDone, OpenHold, free-ItemDone, held-ItemDone}

module _ {B : Type 0} ⦃env : Env⦄ ⦃sched : Schedule B⦄ ⦃api : BillingAdapter B⦄
    (alone : Alone sched) (job : ItemBilling) (ledger : Ledger api) (acct : Text) (n : ℕ) where
  -- What happens after the hold is taken counts from before it.
  ItemDone-from :
      (w v : World B) (p : Result ResultItem × World B)
      → ledger.balance acct v.billing ≡ ledger.balance acct w.billing
      → v.log ≡ w.log
      → ItemDone alone job ledger acct n v p
      → ItemDone alone job ledger acct n w p
  ItemDone-from w v (failure k, u) same logged (quiet, kept, rows) =
      (quiet, kept ∙ same, rows ∙ logged)
  ItemDone-from w v (success res, u) same logged (quiet, paid, (row, keyed, rows), granted) = (
    quiet,
    paid ∙ ap (debit job.agent.billing_ref acct (item_charge job.resolved.pricing)) same,
    (row, keyed, rows ∙ ap (λ l. row ∷ l) logged),
    granted,
  )

  -- What taking a hold leaves: no hold, or the one of the item.
  abbrev TookHold : World B → Result AuthorizeResult × World B → Type 0
  TookHold w (failure k, v) =
      ledger.Quiet n job.agent.billing_ref v.billing
      × (ledger.balance acct v.billing ≡ ledger.balance acct w.billing)
      × (v.log ≡ w.log)
  TookHold w (success auth, v) =
      OpenHold alone job ledger acct n auth.billing_id v
      × (text_eq auth.billing_id [] ≡ false)
      × (ledger.balance acct v.billing ≡ ledger.balance acct w.billing)
      × (v.log ≡ w.log)

  authorize_billing-TookHold :
      (w : World B)
      → ledger.Quiet (suc n) job.agent.billing_ref w.billing
      → text_eq job.derived_key [] ≡ false
      → TookHold w (authorize_billing (billing_resolution job) w)
  unfolding authorize_billing authorize_request
  authorize_billing-TookHold w quiet named =
      go (approval_verdict (api.authorize req w.billing).0) refl
    where
      req : AuthorizeRequest
      req = authorize_request (billing_resolution job)

      after : World B
      after = record w { billing = (api.authorize req w.billing).1 }

      go :
          (r : Result AuthorizeResult)
          → approval_verdict (api.authorize req w.billing).0 ≡ r
          → TookHold w (r, after)
      go (failure k) e =
          let (still, kept) = ledger.refuses acct n req w.billing k quiet named e in
          (still, kept, refl)
      go (success r) e =
          let (hold, id, kept) = ledger.holds acct n req w.billing r quiet named e in
          (hold, id, kept, refl)

  take_hold-TookHold :
      (w : World B)
      → ledger.Quiet (suc n) job.agent.billing_ref w.billing
      → text_eq job.derived_key [] ≡ false
      → is_free job.resolved.pricing ≡ false
      → TookHold w (take_hold job w)
  unfolding take_hold resolve_billing
  take_hold-TookHold w quiet named paid = elim (Bool-cases (text_eq job.agent.billing_ref [])) [
    | inl unregistered ↦
        rw (paid, take_hold, unregistered, resolve_billing) (ledger.weaken n _ _ quiet, refl, refl)
    | inr registered ↦ elim (Option-cases (check_account_active job.agent.billing_ref)) [
      | inr (k, e) ↦
          rw (paid, take_hold, registered, e, resolve_billing)
            (ledger.weaken n _ _ quiet, refl, refl)
      | inl active ↦
          rw (paid, take_hold, registered, active, resolve_billing)
            (authorize_billing-TookHold w quiet named)
    ]
  ]

  after_hold :
      (w : World B) (p : Result AuthorizeResult × World B)
      → take_hold job w ≡ p
      → is_free job.resolved.pricing ≡ false
      → find_row job.derived_key w.log ≡ none
      → TookHold w p
      → ItemDone alone job ledger acct n w (run_batch_item_billing job w)
  unfolding run_batch_item_billing
  after_hold w (failure k, v) e paid new took = rw (run_batch_item_billing, e) took
  after_hold w (success auth, v) e paid new (hold, named, same, logged) =
      rw (run_batch_item_billing, e)
        (ItemDone-from w v _ same logged
          (held-ItemDone alone job ledger acct n v auth.billing_id named hold paid (rw logged new)))

  before_free :
      (w : World B)
      → is_free job.resolved.pricing ≡ true
      → run_batch_item_billing job w ≡ run_under_hold job [] w
  unfolding run_batch_item_billing take_hold
  before_free w free =
      let taken : take_hold job w ≡ (success no_hold, w) = rw (free, take_hold) refl in
      ap (under_hold job) taken

  pub run_batch_item_billing-ItemDone :
      (w : World B)
      → ledger.Quiet (suc n) job.agent.billing_ref w.billing
      → text_eq job.derived_key [] ≡ false
      → find_row job.derived_key w.log ≡ none
      → ItemDone alone job ledger acct n w (run_batch_item_billing job w)
  run_batch_item_billing-ItemDone w quiet named new =
      elim (Bool-cases (is_free job.resolved.pricing)) [
        | inl free ↦
            rw (before_free w free)
              (free-ItemDone alone job ledger acct n w (ledger.weaken n _ _ quiet) free new)
        | inr paid ↦ after_hold w _ refl paid new (take_hold-TookHold w quiet named paid)
      ]
