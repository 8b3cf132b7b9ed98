-- ===== src/Exchange/UnderHold.antt =====
-- src/exchange/internal/service/exchange_batch.go: what an item does once its hold is taken.
use reference_implementation.Common.{
  ℕ, suc, ◌≡◌, inl, inr, refl, sym, ap, ◌∙◌, false, true, Option, none, some, [], ◌∷◌, Text,
  text_eq, ℤ, pos, ◌*ℤ◌, arith, Bool-cases, Option-cases, int_laws,
}
use mathlib.Core.Path.{subst}
use reference_implementation.Billing.Types.{total_charge}
use reference_implementation.Exchange.Kinds.{Kind, Result, failure, success, is_idempotent_replay}
use reference_implementation.Exchange.Messages.{ResultItem, PricingDoc, SignedUrl}
use reference_implementation.Exchange.Deps.{BillingAdapter, Row, World, Env, Schedule}
use reference_implementation.Exchange.Offers.{is_free}
use reference_implementation.Exchange.Rows.{find_row, insert_all}
use reference_implementation.Exchange.Charges.{authorize_request, release_hold}
use reference_implementation.Exchange.Items.{
  ItemBilling, item_charge, offer_evidence, row_of, build_batch_result_item,
}
use reference_implementation.Exchange.Pipeline.{
  drawn, billing_resolution, persist_transaction, undo_hold, confirm_hold, run_under_hold,
}
use reference_implementation.Exchange.ItemCases.{planned_result, persisted, run_under_hold-cases}
use reference_implementation.Exchange.Ledger.{Ledger, debit, Alone}

free-charge : (p : PricingDoc) → is_free p ≡ true → item_charge p ≡ pos 0
unfolding is_free item_charge ◌*ℤ◌
free-charge p h = ground arith

pub debit-zero : (ref acct : Text) (x : ℤ) → debit ref acct (pos 0) x ≡ x
debit-zero ref acct x = grind int_laws

abbrev or_kind : Kind → Option Kind → Kind
or_kind j none = j
or_kind j (some k) = k

module _ {B : Type 0} ⦃env : Env⦄ ⦃sched : Schedule B⦄ ⦃api : BillingAdapter B⦄
    (alone : Alone sched) (job : ItemBilling) where
  -- The commit adds the item's row to the log, or changes nothing; it loses no key.
  abbrev Persisted : World B → Option Kind × World B → Type 0
  Persisted w (none, v) =
      (v.billing ≡ w.billing)
      × ((row : Row) × (row.idempotency_key ≡ job.derived_key) × (v.log ≡ row ∷ w.log))
  Persisted w (some k, v) =
      (v.billing ≡ w.billing) × (v.log ≡ w.log) × (is_idempotent_replay k ≡ false)

  persist_transaction-Persisted :
      (signed : SignedUrl) (id tx payload : Text) (w : World B)
      → find_row job.derived_key w.log ≡ none
      → Persisted w (persist_transaction job signed id tx payload w)
  unfolding persist_transaction insert_all row_of
  persist_transaction-Persisted signed id tx payload w new =
      elim (Option-cases (offer_evidence job signed tx)) [
        | inl missing ↦ rw (missing, persist_transaction) (refl, refl, refl)
        | inr (evidence, e) ↦ elim (Bool-cases (sched.down (suc w.clock))) [
          | inl fails ↦ rw (e, fails, alone, persist_transaction, insert_all) (refl, refl, refl)
          | inr works ↦
              rw (e, works, alone, new, persist_transaction, insert_all)
                (
                  ap (λ v. v.billing) (alone _ _),
                  (
                    row_of job signed id tx payload,
                    refl,
                    ap (λ v. row_of job signed id tx payload ∷ v.log) (alone _ _),
                  ),
                )
        ]
      ]

  module _ (ledger : Ledger api) (acct : Text) (n : ℕ) where
    -- What an item that ends leaves: no open hold, and either its charge and its row, or neither.
    abbrev pub ItemDone : World B → Result ResultItem × World B → Type 0
    ItemDone w (failure k, v) =
        ledger.Quiet n job.agent.billing_ref v.billing
        × (ledger.balance acct v.billing ≡ ledger.balance acct w.billing)
        × (v.log ≡ w.log)
    ItemDone w (success res, v) =
        ledger.Quiet n job.agent.billing_ref v.billing
        × (ledger.balance acct v.billing
            ≡ debit job.agent.billing_ref acct (item_charge job.resolved.pricing)
                (ledger.balance acct w.billing))
        × ((row : Row) × (row.idempotency_key ≡ job.derived_key) × (v.log ≡ row ∷ w.log))
        × (res.denial_reason ≡ none)

    -- An item that ends after its commit, given what the end makes of the world.
    committed-ItemDone :
        (w v u : World B) (res : ResultItem) (row : Row)
        → ledger.Quiet n job.agent.billing_ref u.billing
        → ledger.balance acct u.billing
          ≡ debit job.agent.billing_ref acct
              (item_charge job.resolved.pricing)
              (ledger.balance acct w.billing)
        → row.idempotency_key ≡ job.derived_key
        → v.log ≡ row ∷ w.log
        → u.log ≡ v.log
        → res.denial_reason ≡ none
        → ItemDone w (success res, u)
    committed-ItemDone w v u res row quiet paid same logged kept granted =
        (quiet, paid, (row, same, kept ∙ logged), granted)

    undone-free :
        (w : World B) (k : Kind) (p : Option Kind × World B)
        → ledger.Quiet n job.agent.billing_ref w.billing
        → p.0 ≡ some k
        → Persisted w p
        → ItemDone w (failure k, undo_hold k [] job.derived_key p.1)
    unfolding undo_hold release_hold text_eq
    undone-free w k (none, v) quiet e h = absurd (cc)
    undone-free w k (some j, v) quiet e (same, logged, other) =
        rw (← ap (or_kind j) e, other, undo_hold)
          (
            subst (ledger.Quiet n job.agent.billing_ref) (sym same) quiet,
            ap (ledger.balance acct) same,
            logged,
          )

    confirmed-free :
        (w : World B) (res : ResultItem) (p : Option Kind × World B)
        → ledger.Quiet n job.agent.billing_ref w.billing
        → is_free job.resolved.pricing ≡ true
        → res.denial_reason ≡ none
        → p.0 ≡ none
        → Persisted w p
        → ItemDone w (success res, confirm_hold job [] p.1)
    unfolding confirm_hold
    confirmed-free w res (some j, v) quiet free granted e h = absurd (cc)
    confirmed-free w res (none, v) quiet free granted e (same, (row, keyed, logged)) =
        rw (free, confirm_hold)
          (committed-ItemDone w v v res row
            (subst (ledger.Quiet n job.agent.billing_ref) (sym same) quiet)
            (ap (ledger.balance acct) same
              ∙ sym (
                  rw (free-charge job.resolved.pricing free)
                    (debit-zero job.agent.billing_ref acct _)))
            keyed logged refl granted)

    pub free-ItemDone :
        (w : World B)
        → ledger.Quiet n job.agent.billing_ref w.billing
        → is_free job.resolved.pricing ≡ true
        → find_row job.derived_key w.log ≡ none
        → ItemDone w (run_under_hold job [] w)
    unfolding release_hold text_eq build_batch_result_item
    free-ItemDone w quiet free new =
        run_under_hold-cases job [] (ItemDone w) w (λ k. (quiet, refl, refl))
          (λ k. (quiet, refl, refl))
          (λ k signed payload e.
            undone-free w k (persisted job [] signed payload w) quiet e
              (persist_transaction-Persisted signed [] _ payload (drawn w) new))
          (λ signed payload m e.
            confirmed-free w (planned_result job [] signed w) (persisted job [] signed payload w)
              quiet free refl e (persist_transaction-Persisted signed [] _ payload (drawn w) new))

    abbrev pub OpenHold : Text → World B → Type 0
    OpenHold id w = ledger.Open n (authorize_request (billing_resolution job)) id w.billing

    released-ItemDone :
        (w v : World B) (id : Text) (k : Kind)
        → text_eq id [] ≡ false
        → OpenHold id w
        → v.billing ≡ w.billing
        → v.log ≡ w.log
        → ItemDone w (failure k, release_hold id job.derived_key v)
    unfolding release_hold authorize_request
    released-ItemDone w v id k named hold same logged =
        rw (named, release_hold, same)
          (let (quiet, kept) =
              ledger.releases acct n (authorize_request (billing_resolution job)) id w.billing
                hold in
            (quiet, kept, logged))

    undone-held :
        (w : World B) (id : Text) (k : Kind) (p : Option Kind × World B)
        → text_eq id [] ≡ false
        → OpenHold id w
        → p.0 ≡ some k
        → Persisted w p
        → ItemDone w (failure k, undo_hold k id job.derived_key p.1)
    unfolding undo_hold
    undone-held w id k (none, v) named hold e h = absurd (cc)
    undone-held w id k (some j, v) named hold e (same, logged, other) =
        rw (← ap (or_kind j) e, other, undo_hold)
          (released-ItemDone w v id j named hold same logged)

    confirmed-held :
        (w : World B) (id : Text) (res : ResultItem) (p : Option Kind × World B)
        → OpenHold id w
        → is_free job.resolved.pricing ≡ false
        → res.denial_reason ≡ none
        → p.0 ≡ none
        → Persisted w p
        → ItemDone w (success res, confirm_hold job id p.1)
    unfolding confirm_hold authorize_request item_charge total_charge
    confirmed-held w id res (some j, v) hold paid granted e h = absurd (cc)
    confirmed-held w id res (none, v) hold paid granted e (same, (row, keyed, logged)) =
        let (quiet, charged) =
          ledger.charges acct n (authorize_request (billing_resolution job)) id
            job.resolved.pricing.est_qty w.billing hold in
        rw (paid, confirm_hold, same) (quiet, charged, (row, keyed, logged), granted)

    pub held-ItemDone :
        (w : World B) (id : Text)
        → text_eq id [] ≡ false
        → OpenHold id w
        → is_free job.resolved.pricing ≡ false
        → find_row job.derived_key w.log ≡ none
        → ItemDone w (run_under_hold job id w)
    unfolding build_batch_result_item
    held-ItemDone w id named hold paid new =
        run_under_hold-cases job id (ItemDone w) w
          (λ k. released-ItemDone w w id k named hold refl refl)
          (λ k. released-ItemDone w (drawn w) id k named hold refl refl)
          (λ k signed payload e.
            undone-held w id k (persisted job id signed payload w) named hold e
              (persist_transaction-Persisted signed id _ payload (drawn w) new))
          (λ signed payload m e.
            confirmed-held w id (planned_result job id signed w) (persisted job id signed payload w)
              hold paid refl e (persist_transaction-Persisted signed id _ payload (drawn w) new))
