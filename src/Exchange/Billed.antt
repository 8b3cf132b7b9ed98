-- ===== src/Exchange/Billed.antt =====
-- src/exchange/internal/service/exchange_batch.go: the items of a batch and the ledger, together.
use reference_implementation.Common.{
  ℕ, zero, suc, ◌≡◌, ◌≢◌, ◌⊎◌, inl, inr, refl, sym, ap, ◌∙◌, Option, none, some, List, [], ◌∷◌,
  ◌++◌, Text, length, ℤ, pos, Bool-cases, Option-cases,
}
use mathlib.Core.List.{append_assoc, append-nil}
use mathlib.Core.Path.{subst}
use reference_implementation.Exchange.Kinds.{
  denial_reason_for_kind, Kind, Result, failure, success, is_idempotent_replay,
}
use reference_implementation.Exchange.Messages.{Item, Request, ResultItem, Agent, Binding, Response}
use reference_implementation.Exchange.Deps.{BillingAdapter, World, Env, Schedule}
use reference_implementation.Exchange.Rows.{find_row, derived_item_key}
use reference_implementation.Exchange.Responses.{batch_denial_result}
use reference_implementation.Exchange.Replay.{serve_lost_claim}
use reference_implementation.Exchange.Batch.{
  BatchOutcome, nothing_run, add_result, add_denied, abort_batch, recovered_or, run_batch_items,
}
use reference_implementation.Exchange.Envelope.{AreComplete}
use reference_implementation.Exchange.Runs.{run_items_from-induction, ran}
use reference_implementation.Exchange.Ledger.{Ledger, debit, Alone}
use reference_implementation.Exchange.Reads.{serve_lost_claim-Unchanged}
use reference_implementation.Exchange.UnderHold.{debit-zero}
use reference_implementation.Exchange.Bills.{bill, cost_if, bill-append, debit-add}
use reference_implementation.Exchange.Debits.{Step, execute_batch_item-Step}
use reference_implementation.Exchange.Logged.{Logged, Logged-next, Logged-new, Logged-later}

denied-free :
    ⦃env : Env⦄
    → (item : Item) (k : Kind) (denied : ResultItem) → batch_denial_result item k ≡ some denied
    → cost_if item denied ≡ pos 0
unfolding batch_denial_result
denied-free ⦃env⦄ item k denied h = elim (Option-cases (denial_reason_for_kind k)) [
  | inl missing ↦ absurd (cc (rw (missing, batch_denial_result) at h))
  | inr (reason, e) ↦
      let given : denied.denial_reason ≡ some reason = cc (rw (e, batch_denial_result) at h) in
      rw (cost_if, given) refl
]

module _ {B : Type 0} ⦃env : Env⦄ ⦃sched : Schedule B⦄ ⦃api : BillingAdapter B⦄
    (alone : Alone sched) (ledger : Ledger api) (acct : Text) (req : Request) (agent : Agent) where
  abbrev pub Settled : ℤ → Result BatchOutcome × World B → Type 0
  Settled start (failure k, v) = ledger.Quiet 0 agent.billing_ref v.billing
  Settled start (success out, v) =
      ledger.Quiet 0 agent.billing_ref v.billing
      × ((out.recovered ≢ none)
          ⊎ (ledger.balance acct v.billing
              ≡ debit agent.billing_ref acct (bill req.items out.results) start))

  -- The invariant of the loop, from the balance that it started with.
  record Billed (start : ℤ) (items : List Item) (out : BatchOutcome) (w : World B) : Type 0 where
    done : List Item
    seen : List Text
    split : done ++ items ≡ req.items
    aligned : length done ≡ length out.results
    complete : AreComplete seen items
    logged : Logged req seen w.log
    quiet : ledger.Quiet (length items) agent.billing_ref w.billing
    paid :
        ledger.balance acct w.billing ≡ debit agent.billing_ref acct (bill done out.results) start

  length-snoc : {A : Type 0} (xs : List A) (x : A) → length (xs ++ x ∷ []) ≡ suc (length xs)
  length-snoc [] x = refl
  length-snoc (y ∷ xs) x = ap suc (length-snoc xs x)

  Billed-next :
      (start : ℤ) (item : Item) (items : List Item) (out out' : BatchOutcome) (w v : World B)
      (res : ResultItem)
      → (h : Billed start (item ∷ items) out w) → out'.results ≡ out.results ++ res ∷ []
      → ledger.Quiet (length items) agent.billing_ref v.billing
      → ledger.balance acct v.billing
        ≡ debit agent.billing_ref acct (cost_if item res) (ledger.balance acct w.billing)
      → Logged req (item.offer.offer_id ∷ h.seen) v.log
      → Billed start items out' v
  Billed-next start item items out out' w v res h grown quiet paid logged = record {
    done = h.done ++ item ∷ [];
    seen = item.offer.offer_id ∷ h.seen;
    split = append_assoc h.done (item ∷ []) items ∙ h.split;
    aligned =
        length-snoc h.done item
        ∙ ap suc h.aligned
        ∙ sym (ap length grown ∙ length-snoc out.results res);
    complete = h.complete.4;
    logged = logged;
    quiet = quiet;
    paid =
        paid
        ∙ ap (debit agent.billing_ref acct (cost_if item res)) h.paid
        ∙ debit-add agent.billing_ref acct (bill h.done out.results) (cost_if item res) start
        ∙ ap (λ c. debit agent.billing_ref acct c start)
            (sym (
              ap (bill (h.done ++ item ∷ [])) grown
              ∙ bill-append h.done item [] out.results res h.aligned));
  }

  weaken_all :
      (n : ℕ) (b : B) → ledger.Quiet n agent.billing_ref b → ledger.Quiet 0 agent.billing_ref b
  weaken_all zero b h = h
  weaken_all (suc n) b h = weaken_all n b (ledger.weaken n agent.billing_ref b h)

  abort_batch-Settled :
      (start : ℤ) (binding : Binding) (k : Kind) (w : World B)
      → ledger.Quiet 0 agent.billing_ref w.billing
      → Settled start (abort_batch req agent binding k w)
  unfolding abort_batch
  abort_batch-Settled start binding k w quiet = elim (Bool-cases (is_idempotent_replay k)) [
    | inr final ↦ rw (final, abort_batch) quiet
    | inl replayed ↦
        rw (replayed, abort_batch)
          (go (serve_lost_claim req agent.id binding w).0 (
            subst (ledger.Quiet 0 agent.billing_ref)
              (sym (serve_lost_claim-Unchanged alone req binding agent.id w).billing) quiet))
  ]
    where
      after : World B
      after = (serve_lost_claim req agent.id binding w).1

      go :
          (r : Result (Option Response))
          → ledger.Quiet 0 agent.billing_ref after.billing
          → Settled start (recovered_or k r, after)
      go (failure j) h = h
      go (success none) h = h
      go (success (some resp)) h = (h, inl (λ e. cc))

  bought-Billed :
      (start : ℤ) (item : Item) (items : List Item) (out : BatchOutcome) (w v : World B)
      (res : ResultItem) (thumb : Text)
      → Billed start (item ∷ items) out w
      → Step alone ledger acct req agent (length items) item w (success (res, thumb), v)
      → Billed start items (add_result res thumb out) v
  unfolding add_result
  bought-Billed start item items out w v res thumb h (quiet, paid, (row, keyed, rows), granted) =
      Billed-next start item items out (add_result res thumb out) w v res h refl quiet
        (rw (cost_if, granted) paid)
        (rw rows (Logged-next req item.offer.offer_id h.seen row w.log keyed h.logged))

  denied-Billed :
      (start : ℤ) (item : Item) (items : List Item) (out : BatchOutcome) (w v : World B) (k : Kind)
      (denied : ResultItem)
      → Billed start (item ∷ items) out w
      → batch_denial_result item k ≡ some denied
      → Step alone ledger acct req agent (length items) item w (failure k, v)
      → Billed start items (add_denied denied out) v
  unfolding add_denied
  denied-Billed start item items out w v k denied h e (quiet, kept, rows) =
      Billed-next start item items out (add_denied denied out) w v denied h refl quiet
        (kept ∙ sym (rw (denied-free item k denied e) (debit-zero agent.billing_ref acct _)))
        (Logged-later req item.offer.offer_id h.seen w.log v.log rows h.logged)

  ran-Step :
      (start : ℤ) (binding : Binding) (item : Item) (items : List Item) (out : BatchOutcome)
      (w : World B) (r : Result (ResultItem × Text))
      → Billed start (item ∷ items) out w
      → (ran req agent binding item w).0 ≡ r
      → Step alone ledger acct req agent (length items) item w (r, (ran req agent binding item w).1)
  ran-Step start binding item items out w r h e =
      subst
        (λ x.
          Step alone ledger acct req agent (length items) item w
            (x, (ran req agent binding item w).1))
        e
        (execute_batch_item-Step alone ledger acct req agent (length items) item w h.quiet
          (Logged-new req item.offer.offer_id h.seen w.log h.logged h.complete.3))

  pub run_batch_items-Settled :
      (binding : Binding) (w : World B)
      → AreComplete [] req.items
      → ((id : Text) → find_row (derived_item_key req.idempotency_key id) w.log ≡ none)
      → ledger.Quiet (length req.items) agent.billing_ref w.billing
      → Settled (ledger.balance acct w.billing) (run_batch_items req agent binding w)
  unfolding run_batch_items
  run_batch_items-Settled binding w complete new quiet =
      let start = ledger.balance acct w.billing in
      run_items_from-induction req agent binding (Billed start) (Settled start)
        (λ out v h. (
          h.quiet,
          inr (
              h.paid
              ∙ ap (λ l. debit agent.billing_ref acct (bill l out.results) start)
                  (sym (append-nil h.done) ∙ h.split)),
        ))
        (λ item items out v res thumb h e.
          bought-Billed start item items out v _ res thumb h
            (ran-Step start binding item items out v _ h e))
        (λ item items out v k denied h e f.
          denied-Billed start item items out v _ k denied h f
            (ran-Step start binding item items out v _ h e))
        (λ item items out v k h e.
          abort_batch-Settled start binding k _ (
            weaken_all (length items) _
              (ran-Step start binding item items out v (failure k) h e).0))
        req.items nothing_run w
        (record {
          done = [];
          seen = [];
          split = refl;
          aligned = refl;
          complete = complete;
          logged = λ id. inl (new id);
          quiet = quiet;
          paid = sym (debit-zero agent.billing_ref acct start);
        })
