-- ===== src/Exchange/Answers.antt =====
-- src/exchange/internal/service/exchange_batch.go: a batch answers each of its items, in order.
use reference_implementation.Common.{
  ◌≡◌, ◌≢◌, ◌⊎◌, inl, inr, refl, sym, ap, ◌∙◌, Option, none, some, List, [], ◌∷◌, ◌++◌, Text,
  Option-cases, Bool-cases,
}
use mathlib.Core.List.{append_assoc, append-nil}
use mathlib.Core.Path.{subst}
use reference_implementation.Billing.Types.{AuthorizeResult}
use reference_implementation.Exchange.Kinds.{
  Kind, Result, failure, success, is_idempotent_replay, denial_reason_for_kind,
}
use reference_implementation.Exchange.Messages.{Item, Request, ResultItem, Agent, Binding, Response}
use reference_implementation.Exchange.Deps.{BillingAdapter, World, Env, Schedule}
use reference_implementation.Exchange.Items.{ItemBilling, build_batch_result_item}
use reference_implementation.Exchange.Pipeline.{
  under_hold, take_hold, run_batch_item_billing, admit_item, execute_batch_item, bound_to,
}
use reference_implementation.Exchange.Responses.{batch_denial_result}
use reference_implementation.Exchange.Replay.{serve_lost_claim}
use reference_implementation.Exchange.Batch.{
  BatchOutcome, nothing_run, add_result, add_denied, abort_batch, recovered_or, run_batch_items,
}
use reference_implementation.Exchange.Runs.{run_items_from-induction}
use reference_implementation.Exchange.ItemCases.{
  run_under_hold-cases, Admitted, admit_item-Admitted,
}

abbrev pub offer_ids : List ResultItem → List Text
offer_ids [] = []
offer_ids (r ∷ rs) = r.offer_id ∷ offer_ids rs

abbrev pub item_ids : List Item → List Text
item_ids [] = []
item_ids (i ∷ is) = i.offer.offer_id ∷ item_ids is

offer_ids-append :
    (xs : List ResultItem) (r : ResultItem)
    → offer_ids (xs ++ r ∷ []) ≡ offer_ids xs ++ r.offer_id ∷ []
offer_ids-append [] r = refl
offer_ids-append (x ∷ xs) r = ap (λ l. x.offer_id ∷ l) (offer_ids-append xs r)

-- What the loop keeps: the answers so far, and the items to come.
abbrev Answering : List Text → List Item → BatchOutcome → Type 0
Answering all items out = offer_ids out.results ++ item_ids items ≡ all

abbrev AnswersAll : List Text → Result BatchOutcome → Type 0
AnswersAll all (failure k) = Unit
AnswersAll all (success out) = (out.recovered ≢ none) ⊎ (offer_ids out.results ≡ all)

Answering-next :
    (all : List Text) (item : Item) (items : List Item) (rs : List ResultItem) (r : ResultItem)
    → r.offer_id ≡ item.offer.offer_id
    → offer_ids rs ++ item_ids (item ∷ items) ≡ all
    → offer_ids (rs ++ r ∷ []) ++ item_ids items ≡ all
Answering-next all item items rs r same h = rw (offer_ids-append, append_assoc, same) h

abbrev Named : Item → Result ResultItem → Type 0
Named item (failure k) = Unit
Named item (success res) = res.offer_id ≡ item.offer.offer_id

batch_denial_result-named :
    (item : Item) (k : Kind) (denied : ResultItem)
    → batch_denial_result item k ≡ some denied
    → denied.offer_id ≡ item.offer.offer_id
unfolding batch_denial_result
batch_denial_result-named item k denied h = elim (Option-cases (denial_reason_for_kind k)) [
  | inl missing ↦ absurd (cc (rw (missing, batch_denial_result) at h))
  | inr (reason, e) ↦ cc (rw (e, batch_denial_result) at h)
]

abbrev NamedBound : Item → Result (ResultItem × Text) → Type 0
NamedBound item (failure k) = Unit
NamedBound item (success (res, thumb)) = res.offer_id ≡ item.offer.offer_id

bound_to-Named :
    (item : Item) (thumb : Text) (r : Result ResultItem)
    → Named item r
    → NamedBound item (bound_to thumb r)
bound_to-Named item thumb (failure k) h = tt
bound_to-Named item thumb (success res) h = h

NamedBound-of :
    (item : Item) (r : Result (ResultItem × Text)) (res : ResultItem) (thumb : Text)
    → NamedBound item r
    → r ≡ success (res, thumb)
    → res.offer_id ≡ item.offer.offer_id
NamedBound-of item (failure k) res thumb h e = absurd (cc)
NamedBound-of item (success (res', thumb')) res thumb h e = cc

module _ {B : Type 0} ⦃env : Env⦄ ⦃sched : Schedule B⦄ ⦃api : BillingAdapter B⦄ where
  run_batch_item_billing-Named :
      (job : ItemBilling) (w : World B) → Named job.item (run_batch_item_billing job w).0
  unfolding run_batch_item_billing
  run_batch_item_billing-Named job w = go (take_hold job w)
    where
      go : (p : Result AuthorizeResult × World B) → Named job.item (under_hold job p).0
      go (failure k, v) = tt
      go (success auth, v) =
          run_under_hold-cases job auth.billing_id (λ p. Named job.item p.0) v (λ k. tt) (λ k. tt)
            (λ k signed payload f. tt)
            (λ signed payload f g. unfold build_batch_result_item in refl)

  execute_batch_item-Named :
      (req : Request) (item : Item) (agent : Agent) (w : World B)
      → NamedBound item (execute_batch_item req item agent w).0
  unfolding execute_batch_item
  execute_batch_item-Named req item agent w =
      go (admit_item req item agent) refl (admit_item-Admitted req item agent)
    where
      go :
          (r : Result ItemBilling)
          → admit_item req item agent ≡ r
          → Admitted req item agent r
          → NamedBound item (execute_batch_item req item agent w).0
      go (failure k) e h = rw (e, execute_batch_item) tt
      go (success job) e (_, _, _, _, same, _) =
          rw (e, execute_batch_item)
            (bound_to-Named item job.binding.thumbprint _ (
              subst (λ i. Named i (run_batch_item_billing job w).0) (ap (λ j. j.item) same)
                (run_batch_item_billing-Named job w)))

  abort_batch-AnswersAll :
      (all : List Text) (req : Request) (agent : Agent) (binding : Binding) (k : Kind) (w : World B)
      → AnswersAll all (abort_batch req agent binding k w).0
  unfolding abort_batch
  abort_batch-AnswersAll all req agent binding k w = elim (Bool-cases (is_idempotent_replay k)) [
    | inr other ↦ rw (other, abort_batch) tt
    | inl replayed ↦ rw (replayed, abort_batch) (go (serve_lost_claim req agent.id binding w).0)
  ]
    where
      go : (r : Result (Option Response)) → AnswersAll all (recovered_or k r)
      go (failure j) = tt
      go (success none) = tt
      go (success (some resp)) = inl (λ e. cc)

  -- A batch that runs to its end answers every item of the request, denied items included, once and
  -- in the order of the request; a response recovered from a concurrent duplicate is excepted.
  pub run_batch_items_answers :
      (req : Request) (agent : Agent) (binding : Binding) (w : World B) (out : BatchOutcome)
      → (run_batch_items req agent binding w).0 ≡ success out
      → out.recovered ≡ none
      → offer_ids out.results ≡ item_ids req.items
  unfolding run_batch_items
  run_batch_items_answers req agent binding w out ends fresh =
      go (run_batch_items req agent binding w).0 ends (
        run_items_from-induction req agent binding
          (λ items o v. Answering (item_ids req.items) items o)
          (λ p. AnswersAll (item_ids req.items) p.0) (λ o v h. inr (sym (append-nil _) ∙ h))
          (λ item items o v res thumb h e.
            (unfold add_result in
              Answering-next (item_ids req.items) item items o.results res
                (NamedBound-of item _ res thumb (execute_batch_item-Named req item agent v) e) h))
          (λ item items o v k denied h e f.
            (unfold add_denied in
              Answering-next (item_ids req.items) item items o.results denied
                (batch_denial_result-named item k denied f) h))
          (λ item items o v k h e.
            abort_batch-AnswersAll (item_ids req.items) req agent binding k _)
          req.items nothing_run w refl)
    where
      go :
          (r : Result BatchOutcome)
          → r ≡ success out
          → AnswersAll (item_ids req.items) r
          → offer_ids out.results ≡ item_ids req.items
      go (failure k) e h = absurd (cc)
      go (success o) e (inl h) = absurd (h (cc))
      go (success o) e (inr h) = cc
