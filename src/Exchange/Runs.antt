-- ===== src/Exchange/Runs.antt =====
-- src/exchange/internal/service/exchange_batch.go: what holds of the items' loop when it holds of each
-- item.
use reference_implementation.Common.{◌≡◌, inl, inr, some, List, [], ◌∷◌, Text, Option-cases}
use reference_implementation.Exchange.Kinds.{Kind, Result, failure, success, Result-cases}
use reference_implementation.Exchange.Messages.{Item, Request, ResultItem, Agent, Binding}
use reference_implementation.Exchange.Deps.{BillingAdapter, World, Env, Schedule}
use reference_implementation.Exchange.Pipeline.{execute_batch_item}
use reference_implementation.Exchange.Responses.{batch_denial_result}
use reference_implementation.Exchange.Batch.{
  BatchOutcome, add_result, add_denied, abort_batch, run_items_from,
}

module _ {B : Type 0} ⦃env : Env⦄ ⦃sched : Schedule B⦄ ⦃api : BillingAdapter B⦄ (req : Request)
    (agent : Agent) (binding : Binding) where
  abbrev pub ran : Item → World B → Result (ResultItem × Text) × World B
  ran item w = execute_batch_item req item agent w

  -- An invariant of the loop gives what it promises of the end and of an abort.
  pub run_items_from-induction {ℓ ℓ'} :
      (I : List Item → BatchOutcome → World B → Type ℓ)
      (P : Result BatchOutcome × World B → Type ℓ')
      → ((out : BatchOutcome) (w : World B) → I [] out w → P (success out, w))
      → ((item : Item) (items : List Item) (out : BatchOutcome) (w : World B) (res : ResultItem)
            (thumb : Text)
          → I (item ∷ items) out w
          → (ran item w).0 ≡ success (res, thumb)
          → I items (add_result res thumb out) (ran item w).1)
      → ((item : Item) (items : List Item) (out : BatchOutcome) (w : World B) (k : Kind)
            (denied : ResultItem)
          → I (item ∷ items) out w
          → (ran item w).0 ≡ failure k
          → batch_denial_result item k ≡ some denied
          → I items (add_denied denied out) (ran item w).1)
      → ((item : Item) (items : List Item) (out : BatchOutcome) (w : World B) (k : Kind)
          → I (item ∷ items) out w
          → (ran item w).0 ≡ failure k
          → P (abort_batch req agent binding k (ran item w).1))
      → (items : List Item) (out : BatchOutcome) (w : World B) → I items out w
      → P (run_items_from req agent binding items out w)
  unfolding run_items_from
  run_items_from-induction I P ends bought denies aborts [] out w h = ends out w h
  run_items_from-induction I P ends bought denies aborts (item ∷ items) out w h =
      elim (Result-cases (ran item w).0) [
        | inr ((res, thumb), e) ↦
            rw (e, run_items_from)
              (run_items_from-induction I P ends bought denies aborts items
                (add_result res thumb out) (ran item w).1 (bought item items out w res thumb h e))
        | inl (k, e) ↦ elim (Option-cases (batch_denial_result item k)) [
          | inl final ↦ rw (e, final, run_items_from) (aborts item items out w k h e)
          | inr (denied, f) ↦
              rw (e, f, run_items_from)
                (run_items_from-induction I P ends bought denies aborts items
                  (add_denied denied out) (ran item w).1 (denies item items out w k denied h e f))
        ]
      ]
