-- ===== src/Exchange/ItemCases.antt =====
-- src/exchange/internal/service/exchange_batch.go: the ways an item can end, once its hold is taken.
use reference_implementation.Common.{◌≡◌, inl, inr, refl, Option, none, some, Text, ℤ, Option-cases}
use reference_implementation.Exchange.Kinds.{Kind, Result, failure, success, Result-cases}
use reference_implementation.Exchange.Messages.{
  Item, Request, ResultItem, Tenant, ResolvedOffer, Agent, Binding, SignedUrl,
}
use reference_implementation.Exchange.Deps.{BillingAdapter, World, Env, Schedule}
use reference_implementation.Exchange.Offers.{plan_obligation, resolve_offer_for_tx}
use reference_implementation.Exchange.Agents.{authorize_execute}
use reference_implementation.Exchange.Charges.{release_hold}
use reference_implementation.Exchange.Items.{ItemBilling, mint_signed_url, build_batch_result_item}
use reference_implementation.Exchange.Pipeline.{
  drawn, persist_transaction, undo_hold, confirm_hold, commit_item, deliver_item, run_under_hold,
  item_billing, overdue_gate, agent_gate, commission_gate, admit_item,
}

module _ {B : Type 0} ⦃env : Env⦄ ⦃sched : Schedule B⦄ ⦃api : BillingAdapter B⦄ (job : ItemBilling)
    (id : Text) where
  abbrev pub planned_result : SignedUrl → World B → ResultItem
  planned_result signed w =
      build_batch_result_item job.item (env.uuid w.clock) id signed job.resolved.pricing
        (plan_obligation job.tenant job.resolved.pricing)

  abbrev pub persisted : SignedUrl → Text → World B → Option Kind × World B
  persisted signed payload w =
      persist_transaction job signed id (planned_result signed w).transaction_id payload (drawn w)

  -- A property of every way that an item under a hold can end: its URL or its result cannot be made,
  -- the commit fails, or it is committed.
  pub run_under_hold-cases {ℓ} :
      (P : Result ResultItem × World B → Type ℓ) (w : World B)
      → ((k : Kind) → P (failure k, release_hold id job.derived_key w))
      → ((k : Kind) → P (failure k, release_hold id job.derived_key (drawn w)))
      → ((k : Kind) (signed : SignedUrl) (payload : Text)
          → (persisted signed payload w).0 ≡ some k
          → P (failure k, undo_hold k id job.derived_key (persisted signed payload w).1))
      → ((signed : SignedUrl) (payload : Text)
          → env.sdk.marshal_item (planned_result signed w) ≡ some payload
          → (persisted signed payload w).0 ≡ none
          → P (
            success (planned_result signed w),
            confirm_hold job id (persisted signed payload w).1,
          ))
      → P (run_under_hold job id w)
  unfolding run_under_hold deliver_item commit_item build_batch_result_item
  run_under_hold-cases P w unsigned unmarshalled lost committed =
      elim (Result-cases (mint_signed_url job.tenant job.resolved job.binding.thumbprint)) [
        | inl (k, e) ↦ rw (e, run_under_hold) (unsigned k)
        | inr (signed, e) ↦ elim (Option-cases (env.sdk.marshal_item (planned_result signed w))) [
          | inl missing ↦ rw (e, missing, run_under_hold, deliver_item) (unmarshalled Kind.internal)
          | inr (payload, f) ↦ elim (Option-cases (persisted signed payload w).0) [
            | inl fine ↦
                rw (e, f, fine, run_under_hold, deliver_item, commit_item)
                  (committed signed payload f fine)
            | inr (k, g) ↦
                rw (e, f, g, run_under_hold, deliver_item, commit_item) (lost k signed payload g)
          ]
        ]
      ]

module _ ⦃env : Env⦄ where
  -- An admitted item is billed under its own offer, key and agent.
  abbrev pub Admitted : Request → Item → Agent → Result ItemBilling → Type 0
  Admitted req item agent (failure k) = Unit
  Admitted req item agent (success job) =
      (tenant : Tenant) × (resolved : ResolvedOffer) × (binding : Binding) × (override : Option ℤ)
      × (job ≡ item_billing req item agent tenant resolved binding override)
      × (resolve_offer_for_tx item.offer ≡ success resolved)

  pub admit_item-Admitted :
      (req : Request) (item : Item) (agent : Agent)
      → Admitted req item agent (admit_item req item agent)
  unfolding admit_item
  admit_item-Admitted req item agent = elim (Result-cases (resolve_offer_for_tx item.offer)) [
    | inl (k, e) ↦ rw (e, admit_item) tt
    | inr (resolved, e) ↦ elim (Option-cases (env.tenant_by_id resolved.entry.tenant_id)) [
      | inl gone ↦ rw (e, gone, admit_item) tt
      | inr (tenant, f) ↦ elim (Result-cases (authorize_execute req item agent.key tenant)) [
        | inl (k, g) ↦ rw (e, f, admit_item, agent_gate, g) tt
        | inr (binding, g) ↦ elim (Option-cases (overdue_gate tenant.id agent.id)) [
          | inr (k, h) ↦ rw (e, f, admit_item, agent_gate, g, h) tt
          | inl fine ↦
              elim (Option-cases (env.fee_override tenant.id resolved.entry.resource_owner_id)) [
                | inl lost ↦ rw (e, f, admit_item, agent_gate, g, fine, commission_gate, lost) tt
                | inr (override, i) ↦
                    rw (e, f, admit_item, agent_gate, g, fine, commission_gate, i)
                      (tenant, resolved, binding, override, refl, e)
              ]
        ]
      ]
    ]
  ]
