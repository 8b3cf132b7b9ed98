-- ===== src/Billing/InMemory/KeyedRuns.antt =====
-- src/exchange/internal/billing/inmemory_adapter.go: any sequence of calls keeps every pending hold
-- the live hold of its key.
use reference_implementation.Common.{
  Sha256, ◌≡◌, inl, inr, refl, List, [], ◌∷◌, Text, ℤ, Option-cases, Bool-cases, arith, lookup, Map,
}
use reference_implementation.Billing.Types.{Amount, AmountArg}
use reference_implementation.Billing.InMemory.State.{
  Adapter, op_already_done, op_record, op_release, op_refund, new_adapter,
}
use reference_implementation.Billing.InMemory.Holds.{settle, record_tx, release}
use reference_implementation.Billing.InMemory.Funds.{
  refund, refund_as, validate_refund, apply_refund, refuse, against, Refundable, credit,
  ensure_agent_account,
}
use reference_implementation.Billing.InMemory.Step.{
  Call, authorize_call, record_call, release_call, refund_call, credit_call, ensure_call, step, run,
}
use reference_implementation.Billing.InMemory.Keyed.{
  IsKeyed, IsKeyed-same, mark_op_done-IsKeyed, free_auth-IsKeyed, authorize-IsKeyed,
}

module _ ⦃sha : Sha256⦄ where
  record_tx-IsKeyed :
      (id : Text) (q : ℤ) (key : Text) (a : Adapter) → IsKeyed a → IsKeyed (record_tx id q key a).1
  unfolding record_tx settle
  record_tx-IsKeyed id q key a h = elim (Bool-cases (op_already_done id op_record key a)) [
    | inl done ↦ rw (done, record_tx) h
    | inr first ↦ elim (Option-cases (lookup id a.reserved)) [
      | inl missing ↦ rw (first, missing, record_tx) h
      | inr (res, e) ↦ elim (Option-cases (a.balances res.billing_ref)) [
        | inl gone ↦ rw (first, e, gone, record_tx, settle) h
        | inr (bal, f) ↦
            rw (first, e, f, record_tx, settle)
              (mark_op_done-IsKeyed id op_record key _ (free_auth-IsKeyed id res a _ e refl refl h))
      ]
    ]
  ]

  release-IsKeyed : (id key : Text) (a : Adapter) → IsKeyed a → IsKeyed (release id key a).1
  unfolding release
  release-IsKeyed id key a h = elim (Bool-cases (op_already_done id op_release key a)) [
    | inl done ↦ rw (done, release) h
    | inr first ↦ elim (Option-cases (lookup id a.reserved)) [
      | inl missing ↦ rw (first, missing, release) h
      | inr (res, e) ↦
          rw (first, e, release)
            (mark_op_done-IsKeyed id op_release key _ (free_auth-IsKeyed id res a _ e refl refl h))
    ]
  ]

  refund_as-IsKeyed :
      (r : Refundable) (id : Text) (amount : AmountArg) (reason key : Text) (a : Adapter)
      → IsKeyed a
      → IsKeyed (refund_as r id amount reason key a).1
  unfolding apply_refund
  refund_as-IsKeyed (refuse e) id amount reason key a h = h
  refund_as-IsKeyed (against rec v) id amount reason key a h =
      elim (Option-cases (a.balances rec.billing_ref)) [
        | inl gone ↦ rw (gone, apply_refund) h
        | inr (bal, f) ↦ rw (f, apply_refund) (mark_op_done-IsKeyed id op_refund key _ h)
      ]

  refund-IsKeyed :
      (id : Text) (amount : AmountArg) (reason key : Text) (a : Adapter)
      → IsKeyed a
      → IsKeyed (refund id amount reason key a).1
  unfolding refund
  refund-IsKeyed id amount reason key a h = elim (Bool-cases (op_already_done id op_refund key a)) [
    | inl done ↦ rw (done, refund) h
    | inr first ↦
        rw (first, refund)
          (refund_as-IsKeyed (validate_refund id amount a) id amount reason key a h)
  ]

  credit-same :
      (ref : Text) (amount : AmountArg) (key : Text) (a : Adapter)
      → ((credit ref amount key a).1.reserved ≡ a.reserved)
        × ((credit ref amount key a).1.auth_seen ≡ a.auth_seen)
  unfolding credit
  credit-same ref amount key a = ground arith

  ensure_agent_account-same :
      (ref : Text) (a : Adapter)
      → ((ensure_agent_account ref a).1.reserved ≡ a.reserved)
        × ((ensure_agent_account ref a).1.auth_seen ≡ a.auth_seen)
  unfolding ensure_agent_account
  ensure_agent_account-same ref a = ground arith

  step-IsKeyed : (c : Call) (a : Adapter) → IsKeyed a → IsKeyed (step c a)
  unfolding step
  step-IsKeyed (authorize_call req) a h = authorize-IsKeyed req a h
  step-IsKeyed (record_call id q key) a h = record_tx-IsKeyed id q key a h
  step-IsKeyed (release_call id key) a h = release-IsKeyed id key a h
  step-IsKeyed (refund_call id amount reason key) a h = refund-IsKeyed id amount reason key a h
  step-IsKeyed (credit_call ref amount key) a h =
      let (holds, keys) = credit-same ref amount key a in
      IsKeyed-same a (credit ref amount key a).1 holds keys h
  step-IsKeyed (ensure_call ref) a h =
      let (holds, keys) = ensure_agent_account-same ref a in
      IsKeyed-same a (ensure_agent_account ref a).1 holds keys h

  pub run-IsKeyed : (cs : List Call) (a : Adapter) → IsKeyed a → IsKeyed (run cs a)
  unfolding run
  run-IsKeyed [] a h = h
  run-IsKeyed (c ∷ cs) a h = run-IsKeyed cs (step c a) (step-IsKeyed c a h)

  pub new_adapter-IsKeyed :
      (balances : Map Amount) (quotas : Map ℤ) (id_prefix : Text)
      → IsKeyed (new_adapter balances quotas id_prefix)
  unfolding new_adapter
  new_adapter-IsKeyed balances quotas id_prefix = (tt, λ id r e named. absurd (cc))
