-- ===== src/Billing/InMemory/Marks.antt =====
-- src/exchange/internal/billing/inmemory_adapter.go: an operation key that was marked stays marked.
use reference_implementation.Common.{
  Sha256, ◌≡◌, inl, inr, true, List, [], ◌∷◌, Text, ℤ, Option-cases, Bool-cases, arith, lookup,
  ◌*ℤ◌, leb_ℤ, pos,
}
use reference_implementation.Billing.Types.{Amount, AmountArg, AuthorizeRequest}
use reference_implementation.Billing.InMemory.State.{
  Adapter, Reservation, mark_op_done, op_already_done, op_record, op_release, op_refund, free_auth,
}
use reference_implementation.Billing.InMemory.Holds.{
  authorize, authorize_fresh, authorize_held, reserve, settle, record_tx, release, live_hold,
  money_gate, consume_quota,
}
use reference_implementation.Billing.InMemory.Funds.{
  refund, refund_as, validate_refund, apply_refund, refuse, against, Refundable, credit,
  ensure_agent_account,
}
use reference_implementation.Billing.InMemory.Step.{
  Call, authorize_call, record_call, release_call, refund_call, credit_call, ensure_call, step, run,
}

module _ ⦃sha : Sha256⦄ (k : Text) where
  abbrev IsMarked : Adapter → Type 0
  IsMarked a = a.op_seen k ≡ true

  mark_op_done-IsMarked :
      (id op key : Text) (a : Adapter) → IsMarked a → IsMarked (mark_op_done id op key a)
  unfolding mark_op_done
  mark_op_done-IsMarked id op key a h = ground arith

  free_auth-IsMarked : (res : Reservation) (a : Adapter) → IsMarked a → IsMarked (free_auth res a)
  unfolding free_auth
  free_auth-IsMarked res a h = ground arith

  authorize_held-IsMarked :
      (req : AuthorizeRequest) (charge : ℤ) (a : Adapter)
      → IsMarked a
      → IsMarked (authorize_held req charge a).1
  unfolding authorize_held consume_quota reserve
  authorize_held-IsMarked req charge a h = ground arith

  authorize_fresh-IsMarked :
      (req : AuthorizeRequest) (bal : Amount) (a : Adapter)
      → IsMarked a
      → IsMarked (authorize_fresh req bal a).1
  unfolding authorize_fresh
  authorize_fresh-IsMarked req bal a h =
      let charge = req.unit_cost.value *ℤ req.quantity in
      elim (Bool-cases (leb_ℤ req.quantity (pos 0))) [
        | inl empty_order ↦ rw (empty_order, authorize_fresh) h
        | inr some_units ↦ elim (Option-cases (money_gate req bal charge a)) [
          | inl passed ↦
              rw (some_units, passed, authorize_fresh) (authorize_held-IsMarked req charge a h)
          | inr (d, refused) ↦ rw (some_units, refused, authorize_fresh) h
        ]
      ]

  authorize-IsMarked :
      (req : AuthorizeRequest) (a : Adapter) → IsMarked a → IsMarked (authorize req a).1
  unfolding authorize
  authorize-IsMarked req a h = elim (Option-cases (live_hold req a)) [
    | inr (bid, live) ↦ rw (live, authorize) h
    | inl fresh ↦ elim (Option-cases (a.balances req.billing_ref)) [
      | inl missing ↦ rw (fresh, missing, authorize) h
      | inr (bal, e) ↦ rw (fresh, e, authorize) (authorize_fresh-IsMarked req bal a h)
    ]
  ]

  record_tx-IsMarked :
      (id : Text) (q : ℤ) (key : Text) (a : Adapter)
      → IsMarked a
      → IsMarked (record_tx id q key a).1
  unfolding record_tx settle
  record_tx-IsMarked id q key a h = elim (Bool-cases (op_already_done id op_record key a)) [
    | inl done ↦ rw (done, record_tx) h
    | inr first ↦ elim (Option-cases (lookup id a.reserved)) [
      | inl missing ↦ rw (first, missing, record_tx) h
      | inr (res, e) ↦ elim (Option-cases (a.balances res.billing_ref)) [
        | inl gone ↦ rw (first, e, gone, record_tx, settle) h
        | inr (bal, f) ↦
            rw (first, e, f, record_tx, settle)
              (mark_op_done-IsMarked id op_record key _ (free_auth-IsMarked res _ h))
      ]
    ]
  ]

  release-IsMarked : (id key : Text) (a : Adapter) → IsMarked a → IsMarked (release id key a).1
  unfolding release
  release-IsMarked id key a h = elim (Bool-cases (op_already_done id op_release key a)) [
    | inl done ↦ rw (done, release) h
    | inr first ↦ elim (Option-cases (lookup id a.reserved)) [
      | inl missing ↦ rw (first, missing, release) h
      | inr (res, e) ↦
          rw (first, e, release)
            (mark_op_done-IsMarked id op_release key _ (free_auth-IsMarked res _ h))
    ]
  ]

  refund_as-IsMarked :
      (r : Refundable) (id : Text) (amount : AmountArg) (reason key : Text) (a : Adapter)
      → IsMarked a
      → IsMarked (refund_as r id amount reason key a).1
  unfolding apply_refund
  refund_as-IsMarked (refuse e) id amount reason key a h = h
  refund_as-IsMarked (against rec v) id amount reason key a h =
      elim (Option-cases (a.balances rec.billing_ref)) [
        | inl gone ↦ rw (gone, apply_refund) h
        | inr (bal, f) ↦ rw (f, apply_refund) (mark_op_done-IsMarked id op_refund key _ h)
      ]

  refund-IsMarked :
      (id : Text) (amount : AmountArg) (reason key : Text) (a : Adapter)
      → IsMarked a
      → IsMarked (refund id amount reason key a).1
  unfolding refund
  refund-IsMarked id amount reason key a h =
      elim (Bool-cases (op_already_done id op_refund key a)) [
        | inl done ↦ rw (done, refund) h
        | inr first ↦
            rw (first, refund)
              (refund_as-IsMarked (validate_refund id amount a) id amount reason key a h)
      ]

  credit-IsMarked :
      (ref : Text) (amount : AmountArg) (key : Text) (a : Adapter)
      → IsMarked a
      → IsMarked (credit ref amount key a).1
  unfolding credit
  credit-IsMarked ref amount key a h = ground arith

  ensure_agent_account-IsMarked :
      (ref : Text) (a : Adapter) → IsMarked a → IsMarked (ensure_agent_account ref a).1
  unfolding ensure_agent_account
  ensure_agent_account-IsMarked ref a h = ground arith

  step-IsMarked : (c : Call) (a : Adapter) → IsMarked a → IsMarked (step c a)
  unfolding step
  step-IsMarked (authorize_call req) a h = authorize-IsMarked req a h
  step-IsMarked (record_call id q key) a h = record_tx-IsMarked id q key a h
  step-IsMarked (release_call id key) a h = release-IsMarked id key a h
  step-IsMarked (refund_call id amount reason key) a h = refund-IsMarked id amount reason key a h
  step-IsMarked (credit_call ref amount key) a h = credit-IsMarked ref amount key a h
  step-IsMarked (ensure_call ref) a h = ensure_agent_account-IsMarked ref a h

  pub run-IsMarked : (cs : List Call) (a : Adapter) → IsMarked a → IsMarked (run cs a)
  unfolding run
  run-IsMarked [] a h = h
  run-IsMarked (c ∷ cs) a h = run-IsMarked cs (step c a) (step-IsMarked c a h)
