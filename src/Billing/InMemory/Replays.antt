-- ===== src/Billing/InMemory/Replays.antt =====
-- src/exchange/internal/billing/inmemory_adapter.go: the idempotency keys of Record, Release and Refund.
-- A call that is repeated under its key changes nothing.
use reference_implementation.Common.{
  Sha256, ◌≡◌, inl, inr, refl, false, true, none, List, [], Text, text_eq, text_eq_refl, ℤ,
  Option-cases, Bool-cases, arith, lookup,
}
use reference_implementation.Billing.Types.{AmountArg}
use reference_implementation.Billing.InMemory.State.{
  Adapter, mark_op_done, op_already_done, op_record, op_release, op_refund, op_key,
}
use reference_implementation.Billing.InMemory.Step.{Call, run}
use reference_implementation.Billing.InMemory.Marks.{run-IsMarked}
use reference_implementation.Billing.InMemory.Holds.{settle, record_tx, release}
use reference_implementation.Billing.InMemory.Funds.{
  refund, refund_as, validate_refund, apply_refund, refuse, against, Refundable,
}

module _ ⦃sha : Sha256⦄ where
  op_already_done-mark_op_done :
      (id op key : Text) (a : Adapter)
      → text_eq key [] ≡ false
      → op_already_done id op key (mark_op_done id op key a) ≡ true
  unfolding op_already_done mark_op_done
  op_already_done-mark_op_done id op key a h = ground (arith, text_eq_refl (op_key id op key))

  run-done :
      (id op key : Text) (cs : List Call) (a : Adapter)
      → text_eq key [] ≡ false
      → op_already_done id op key a ≡ true
      → op_already_done id op key (run cs a) ≡ true
  unfolding op_already_done
  run-done id op key cs a named h =
      rw (named, op_already_done)
        (run-IsMarked (op_key id op key) cs a (rw (named, op_already_done) at h))

  record-marks :
      (id : Text) (q : ℤ) (key : Text) (a : Adapter)
      → text_eq key [] ≡ false
      → (record_tx id q key a).0 ≡ none
      → op_already_done id op_record key (record_tx id q key a).1 ≡ true
  unfolding record_tx settle
  record-marks id q key a named ok = elim (Bool-cases (op_already_done id op_record key a)) [
    | inl done ↦ rw (done, record_tx) done
    | inr first ↦ elim (Option-cases (lookup id a.reserved)) [
      | inl missing ↦ absurd (cc (rw (first, missing, record_tx) at ok))
      | inr (res, e) ↦ elim (Option-cases (a.balances res.billing_ref)) [
        | inl gone ↦ absurd (cc (rw (first, e, gone, record_tx, settle) at ok))
        | inr (bal, f) ↦
            rw (first, e, f, record_tx, settle)
              (op_already_done-mark_op_done id op_record key _ named)
      ]
    ]
  ]

  release-marks :
      (id key : Text) (a : Adapter)
      → text_eq key [] ≡ false
      → (release id key a).0 ≡ none
      → op_already_done id op_release key (release id key a).1 ≡ true
  unfolding release
  release-marks id key a named ok = elim (Bool-cases (op_already_done id op_release key a)) [
    | inl done ↦ rw (done, release) done
    | inr first ↦ elim (Option-cases (lookup id a.reserved)) [
      | inl missing ↦ absurd (cc (rw (first, missing, release) at ok))
      | inr (res, e) ↦
          rw (first, e, release) (op_already_done-mark_op_done id op_release key _ named)
    ]
  ]

  refund-marks :
      (id : Text) (amount : AmountArg) (reason key : Text) (a : Adapter)
      → text_eq key [] ≡ false
      → (refund id amount reason key a).0 ≡ none
      → op_already_done id op_refund key (refund id amount reason key a).1 ≡ true
  unfolding refund
  refund-marks id amount reason key a named ok =
      elim (Bool-cases (op_already_done id op_refund key a)) [
        | inl done ↦ rw (done, refund) done
        | inr first ↦
            rw (first, refund) (go (validate_refund id amount a) (rw (first, refund) at ok))
      ]
    where
      go :
          (r : Refundable)
          → (refund_as r id amount reason key a).0 ≡ none
          → op_already_done id op_refund key (refund_as r id amount reason key a).1 ≡ true
      go (refuse e) eq = cc
      go (against rec v) eq = elim (Option-cases (a.balances rec.billing_ref)) [
        | inl gone ↦ absurd (cc (rw (gone, apply_refund) at eq))
        | inr (bal, f) ↦
            rw (f, apply_refund) (op_already_done-mark_op_done id op_refund key _ named)
      ]

  -- Once a billing id has been settled under a key, settling it again under that key succeeds and
  -- changes nothing, whatever calls came in between and whatever quantity is given: the charge is
  -- taken once. The key is not empty.
  pub record_tx_replay :
      (id : Text) (q q' : ℤ) (key : Text) (a : Adapter) (between : List Call)
      → text_eq key [] ≡ false
      → (record_tx id q key a).0 ≡ none
      → record_tx id q' key (run between (record_tx id q key a).1)
        ≡ (none, run between (record_tx id q key a).1)
  record_tx_replay id q q' key a between named ok =
      go _ (run-done id op_record key between _ named (record-marks id q key a named ok))
    where
      go :
          (b : Adapter)
          → op_already_done id op_record key b ≡ true
          → record_tx id q' key b ≡ (none, b)
      go b h = unfold record_tx in rw h refl

  -- Once a hold has been released under a key, releasing it again under that key succeeds and
  -- changes nothing, whatever calls came in between: the quota is given back once. The key is not
  -- empty.
  pub release_replay :
      (id key : Text) (a : Adapter) (between : List Call)
      → text_eq key [] ≡ false
      → (release id key a).0 ≡ none
      → release id key (run between (release id key a).1) ≡ (none, run between (release id key a).1)
  release_replay id key a between named ok =
      go _ (run-done id op_release key between _ named (release-marks id key a named ok))
    where
      go : (b : Adapter) → op_already_done id op_release key b ≡ true → release id key b ≡ (none, b)
      go b h = unfold release in rw h refl

  -- Once a refund of a billing id has been paid under a key, a refund of it under that key
  -- succeeds and changes nothing, whatever calls came in between and whatever its amount and
  -- reason. The key is not empty.
  pub refund_replay :
      (id : Text) (amount amount' : AmountArg) (reason reason' key : Text) (a : Adapter)
      (between : List Call)
      → text_eq key [] ≡ false
      → (refund id amount reason key a).0 ≡ none
      → refund id amount' reason' key (run between (refund id amount reason key a).1)
        ≡ (none, run between (refund id amount reason key a).1)
  refund_replay id amount amount' reason reason' key a between named ok =
      go _
        (run-done id op_refund key between _ named (refund-marks id amount reason key a named ok))
    where
      go :
          (b : Adapter)
          → op_already_done id op_refund key b ≡ true
          → refund id amount' reason' key b ≡ (none, b)
      go b h = unfold refund in rw h refl
