-- ===== src/Exchange/Prepaid.antt =====
-- src/exchange/internal/billing/inmemory_adapter.go: the prepaid adapter as the ledger that
-- ExecuteTransaction runs over.
use reference_implementation.Common.{
  Sha256, ℕ, ◌≡◌, inl, inr, refl, ap, false, Option, none, some, Text, text_eq, text_eq→eq, ℤ, pos,
  ◌-ℤ◌, Bool-cases, put, Map, delete, erase,
}
use reference_implementation.Billing.Types.{Amount, AuthorizeRequest, total_charge}
use reference_implementation.Billing.InMemory.State.{
  Adapter, Reservation, op_key, auth_map_key, op_record, op_release, add_key, op_already_done,
  mark_op_done, free_auth,
}
use reference_implementation.Billing.InMemory.Holds.{settle, record_tx, release, restored_quotas}
use reference_implementation.Exchange.Ledger.{debit}
use reference_implementation.Exchange.PrepaidHolds.{QuietAccount, OpenAccount, Roomy-resolve}

abbrev pub value_of : Option Amount → ℤ
value_of none = pos 0
value_of (some bal) = bal.value

abbrev pub prepaid_balance : Text → Adapter → ℤ
prepaid_balance ref a = value_of (a.balances ref)

paid-balance :
    (ref acct : Text) (m : Map Amount) (bal : Amount) (charge : ℤ)
    → m ref ≡ some bal
    → value_of (put m ref (record bal { value = bal.value -ℤ charge }) acct)
      ≡ debit ref acct charge (value_of (m acct))
paid-balance ref acct m bal charge e = elim (Bool-cases (text_eq ref acct)) [
  | inl same ↦ rw (same, ← text_eq→eq ref acct same, e) refl
  | inr other ↦ rw other refl
]

module _ ⦃sha : Sha256⦄ (n : ℕ) (req : AuthorizeRequest) (id : Text) (a : Adapter)
    (h : OpenAccount n req id a) where
  first_time : (op : Text) → op_already_done id op req.idempotency_key a ≡ false
  unfolding op_already_done
  first_time op = rw (h.keyed) (h.undone op req.idempotency_key)

  cleared :
      (key : Text)
      → delete a.auth_seen
          (auth_map_key req.billing_ref req.idempotency_key)
          (auth_map_key req.billing_ref key)
        ≡ none
  cleared key =
      elim (Bool-cases (
        text_eq (auth_map_key req.billing_ref req.idempotency_key)
          (auth_map_key req.billing_ref key))) [
            | inl same ↦ rw same refl
            | inr other ↦ rw other (h.unlocked key other)
          ]

  -- What Release and Record leave of an adapter that has freed the hold.
  resolved_by : Text → Adapter → Adapter
  resolved_by op b = record b {
    auth_seen = delete a.auth_seen (auth_map_key req.billing_ref req.idempotency_key);
    op_seen = add_key a.op_seen (op_key id op req.idempotency_key);
    reserved = erase id a.reserved;
  }

  resolved_by-Quiet :
      (op : Text) (b : Adapter)
      → b.id_prefix ≡ a.id_prefix
      → b.next_idx ≡ a.next_idx
      → QuietAccount n req.billing_ref (resolved_by op b)
  unfolding resolved_by
  resolved_by-Quiet op b same_prefix same_idx = record {
    roomy =
        rw (same_prefix, same_idx, h.minted)
          (Roomy-resolve n a.id_prefix a.next_idx a.reserved a.op_seen op req.idempotency_key
            h.roomy);
    unlocked = cleared;
  }

  mark-free :
      (op : Text) (res : Reservation) (b : Adapter)
      → res.billing_ref ≡ req.billing_ref
      → res.auth_key ≡ req.idempotency_key
      → b.auth_seen ≡ a.auth_seen
      → b.op_seen ≡ a.op_seen
      → b.reserved ≡ erase id a.reserved
      → mark_op_done id op req.idempotency_key (free_auth res b) ≡ resolved_by op b
  unfolding mark_op_done free_auth resolved_by
  mark-free op res b same_ref same_key auth seen rest =
      rw (mark_op_done, h.keyed, free_auth, same_key, same_ref, h.keyed, auth, seen)
        (ap
          (λ rs. record b {
            auth_seen = delete a.auth_seen (auth_map_key req.billing_ref req.idempotency_key);
            op_seen = add_key a.op_seen (op_key id op req.idempotency_key);
            reserved = rs;
          })
          rest)

  pub release-Quiet :
      (acct : Text)
      → QuietAccount n req.billing_ref (release id req.idempotency_key a).1
        × (prepaid_balance acct (release id req.idempotency_key a).1 ≡ prepaid_balance acct a)
  unfolding release
  release-Quiet acct =
      let (res, e, (same_ref, same_key, _)) = h.held in
      let freed = record a { quotas = restored_quotas res a; reserved = erase id a.reserved } in
      let marked = mark-free op_release res freed same_ref same_key refl refl refl in
      rw (first_time op_release, e, release, marked)
        (resolved_by-Quiet op_release freed refl refl, unfold resolved_by in refl)

  pub record-Quiet :
      (acct : Text) (q : ℤ)
      → QuietAccount n req.billing_ref (record_tx id q req.idempotency_key a).1
        × (prepaid_balance acct (record_tx id q req.idempotency_key a).1
            ≡ debit req.billing_ref acct
                (total_charge req.unit_cost req.quantity).value
                (prepaid_balance acct a))
  unfolding record_tx settle
  record-Quiet acct q =
      let (res, e, (same_ref, same_key, priced)) = h.held in
      let (bal, f) = h.account in
      let here : a.balances res.billing_ref ≡ some bal = rw same_ref f in
      let paid = record a {
        balances =
            put a.balances res.billing_ref (record bal { value = bal.value -ℤ res.est_amt.value });
        recorded = put a.recorded id (record { billing_ref = res.billing_ref; amt = res.est_amt });
        reserved = erase id a.reserved;
      } in
      let marked = mark-free op_record res paid same_ref same_key refl refl refl in
      rw (first_time op_record, e, record_tx, here, settle, marked)
        (
          resolved_by-Quiet op_record paid refl refl,
          unfold resolved_by in
              rw (← same_ref, ← priced)
                (paid-balance res.billing_ref acct a.balances bal res.est_amt.value here),
        )
