-- ===== src/Billing/Settlement/Lifecycle.antt =====
-- src/exchange/internal/billing/tigerbeetle_adapter.go and tigerbeetle_settle.go: Authorize's
-- generation probe, Record, Release and Refund over the ledger.
use reference_implementation.Common.{
  ℕ, zero, suc, ◌+◌, ◌-◌, ◌==◌, ◌||◌, Bool, true, false, Option, none, some, [], ◌∷◌, ◌++◌, Text,
  codes, if◌then◌else◌, ℤ, pos_part, ltb, print_dec,
}
use reference_implementation.Billing.Types.{
  AuthorizeResult, Error, unknown_billing_id, refund_before_record, refund_exceeds_record,
  unexpected_outcome, insufficient_balance, generations_exhausted, invalid_amount,
}
use reference_implementation.Billing.Settlement.Wire.{
  LedgerId, Transfer, pending_insufficient_funds, HoldState, hold_free, hold_live, hold_resolved,
  code_refund,
}
use reference_implementation.Billing.Settlement.Client.{
  Result, ok, err, Ledger, M, ◌>>=◌, ◌>>◌, pure, raise, or_raise, create_linked, create_pending,
  post_pending, void_pending, classify_hold, lookup_transfer, ensure_account,
}
use reference_implementation.Billing.Settlement.Ids.{
  Digest, transfer_id, account_id, encode_id, decode_id,
}
use reference_implementation.Billing.Settlement.Split.{
  Config, fee_minor, fee_reversal, timeout_seconds, linked_err, resolve_err, settle_legs,
  refund_legs,
}

abbrev pub check : {S : Type 0} → Option Error → M S (Unit {0})
check none = pure tt
check (some e) = raise e

abbrev pub from_result : {S A : Type 0} → Result A → M S A
from_result r s = (r, s)

-- A billing id that does not decode names no hold.
abbrev pub decoded : {S : Type 0} → Text → M S LedgerId
decoded id s = (elim (decode_id id) [ ok p ↦ ok p | err _ ↦ err unknown_billing_id ], s)

abbrev pub or_unknown : {S : Type 0} → Option Transfer → M S Transfer
or_unknown none = raise unknown_billing_id
or_unknown (some t) = pure t

-- `strings.Contains` of one byte.
unfoldable pub has_byte : ℕ → Text → Bool
has_byte b [] = false
has_byte b (x ∷ xs) = x == b || has_byte b xs

module _ ⦃d : Digest⦄ (c : Config) where
  -- The post and void ids derive from the pending id.
  unfoldable pub post_id_of : LedgerId → Result LedgerId
  post_id_of pending_id = transfer_id (c.id_ns ++ (codes "post:" ++ encode_id pending_id))

  unfoldable pub void_id_of : LedgerId → Result LedgerId
  void_id_of pending_id = transfer_id (c.id_ns ++ (codes "void:" ++ encode_id pending_id))

  unfoldable pub fee_id_of : LedgerId → Result LedgerId
  fee_id_of pending_id = transfer_id (c.id_ns ++ (codes "fee:" ++ encode_id pending_id))

  abbrev pub platform_fee_account : Result LedgerId
  platform_fee_account = account_id (codes "platform:") (c.id_ns ++ codes "fee")

  unfoldable pub pending_id_of : Text → Text → ℕ → Result LedgerId
  pending_id_of billing_ref auth_key gen =
      if has_byte 58 billing_ref
      then err unexpected_outcome
      else transfer_id (
          c.id_ns
          ++ (codes "pending:"
              ++ (billing_ref ++ (codes ":" ++ (auth_key ++ (codes ":" ++ print_dec gen))))))

abbrev pub approved_hold : LedgerId → AuthorizeResult
approved_hold pending_id = record {
  billing_id = encode_id pending_id;
  approved = true;
  reason = [];
}

module _ {S : Type 0} ⦃l : Ledger S⦄ ⦃d : Digest⦄ (c : Config) where
  unfoldable pub settle_split : LedgerId → LedgerId → M S (Unit {0})
  settle_split pending_id post_id = do
    found ← lookup_transfer pending_id
    info ← or_unknown found
    let fee = fee_minor info.amount info.user_data128
    if fee == 0 then (do out ← post_pending post_id pending_id; check (resolve_err out)) else (do
      platform ← from_result (platform_fee_account c)
      ensure_account platform 3
      fee_id ← from_result (fee_id_of c pending_id)
      out ← create_linked (
          settle_legs c.ledger pending_id post_id fee_id info.debit_account platform info.amount
            fee)
      check (linked_err out insufficient_balance))

  -- The state of a hold, with the id of its post transfer.
  unfoldable pub hold_state : LedgerId → M S (HoldState × LedgerId)
  hold_state pending_id = do
    post_id ← from_result (post_id_of c pending_id)
    void_id ← from_result (void_id_of c pending_id)
    state ← classify_hold pending_id post_id void_id
    pure (state, post_id)

  -- A resolved hold was settled if its post transfer exists, else it was released.
  unfoldable pub settled_or : LedgerId → Error → M S (Unit {0})
  settled_or post_id e = do
    post ← lookup_transfer post_id
    elim post [ none ↦ raise e | some t ↦ pure tt ]

  unfoldable pub record_in : HoldState × LedgerId → LedgerId → M S (Unit {0})
  record_in (hold_free, post_id) pending_id = raise unknown_billing_id
  record_in (hold_resolved, post_id) pending_id = settled_or post_id unknown_billing_id
  record_in (hold_live, post_id) pending_id = settle_split pending_id post_id

  unfoldable pub record_tx : Text → ℤ → Text → M S (Unit {0})
  record_tx billing_id advisory_quantity key = do
    pending_id ← decoded billing_id
    state ← hold_state pending_id
    record_in state pending_id

  unfoldable pub release : Text → Text → M S (Unit {0})
  release billing_id key = do
    pending_id ← decoded billing_id
    post_id ← from_result (post_id_of c pending_id)
    void_id ← from_result (void_id_of c pending_id)
    out ← void_pending void_id pending_id
    check (resolve_err out)

  unfoldable pub refundable_in : HoldState × LedgerId → M S (Unit {0})
  refundable_in (hold_free, post_id) = raise unknown_billing_id
  refundable_in (hold_live, post_id) = raise refund_before_record
  refundable_in (hold_resolved, post_id) = settled_or post_id refund_before_record

  -- `sum_refunds` is the total that the ledger reports for the account, the hold and the code.
  unfoldable pub reverse_refund :
      (LedgerId → LedgerId → ℕ → M S ℕ) → LedgerId → LedgerId → LedgerId → ℕ → ℕ → M S (Unit {0})
  reverse_refund sum_refunds pending_id net_id fee_id r token = do
    found ← lookup_transfer pending_id
    info ← or_unknown found
    prior ← sum_refunds info.debit_account pending_id code_refund
    if ltb info.amount (prior + r) then raise refund_exceeds_record else (do
      let fee_rev = fee_reversal (fee_minor info.amount info.user_data128) r info.amount
      platform ← (if fee_rev == 0 then pure 0 else from_result (platform_fee_account c))
      out ← create_linked (
          refund_legs c.ledger pending_id net_id fee_id info.debit_account info.credit_account
            platform (r - fee_rev) fee_rev token)
      check (linked_err out insufficient_balance))

  -- `minor` is the amount in minor units; `none` is one of another currency, not positive, or
  -- finer than the scale.
  unfoldable pub refund :
      (LedgerId → LedgerId → ℕ → M S ℕ) → Text → Option ℕ → ℕ → Text → M S (Unit {0})
  refund sum_refunds billing_id minor token key = do
    pending_id ← decoded billing_id
    state ← hold_state pending_id
    refundable_in state
    r ← or_raise minor invalid_amount
    let base = c.id_ns ++ (codes "refund:" ++ (encode_id pending_id ++ (codes ":" ++ key)))
    net_id ← from_result (transfer_id (base ++ codes ":net"))
    fee_id ← from_result (transfer_id (base ++ codes ":fee"))
    done ← lookup_transfer net_id
    elim done [
      | some t ↦ pure tt
      | none ↦ reverse_refund sum_refunds pending_id net_id fee_id r token
    ]

  unfoldable pub create_hold : LedgerId → LedgerId → LedgerId → ℤ → ℤ → M S AuthorizeResult
  create_hold pending_id agent owner minor bps = do
    out ←
        create_pending pending_id agent owner minor c.ledger (timeout_seconds c.hold_timeout)
          (pos_part bps)
    elim out [
      | pending_insufficient_funds ↦
          pure (record { billing_id = []; approved = false; reason = codes "insufficient balance" })
      | _ ↦ pure (approved_hold pending_id)
    ]

  -- The loop over hold generations, from `gen` with the given number left of 256.
  unfoldable pub reserve_from :
      ℕ → ℕ → Text → Text → LedgerId → LedgerId → ℤ → ℤ → M S AuthorizeResult
  reserve_from zero gen billing_ref auth_key agent owner minor bps = raise generations_exhausted
  reserve_from (suc left) gen billing_ref auth_key agent owner minor bps =
      let next = reserve_from left (gen + 1) billing_ref auth_key agent owner minor bps in
      do
        pending_id ← from_result (pending_id_of c billing_ref auth_key gen)
        state ← hold_state pending_id
        elim state.0 [
          | hold_live ↦ pure (approved_hold pending_id)
          | hold_free ↦ create_hold pending_id agent owner minor bps
          | hold_resolved ↦ next
        ]
