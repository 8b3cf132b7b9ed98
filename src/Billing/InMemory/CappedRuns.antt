-- ===== src/Billing/InMemory/CappedRuns.antt =====
-- src/exchange/internal/billing/inmemory_adapter.go: every sequence of calls keeps the billing ids
-- apart and the refunds capped.
use reference_implementation.Common.{
  Sha256, ◌+◌, ◌%◌, ◌^◌, ◌<◌, ◌≤◌, ◌≡◌, inl, inr, refl, some, List, [], ◌∷◌, arith, Text, text_eq,
  ℤ, pos, ◌+ℤ◌, ◌≤ℤ◌, lookup, Option-cases, Bool-cases, length, leb_ℤ, ltb_ℤ, eqb_ℤ, ◌*ℤ◌,
}
use reference_implementation.Billing.Types.{
  Amount, AmountArg, AuthorizeRequest, validate_credit_args, demo_currency,
}
use reference_implementation.Billing.InMemory.State.{
  Adapter, Reservation, RecordedTx, bound_key, free_auth, mark_op_done, op_already_done, op_record,
  op_release, op_refund, or_zero,
}
use reference_implementation.Billing.InMemory.Holds.{
  check_currency_and_balance, reserve, authorize_held, authorize_fresh, authorize, settle,
  record_tx, release, live_hold,
}
use reference_implementation.Billing.InMemory.Funds.{
  Refundable, refuse, against, validate_refund, apply_refund, refund, refund_as, apply_credit,
  credit, ensure_agent_account,
}
use reference_implementation.Billing.InMemory.Step.{
  Call, authorize_call, record_call, release_call, refund_call, credit_call, ensure_call, step, run,
}
use reference_implementation.Billing.InMemory.Covered.{AllBacked-lookup}
use reference_implementation.Billing.InMemory.SolventHolds.{IsSolvent}
use reference_implementation.Billing.InMemory.Solvent.{AllPriced, step-IsSolvent}
use reference_implementation.Billing.InMemory.Capped.{
  Capped, Capped-reserve, Capped-erase, Capped-settle, Capped-refund,
}

abbrev pub IsCapped : Adapter → Type 0
IsCapped a = Capped a.id_prefix a.next_idx a.reserved a.recorded a.refunded

-- A call leaves the adapter capped, and mints at most one id.
abbrev Next : Adapter → Adapter → Type 0
Next a b = IsCapped b × (b.next_idx ≤ a.next_idx + 1)

module _ ⦃sha : Sha256⦄ where
  mark_op_done-Next :
      (id op key : Text) (a b : Adapter) → Next a b → Next a (mark_op_done id op key b)
  unfolding mark_op_done
  mark_op_done-Next id op key a b h = elim (Bool-cases (text_eq key [])) [
    | inl keyless ↦ rw (keyless, mark_op_done) h
    | inr keyed ↦ rw (keyed, mark_op_done) h
  ]

  free_auth-Next : (res : Reservation) (a b : Adapter) → Next a b → Next a (free_auth res b)
  unfolding free_auth
  free_auth-Next res a b h = elim (Bool-cases (text_eq res.auth_key [])) [
    | inl keyless ↦ rw (keyless, free_auth) h
    | inr keyed ↦ rw (keyed, free_auth) h
  ]

  module _ (a : Adapter) (h : IsCapped a) where
    same : Next a a
    same = (h, omega arith)

    authorize_held-Next :
        (req : AuthorizeRequest) (charge : ℤ)
        → a.next_idx + 1 < 2 ^ 64
        → Next a (authorize_held req charge a).1
    unfolding authorize_held reserve
    authorize_held-Next req charge lt =
        let wraps : (a.next_idx + 1) % 2 ^ 64 ≡ a.next_idx + 1 = omega arith in
        let next = λ (r : Reservation). Capped-reserve _ _ _ _ _ h r in
        elim (Option-cases (a.quotas req.billing_ref)) [
          | inl uncapped ↦ rw (uncapped, authorize_held) (rw wraps (next _, omega arith))
          | inr (q, capped) ↦ elim (Bool-cases (ltb_ℤ q req.quantity)) [
            | inl over ↦ rw (capped, over, authorize_held) same
            | inr fits ↦ rw (capped, fits, authorize_held) (rw wraps (next _, omega arith))
          ]
        ]

    authorize_fresh-Next :
        (req : AuthorizeRequest) (bal : Amount)
        → a.next_idx + 1 < 2 ^ 64
        → Next a (authorize_fresh req bal a).1
    unfolding authorize_fresh
    authorize_fresh-Next req bal lt =
        let charge = req.unit_cost.value *ℤ req.quantity in
        elim (Bool-cases (leb_ℤ req.quantity (pos 0))) [
          | inl empty_order ↦ rw (empty_order, authorize_fresh) same
          | inr some_units ↦ elim (Bool-cases (eqb_ℤ charge (pos 0))) [
            | inl free ↦ rw (some_units, free, authorize_fresh) (authorize_held-Next req charge lt)
            | inr paid ↦ elim (Option-cases (check_currency_and_balance req bal charge a)) [
              | inl passed ↦
                  rw (some_units, paid, passed, authorize_fresh) (authorize_held-Next req charge lt)
              | inr (denial, refused) ↦ rw (some_units, paid, refused, authorize_fresh) same
            ]
          ]
        ]

    authorize-Next : (req : AuthorizeRequest) → a.next_idx + 1 < 2 ^ 64 → Next a (authorize req a).1
    unfolding authorize
    authorize-Next req lt = elim (Option-cases (live_hold req a)) [
      | inr (bid, live) ↦ rw (live, authorize) same
      | inl fresh ↦ elim (Option-cases (a.balances req.billing_ref)) [
        | inl missing ↦ rw (fresh, missing, authorize) same
        | inr (bal, e) ↦ rw (fresh, e, authorize) (authorize_fresh-Next req bal lt)
      ]
    ]

    settle-Next :
        (id key : Text) (res : Reservation)
        → IsSolvent a
        → lookup id a.reserved ≡ some res
        → Next a (settle id key res a).1
    unfolding settle
    settle-Next id key res s e = elim (Option-cases (a.balances res.billing_ref)) [
      | inl missing ↦ rw (missing, settle) same
      | inr (bal, f) ↦
          rw (f, settle)
            (mark_op_done-Next id _ key a _ (
              free_auth-Next res a _ (
                Capped-settle _ _ _ _ _ h id res _ e
                    (AllBacked-lookup a.balances id res a.reserved s.backed e).0,
                omega arith,
              )))
    ]

    record_tx-Next :
        (id : Text) (quantity : ℤ) (key : Text)
        → IsSolvent a
        → Next a (record_tx id quantity key a).1
    unfolding record_tx
    record_tx-Next id quantity key s = elim (Bool-cases (op_already_done id op_record key a)) [
      | inl replayed ↦ rw (replayed, record_tx) same
      | inr first ↦ elim (Option-cases (lookup id a.reserved)) [
        | inl missing ↦ rw (first, missing, record_tx) same
        | inr (res, e) ↦ rw (first, e, record_tx) (settle-Next id key res s e)
      ]
    ]

    release-Next : (id key : Text) → Next a (release id key a).1
    unfolding release
    release-Next id key = elim (Bool-cases (op_already_done id op_release key a)) [
      | inl replayed ↦ rw (replayed, release) same
      | inr first ↦ elim (Option-cases (lookup id a.reserved)) [
        | inl missing ↦ rw (first, missing, release) same
        | inr (res, e) ↦
            rw (first, e, release)
              (mark_op_done-Next id _ key a _
                (free_auth-Next res a _ (Capped-erase _ _ _ _ _ h id, omega arith)))
      ]
    ]

    -- What passes the refund gate stays within the recorded charge.
    validate_refund_cap :
        (id : Text) (amount : AmountArg) (rec : RecordedTx) (v : ℤ)
        → validate_refund id amount a ≡ against rec v
        → (a.recorded id ≡ some rec) × (or_zero (a.refunded id) +ℤ v ≤ℤ rec.amt.value)
    unfolding validate_refund
    validate_refund_cap id amount rec v e = ground arith

    refund-Next :
        (id : Text) (amount : AmountArg) (reason key : Text)
        → Next a (refund id amount reason key a).1
    unfolding refund apply_refund
    refund-Next id amount reason key = elim (Bool-cases (op_already_done id op_refund key a)) [
      | inl replayed ↦ rw (replayed, refund) same
      | inr first ↦ rw (first, refund) (go (validate_refund id amount a) refl)
    ]
      where
        go :
            (r : Refundable)
            → validate_refund id amount a ≡ r
            → Next a (refund_as r id amount reason key a).1
        go (refuse e) eq = same
        go (against rec v) eq = elim (Option-cases (a.balances rec.billing_ref)) [
          | inl missing ↦ rw (missing, apply_refund) same
          | inr (bal, e) ↦
              let (settled, room) = validate_refund_cap id amount rec v eq in
              rw (e, apply_refund)
                (mark_op_done-Next id _ key a _
                  (Capped-refund _ _ _ _ _ h id rec v settled room, omega arith))
        ]

    apply_credit-Next :
        (ref : Text) (bal : Amount) (v : ℤ) (cur key : Text)
        → Next a (apply_credit ref bal v cur key a).1
    apply_credit-Next ref bal v cur key = elim (Bool-cases (text_eq bal.currency cur)) [
      | inl match ↦ rw match same
      | inr other ↦ rw other same
    ]

    credit-Next :
        (ref : Text) (amount : AmountArg) (key : Text) → Next a (credit ref amount key a).1
    unfolding credit
    credit-Next ref amount key =
        elim (Option-cases (validate_credit_args ref amount key demo_currency)) [
          | inr (e, refused) ↦ rw (refused, credit) same
          | inl passed ↦ elim (Bool-cases (a.credit_seen (bound_key key))) [
            | inl replayed ↦ rw (passed, replayed, credit) same
            | inr first ↦ elim (Option-cases amount.value) [
              | inl missing ↦ rw (passed, first, missing, credit) same
              | inr (v, e) ↦ rw (passed, first, e, credit) (apply_credit-Next ref _ v _ key)
            ]
          ]
        ]

    ensure_agent_account-Next : (ref : Text) → Next a (ensure_agent_account ref a).1
    unfolding ensure_agent_account
    ensure_agent_account-Next ref = elim (Bool-cases (text_eq ref [])) [
      | inl empty_ref ↦ rw (empty_ref, ensure_agent_account) same
      | inr named ↦ elim (Option-cases (a.balances ref)) [
        | inl missing ↦ rw (named, missing, ensure_agent_account) same
        | inr (bal, e) ↦ rw (named, e, ensure_agent_account) same
      ]
    ]

    step-Next : (c : Call) → IsSolvent a → a.next_idx + 1 < 2 ^ 64 → Next a (step c a)
    unfolding step
    step-Next (authorize_call req) s lt = authorize-Next req lt
    step-Next (record_call id quantity key) s lt = record_tx-Next id quantity key s
    step-Next (release_call id key) s lt = release-Next id key
    step-Next (refund_call id amount reason key) s lt = refund-Next id amount reason key
    step-Next (credit_call ref amount key) s lt = credit-Next ref amount key
    step-Next (ensure_call ref) s lt = ensure_agent_account-Next ref

  -- While the uint64 counter of billing ids does not run out, every sequence of calls at unit costs
  -- that are not negative keeps these facts: no id is listed twice among the reservations, the ids
  -- above the counter are unused, a pending id is not settled, an id that is not settled has no
  -- refunds, and the refunds of a settled id add up to at most its recorded charge.
  pub run-IsCapped :
      (cs : List Call) (a : Adapter)
      → AllPriced cs
      → a.next_idx + length cs < 2 ^ 64
      → IsSolvent a
      → IsCapped a
      → IsCapped (run cs a)
  unfolding run
  run-IsCapped [] a p lt s h = h
  run-IsCapped (c ∷ cs) a p lt s h =
      let (h', grows) = step-Next a h c s (omega arith) in
      run-IsCapped cs (step c a) p.1 (omega arith) (step-IsSolvent c a p.0 s) h'
