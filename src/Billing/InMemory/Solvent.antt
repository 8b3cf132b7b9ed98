-- ===== src/Billing/InMemory/Solvent.antt =====
-- src/exchange/internal/billing/inmemory_adapter.go: every call keeps the balances above the pending
-- reservations, whatever the order of the calls.
use reference_implementation.Common.{
  Sha256, ◌≡◌, inl, inr, refl, none, some, List, [], ◌∷◌, arith, Text, text_eq, ℤ, pos, ◌≤ℤ◌,
  int_laws, Option-cases, Bool-cases,
}
use reference_implementation.Billing.Types.{AmountArg, validate_credit_args, demo_currency}
use reference_implementation.Billing.InMemory.State.{
  bound_key, Adapter, RecordedTx, op_already_done, op_refund,
}
use reference_implementation.Billing.InMemory.Funds.{
  Refundable, refuse, against, validate_refund, apply_refund, refund_as, apply_credit,
  balance_or_new, refund, credit, ensure_agent_account,
}
use reference_implementation.Billing.InMemory.Step.{
  Call, authorize_call, record_call, release_call, refund_call, credit_call, ensure_call, step, run,
}
use reference_implementation.Billing.InMemory.Covered.{Covers-raise, Covers-open}
use reference_implementation.Billing.InMemory.SolventHolds.{
  IsPriced, IsSolvent, authorize-IsSolvent, mark_op_done-IsSolvent, record_tx-IsSolvent,
  release-IsSolvent,
}

module _ ⦃sha : Sha256⦄ where
  validate_refund_pos :
      (id : Text) (amount : AmountArg) (a : Adapter) (rec : RecordedTx) (v : ℤ)
      → validate_refund id amount a ≡ against rec v
      → pos 0 ≤ℤ v
  unfolding validate_refund
  validate_refund_pos id amount a rec v h = ground arith

  apply_refund-IsSolvent :
      (id currency reason key : Text) (rec : RecordedTx) (v : ℤ) (a : Adapter)
      → IsSolvent a
      → pos 0 ≤ℤ v
      → IsSolvent (apply_refund id currency reason key rec v a).1
  unfolding apply_refund
  apply_refund-IsSolvent id currency reason key rec v a h p =
      elim (Option-cases (a.balances rec.billing_ref)) [
        | inl missing ↦ rw (missing, apply_refund) h
        | inr (bal, e) ↦
            rw (e, apply_refund)
              (mark_op_done-IsSolvent id _ key _
                (Covers-raise a.balances a.reserved h rec.billing_ref bal v e p))
      ]

  pub refund-IsSolvent :
      (id : Text) (amount : AmountArg) (reason key : Text) (a : Adapter)
      → IsSolvent a
      → IsSolvent (refund id amount reason key a).1
  unfolding refund
  refund-IsSolvent id amount reason key a h =
      elim (Bool-cases (op_already_done id op_refund key a)) [
        | inl replayed ↦ rw (replayed, refund) h
        | inr first ↦ rw (first, refund) (go (validate_refund id amount a) refl)
      ]
    where
      go :
          (r : Refundable)
          → validate_refund id amount a ≡ r
          → IsSolvent (refund_as r id amount reason key a).1
      go (refuse e) eq = h
      go (against rec v) eq =
          apply_refund-IsSolvent id amount.currency reason key rec v a h
            (validate_refund_pos id amount a rec v eq)

  credit-cases :
      (ref : Text) (amount : AmountArg) (key : Text) (a : Adapter) (v : ℤ)
      → validate_credit_args ref amount key demo_currency ≡ none
      → amount.value ≡ some v
      → pos 0 ≤ℤ v
  unfolding validate_credit_args
  credit-cases ref amount key a v ok e = ground arith

  apply_credit-IsSolvent :
      (ref cur key : Text) (v : ℤ) (a : Adapter)
      → IsSolvent a
      → pos 0 ≤ℤ v
      → IsSolvent (apply_credit ref (balance_or_new (a.balances ref) cur) v cur key a).1
  apply_credit-IsSolvent ref cur key v a h p = elim (Option-cases (a.balances ref)) [
    | inl missing ↦ elim (Bool-cases (text_eq cur cur)) [
      | inl same ↦
          rw (missing, same) (Covers-open a.balances a.reserved h ref _ missing (omega int_laws))
      | inr other ↦ rw (missing, other) h
    ]
    | inr (bal, e) ↦ elim (Bool-cases (text_eq bal.currency cur)) [
      | inl same ↦ rw (e, same) (Covers-raise a.balances a.reserved h ref bal v e p)
      | inr other ↦ rw (e, other) h
    ]
  ]

  pub credit-IsSolvent :
      (ref : Text) (amount : AmountArg) (key : Text) (a : Adapter)
      → IsSolvent a
      → IsSolvent (credit ref amount key a).1
  unfolding credit
  credit-IsSolvent ref amount key a h =
      elim (Option-cases (validate_credit_args ref amount key demo_currency)) [
        | inr (e, refused) ↦ rw (refused, credit) h
        | inl passed ↦ elim (Bool-cases (a.credit_seen (bound_key key))) [
          | inl replayed ↦ rw (passed, replayed, credit) h
          | inr first ↦ elim (Option-cases amount.value) [
            | inl missing ↦ rw (passed, first, missing, credit) h
            | inr (v, e) ↦
                rw (passed, first, e, credit)
                  (apply_credit-IsSolvent ref amount.currency key v a h
                    (credit-cases ref amount key a v passed e))
          ]
        ]
      ]

  pub ensure_agent_account-IsSolvent :
      (ref : Text) (a : Adapter) → IsSolvent a → IsSolvent (ensure_agent_account ref a).1
  unfolding ensure_agent_account
  ensure_agent_account-IsSolvent ref a h = elim (Bool-cases (text_eq ref [])) [
    | inl empty_ref ↦ rw (empty_ref, ensure_agent_account) h
    | inr named ↦ elim (Option-cases (a.balances ref)) [
      | inl missing ↦
          rw (named, missing, ensure_agent_account)
            (Covers-open a.balances a.reserved h ref _ missing (omega arith))
      | inr (bal, e) ↦ rw (named, e, ensure_agent_account) h
    ]
  ]

  pub step-IsSolvent : (c : Call) (a : Adapter) → IsPriced c → IsSolvent a → IsSolvent (step c a)
  unfolding step
  step-IsSolvent (authorize_call req) a p h = authorize-IsSolvent req a p h
  step-IsSolvent (record_call id quantity key) a p h = record_tx-IsSolvent id quantity key a h
  step-IsSolvent (release_call id key) a p h = release-IsSolvent id key a h
  step-IsSolvent (refund_call id amount reason key) a p h =
      refund-IsSolvent id amount reason key a h
  step-IsSolvent (credit_call ref amount key) a p h = credit-IsSolvent ref amount key a h
  step-IsSolvent (ensure_call ref) a p h = ensure_agent_account-IsSolvent ref a h

  abbrev pub AllPriced : List Call → Type 0
  AllPriced [] = Unit
  AllPriced (c ∷ cs) = IsPriced c × AllPriced cs

  -- From an adapter whose balances cover its pending reservations, every sequence of calls at unit
  -- costs that are not negative ends in such an adapter: in each account, the reservations pending
  -- in the currency of its balance add up to at most the balance, and every reservation of a
  -- charge that is not zero belongs to an account that exists and is in its currency.
  pub run-IsSolvent :
      (cs : List Call) (a : Adapter) → AllPriced cs → IsSolvent a → IsSolvent (run cs a)
  unfolding run
  run-IsSolvent [] a p h = h
  run-IsSolvent (c ∷ cs) a p h = run-IsSolvent cs (step c a) p.1 (step-IsSolvent c a p.0 h)
