-- ===== src/Billing/InMemory/SolventHolds.antt =====
-- src/exchange/internal/billing/inmemory_adapter.go: Authorize, Record and Release keep the balances above
-- the pending reservations.
use reference_implementation.Common.{
  Sha256, ◌≡◌, ◌⊎◌, inl, inr, none, some, [], arith, Text, text_eq, text_eq_iff, ℤ, pos, ◌+ℤ◌, ◌*ℤ◌,
  ◌≤ℤ◌, int_laws, *ℤ_nonneg, lookup, Option-cases, Bool-cases, leb_ℤ, ltb_ℤ, eqb_ℤ,
}
use reference_implementation.Billing.Types.{Amount, AuthorizeRequest}
use reference_implementation.Billing.InMemory.State.{
  Adapter, Reservation, free_auth, mark_op_done, op_already_done, op_record, op_release,
}
use reference_implementation.Billing.InMemory.Holds.{
  held, check_currency_and_balance, reserve, authorize_held, authorize_fresh, authorize, settle,
  record_tx, release, live_hold,
}
use reference_implementation.Billing.InMemory.Step.{Call, authorize_call}
use reference_implementation.Billing.InMemory.Covered.{
  Covers, Covers-erase, Covers-settle, Covers-reserve,
}

abbrev pub IsSolvent : Adapter → Type 0
IsSolvent a = Covers a.balances a.reserved

-- The charge of a request is not negative.
abbrev pub IsPriced : Call → Type 0
IsPriced (authorize_call req) = pos 0 ≤ℤ req.unit_cost.value
IsPriced _ = Unit

module _ ⦃sha : Sha256⦄ where
  reserve-IsSolvent :
      (req : AuthorizeRequest) (charge : ℤ) (a : Adapter) (bal : Amount)
      → IsSolvent a
      → a.balances req.billing_ref ≡ some bal
      → pos 0 ≤ℤ charge
      → (charge ≡ pos 0)
        ⊎ ((req.unit_cost.currency ≡ bal.currency)
            × (held req.billing_ref bal.currency a.reserved +ℤ charge ≤ℤ bal.value))
      → IsSolvent (reserve req charge a).1
  unfolding reserve
  reserve-IsSolvent req charge a bal h e p room =
      Covers-reserve a.balances a.reserved h _ _ bal e p room

  authorize_held-IsSolvent :
      (req : AuthorizeRequest) (charge : ℤ) (a : Adapter) (bal : Amount)
      → IsSolvent a
      → a.balances req.billing_ref ≡ some bal
      → pos 0 ≤ℤ charge
      → (charge ≡ pos 0)
        ⊎ ((req.unit_cost.currency ≡ bal.currency)
            × (held req.billing_ref bal.currency a.reserved +ℤ charge ≤ℤ bal.value))
      → IsSolvent (authorize_held req charge a).1
  unfolding authorize_held reserve
  authorize_held-IsSolvent req charge a bal h e p room =
      elim (Option-cases (a.quotas req.billing_ref)) [
        | inl uncapped ↦
            rw (uncapped, authorize_held) (reserve-IsSolvent req charge a bal h e p room)
        | inr (q, capped) ↦ elim (Bool-cases (ltb_ℤ q req.quantity)) [
          | inl over ↦ rw (capped, over, authorize_held) h
          | inr fits ↦
              rw (capped, fits, authorize_held)
                (Covers-reserve a.balances a.reserved h _ _ bal e p room)
        ]
      ]

  -- The money gate passes a request of no charge, or one that the available balance covers.
  check-covers :
      (req : AuthorizeRequest) (bal : Amount) (charge : ℤ) (a : Adapter)
      → check_currency_and_balance req bal charge a ≡ none
      → (req.unit_cost.currency ≡ bal.currency)
        × (held req.billing_ref bal.currency a.reserved +ℤ charge ≤ℤ bal.value)
  unfolding check_currency_and_balance
  check-covers req bal charge a h =
      grind (int_laws, text_eq_iff bal.currency req.unit_cost.currency)

  authorize_fresh-IsSolvent :
      (req : AuthorizeRequest) (bal : Amount) (a : Adapter)
      → pos 0 ≤ℤ req.unit_cost.value
      → IsSolvent a
      → a.balances req.billing_ref ≡ some bal
      → IsSolvent (authorize_fresh req bal a).1
  unfolding authorize_fresh
  authorize_fresh-IsSolvent req bal a p h e =
      let charge = req.unit_cost.value *ℤ req.quantity in
      elim (Bool-cases (leb_ℤ req.quantity (pos 0))) [
        | inl empty_order ↦ rw (empty_order, authorize_fresh) h
        | inr some_units ↦
            let charge_nonneg = *ℤ_nonneg req.unit_cost.value req.quantity p (ground arith) in
            elim (Bool-cases (eqb_ℤ charge (pos 0))) [
              | inl free ↦
                  rw (some_units, free, authorize_fresh)
                    (authorize_held-IsSolvent req charge a bal h e charge_nonneg
                      (inl (ground arith)))
              | inr paid ↦ elim (Option-cases (check_currency_and_balance req bal charge a)) [
                | inl passed ↦
                    rw (some_units, paid, passed, authorize_fresh)
                      (authorize_held-IsSolvent req charge a bal h e charge_nonneg
                        (inr (check-covers req bal charge a passed)))
                | inr (denial, refused) ↦ rw (some_units, paid, refused, authorize_fresh) h
              ]
            ]
      ]

  pub authorize-IsSolvent :
      (req : AuthorizeRequest) (a : Adapter)
      → pos 0 ≤ℤ req.unit_cost.value
      → IsSolvent a
      → IsSolvent (authorize req a).1
  unfolding authorize
  authorize-IsSolvent req a p h = elim (Option-cases (live_hold req a)) [
    | inr (bid, live) ↦ rw (live, authorize) h
    | inl fresh ↦ elim (Option-cases (a.balances req.billing_ref)) [
      | inl missing ↦ rw (fresh, missing, authorize) h
      | inr (bal, e) ↦ rw (fresh, e, authorize) (authorize_fresh-IsSolvent req bal a p h e)
    ]
  ]

  pub mark_op_done-IsSolvent :
      (id op key : Text) (a : Adapter) → IsSolvent a → IsSolvent (mark_op_done id op key a)
  unfolding mark_op_done
  mark_op_done-IsSolvent id op key a h = elim (Bool-cases (text_eq key [])) [
    | inl keyless ↦ rw (keyless, mark_op_done) h
    | inr keyed ↦ rw (keyed, mark_op_done) h
  ]

  free_auth-IsSolvent :
      (res : Reservation) (a : Adapter) → IsSolvent a → IsSolvent (free_auth res a)
  unfolding free_auth
  free_auth-IsSolvent res a h = elim (Bool-cases (text_eq res.auth_key [])) [
    | inl keyless ↦ rw (keyless, free_auth) h
    | inr keyed ↦ rw (keyed, free_auth) h
  ]

  settle-IsSolvent :
      (id key : Text) (res : Reservation) (a : Adapter)
      → IsSolvent a
      → lookup id a.reserved ≡ some res
      → IsSolvent (settle id key res a).1
  unfolding settle
  settle-IsSolvent id key res a h e = elim (Option-cases (a.balances res.billing_ref)) [
    | inl missing ↦ rw (missing, settle) h
    | inr (bal, f) ↦
        rw (f, settle)
          (mark_op_done-IsSolvent id _ key _
            (free_auth-IsSolvent res _ (Covers-settle a.balances a.reserved h id res bal e f)))
  ]

  pub record_tx-IsSolvent :
      (id : Text) (quantity : ℤ) (key : Text) (a : Adapter)
      → IsSolvent a
      → IsSolvent (record_tx id quantity key a).1
  unfolding record_tx
  record_tx-IsSolvent id quantity key a h = elim (Bool-cases (op_already_done id op_record key a)) [
    | inl replayed ↦ rw (replayed, record_tx) h
    | inr first ↦ elim (Option-cases (lookup id a.reserved)) [
      | inl missing ↦ rw (first, missing, record_tx) h
      | inr (res, e) ↦ rw (first, e, record_tx) (settle-IsSolvent id key res a h e)
    ]
  ]

  pub release-IsSolvent :
      (id key : Text) (a : Adapter) → IsSolvent a → IsSolvent (release id key a).1
  unfolding release
  release-IsSolvent id key a h = elim (Bool-cases (op_already_done id op_release key a)) [
    | inl replayed ↦ rw (replayed, release) h
    | inr first ↦ elim (Option-cases (lookup id a.reserved)) [
      | inl missing ↦ rw (first, missing, release) h
      | inr (res, e) ↦
          rw (first, e, release)
            (mark_op_done-IsSolvent id _ key _
              (free_auth-IsSolvent res _ (Covers-erase a.balances a.reserved h id res e)))
    ]
  ]
  -- What passes the refund gate is a positive amount.
