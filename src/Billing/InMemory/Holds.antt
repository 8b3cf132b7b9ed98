-- ===== src/Billing/InMemory/Holds.antt =====
-- src/exchange/internal/billing/inmemory_adapter.go: Authorize, Record and Release. Each method
-- runs under the adapter's mutex, so it is one function from a state to a result and a state.
use reference_implementation.Common.{
  Sha256, ◌+◌, ◌%◌, ◌^◌, ◌&&◌, Option, none, some, List, [], ◌∷◌, Text, codes, text_eq,
  if◌then◌else◌, ℤ, pos, ◌+ℤ◌, ◌-ℤ◌, leb_ℤ, ltb_ℤ, eqb_ℤ, wrap64, Map, put, lookup, insert, erase,
}
use reference_implementation.Billing.Types.{
  Amount, AuthorizeRequest, AuthorizeResult, Error, unknown_billing_id, panicked, total_charge,
}
use reference_implementation.Billing.InMemory.State.{
  Reservation, Adapter, op_record, op_release, mint_id, denied, approved_as, auth_map_key,
  op_already_done, mark_op_done, free_auth,
}

-- The pending reservations of an account in one currency.
unfoldable pub held : Text → Text → List (Text × Reservation) → ℤ
held ref cur [] = pos 0
held ref cur ((id, r) ∷ rs) =
    let rest = held ref cur rs in
    if text_eq r.billing_ref ref && text_eq r.est_amt.currency cur
    then r.est_amt.value +ℤ rest
    else rest

-- `none` lets the request pass.
unfoldable pub check_currency_and_balance :
    AuthorizeRequest → Amount → ℤ → Adapter → Option AuthorizeResult
check_currency_and_balance req bal charge a =
    if text_eq bal.currency req.unit_cost.currency
    then if ltb_ℤ (bal.value -ℤ held req.billing_ref bal.currency a.reserved) charge
      then some (denied (codes "insufficient balance"))
      else none
    else some (denied (codes "currency mismatch"))

-- `none` refuses the request: the quota is exhausted.
unfoldable pub consume_quota : AuthorizeRequest → Adapter → Option Adapter
consume_quota req a = elim (a.quotas req.billing_ref) [
  | none ↦ some a
  | some q ↦
      if ltb_ℤ q req.quantity
      then none
      else some (record a { quotas = put a.quotas req.billing_ref (wrap64 (q -ℤ req.quantity)) })
]

module _ ⦃sha : Sha256⦄ where
  -- A uint64 counter.
  abbrev pub next_id : Adapter → Text
  next_id a = mint_id a.id_prefix ((a.next_idx + 1) % 2 ^ 64)

  unfoldable pub reserve : AuthorizeRequest → ℤ → Adapter → AuthorizeResult × Adapter
  reserve req charge a = (
    approved_as (next_id a),
    record a {
      next_idx = (a.next_idx + 1) % 2 ^ 64;
      reserved =
          insert (next_id a)
            (record {
              billing_ref = req.billing_ref;
              est_amt = record { value = charge; currency = req.unit_cost.currency };
              est_qty = req.quantity;
              auth_key = req.idempotency_key;
            })
            a.reserved;
      auth_seen =
          if text_eq req.idempotency_key []
          then a.auth_seen
          else put a.auth_seen (auth_map_key req.billing_ref req.idempotency_key) (next_id a);
    },
  )

  -- The part of `Authorize` below the money gate.
  unfoldable pub authorize_held : AuthorizeRequest → ℤ → Adapter → AuthorizeResult × Adapter
  unfolding consume_quota
  authorize_held req charge a = elim (consume_quota req a) [
    | none ↦ (denied (codes "quota exhausted"), a)
    | some a' ↦ reserve req charge a'
  ]

  abbrev pub money_gate : AuthorizeRequest → Amount → ℤ → Adapter → Option AuthorizeResult
  money_gate req bal charge a =
      if eqb_ℤ charge (pos 0) then none else check_currency_and_balance req bal charge a

  unfoldable pub authorize_fresh : AuthorizeRequest → Amount → Adapter → AuthorizeResult × Adapter
  unfolding check_currency_and_balance total_charge
  authorize_fresh req bal a =
      if leb_ℤ req.quantity (pos 0)
      then (denied (codes "non-positive quantity"), a)
      else let charge = (total_charge req.unit_cost req.quantity).value in
        elim (money_gate req bal charge a) [
          | some denial ↦ (denial, a)
          | none ↦ authorize_held req charge a
        ]

  abbrev pub live_hold : AuthorizeRequest → Adapter → Option Text
  live_hold req a =
      if text_eq req.idempotency_key []
      then none
      else a.auth_seen (auth_map_key req.billing_ref req.idempotency_key)

  unfoldable pub authorize : AuthorizeRequest → Adapter → AuthorizeResult × Adapter
  authorize req a = elim (live_hold req a) [
    | some bid ↦ (approved_as bid, a)
    | none ↦ elim (a.balances req.billing_ref) [
      | none ↦ (denied (codes "unknown account"), a)
      | some bal ↦ authorize_fresh req bal a
    ]
  ]

  -- An error, or `none` for success.
  unfoldable pub settle : Text → Text → Reservation → Adapter → Option Error × Adapter
  unfolding free_auth mark_op_done
  settle billing_id key res a = elim (a.balances res.billing_ref) [
    | none ↦ (some panicked, a)
    | some bal ↦ (
      none,
      mark_op_done billing_id op_record key (
          free_auth res (record a {
            balances =
                put a.balances res.billing_ref
                  (record bal { value = bal.value -ℤ res.est_amt.value });
            recorded =
                put a.recorded billing_id
                  (record { billing_ref = res.billing_ref; amt = res.est_amt });
            reserved = erase billing_id a.reserved;
          })),
    )
  ]

  unfoldable pub record_tx : Text → ℤ → Text → Adapter → Option Error × Adapter
  unfolding op_already_done
  record_tx billing_id advisory_quantity key a =
      if op_already_done billing_id op_record key a
      then (none, a)
      else elim (lookup billing_id a.reserved) [
        | none ↦ (some unknown_billing_id, a)
        | some res ↦ settle billing_id key res a
      ]

  -- `a.quotas[ref] += qty` where the account has a quota.
  abbrev pub restored_quotas : Reservation → Adapter → Map ℤ
  restored_quotas res a = elim (a.quotas res.billing_ref) [
    | none ↦ a.quotas
    | some q ↦ put a.quotas res.billing_ref (wrap64 (q +ℤ res.est_qty))
  ]

  unfoldable pub release : Text → Text → Adapter → Option Error × Adapter
  unfolding op_already_done free_auth mark_op_done
  release billing_id key a =
      if op_already_done billing_id op_release key a
      then (none, a)
      else elim (lookup billing_id a.reserved) [
        | none ↦ (some unknown_billing_id, a)
        | some res ↦ (
          none,
          mark_op_done billing_id op_release key (
              free_auth res (record a {
                quotas = restored_quotas res a;
                reserved = erase billing_id a.reserved;
              })),
        )
      ]
