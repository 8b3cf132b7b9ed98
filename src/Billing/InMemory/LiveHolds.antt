-- ===== src/Billing/InMemory/LiveHolds.antt =====
-- src/exchange/internal/billing/inmemory_adapter.go: the key of a hold. It answers while the hold is
-- pending, and is free once the hold is resolved.
use reference_implementation.Common.{
  Sha256, ◌≡◌, ◌≢◌, inl, inr, refl, false, true, none, some, List, [], Map, Text, text_eq,
  text_eq_refl, ℤ, Option-cases, Bool-cases, arith, lookup, leb_ℤ, pos, ◌*ℤ◌,
}
use reference_implementation.Billing.Types.{Amount, AuthorizeRequest, AuthorizeResult}
use reference_implementation.Billing.InMemory.Step.{Call, run}
use reference_implementation.Billing.InMemory.Keyed.{authorize-IsKeyed}
use reference_implementation.Billing.InMemory.KeyedRuns.{run-IsKeyed, new_adapter-IsKeyed}
use reference_implementation.Billing.InMemory.State.{
  Adapter, Reservation, approved_as, mark_op_done, op_already_done, op_record, op_release,
  free_auth, auth_map_key, new_adapter,
}
use reference_implementation.Billing.InMemory.Holds.{
  authorize, authorize_fresh, authorize_held, reserve, settle, record_tx, release, live_hold,
  check_currency_and_balance, consume_quota, money_gate,
}

module _ ⦃sha : Sha256⦄ where
  -- A request that was approved under a key is the live hold of that key.
  abbrev pub IsLive : AuthorizeRequest → AuthorizeResult × Adapter → Type 0
  IsLive req (r, b) = (live_hold req b ≡ some r.billing_id) × (r ≡ approved_as r.billing_id)

  reserve-IsLive :
      (req : AuthorizeRequest) (charge : ℤ) (a : Adapter)
      → text_eq req.idempotency_key [] ≡ false
      → IsLive req (reserve req charge a)
  unfolding reserve
  reserve-IsLive req charge a named =
      (rw (named, text_eq_refl (auth_map_key req.billing_ref req.idempotency_key)) refl, refl)

  authorize_held-IsLive :
      (req : AuthorizeRequest) (charge : ℤ) (a : Adapter)
      → text_eq req.idempotency_key [] ≡ false
      → (authorize_held req charge a).0.approved ≡ true
      → IsLive req (authorize_held req charge a)
  unfolding authorize_held
  authorize_held-IsLive req charge a named ok = elim (Option-cases (consume_quota req a)) [
    | inl over ↦ absurd (cc (rw (over, authorize_held) at ok))
    | inr (b, fits) ↦ rw (fits, authorize_held) (reserve-IsLive req charge b named)
  ]

  pub check-denies :
      (req : AuthorizeRequest) (bal : Amount) (charge : ℤ) (a : Adapter) (d : AuthorizeResult)
      → check_currency_and_balance req bal charge a ≡ some d
      → d.approved ≡ false
  unfolding check_currency_and_balance
  check-denies req bal charge a d h = ground arith

  authorize_fresh-IsLive :
      (req : AuthorizeRequest) (bal : Amount) (a : Adapter)
      → text_eq req.idempotency_key [] ≡ false
      → (authorize_fresh req bal a).0.approved ≡ true
      → IsLive req (authorize_fresh req bal a)
  unfolding authorize_fresh
  authorize_fresh-IsLive req bal a named ok =
      let charge = req.unit_cost.value *ℤ req.quantity in
      elim (Bool-cases (leb_ℤ req.quantity (pos 0))) [
        | inl empty_order ↦ absurd (cc (rw (empty_order, authorize_fresh) at ok))
        | inr some_units ↦ elim (Option-cases (money_gate req bal charge a)) [
          | inl passed ↦
              rw (some_units, passed, authorize_fresh)
                (authorize_held-IsLive req charge a named
                  (rw (some_units, passed, authorize_fresh) at ok))
          | inr (d, refused) ↦ absurd (
              ground (
                arith,
                rw (some_units, refused, authorize_fresh) at ok,
                check-denies req bal charge a d,
              ))
        ]
      ]

  authorize-IsLive :
      (req : AuthorizeRequest) (a : Adapter)
      → text_eq req.idempotency_key [] ≡ false
      → (authorize req a).0.approved ≡ true
      → IsLive req (authorize req a)
  unfolding authorize
  authorize-IsLive req a named ok = elim (Option-cases (live_hold req a)) [
    | inr (bid, live) ↦ rw (live, authorize) (live, refl)
    | inl fresh ↦ elim (Option-cases (a.balances req.billing_ref)) [
      | inl missing ↦ absurd (cc (rw (fresh, missing, authorize) at ok))
      | inr (bal, e) ↦
          rw (fresh, e, authorize)
            (authorize_fresh-IsLive req bal a named (rw (fresh, e, authorize) at ok))
    ]
  ]

  authorize_again :
      (req : AuthorizeRequest) (id : Text) (b : Adapter)
      → live_hold req b ≡ some id
      → authorize req b ≡ (approved_as id, b)
  authorize_again req id b live = unfold authorize in rw (live, authorize) refl

  -- A request that is approved under a key that is not empty becomes the live hold of its account
  -- and key. After any further calls, as long as a hold of that account and key is pending, every
  -- request under them is answered with that hold's billing id and changes nothing: no second
  -- reservation is made. The adapter is one that any calls led to from a new one.
  pub authorize_replay :
      (balances : Map Amount) (quotas : Map ℤ) (id_prefix : Text) (before after : List Call)
      (req req' : AuthorizeRequest) (id : Text) (res : Reservation)
      → text_eq req.idempotency_key [] ≡ false
      → (authorize req (run before (new_adapter balances quotas id_prefix))).0.approved ≡ true
      → req'.billing_ref ≡ req.billing_ref
      → req'.idempotency_key ≡ req.idempotency_key
      → lookup id
          (run after
            (authorize req (run before (new_adapter balances quotas id_prefix))).1).reserved
        ≡ some res
      → res.billing_ref ≡ req.billing_ref
      → res.auth_key ≡ req.idempotency_key
      → IsLive req (authorize req (run before (new_adapter balances quotas id_prefix)))
        × (authorize req'
              (run after (authorize req (run before (new_adapter balances quotas id_prefix))).1)
            ≡ (
              approved_as id,
              run after (authorize req (run before (new_adapter balances quotas id_prefix))).1,
            ))
  authorize_replay balances quotas id_prefix before after req req' id res named ok same_ref same_key
        pending of_ref of_key =
      let first = run before (new_adapter balances quotas id_prefix) in
      let keyed = run-IsKeyed after (authorize req first).1 (
        authorize-IsKeyed req first
          (run-IsKeyed before _ (new_adapter-IsKeyed balances quotas id_prefix))) in
      let bound = keyed.1 id res pending (rw of_key named) in
      (
        authorize-IsLive req first named ok,
        authorize_again req' id _ (rw (same_key, same_ref, named) (rw (of_ref, of_key) at bound)),
      )

  live_hold-mark_op_done :
      (req : AuthorizeRequest) (id op key : Text) (b : Adapter)
      → live_hold req (mark_op_done id op key b) ≡ live_hold req b
  unfolding mark_op_done
  live_hold-mark_op_done req id op key b = elim (Bool-cases (text_eq key [])) [
    | inl keyless ↦ rw (keyless, mark_op_done)
    | inr keyed ↦ rw (keyed, mark_op_done)
  ]

  live_hold-free_auth :
      (req : AuthorizeRequest) (res : Reservation) (b : Adapter)
      → res.billing_ref ≡ req.billing_ref
      → res.auth_key ≡ req.idempotency_key
      → live_hold req (free_auth res b) ≡ none
  unfolding free_auth
  live_hold-free_auth req res b same_ref same_key =
      rw (← same_ref, ← same_key)
        (elim (Bool-cases (text_eq res.auth_key [])) [
          | inl keyless ↦ rw keyless refl
          | inr keyed ↦
              rw (keyed, free_auth)
                (rw (text_eq_refl (auth_map_key res.billing_ref res.auth_key)) refl)
        ])

  -- Settling or releasing a pending hold, when it succeeds for the first time, frees the key that
  -- the hold was authorized under: no hold of that account and key is live.
  pub resolve_frees_key :
      (req : AuthorizeRequest) (id key : Text) (q : ℤ) (res : Reservation) (a : Adapter)
      → op_already_done id op_record key a ≡ false
      → op_already_done id op_release key a ≡ false
      → lookup id a.reserved ≡ some res
      → a.balances res.billing_ref ≢ none
      → res.billing_ref ≡ req.billing_ref
      → res.auth_key ≡ req.idempotency_key
      → (live_hold req (record_tx id q key a).1 ≡ none)
        × (live_hold req (release id key a).1 ≡ none)
  unfolding release record_tx settle
  resolve_frees_key req id key q res a first first' e open_account same_ref same_key = (
    elim (Option-cases (a.balances res.billing_ref)) [
      | inl gone ↦ absurd (open_account gone)
      | inr (bal, f) ↦
          rw (first, e, f, record_tx, settle)
            (rw live_hold-mark_op_done (live_hold-free_auth req res _ same_ref same_key))
    ],
    rw (first', e, release)
        (rw live_hold-mark_op_done (live_hold-free_auth req res _ same_ref same_key)),
  )
