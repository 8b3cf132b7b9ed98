-- ===== src/Exchange/PrepaidLedger.antt =====
-- src/exchange/internal/billing/inmemory_adapter.go: the prepaid adapter as the ledger that
-- ExecuteTransaction runs over.
use reference_implementation.Common.{
  Sha256, ℕ, suc, ◌+◌, ◌%◌, ◌^◌, ◌≡◌, inl, inr, refl, Bool, true, false, none, some, [], ◌∷◌, Text,
  text_eq, text_eq_refl, ℤ, pos, ◌-ℤ◌, leb_ℤ, ltb_ℤ, eqb_ℤ, wrap64, ◌*ℤ◌, arith, Bool-cases,
  Option-cases, put, Map, lookup-insert,
}
use reference_implementation.Billing.Types.{Amount, AuthorizeRequest, AuthorizeResult, total_charge}
use reference_implementation.Billing.InMemory.State.{Adapter, Reservation, mint_id}
use reference_implementation.Billing.InMemory.Holds.{
  authorize, authorize_fresh, authorize_held, reserve, live_hold, consume_quota, money_gate,
}
use reference_implementation.Exchange.Kinds.{Result, failure, success}
use reference_implementation.Exchange.Deps.{answered}
use reference_implementation.Exchange.Charges.{approval_verdict}
use reference_implementation.Exchange.Ledger.{Ledger}
use reference_implementation.Exchange.PrepaidHolds.{
  prepaid, QuietAccount, OpenAccount, Roomy-weaken, Roomy-reserve,
}
use reference_implementation.Exchange.Prepaid.{prepaid_balance, release-Quiet, record-Quiet}
use reference_implementation.Billing.InMemory.LiveHolds.{check-denies}

abbrev reservation_of : AuthorizeRequest → Reservation
reservation_of req = record {
  billing_ref = req.billing_ref;
  est_amt = record {
    value = (total_charge req.unit_cost req.quantity).value;
    currency = req.unit_cost.currency;
  };
  est_qty = req.quantity;
  auth_key = req.idempotency_key;
}

mint_id-named : (p : Text) (i : ℕ) → text_eq p [] ≡ false → text_eq (mint_id p i) [] ≡ false
unfolding mint_id text_eq
mint_id-named [] i h = absurd (cc)
mint_id-named (c ∷ p) i h = refl

module _ ⦃sha : Sha256⦄ (acct : Text) (n : ℕ) (req : AuthorizeRequest) (a : Adapter)
    (h : QuietAccount (suc n) req.billing_ref a)
    (keyed : text_eq req.idempotency_key [] ≡ false) where
  -- What an answer to the request leaves: the hold that it names, or no hold.
  abbrev pub TakenBy : Bool → Text → Adapter → Type 0
  TakenBy true id b = OpenAccount n req id b × (text_eq id [] ≡ false)
  TakenBy false id b = QuietAccount n req.billing_ref b

  abbrev pub Taken : AuthorizeResult × Adapter → Type 0
  Taken (r, b) =
      TakenBy r.approved r.billing_id b × (prepaid_balance acct b ≡ prepaid_balance acct a)

  -- The same, by the verdict.
  abbrev pub VerdictLeaves : Adapter → Result AuthorizeResult → Type 0
  VerdictLeaves b (failure k) =
      QuietAccount n req.billing_ref b × (prepaid_balance acct b ≡ prepaid_balance acct a)
  VerdictLeaves b (success r) =
      OpenAccount n req r.billing_id b
      × (text_eq r.billing_id [] ≡ false)
      × (prepaid_balance acct b ≡ prepaid_balance acct a)

  still_quiet : QuietAccount n req.billing_ref a
  still_quiet = record {
    roomy = Roomy-weaken n a.id_prefix a.next_idx a.reserved a.op_seen h.roomy;
    unlocked = h.unlocked;
  }

  reserve-Taken :
      (qs : Map ℤ) (bal : Amount)
      → a.balances req.billing_ref ≡ some bal
      → Taken
          (reserve req (total_charge req.unit_cost req.quantity).value (record a { quotas = qs }))
  unfolding reserve
  reserve-Taken qs bal e =
      let wraps : (a.next_idx + 1) % 2 ^ 64 ≡ a.next_idx + 1 = omega (arith, h.roomy.room) in
      rw (reserve, wraps, keyed)
        (
          (
            record {
              roomy =
                  Roomy-reserve n a.id_prefix a.next_idx a.reserved a.op_seen (reservation_of req)
                    h.roomy;
              keyed = keyed;
              minted = refl;
              held =
                  (reservation_of req, rw (lookup-insert, text_eq_refl) refl, (refl, refl, refl));
              account = (bal, e);
              undone = λ op key. h.roomy.unmarked op key (a.next_idx + 1) (omega arith);
              unlocked = λ key differs. rw differs (h.unlocked key);
            },
            mint_id-named a.id_prefix (a.next_idx + 1) h.roomy.prefixed,
          ),
          refl,
        )

  authorize_held-Taken :
      (bal : Amount)
      → a.balances req.billing_ref ≡ some bal
      → Taken (authorize_held req (total_charge req.unit_cost req.quantity).value a)
  unfolding authorize_held consume_quota
  authorize_held-Taken bal e = elim (Option-cases (a.quotas req.billing_ref)) [
    | inl unlimited ↦ rw (authorize_held, consume_quota, unlimited) (reserve-Taken a.quotas bal e)
    | inr (q, f) ↦ elim (Bool-cases (ltb_ℤ q req.quantity)) [
      | inl over ↦ rw (authorize_held, consume_quota, f, over) (still_quiet, refl)
      | inr fits ↦
          rw (authorize_held, consume_quota, f, fits)
            (reserve-Taken (put a.quotas req.billing_ref (wrap64 (q -ℤ req.quantity))) bal e)
    ]
  ]

  money_denies :
      (bal : Amount) (charge : ℤ) (d : AuthorizeResult)
      → money_gate req bal charge a ≡ some d
      → d.approved ≡ false
  money_denies bal charge d h = elim (Bool-cases (eqb_ℤ charge (pos 0))) [
    | inl free ↦ absurd (cc (rw free at h))
    | inr priced ↦ check-denies req bal charge a d (rw priced at h)
  ]

  pub authorize-Taken : Taken (authorize req a)
  unfolding authorize authorize_fresh
  authorize-Taken =
      let charge = req.unit_cost.value *ℤ req.quantity in
      let unheld : live_hold req a ≡ none = rw keyed (h.unlocked req.idempotency_key) in
      elim (Option-cases (a.balances req.billing_ref)) [
        | inl unknown ↦ rw (authorize, unheld, unknown) (still_quiet, refl)
        | inr (bal, e) ↦ elim (Bool-cases (leb_ℤ req.quantity (pos 0))) [
          | inl nothing ↦ rw (authorize, unheld, e, authorize_fresh, nothing) (still_quiet, refl)
          | inr some_units ↦ elim (Option-cases (money_gate req bal charge a)) [
            | inl passed ↦
                rw (authorize, unheld, e, authorize_fresh, some_units, passed)
                  (authorize_held-Taken bal e)
            | inr (d, refused) ↦
                rw
                  (
                    authorize,
                    unheld,
                    e,
                    authorize_fresh,
                    some_units,
                    refused,
                    money_denies bal charge d refused,
                  )
                  (still_quiet, refl)
          ]
        ]
      ]

  pub verdict-Taken :
      (p : AuthorizeResult × Adapter) (r : Result AuthorizeResult)
      → Taken p
      → approval_verdict (answered p.0) ≡ r
      → VerdictLeaves p.1 r
  verdict-Taken (x, b) r (taken, same) e = go x.approved refl taken
    where
      go : (c : Bool) → x.approved ≡ c → TakenBy c x.billing_id b → VerdictLeaves b r
      go true c (hold, named) = rw (← e, c) (hold, named, same)
      go false c quiet = rw (← e, c) (quiet, same)

module _ ⦃sha : Sha256⦄ where
  abbrev pub prepaid_ledger : Ledger prepaid
  prepaid_ledger = record {
    balance = prepaid_balance;
    Quiet = QuietAccount;
    Open = OpenAccount;
    weaken = λ n ref b h. record {
      roomy = Roomy-weaken n b.id_prefix b.next_idx b.reserved b.op_seen h.roomy;
      unlocked = h.unlocked;
    };
    refuses = λ acct n req b k h keyed e.
        verdict-Taken acct n req b h keyed (authorize req b) (failure k)
          (authorize-Taken acct n req b h keyed) e;
    holds = λ acct n req b r h keyed e.
        verdict-Taken acct n req b h keyed (authorize req b) (success r)
          (authorize-Taken acct n req b h keyed) e;
    releases = λ acct n req id b h. release-Quiet n req id b h acct;
    charges = λ acct n req id q b h. record-Quiet n req id b h acct q;
  }
