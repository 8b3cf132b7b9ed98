-- ===== src/Billing/InMemory/Covered.antt =====
-- src/exchange/internal/billing/inmemory_adapter.go: pending reservations never pass the balance.
use reference_implementation.Common.{
  ◌≡◌, ◌⊎◌, inl, inr, refl, Option, none, some, List, [], ◌∷◌, arith, Text, text_eq, text_eq_iff, ℤ,
  pos, ◌+ℤ◌, ◌-ℤ◌, ◌≤ℤ◌, int_laws, Map, put, lookup, insert, erase, Option-cases, Bool-cases,
  if◌then◌else◌, ◌&&◌,
}
use reference_implementation.Billing.Types.{Amount}
use reference_implementation.Billing.InMemory.State.{Reservation}
use reference_implementation.Billing.InMemory.Holds.{held}

-- The account of a reservation exists; a charge that is not zero is in the account's currency.
abbrev pub Backed : Option Amount → Reservation → Type 0
Backed none r = ⊥
Backed (some bal) r = (r.est_amt.currency ≡ bal.currency) ⊎ (r.est_amt.value ≡ pos 0)

abbrev pub AllBacked : Map Amount → List (Text × Reservation) → Type 0
AllBacked m [] = Unit
AllBacked m ((id, r) ∷ rs) =
    (pos 0 ≤ℤ r.est_amt.value) × Backed (m r.billing_ref) r × AllBacked m rs

abbrev pub amount_in : Text → Text → Reservation → ℤ
amount_in ref cur r =
    if text_eq r.billing_ref ref && text_eq r.est_amt.currency cur then r.est_amt.value else pos 0

module _ (ref cur : Text) (m : Map Amount) where
  held_nonneg : (rs : List (Text × Reservation)) → AllBacked m rs → pos 0 ≤ℤ held ref cur rs
  unfolding held
  held_nonneg [] h = omega arith
  held_nonneg ((id, r) ∷ rs) h = grind (int_laws, held_nonneg rs h.2)

  pub held-erase :
      (k : Text) (r : Reservation) (rs : List (Text × Reservation))
      → lookup k rs ≡ some r
      → held ref cur (erase k rs) +ℤ amount_in ref cur r ≡ held ref cur rs
  unfolding held
  held-erase k r [] e = cc
  held-erase k r ((id, q) ∷ rs) e = grind (int_laws, held-erase k r rs)

  pub held-insert_le :
      (k : Text) (r : Reservation) (rs : List (Text × Reservation))
      → AllBacked m rs
      → held ref cur (insert k r rs) ≤ℤ held ref cur rs +ℤ amount_in ref cur r
  unfolding held
  held-insert_le k r [] h = grind int_laws
  held-insert_le k r ((id, q) ∷ rs) h =
      grind (int_laws, held-insert_le k r rs h.2, held_nonneg rs h.2)

-- The balances against the reservations, in every account and currency.
pub record Covers (m : Map Amount) (rs : List (Text × Reservation)) : Type 0 where
  pub backed : AllBacked m rs
  pub within : (ref : Text) (b : Amount) → m ref ≡ some b → held ref b.currency rs ≤ℤ b.value

module _ (m : Map Amount) where
  pub AllBacked-lookup :
      (k : Text) (r : Reservation) (rs : List (Text × Reservation))
      → AllBacked m rs
      → lookup k rs ≡ some r
      → (pos 0 ≤ℤ r.est_amt.value) × Backed (m r.billing_ref) r
  AllBacked-lookup k r [] h e = cc
  AllBacked-lookup k r ((id, q) ∷ rs) h e = elim (Bool-cases (text_eq id k)) [
    | inl same ↦ ground arith
    | inr other ↦ AllBacked-lookup k r rs h.2 (ground arith)
  ]

  AllBacked-erase :
      (k : Text) (rs : List (Text × Reservation)) → AllBacked m rs → AllBacked m (erase k rs)
  AllBacked-erase k [] h = tt
  AllBacked-erase k ((id, q) ∷ rs) h = ground (arith, AllBacked-erase k rs h.2)

  AllBacked-insert :
      (k : Text) (r : Reservation) (rs : List (Text × Reservation))
      → AllBacked m rs
      → pos 0 ≤ℤ r.est_amt.value
      → Backed (m r.billing_ref) r
      → AllBacked m (insert k r rs)
  AllBacked-insert k r [] h p b = (p, b, tt)
  AllBacked-insert k r ((id, q) ∷ rs) h p b = elim (Bool-cases (text_eq id k)) [
    | inl same ↦ rw same (p, b, h.2)
    | inr other ↦ rw other (h.0, h.1, AllBacked-insert k r rs h.2 p b)
  ]

  -- An account that does not exist holds nothing.
  held-none :
      (ref cur : Text) (rs : List (Text × Reservation))
      → AllBacked m rs
      → m ref ≡ none
      → held ref cur rs ≡ pos 0
  unfolding held
  held-none ref cur [] h e = refl
  held-none ref cur ((id, r) ∷ rs) h e =
      ground (arith, text_eq_iff r.billing_ref ref, held-none ref cur rs h.2 e)

-- A new value for the balance of an account that keeps its currency.
Backed-put :
    (m : Map Amount) (ref : Text) (b : Amount) (r : Reservation)
    → ((old : Amount) → m ref ≡ some old → b.currency ≡ old.currency)
    → Backed (m r.billing_ref) r
    → Backed (put m ref b r.billing_ref) r
Backed-put m ref b r keep h = elim (Option-cases (m r.billing_ref)) [
  | inl missing ↦ absurd (rw missing at h)
  | inr (old, e) ↦ elim (Bool-cases (text_eq ref r.billing_ref)) [
    | inl same ↦ ground (arith, text_eq_iff ref r.billing_ref, keep old)
    | inr other ↦ rw other h
  ]
]

AllBacked-put :
    (m : Map Amount) (ref : Text) (b : Amount) (rs : List (Text × Reservation))
    → ((old : Amount) → m ref ≡ some old → b.currency ≡ old.currency)
    → AllBacked m rs
    → AllBacked (put m ref b) rs
AllBacked-put m ref b [] keep h = tt
AllBacked-put m ref b ((id, r) ∷ rs) keep h =
    (h.0, Backed-put m ref b r keep h.1, AllBacked-put m ref b rs keep h.2)

module _ (m : Map Amount) (rs : List (Text × Reservation)) (c : Covers m rs) where
  pub Covers-erase : (k : Text) (r : Reservation) → lookup k rs ≡ some r → Covers m (erase k rs)
  Covers-erase k r e = record {
    backed = AllBacked-erase m k rs c.backed;
    within = λ ref b h.
        let ok = AllBacked-lookup m k r rs c.backed e in
        grind (int_laws, c.within ref b h, held-erase ref b.currency m k r rs e);
  }

  pub Covers-settle :
      (k : Text) (r : Reservation) (bal : Amount)
      → lookup k rs ≡ some r
      → m r.billing_ref ≡ some bal
      → Covers
          (put m r.billing_ref (record bal { value = bal.value -ℤ r.est_amt.value }))
          (erase k rs)
  Covers-settle k r bal e f = record {
    backed =
        AllBacked-put m r.billing_ref _ (erase k rs) (λ old h. ground arith)
          (AllBacked-erase m k rs c.backed);
    within = λ ref b h.
        let ok = AllBacked-lookup m k r rs c.backed e in
        grind (
          int_laws,
          c.within r.billing_ref bal f,
          c.within ref b,
          held-erase ref b.currency m k r rs e,
          text_eq_iff r.billing_ref ref,
          text_eq_iff r.est_amt.currency b.currency,
        );
  }

  pub Covers-raise :
      (ref : Text) (bal : Amount) (v : ℤ)
      → m ref ≡ some bal
      → pos 0 ≤ℤ v
      → Covers (put m ref (record bal { value = bal.value +ℤ v })) rs
  Covers-raise ref bal v f p = record {
    backed = AllBacked-put m ref _ rs (λ old h. ground arith) c.backed;
    within = λ j b h. grind (int_laws, c.within ref bal f, c.within j b, text_eq_iff ref j);
  }

  pub Covers-open :
      (ref : Text) (b : Amount) → m ref ≡ none → pos 0 ≤ℤ b.value → Covers (put m ref b) rs
  Covers-open ref b f p = record {
    backed = AllBacked-put m ref b rs (λ old h. ground arith) c.backed;
    within = λ j b' h.
        grind
          (int_laws, c.within j b', text_eq_iff ref j, held-none m ref b.currency rs c.backed f);
  }

  pub Covers-reserve :
      (k : Text) (r : Reservation) (bal : Amount)
      → m r.billing_ref ≡ some bal
      → pos 0 ≤ℤ r.est_amt.value
      → (r.est_amt.value ≡ pos 0)
        ⊎ ((r.est_amt.currency ≡ bal.currency)
            × (held r.billing_ref bal.currency rs +ℤ r.est_amt.value ≤ℤ bal.value))
      → Covers m (insert k r rs)
  Covers-reserve k r bal f p room = record {
    backed = AllBacked-insert m k r rs c.backed p (rw f (ground arith));
    within = λ j b h. grind (
      int_laws,
      c.within j b h,
      held-insert_le j b.currency m k r rs c.backed,
      text_eq_iff r.billing_ref j,
      text_eq_iff r.est_amt.currency b.currency,
    );
  }
