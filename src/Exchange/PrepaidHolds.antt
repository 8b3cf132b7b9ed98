-- ===== src/Exchange/PrepaidHolds.antt =====
-- src/exchange/internal/billing/inmemory_adapter.go: the holds and ids of the prepaid
-- adapter, as ExecuteTransaction meets them.
use reference_implementation.Common.{
  Sha256, ℕ, suc, ◌+◌, ◌^◌, ◌<◌, ◌≡◌, ◌≢◌, inl, inr, sym, ◌∙◌, Bool, false, none, some, List, [],
  Text, text_eq, text_eq_iff, text_eq→eq, arith, Bool-cases, lookup, insert, erase, lookup-insert,
  lookup-erase, Distinct, Distinct-erase, Distinct-insert, append_cancel, zero_cut,
  print_padded-ZeroFree, print_padded_injective,
}
use mathlib.Core.List.{append_assoc}
use reference_implementation.Billing.Types.{Amount, AuthorizeRequest, total_charge}
use reference_implementation.Billing.InMemory.State.{
  Adapter, Reservation, mint_id, op_key, auth_map_key, add_key,
}
use reference_implementation.Billing.InMemory.Holds.{authorize, record_tx, release}
use reference_implementation.Billing.InMemory.Capped.{mint_id_injective}
use reference_implementation.Exchange.Deps.{BillingAdapter, answered}

module _ ⦃sha : Sha256⦄ where
  abbrev pub prepaid : BillingAdapter Adapter
  prepaid = record {
    authorize = λ req a. (answered (authorize req a).0, (authorize req a).1);
    record_tx = record_tx;
    release = release;
  }

  -- Operations on different minted ids have different keys.
  op_key-apart :
      (p op op' key key' : Text) (m n : ℕ)
      → m ≢ n
      → text_eq (op_key (mint_id p m) op key) (op_key (mint_id p n) op' key') ≡ false
  unfolding op_key mint_id
  op_key-apart p op op' key key' m n differ =
      elim (Bool-cases (text_eq (op_key (mint_id p m) op key) (op_key (mint_id p n) op' key'))) [
        | inr apart ↦ apart
        | inl same ↦ absurd (
            differ (
              print_padded_injective 6 m n (
                zero_cut _ _ _ _ (print_padded-ZeroFree 6 m) (print_padded-ZeroFree 6 n) (
                  append_cancel p _ _
                    (sym (append_assoc p _ _) ∙ text_eq→eq _ _ same ∙ append_assoc p _ _)))))
      ]

-- The ids that are still to be minted, of which nothing is held or marked, and room for n of them.
pub record Roomy ⦃sha : Sha256⦄ (n : ℕ) (p : Text) (idx : ℕ) (rs : List (Text × Reservation))
    (seen : Text → Bool) : Type 0 where
  pub room : idx + n < 2 ^ 64
  pub distinct : Distinct rs
  pub prefixed : text_eq p [] ≡ false
  pub unheld : (i : ℕ) → idx < i → lookup (mint_id p i) rs ≡ none
  pub unmarked : (op key : Text) (i : ℕ) → idx < i → seen (op_key (mint_id p i) op key) ≡ false

abbrev pub IsRoomy : ⦃sha : Sha256⦄ → ℕ → Adapter → Type 0
IsRoomy n a = Roomy n a.id_prefix a.next_idx a.reserved a.op_seen

pub record QuietAccount ⦃sha : Sha256⦄ (n : ℕ) (ref : Text) (a : Adapter) : Type 0 where
  pub roomy : IsRoomy n a
  pub unlocked : (key : Text) → a.auth_seen (auth_map_key ref key) ≡ none

-- The reservation that a request makes.
abbrev pub IsFor : AuthorizeRequest → Reservation → Type 0
IsFor req res =
    (res.billing_ref ≡ req.billing_ref)
    × (res.auth_key ≡ req.idempotency_key)
    × (res.est_amt.value ≡ (total_charge req.unit_cost req.quantity).value)

pub record OpenAccount ⦃sha : Sha256⦄ (n : ℕ) (req : AuthorizeRequest) (id : Text) (a : Adapter)
    : Type 0 where
  pub roomy : IsRoomy n a
  pub keyed : text_eq req.idempotency_key [] ≡ false
  pub minted : id ≡ mint_id a.id_prefix a.next_idx
  pub held : (res : Reservation) × (lookup id a.reserved ≡ some res) × IsFor req res
  pub account : (bal : Amount) × (a.balances req.billing_ref ≡ some bal)
  pub undone : (op key : Text) → a.op_seen (op_key id op key) ≡ false
  pub unlocked :
      (key : Text)
      → text_eq
          (auth_map_key req.billing_ref req.idempotency_key)
          (auth_map_key req.billing_ref key)
        ≡ false
      → a.auth_seen (auth_map_key req.billing_ref key) ≡ none

module _ ⦃sha : Sha256⦄ (n : ℕ) (p : Text) (idx : ℕ) (rs : List (Text × Reservation))
    (seen : Text → Bool) where
  pub Roomy-weaken : Roomy (suc n) p idx rs seen → Roomy n p idx rs seen
  Roomy-weaken h = record {
    room = omega (arith, h.room);
    distinct = h.distinct;
    prefixed = h.prefixed;
    unheld = h.unheld;
    unmarked = h.unmarked;
  }

  pub Roomy-reserve :
      (r : Reservation)
      → Roomy (suc n) p idx rs seen
      → Roomy n p (idx + 1) (insert (mint_id p (idx + 1)) r rs) seen
  Roomy-reserve r h = record {
    room = omega (arith, h.room);
    distinct = Distinct-insert _ r rs h.distinct;
    prefixed = h.prefixed;
    unheld = λ i later.
        let differs : mint_id p (idx + 1) ≢ mint_id p i =
          λ e. omega (arith, mint_id_injective p (idx + 1) i e) in
        rw lookup-insert (
          ground
            (arith, text_eq_iff (mint_id p (idx + 1)) (mint_id p i), h.unheld i (omega arith)));
    unmarked = λ op key i later. h.unmarked op key i (omega arith);
  }

  pub Roomy-resolve :
      (op key : Text)
      → Roomy n p idx rs seen
      → Roomy n p idx (erase (mint_id p idx) rs) (add_key seen (op_key (mint_id p idx) op key))
  Roomy-resolve op key h = record {
    room = h.room;
    distinct = Distinct-erase (mint_id p idx) rs h.distinct;
    prefixed = h.prefixed;
    unheld = λ i later.
        rw (lookup-erase (mint_id p idx) _ rs h.distinct) (ground (arith, h.unheld i later));
    unmarked = λ op' key' i later. ground (
      arith,
      op_key-apart p op op' key key' idx i (λ e. omega arith),
      h.unmarked op' key' i later,
    );
  }
