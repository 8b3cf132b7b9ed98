-- ===== src/Billing/Settlement/Client.antt =====
-- src/exchange/internal/billing/tigerbeetle: the client calls that the adapter makes, over a ledger
-- that is a parameter, and src/exchange/internal/billing/tigerbeetle/ids.go.
use reference_implementation.Common.{
  ℕ, ◌-◌, ◌^◌, ◌==◌, ◌||◌, Bool, true, false, Option, none, some, List, [], ◌∷◌, if◌then◌else◌,
  ltb_ℤ, ℤ, pos, pos_part,
}
use reference_implementation.Billing.Types.{Error, backend_failure}
use reference_implementation.Billing.Settlement.Wire.{
  LedgerId, Leg, Transfer, blank, build_linked_batch, Status, LinkedOutcome, linked_outcome,
  PendingOutcome, pending_created, pending_outcome, ResolveOutcome, resolve_applied,
  resolve_outcome, HoldState, hold_free, hold_live, hold_resolved, code_settlement,
}

pub data Result (A : Type 0) : Type 0 where
  ok : A → Result A
  err : Error → Result A

-- The ledger service. `none` is a call that failed; a batch that applies whole returns no status.
pub record Ledger (S : Type 0) : Type 0 where
  pub create_transfers : List Transfer → S → Option (List Status) × S
  pub lookup_transfers : List LedgerId → S → Option (List Transfer)
  pub ensure_account : LedgerId → ℕ → S → Bool × S

abbrev pub M : Type 0 → Type 0 → Type 0
M S A = S → Result A × S

infixl 5 ◌>>=◌ ◌>>◌
abbrev pub ◌>>=◌ : {S A B : Type 0} → M S A → (A → M S B) → M S B
◌>>=◌ m f s = let (r, s') = m s in elim r [ ok a ↦ f a s' | err e ↦ (err e, s') ]

abbrev pub ◌>>◌ : {S B : Type 0} → M S (Unit {0}) → M S B → M S B
m >> k = m >>= λ _. k

abbrev pub pure : {S A : Type 0} → A → M S A
pure a s = (ok a, s)

abbrev pub raise : {S A : Type 0} → Error → M S A
raise e s = (err e, s)

abbrev pub or_raise : {S A : Type 0} → Option A → Error → M S A
or_raise none e = raise e
or_raise (some a) e = pure a

abbrev pub contains : LedgerId → List Transfer → Bool
contains id [] = false
contains id (t ∷ ts) = t.id == id || contains id ts

abbrev pub head_of : List Transfer → Option Transfer
head_of [] = none
head_of (t ∷ ts) = some t

abbrev pub first_pending : List Status → Option PendingOutcome
first_pending [] = some pending_created
first_pending (s ∷ ss) = pending_outcome s

abbrev pub first_resolve : List Status → Option ResolveOutcome
first_resolve [] = some resolve_applied
first_resolve (s ∷ ss) = resolve_outcome s

unfoldable pub classify_found : LedgerId → LedgerId → LedgerId → List Transfer → HoldState
classify_found pending_id post_id void_id found =
    if contains pending_id found
    then if contains post_id found || contains void_id found then hold_resolved else hold_live
    else hold_free

module _ {S : Type 0} ⦃l : Ledger S⦄ where
  abbrev submit : List Transfer → M S (List Status)
  submit batch s =
      let (r, s') = l.create_transfers batch s in
      (elim r [ none ↦ err backend_failure | some ss ↦ ok ss ], s')

  abbrev look : List LedgerId → M S (List Transfer)
  look ids s = (elim (l.lookup_transfers ids s) [ none ↦ err backend_failure | some ts ↦ ok ts ], s)

  unfoldable pub create_linked : List Leg → M S LinkedOutcome
  create_linked legs = do
    batch ← or_raise (build_linked_batch legs) backend_failure
    statuses ← submit batch
    or_raise (linked_outcome statuses) backend_failure

  unfoldable pub create_pending :
      LedgerId → LedgerId → LedgerId → ℤ → ℕ → ℕ → LedgerId → M S PendingOutcome
  create_pending id debit credit amount ledger timeout user_data =
      if ltb_ℤ amount (pos 0) then raise backend_failure else do
        statuses ← submit (
            record blank {
              id = id;
              debit_account = debit;
              credit_account = credit;
              amount = pos_part amount;
              user_data128 = user_data;
              timeout = timeout;
              ledger = ledger;
              code = code_settlement;
              pending = true;
            }
            ∷ [])
        or_raise (first_pending statuses) backend_failure

  -- The amount is `tb.AmountMax`, which posts the pending amount in full.
  unfoldable pub post_pending : LedgerId → LedgerId → M S ResolveOutcome
  post_pending id pending_id = do
    statuses ← submit (
        record blank { id = id; pending_id = pending_id; amount = 2 ^ 128 - 1; post_pending = true }
        ∷ [])
    or_raise (first_resolve statuses) backend_failure

  unfoldable pub void_pending : LedgerId → LedgerId → M S ResolveOutcome
  void_pending id pending_id = do
    statuses ← submit (record blank { id = id; pending_id = pending_id; void_pending = true } ∷ [])
    or_raise (first_resolve statuses) backend_failure

  unfoldable pub classify_hold : LedgerId → LedgerId → LedgerId → M S HoldState
  unfolding classify_found
  classify_hold pending_id post_id void_id = do
    found ← look (pending_id ∷ post_id ∷ void_id ∷ [])
    pure (classify_found pending_id post_id void_id found)

  unfoldable pub lookup_transfer : LedgerId → M S (Option Transfer)
  lookup_transfer id = do found ← look (id ∷ []); pure (head_of found)

  unfoldable pub ensure_account : LedgerId → ℕ → M S (Unit {0})
  ensure_account id code s =
      let (done, s') = l.ensure_account id code s in
      (if done then ok tt else err backend_failure, s')
