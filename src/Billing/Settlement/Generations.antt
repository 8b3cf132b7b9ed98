-- ===== src/Billing/Settlement/Generations.antt =====
-- src/exchange/internal/billing/tigerbeetle_adapter.go: the probe of hold generations in Authorize.
use reference_implementation.Common.{
  ℕ, zero, suc, ◌+◌, ◌-◌, ◌<◌, ◌≡◌, arith, Text, ℤ, ap, ◌∙◌, true, false, [], codes, pos_part,
}
use reference_implementation.Billing.Types.{AuthorizeResult, generations_exhausted}
use reference_implementation.Billing.Settlement.Wire.{
  Transfer, blank, code_settlement, LedgerId, HoldState, hold_live, hold_resolved,
}
use reference_implementation.Billing.Settlement.Client.{Result, ok, err, Ledger}
use reference_implementation.Billing.Settlement.Ids.{Digest}
use reference_implementation.Billing.Settlement.Split.{Config, timeout_seconds}
use reference_implementation.Billing.Settlement.Lifecycle.{
  pending_id_of, hold_state, approved_hold, reserve_from,
}

-- The denial of a hold that the agent's credits do not cover.
abbrev pub out_of_funds : AuthorizeResult
out_of_funds = record { billing_id = []; approved = false; reason = codes "insufficient balance" }

module _ {S : Type 0} ⦃l : Ledger S⦄ ⦃d : Digest⦄ (c : Config) (ref key : Text) (s : S) where
  -- The ledger answers that a generation of the key has a hold in this state.
  abbrev pub HasState : HoldState → ℕ → LedgerId → Type 0
  HasState state gen pending_id =
      (post_id : LedgerId) × (pending_id_of c ref key gen ≡ ok pending_id)
      × (hold_state c pending_id s ≡ (ok (state, post_id), s))

  -- The holds of the generations from gen on, n of them, are resolved.
  abbrev pub AllResolved : ℕ → ℕ → Type 0
  AllResolved zero gen = Unit
  AllResolved (suc n) gen =
      ((pending_id : LedgerId) × HasState hold_resolved gen pending_id) × AllResolved n (gen + 1)

  module _ (agent owner : LedgerId) (minor bps : ℤ) where
    abbrev probe : ℕ → ℕ → Result AuthorizeResult × S
    probe left gen = reserve_from c left gen ref key agent owner minor bps s

    probe-resolved :
        (left gen : ℕ) (pending_id : LedgerId)
        → HasState hold_resolved gen pending_id
        → probe (suc left) gen ≡ probe left (gen + 1)
    unfolding reserve_from
    probe-resolved left gen pending_id (post_id, id, state) = ground (arith, id, state)

    probe-live :
        (left gen : ℕ) (pending_id : LedgerId)
        → HasState hold_live gen pending_id
        → probe (suc left) gen ≡ (ok (approved_hold pending_id), s)
    unfolding reserve_from
    probe-live left gen pending_id (post_id, id, state) = ground (arith, id, state)

    -- The probe that passes n resolved generations is the probe from the next one, with n fewer left.
    probe-AllResolved :
        (n left gen : ℕ) → AllResolved n gen → probe (n + left) gen ≡ probe left (gen + n)
    probe-AllResolved zero left gen h =
        ap (λ (m : ℕ). probe m gen) (omega arith) ∙ ap (probe left) (omega arith)
    probe-AllResolved (suc n) left gen ((pending_id, resolved), rest) =
        ap (λ (m : ℕ). probe m gen) (omega arith)
        ∙ probe-resolved (n + left) gen pending_id resolved
        ∙ probe-AllResolved n left (gen + 1) rest
        ∙ ap (probe left) (omega arith)

    -- Of the 256 generations of a key, the probe passes those whose holds are resolved and answers
    -- with the first other one: a live hold is returned as it is, with nothing moved.
    pub reserve_from-live :
        (n : ℕ) (pending_id : LedgerId)
        → n < 256
        → AllResolved n 0
        → HasState hold_live n pending_id
        → reserve_from c 256 0 ref key agent owner minor bps s ≡ (ok (approved_hold pending_id), s)
    reserve_from-live n pending_id lt h live =
        ap (λ (m : ℕ). probe m 0) (omega arith)
        ∙ probe-AllResolved n (suc (255 - n)) 0 h
        ∙ ap (probe (suc (255 - n))) (omega arith)
        ∙ probe-live (255 - n) n pending_id live

    -- The transfer that holds the amount: from the agent to the owner, pending until it expires, with
    -- the commission in its user data.
    abbrev pub held : LedgerId → Transfer
    held pending_id = record blank {
      id = pending_id;
      debit_account = agent;
      credit_account = owner;
      amount = pos_part minor;
      user_data128 = pos_part bps;
      timeout = timeout_seconds c.hold_timeout;
      ledger = c.ledger;
      code = code_settlement;
      pending = true;
    }

    -- When the holds of all 256 generations of a key are resolved, Authorize fails with the error of
    -- exhausted generations and moves nothing.
    pub reserve_from-exhausted :
        AllResolved 256 0
        → reserve_from c 256 0 ref key agent owner minor bps s ≡ (err generations_exhausted, s)
    unfolding reserve_from
    reserve_from-exhausted h = probe-AllResolved 256 0 0 h
