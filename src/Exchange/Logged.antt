-- ===== src/Exchange/Logged.antt =====
-- src/exchange/internal/service/exchange_batch.go: the rows that the items of a request add.
use reference_implementation.Common.{
  ◌≡◌, ◌⊎◌, inl, inr, sym, ◌∙◌, none, List, ◌∷◌, Text, text_eq, text_eq→eq, Bool-cases,
}
use reference_implementation.Exchange.Messages.{Request}
use reference_implementation.Exchange.Deps.{Row}
use reference_implementation.Exchange.Rows.{find_row, derived_item_key}
use reference_implementation.Exchange.Envelope.{IsAmong, derived_item_key_injective}

module _ (req : Request) where
  -- The rows of this request's keys are those of the offers that were seen.
  abbrev pub Logged : List Text → List Row → Type 0
  Logged seen log =
      (id : Text)
      → (find_row (derived_item_key req.idempotency_key id) log ≡ none) ⊎ IsAmong id seen

  pub Logged-next :
      (id : Text) (seen : List Text) (row : Row) (log : List Row)
      → row.idempotency_key ≡ derived_item_key req.idempotency_key id
      → Logged seen log
      → Logged (id ∷ seen) (row ∷ log)
  unfolding find_row
  Logged-next id seen row log keyed h other = go (h other)
    where
      key : Text
      key = derived_item_key req.idempotency_key other

      go :
          (find_row key log ≡ none) ⊎ IsAmong other seen
          → (find_row key (row ∷ log) ≡ none) ⊎ IsAmong other (id ∷ seen)
      go (inr among) = inr (inr among)
      go (inl new) = elim (Bool-cases (text_eq row.idempotency_key key)) [
        | inl same ↦ inr (
            inl (
              derived_item_key_injective req.idempotency_key id other
                (sym keyed ∙ text_eq→eq row.idempotency_key key same)))
        | inr differs ↦ inl (rw (find_row, differs) new)
      ]

  pub Logged-new :
      (id : Text) (seen : List Text) (log : List Row)
      → Logged seen log
      → ¬ (IsAmong id seen)
      → find_row (derived_item_key req.idempotency_key id) log ≡ none
  Logged-new id seen log h unseen = go (h id)
    where
      go :
          (find_row (derived_item_key req.idempotency_key id) log ≡ none) ⊎ IsAmong id seen
          → find_row (derived_item_key req.idempotency_key id) log ≡ none
      go (inl new) = new
      go (inr among) = absurd (unseen among)

  pub Logged-later :
      (id : Text) (seen : List Text) (log log' : List Row)
      → log' ≡ log
      → Logged seen log
      → Logged (id ∷ seen) log'
  Logged-later id seen log log' same h other = go (h other)
    where
      go :
          (find_row (derived_item_key req.idempotency_key other) log ≡ none) ⊎ IsAmong other seen
          → (find_row (derived_item_key req.idempotency_key other) log' ≡ none)
            ⊎ IsAmong other (id ∷ seen)
      go (inl new) = inl (rw same new)
      go (inr among) = inr (inr among)
