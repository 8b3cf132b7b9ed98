-- ===== src/Exchange/Validate.antt =====
-- src/exchange/internal/service/exchange_batch_validate.go: the checks of the envelope.
use reference_implementation.Common.{
  ℕ, Bool, false, ◌||◌, Option, none, some, List, [], ◌∷◌, Text, text_eq, length, ltb,
  if◌then◌else◌,
}
use reference_implementation.Exchange.Kinds.{Kind}
use reference_implementation.Exchange.Messages.{Item, Request}

abbrev pub max_idempotency_key_len : ℕ
max_idempotency_key_len = 256

abbrev pub max_requester_domain_len : ℕ
max_requester_domain_len = 253

abbrev pub is_seen : Text → List Text → Bool
is_seen id [] = false
is_seen id (j ∷ js) = text_eq j id || is_seen id js

-- The loop over the items, with the offer ids that it has seen.
unfoldable pub validate_items : List Text → List Item → Option Kind
validate_items seen [] = none
validate_items seen (item ∷ items) =
    let rest = validate_items (item.offer.offer_id ∷ seen) items in
    if text_eq item.offer.signature []
    then some Kind.invalid_request
    else if text_eq item.acceptance_signature []
    then some Kind.invalid_request
    else if text_eq item.offer.canonical_url []
    then some Kind.invalid_request
    else if is_seen item.offer.offer_id seen
    then some Kind.invalid_request
    else rest

-- `none` passes the request.
unfoldable pub validate_batch_request : Request → Option Kind
unfolding validate_items
validate_batch_request req =
    if text_eq req.idempotency_key []
    then some Kind.invalid_request
    else if ltb max_idempotency_key_len (length req.idempotency_key)
    then some Kind.invalid_request
    else if text_eq req.requester.id []
    then some Kind.invalid_request
    else if ltb max_requester_domain_len (length req.requester.domain)
    then some Kind.invalid_request
    else elim req.items [
      | [] ↦ some Kind.invalid_request
      | item ∷ items ↦ validate_items [] (item ∷ items)
    ]
