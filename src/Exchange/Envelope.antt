-- ===== src/Exchange/Envelope.antt =====
-- src/exchange/internal/service/exchange_batch_validate.go and src/internal/transactionkey: which
-- requests pass, and the keys of their items.
use reference_implementation.Common.{
  ◌≤◌, ◌≡◌, ◌≢◌, ◌↔◌, ◌⊎◌, refl, true, none, List, [], ◌∷◌, Text, arith, text_eq_iff, length, codes,
  append_cancel,
}
use reference_implementation.Exchange.Messages.{Item, Request}
use reference_implementation.Exchange.Validate.{validate_items, validate_batch_request, is_seen}
use reference_implementation.Exchange.Rows.{derived_item_key}

abbrev pub IsAmong : Text → List Text → Type 0
IsAmong id [] = ⊥
IsAmong id (j ∷ js) = (j ≡ id) ⊎ IsAmong id js

-- Every item has its two signatures and its URL, and an offer id that was not seen before.
abbrev pub AreComplete : List Text → List Item → Type 0
AreComplete seen [] = Unit
AreComplete seen (item ∷ items) =
    (item.offer.signature ≢ [])
    × (item.acceptance_signature ≢ [])
    × (item.offer.canonical_url ≢ [])
    × (¬ (IsAmong item.offer.offer_id seen))
    × AreComplete (item.offer.offer_id ∷ seen) items

is_seen_iff : (id : Text) (seen : List Text) → (is_seen id seen ≡ true) ↔ IsAmong id seen
is_seen_iff id [] = ground arith
is_seen_iff id (j ∷ js) = ground (arith, text_eq_iff j id, is_seen_iff id js)

validate_items_iff :
    (seen : List Text) (items : List Item)
    → (validate_items seen items ≡ none) ↔ AreComplete seen items
unfolding validate_items
validate_items_iff seen [] = ground arith
validate_items_iff seen (item ∷ items) = ground (
  arith,
  text_eq_iff item.offer.signature [],
  text_eq_iff item.acceptance_signature [],
  text_eq_iff item.offer.canonical_url [],
  is_seen_iff item.offer.offer_id seen,
  validate_items_iff (item.offer.offer_id ∷ seen) items,
)

-- A request passes the envelope checks exactly when its key has 1 to 256 bytes, its requester has an
-- id and a domain of at most 253 bytes, it has items, every item carries both signatures and the
-- signed URL, and no two items carry the same offer id.
pub validate_batch_request_iff :
    (req : Request)
    → (validate_batch_request req ≡ none) ↔ (
        (req.idempotency_key ≢ [])
        × (length req.idempotency_key ≤ 256)
        × (req.requester.id ≢ [])
        × (length req.requester.domain ≤ 253)
        × (req.items ≢ [])
        × AreComplete [] req.items)
unfolding validate_batch_request
validate_batch_request_iff req = go req.items refl
  where
    go :
        (items : List Item)
        → req.items ≡ items
        → (validate_batch_request req ≡ none) ↔ (
            (req.idempotency_key ≢ [])
            × (length req.idempotency_key ≤ 256)
            × (req.requester.id ≢ [])
            × (length req.requester.domain ≤ 253)
            × (items ≢ [])
            × AreComplete [] items)
    go [] e =
        rw (e, validate_batch_request)
          (ground (arith, text_eq_iff req.idempotency_key [], text_eq_iff req.requester.id []))
    go (item ∷ items) e =
        rw (e, validate_batch_request)
          (ground (
            arith,
            text_eq_iff req.idempotency_key [],
            text_eq_iff req.requester.id [],
            validate_items_iff [] (item ∷ items),
          ))

abbrev keys_of : Text → List Text → List Text
keys_of key [] = []
keys_of key (id ∷ ids) = derived_item_key key id ∷ keys_of key ids

pub derived_item_key_injective :
    (key a b : Text) → derived_item_key key a ≡ derived_item_key key b → a ≡ b
unfolding derived_item_key
derived_item_key_injective key a b e = append_cancel (codes ":") a b (append_cancel key _ _ e)
