-- ===== src/Exchange/Bills.antt =====
-- src/exchange/internal/service/exchange_batch.go: the bill of a batch, by the signed offers.
use reference_implementation.Common.{
  ◌≡◌, inl, inr, refl, ap, false, none, some, List, [], ◌∷◌, ◌++◌, Text, text_eq, length, ℤ, pos,
  ◌+ℤ◌, arith, int_laws, Bool-cases, Option-cases,
}
use reference_implementation.Exchange.Kinds.{Result, failure, success, Result-cases}
use reference_implementation.Exchange.Messages.{Item, ResultItem, ResolvedOffer, PricingDoc}
use reference_implementation.Exchange.Deps.{Env}
use reference_implementation.Exchange.Offers.{
  verify_presented_offer, pricing_doc_from_pricing, resolve_offer_for_tx,
}
use reference_implementation.Exchange.Rows.{derived_item_key}
use reference_implementation.Exchange.Items.{item_charge}
use reference_implementation.Exchange.Ledger.{debit}

abbrev pricing_or : Result ResolvedOffer → PricingDoc
pricing_or (success r) = r.pricing
pricing_or (failure k) = record {
  model = [];
  rate = pos 0;
  currency = [];
  unit_cost = pos 0;
  unit = [];
  est_qty = pos 0;
  metering = none;
}

-- The independent description: a granted item costs what its signed offer says.
abbrev pub price_of : ⦃env : Env⦄ → Item → ℤ
price_of item = elim (pricing_doc_from_pricing item.offer.pricing) [
  | none ↦ pos 0
  | some p ↦ item_charge p
]

abbrev pub cost_if : ⦃env : Env⦄ → Item → ResultItem → ℤ
cost_if item res = elim res.denial_reason [ none ↦ price_of item | some _ ↦ pos 0 ]

abbrev pub bill : ⦃env : Env⦄ → List Item → List ResultItem → ℤ
bill [] rs = pos 0
bill (item ∷ items) [] = pos 0
bill (item ∷ items) (r ∷ rs) = cost_if item r +ℤ bill items rs

module _ ⦃env : Env⦄ where
  bill-nil : (items : List Item) → bill items [] ≡ pos 0
  bill-nil [] = refl
  bill-nil (item ∷ items) = refl

  pub bill-append :
      (done : List Item) (item : Item) (items : List Item) (rs : List ResultItem) (r : ResultItem)
      → length done ≡ length rs
      → bill (done ++ item ∷ items) (rs ++ r ∷ []) ≡ bill done rs +ℤ cost_if item r
  bill-append [] item items [] r h = grind (int_laws, bill-nil items)
  bill-append [] item items (x ∷ rs) r h = absurd (omega arith)
  bill-append (d ∷ done) item items [] r h = absurd (omega arith)
  bill-append (d ∷ done) item items (x ∷ rs) r h =
      grind (int_laws, bill-append done item items rs r)

  pub price_of-resolved :
      (item : Item) (resolved : ResolvedOffer)
      → resolve_offer_for_tx item.offer ≡ success resolved
      → price_of item ≡ item_charge resolved.pricing
  unfolding resolve_offer_for_tx
  price_of-resolved item resolved h = elim (Result-cases (verify_presented_offer item.offer)) [
    | inl (k, e) ↦ absurd (cc (rw (e, resolve_offer_for_tx) at h))
    | inr (canonical, e) ↦ elim (Option-cases (env.catalog_by_uri item.offer.canonical_url)) [
      | inl gone ↦ absurd (cc (rw (e, gone, resolve_offer_for_tx) at h))
      | inr (entry, f) ↦ elim (Option-cases (pricing_doc_from_pricing item.offer.pricing)) [
        | inl unpriced ↦ absurd (cc (rw (e, f, unpriced, resolve_offer_for_tx) at h))
        | inr (pricing, g) ↦
            rw (price_of, g)
              (ap (λ r. item_charge (pricing_or r)) (rw (e, f, g, resolve_offer_for_tx) at h))
      ]
    ]
  ]

pub debit-add :
    (ref acct : Text) (x y b : ℤ)
    → debit ref acct y (debit ref acct x b) ≡ debit ref acct (x +ℤ y) b
debit-add ref acct x y b = elim (Bool-cases (text_eq ref acct)) [
  | inl same ↦ rw same (grind int_laws)
  | inr other ↦ rw other refl
]

pub derived_item_key-nonempty : (key id : Text) → text_eq (derived_item_key key id) [] ≡ false
unfolding derived_item_key text_eq
derived_item_key-nonempty [] id = refl
derived_item_key-nonempty (c ∷ key) id = refl
