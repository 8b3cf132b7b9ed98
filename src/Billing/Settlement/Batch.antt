-- ===== src/Billing/Settlement/Batch.antt =====
-- src/exchange/internal/billing/tigerbeetle/split.go: the chain of a batch.
use reference_implementation.Common.{
  ◌≡◌, refl, Bool, true, false, Option, none, some, List, [], ◌∷◌, map, arith,
}
use reference_implementation.Billing.Settlement.Wire.{
  Leg, Transfer, build_leg, build_legs, build_linked_batch, cons?,
}

-- The linked flags of a chain of n transfers: all but the last.
abbrev pub chain : List Leg → List Bool
chain [] = []
chain (leg ∷ []) = false ∷ []
chain (leg ∷ next ∷ legs) = true ∷ chain (next ∷ legs)

build_leg-linked :
    (leg : Leg) (b : Bool) (t : Transfer)
    → build_leg leg b ≡ some t
    → (t.linked ≡ b) × (t.id ≡ leg.id)
unfolding build_leg
build_leg-linked leg b t h = ground arith

cons?-eq_some :
    (o : Option Transfer) (rest : Option (List Transfer)) (ts : List Transfer)
    → cons? o rest ≡ some ts
    → (t : Transfer) × (us : List Transfer) × (o ≡ some t) × (rest ≡ some us) × (t ∷ us ≡ ts)
cons?-eq_some none rest ts h = absurd (cc)
cons?-eq_some (some t) none ts h = absurd (cc)
cons?-eq_some (some t) (some us) ts h = (t, us, refl, refl, cc)

abbrev Chained : List Leg → List Transfer → Type 0
Chained legs ts =
    (map (λ t. t.linked) ts ≡ chain legs) × (map (λ t. t.id) ts ≡ map (λ leg. leg.id) legs)

build_legs-Chained :
    (legs : List Leg) (ts : List Transfer) → build_legs legs ≡ some ts → Chained legs ts
unfolding build_legs
build_legs-Chained [] [] h = (refl, refl)
build_legs-Chained [] (t ∷ ts) h = absurd (cc)
build_legs-Chained (leg ∷ []) ts h =
    let (t, us, e, f, g) = cons?-eq_some _ _ ts h in
    let (flag, id) = build_leg-linked leg false t e in rw (← g) (cc, cc)
build_legs-Chained (leg ∷ next ∷ legs) ts h =
    let (t, us, e, f, g) = cons?-eq_some _ _ ts h in
    let (flag, id) = build_leg-linked leg true t e in
    let (flags, ids) = build_legs-Chained (next ∷ legs) us f in rw (← g) (cc, cc)

-- A batch that is built carries one transfer for each leg, in order, under the leg's id, and links
-- every transfer but the last to the next, so that the ledger takes all of them or none.
pub build_linked_batch-chain :
    (legs : List Leg) (ts : List Transfer)
    → build_linked_batch legs ≡ some ts
    → (map (λ t. t.linked) ts ≡ chain legs) × (map (λ t. t.id) ts ≡ map (λ leg. leg.id) legs)
unfolding build_linked_batch
build_linked_batch-chain [] ts h = absurd (cc)
build_linked_batch-chain (leg ∷ legs) ts h = build_legs-Chained (leg ∷ legs) ts h
