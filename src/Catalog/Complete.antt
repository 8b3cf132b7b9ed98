-- ===== src/Catalog/Complete.antt =====
-- src/exchange/internal/service/catalog_uri_ownership.go: a push is accepted whole exactly when it
-- keeps the catalog one to one.
use reference_implementation.Common.{
  ◌≡◌, ◌↔◌, inl, inr, refl, sym, ap, ◌∙◌, false, Option, none, some, List, [], ◌∷◌, ◌++◌, Text,
  text_eq, text_eq→eq, text_eq_refl, Bool-cases,
}
use reference_implementation.Exchange.Messages.{Entry}
use reference_implementation.Catalog.Uris.{
  Owners, claim, owners_from, uri_owners, is_other, conflict, sift, reject_uri_conflicts,
}
use reference_implementation.Catalog.Unique.{IsIn, OneToOne, reject_uri_conflicts-OneToOne}

not_other :
    (prior : Option Text) (x : Text)
    → ((y : Text) → prior ≡ some y → y ≡ x)
    → is_other prior x ≡ false
not_other none x h = refl
not_other (some y) x h = rw (h y refl) (rw (text_eq_refl x) refl)

module _ (xs : List Entry) where
  -- What the maps hold comes from an entry of the list.
  abbrev pub Comes : Text → Text → Type 0
  Comes uri id = (x : Entry) × IsIn x xs × (x.uri ≡ uri) × (x.resource_id ≡ id)

  abbrev IsSound : Owners → Type 0
  IsSound o =
      (uri id : Text)
      → (o.owners uri ≡ some id → Comes uri id) × (o.uri_by_resource id ≡ some uri → Comes uri id)

  claim-IsSound : (e : Entry) (o : Owners) → IsIn e xs → IsSound o → IsSound (claim e o)
  unfolding claim
  claim-IsSound e o m sound uri id = (
    λ at. elim (Bool-cases (text_eq e.uri uri)) [
      | inr other ↦ (sound uri id).0 (rw other at at)
      | inl same ↦
          let found : some e.resource_id ≡ some id = rw same at at in
          (e, m, text_eq→eq e.uri uri same, cc)
    ],
    λ at. elim (Bool-cases (text_eq e.resource_id id)) [
      | inr other ↦ (sound uri id).1 (rw other at at)
      | inl same ↦
          let found : some e.uri ≡ some uri = rw same at at in
          (e, m, cc, text_eq→eq e.resource_id id same)
    ],
  )

  owners_from-IsSound :
      (rows : List Entry) (o : Owners)
      → ((e : Entry) → IsIn e rows → IsIn e xs)
      → IsSound o
      → IsSound (owners_from rows o)
  unfolding owners_from
  owners_from-IsSound [] o within sound = sound
  owners_from-IsSound (row ∷ rows) o within sound =
      owners_from-IsSound rows (claim row o) (λ e m. within e (inr m))
        (claim-IsSound row o (within row (inl refl)) sound)

  IsSound-passes :
      (e : Entry) (o : Owners) → OneToOne xs → IsIn e xs → IsSound o → conflict o e ≡ none
  unfolding conflict
  IsSound-passes e o one m sound =
      rw
        (
          not_other (o.uri_by_resource e.resource_id) e.uri (λ uri at.
              let (x, among, u, i) = (sound uri e.resource_id).1 at in
              sym u ∙ (one x e among m).1 i),
          conflict,
          not_other (o.owners e.uri) e.resource_id (λ id at.
              let (x, among, u, i) = (sound e.uri id).0 at in sym i ∙ (one x e among m).0 u),
        )
        refl

  sift_all :
      (es : List Entry) (o : Owners)
      → OneToOne xs
      → ((e : Entry) → IsIn e es → IsIn e xs)
      → IsSound o
      → sift o es ≡ (es, [])
  unfolding sift
  sift_all [] o one within sound = refl
  sift_all (e ∷ es) o one within sound =
      let m = within e (inl refl) in
      let rest =
        sift_all es (claim e o) one (λ f n. within f (inr n)) (claim-IsSound e o m sound) in
      rw (IsSound-passes e o one m sound, sift) (ap (λ p. (e ∷ p.0, p.1)) rest)

pub IsIn-left : (e : Entry) (xs ys : List Entry) → IsIn e xs → IsIn e (xs ++ ys)
IsIn-left e (x ∷ xs) ys (inl same) = inl same
IsIn-left e (x ∷ xs) ys (inr m) = inr (IsIn-left e xs ys m)
IsIn-left e [] ys m = absurd m

pub IsIn-right : (e : Entry) (xs ys : List Entry) → IsIn e ys → IsIn e (xs ++ ys)
IsIn-right e [] ys m = m
IsIn-right e (x ∷ xs) ys m = inr (IsIn-right e xs ys m)

-- Over rows that give a URI to one resource and a resource one URI, every entry of a push survives
-- without a rejection exactly when the rows and the push together do so too.
pub reject_uri_conflicts_iff :
    (rows accepted : List Entry)
    → OneToOne rows
    → (reject_uri_conflicts (some rows) accepted ≡ some (accepted, []))
      ↔ OneToOne (rows ++ accepted)
unfolding reject_uri_conflicts uri_owners
reject_uri_conflicts_iff rows accepted one = (
  λ whole. reject_uri_conflicts-OneToOne rows accepted accepted [] one whole,
  λ all. ap some (
      sift_all (rows ++ accepted) accepted (uri_owners rows) all
        (λ e m. IsIn-right e rows accepted m)
        (owners_from-IsSound (rows ++ accepted) rows _ (λ e m. IsIn-left e rows accepted m)
          (λ uri id. (λ at. absurd (cc), λ at. absurd (cc))))),
)
