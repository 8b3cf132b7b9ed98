-- ===== src/Catalog/Unique.antt =====
-- src/exchange/internal/service/catalog_uri_ownership.go: what survives the check leaves the catalog
-- with one resource for a URI and one URI for a resource.
use reference_implementation.Common.{
  ◌≡◌, ◌↔◌, ◌⊎◌, inl, inr, refl, sym, ap, ◌∙◌, false, Option, none, some, List, [], ◌∷◌, ◌++◌, Text,
  text_eq, text_eq→eq, text_eq_refl, Bool-cases, Option-cases, arith,
}
use mathlib.Core.Path.{subst}
use reference_implementation.Exchange.Messages.{Entry}
use reference_implementation.Catalog.Uris.{
  Rejection, Owners, claim, owners_from, uri_owners, is_other, conflict, sift, reject_uri_conflicts,
}

abbrev pub IsIn : Entry → List Entry → Type 0
IsIn e [] = ⊥
IsIn e (x ∷ xs) = (e ≡ x) ⊎ IsIn e xs

abbrev pub Agree : Entry → Entry → Type 0
Agree e f = (e.uri ≡ f.uri) ↔ (e.resource_id ≡ f.resource_id)

abbrev pub OneToOne : List Entry → Type 0
OneToOne xs = (e f : Entry) → IsIn e xs → IsIn f xs → Agree e f

abbrev Knows : Owners → Entry → Type 0
Knows o e = (o.owners e.uri ≡ some e.resource_id) × (o.uri_by_resource e.resource_id ≡ some e.uri)

claim-Knows : (e : Entry) (o : Owners) → Knows (claim e o) e
unfolding claim
claim-Knows e o = (rw (text_eq_refl e.uri) refl, rw (text_eq_refl e.resource_id) refl)

-- An entry that agrees with a known one does not displace it.
Knows-claim : (e f : Entry) (o : Owners) → Agree e f → Knows o f → Knows (claim e o) f
unfolding claim
Knows-claim e f o (uri, id) (owner, at) = (
  elim (Bool-cases (text_eq e.uri f.uri)) [
    | inl same ↦ rw same (ap some (uri (text_eq→eq e.uri f.uri same)))
    | inr other ↦ rw other owner
  ],
  elim (Bool-cases (text_eq e.resource_id f.resource_id)) [
    | inl same ↦ rw same (ap some (id (text_eq→eq e.resource_id f.resource_id same)))
    | inr other ↦ rw other at
  ],
)

same_as : (prior : Option Text) (x y : Text) → is_other prior x ≡ false → prior ≡ some y → x ≡ y
same_as prior x y h e = sym (text_eq→eq y x (grind arith))

conflict-none :
    (o : Owners) (e : Entry)
    → conflict o e ≡ none
    → (is_other (o.uri_by_resource e.resource_id) e.uri ≡ false)
      × (is_other (o.owners e.uri) e.resource_id ≡ false)
unfolding conflict
conflict-none o e h = ground arith

-- The check lets an entry pass only where it agrees with the known ones.
passed-Agree : (e f : Entry) (o : Owners) → conflict o e ≡ none → Knows o f → Agree e f
passed-Agree e f o passed (owner, at) =
    let (unmoved, unowned) = conflict-none o e passed in
    (
      λ same.
          same_as (o.owners e.uri) e.resource_id f.resource_id unowned (ap o.owners same ∙ owner),
      λ same.
          same_as (o.uri_by_resource e.resource_id) e.uri f.uri unmoved
            (ap o.uri_by_resource same ∙ at),
    )

owners_from-Knows :
    (rows : List Entry) (f : Entry) (o : Owners)
    → ((e : Entry) → IsIn e rows → Agree e f)
    → Knows o f
    → Knows (owners_from rows o) f
unfolding owners_from
owners_from-Knows [] f o agree h = h
owners_from-Knows (row ∷ rows) f o agree h =
    owners_from-Knows rows f (claim row o) (λ e m. agree e (inr m))
      (Knows-claim row f o (agree row (inl refl)) h)

listed-Knows :
    (rows : List Entry) (f : Entry) (o : Owners)
    → OneToOne rows
    → IsIn f rows
    → Knows (owners_from rows o) f
unfolding owners_from
listed-Knows [] f o one m = absurd m
listed-Knows (row ∷ rows) f o one (inl same) =
    subst (Knows (owners_from rows (claim row o))) (sym same) (
      owners_from-Knows rows row (claim row o) (λ e m. one e row (inr m) (inl refl))
        (claim-Knows row o))
listed-Knows (row ∷ rows) f o one (inr m) =
    listed-Knows rows f (claim row o) (λ e g me mg. one e g (inr me) (inr mg)) m

-- Maps that know what was known before, and every survivor.
sift-Knows :
    (es : List Entry) (o : Owners)
    → (after : Owners) × ((f : Entry) → Knows o f → Knows after f)
      × ((f : Entry) → IsIn f (sift o es).0 → Knows after f)
unfolding sift
sift-Knows [] o = (o, λ f h. h, λ f m. absurd m)
sift-Knows (e ∷ es) o = elim (Option-cases (conflict o e)) [
  | inr (reason, refused) ↦ rw (refused, sift) (sift-Knows es o)
  | inl passed ↦
      let (after, kept, new) = sift-Knows es (claim e o) in
      rw (passed, sift)
        (
          after,
          λ f h. kept f (Knows-claim e f o (passed-Agree e f o passed h) h),
          λ f m. elim m [
            | inl same ↦ subst (Knows after) (sym same) (kept e (claim-Knows e o))
            | inr later ↦ new f later
          ],
        )
]

pub IsIn-append : (e : Entry) (xs ys : List Entry) → IsIn e (xs ++ ys) → IsIn e xs ⊎ IsIn e ys
IsIn-append e [] ys m = inr m
IsIn-append e (x ∷ xs) ys (inl same) = inl (inl same)
IsIn-append e (x ∷ xs) ys (inr m) = elim (IsIn-append e xs ys m) [
  | inl first ↦ inl (inr first)
  | inr second ↦ inr second
]

Knows-Agree : (e f : Entry) (o : Owners) → Knows o e → Knows o f → Agree e f
Knows-Agree e f o (owner, at) (owner', at') = (λ same. cc, λ same. cc)

-- Where the listed rows give a URI to one resource and a resource one URI, so do the rows and the
-- survivors of a push together, whatever entries the push holds.
pub reject_uri_conflicts-OneToOne :
    (rows accepted survivors : List Entry) (rejections : List Rejection)
    → OneToOne rows
    → reject_uri_conflicts (some rows) accepted ≡ some (survivors, rejections)
    → OneToOne (rows ++ survivors)
unfolding reject_uri_conflicts uri_owners
reject_uri_conflicts-OneToOne rows accepted survivors rejections one h e f me mf =
    let (after, kept, new) = sift-Knows accepted (uri_owners rows) in
    let knows : (x : Entry) → IsIn x (rows ++ survivors) → Knows after x = λ x m.
      elim (IsIn-append x rows survivors m) [
        | inl listed ↦ kept x (listed-Knows rows x _ one listed)
        | inr added ↦ new x (subst (λ p. IsIn x p.0) (sym sifted) added)
      ] in
    Knows-Agree e f after (knows e me) (knows f mf)
  where
    sifted : sift (uri_owners rows) accepted ≡ (survivors, rejections)
    sifted = cc
