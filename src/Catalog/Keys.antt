-- ===== src/Catalog/Keys.antt =====
-- src/exchange/internal/repo/catalog.go: the keys that the upsert looks up, and those it keeps.
use reference_implementation.Common.{
  ◌≡◌, ◌≢◌, ◌⊎◌, inl, inr, refl, true, none, some, List, [], ◌∷◌, ◌++◌, Option, if◌then◌else◌, Text,
  text_eq, text_eq→eq, text_eq_iff, Bool-cases, arith,
}
use reference_implementation.Exchange.Messages.{Entry}
use reference_implementation.Catalog.Unique.{IsIn}
use reference_implementation.Catalog.Complete.{Comes}
use reference_implementation.Catalog.Push.{uri_of, is_taken, replace}

pub uri_of-some :
    (id uri : Text) (rows : List Entry) → uri_of id rows ≡ some uri → Comes rows uri id
unfolding uri_of
uri_of-some id uri [] e = absurd (cc)
uri_of-some id uri (row ∷ rows) e = elim (Bool-cases (text_eq row.resource_id id)) [
  | inl same ↦
      let found : some row.uri ≡ some uri = rw same at e in
      (row, inl refl, cc, text_eq→eq row.resource_id id same)
  | inr other ↦ let (x, m, u, i) = uri_of-some id uri rows (rw other at e) in (x, inr m, u, i)
]

pub uri_of-none :
    (id : Text) (rows : List Entry) (x : Entry)
    → uri_of id rows ≡ none
    → IsIn x rows
    → x.resource_id ≢ id
unfolding uri_of
uri_of-none id [] x e m = absurd m
uri_of-none id (row ∷ rows) x e m = elim (Bool-cases (text_eq row.resource_id id)) [
  | inl same ↦ absurd (cc (rw same at e))
  | inr other ↦ elim m [
    | inl here ↦ λ i. ground (arith, other, here, i, text_eq_iff row.resource_id id)
    | inr later ↦ uri_of-none id rows x (rw other at e) later
  ]
]

pub is_taken-true :
    (uri : Text) (rows : List Entry)
    → is_taken uri rows ≡ true
    → (x : Entry) × IsIn x rows × (x.uri ≡ uri)
unfolding is_taken
is_taken-true uri [] e = absurd (cc)
is_taken-true uri (row ∷ rows) e = elim (Bool-cases (text_eq row.uri uri)) [
  | inl same ↦ (row, inl refl, text_eq→eq row.uri uri same)
  | inr other ↦ let (x, m, u) = is_taken-true uri rows (rw other at e) in (x, inr m, u)
]

pub IsIn-replace :
    (e x : Entry) (rows : List Entry) → IsIn x (replace e rows) → (x ≡ e) ⊎ IsIn x rows
unfolding replace
IsIn-replace e x [] m = absurd m
IsIn-replace e x (row ∷ rows) m = elim (Bool-cases (text_eq row.resource_id e.resource_id)) [
  | inl same ↦ elim (rw same at m) [ inl here ↦ inl here | inr later ↦ inr (inr later) ]
  | inr other ↦ elim (rw other at m) [
    | inl here ↦ inr (inl here)
    | inr later ↦ elim (IsIn-replace e x rows later) [ inl new ↦ inl new | inr old ↦ inr (inr old) ]
  ]
]

abbrev pub row_of : Text → List Entry → Option Entry
row_of id [] = none
row_of id (row ∷ rows) = if text_eq row.resource_id id then some row else row_of id rows

-- The last of the entries for a resource, or what stood there before.
abbrev pub latest : Text → List Entry → Option Entry → Option Entry
latest id [] before = before
latest id (e ∷ es) before = latest id es (if text_eq e.resource_id id then some e else before)

pub row_of-replace :
    (e : Entry) (id uri : Text) (rows : List Entry)
    → uri_of e.resource_id rows ≡ some uri
    → row_of id (replace e rows) ≡ (if text_eq e.resource_id id then some e else row_of id rows)
unfolding uri_of replace
row_of-replace e id uri [] found = absurd (cc)
row_of-replace e id uri (row ∷ rows) found =
    elim (Bool-cases (text_eq row.resource_id e.resource_id)) [
      | inl same ↦ rw (same, replace, text_eq→eq row.resource_id e.resource_id same) (ground arith)
      | inr other ↦
          let rest = row_of-replace e id uri rows (rw (other, uri_of) at found) in
          rw (other, replace)
            (ground (
              arith,
              rest,
              other,
              text_eq_iff row.resource_id id,
              text_eq_iff e.resource_id id,
              text_eq_iff row.resource_id e.resource_id,
            ))
    ]

pub row_of-append :
    (e : Entry) (id : Text) (rows : List Entry)
    → uri_of e.resource_id rows ≡ none
    → row_of id (rows ++ e ∷ []) ≡ (if text_eq e.resource_id id then some e else row_of id rows)
unfolding uri_of
row_of-append e id [] new = refl
row_of-append e id (row ∷ rows) new = elim (Bool-cases (text_eq row.resource_id e.resource_id)) [
  | inl same ↦ absurd (cc (rw same at new))
  | inr other ↦
      let rest = row_of-append e id rows (rw (other, uri_of) at new) in
      ground (
        arith,
        rest,
        other,
        text_eq_iff row.resource_id id,
        text_eq_iff e.resource_id id,
        text_eq_iff row.resource_id e.resource_id,
      )
]
