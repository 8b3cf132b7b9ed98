-- ===== src/Catalog/Uris.antt =====
-- src/exchange/internal/service/catalog_uri_ownership.go: the check that a URI belongs to one resource.
use reference_implementation.Common.{
  Bool, false, not, Option, none, some, List, [], ◌∷◌, Text, codes, text_eq, if◌then◌else◌, Map,
  put, empty,
}
use reference_implementation.Exchange.Messages.{Entry}

abbrev pub uri_owned_by_other : Text
uri_owned_by_other = codes "uri_owned_by_other_resource"

abbrev pub uri_moved : Text
uri_moved = codes "uri_immutable_for_resource"

pub record Rejection : Type 0 where
  pub uri : Text
  pub reason : Text

-- The two maps of uriOwners.
pub record Owners : Type 0 where
  pub owners : Map Text
  pub uri_by_resource : Map Text

unfoldable pub claim : Entry → Owners → Owners
claim e o = record {
  owners = put o.owners e.uri e.resource_id;
  uri_by_resource = put o.uri_by_resource e.resource_id e.uri;
}

unfoldable pub owners_from : List Entry → Owners → Owners
unfolding claim
owners_from [] o = o
owners_from (row ∷ rows) o = owners_from rows (claim row o)

unfoldable pub uri_owners : List Entry → Owners
unfolding owners_from
uri_owners rows = owners_from rows (record { owners = empty; uri_by_resource = empty })

-- `exists && prior != x`
abbrev pub is_other : Option Text → Text → Bool
is_other none x = false
is_other (some prior) x = not (text_eq prior x)

-- Why an entry is refused.
unfoldable pub conflict : Owners → Entry → Option Text
conflict o e =
    if is_other (o.uri_by_resource e.resource_id) e.uri
    then some uri_moved
    else if is_other (o.owners e.uri) e.resource_id
    then some uri_owned_by_other
    else none

-- The survivors and the rejections.
unfoldable pub sift : Owners → List Entry → List Entry × List Rejection
unfolding claim conflict
sift o [] = ([], [])
sift o (e ∷ es) = elim (conflict o e) [
  | some reason ↦ let rest = sift o es in (rest.0, record { uri = e.uri; reason = reason } ∷ rest.1)
  | none ↦ let rest = sift (claim e o) es in (e ∷ rest.0, rest.1)
]

-- The rows are what the catalog lists, `none` when the read fails.
unfoldable pub reject_uri_conflicts :
    Option (List Entry) → List Entry → Option (List Entry × List Rejection)
unfolding uri_owners sift
reject_uri_conflicts none accepted = none
reject_uri_conflicts (some rows) accepted = some (sift (uri_owners rows) accepted)
