-- ===== src/Catalog/Push.antt =====
-- src/exchange/internal/service/catalog.go: the end of PushResources, with the guarded upsert of
-- src/exchange/internal/repo/catalog.go. The rows are those of ramp.catalog.
use reference_implementation.Common.{
  Bool, false, ◌||◌, Option, none, some, List, [], ◌∷◌, ◌++◌, Text, text_eq, if◌then◌else◌,
}
use reference_implementation.Exchange.Kinds.{Kind, Result, failure, success}
use reference_implementation.Exchange.Messages.{Entry}
use reference_implementation.Catalog.Uris.{Rejection, reject_uri_conflicts}

unfoldable pub uri_of : Text → List Entry → Option Text
uri_of id [] = none
uri_of id (row ∷ rows) = if text_eq row.resource_id id then some row.uri else uri_of id rows

unfoldable pub is_taken : Text → List Entry → Bool
is_taken uri [] = false
is_taken uri (row ∷ rows) = text_eq row.uri uri || is_taken uri rows

unfoldable pub replace : Entry → List Entry → List Entry
replace e [] = []
replace e (row ∷ rows) =
    if text_eq row.resource_id e.resource_id then e ∷ rows else row ∷ replace e rows

-- A resource that exists keeps its URI; a new one may not take a URI (UNIQUE).
unfoldable pub upsert : Entry → List Entry → Result (List Entry)
unfolding uri_of is_taken replace
upsert e rows = elim (uri_of e.resource_id rows) [
  | none ↦ if is_taken e.uri rows then failure Kind.internal else success (rows ++ e ∷ [])
  | some uri ↦ if text_eq uri e.uri then success (replace e rows) else failure Kind.invalid_request
]

-- One transaction: an error rolls all of it back.
unfoldable pub persist_accepted : List Entry → List Entry → Result (List Entry)
unfolding upsert
persist_accepted [] rows = success rows
persist_accepted (e ∷ es) rows = elim (upsert e rows) [
  | failure k ↦ failure k
  | success next ↦ persist_accepted es next
]

abbrev pub persist_whole :
    List Rejection → List Rejection → List Entry → List Entry → Result (List Entry)
persist_whole [] [] accepted rows = persist_accepted accepted rows
persist_whole [] (r ∷ rs) accepted rows = failure Kind.invalid_request
persist_whole (r ∷ rs) late accepted rows = failure Kind.invalid_request

-- The rejections of the gates before, and the entries that passed them. A push is stored whole or
-- not at all.
unfoldable pub push_entries : List Rejection → List Entry → List Entry → Result (List Entry)
unfolding reject_uri_conflicts persist_accepted
push_entries early accepted rows = elim (reject_uri_conflicts (some rows) accepted) [
  | none ↦ failure Kind.internal
  | some (survivors, late) ↦ persist_whole early late survivors rows
]
