-- ===== src/Catalog/Tests.antt =====
-- src/exchange/internal/service/catalog_uri_ownership.go: a push of four entries over one row, of
-- which one takes the row's URI, one moves its resource and one repeats a URI of the push.
use reference_implementation.Common.{
  ◌≡◌, ◌↔◌, inl, inr, refl, sym, ap, ◌∙◌, some, List, [], ◌∷◌, Text, codes, text_eq,
}
use reference_implementation.Exchange.Messages.{Entry}
use reference_implementation.Catalog.Uris.{
  Rejection, reject_uri_conflicts, uri_owners, owners_from, sift, conflict, claim, uri_moved,
  uri_owned_by_other,
}
use reference_implementation.Catalog.Unique.{OneToOne}
use reference_implementation.Exchange.Kinds.{success}
use reference_implementation.Catalog.Push.{
  push_entries, persist_accepted, upsert, uri_of, is_taken, replace,
}
use reference_implementation.Catalog.Stored.{PushEnds, push_entries-PushEnds}
use reference_implementation.Catalog.Complete.{reject_uri_conflicts_iff}

abbrev entry_at : Text → Text → Entry
entry_at id uri = record {
  resource_id = id;
  tenant_id = codes "t";
  uri = uri;
  resource_owner_id = codes "owner";
}

abbrev row : Entry
row = entry_at (codes "r") (codes "/a")

abbrev added : Entry
added = entry_at (codes "s") (codes "/b")

abbrev push : List Entry
push =
    added
    ∷ entry_at (codes "q") (codes "/a")
    ∷ entry_at (codes "r") (codes "/c")
    ∷ entry_at (codes "p") (codes "/b")
    ∷ []

abbrev refused : List Rejection
refused =
    record { uri = codes "/a"; reason = uri_owned_by_other }
    ∷ record { uri = codes "/c"; reason = uri_moved }
    ∷ record { uri = codes "/b"; reason = uri_owned_by_other }
    ∷ []

row-OneToOne : OneToOne (row ∷ [])
row-OneToOne e f (inr m) b = absurd m
row-OneToOne e f (inl a) (inr m) = absurd m
row-OneToOne e f (inl a) (inl b) =
    (λ same. ap (λ x. x.resource_id) (a ∙ sym b), λ same. ap (λ x. x.uri) (a ∙ sym b))

push_run : reject_uri_conflicts (some (row ∷ [])) push ≡ some (added ∷ [], refused)
unfolding reject_uri_conflicts uri_owners owners_from sift conflict claim text_eq
push_run = refl

reject_uri_conflicts_iff_example :
    (reject_uri_conflicts (some (row ∷ [])) push ≡ some (push, [])) ↔ OneToOne (row ∷ push)
reject_uri_conflicts_iff_example = reject_uri_conflicts_iff (row ∷ []) push row-OneToOne

stored : push_entries [] (added ∷ row ∷ []) (row ∷ []) ≡ success (row ∷ added ∷ [])
unfolding push_entries persist_accepted upsert uri_of is_taken replace reject_uri_conflicts
    uri_owners owners_from sift conflict claim text_eq
stored = refl

-- A re-push replaces every field of its row.
abbrev repriced : Entry
repriced = record row { resource_owner_id = codes "heir" }

replaced : push_entries [] (repriced ∷ []) (row ∷ []) ≡ success (repriced ∷ [])
unfolding push_entries persist_accepted upsert uri_of is_taken replace reject_uri_conflicts
    uri_owners owners_from sift conflict claim text_eq
replaced = refl

push_entries-PushEnds_example :
    PushEnds [] (added ∷ row ∷ []) (row ∷ []) (push_entries [] (added ∷ row ∷ []) (row ∷ []))
push_entries-PushEnds_example = push_entries-PushEnds [] (added ∷ row ∷ []) (row ∷ []) row-OneToOne
