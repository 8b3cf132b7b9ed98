-- ===== src/Catalog/Stored.antt =====
-- src/exchange/internal/service/catalog.go: the check before a push is enough for the database.
use reference_implementation.Common.{
  ◌⊎◌, ◌≢◌, text_eq, if◌then◌else◌, ◌≡◌, inl, inr, refl, sym, ap, ◌∙◌, some, List, [], ◌∷◌, ◌++◌,
  Text, text_eq_refl, Bool-cases, Option-cases,
}
use mathlib.Core.Path.{subst}
use reference_implementation.Exchange.Kinds.{Kind, Result, failure, success}
use reference_implementation.Exchange.Messages.{Entry}
use reference_implementation.Catalog.Uris.{
  Rejection, Owners, claim, uri_owners, conflict, sift, reject_uri_conflicts,
}
use reference_implementation.Catalog.Unique.{
  IsIn, OneToOne, IsIn-append, reject_uri_conflicts-OneToOne,
}
use reference_implementation.Catalog.Complete.{
  Comes, IsIn-left, IsIn-right, reject_uri_conflicts_iff,
}
use reference_implementation.Catalog.Push.{
  uri_of, is_taken, upsert, persist_accepted, persist_whole, push_entries,
}
use reference_implementation.Catalog.Keys.{
  uri_of-some, uri_of-none, is_taken-true, IsIn-replace, row_of, row_of-replace, row_of-append,
  latest,
}

module _ (xs : List Entry) (one : OneToOne xs) where
  abbrev IsWithin : List Entry → Type 0
  IsWithin rows = (x : Entry) → IsIn x rows → Comes xs x.uri x.resource_id

  -- What the upsert of an entry does: it succeeds, and the row of its resource is the entry, in
  -- every field; the rows of the other resources are as before.
  abbrev Upserted : Entry → List Entry → Result (List Entry) → Type 0
  Upserted e rows (failure k) = ⊥
  Upserted e rows (success next) =
      IsWithin next
      × ((id : Text)
          → row_of id next ≡ (if text_eq e.resource_id id then some e else row_of id rows))

  upsert-Upserted :
      (e : Entry) (rows : List Entry) → IsIn e xs → IsWithin rows → Upserted e rows (upsert e rows)
  unfolding upsert
  upsert-Upserted e rows m within = elim (Option-cases (uri_of e.resource_id rows)) [
    | inl new ↦ elim (Bool-cases (is_taken e.uri rows)) [
      | inl taken ↦
          let (x, n, u) = is_taken-true e.uri rows taken in
          let (y, among, v, j) = within x n in
          absurd (uri_of-none e.resource_id rows x new n (sym j ∙ (one y e among m).0 (v ∙ u)))
      | inr fresh ↦
          rw (new, fresh, upsert)
            (
              λ x n. elim (IsIn-append x rows (e ∷ []) n) [
                | inl old ↦ within x old
                | inr (inl this) ↦
                    (e, m, ap (λ y. y.uri) (sym this), ap (λ y. y.resource_id) (sym this))
                | inr (inr nothing) ↦ absurd nothing
              ],
              λ id. row_of-append e id rows new,
            )
    ]
    | inr (uri, found) ↦
        let (x, n, u, i) = uri_of-some e.resource_id uri rows found in
        let (y, among, v, j) = within x n in
        let same : uri ≡ e.uri = sym u ∙ sym v ∙ (one y e among m).1 (j ∙ i) in
        rw (found, same, text_eq_refl e.uri, upsert)
          (
            λ z k. elim (IsIn-replace e z rows k) [
              | inl this ↦ (e, m, ap (λ t. t.uri) (sym this), ap (λ t. t.resource_id) (sym this))
              | inr old ↦ within z old
            ],
            λ id. row_of-replace e id uri rows found,
          )
  ]

  -- What a whole transaction does: the row of a resource is the last entry for it, or the row
  -- before.
  abbrev Persisted : List Entry → List Entry → Result (List Entry) → Type 0
  Persisted es rows (failure k) = ⊥
  Persisted es rows (success next) =
      IsWithin next × ((id : Text) → row_of id next ≡ latest id es (row_of id rows))

  persist_accepted-Persisted :
      (es rows : List Entry)
      → ((e : Entry) → IsIn e es → IsIn e xs)
      → IsWithin rows
      → Persisted es rows (persist_accepted es rows)
  unfolding persist_accepted
  persist_accepted-Persisted [] rows sub within = (within, λ id. refl)
  persist_accepted-Persisted (e ∷ es) rows sub within =
      go (upsert e rows) (upsert-Upserted e rows (sub e (inl refl)) within)
        (λ mid still. persist_accepted-Persisted es mid (λ f m. sub f (inr m)) still)
    where
      after :
          (mid : List Entry) (r : Result (List Entry))
          → ((id : Text)
              → row_of id mid ≡ (if text_eq e.resource_id id then some e else row_of id rows))
          → Persisted es mid r
          → Persisted (e ∷ es) rows r
      after mid (failure k) put h = h
      after mid (success next) put (still, law) = (still, λ id. law id ∙ ap (latest id es) (put id))

      go :
          (r : Result (List Entry))
          → Upserted e rows r
          → ((mid : List Entry) → IsWithin mid → Persisted es mid (persist_accepted es mid))
          → Persisted
              (e ∷ es)
              rows
              (elim r [ failure k ↦ failure k | success next ↦ persist_accepted es next ])
      go (failure k) up rest = absurd up
      go (success mid) (still, put) rest = after mid (persist_accepted es mid) put (rest mid still)

  IsWithin-OneToOne : (rows : List Entry) → IsWithin rows → OneToOne rows
  IsWithin-OneToOne rows within e f me mf =
      let (x, m, u, i) = within e me in
      let (y, n, v, j) = within f mf in
      (
        λ same. sym i ∙ (one x y m n).0 (u ∙ same ∙ sym v) ∙ j,
        λ same. sym u ∙ (one x y m n).1 (i ∙ same ∙ sym j) ∙ v,
      )

sift-whole :
    (accepted survivors : List Entry) (o : Owners)
    → sift o accepted ≡ (survivors, [])
    → survivors ≡ accepted
unfolding sift
sift-whole [] survivors o h = cc
sift-whole (e ∷ es) survivors o h = elim (Option-cases (conflict o e)) [
  | inr (reason, refused) ↦
      let late : record { uri = e.uri; reason = reason } ∷ (sift o es).1 ≡ [] =
        ap (λ p. p.1) (rw (refused, sift) at h) in
      absurd (cc)
  | inl passed ↦
      let parted : (e ∷ (sift (claim e o) es).0, (sift (claim e o) es).1) ≡ (survivors, []) =
        rw (passed, sift) at h in
      let none_late : (sift (claim e o) es).1 ≡ [] = ap (λ p. p.1) parted in
      sym (ap (λ p. p.0) parted)
      ∙ ap (λ l. e ∷ l)
          (sift-whole es (sift (claim e o) es).0 (claim e o)
            (ap (λ l. ((sift (claim e o) es).0, l)) none_late))
]

-- The rows after a push that was stored.
abbrev pub IsPushed : List Entry → List Entry → List Entry → Type 0
IsPushed accepted rows next =
    OneToOne next × ((id : Text) → row_of id next ≡ latest id accepted (row_of id rows))

persist_accepted-IsPushed :
    (accepted rows : List Entry)
    → OneToOne (rows ++ accepted)
    → (next : List Entry) × (persist_accepted accepted rows ≡ success next)
      × IsPushed accepted rows next
persist_accepted-IsPushed accepted rows all = go (persist_accepted accepted rows) (
    persist_accepted-Persisted (rows ++ accepted) all accepted rows
      (λ e m. IsIn-right e rows accepted m) (λ x m. (x, IsIn-left x rows accepted m, refl, refl)))
  where
    go :
        (r : Result (List Entry))
        → Persisted (rows ++ accepted) all accepted rows r
        → (next : List Entry) × (r ≡ success next) × IsPushed accepted rows next
    go (failure k) h = absurd h
    go (success next) (within, law) =
        (next, refl, (IsWithin-OneToOne (rows ++ accepted) all next within, law))

-- What a push of these entries comes to, after the gates before have made these rejections.
abbrev pub PushEnds : List Rejection → List Entry → List Entry → Result (List Entry) → Type 0
PushEnds early accepted rows r =
    ((next : List Entry) × (early ≡ [])
      × OneToOne (rows ++ accepted)
      × (r ≡ success next)
      × IsPushed accepted rows next)
    ⊎ ((r ≡ failure Kind.invalid_request) × ((early ≢ []) ⊎ (¬ (OneToOne (rows ++ accepted)))))

persist_whole-PushEnds :
    (early late : List Rejection) (accepted survivors rows : List Entry)
    → OneToOne rows
    → sift (uri_owners rows) accepted ≡ (survivors, late)
    → PushEnds early accepted rows (persist_whole early late survivors rows)
unfolding reject_uri_conflicts
persist_whole-PushEnds (r ∷ rs) late accepted survivors rows one h =
    inr (refl, inl (λ none_early. absurd (cc)))
persist_whole-PushEnds [] (r ∷ rs) accepted survivors rows one h =
    inr (refl, inr (λ all. absurd (cc (h, (reject_uri_conflicts_iff rows accepted one).1 all))))
persist_whole-PushEnds [] [] accepted survivors rows one h =
    let whole = sift-whole accepted survivors (uri_owners rows) h in
    let all : OneToOne (rows ++ accepted) =
      subst (λ es. OneToOne (rows ++ es)) whole
        (reject_uri_conflicts-OneToOne rows accepted survivors [] one (ap some h)) in
    let (next, done, pushed) = persist_accepted-IsPushed accepted rows all in
    inl (next, refl, all, ap (λ es. persist_accepted es rows) whole ∙ done, pushed)

-- Over rows that give a URI to one resource and a resource one URI, a push whose entries passed the
-- gates before, and which keep the rows one to one, is stored: no constraint of the database refuses
-- it. The rows are then one to one, the row of every resource of the push is the last of its
-- entries for it, in all its fields, and every other row is as it was. A push with a rejection of
-- a gate before, or which does not keep the rows one to one, is refused as an invalid request.
pub push_entries-PushEnds :
    (early : List Rejection) (accepted rows : List Entry)
    → OneToOne rows
    → PushEnds early accepted rows (push_entries early accepted rows)
unfolding push_entries reject_uri_conflicts
push_entries-PushEnds early accepted rows one =
    persist_whole-PushEnds early (sift (uri_owners rows) accepted).1 accepted
      (sift (uri_owners rows) accepted).0 rows one refl
