-- ===== src/Broker/Identities.antt =====
-- src/broker/internal/selection/selection.go: what Dedup keeps.
use reference_implementation.Common.{
  ◌≡◌, ◌⊎◌, refl, some, List, [], ◌∷◌, arith, Text, text_eq, text_eq_iff, text_eq_refl, ◌≤ℤ◌, ltb_ℤ,
  lookup, insert, lookup-insert, Distinct, Distinct-insert, Bool-cases, Option-cases, inl, inr, ◌∙◌,
}
use reference_implementation.Broker.Offers.{MoneyParser, Candidate, identity_key}
use reference_implementation.Broker.Selection.{charge, values, keep_best, best_from, dedup}
use reference_implementation.Broker.Winners.{Occurs}

lookup-values :
    (k : Text) (c : Candidate) (best : List (Text × Candidate))
    → lookup k best ≡ some c
    → Occurs c (values best)
lookup-values k c [] e = cc
lookup-values k c ((i, d) ∷ best) e = elim (Bool-cases (text_eq i k)) [
  | inl same ↦ inl (ground arith)
  | inr other ↦ inr (lookup-values k c best (rw other at e))
]

module _ ⦃money : MoneyParser⦄ where
  -- A kept candidate of the identity of c that is not dearer.
  abbrev Kept : Candidate → List (Text × Candidate) → Type 0
  Kept c best =
      (d : Candidate) × (lookup (identity_key c.offer) best ≡ some d) × (charge d ≤ℤ charge c)

  -- The kept ones are candidates, each under its own identity.
  abbrev Sound : List Candidate → List (Text × Candidate) → Type 0
  Sound seen best =
      (k : Text) (d : Candidate)
      → lookup k best ≡ some d
      → (identity_key d.offer ≡ k) × Occurs d seen

  keep_best-Kept : (c : Candidate) (best : List (Text × Candidate)) → Kept c (keep_best c best)
  unfolding keep_best
  keep_best-Kept c best = elim (Option-cases (lookup (identity_key c.offer) best)) [
    | inl fresh ↦
        rw (fresh, keep_best)
          (
            c,
            lookup-insert (identity_key c.offer) (identity_key c.offer) c best
                ∙ rw (text_eq_refl (identity_key c.offer)) refl,
            omega arith,
          )
    | inr (d, e) ↦ elim (Bool-cases (ltb_ℤ (charge c) (charge d))) [
      | inl cheaper ↦
          rw (e, keep_best)
            (rw cheaper (
              c,
              lookup-insert (identity_key c.offer) (identity_key c.offer) c best
                  ∙ rw (text_eq_refl (identity_key c.offer)) refl,
              omega arith,
            ))
      | inr dearer ↦ rw (e, keep_best) (rw dearer (d, e, ground arith))
    ]
  ]

  pub keep_best-cases :
      (c : Candidate) (best : List (Text × Candidate))
      → (keep_best c best ≡ best)
        ⊎ ((keep_best c best ≡ insert (identity_key c.offer) c best)
            × ((d : Candidate)
                → lookup (identity_key c.offer) best ≡ some d
                → charge c ≤ℤ charge d))
  unfolding keep_best
  keep_best-cases c best = elim (Option-cases (lookup (identity_key c.offer) best)) [
    | inl fresh ↦ inr (rw (fresh, keep_best) refl, λ d e. absurd (cc (fresh, e)))
    | inr (x, e) ↦ elim (Bool-cases (ltb_ℤ (charge c) (charge x))) [
      | inl cheaper ↦ inr (rw (e, keep_best) (rw cheaper refl), λ d f. ground arith)
      | inr dearer ↦ inl (rw (e, keep_best) (rw dearer refl))
    ]
  ]

  Kept-keep_best :
      (b c : Candidate) (best : List (Text × Candidate)) → Kept b best → Kept b (keep_best c best)
  Kept-keep_best b c best (d, e, le) = elim (keep_best-cases c best) [
    | inl same ↦ rw same (d, e, le)
    | inr (new, cheaper) ↦
        elim (Bool-cases (text_eq (identity_key c.offer) (identity_key b.offer))) [
          | inr other ↦ rw new (
            d,
            lookup-insert (identity_key c.offer) (identity_key b.offer) c best ∙ rw other e,
            le,
          )
          | inl shared ↦
              let eq = (text_eq_iff (identity_key c.offer) (identity_key b.offer)).0 shared in
              let below = cheaper d (rw eq e) in
              rw new (
                c,
                lookup-insert (identity_key c.offer) (identity_key b.offer) c best ∙ rw shared refl,
                omega arith,
              )
        ]
  ]

  Sound-keep_best :
      (seen : List Candidate) (c : Candidate) (best : List (Text × Candidate))
      → Occurs c seen
      → Sound seen best
      → Sound seen (keep_best c best)
  Sound-keep_best seen c best h s k d e = elim (keep_best-cases c best) [
    | inl same ↦ s k d (rw same at e)
    | inr (new, cheaper) ↦
        let f = rw lookup-insert at (rw new at e) in
        elim (Bool-cases (text_eq (identity_key c.offer) k)) [
          | inr other ↦ s k d (rw other at f)
          | inl shared ↦
              let same : some c ≡ some d = rw shared at f in
              let eq = (text_eq_iff (identity_key c.offer) k).0 shared in
              let is_d : c ≡ d = cc in (rw (← is_d) eq, rw (← is_d) h)
        ]
  ]

  pub Distinct-keep_best :
      (c : Candidate) (best : List (Text × Candidate)) → Distinct best → Distinct (keep_best c best)
  Distinct-keep_best c best h = elim (keep_best-cases c best) [
    | inl same ↦ rw same h
    | inr (new, cheaper) ↦ rw new (Distinct-insert (identity_key c.offer) c best h)
  ]

  best_from-Kept :
      (b : Candidate) (cs : List Candidate) (best : List (Text × Candidate))
      → Kept b best ⊎ Occurs b cs
      → Kept b (best_from cs best)
  unfolding best_from
  best_from-Kept b [] best (inl h) = h
  best_from-Kept b [] best (inr h) = absurd h
  best_from-Kept b (c ∷ cs) best (inl h) =
      best_from-Kept b cs (keep_best c best) (inl (Kept-keep_best b c best h))
  best_from-Kept b (c ∷ cs) best (inr (inl same)) =
      best_from-Kept b cs (keep_best c best) (inl (rw same (keep_best-Kept c best)))
  best_from-Kept b (c ∷ cs) best (inr (inr deeper)) =
      best_from-Kept b cs (keep_best c best) (inr deeper)

  best_from-Sound :
      (seen cs : List Candidate) (best : List (Text × Candidate))
      → ((c : Candidate) → Occurs c cs → Occurs c seen)
      → Sound seen best
      → Sound seen (best_from cs best)
  unfolding best_from
  best_from-Sound seen [] best into s = s
  best_from-Sound seen (c ∷ cs) best into s =
      best_from-Sound seen cs (keep_best c best) (λ d h. into d (inr h))
        (Sound-keep_best seen c best (into c (inl refl)) s)

  -- Each candidate has, among those that Dedup keeps, one of its identity that is not dearer; it is
  -- one of the candidates given.
  pub dedup-cheapest :
      (cands : List Candidate) (c : Candidate)
      → Occurs c cands
      → (d : Candidate) × Occurs d (dedup cands)
        × Occurs d cands
        × (identity_key d.offer ≡ identity_key c.offer)
        × (charge d ≤ℤ charge c)
  unfolding dedup
  dedup-cheapest cands c h =
      let (d, e, le) = best_from-Kept c cands [] (inr h) in
      let (same, given) =
        best_from-Sound cands cands [] (λ b i. i) (λ k b f. absurd (cc)) (identity_key c.offer) d
          e in
      (d, lookup-values (identity_key c.offer) d (best_from cands []) e, given, same, le)
