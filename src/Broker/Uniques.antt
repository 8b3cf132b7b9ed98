-- ===== src/Broker/Uniques.antt =====
-- src/broker/internal/selection/selection.go: Dedup keeps one candidate of each identity.
use reference_implementation.Common.{
  ◌≡◌, refl, false, none, List, [], ◌∷◌, Text, text_eq, lookup, insert, Distinct, Bool-cases, inl,
  inr,
}
use reference_implementation.Broker.Offers.{MoneyParser, Candidate, identity_key}
use reference_implementation.Broker.Selection.{values, keep_best, best_from, dedup}
use reference_implementation.Broker.Identities.{Distinct-keep_best, keep_best-cases}

module _ ⦃money : MoneyParser⦄ where
  abbrev Keyed : List (Text × Candidate) → Type 0
  Keyed [] = Unit
  Keyed ((k, d) ∷ best) = (identity_key d.offer ≡ k) × Keyed best

  Keyed-insert :
      (c : Candidate) (best : List (Text × Candidate))
      → Keyed best
      → Keyed (insert (identity_key c.offer) c best)
  Keyed-insert c [] h = (refl, tt)
  Keyed-insert c ((k, d) ∷ best) h = elim (Bool-cases (text_eq k (identity_key c.offer))) [
    | inl same ↦ rw same (refl, h.1)
    | inr other ↦ rw other (h.0, Keyed-insert c best h.1)
  ]

  Keyed-keep_best :
      (c : Candidate) (best : List (Text × Candidate)) → Keyed best → Keyed (keep_best c best)
  Keyed-keep_best c best h = elim (keep_best-cases c best) [
    | inl same ↦ rw same h
    | inr (new, cheaper) ↦ rw new (Keyed-insert c best h)
  ]

  abbrev NoneAs : Text → List Candidate → Type 0
  NoneAs k [] = Unit
  NoneAs k (c ∷ cs) = (text_eq (identity_key c.offer) k ≡ false) × NoneAs k cs

  abbrev pub OnePerIdentity : List Candidate → Type 0
  OnePerIdentity [] = Unit
  OnePerIdentity (c ∷ cs) = NoneAs (identity_key c.offer) cs × OnePerIdentity cs

  NoneAs-values :
      (k : Text) (best : List (Text × Candidate))
      → Keyed best
      → lookup k best ≡ none
      → NoneAs k (values best)
  NoneAs-values k [] h e = tt
  NoneAs-values k ((i, d) ∷ best) h e = elim (Bool-cases (text_eq i k)) [
    | inl same ↦ absurd (cc (rw same at e))
    | inr other ↦ (rw h.0 other, NoneAs-values k best h.1 (rw other at e))
  ]

  OnePerIdentity-values :
      (best : List (Text × Candidate)) → Keyed best → Distinct best → OnePerIdentity (values best)
  OnePerIdentity-values [] h u = tt
  OnePerIdentity-values ((k, d) ∷ best) h u =
      (rw h.0 (NoneAs-values k best h.1 u.0), OnePerIdentity-values best h.1 u.1)

  best_from-OnePerIdentity :
      (cs : List Candidate) (best : List (Text × Candidate))
      → Keyed best
      → Distinct best
      → OnePerIdentity (values (best_from cs best))
  unfolding best_from
  best_from-OnePerIdentity [] best h u = OnePerIdentity-values best h u
  best_from-OnePerIdentity (c ∷ cs) best h u =
      best_from-OnePerIdentity cs (keep_best c best) (Keyed-keep_best c best h)
        (Distinct-keep_best c best u)

  -- Dedup keeps at most one candidate of each identity.
  pub dedup-OnePerIdentity : (cands : List Candidate) → OnePerIdentity (dedup cands)
  unfolding dedup
  dedup-OnePerIdentity cands = best_from-OnePerIdentity cands [] tt tt
