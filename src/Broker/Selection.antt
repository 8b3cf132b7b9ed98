-- ===== src/Broker/Selection.antt =====
-- src/broker/internal/selection/selection.go: Dedup and Rank. `Dedup` ranges over a map, in an order
-- that Go leaves open: here it is that of the first offers of the identities, and no theorem depends
-- on it. A stable sort is an insertion sort from the right.
use reference_implementation.Common.{
  Bool, true, false, none, some, List, [], ◌∷◌, Text, if◌then◌else◌, ltb, ltb_ℤ, eqb_ℤ, ℤ, lookup,
  insert,
}
use reference_implementation.Broker.Offers.{
  MoneyParser, Candidate, identity_key, trust_weight, offer_charge, offer_id_of,
}

-- `<` on strings.
unfoldable pub text_lt : Text → Text → Bool
text_lt [] [] = false
text_lt [] (y ∷ ys) = true
text_lt (x ∷ xs) [] = false
text_lt (x ∷ xs) (y ∷ ys) =
    let rest = text_lt xs ys in if ltb x y then true else if ltb y x then false else rest

-- Whether x is the lower of two numbers; equal ones leave the answer to the next test.
unfoldable pub unless_equal : ℤ → ℤ → Bool → Bool
unless_equal x y next = if eqb_ℤ x y then next else ltb_ℤ x y

abbrev pub values : List (Text × Candidate) → List Candidate
values [] = []
values ((k, c) ∷ kcs) = c ∷ values kcs

module _ ⦃money : MoneyParser⦄ where
  abbrev pub charge : Candidate → ℤ
  charge c = offer_charge c.offer

  -- One round of the loop over the candidates.
  unfoldable pub keep_best : Candidate → List (Text × Candidate) → List (Text × Candidate)
  keep_best c best = elim (lookup (identity_key c.offer) best) [
    | none ↦ insert (identity_key c.offer) c best
    | some existing ↦
        if ltb_ℤ (charge c) (charge existing) then insert (identity_key c.offer) c best else best
  ]

  unfoldable pub best_from : List Candidate → List (Text × Candidate) → List (Text × Candidate)
  unfolding keep_best
  best_from [] best = best
  best_from (c ∷ cs) best = best_from cs (keep_best c best)

  unfoldable pub dedup : List Candidate → List Candidate
  unfolding best_from
  dedup cands = values (best_from cands [])

  -- The `less` of the sort: a higher trust, then a lower charge, then a higher priority, then the
  -- lower offer id.
  unfoldable pub ranks_before : Candidate → Candidate → Bool
  unfolding text_lt
  ranks_before c d = unless_equal (trust_weight d.exchange.trust) (trust_weight c.exchange.trust) (
      unless_equal (charge c) (charge d) (
        unless_equal d.exchange.priority c.exchange.priority
          (text_lt (offer_id_of c.offer) (offer_id_of d.offer))))

  unfoldable pub insert_ranked : Candidate → List Candidate → List Candidate
  insert_ranked c [] = c ∷ []
  insert_ranked c (d ∷ ds) =
      let rest = insert_ranked c ds in if ranks_before d c then d ∷ rest else c ∷ d ∷ ds

  unfoldable pub rank : List Candidate → List Candidate
  unfolding insert_ranked
  rank [] = []
  rank (c ∷ cs) = insert_ranked c (rank cs)
