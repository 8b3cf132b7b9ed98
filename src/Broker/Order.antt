-- ===== src/Broker/Order.antt =====
-- src/broker/internal/selection/selection.go: the comparison of Rank is a strict weak order, so that
-- a stable sort by it has one result.
use reference_implementation.Common.{
  ◌≡◌, refl, Bool, true, false, [], ◌∷◌, arith, Text, ℤ, eq_of_parts, sym, Bool-cases, inl, inr,
}
use reference_implementation.Broker.Offers.{MoneyParser, Candidate, trust_weight, offer_id_of}
use reference_implementation.Broker.Selection.{text_lt, unless_equal, charge, ranks_before}

text_lt_irrefl : (a : Text) → text_lt a a ≡ false
unfolding text_lt
text_lt_irrefl [] = refl
text_lt_irrefl (x ∷ xs) = ground (arith, text_lt_irrefl xs)

text_lt_asym : (a b : Text) → text_lt a b ≡ true → text_lt b a ≡ false
unfolding text_lt
text_lt_asym [] [] h = cc
text_lt_asym [] (y ∷ ys) h = refl
text_lt_asym (x ∷ xs) [] h = cc
text_lt_asym (x ∷ xs) (y ∷ ys) h = ground (arith, text_lt_asym xs ys)

text_lt_trans_not : (a b c : Text) → text_lt b a ≡ false → text_lt c b ≡ false → text_lt c a ≡ false
unfolding text_lt
text_lt_trans_not [] b [] h k = refl
text_lt_trans_not [] [] (z ∷ zs) h k = refl
text_lt_trans_not [] (y ∷ ys) (z ∷ zs) h k = refl
text_lt_trans_not (x ∷ xs) [] c h k = cc
text_lt_trans_not (x ∷ xs) (y ∷ ys) [] h k = cc
text_lt_trans_not (x ∷ xs) (y ∷ ys) (z ∷ zs) h k = ground (arith, text_lt_trans_not xs ys zs)

text_lt_antisym : (a b : Text) → text_lt a b ≡ false → text_lt b a ≡ false → a ≡ b
unfolding text_lt
text_lt_antisym [] [] h k = refl
text_lt_antisym [] (y ∷ ys) h k = cc
text_lt_antisym (x ∷ xs) [] h k = cc
text_lt_antisym (x ∷ xs) (y ∷ ys) h k = ground (arith, text_lt_antisym xs ys)

unless_equal_asym :
    (x y : ℤ) (r s : Bool)
    → (r ≡ true → s ≡ false)
    → unless_equal x y r ≡ true
    → unless_equal y x s ≡ false
unfolding unless_equal
unless_equal_asym x y r s next h = ground arith

unless_equal_trans_not :
    (x y z : ℤ) (r s t : Bool)
    → (r ≡ false → s ≡ false → t ≡ false)
    → unless_equal y x r ≡ false
    → unless_equal z y s ≡ false
    → unless_equal z x t ≡ false
unfolding unless_equal
unless_equal_trans_not x y z r s t next h k = ground arith

unless_equal_antisym :
    (x y : ℤ) (r s : Bool)
    → unless_equal x y r ≡ false
    → unless_equal y x s ≡ false
    → (x ≡ y) × (r ≡ false) × (s ≡ false)
unfolding unless_equal
unless_equal_antisym x y r s h k = ground (arith, eq_of_parts x y)

module _ ⦃money : MoneyParser⦄ where
  pub ranks_before_asym : (c d : Candidate) → ranks_before c d ≡ true → ranks_before d c ≡ false
  unfolding ranks_before
  ranks_before_asym c d = unless_equal_asym _ _ _ _ (
      unless_equal_asym _ _ _ _
        (unless_equal_asym _ _ _ _ (text_lt_asym (offer_id_of c.offer) (offer_id_of d.offer))))

  pub ranks_before_irrefl : (c : Candidate) → ranks_before c c ≡ false
  ranks_before_irrefl c = elim (Bool-cases (ranks_before c c)) [
    | inl above ↦ ranks_before_asym c c above
    | inr h ↦ h
  ]

  pub ranks_before_trans_not :
      (b c d : Candidate)
      → ranks_before c b ≡ false
      → ranks_before d c ≡ false
      → ranks_before d b ≡ false
  unfolding ranks_before
  ranks_before_trans_not b c d h k =
      unless_equal_trans_not _ _ _ _ _ _
        (λ k1 h1.
          unless_equal_trans_not _ _ _ _ _ _
            (λ h2 k2.
              unless_equal_trans_not _ _ _ _ _ _
                (λ k3 h3.
                  text_lt_trans_not (offer_id_of b.offer) (offer_id_of c.offer)
                    (offer_id_of d.offer) h3 k3)
                k2 h2)
            h1 k1)
        k h

  -- The four things that are compared.
  abbrev pub SameRank : Candidate → Candidate → Type 0
  SameRank c d =
      (trust_weight c.exchange.trust ≡ trust_weight d.exchange.trust)
      × (charge c ≡ charge d)
      × (c.exchange.priority ≡ d.exchange.priority)
      × (offer_id_of c.offer ≡ offer_id_of d.offer)

  pub ranks_before-SameRank :
      (c d : Candidate) → ranks_before c d ≡ false → ranks_before d c ≡ false → SameRank c d
  unfolding ranks_before
  ranks_before-SameRank c d h k =
      let (trust, h1, k1) = unless_equal_antisym _ _ _ _ h k in
      let (cost, h2, k2) = unless_equal_antisym _ _ _ _ h1 k1 in
      let (priority, h3, k3) = unless_equal_antisym _ _ _ _ h2 k2 in
      (
        sym trust,
        cost,
        sym priority,
        text_lt_antisym (offer_id_of c.offer) (offer_id_of d.offer) h3 k3,
      )
