-- ===== src/Broker/Winners.antt =====
-- src/broker/internal/selection/selection.go: what Rank returns.
use reference_implementation.Common.{
  ℕ, ◌+◌, ◌≡◌, ◌⊎◌, refl, Bool, false, List, [], ◌∷◌, arith, Bool-cases, inl, inr, if◌then◌else◌,
}
use reference_implementation.Broker.Offers.{MoneyParser, Candidate}
use reference_implementation.Broker.Selection.{ranks_before, insert_ranked, rank}
use reference_implementation.Broker.Order.{
  ranks_before_asym, ranks_before_irrefl, ranks_before_trans_not, SameRank, ranks_before-SameRank,
}

abbrev pub Occurs : Candidate → List Candidate → Type 0
Occurs c [] = ⊥
Occurs c (d ∷ ds) = (c ≡ d) ⊎ Occurs c ds

-- How many candidates pass a test.
abbrev pub count : (Candidate → Bool) → List Candidate → ℕ
count p [] = 0
count p (c ∷ cs) = let rest = count p cs in if p c then 1 + rest else rest

module _ ⦃money : MoneyParser⦄ where
  -- No candidate of the list ranks before c.
  abbrev pub AllBehind : Candidate → List Candidate → Type 0
  AllBehind c [] = Unit
  AllBehind c (d ∷ ds) = (ranks_before d c ≡ false) × AllBehind c ds

  abbrev pub Ranked : List Candidate → Type 0
  Ranked [] = Unit
  Ranked (c ∷ cs) = AllBehind c cs × Ranked cs

  AllBehind-trans :
      (c d : Candidate) (ds : List Candidate)
      → ranks_before d c ≡ false
      → AllBehind d ds
      → AllBehind c ds
  AllBehind-trans c d [] h all = tt
  AllBehind-trans c d (e ∷ es) h all =
      (ranks_before_trans_not c d e h all.0, AllBehind-trans c d es h all.1)

  AllBehind-insert_ranked :
      (b c : Candidate) (ds : List Candidate)
      → ranks_before c b ≡ false
      → AllBehind b ds
      → AllBehind b (insert_ranked c ds)
  unfolding insert_ranked
  AllBehind-insert_ranked b c [] h all = (h, tt)
  AllBehind-insert_ranked b c (d ∷ ds) h all = elim (Bool-cases (ranks_before d c)) [
    | inl sooner ↦ rw (sooner, insert_ranked) (all.0, AllBehind-insert_ranked b c ds h all.1)
    | inr later ↦ rw (later, insert_ranked) (h, (all.0, all.1))
  ]

  Ranked-insert_ranked :
      (c : Candidate) (ds : List Candidate) → Ranked ds → Ranked (insert_ranked c ds)
  unfolding insert_ranked
  Ranked-insert_ranked c [] h = (tt, tt)
  Ranked-insert_ranked c (d ∷ ds) h = elim (Bool-cases (ranks_before d c)) [
    | inl sooner ↦
        rw (sooner, insert_ranked)
          (
            AllBehind-insert_ranked d c ds (ranks_before_asym d c sooner) h.0,
            Ranked-insert_ranked c ds h.1,
          )
    | inr later ↦ rw (later, insert_ranked) ((later, AllBehind-trans c d ds later h.0), (h.0, h.1))
  ]

  count-insert_ranked :
      (p : Candidate → Bool) (c : Candidate) (ds : List Candidate)
      → count p (insert_ranked c ds) ≡ count p (c ∷ ds)
  unfolding insert_ranked
  count-insert_ranked p c [] = refl
  count-insert_ranked p c (d ∷ ds) = ground (arith, count-insert_ranked p c ds)

  rank-Ranked : (cands : List Candidate) → Ranked (rank cands)
  unfolding rank
  rank-Ranked [] = tt
  rank-Ranked (c ∷ cs) = Ranked-insert_ranked c (rank cs) (rank-Ranked cs)

  count-rank :
      (p : Candidate → Bool) (cands : List Candidate) → count p (rank cands) ≡ count p cands
  unfolding rank
  count-rank p [] = refl
  count-rank p (c ∷ cs) = ground (arith, count-insert_ranked p c (rank cs), count-rank p cs)

  -- Rank puts the candidates in order, none behind one that it ranks before, and has each as often
  -- as it was given: any test passes as many candidates after as before.
  pub rank-Ranked_count :
      (p : Candidate → Bool) (cands : List Candidate)
      → Ranked (rank cands) × (count p (rank cands) ≡ count p cands)
  rank-Ranked_count p cands = (rank-Ranked cands, count-rank p cands)

  Occurs-insert_ranked :
      (b c : Candidate) (ds : List Candidate) → Occurs b (insert_ranked c ds) → Occurs b (c ∷ ds)
  unfolding insert_ranked
  Occurs-insert_ranked b c [] h = h
  Occurs-insert_ranked b c (d ∷ ds) h = elim (Bool-cases (ranks_before d c)) [
    | inr later ↦ rw (later, insert_ranked) at h
    | inl sooner ↦ elim (rw (sooner, insert_ranked) at h) [
      | inl same ↦ inr (inl same)
      | inr deeper ↦ elim (Occurs-insert_ranked b c ds deeper) [
        | inl first ↦ inl first
        | inr rest ↦ inr (inr rest)
      ]
    ]
  ]

  rank-Occurs : (b : Candidate) (cands : List Candidate) → Occurs b (rank cands) → Occurs b cands
  unfolding rank
  rank-Occurs b [] h = h
  rank-Occurs b (c ∷ cs) h = elim (Occurs-insert_ranked b c (rank cs) h) [
    | inl same ↦ inl same
    | inr deeper ↦ inr (rank-Occurs b cs deeper)
  ]

  insert_ranked-Occurs :
      (b c : Candidate) (ds : List Candidate) → Occurs b (c ∷ ds) → Occurs b (insert_ranked c ds)
  unfolding insert_ranked
  insert_ranked-Occurs b c [] h = h
  insert_ranked-Occurs b c (d ∷ ds) h = elim (Bool-cases (ranks_before d c)) [
    | inr later ↦ rw (later, insert_ranked) h
    | inl sooner ↦
        rw (sooner, insert_ranked)
          (elim h [
            | inl same ↦ inr (insert_ranked-Occurs b c ds (inl same))
            | inr deeper ↦ elim deeper [
              | inl first ↦ inl first
              | inr rest ↦ inr (insert_ranked-Occurs b c ds (inr rest))
            ]
          ])
  ]

  Occurs-rank : (b : Candidate) (cands : List Candidate) → Occurs b cands → Occurs b (rank cands)
  unfolding rank
  Occurs-rank b [] h = h
  Occurs-rank b (c ∷ cs) h =
      insert_ranked-Occurs b c (rank cs)
        (elim h [ inl same ↦ inl same | inr deeper ↦ inr (Occurs-rank b cs deeper) ])

  AllBehind-Occurs :
      (w c : Candidate) (ws : List Candidate)
      → AllBehind w ws
      → Occurs c ws
      → ranks_before c w ≡ false
  AllBehind-Occurs w c [] all h = absurd h
  AllBehind-Occurs w c (d ∷ ds) all (inl same) = rw same all.0
  AllBehind-Occurs w c (d ∷ ds) all (inr deeper) = AllBehind-Occurs w c ds all.1 deeper

  winner-behind :
      (w c : Candidate) (ws cands : List Candidate)
      → rank cands ≡ w ∷ ws
      → Occurs c cands
      → ranks_before c w ≡ false
  winner-behind w c ws cands e h =
      let (all, rest) : Ranked (w ∷ ws) = rw e at (rank-Ranked cands) in
      elim (rw e at (Occurs-rank c cands h)) [
        | inl same ↦ rw same (ranks_before_irrefl w)
        | inr deeper ↦ AllBehind-Occurs w c ws all deeper
      ]

  -- The winners of two lists with the same candidates, in any order and number, agree in trust
  -- weight, charge, priority and offer id. Candidates that tie on these four may differ in the
  -- rest, such as their exchange, and which of them wins may then depend on the order.
  pub rank-SameRank :
      (xs ys : List Candidate) (w v : Candidate) (ws vs : List Candidate)
      → ((c : Candidate) → Occurs c xs → Occurs c ys)
      → ((c : Candidate) → Occurs c ys → Occurs c xs)
      → rank xs ≡ w ∷ ws
      → rank ys ≡ v ∷ vs
      → SameRank w v
  rank-SameRank xs ys w v ws vs into back e f =
      let w_in : Occurs w xs = rank-Occurs w xs (rw e (inl refl)) in
      let v_in : Occurs v ys = rank-Occurs v ys (rw f (inl refl)) in
      ranks_before-SameRank w v (winner-behind v w vs ys f (into w w_in))
        (winner-behind w v ws xs e (back v v_in))
