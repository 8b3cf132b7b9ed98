-- ===== src/Broker/Tests.antt =====
-- src/broker/internal/selection/selection.go and src/broker/internal/budget/budget.go: three offers and
-- one agent's counter.
use reference_implementation.Common.{
  ℕ, ◌+◌, ◌≡◌, inl, refl, Bool, true, none, some, List, [], ◌∷◌, arith, Text, codes, text_eq, pos,
  ◌≤ℤ◌, if◌then◌else◌,
}
use reference_implementation.Broker.Offers.{
  MoneyParser, Candidate, identity_key, trust_weight, to_upper, offer_charge,
}
use reference_implementation.Broker.Selection.{
  charge, dedup, rank, insert_ranked, ranks_before, unless_equal, text_lt,
}
use reference_implementation.Broker.Budget.{Counts, key, resolve_all, Spent, resolve_all-Spent}
use reference_implementation.Broker.Interleaved.{
  gate, book, run_phases, start, interleaved_overspend,
}
use reference_implementation.Broker.Order.{SameRank}
use reference_implementation.Broker.Winners.{Occurs, rank-SameRank}
use reference_implementation.Broker.Identities.{dedup-cheapest}
use reference_implementation.Broker.Uniques.{OnePerIdentity, dedup-OnePerIdentity}

-- A parser that reads a string of n bytes as n.
abbrev size : Text → ℕ
size [] = 0
size (c ∷ cs) = 1 + size cs

instance abbrev by_size : MoneyParser
by_size = record { parse_money = λ t. some (pos (size t)) }

abbrev candidate : Text → Text → Text → Text → Candidate
candidate id url price trust = record {
  offer = some (record {
    offer_id = id;
    pricing = some (record { unit_cost = some price; rate = [] });
    identity =
        some
          (record { canonical_url = some url; doi = none; iptc_guid = none; content_hash = none });
  });
  exchange = record { domain = codes "x"; endpoint = codes "e"; trust = trust; priority = pos 1 };
}

abbrev dear : Candidate
dear = candidate (codes "1") (codes "u") (codes "xxx") (codes "verified")

abbrev cheap : Candidate
cheap = candidate (codes "2") (codes "u") (codes "x") (codes "VERIFIED")

abbrev trusted : Candidate
trusted = candidate (codes "3") (codes "v") (codes "xx") (codes "preferred")

abbrev offers : List Candidate
offers = dear ∷ cheap ∷ trusted ∷ []

abbrev shuffled : List Candidate
shuffled = trusted ∷ dear ∷ cheap ∷ []

dedup-cheapest_example :
    (d : Candidate) × Occurs d (dedup offers)
    × Occurs d offers
    × (identity_key d.offer ≡ identity_key dear.offer)
    × (charge d ≤ℤ charge dear)
dedup-cheapest_example = dedup-cheapest offers dear (inl refl)

dedup-OnePerIdentity_example : OnePerIdentity (dedup offers)
dedup-OnePerIdentity_example = dedup-OnePerIdentity offers

abbrev any : Candidate → Bool
any c = true

ranking :
    (rank offers ≡ trusted ∷ cheap ∷ dear ∷ []) × (rank shuffled ≡ trusted ∷ cheap ∷ dear ∷ [])
unfolding rank insert_ranked ranks_before unless_equal trust_weight to_upper text_eq offer_charge
    text_lt
ranking = (refl, refl)

rank-SameRank_example : SameRank trusted trusted
rank-SameRank_example =
    rank-SameRank offers shuffled trusted trusted (cheap ∷ dear ∷ []) (cheap ∷ dear ∷ [])
      (λ c h. ground arith) (λ c h. ground arith) ranking.0 ranking.1

abbrev spent : ℕ → Counts
spent n k = if text_eq (key (codes "a") (codes "2026-04")) k then pos n else pos 0

resolve_all-Spent_example :
    Spent
      (codes "a")
      (codes "2026-04")
      100
      (spent 80)
      (resolve_all (codes "a") (codes "2026-04") (pos 100) (pos 30 ∷ pos 15 ∷ []) (spent 80))
unfolding key text_eq
resolve_all-Spent_example =
    resolve_all-Spent (codes "a") (codes "2026-04") 100 80 (pos 30 ∷ pos 15 ∷ []) (spent 80) refl
      (omega arith) (omega arith) (omega arith, omega arith, (omega arith, omega arith, tt))
      (omega arith) refl

interleaved_overspend_example :
    ((run_phases
          (codes "a")
          (codes "2026-04")
          (pos 100)
          (gate (pos 50) ∷ book ∷ gate (pos 50) ∷ book ∷ [])
          (start (spent 20))).counts
        (key (codes "a") (codes "2026-04"))
      ≡ pos (20 + 50))
    × ((run_phases
            (codes "a")
            (codes "2026-04")
            (pos 100)
            (gate (pos 50) ∷ gate (pos 50) ∷ book ∷ book ∷ [])
            (start (spent 20))).counts
          (key (codes "a") (codes "2026-04"))
        ≡ pos (20 + 50 + 50))
unfolding key text_eq
interleaved_overspend_example =
    interleaved_overspend (codes "a") (codes "2026-04") 100 50 20 (spent 20) refl (omega arith)
      (omega arith) (omega arith) (omega arith) refl
