-- ===== src/Broker/Budget.antt =====
-- src/broker/internal/budget/budget.go and src/broker/internal/resolve/resolve.go: the in-process
-- spending counters, and the gate of a resolve on them. A cost is the winner's, in fixed point.
use reference_implementation.Common.{
  ℕ, ◌-◌, negsuc, ◌+◌, ◌≤◌, ◌<◌, ◌^◌, ◌≡◌, ◌↔◌, refl, Bool, true, false, not, ◌||◌, List, [], ◌∷◌,
  ◌++◌, arith, Text, codes, text_eq, text_eq_refl, if◌then◌else◌, ltb_ℤ, leb_ℤ, ℤ, pos, ◌+ℤ◌, ◌-ℤ◌,
  ◌≤ℤ◌, wrap64, Bool-cases, inl, inr, ◌∙◌,
}

-- A missing counter reads zero.
abbrev pub Counts : Type 0
Counts = Text → ℤ

pub record Decision : Type 0 where
  pub allowed : Bool
  pub remaining : ℤ
  pub limit : ℤ
  pub consumed : ℤ

-- The period is the year and month of the clock.
unfoldable pub key : Text → Text → Text
key agent_id period = codes "budget:" ++ (agent_id ++ (codes ":" ++ period))

unfoldable pub check : Text → Text → ℤ → Counts → Decision
check agent_id period limit counts =
    let consumed = counts (key agent_id period) in
    let remaining = wrap64 (limit -ℤ consumed) in
    record {
      allowed = leb_ℤ (pos 0) remaining;
      remaining = remaining;
      limit = limit;
      consumed = consumed;
    }

unfoldable pub record_spend : Text → Text → ℤ → Counts → Counts
record_spend agent_id period cost counts = if leb_ℤ cost (pos 0) then counts else λ k.
    if text_eq (key agent_id period) k then wrap64 (counts k +ℤ cost) else counts k

unfoldable pub check_budget : Text → Text → ℤ → ℤ → Counts → Bool
unfolding check
check_budget agent_id period limit cost counts =
    if text_eq agent_id [] || leb_ℤ limit (pos 0)
    then true
    else let dec = check agent_id period limit counts in
      if dec.allowed then not (ltb_ℤ dec.limit (wrap64 (dec.consumed +ℤ cost))) else false

-- The part of a resolve that reads and writes the counters: the gate, then the record.
unfoldable pub resolve_spend : Text → Text → ℤ → ℤ → Counts → Counts
unfolding check_budget record_spend
resolve_spend agent_id period limit cost counts =
    if check_budget agent_id period limit cost counts
    then record_spend agent_id period cost counts
    else counts

unfoldable pub resolve_all : Text → Text → ℤ → List ℤ → Counts → Counts
unfolding resolve_spend
resolve_all agent_id period limit [] counts = counts
resolve_all agent_id period limit (cost ∷ costs) counts =
    resolve_all agent_id period limit costs (resolve_spend agent_id period limit cost counts)

-- The gate admits a cost exactly when it fits under the limit, on top of what was spent.
pub check_budget_iff :
    (agent_id period : Text) (limit cost consumed : ℕ) (counts : Counts)
    → text_eq agent_id [] ≡ false
    → 0 < limit
    → limit < 2 ^ 62
    → cost < 2 ^ 62
    → consumed < 2 ^ 62
    → counts (key agent_id period) ≡ pos consumed
    → (check_budget agent_id period (pos limit) (pos cost) counts ≡ true)
      ↔ (consumed + cost ≤ limit)
unfolding check_budget wrap64 ◌+ℤ◌ ◌-ℤ◌
check_budget_iff agent_id period limit cost consumed counts named p lim c n now =
    rw (named, now) ground arith

-- What the counters hold after a resolve: the agent's is at most the limit, the others as before.
abbrev pub Spent : Text → Text → ℕ → Counts → Counts → Type 0
Spent agent_id period limit before after =
    (n : ℕ) × (after (key agent_id period) ≡ pos n)
    × (n ≤ limit)
    × ((k : Text) → text_eq (key agent_id period) k ≡ false → after k ≡ before k)

resolve_spend-Spent :
    (agent_id period : Text) (limit cost consumed : ℕ) (counts : Counts)
    → text_eq agent_id [] ≡ false
    → 0 < limit
    → limit < 2 ^ 62
    → cost < 2 ^ 62
    → consumed ≤ limit
    → counts (key agent_id period) ≡ pos consumed
    → Spent agent_id period limit counts
        (resolve_spend agent_id period (pos limit) (pos cost) counts)
unfolding resolve_spend record_spend wrap64 ◌+ℤ◌
resolve_spend-Spent agent_id period limit cost consumed counts named p lim c le now =
    let gate =
      check_budget_iff agent_id period limit cost consumed counts named p lim c (omega arith) now in
    let same = text_eq_refl (key agent_id period) in
    elim (Bool-cases (check_budget agent_id period (pos limit) (pos cost) counts)) [
      | inr refused ↦ rw (refused, resolve_spend) (consumed, now, le, λ k other. refl)
      | inl admitted ↦
          let fits = gate.0 admitted in
          rw (admitted, resolve_spend)
            (consumed + cost, ground (arith, same, now), fits, λ k other. ground arith)
    ]

-- Costs that are not negative, below 2^62.
abbrev pub AllCosts : List ℤ → Type 0
AllCosts [] = Unit
AllCosts (cost ∷ costs) = (pos 0 ≤ℤ cost) × (cost ≤ℤ pos (2 ^ 62 - 1)) × AllCosts costs

-- Resolves that come one after the other, each with its own cost, never spend more than the limit
-- of a named agent in a period, and touch no other counter. The limit is positive and below 2^62,
-- as are the costs, which may be zero, and what was spent before is at most the limit.
pub resolve_all-Spent :
    (agent_id period : Text) (limit consumed : ℕ) (costs : List ℤ) (counts : Counts)
    → text_eq agent_id [] ≡ false
    → 0 < limit
    → limit < 2 ^ 62
    → AllCosts costs
    → consumed ≤ limit
    → counts (key agent_id period) ≡ pos consumed
    → Spent agent_id period limit counts (resolve_all agent_id period (pos limit) costs counts)
unfolding resolve_all
resolve_all-Spent agent_id period limit consumed [] counts named p lim small le now =
    (consumed, now, le, λ k other. refl)
resolve_all-Spent agent_id period limit consumed (negsuc c ∷ costs) counts named p lim small le
      now =
    absurd (omega arith)
resolve_all-Spent agent_id period limit consumed (pos c ∷ costs) counts named p lim small le now =
    let (n, now', le', kept) =
      resolve_spend-Spent agent_id period limit c consumed counts named p lim (omega arith) le
        now in
    let (m, now'', le'', kept') =
      resolve_all-Spent agent_id period limit n costs
        (resolve_spend agent_id period (pos limit) (pos c) counts) named p lim small.2 le' now' in
    (m, now'', le'', λ k other. kept' k other ∙ kept k other)
