-- ===== src/Broker/Interleaved.antt =====
-- src/broker/internal/resolve/resolve.go: resolves of one agent that overlap. The gate and the record
-- are two calls of the counters, each under their lock, and other resolves run between them.
use reference_implementation.Common.{
  ℕ, ◌+◌, ◌≤◌, ◌<◌, ◌^◌, ◌≡◌, true, false, List, [], ◌∷◌, ◌++◌, arith, Text, text_eq, text_eq_refl,
  if◌then◌else◌, ℤ, pos, ◌+ℤ◌, wrap64, Bool-cases, inl, inr,
}
use reference_implementation.Broker.Budget.{
  Counts, key, check_budget, record_spend, check_budget_iff,
}

-- The costs that passed the gate and are not yet recorded, the oldest first, and the counters.
pub record Resolves : Type 0 where
  pub admitted : List ℤ
  pub counts : Counts

pub data Phase : Type 0 where
  gate : ℤ → Phase
  book : Phase

unfoldable pub run_phase : Text → Text → ℤ → Phase → Resolves → Resolves
unfolding check_budget record_spend
run_phase agent_id period limit (gate cost) s =
    if check_budget agent_id period limit cost s.counts
    then record s { admitted = s.admitted ++ cost ∷ [] }
    else s
run_phase agent_id period limit book s = elim s.admitted [
  | [] ↦ s
  | cost ∷ rest ↦ record { admitted = rest; counts = record_spend agent_id period cost s.counts }
]

unfoldable pub run_phases : Text → Text → ℤ → List Phase → Resolves → Resolves
unfolding run_phase
run_phases agent_id period limit [] s = s
run_phases agent_id period limit (p ∷ ps) s =
    run_phases agent_id period limit ps (run_phase agent_id period limit p s)

abbrev pub start : Counts → Resolves
start counts = record { admitted = []; counts = counts }

record_spend-key :
    (agent_id period : Text) (cost consumed : ℕ) (counts : Counts)
    → consumed + cost < 2 ^ 63
    → counts (key agent_id period) ≡ pos consumed
    → record_spend agent_id period (pos cost) counts (key agent_id period) ≡ pos (consumed + cost)
unfolding record_spend wrap64 ◌+ℤ◌
record_spend-key agent_id period cost consumed counts small now =
    ground (arith, text_eq_refl (key agent_id period), now)

-- Two resolves of one agent, of one cost each, that come one after the other leave it within its
-- limit: the second is refused, where both together pass the limit. When both pass the gate before
-- either records, both are recorded, and the agent ends over its limit. The limit is below 2^62.
pub interleaved_overspend :
    (agent_id period : Text) (limit cost consumed : ℕ) (counts : Counts)
    → text_eq agent_id [] ≡ false
    → limit < 2 ^ 62
    → 0 < limit
    → consumed + cost ≤ limit
    → limit < consumed + cost + cost
    → counts (key agent_id period) ≡ pos consumed
    → ((run_phases agent_id period
            (pos limit)
            (gate (pos cost) ∷ book ∷ gate (pos cost) ∷ book ∷ [])
            (start counts)).counts
          (key agent_id period)
        ≡ pos (consumed + cost))
      × ((run_phases agent_id period
              (pos limit)
              (gate (pos cost) ∷ gate (pos cost) ∷ book ∷ book ∷ [])
              (start counts)).counts
            (key agent_id period)
          ≡ pos (consumed + cost + cost))
unfolding run_phases run_phase
interleaved_overspend agent_id period limit cost consumed counts named lim p once twice now =
    let first =
      check_budget_iff agent_id period limit cost consumed counts named p lim (omega arith)
        (omega arith) now in
    let booked = record_spend agent_id period (pos cost) counts in
    let spent = record_spend-key agent_id period cost consumed counts (omega arith) now in
    let second =
      check_budget_iff agent_id period limit cost (consumed + cost) booked named p lim (omega arith)
        (omega arith) spent in
    let admits : check_budget agent_id period (pos limit) (pos cost) counts ≡ true = first.1 once in
    let refuses : check_budget agent_id period (pos limit) (pos cost) booked ≡ false =
      elim (Bool-cases (check_budget agent_id period (pos limit) (pos cost) booked)) [
        | inl fits ↦ absurd (let le = second.0 fits in omega arith)
        | inr over ↦ over
      ] in
    (
      rw (admits, run_phases) (rw refuses spent),
      rw (admits, run_phases)
          (rw admits
            (record_spend-key agent_id period cost (consumed + cost) booked (omega arith) spent)),
    )
