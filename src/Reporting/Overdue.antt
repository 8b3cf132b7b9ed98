-- ===== src/Reporting/Overdue.antt =====
-- src/exchange/internal/service/reporting_overdue.go and src/exchange/internal/repo/obligation_counts.go:
-- the refusal of an agent that is behind on its reports.
use reference_implementation.Common.{
  ℕ, ◌+◌, ◌*◌, ◌^◌, ◌<◌, ◌≡◌, ◌↔◌, ◌⊎◌, Bool, true, false, ◌&&◌, ◌||◌, List, [], ◌∷◌, arith,
  if◌then◌else◌, ℤ, pos, ◌+ℤ◌, ◌*ℤ◌, ltb_ℤ, wrap64, pos_part, ◌≤ℤ◌, refl, Bool-cases, inl, inr,
}
use reference_implementation.Reporting.Report.{ObligationState, pending, received}

pub record OverdueRule : Type 0 where
  pub max_overdue : ℤ
  pub rate_divisor : ℤ

abbrev pub default_overdue_rule : OverdueRule
default_overdue_rule = record { max_overdue = pos 10; rate_divisor = pos 5 }

unfoldable pub blocks : OverdueRule → ℤ → ℤ → Bool
blocks rule overdue due =
    ltb_ℤ rule.max_overdue overdue || ltb_ℤ due (wrap64 (overdue *ℤ rule.rate_divisor))

-- The buckets that have obligations, each once, with their int64 counts.
pub record Bucket : Type 0 where
  pub state : ObligationState
  pub past_deadline : Bool
  pub count : ℤ

abbrev same_state : ObligationState → ObligationState → Bool
same_state pending pending = true
same_state received received = true
same_state _ _ = false

abbrev same_flag : Bool → Bool → Bool
same_flag true b = b
same_flag false true = false
same_flag false false = true

unfoldable pub count_in : ObligationState → Bool → List Bucket → ℤ
count_in state past_deadline [] = pos 0
count_in state past_deadline (b ∷ bs) =
    let rest = count_in state past_deadline bs in
    if same_state b.state state && same_flag b.past_deadline past_deadline then b.count else rest

unfoldable pub past_deadline : List Bucket → ℤ
past_deadline [] = pos 0
past_deadline (b ∷ bs) =
    let rest = past_deadline bs in if b.past_deadline then wrap64 (b.count +ℤ rest) else rest

unfoldable pub deny_if_reporting_overdue : List Bucket → Bool
unfolding count_in past_deadline blocks
deny_if_reporting_overdue counts =
    blocks default_overdue_rule (count_in pending true counts) (past_deadline counts)

blocks_iff :
    (overdue due : ℕ)
    → overdue < 2 ^ 60
    → (blocks default_overdue_rule (pos overdue) (pos due) ≡ true)
      ↔ ((10 < overdue) ⊎ (due < 5 * overdue))
unfolding blocks ◌*ℤ◌ wrap64
blocks_iff overdue due h = ground arith

abbrev pub is_bucket : ObligationState → Bool → Bucket → Bool
is_bucket state past_deadline b =
    same_state b.state state && same_flag b.past_deadline past_deadline

-- How many obligations the buckets of a kind have in all: none where there is no such bucket.
abbrev pub tally : ObligationState → Bool → List Bucket → ℕ
tally state past_deadline [] = 0
tally state past_deadline (b ∷ bs) =
    (if is_bucket state past_deadline b then pos_part b.count else 0) + tally state past_deadline bs

abbrev pub Absent : ObligationState → Bool → List Bucket → Type 0
Absent state past_deadline [] = Unit
Absent state past_deadline (b ∷ bs) =
    (is_bucket state past_deadline b ≡ false) × Absent state past_deadline bs

-- The query groups by state and deadline: each bucket comes at most once, in any order.
abbrev pub Grouped : List Bucket → Type 0
Grouped [] = Unit
Grouped (b ∷ bs) = Absent b.state b.past_deadline bs × Grouped bs

abbrev pub AllCounts : List Bucket → Type 0
AllCounts [] = Unit
AllCounts (b ∷ bs) = (pos 0 ≤ℤ b.count) × AllCounts bs

tally-Absent :
    (state : ObligationState) (flag : Bool) (bs : List Bucket)
    → Absent state flag bs
    → tally state flag bs ≡ 0
tally-Absent state flag [] h = refl
tally-Absent state flag (b ∷ bs) h = rw (h.0, tally-Absent state flag bs h.1) refl

is_bucket-same :
    (state : ObligationState) (flag : Bool) (b : Bucket)
    → is_bucket state flag b ≡ true
    → (b.state ≡ state) × (b.past_deadline ≡ flag)
is_bucket-same state flag b h = ground arith

count_in-tally :
    (state : ObligationState) (flag : Bool) (bs : List Bucket)
    → Grouped bs
    → AllCounts bs
    → count_in state flag bs ≡ pos (tally state flag bs)
unfolding count_in
count_in-tally state flag [] g n = refl
count_in-tally state flag (b ∷ bs) (once, g) (count, n) =
    elim (Bool-cases (is_bucket state flag b)) [
      | inr other ↦ rw (other, count_in) (ground (arith, count_in-tally state flag bs g n))
      | inl this ↦
          let (same, same') = is_bucket-same state flag b this in
          let gone = tally-Absent state flag bs (rw (same, same') at once) in
          rw (this, count_in, gone) (ground arith)
    ]

past_deadline-tally :
    (bs : List Bucket)
    → AllCounts bs
    → tally pending true bs + tally received true bs < 2 ^ 60
    → past_deadline bs ≡ pos (tally pending true bs + tally received true bs)
unfolding past_deadline wrap64 ◌+ℤ◌
past_deadline-tally [] n small = refl
past_deadline-tally (b ∷ bs) n small = ground (arith, past_deadline-tally bs n.1)

-- An agent is refused exactly when more than ten of its obligations are unreported past their
-- deadline, or more than one in five of those past their deadline are unreported. Obligations that
-- are not yet due never count, and a bucket that the query does not return counts for nothing. The
-- query returns each bucket at most once, with a count that is not negative, and fewer than 2^60
-- obligations are past their deadline.
pub deny_if_reporting_overdue_iff :
    (bs : List Bucket)
    → Grouped bs
    → AllCounts bs
    → tally pending true bs + tally received true bs < 2 ^ 60
    → (deny_if_reporting_overdue bs ≡ true) ↔ (
        (10 < tally pending true bs)
        ⊎ (tally pending true bs + tally received true bs < 5 * tally pending true bs))
unfolding deny_if_reporting_overdue
deny_if_reporting_overdue_iff bs g n small =
    rw (count_in-tally pending true bs g n, past_deadline-tally bs n small)
      (blocks_iff (tally pending true bs) (tally pending true bs + tally received true bs)
        (omega arith))
