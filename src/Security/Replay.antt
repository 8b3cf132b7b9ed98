-- ===== src/Security/Replay.antt =====
-- src/internal/replay/store.go and src/internal/httpsig/replay.go: the in-process replay stores, which
-- are one algorithm. Times and durations are in nanoseconds; the clock's reading is an input.
use reference_implementation.Common.{
  Sha256, Bool, true, false, Option, none, some, List, [], ◌∷◌, ◌++◌, Text, if◌then◌else◌, ℤ, ◌+ℤ◌,
  ltb_ℤ, lookup, insert,
}

-- The expiry of each key.
abbrev pub Store : Type 0
Store = List (Text × ℤ)

abbrev pub is_live : Option ℤ → ℤ → Bool
is_live none now = false
is_live (some exp) now = ltb_ℤ now exp

unfoldable pub sweep : ℤ → Store → Store
sweep now [] = []
sweep now ((k, exp) ∷ s) = let rest = sweep now s in if ltb_ℤ now exp then (k, exp) ∷ rest else rest

-- A call, at a time.
pub record Attempt : Type 0 where
  pub key_id : Text
  pub signature : Text
  pub ttl : ℤ
  pub now : ℤ

module _ ⦃sha : Sha256⦄ where
  unfoldable pub replay_key : Text → Text → Text
  replay_key key_id signature = sha.hex (key_id ++ 0 ∷ signature)

  unfoldable pub seen_or_add : Text → Text → ℤ → ℤ → Store → Bool × Store
  unfolding sweep
  seen_or_add key_id signature ttl now s =
      let key = replay_key key_id signature in
      if is_live (lookup key s) now
      then (true, s)
      else (false, sweep now (insert key (now +ℤ ttl) s))

  unfoldable pub seen : Text → Text → ℤ → Store → Bool
  seen key_id signature now s = is_live (lookup (replay_key key_id signature) s) now

  unfoldable pub run_attempts : List Attempt → Store → Store
  run_attempts [] s = s
  run_attempts (c ∷ cs) s = run_attempts cs (seen_or_add c.key_id c.signature c.ttl c.now s).1
