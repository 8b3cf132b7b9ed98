-- ===== src/Sor/Tests.antt =====
-- src/exchange/internal/sor/cache.go: calls that overlap the operator's change of a flag. The older
-- of two answers is stored last, and a call that was delayed after it read the clock is served it.
use reference_implementation.Common.{
  ℕ, ◌≡◌, refl, Bool, true, false, Option, none, some, List, [], ◌∷◌, Text, codes, text_eq, ltb,
  map, arith,
}
use reference_implementation.Sor.Cache.{cached, store, sweep_locked, new_cache}
use reference_implementation.Sor.Calls.{
  System, Event, wait, begin, look, answer, finish, run, step, begin_call, look_up, answer_call,
  finish_call, start_at,
}
use reference_implementation.Sor.Fresh.{All, IsRecent, run-returned-Recent}

-- Switched off three nanoseconds after the start.
abbrev flag : ℕ → Text → Option Bool
flag t ref = some (ltb t 103)

abbrev overlapping : List Event
overlapping =
    begin (codes "a")
    ∷ look 0
    ∷ answer 0
    ∷ wait 5
    ∷ begin (codes "a")
    ∷ look 0
    ∷ answer 0
    ∷ finish 0
    ∷ finish 0
    ∷ begin (codes "a")
    ∷ wait 20
    ∷ look 0
    ∷ []

abbrev after : System
after = run 10 flag overlapping (start_at 100)

older_served : map (λ a. a.active) after.returned ≡ true ∷ true ∷ false ∷ []
unfolding run step begin_call look_up answer_call finish_call start_at cached store sweep_locked
    new_cache text_eq
older_served = refl

older_expires : cached 110 (codes "a") after.cache ≡ none
unfolding run step begin_call look_up answer_call finish_call start_at cached store sweep_locked
    new_cache text_eq
older_expires = refl

run-returned-Recent_example : All (IsRecent 10 flag after.now) after.returned
run-returned-Recent_example = run-returned-Recent 10 flag overlapping 100 (omega arith)
