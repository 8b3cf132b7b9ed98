-- ===== src/Sor/Calls.antt =====
-- src/exchange/internal/sor/cache.go: calls of IsActive that overlap. A call reads the clock, looks its
-- reference up under the lock, asks the inner adapter without it, and stores the answer under it:
-- four moments, between which time passes and other calls run.
use reference_implementation.Common.{
  ℕ, zero, suc, ◌+◌, Bool, Option, none, some, List, [], ◌∷◌, Text,
}
use reference_implementation.Sor.Cache.{Cache, new_cache, cached, store}

-- A call, with the clock's reading that it began with.
pub record Call : Type 0 where
  pub ref : Text
  pub started : ℕ

pub record Answer : Type 0 where
  pub call : Call
  pub active : Bool

-- The calls that have read the clock, those that missed and ask the inner adapter, those that have
-- its answer, and what the calls that ended without an error returned.
pub record System : Type 0 where
  pub cache : Cache
  pub now : ℕ
  pub begun : List Call
  pub asking : List Call
  pub answered : List Answer
  pub returned : List Answer

-- `look`, `answer` and `finish` name a call by its place.
pub data Event : Type 0 where
  wait : ℕ → Event
  begin : Text → Event
  look : ℕ → Event
  answer : ℕ → Event
  finish : ℕ → Event

abbrev pub pick : {A : Type 0} → ℕ → List A → Option (A × List A)
pick n [] = none
pick zero (x ∷ xs) = some (x, xs)
pick (suc n) (x ∷ xs) = elim (pick n xs) [ none ↦ none | some (y, ys) ↦ some (y, x ∷ ys) ]

unfoldable pub begin_call : Text → System → System
begin_call ref s = record s { begun = record { ref = ref; started = s.now } ∷ s.begun }

-- The lookup tests the expiry against the reading that the call began with. A hit ends the call.
unfoldable pub look_up : Option (Call × List Call) → System → System
unfolding cached
look_up none s = s
look_up (some (call, rest)) s = elim (cached call.started call.ref s.cache) [
  | some active ↦ record s {
    begun = rest;
    returned = record { call = call; active = active } ∷ s.returned;
  }
  | none ↦ record s { begun = rest; asking = call ∷ s.asking }
]

-- What the inner adapter answers at a time, `none` for an error.
module _ (ttl : ℕ) (is_active : ℕ → Text → Option Bool) where
  -- An error ends the call, and is not stored.
  unfoldable pub answer_call : Option (Call × List Call) → System → System
  answer_call none s = s
  answer_call (some (call, rest)) s = elim (is_active s.now call.ref) [
    | none ↦ record s { asking = rest }
    | some active ↦ record s {
      asking = rest;
      answered = record { call = call; active = active } ∷ s.answered;
    }
  ]

  unfoldable pub finish_call : Option (Answer × List Answer) → System → System
  unfolding store
  finish_call none s = s
  finish_call (some (a, rest)) s = record s {
    cache = store ttl a.call.started a.call.ref a.active s.cache;
    answered = rest;
    returned = a ∷ s.returned;
  }

  unfoldable pub step : Event → System → System
  unfolding begin_call look_up answer_call finish_call
  step (wait n) s = record s { now = s.now + n }
  step (begin ref) s = begin_call ref s
  step (look n) s = look_up (pick n s.begun) s
  step (answer n) s = answer_call (pick n s.asking) s
  step (finish n) s = finish_call (pick n s.answered) s

  unfoldable pub run : List Event → System → System
  unfolding step
  run [] s = s
  run (e ∷ es) s = run es (step e s)

unfoldable pub start_at : ℕ → System
unfolding new_cache
start_at now = record {
  cache = new_cache;
  now = now;
  begun = [];
  asking = [];
  answered = [];
  returned = [];
}
