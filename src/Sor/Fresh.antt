-- ===== src/Sor/Fresh.antt =====
-- src/exchange/internal/sor/cache.go: what a call returns was true at most one lifetime before it
-- began, however the calls overlap.
use reference_implementation.Common.{
  ℕ, zero, suc, ◌+◌, ◌≤◌, ◌<◌, ◌≡◌, ◌⊎◌, inl, inr, ap, ◌∙◌, Bool, Option, none, some, List, [], ◌∷◌,
  Text, text_eq, text_eq→eq, ltb, put, arith, Bool-cases, Option-cases,
}
use mathlib.Core.Path.{subst}
use reference_implementation.Sor.Cache.{
  CacheEntry, Cache, new_cache, live_at, flag_of, cached, sweep_locked, store,
}
use reference_implementation.Sor.Calls.{
  Call, Answer, System, Event, wait, begin, look, answer, finish, pick, begin_call, look_up,
  answer_call, finish_call, step, run, start_at,
}

live_before :
    (now later : ℕ) (e : Option CacheEntry) (b : Bool)
    → flag_of (live_at later (live_at now e)) ≡ some b
    → flag_of (live_at later e) ≡ some b
live_before now later none b h = h
live_before now later (some e) b h = ground arith

-- The sweep only removes.
cached-sweep_locked :
    (ttl now later : ℕ) (ref : Text) (b : Bool) (c : Cache)
    → cached later ref (sweep_locked ttl now c) ≡ some b
    → cached later ref c ≡ some b
unfolding cached sweep_locked
cached-sweep_locked ttl now later ref b c h = elim (Bool-cases (ltb now c.next_sweep)) [
  | inl early ↦ rw (early, sweep_locked) at h
  | inr due ↦ live_before now later (c.entries ref) b (rw (due, sweep_locked) at h)
]

-- After a store, a reading finds the new flag within its lifetime, or what it found before.
cached-store :
    (ttl now later : ℕ) (ref other : Text) (active b : Bool) (c : Cache)
    → cached later other (store ttl now ref active c) ≡ some b
    → ((ref ≡ other) × (later < now + ttl) × (active ≡ b)) ⊎ (cached later other c ≡ some b)
unfolding store cached
cached-store ttl now later ref other active b c h =
    let kept =
      cached-sweep_locked ttl now later other b
        (record c {
          entries = put c.entries ref (record { active = active; expires_at = now + ttl });
        })
        h in
    elim (Bool-cases (text_eq ref other)) [
      | inr different ↦ inr (rw different at kept)
      | inl same ↦ elim (Bool-cases (ltb later (now + ttl))) [
        | inr over ↦ absurd (cc (rw (same, over) at kept))
        | inl soon ↦ inl (text_eq→eq ref other same, ground arith, cc (rw (same, soon) at kept))
      ]
    ]

module _ {A : Type 0} (P : A → Type 0) where
  abbrev pub All : List A → Type 0
  All [] = Unit
  All (x ∷ xs) = P x × All xs

  abbrev Picked : Option (A × List A) → Type 0
  Picked none = Unit
  Picked (some (x, xs)) = P x × All xs

  pick-Picked : (n : ℕ) (xs : List A) → All xs → Picked (pick n xs)
  pick-Picked n [] all = tt
  pick-Picked zero (x ∷ xs) (p, all) = (p, all)
  pick-Picked (suc n) (x ∷ xs) (p, all) = go (pick n xs) (pick-Picked n xs all)
    where
      go :
          (o : Option (A × List A))
          → Picked o
          → Picked (elim o [ none ↦ none | some (y, ys) ↦ some (y, x ∷ ys) ])
      go none h = tt
      go (some (y, ys)) (q, rest) = (q, (p, rest))

All-weaken :
    {A : Type 0} (P Q : A → Type 0) (xs : List A) → ((x : A) → P x → Q x) → All P xs → All Q xs
All-weaken P Q [] f all = tt
All-weaken P Q (x ∷ xs) f (p, all) = (f x p, All-weaken P Q xs f all)

module _ (ttl : ℕ) (is_active : ℕ → Text → Option Bool) where
  -- The adapter gave the answer up to `now`, less than a lifetime before `reading` or after it.
  abbrev pub Recent : ℕ → ℕ → Text → Bool → Type 0
  Recent now reading ref active =
      (t : ℕ) × (t ≤ now) × (reading < t + ttl) × (is_active t ref ≡ some active)

  abbrev Served : ℕ → Cache → Type 0
  Served now c =
      (reading : ℕ) (ref : Text) (active : Bool)
      → cached reading ref c ≡ some active
      → Recent now reading ref active

  abbrev pub IsRecent : ℕ → Answer → Type 0
  IsRecent now a = Recent now a.call.started a.call.ref a.active

  -- An answer was given after its call began.
  abbrev Given : ℕ → Answer → Type 0
  Given now a =
      (t : ℕ) × (a.call.started ≤ t) × (t ≤ now) × (is_active t a.call.ref ≡ some a.active)

  abbrev Begun : ℕ → Call → Type 0
  Begun now call = call.started ≤ now

  abbrev IsTimely : System → Type 0
  IsTimely s =
      Served s.now s.cache
      × All (Given s.now) s.answered
      × All (Begun s.now) s.asking
      × All (Begun s.now) s.begun
      × All (IsRecent s.now) s.returned

  Served-store :
      (now : ℕ) (a : Answer) (c : Cache)
      → Given now a
      → Served now c
      → Served now (store ttl a.call.started a.call.ref a.active c)
  Served-store now a c (t, began, past, said) h reading ref active e =
      elim (cached-store ttl a.call.started reading a.call.ref ref a.active active c e) [
        | inr before ↦ h reading ref active before
        | inl (same, soon, flag) ↦ (
          t,
          past,
          omega arith,
          subst (λ r. is_active t r ≡ some active) same (said ∙ ap some flag),
        )
      ]

  look_up-IsTimely :
      (s : System) (o : Option (Call × List Call))
      → IsTimely s
      → Picked (Begun s.now) o
      → IsTimely (look_up o s)
  unfolding look_up
  look_up-IsTimely s none h p = h
  look_up-IsTimely s (some (call, rest)) (served, given, asks, begun, recent) (began, p) =
      elim (Option-cases (cached call.started call.ref s.cache)) [
        | inl miss ↦ rw (miss, look_up) (served, given, (began, asks), p, recent)
        | inr (active, hit) ↦
            rw (hit, look_up)
              (served, given, asks, p, (served call.started call.ref active hit, recent))
      ]

  answer_call-IsTimely :
      (s : System) (o : Option (Call × List Call))
      → IsTimely s
      → Picked (Begun s.now) o
      → IsTimely (answer_call ttl is_active o s)
  unfolding answer_call
  answer_call-IsTimely s none h p = h
  answer_call-IsTimely s (some (call, rest)) (served, given, asks, begun, recent) (began, p) =
      elim (Option-cases (is_active s.now call.ref)) [
        | inl fails ↦ rw (fails, answer_call) (served, given, p, begun, recent)
        | inr (active, said) ↦
            rw (said, answer_call)
              (served, ((s.now, began, omega arith, said), given), p, begun, recent)
      ]

  finish_call-IsTimely :
      (s : System) (o : Option (Answer × List Answer))
      → 0 < ttl
      → IsTimely s
      → Picked (Given s.now) o
      → IsTimely (finish_call ttl is_active o s)
  unfolding finish_call
  finish_call-IsTimely s none lives h p = h
  finish_call-IsTimely s (some (a, rest)) lives (served, given, asks, begun, recent) (this, p) = (
    Served-store s.now a s.cache this served,
    p,
    asks,
    begun,
    (let (t, began, past, said) = this in (t, past, omega arith, said), recent),
  )

  wait-IsTimely : (n : ℕ) (s : System) → IsTimely s → IsTimely (record s { now = s.now + n })
  wait-IsTimely n s (served, given, asks, begun, recent) = (
    λ reading ref active e.
        let (t, past, soon, said) = served reading ref active e in (t, omega arith, soon, said),
    All-weaken (Given s.now) (Given (s.now + n)) s.answered
        (λ a (t, began, past, said). (t, began, omega arith, said)) given,
    All-weaken (Begun s.now) (Begun (s.now + n)) s.asking (λ call le. omega arith) asks,
    All-weaken (Begun s.now) (Begun (s.now + n)) s.begun (λ call le. omega arith) begun,
    All-weaken (IsRecent s.now) (IsRecent (s.now + n)) s.returned
        (λ a (t, past, soon, said). (t, omega arith, soon, said)) recent,
  )

  step-IsTimely :
      (e : Event) (s : System) → 0 < ttl → IsTimely s → IsTimely (step ttl is_active e s)
  unfolding step begin_call
  step-IsTimely (wait n) s lives h = wait-IsTimely n s h
  step-IsTimely (begin ref) s lives (served, given, asks, begun, recent) =
      (served, given, asks, (omega arith, begun), recent)
  step-IsTimely (look n) s lives h =
      look_up-IsTimely s (pick n s.begun) h (pick-Picked (Begun s.now) n s.begun h.3)
  step-IsTimely (answer n) s lives h =
      answer_call-IsTimely s (pick n s.asking) h (pick-Picked (Begun s.now) n s.asking h.2)
  step-IsTimely (finish n) s lives h =
      finish_call-IsTimely s (pick n s.answered) lives h
        (pick-Picked (Given s.now) n s.answered h.1)

  run-IsTimely :
      (es : List Event) (s : System) → 0 < ttl → IsTimely s → IsTimely (run ttl is_active es s)
  unfolding run
  run-IsTimely [] s lives h = h
  run-IsTimely (e ∷ es) s lives h =
      run-IsTimely es (step ttl is_active e s) lives (step-IsTimely e s lives h)

  -- Every flag that a call returned, however the calls overlap and wherever they are delayed, is one
  -- that the system of record answered for its reference after the call began, or less than one
  -- lifetime before the call began. The lifetime is positive.
  pub run-returned-Recent :
      (es : List Event) (now : ℕ)
      → 0 < ttl
      → All
          (IsRecent (run ttl is_active es (start_at now)).now)
          (run ttl is_active es (start_at now)).returned
  unfolding start_at new_cache cached
  run-returned-Recent es now lives =
      (run-IsTimely es (start_at now) lives (λ reading ref active e. absurd (cc), tt, tt, tt, tt)).4
