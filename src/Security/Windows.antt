-- ===== src/Security/Windows.antt =====
-- src/internal/replay/store.go: a signature is accepted once in its window, and is refused only after
-- it was seen.
use reference_implementation.Common.{
  Sha256, ◌≡◌, inl, inr, refl, ◌∙◌, true, false, none, some, List, [], ◌∷◌, arith, Text, text_eq,
  text_eq_iff, text_eq_refl, if◌then◌else◌, ℤ, pos, ◌+ℤ◌, ◌≤ℤ◌, ltb_ℤ, int_laws, lookup, insert,
  lookup-insert, Distinct, Distinct-insert, Bool-cases,
}
use reference_implementation.Security.Replay.{
  Store, is_live, sweep, replay_key, seen_or_add, Attempt, run_attempts,
}

pub lookup-sweep :
    (k : Text) (now : ℤ) (s : Store)
    → Distinct s
    → lookup k (sweep now s) ≡ (if is_live (lookup k s) now then lookup k s else none)
unfolding sweep
lookup-sweep k now [] u = refl
lookup-sweep k now ((i, exp) ∷ s) u = ground (arith, lookup-sweep k now s u.1, text_eq_iff i k)

Distinct-sweep : (now : ℤ) (s : Store) → Distinct s → Distinct (sweep now s)
unfolding sweep
Distinct-sweep now [] u = tt
Distinct-sweep now ((i, exp) ∷ s) u = elim (Bool-cases (ltb_ℤ now exp)) [
  | inl live ↦
      rw (live, sweep) (ground (arith, lookup-sweep i now s u.1, u.0), Distinct-sweep now s u.1)
  | inr gone ↦ rw (gone, sweep) (Distinct-sweep now s u.1)
]

-- The key is stored, to expire at `until` or later.
abbrev Held : Text → ℤ → Store → Type 0
Held key until s = (exp : ℤ) × (lookup key s ≡ some exp) × (until ≤ℤ exp)

Held-sweep :
    (key : Text) (until now : ℤ) (s : Store)
    → Distinct s
    → ltb_ℤ now until ≡ true
    → Held key until s
    → Held key until (sweep now s)
Held-sweep key until now s u soon (exp, e, le) =
    let live : ltb_ℤ now exp ≡ true = ground arith in
    (exp, lookup-sweep key now s u ∙ rw e (rw live refl), le)

module _ ⦃sha : Sha256⦄ where
  pub Distinct-seen_or_add :
      (key_id signature : Text) (ttl now : ℤ) (s : Store)
      → Distinct s
      → Distinct (seen_or_add key_id signature ttl now s).1
  unfolding seen_or_add
  Distinct-seen_or_add key_id signature ttl now s u =
      elim (Bool-cases (is_live (lookup (replay_key key_id signature) s) now)) [
        | inl replayed ↦ rw (replayed, seen_or_add) u
        | inr first ↦
            rw (first, seen_or_add)
              (Distinct-sweep now _
                (Distinct-insert (replay_key key_id signature) (now +ℤ ttl) s u))
      ]

  Held-seen_or_add :
      (key : Text) (until : ℤ) (c : Attempt) (s : Store)
      → Distinct s
      → ltb_ℤ c.now until ≡ true
      → Held key until s
      → Held key until (seen_or_add c.key_id c.signature c.ttl c.now s).1
  unfolding seen_or_add
  Held-seen_or_add key until c s u soon (exp, e, le) =
      let own = replay_key c.key_id c.signature in
      elim (Bool-cases (is_live (lookup own s) c.now)) [
        | inl replayed ↦ rw (replayed, seen_or_add) (exp, e, le)
        | inr first ↦
            rw (first, seen_or_add)
              (Held-sweep key until c.now (insert own (c.now +ℤ c.ttl) s)
                (Distinct-insert own (c.now +ℤ c.ttl) s u) soon
                (
                  exp,
                  lookup-insert own key (c.now +ℤ c.ttl) s ∙ elim (Bool-cases (text_eq own key)) [
                    | inr other ↦ rw other e
                    | inl same ↦
                        absurd (ground (arith, (text_eq_iff own key).0 same, e, le, soon, first))
                  ],
                  le,
                ))
      ]

  -- Every attempt comes before the time.
  abbrev pub AllBefore : ℤ → List Attempt → Type 0
  AllBefore until [] = Unit
  AllBefore until (c ∷ cs) = (ltb_ℤ c.now until ≡ true) × AllBefore until cs

  Held-run_attempts :
      (key : Text) (until : ℤ) (cs : List Attempt) (s : Store)
      → Distinct s
      → AllBefore until cs
      → Held key until s
      → Held key until (run_attempts cs s)
  unfolding run_attempts
  Held-run_attempts key until [] s u before h = h
  Held-run_attempts key until (c ∷ cs) s u before h =
      Held-run_attempts key until cs (seen_or_add c.key_id c.signature c.ttl c.now s).1
        (Distinct-seen_or_add c.key_id c.signature c.ttl c.now s u) before.1
        (Held-seen_or_add key until c s u before.0 h)

  first-Held :
      (key_id signature : Text) (ttl now : ℤ) (s : Store)
      → Distinct s
      → pos 1 ≤ℤ ttl
      → (seen_or_add key_id signature ttl now s).0 ≡ false
      → Held (replay_key key_id signature) (now +ℤ ttl) (seen_or_add key_id signature ttl now s).1
  unfolding seen_or_add
  first-Held key_id signature ttl now s u p fresh =
      let own = replay_key key_id signature in
      elim (Bool-cases (is_live (lookup own s) now)) [
        | inl replayed ↦ absurd (cc (rw (replayed, seen_or_add) at fresh))
        | inr first ↦
            let later : ltb_ℤ now (now +ℤ ttl) ≡ true = grind int_laws in
            rw (first, seen_or_add)
              (Held-sweep own (now +ℤ ttl) now (insert own (now +ℤ ttl) s)
                (Distinct-insert own (now +ℤ ttl) s u) later
                (
                  now +ℤ ttl,
                  lookup-insert own own (now +ℤ ttl) s ∙ rw (text_eq_refl own) refl,
                  omega arith,
                ))
      ]

  -- A signature that was accepted with a positive lifetime is refused at every time before the
  -- lifetime has passed, whatever attempts come between.
  pub seen_or_add-once :
      (key_id signature : Text) (ttl ttl' now now' : ℤ) (between : List Attempt) (s : Store)
      → Distinct s
      → pos 1 ≤ℤ ttl
      → (seen_or_add key_id signature ttl now s).0 ≡ false
      → AllBefore (now +ℤ ttl) between
      → ltb_ℤ now' (now +ℤ ttl) ≡ true
      → (seen_or_add key_id signature ttl' now'
          (run_attempts between (seen_or_add key_id signature ttl now s).1)).0
        ≡ true
  seen_or_add-once key_id signature ttl ttl' now now' between s u p fresh before soon = go _ (
      Held-run_attempts (replay_key key_id signature) (now +ℤ ttl) between _
        (Distinct-seen_or_add key_id signature ttl now s u) before
        (first-Held key_id signature ttl now s u p fresh))
    where
      go :
          (after : Store)
          → Held (replay_key key_id signature) (now +ℤ ttl) after
          → (seen_or_add key_id signature ttl' now' after).0 ≡ true
      go after (exp, e, le) =
          let live : ltb_ℤ now' exp ≡ true = ground arith in
          unfold seen_or_add in rw e (rw live refl)
