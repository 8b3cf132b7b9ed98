-- ===== src/Security/Origins.antt =====
-- src/internal/replay/store.go: a refused signature was attempted before, in a window that is open.
use reference_implementation.Common.{
  Sha256, ◌≡◌, ◌⊎◌, inl, inr, refl, sym, ◌∙◌, true, some, List, [], ◌∷◌, Text, text_eq, text_eq_iff,
  ℤ, ◌+ℤ◌, ltb_ℤ, lookup, insert, lookup-insert, Distinct, Distinct-insert, Bool-cases,
  Option-cases,
}
use reference_implementation.Security.Replay.{
  Store, is_live, sweep, replay_key, seen_or_add, Attempt, run_attempts,
}
use reference_implementation.Security.Windows.{lookup-sweep, Distinct-seen_or_add}

abbrev pub Attempted : Attempt → List Attempt → Type 0
Attempted c [] = ⊥
Attempted c (d ∷ ds) = (c ≡ d) ⊎ Attempted c ds

sweep-older :
    (k : Text) (exp now : ℤ) (s : Store)
    → Distinct s
    → lookup k (sweep now s) ≡ some exp
    → lookup k s ≡ some exp
sweep-older k exp now s u e =
    let f = rw (lookup-sweep k now s u) at e in
    elim (Bool-cases (is_live (lookup k s) now)) [
      | inl live ↦ rw live at f
      | inr gone ↦ absurd (cc (rw gone at f))
    ]

module _ ⦃sha : Sha256⦄ where
  -- The attempt is one of the signature's, under the hash.
  abbrev pub attempt_key : Attempt → Text
  attempt_key c = replay_key c.key_id c.signature

  abbrev Traced : List Attempt → Store → Type 0
  Traced all s =
      (k : Text) (exp : ℤ)
      → lookup k s ≡ some exp
      → (c : Attempt) × Attempted c all × (attempt_key c ≡ k) × (exp ≡ c.now +ℤ c.ttl)

  Traced-seen_or_add :
      (all : List Attempt) (c : Attempt) (s : Store)
      → Distinct s
      → Attempted c all
      → Traced all s
      → Traced all (seen_or_add c.key_id c.signature c.ttl c.now s).1
  unfolding seen_or_add
  Traced-seen_or_add all c s u made t =
      let own = attempt_key c in
      elim (Bool-cases (is_live (lookup own s) c.now)) [
        | inl replayed ↦ rw (replayed, seen_or_add) t
        | inr first ↦
            rw (first, seen_or_add)
              (λ k exp e.
                let f = rw lookup-insert at (
                  sweep-older k exp c.now (insert own (c.now +ℤ c.ttl) s)
                    (Distinct-insert own (c.now +ℤ c.ttl) s u) e) in
                elim (Bool-cases (text_eq own k)) [
                  | inr other ↦ t k exp (rw other at f)
                  | inl same ↦
                      let stored : some (c.now +ℤ c.ttl) ≡ some exp = rw same at f in
                      (c, made, (text_eq_iff own k).0 same, cc)
                ])
      ]

  Traced-run_attempts :
      (all cs : List Attempt) (s : Store)
      → ((c : Attempt) → Attempted c cs → Attempted c all)
      → Distinct s
      → Traced all s
      → Traced all (run_attempts cs s)
  unfolding run_attempts
  Traced-run_attempts all [] s into u t = t
  Traced-run_attempts all (c ∷ cs) s into u t =
      Traced-run_attempts all cs (seen_or_add c.key_id c.signature c.ttl c.now s).1
        (λ d h. into d (inr h)) (Distinct-seen_or_add c.key_id c.signature c.ttl c.now s u)
        (Traced-seen_or_add all c s u (into c (inl refl)) t)

  seen_or_add-live :
      (key_id signature : Text) (ttl now : ℤ) (s : Store)
      → (seen_or_add key_id signature ttl now s).0
        ≡ is_live (lookup (replay_key key_id signature) s) now
  unfolding seen_or_add
  seen_or_add-live key_id signature ttl now s =
      elim (Bool-cases (is_live (lookup (replay_key key_id signature) s) now)) [
        | inl live ↦ rw (live, seen_or_add) refl
        | inr gone ↦ rw (gone, seen_or_add) refl
      ]

  -- When a signature is refused after a sequence of attempts on an empty store, one of them had the
  -- same hash of key id and signature, and its lifetime has not passed.
  pub seen_or_add-origin :
      (key_id signature : Text) (ttl now : ℤ) (cs : List Attempt)
      → (seen_or_add key_id signature ttl now (run_attempts cs [])).0 ≡ true
      → (c : Attempt) × Attempted c cs
        × (attempt_key c ≡ replay_key key_id signature)
        × (ltb_ℤ now (c.now +ℤ c.ttl) ≡ true)
  seen_or_add-origin key_id signature ttl now cs =
      go (run_attempts cs []) (Traced-run_attempts cs cs [] (λ c h. h) tt (λ k exp e. absurd (cc)))
    where
      go :
          (s : Store)
          → Traced cs s
          → (seen_or_add key_id signature ttl now s).0 ≡ true
          → (c : Attempt) × Attempted c cs
            × (attempt_key c ≡ replay_key key_id signature)
            × (ltb_ℤ now (c.now +ℤ c.ttl) ≡ true)
      go s t refused =
          let live = sym (seen_or_add-live key_id signature ttl now s) ∙ refused in
          elim (Option-cases (lookup (replay_key key_id signature) s)) [
            | inl missing ↦ absurd (cc (rw missing at live))
            | inr (exp, e) ↦
                let (c, made, same, until) = t (replay_key key_id signature) exp e in
                (c, made, same, rw (← until) (rw e at live))
          ]
