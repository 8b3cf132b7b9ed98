-- ===== src/Security/Tests.antt =====
-- src/internal/replay/store.go: one signature, attempted again inside its window.
use reference_implementation.Common.{
  Sha256, ◌≡◌, refl, true, [], ◌∷◌, arith, codes, text_eq, pos, ◌+ℤ◌, ltb_ℤ,
}
use reference_implementation.Security.Replay.{Attempt, replay_key, seen_or_add, run_attempts, sweep}
use reference_implementation.Security.Windows.{seen_or_add-once}
use reference_implementation.Security.Origins.{Attempted, attempt_key, seen_or_add-origin}

instance abbrev plain_sha : Sha256
plain_sha = record { hex = λ t. t }

abbrev other : Attempt
other = record { key_id = codes "j"; signature = codes "s"; ttl = pos 60; now = pos 20 }

seen_or_add-once_example :
    (seen_or_add
      (codes "k")
      (codes "s")
      (pos 60)
      (pos 59)
      (run_attempts (other ∷ []) (seen_or_add (codes "k") (codes "s") (pos 60) (pos 0) []).1)).0
    ≡ true
unfolding seen_or_add ◌+ℤ◌
seen_or_add-once_example =
    seen_or_add-once (codes "k") (codes "s") (pos 60) (pos 60) (pos 0) (pos 59) (other ∷ []) [] tt
      (omega arith) refl (refl, tt) refl

refused :
    (seen_or_add (codes "j") (codes "s") (pos 60) (pos 79) (run_attempts (other ∷ []) [])).0 ≡ true
unfolding seen_or_add run_attempts sweep replay_key text_eq ◌+ℤ◌
refused = refl

seen_or_add-origin_example :
    (c : Attempt) × Attempted c (other ∷ [])
    × (attempt_key c ≡ replay_key (codes "j") (codes "s"))
    × (ltb_ℤ (pos 79) (c.now +ℤ c.ttl) ≡ true)
seen_or_add-origin_example =
    seen_or_add-origin (codes "j") (codes "s") (pos 60) (pos 79) (other ∷ []) refused
