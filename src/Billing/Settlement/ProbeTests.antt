-- ===== src/Billing/Settlement/ProbeTests.antt =====
-- src/exchange/internal/billing/tigerbeetle_adapter.go: the probe over ledgers that are lists of
-- transfers, under a digest that adds up the bytes of a text.
use reference_implementation.Common.{
  print_padded, ℕ, ◌+◌, ◌==◌, ◌||◌, ◌≡◌, refl, Bool, true, false, some, List, [], ◌∷◌, ◌++◌, arith,
  Text, codes, text_eq, pos, if◌then◌else◌,
}
use reference_implementation.Billing.Settlement.Wire.{Transfer, LedgerId, blank}
use reference_implementation.Billing.Settlement.Client.{ok, Ledger, classify_hold, classify_found}
use reference_implementation.Billing.Settlement.Ids.{
  Digest, from_bytes, to_bytes, reduce, transfer_id, hex_digit, hex_encode, encode_id,
}
use reference_implementation.Billing.Settlement.Split.{Config}
use reference_implementation.Billing.Settlement.Lifecycle.{
  has_byte, pending_id_of, post_id_of, void_id_of, hold_state, approved_hold, reserve_from,
}
use reference_implementation.Billing.Settlement.Generations.{reserve_from-live}

abbrev total : Text → ℕ
total [] = 0
total (c ∷ cs) = c + total cs

instance abbrev adding_digest : Digest
adding_digest = record { sum256 = λ t. total t ∷ [] }

abbrev has_id : List LedgerId → LedgerId → Bool
has_id [] id = false
has_id (i ∷ ids) id = i == id || has_id ids id

abbrev answers : List LedgerId → List Transfer → List Transfer
answers ids [] = []
answers ids (t ∷ ts) = let rest = answers ids ts in if has_id ids t.id then t ∷ rest else rest

instance abbrev list_ledger : Ledger (List Transfer)
list_ledger = record {
  create_transfers = λ batch s. (some [], s ++ batch);
  lookup_transfers = λ ids s. some (answers ids s);
  ensure_account = λ id code s. (true, s);
}

abbrev config : Config
config = record { ledger = 1; id_ns = []; hold_timeout = 0 }

abbrev first : LedgerId
first = total (codes "pending:a:k:0")

abbrev second : LedgerId
second = total (codes "pending:a:k:1")

abbrev first_post : LedgerId
first_post = total (codes "post:" ++ encode_id first)

abbrev second_post : LedgerId
second_post = total (codes "post:" ++ encode_id second)

abbrev made : LedgerId → Transfer
made id = record blank { id = id }

-- The first hold was posted.
abbrev settled : List Transfer
settled = made first ∷ made first_post ∷ []

-- And a second one is pending.
abbrev held_again : List Transfer
held_again = made second ∷ settled

-- The hold that the next generation makes.
abbrev new_hold : Transfer
new_hold = record blank {
  id = second;
  debit_account = 2;
  credit_account = 3;
  amount = 5;
  timeout = 1;
  ledger = 1;
  code = 1;
  pending = true;
}

reserve_from-live_example :
    reserve_from config 256 0 (codes "a") (codes "k") 2 3 (pos 5) (pos 0) held_again
    ≡ (ok (approved_hold second), held_again)
unfolding from_bytes post_id_of void_id_of pending_id_of transfer_id reduce text_eq encode_id
    hex_encode hex_digit to_bytes has_byte hold_state classify_hold classify_found print_padded
reserve_from-live_example =
    reserve_from-live config (codes "a") (codes "k") held_again 2 3 (pos 5) (pos 0) 1 second
      (omega arith) ((first, (first_post, refl, refl)), tt) (second_post, refl, refl)
