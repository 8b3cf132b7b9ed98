-- ===== src/Billing/InMemory/State.antt =====
-- src/exchange/internal/billing/inmemory_adapter.go: the state of the prepaid adapter, its
-- constructor, the minted billing ids and the idempotency keys.
use reference_implementation.Common.{
  Sha256, ℕ, Bool, true, false, ◌||◌, Option, none, some, List, [], ◌∷◌, ◌++◌, Text, codes, text_eq,
  print_padded, length, leb, if◌then◌else◌, ℤ, pos, Map, delete,
}
use reference_implementation.Billing.Types.{Amount, AuthorizeResult}

pub record Reservation : Type 0 where
  pub billing_ref : Text
  pub est_amt : Amount
  pub est_qty : ℤ
  pub auth_key : Text

pub record RecordedTx : Type 0 where
  pub billing_ref : Text
  pub amt : Amount

pub record RefundEntry : Type 0 where
  pub amt : Amount
  pub reason : Text
  pub key : Text

-- The code ranges over `reserved` alone, so that map is a list. A map to `struct{}` is a test.
pub record Adapter : Type 0 where
  pub balances : Map Amount
  pub quotas : Map ℤ
  pub reserved : List (Text × Reservation)
  pub recorded : Map RecordedTx
  pub refunded : Map ℤ
  pub refund_log : Text → List RefundEntry
  pub auth_seen : Map Text
  pub op_seen : Text → Bool
  pub credit_seen : Text → Bool
  pub next_idx : ℕ
  pub id_prefix : Text

-- `NewInMemoryAdapter`; the seed maps are copied.
unfoldable pub new_adapter : Map Amount → Map ℤ → Text → Adapter
new_adapter balances quotas id_prefix = record {
  balances = balances;
  quotas = quotas;
  reserved = [];
  recorded = λ k. none;
  refunded = λ k. none;
  refund_log = λ k. [];
  auth_seen = λ k. none;
  op_seen = λ k. false;
  credit_seen = λ k. false;
  next_idx = 0;
  id_prefix = if text_eq id_prefix [] then codes "bill-" else id_prefix;
}

abbrev pub op_record : Text
op_record = codes "record"

abbrev pub op_release : Text
op_release = codes "release"

abbrev pub op_refund : Text
op_refund = codes "refund"

abbrev pub add_key : (Text → Bool) → Text → Text → Bool
add_key seen k j = text_eq k j || seen j

-- `fmt.Sprintf("%s%06d", a.idPrefix, a.nextIdx)`
unfoldable pub mint_id : Text → ℕ → Text
mint_id id_prefix idx = id_prefix ++ print_padded 6 idx

abbrev pub or_zero : Option ℤ → ℤ
or_zero none = pos 0
or_zero (some v) = v

abbrev pub denied : Text → AuthorizeResult
denied why = record { billing_id = []; approved = false; reason = why }

abbrev pub approved_as : Text → AuthorizeResult
approved_as id = record { billing_id = id; approved = true; reason = [] }

module _ ⦃sha : Sha256⦄ where
  unfoldable pub bound_key : Text → Text
  bound_key key = if leb (length key) 256 then key else codes "h:" ++ sha.hex key

  unfoldable pub auth_map_key : Text → Text → Text
  auth_map_key billing_ref raw_key = billing_ref ++ 0 ∷ bound_key raw_key

  unfoldable pub op_key : Text → Text → Text → Text
  op_key billing_id op key = billing_id ++ 0 ∷ (op ++ 0 ∷ bound_key key)

  unfoldable pub op_already_done : Text → Text → Text → Adapter → Bool
  op_already_done billing_id op key a =
      if text_eq key [] then false else a.op_seen (op_key billing_id op key)

  unfoldable pub mark_op_done : Text → Text → Text → Adapter → Adapter
  mark_op_done billing_id op key a =
      if text_eq key []
      then a
      else record a { op_seen = add_key a.op_seen (op_key billing_id op key) }

  unfoldable pub free_auth : Reservation → Adapter → Adapter
  free_auth res a =
      if text_eq res.auth_key []
      then a
      else record a { auth_seen = delete a.auth_seen (auth_map_key res.billing_ref res.auth_key) }
