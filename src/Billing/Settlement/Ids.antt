-- ===== src/Billing/Settlement/Ids.antt =====
-- src/exchange/internal/billing/tigerbeetle/ids.go: ledger ids from hashes, and their text form.
use reference_implementation.Common.{
  ℕ, zero, suc, ◌+◌, ◌*◌, ◌-◌, ◌/◌, ◌%◌, ◌^◌, ◌<◌, ◌==◌, ◌&&◌, ◌||◌, ◌≡◌, Option, none, some, List,
  [], ◌∷◌, ◌++◌, Text, text_eq, if◌then◌else◌, ltb, leb, length, arith, refl, ap,
}
use native.Mathlib.Nat.{pow-suc}
use reference_implementation.Billing.Types.{bad_id, empty_id, reserved_id}
use reference_implementation.Billing.Settlement.Wire.{LedgerId}
use reference_implementation.Billing.Settlement.Client.{Result, ok, err}

-- SHA-256 as its bytes, a parameter.
pub record Digest : Type 0 where
  pub sum256 : Text → List ℕ

-- The first 16 bytes, of which the first is the lowest.
unfoldable pub from_bytes : ℕ → List ℕ → ℕ
from_bytes zero bs = 0
from_bytes (suc k) [] = 0
from_bytes (suc k) (b ∷ bs) = b + 256 * from_bytes k bs

unfoldable pub to_bytes : ℕ → ℕ → List ℕ
to_bytes zero n = []
to_bytes (suc k) n = (n % 256) ∷ to_bytes k (n / 256)

unfoldable pub reduce : List ℕ → Result LedgerId
unfolding from_bytes
reduce sum =
    let id = from_bytes 16 sum in if id == 0 || id == 2 ^ 128 - 1 then err reserved_id else ok id

module _ ⦃d : Digest⦄ where
  unfoldable pub transfer_id : Text → Result LedgerId
  transfer_id key = if text_eq key [] then err empty_id else reduce (d.sum256 key)

  unfoldable pub account_id : Text → Text → Result LedgerId
  account_id prefix business_id =
      if text_eq business_id [] then err empty_id else reduce (d.sum256 (prefix ++ business_id))

unfoldable pub hex_digit : ℕ → ℕ
hex_digit n = if ltb n 10 then 48 + n else 87 + n

-- A hex digit of either case.
unfoldable pub hex_value : ℕ → Option ℕ
hex_value c =
    if leb 48 c && leb c 57
    then some (c - 48)
    else if leb 97 c && leb c 102
    then some (c - 87)
    else if leb 65 c && leb c 70
    then some (c - 55)
    else none

unfoldable pub hex_encode : List ℕ → Text
unfolding hex_digit
hex_encode [] = []
hex_encode (b ∷ bs) = hex_digit (b / 16) ∷ hex_digit (b % 16) ∷ hex_encode bs

abbrev byte_of : Option ℕ → Option ℕ → Option (List ℕ) → Option (List ℕ)
byte_of (some h) (some l) (some bs) = some ((h * 16 + l) ∷ bs)
byte_of _ _ _ = none

unfoldable pub hex_decode : Text → Option (List ℕ)
unfolding hex_value
hex_decode [] = some []
hex_decode (h ∷ []) = none
hex_decode (h ∷ l ∷ cs) = byte_of (hex_value h) (hex_value l) (hex_decode cs)

unfoldable pub encode_id : LedgerId → Text
unfolding hex_encode to_bytes
encode_id id = hex_encode (to_bytes 16 id)

abbrev id_of : Option (List ℕ) → Result LedgerId
id_of none = err bad_id
id_of (some bs) = if length bs == 16 then ok (from_bytes 16 bs) else err bad_id

unfoldable pub decode_id : Text → Result LedgerId
unfolding hex_decode from_bytes
decode_id s = id_of (hex_decode s)

from_bytes-to_bytes : (k n : ℕ) → n < 256 ^ k → from_bytes k (to_bytes k n) ≡ n
unfolding from_bytes to_bytes
from_bytes-to_bytes zero n h = omega arith
from_bytes-to_bytes (suc k) n h =
    let scale = pow-suc 256 k in omega (arith, from_bytes-to_bytes k (n / 256) (omega arith))

hex_value-hex_digit : (n : ℕ) → n < 16 → hex_value (hex_digit n) ≡ some n
unfolding hex_value hex_digit
hex_value-hex_digit n h = ground arith

abbrev AllBytes : List ℕ → Type 0
AllBytes [] = Unit
AllBytes (b ∷ bs) = (b < 256) × AllBytes bs

hex_decode-hex_encode : (bs : List ℕ) → AllBytes bs → hex_decode (hex_encode bs) ≡ some bs
unfolding hex_decode hex_encode
hex_decode-hex_encode [] h = refl
hex_decode-hex_encode (b ∷ bs) h =
    rw
      (
        hex_value-hex_digit (b / 16) (omega arith),
        hex_value-hex_digit (b % 16) (omega arith),
        hex_decode-hex_encode bs h.1,
      )
      (ap (λ (c : ℕ). some (c ∷ bs)) (omega arith))

to_bytes-AllBytes : (k n : ℕ) → AllBytes (to_bytes k n) × (length (to_bytes k n) ≡ k)
unfolding to_bytes
to_bytes-AllBytes zero n = (tt, refl)
to_bytes-AllBytes (suc k) n =
    let (bytes, size) = to_bytes-AllBytes k (n / 256) in ((omega arith, bytes), ap suc size)

-- A ledger id of 128 bits is read back from its text form.
pub decode_id-encode_id : (id : ℕ) → id < 2 ^ 128 → decode_id (encode_id id) ≡ ok id
unfolding decode_id encode_id
decode_id-encode_id id h =
    let (bytes, size) = to_bytes-AllBytes 16 id in
    rw (hex_decode-hex_encode (to_bytes 16 id) bytes)
      (unfold from_bytes to_bytes in rw (from_bytes-to_bytes 16 id h) refl)
