-- ===== src/Broker/Offers.antt =====
-- src/broker/internal/selection/selection.go: the parts of an offer that selection reads. The parser
-- of a money string is a parameter; a decimal is an integer multiple of a common power of ten.
use reference_implementation.Common.{
  ℕ, ◌-◌, ◌==◌, ◌&&◌, Option, none, some, [], ◌∷◌, ◌++◌, Text, codes, text_eq, if◌then◌else◌, leb,
  ℤ, pos, negsuc,
}

pub record MoneyParser : Type 0 where
  pub parse_money : Text → Option ℤ

pub record Pricing : Type 0 where
  pub unit_cost : Option Text
  pub rate : Text

pub record Identity : Type 0 where
  pub canonical_url : Option Text
  pub doi : Option Text
  pub iptc_guid : Option Text
  pub content_hash : Option Text

pub record Offer : Type 0 where
  pub offer_id : Text
  pub pricing : Option Pricing
  pub identity : Option Identity

pub record ExchangeRef : Type 0 where
  pub domain : Text
  pub endpoint : Text
  pub trust : Text
  pub priority : ℤ

-- The offer pointer may be nil.
pub record Candidate : Type 0 where
  pub offer : Option Offer
  pub exchange : ExchangeRef

abbrev pub or_nil : Option Text → Text
or_nil none = []
or_nil (some v) = v

-- The first of the fields that is set and not empty, under its prefix, else the offer id.
abbrev pub prefixed : Text → Option Text → Text → Text
prefixed p v rest = if text_eq (or_nil v) [] then rest else p ++ or_nil v

unfoldable pub identity_key : Option Offer → Text
identity_key none = []
identity_key (some o) =
    let by_id = codes "offer:" ++ o.offer_id in
    elim o.identity [
      | none ↦ by_id
      | some i ↦ prefixed (codes "url:") i.canonical_url (
          prefixed (codes "doi:") i.doi
            (prefixed (codes "iptc:") i.iptc_guid (prefixed (codes "hash:") i.content_hash by_id)))
    ]

-- `strings.ToUpper` as far as a comparison with ASCII text sees it: beyond a to z, two characters
-- have an upper case from A to Z, U+0131 (bytes 196, 177) and U+017F (bytes 197, 191).
abbrev upper_byte : ℕ → ℕ
upper_byte c = if leb 97 c && leb c 122 then c - 32 else c

unfoldable pub to_upper : Text → Text
to_upper [] = []
to_upper (c ∷ []) = upper_byte c ∷ []
to_upper (c ∷ d ∷ cs) =
    let one = to_upper (d ∷ cs) in
    let two = to_upper cs in
    if c == 196 && d == 177
    then 73 ∷ two
    else if c == 197 && d == 191
    then 83 ∷ two
    else upper_byte c ∷ one

unfoldable pub trust_weight : Text → ℤ
unfolding to_upper
trust_weight level =
    let upper = to_upper level in
    if text_eq upper (codes "PREFERRED")
    then pos 3
    else if text_eq upper (codes "VERIFIED")
    then pos 2
    else if text_eq upper (codes "DISCOVERED")
    then pos 1
    else if text_eq upper (codes "BLOCKED")
    then negsuc 0
    else pos 0

abbrev pub offer_id_of : Option Offer → Text
offer_id_of none = []
offer_id_of (some o) = o.offer_id

module _ ⦃money : MoneyParser⦄ where
  abbrev pub parse_money_or_zero : Text → ℤ
  parse_money_or_zero s = elim (money.parse_money s) [ none ↦ pos 0 | some d ↦ d ]

  abbrev price_of : Pricing → ℤ
  price_of p = elim p.unit_cost [
    | some uc ↦ parse_money_or_zero uc
    | none ↦ parse_money_or_zero p.rate
  ]

  unfoldable pub offer_charge : Option Offer → ℤ
  offer_charge none = pos 0
  offer_charge (some o) = elim o.pricing [ none ↦ pos 0 | some p ↦ price_of p ]
