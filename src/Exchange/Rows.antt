-- ===== src/Exchange/Rows.antt =====
-- src/exchange/internal/repo/transaction.go and src/internal/transactionkey: the statements on the
-- transaction log and on the claims, and the transaction of persistTransaction (persist_intent.go).
use reference_implementation.Common.{
  Bool, false, ◌&&◌, Option, none, some, List, [], ◌∷◌, ◌++◌, Text, codes, text_eq, if◌then◌else◌,
}
use reference_implementation.Exchange.Kinds.{Kind, Result, failure, success}
use reference_implementation.Exchange.Deps.{
  Row, Due, Evidence, Claim, World, Schedule, tick, is_down,
}

unfoldable pub derived_item_key : Text → Text → Text
derived_item_key request_key offer_id = request_key ++ (codes ":" ++ offer_id)

unfoldable pub find_row : Text → List Row → Option Row
find_row key [] = none
find_row key (r ∷ rs) =
    let rest = find_row key rs in if text_eq r.idempotency_key key then some r else rest

abbrev pub is_claim : Text → Text → Claim → Bool
is_claim agent_id key c = text_eq c.agent_id agent_id && text_eq c.idempotency_key key

unfoldable pub find_claim : Text → Text → List Claim → Option Claim
find_claim agent_id key [] = none
find_claim agent_id key (c ∷ cs) =
    let rest = find_claim agent_id key cs in if is_claim agent_id key c then some c else rest

-- `SET response_payload = $3 WHERE ... AND response_payload IS NULL`
unfoldable pub set_response : Text → Text → Text → List Claim → List Claim
set_response agent_id key payload [] = []
set_response agent_id key payload (c ∷ cs) =
    let rest = set_response agent_id key payload cs in
    (if is_claim agent_id key c && text_eq c.response []
      then record c { response = payload }
      else c)
    ∷ rest

pub data Claimed : Type 0 where
  won : Claimed
  lost_to : Text → Claimed

-- What `INSERT ... ON CONFLICT DO NOTHING` answers, and then the read of the claim that stood.
abbrev pub claimed_by : Option Claim → Claimed
claimed_by none = won
claimed_by (some c) = lost_to c.items_digest

abbrev pub is_unset : Option Claim → Bool
is_unset none = false
is_unset (some c) = text_eq c.response []

abbrev pub response_of : Option Claim → Text
response_of none = []
response_of (some c) = c.response

abbrev pub with_claim : Option Claim → Text → Text → Text → List Claim → List Claim
with_claim (some _) agent_id key digest cs = cs
with_claim none agent_id key digest cs =
    record { agent_id = agent_id; idempotency_key = key; items_digest = digest; response = [] } ∷ cs

abbrev pub add_due : Option Due → List Due → List Due
add_due none ds = ds
add_due (some d) ds = d ∷ ds

module _ {B : Type 0} ⦃sched : Schedule B⦄ where
  -- `none` in a result is ErrTransactionNotFound; a failure is that of the database.
  unfoldable pub by_idempotency_key : Text → World B → Result (Option Row) × World B
  unfolding find_row
  by_idempotency_key key w =
      let w' = tick w in
      if is_down w then (failure Kind.internal, w') else (success (find_row key w'.log), w')

  unfoldable pub claim_request : Text → Text → Text → World B → Result Claimed × World B
  unfolding find_claim
  claim_request agent_id key digest w =
      let w' = tick w in
      if is_down w
      then (failure Kind.internal, w')
      else let found = find_claim agent_id key w'.claims in
        (
          success (claimed_by found),
          record w' { claims = with_claim found agent_id key digest w'.claims },
        )

  -- Whether this call wrote the response.
  unfoldable pub finalize_request : Text → Text → Text → World B → Result Bool × World B
  unfolding find_claim set_response
  finalize_request agent_id key payload w =
      let w' = tick w in
      if is_down w then (failure Kind.internal, w') else (
        success (is_unset (find_claim agent_id key w'.claims)),
        record w' { claims = set_response agent_id key payload w'.claims },
      )

  unfoldable pub request_response : Text → Text → World B → Result Text × World B
  unfolding find_claim
  request_response agent_id key w =
      let w' = tick w in
      if is_down w
      then (failure Kind.internal, w')
      else (success (response_of (find_claim agent_id key w'.claims)), w')

  -- The transaction of persistTransaction: the three inserts, or none of them. The log refuses a key
  -- that it has, which is the idempotent kind; every other failure is internal.
  unfoldable pub insert_all : Row → Option Due → Evidence → World B → Option Kind × World B
  unfolding find_row
  insert_all row due evidence w =
      let w' = tick w in
      if is_down w then (some Kind.internal, w') else elim (find_row row.idempotency_key w'.log) [
        | some _ ↦ (some Kind.idempotent, w')
        | none ↦ (
          none,
          record w' {
            log = row ∷ w'.log;
            dues = add_due due w'.dues;
            evidence = evidence ∷ w'.evidence;
          },
        )
      ]
