-- ===== src/Exchange/Deps.antt =====
-- src/exchange/internal/service/exchange.go: what the service is wired with. The SDK, the URL signer,
-- the system of record and the reads that no call here changes are parameters; the tables that
-- ExecuteTransaction writes and the billing adapter are a state.
use reference_implementation.Common.{ℕ, suc, Bool, Option, List, Text, ℤ}
use reference_implementation.Billing.Types.{AuthorizeRequest, AuthorizeResult, Error}
use reference_implementation.Reporting.Overdue.{Bucket}
use reference_implementation.Reporting.Report.{Tolerance}
use reference_implementation.Exchange.Kinds.{Result}
use reference_implementation.Exchange.Messages.{
  Offer, Requester, Request, ResultItem, Response, Tenant, Entry, Policy, SignedUrl,
}

-- The adapter interface, of which a transaction calls three operations.
pub data Approval : Type 0 where
  errored : Error → Approval
  answered : AuthorizeResult → Approval

pub record BillingAdapter (B : Type 0) : Type 0 where
  pub authorize : AuthorizeRequest → B → Approval × B
  pub record_tx : Text → ℤ → Text → B → Option Error × B
  pub release : Text → Text → B → Option Error × B

-- A row of transaction_log.
pub record Row : Type 0 where
  pub transaction_id : Text
  pub idempotency_key : Text
  pub tenant_id : Text
  pub agent_id : Text
  pub resource_id : Text
  pub offer_id : Text
  pub agent_identity_hash : Text
  pub signed_url_hash : Text
  pub expiry : ℤ
  pub billing_id : Text
  pub unit_cost : ℤ
  pub currency : Text
  pub result_payload : Text

-- A row of reporting_obligations, as it is inserted.
pub record Due : Type 0 where
  pub obligation_id : Text
  pub transaction_id : Text
  pub window_seconds : ℤ
  pub deadline : ℤ
  pub required_fields : List Text
  pub estimated_quantity : ℤ
  pub quantity_tolerance : Tolerance

-- A row of transaction_evidence.
pub record Evidence : Type 0 where
  pub transaction_id : Text
  pub tenant_id : Text
  pub offer_id : Text
  pub offer_json : Text
  pub offer_canonical_bytes : Text
  pub offer_signature : Text
  pub exchange_public_key : Text
  pub acceptance_signature : Text
  pub acceptance_canonical_bytes : Text
  pub requester_id : Text
  pub requester_domain : Text
  pub request_idempotency_key : Text
  pub agent_public_key : Text
  pub agent_discovery_url : Text
  pub signed_url : Text
  pub request_id : Option Text
  pub request_id_minted : Option Bool

-- A row of transaction_request_claims; a NULL response is empty.
pub record Claim : Type 0 where
  pub agent_id : Text
  pub idempotency_key : Text
  pub items_digest : Text
  pub response : Text

-- The newest row of a table stands first. `clock` counts the calls of the database and of the uuid
-- generator so far.
pub record World (B : Type 0) : Type 0 where
  pub billing : B
  pub log : List Row
  pub dues : List Due
  pub evidence : List Evidence
  pub claims : List Claim
  pub clock : ℕ

pub data Verified : Type 0 where
  authentic expired forged malformed : Verified

pub data Signer : Type 0 where
  signs : Text → Signer
  rsa_unavailable signer_error : Signer

pub data Account : Type 0 where
  account_active account_off account_missing account_unreachable : Account

-- An operation that can fail returns an option; a digest or a thumbprint is its bytes.
pub record Sdk : Type 0 where
  pub verify_presented_offer : Offer → Text → ℤ → Verified
  pub canonical_offer_bytes : Offer → Option Text
  pub verify_offer : Offer → Text → Text → Bool
  pub verify_offer_acceptance : Offer → Requester → Text → Text → Text → Bool
  pub canonical_acceptance_bytes : Offer → Requester → Text → Option Text
  pub verify_request_acceptance : Request → Text → Text → Text → Option Text
  pub thumbprint_bytes : Text → Option Text
  pub parse_money : Text → Option ℤ
  pub format_money : ℤ → Option Text
  pub offer_json : Offer → Option Text
  pub base64url : Text → Text
  pub sha256 : Text → Text
  pub marshal_item : ResultItem → Option Text
  pub unmarshal_item : Text → Option ResultItem
  pub marshal_response : Response → Option Text
  pub unmarshal_response : Text → Option Response

-- A row of agents, as lazy registration finds or makes it.
pub record AgentRow : Type 0 where
  pub billing_ref : Text
  pub public_key : Text
  pub discovery_url : Text

-- `agents` is absent in a bare harness. `patience` is how many waits the context outlives.
pub record Env : Type 0 where
  pub sdk : Sdk
  pub exchange_domain : Text
  pub offer_public_key : Text
  pub now : ℤ
  pub url_ttl : ℤ
  pub report_window_seconds : ℤ
  pub patience : ℕ
  pub transport_keys : List Text
  pub correlation_id : Text
  pub correlation_minted : Bool
  pub directory_host : Text → Option Text
  pub agents : Option (Text → Result AgentRow)
  pub catalog_by_uri : Text → Option Entry
  pub tenant_by_id : Text → Option Tenant
  pub fee_override : Text → Text → Option (Option ℤ)
  pub overdue_counts : Text → Text → Option (List Bucket)
  pub account : Text → Account
  pub decode_policy : Text → Policy
  pub url_signer : Tenant → Signer
  pub sign_url : Text → Text → Text → ℤ → Option SignedUrl
  pub uuid : ℕ → Text

-- Before the n-th call of the database, other requests have done `others n` to the state; the call
-- fails where `down n` holds.
pub record Schedule (B : Type 0) : Type 0 where
  pub others : ℕ → World B → World B
  pub down : ℕ → Bool

module _ {B : Type 0} ⦃sched : Schedule B⦄ where
  -- One more call, and what other requests did before it.
  abbrev pub tick : World B → World B
  tick w = record (sched.others w.clock w) { clock = suc w.clock }

  abbrev pub is_down : World B → Bool
  is_down w = sched.down w.clock
