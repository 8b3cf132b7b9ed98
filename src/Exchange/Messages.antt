-- ===== src/Exchange/Messages.antt =====
-- The messages of ExecuteTransaction (ramp.v1, of which the code reads these fields) and the records
-- of src/exchange/internal/repo and src/exchange/internal/service that it passes along.
use reference_implementation.Common.{Bool, Option, List, Text, ℤ}
use reference_implementation.Exchange.Kinds.{DenialReason}
use reference_implementation.Reporting.Report.{Tolerance}

pub data Metering : Type 0 where
  online offline metering_none : Metering

pub record Pricing : Type 0 where
  pub model : Text
  pub rate : Text
  pub currency : Text
  pub unit : Text
  pub estimated_quantity : ℤ
  pub metering : Option Metering
  pub unit_cost : Option Text

-- `covered` stands for the fields that only the SDK reads, the expiry among them. An absent message
-- reads as one whose fields are empty, as the generated getters have it.
pub record Offer : Type 0 where
  pub offer_id : Text
  pub signature : Text
  pub title : Option Text
  pub canonical_url : Text
  pub pricing : Pricing
  pub covered : Text

pub record Item : Type 0 where
  pub offer : Offer
  pub acceptance_signature : Text

pub record Requester : Type 0 where
  pub id : Text
  pub domain : Text

pub record Request : Type 0 where
  pub ver : Text
  pub idempotency_key : Text
  pub requester : Requester
  pub items : List Item
  pub request_acceptance : Option Text

pub record Cost : Type 0 where
  pub amount : Text
  pub currency : Text
  pub unit_cost : Option Text

-- The endpoint of an owed report is a constant.
pub record ReportingObligation : Type 0 where
  pub is_owed : Bool
  pub window_seconds : ℤ
  pub required_fields : List Text

pub record ResultItem : Type 0 where
  pub offer_id : Text
  pub transaction_id : Text
  pub billing_id : Text
  pub resource_title : Option Text
  pub cost : Option Cost
  pub expires_at : Option ℤ
  pub retrieval_endpoint : Option Text
  pub obligation : Option ReportingObligation
  pub denial_reason : Option DenialReason

-- `ver` is the constant version of the protocol.
pub record Response : Type 0 where
  pub items : List ResultItem
  pub agent_identity_hash : Text
  pub total_cost : Option Cost

pub record Tenant : Type 0 where
  pub id : Text
  pub reporting_policy : Text
  pub allow_broker_relay : Bool
  pub fee_rate_bps : ℤ
  pub signing_keys : Text

pub record Entry : Type 0 where
  pub resource_id : Text
  pub tenant_id : Text
  pub uri : Text
  pub resource_owner_id : Text

-- A decimal is an integer, its multiple of a common unit of the prices of the run.
pub record PricingDoc : Type 0 where
  pub model : Text
  pub rate : ℤ
  pub currency : Text
  pub unit_cost : ℤ
  pub unit : Text
  pub est_qty : ℤ
  pub metering : Option Metering

pub record ResolvedOffer : Type 0 where
  pub entry : Entry
  pub pricing : PricingDoc
  pub canonical_bytes : Text

pub record AgentKey : Type 0 where
  pub public_key : Text
  pub discovery_url : Text

pub record Agent : Type 0 where
  pub id : Text
  pub billing_ref : Text
  pub key : AgentKey

pub record Binding : Type 0 where
  pub thumbprint : Text
  pub digest : Text
  pub public_key : Text
  pub discovery_url : Text
  pub acceptance_bytes : Text

pub record SignedUrl : Type 0 where
  pub url : Text
  pub hash : Text
  pub expiry : ℤ

pub record Correlation : Type 0 where
  pub id : Option Text
  pub is_minted : Option Bool

pub record Policy : Type 0 where
  pub required_fields : List Text
  pub quantity_tolerance : Option Tolerance
  pub window_seconds : Option ℤ

pub record Plan : Type 0 where
  pub is_owed : Bool
  pub window_seconds : ℤ
  pub required_fields : List Text
  pub quantity_tolerance : Tolerance
