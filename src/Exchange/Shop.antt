-- ===== src/Exchange/Shop.antt =====
-- src/exchange/internal/service: an agent with ten dollars that buys two resources, of which one has
-- gone from the catalog. Amounts are written in unary.
use reference_implementation.Common.{
  Sha256, true, false, Option, none, some, [], ◌∷◌, Text, codes, text_eq, length, if◌then◌else◌,
  pos, Map,
}
use reference_implementation.Billing.Types.{Amount}
use reference_implementation.Billing.InMemory.State.{Adapter, new_adapter}
use reference_implementation.Exchange.Kinds.{Result, failure, success}
use reference_implementation.Exchange.Messages.{
  Item, Request, Response, Tenant, Entry, Agent, Binding,
}
use reference_implementation.Exchange.Deps.{
  BillingAdapter, Claim, World, Env, Sdk, Schedule, authentic, signs, account_active,
}
use reference_implementation.Exchange.Batch.{BatchOutcome, run_batch_items}
use reference_implementation.Exchange.PrepaidHolds.{prepaid}

instance abbrev pub plain_sha : Sha256
plain_sha = record { hex = λ t. t }

abbrev pub marshal_bare : Response → Option Text
marshal_bare r = elim r.items [
  | [] ↦ elim r.total_cost [ none ↦ some (114 ∷ r.agent_identity_hash) | some _ ↦ none ]
  | _ ∷ _ ↦ none
]

abbrev pub bare : Text → Response
bare hash = record { items = []; agent_identity_hash = hash; total_cost = none }

abbrev pub unmarshal_bare : Text → Option Response
unmarshal_bare [] = none
unmarshal_bare (c ∷ hash) = some (bare hash)

abbrev pub test_sdk : Sdk
test_sdk = record {
  verify_presented_offer = λ offer key now. authentic;
  canonical_offer_bytes = λ offer. some offer.offer_id;
  verify_offer = λ offer sig key. true;
  verify_offer_acceptance = λ offer requester key sig pub_key. true;
  canonical_acceptance_bytes = λ offer requester key. some offer.offer_id;
  verify_request_acceptance = λ req proof domain pub_key. some req.idempotency_key;
  thumbprint_bytes = λ key. some (codes "thumb");
  parse_money = λ t. some (pos (length t));
  format_money = λ x. some (codes "m");
  offer_json = λ offer. some offer.offer_id;
  base64url = λ t. t;
  sha256 = λ t. t;
  marshal_item = λ r. some (codes "item");
  unmarshal_item = λ t. none;
  marshal_response = marshal_bare;
  unmarshal_response = unmarshal_bare;
}

abbrev pub tenant : Tenant
tenant = record {
  id = codes "t";
  reporting_policy = [];
  allow_broker_relay = false;
  fee_rate_bps = pos 100;
  signing_keys = [];
}

abbrev pub entry : Entry
entry = record {
  resource_id = codes "r";
  tenant_id = codes "t";
  uri = codes "/a";
  resource_owner_id = codes "owner";
}

abbrev pub agent_key : Text
agent_key = codes "0123456789abcdef0123456789abcdef"

instance abbrev pub test_env : Env
test_env = record {
  sdk = test_sdk;
  exchange_domain = codes "x";
  offer_public_key = codes "k";
  now = pos 100;
  url_ttl = pos 60;
  report_window_seconds = pos 3600;
  patience = 3;
  transport_keys = codes "agent" ∷ [];
  correlation_id = [];
  correlation_minted = false;
  directory_host = λ id. some id;
  agents = some (λ id.
      success (record { billing_ref = codes "a"; public_key = agent_key; discovery_url = [] }));
  catalog_by_uri = λ url. if text_eq url (codes "/a") then some entry else none;
  tenant_by_id = λ id. some tenant;
  fee_override = λ id owner. some none;
  overdue_counts = λ id who. some [];
  account = λ ref. account_active;
  decode_policy =
      λ raw. record { required_fields = []; quantity_tolerance = none; window_seconds = none };
  url_signer = λ t. signs (codes "s");
  sign_url = λ key uri thumb expiry. some (record { url = uri; hash = uri; expiry = expiry });
  uuid = λ n. n ∷ [];
}

instance abbrev pub test_schedule : Schedule Adapter
test_schedule = record { others = λ n w. w; down = λ n. false }

instance abbrev pub test_adapter : BillingAdapter Adapter
test_adapter = prepaid

abbrev pub wallets : Map Amount
wallets k =
    if text_eq k (codes "a") then some (record { value = pos 10; currency = codes "USD" }) else none

abbrev pub start : Adapter
start = new_adapter wallets (λ k. none) (codes "b-")

abbrev pub world : World Adapter
world = record { billing = start; log = []; dues = []; evidence = []; claims = []; clock = 0 }

abbrev pub item_at : Text → Text → Item
item_at id url = record {
  offer = record {
    offer_id = id;
    signature = codes "sig";
    title = none;
    canonical_url = url;
    pricing = record {
      model = [];
      rate = codes "111";
      currency = codes "USD";
      unit = codes "call";
      estimated_quantity = pos 2;
      metering = none;
      unit_cost = none;
    };
    covered = [];
  };
  acceptance_signature = codes "acc";
}

abbrev pub request : Request
request = record {
  ver = [];
  idempotency_key = codes "k";
  requester = record { id = codes "agent"; domain = [] };
  items = item_at (codes "o1") (codes "/a") ∷ item_at (codes "o2") (codes "/gone") ∷ [];
  request_acceptance = some (codes "p");
}

abbrev pub buyer : Agent
buyer = record {
  id = codes "agent";
  billing_ref = codes "a";
  key = record { public_key = agent_key; discovery_url = [] };
}

abbrev pub proven : Binding
proven = record {
  thumbprint = codes "thumb";
  digest = codes "thumb";
  public_key = agent_key;
  discovery_url = [];
  acceptance_bytes = [];
}

abbrev pub ran_batch : Result BatchOutcome × World Adapter
ran_batch = run_batch_items request buyer proven world

abbrev pub outcome : BatchOutcome
outcome = elim ran_batch.0 [
  | failure k ↦ record { results = []; shared_thumbprint = []; last_tx_id = []; recovered = none }
  | success out ↦ out
]

-- A claim of the request, finalized or not, with its digest.
abbrev pub claim_of : Text → Text → Claim
claim_of digest response = record {
  agent_id = codes "agent";
  idempotency_key = codes "k";
  items_digest = digest;
  response = response;
}

abbrev pub with_claims : Claim → World Adapter
with_claims c = record world { claims = c ∷ [] }
