-- ===== src/Payment/Settlement.antt =====
-- payment/settlement.rs: the request that settles a payment, and the call of the gateway. The HTTP
-- client and the JSON reader are a parameter.
use veil_vpn.Prelude.{ℕ, Bool, ◌&&◌, Option, some, [], ◌∷◌, ◌++◌, ◌==◌, if◌then◌else◌, length}
use veil_vpn.Prelude.Bytes.{Bytes}
use veil_vpn.Prelude.Text.{codes, encode_hex, to_string}
use veil_vpn.Payment.Config.{PaymentConfig}
use veil_vpn.Payment.Protocol.{PaymentSubmit}

pub data SettlementError : Type 0 where
  http json : Bytes → SettlementError
  api : Bytes → Bytes → SettlementError

pub record ResourceInfo : Type 0 where
  pub url : Bytes
  pub description : Bytes
  pub mime_type : Bytes

pub record AuthorizationData : Type 0 where
  pub from : Bytes
  pub to : Bytes
  pub value : Bytes
  pub valid_after : Bytes
  pub valid_before : Bytes
  pub nonce : Bytes

pub record PayloadData : Type 0 where
  pub signature : Bytes
  pub authorization : AuthorizationData

pub record GatewayExtra : Type 0 where
  pub name : Bytes
  pub version : Bytes
  pub verifying_contract : Bytes

pub record PaymentRequirements : Type 0 where
  pub scheme : Bytes
  pub network : Bytes
  pub asset : Bytes
  pub amount : Bytes
  pub pay_to : Bytes
  pub max_timeout_seconds : ℕ
  pub extra : GatewayExtra

pub record PaymentPayload : Type 0 where
  pub x402_version : ℕ
  pub resource : Option ResourceInfo
  pub accepted : PaymentRequirements
  pub payload : PayloadData

pub record SettleRequest : Type 0 where
  pub x402_version : ℕ
  pub payment_payload : PaymentPayload
  pub payment_requirements : PaymentRequirements

pub record SettleResponse : Type 0 where
  pub success : Bool
  pub payer : Option Bytes
  pub transaction : Option Bytes
  pub network : Option Bytes
  pub error_reason : Option Bytes
  pub error_message : Option Bytes
  pub message : Option Bytes
  pub error : Option Bytes

-- `Result<SettleResponse, SettlementError>`
pub data Settled : Type 0 where
  responded : SettleResponse → Settled
  unsettled : SettlementError → Settled

-- `post` sends a request to a URL, `text` reads the body of a response, and `from_str` the JSON in
-- it. Each gives an error as text.
pub data Remote (A : Type 0) : Type 0 where
  answer : A → Remote A
  refusal : Bytes → Remote A

pub record Http : Type 0 where
  pub post : Bytes → SettleRequest → Remote Bytes
  pub text : Bytes → Remote Bytes
  pub from_str : Bytes → Remote SettleResponse

pub record SettlementClient : Type 0 where
  pub base_url : Bytes

-- The base URL without the slashes at its end.
unfoldable pub trim_slashes : Bytes → Bytes
trim_slashes [] = []
trim_slashes (c ∷ cs) =
    let rest = trim_slashes cs in if length rest == 0 && c == 47 then [] else c ∷ rest

unfoldable pub client_new : Bytes → SettlementClient
unfolding trim_slashes
client_new base_url = record { base_url = trim_slashes base_url }

-- A dash in UTF-8, and `raw:`.
abbrev raw_mark : Bytes
raw_mark = 32 ∷ 226 ∷ 128 ∷ 148 ∷ codes " raw: "

module _ (http_client : Http) where
  unfoldable pub read_body : Bytes → Settled
  read_body raw_body = elim (http_client.from_str raw_body) [
    | answer body ↦ responded body
    | refusal e ↦ unsettled (json (e ++ (raw_mark ++ raw_body)))
  ]

  unfoldable pub read_response : Bytes → Settled
  unfolding read_body
  read_response resp = elim (http_client.text resp) [
    | answer raw_body ↦ read_body raw_body
    | refusal e ↦ unsettled (http (codes "read body: " ++ e))
  ]

  unfoldable pub settle : SettlementClient → SettleRequest → Settled
  unfolding read_response
  settle client request =
      elim (http_client.post (client.base_url ++ codes "/v1/x402/settle") request) [
        | answer resp ↦ read_response resp
        | refusal e ↦ unsettled (http e)
      ]

-- `0x` and the digits.
abbrev pub hex_0x : Bytes → Bytes
hex_0x bytes = codes "0x" ++ encode_hex bytes

unfoldable pub requirements_of : PaymentConfig → PaymentSubmit → Bytes → PaymentRequirements
requirements_of config submit server_address = record {
  scheme = codes "exact";
  network = codes "eip155:" ++ to_string config.chain_id;
  asset = hex_0x config.usdc_contract;
  amount = to_string submit.value;
  pay_to = hex_0x server_address;
  max_timeout_seconds = 345600;
  extra = record {
    name = config.gateway_name;
    version = config.gateway_version;
    verifying_contract = hex_0x config.gateway_wallet;
  };
}

-- The signature is `r`, `s` and `v` behind one another.
unfoldable pub build_settle_request : PaymentConfig → PaymentSubmit → Bytes → SettleRequest
unfolding requirements_of
build_settle_request config submit server_address = record {
  x402_version = 2;
  payment_payload = record {
    x402_version = 2;
    resource = some (record {
      url = codes "boringtun-vpn://bandwidth";
      description = codes "VPN bandwidth quota";
      mime_type = codes "application/octet-stream";
    });
    accepted = requirements_of config submit server_address;
    payload = record {
      signature = hex_0x (submit.r ++ (submit.s ++ (submit.v ∷ [])));
      authorization = record {
        from = hex_0x submit.from;
        to = hex_0x submit.to;
        value = to_string submit.value;
        valid_after = to_string submit.valid_after;
        valid_before = to_string submit.valid_before;
        nonce = hex_0x submit.nonce;
      };
    };
  };
  payment_requirements = requirements_of config submit server_address;
}
