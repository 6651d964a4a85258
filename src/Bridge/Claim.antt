-- ===== src/Bridge/Claim.antt =====
-- x/ethbridge/types: claim.go, ethereum.go, keys.go, and the messages of tx.pb.go.
use Prim.Native.String.{◌++◌ as text_append}
use furynode.Prelude.{Bool, Option, none, some, List, String}
use furynode.Prelude.Int.{ℤ}
use furynode.Prelude.Decimal.{format_int}
use furynode.Prelude.Text.{Bytes}
use furynode.Chain.Address.{Bech32}
use furynode.Chain.Action.{Outcome, ok, err, Error}
use furynode.Oracle.Prophecy.{Claim}

pub data ClaimType : Type 0 where
  unspecified burn lock : ClaimType

pub record EthBridgeClaim : Type 0 where
  pub ethereum_chain_id : ℤ
  pub bridge_contract_address : String
  pub nonce : ℤ
  pub symbol : String
  pub token_contract_address : String
  pub ethereum_sender : String
  pub cosmos_receiver : String
  pub validator_address : String
  pub amount : ℤ
  pub claim_type : ClaimType

-- What a claim says, as the oracle stores it.
pub record OracleClaimContent : Type 0 where
  pub cosmos_receiver : Bytes
  pub amount : ℤ
  pub symbol : String
  pub token_contract_address : Bytes
  pub claim_type : ClaimType

-- go-ethereum's addresses, and encoding/json on the content of a claim; `none` is an error.
pub record Codec : Type 0 where
  pub hex_to_address : String → Bytes
  pub is_hex_address : String → Bool
  pub to_lower : String → String
  pub marshal_content : OracleClaimContent → Option String
  pub unmarshal_content : String → Option OracleClaimContent

unfoldable pub new_ethereum_address : Codec → String → Bytes
new_ethereum_address codec s = codec.hex_to_address s

unfoldable pub new_oracle_claim_content :
    Bytes → ℤ → String → Bytes → ClaimType → OracleClaimContent
new_oracle_claim_content receiver amount symbol token claim_type = record {
  cosmos_receiver = receiver;
  amount = amount;
  symbol = symbol;
  token_contract_address = token;
  claim_type = claim_type;
}

-- The prophecy that a claim is about.
unfoldable pub oracle_id : EthBridgeClaim → String
unfolding format_int
oracle_id c =
    text_append (text_append (format_int c.ethereum_chain_id) (format_int c.nonce))
      c.ethereum_sender

unfoldable pub claim_content : Codec → EthBridgeClaim → Bytes → OracleClaimContent
unfolding new_oracle_claim_content new_ethereum_address
claim_content codec c receiver =
    new_oracle_claim_content receiver c.amount c.symbol
      (new_ethereum_address codec c.token_contract_address) c.claim_type

unfoldable pub create_oracle_claim_from_eth_claim : Bech32 → Codec → EthBridgeClaim → Outcome Claim
create_oracle_claim_from_eth_claim b codec c = elim (b.acc_from_bech32 c.cosmos_receiver) [
  | none ↦ err Error.sdk_error
  | some receiver ↦ elim (codec.marshal_content (claim_content codec c receiver)) [
    | none ↦ err Error.sdk_error
    | some content ↦
        ok (record { id = oracle_id c; validator_address = c.validator_address; content = content })
  ]
]

unfoldable pub create_oracle_claim_from_oracle_string : Codec → String → Outcome OracleClaimContent
create_oracle_claim_from_oracle_string codec s = elim (codec.unmarshal_content s) [
  | none ↦ err Error.json_marshalling
  | some content ↦ ok content
]

abbrev pub ceth_symbol : String
ceth_symbol = "ceth"

abbrev pub pegged_coin_prefix : String
pegged_coin_prefix = "c"

abbrev pub module_name : String
module_name = "ethbridge"

-- `MsgLock` and `MsgBurn` have the same fields.
pub record TransferMsg : Type 0 where
  pub cosmos_sender : String
  pub amount : ℤ
  pub symbol : String
  pub ethereum_chain_id : ℤ
  pub ethereum_receiver : String
  pub ceth_amount : ℤ

pub record PauseMsg : Type 0 where
  pub signer : String
  pub is_paused : Bool

pub record UpdateWhiteListMsg : Type 0 where
  pub cosmos_sender : String
  pub validator : String
  pub operation_type : String

pub record UpdateCethReceiverMsg : Type 0 where
  pub cosmos_sender : String
  pub ceth_receiver_account : String

pub record RescueCethMsg : Type 0 where
  pub cosmos_sender : String
  pub cosmos_receiver : String
  pub ceth_amount : ℤ

pub record SetBlacklistMsg : Type 0 where
  pub from : String
  pub addresses : List String
