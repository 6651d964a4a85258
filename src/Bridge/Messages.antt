-- ===== src/Bridge/Messages.antt =====
-- x/ethbridge/types/msgs.go: the stateless checks, `ValidateBasic`, which a message passes before
-- its handler runs.
use Prim.Native.String.{len, slice}
use furynode.Prelude.{ℕ, ◌*◌, ◌+◌, Bool, false, not, ◌&&◌, leb, ◌==◌, if◌then◌else◌}
use furynode.Prelude.Int.{ℤ, pos, ltb_ℤ, leb_ℤ}
use furynode.Prelude.Text.{str_eq, bytes_eq}
use furynode.Chain.Action.{Outcome, ok, err, Error}
use furynode.Prelude.Decimal.{format_int}
use furynode.Bridge.Claim.{
  Codec, EthBridgeClaim, TransferMsg, PauseMsg, UpdateWhiteListMsg, UpdateCethReceiverMsg,
  RescueCethMsg, pegged_coin_prefix, new_ethereum_address,
}

abbrev pub gas_cost : ℕ
gas_cost = 60000000000 * 393000

-- `else if` in a chain of checks.
abbrev check : Bool → Error → Outcome (Unit {0}) → Outcome (Unit {0})
check failed e rest = if failed then err e else rest

abbrev pub is_zero : ℤ → Bool
is_zero (pos n) = n == 0
is_zero _ = false

unfoldable pub validate_pause : PauseMsg → Outcome (Unit {0})
validate_pause m = check (str_eq m.signer "") Error.invalid_address (ok tt)

unfoldable pub validate_lock : Codec → TransferMsg → Outcome (Unit {0})
validate_lock codec m =
    check (str_eq (format_int m.ethereum_chain_id) "") Error.invalid_ethereum_chain_id (
      check (str_eq m.cosmos_sender "") Error.invalid_address (
        check (str_eq m.ethereum_receiver "") Error.invalid_eth_address (
          check (not (codec.is_hex_address m.ethereum_receiver)) Error.invalid_eth_address (
            check (leb_ℤ m.amount (pos 0)) Error.invalid_amount (
              check (ltb_ℤ m.ceth_amount (pos gas_cost)) Error.ceth_amount
                (check (len m.symbol == 0) Error.invalid_symbol (ok tt)))))))

unfoldable pub validate_burn : Codec → TransferMsg → Outcome (Unit {0})
validate_burn codec m =
    let prefix_length = len pegged_coin_prefix in
    check (is_zero m.ethereum_chain_id) Error.invalid_ethereum_chain_id (
      check (str_eq m.cosmos_sender "") Error.invalid_address (
        check (str_eq m.ethereum_receiver "") Error.invalid_eth_address (
          check (not (codec.is_hex_address m.ethereum_receiver)) Error.invalid_eth_address (
            check (leb_ℤ m.amount (pos 0)) Error.invalid_amount (
              check (leb (len m.symbol) (prefix_length + 1)) Error.invalid_burn_symbol (
                check (not (str_eq (slice m.symbol 0 prefix_length) pegged_coin_prefix))
                  Error.invalid_burn_symbol
                  (check (ltb_ℤ m.ceth_amount (pos gas_cost)) Error.ceth_amount (
                    check (len (slice m.symbol prefix_length (len m.symbol)) == 0)
                      Error.invalid_burn_symbol (ok tt)))))))))

unfoldable pub validate_create_eth_bridge_claim : Codec → EthBridgeClaim → Outcome (Unit {0})
validate_create_eth_bridge_claim codec c =
    check (str_eq c.cosmos_receiver "") Error.invalid_address (
      check (str_eq c.validator_address "") Error.invalid_address (
        check (ltb_ℤ c.nonce (pos 0)) Error.invalid_eth_nonce (
          check (not (codec.is_hex_address c.ethereum_sender)) Error.invalid_eth_address (
            check (not (codec.is_hex_address c.bridge_contract_address)) Error.invalid_eth_address (
              check (not (codec.is_hex_address c.token_contract_address)) Error.invalid_eth_address
                (check
                  (str_eq (codec.to_lower c.symbol) "eth"
                    && not (
                        bytes_eq (new_ethereum_address codec c.token_contract_address) (
                          new_ethereum_address codec "0x0000000000000000000000000000000000000000")))
                  Error.invalid_eth_symbol (ok tt)))))))

unfoldable pub validate_update_ceth_receiver_account : UpdateCethReceiverMsg → Outcome (Unit {0})
validate_update_ceth_receiver_account m =
    check (str_eq m.cosmos_sender "") Error.invalid_address
      (check (str_eq m.ceth_receiver_account "") Error.invalid_address (ok tt))

unfoldable pub validate_rescue_ceth : RescueCethMsg → Outcome (Unit {0})
validate_rescue_ceth m =
    check (str_eq m.cosmos_sender "") Error.invalid_address
      (check (str_eq m.cosmos_receiver "") Error.invalid_address (ok tt))

unfoldable pub validate_update_white_list_validator : UpdateWhiteListMsg → Outcome (Unit {0})
validate_update_white_list_validator m =
    check (str_eq m.cosmos_sender "") Error.invalid_address
      (check (str_eq m.validator "") Error.invalid_address (ok tt))
