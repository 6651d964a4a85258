-- ===== src/Tests/Messages.antt =====
-- Runs of the stateless checks of a lock and of a burn.
use furynode.Prelude.{◌≡◌, ◌↔◌, refl, true, none, [], String}
use furynode.Prelude.Int.{pos}
use furynode.Chain.Action.{ok}
use furynode.Prelude.Decimal.{format_int}
use furynode.Bridge.Claim.{Codec, TransferMsg}
use furynode.Bridge.Messages.{validate_lock, validate_burn}
use furynode.Bridge.Checked.{
  IsTransfer, IsPegged, validate_lock-IsTransfer, validate_burn-IsTransfer,
}

abbrev codec : Codec
codec = record {
  hex_to_address = λ s. [];
  is_hex_address = λ s. true;
  to_lower = λ s. s;
  marshal_content = λ c. none;
  unmarshal_content = λ s. none;
}

abbrev transfer : String → TransferMsg
transfer symbol = record {
  cosmos_sender = "ann";
  amount = pos 10;
  symbol = symbol;
  ethereum_chain_id = pos 1;
  ethereum_receiver = "0xgood";
  ceth_amount = pos 23580000000000000;
}

lock_passes : validate_lock codec (transfer "fury") ≡ ok tt
unfolding validate_lock format_int
lock_passes = refl

burn_passes : validate_burn codec (transfer "cdai") ≡ ok tt
unfolding validate_burn
burn_passes = refl

validate_lock-IsTransfer_example :
    (validate_lock codec (transfer "fury") ≡ ok tt)
    ↔ (IsTransfer codec (transfer "fury") × ¬ ((transfer "fury").symbol ≡ ""))
validate_lock-IsTransfer_example = validate_lock-IsTransfer codec (transfer "fury")

validate_burn-IsTransfer_example :
    (validate_burn codec (transfer "cdai") ≡ ok tt)
    ↔ (IsTransfer codec (transfer "cdai") × ¬ (pos 1 ≡ pos 0) × IsPegged "cdai")
validate_burn-IsTransfer_example = validate_burn-IsTransfer codec (transfer "cdai")

-- Both sides hold of these two.
lock-IsTransfer : IsTransfer codec (transfer "fury") × ¬ ((transfer "fury").symbol ≡ "")
lock-IsTransfer = (validate_lock-IsTransfer codec (transfer "fury")).0 lock_passes

burn-IsTransfer : IsTransfer codec (transfer "cdai") × ¬ (pos 1 ≡ pos 0) × IsPegged "cdai"
burn-IsTransfer = (validate_burn-IsTransfer codec (transfer "cdai")).0 burn_passes
