-- ===== src/Chain/Address.antt =====
-- The bech32 codec of the SDK: `sdk.AccAddress`, `sdk.ValAddress` (byte slices) and their texts.
use furynode.Prelude.{◌≡◌, Option, some, String}
use furynode.Prelude.Text.{Bytes}

pub record Bech32 : Type 0 where
  -- `sdk.AccAddressFromBech32`; `none` is an error.
  pub acc_from_bech32 : String → Option Bytes
  -- `AccAddress.String`
  pub acc_string : Bytes → String
  -- `sdk.ValAddressFromBech32` and `ValAddress.String`
  pub val_from_bech32 : String → Option Bytes
  pub val_string : Bytes → String

-- An address that was decoded from a text prints as a text that decodes to it.
pub record Bech32Laws (b : Bech32) : Type 0 where
  pub acc_round_trip :
      (s : String) (a : Bytes)
      → b.acc_from_bech32 s ≡ some a
      → b.acc_from_bech32 (b.acc_string a) ≡ some a
  pub val_round_trip :
      (s : String) (a : Bytes)
      → b.val_from_bech32 s ≡ some a
      → b.val_from_bech32 (b.val_string a) ≡ some a
