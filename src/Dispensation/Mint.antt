-- ===== src/Dispensation/Mint.antt =====
-- x/dispensation/abci.go and keeper/mint_controller.go: the minting at the beginning of each block.
use furynode.Prelude.{Bool, false, not, ◌&&◌, Option, none, some, [], ◌∷◌, String, if◌then◌else◌}
use furynode.Prelude.Int.{ℤ, pos, ◌+ℤ◌, ◌-ℤ◌, ltb_ℤ, leb_ℤ}
use furynode.Prelude.Text.{str_eq}
use furynode.Chain.Action.{
  Action, panic, Error, ◌>>=◌, ◌>>◌, pure, or_fail, or_panic, gets, modify, recover,
}
use furynode.Dispensation.Records.{Externals}
use furynode.Dispensation.Keeper.{State, Coin}
use furynode.Dispensation.Executors.{on_bank, module_name}

-- `MaxMintAmount` and `MintAmountPerBlock` as the integers that they parse to, the settlement asset,
-- and the text of the pool's address.
abbrev pub max_mint_amount : ℤ
max_mint_amount = pos 350000000000000000000000000

abbrev pub mint_amount_per_block : ℤ
mint_amount_per_block = pos 225000000000000000000

abbrev pub settlement_asset : String
settlement_asset = "fury"

abbrev pub eco_pool : String
eco_pool = "fury1ct2s3t8u2kffjpaekhtngzv6yc4vm97xajqyl3"

module _ (ext : Externals) where
  open ext use {bank, bech32}

  unfoldable pub set_mint_controller : Coin → Action (State ext) (Unit {0})
  set_mint_controller c = modify λ s. record s { mint_controller = some c }

  -- `Coin.Add` panics on two denominations.
  unfoldable pub add_mint_amount : Coin → Action (State ext) (Unit {0})
  unfolding set_mint_controller
  add_mint_amount minted = do
    found ← gets (λ s. s.mint_controller)
    counter ← or_fail found Error.mint_controller_not_found
    (if str_eq counter.denom minted.denom
        then set_mint_controller (record counter { amount = counter.amount +ℤ minted.amount })
        else (λ s. (panic, s)))

  -- `IsLT` panics on two denominations: the answer is then none.
  unfoldable pub tokens_can_be_minted : State ext → Option Bool
  tokens_can_be_minted s = elim s.mint_controller [
    | none ↦ some false
    | some c ↦
        if str_eq c.denom settlement_asset then some (ltb_ℤ c.amount max_mint_amount) else none
  ]

  unfoldable pub is_last_block : State ext → Bool
  is_last_block s = elim s.mint_controller [
    | none ↦ false
    | some c ↦ leb_ℤ (max_mint_amount -ℤ c.amount) mint_amount_per_block
  ]

  -- What this block mints.
  unfoldable pub mint_amount : State ext → Option ℤ
  unfolding is_last_block
  mint_amount s =
      if is_last_block s
      then elim s.mint_controller [ none ↦ none | some c ↦ some (max_mint_amount -ℤ c.amount) ]
      else some mint_amount_per_block

  -- The errors of the end of the block's minting are logged and go no further.
  abbrev logged : Action (State ext) (Unit {0}) → Action (State ext) (Unit {0})
  logged m = recover m pure (λ _. pure tt)

  -- The end of `BeginBlocker`: `valid` is whether the coins are valid and one.
  unfoldable pub mint_to_pool : Bool → ℤ → bank.Coins → Action (State ext) (Unit {0})
  unfolding add_mint_amount
  mint_to_pool valid amount coins =
      if not valid then pure tt else elim (bech32.acc_from_bech32 eco_pool) [
        | none ↦ pure tt
        | some pool ↦
            recover (on_bank ext (bank.mint_coins module_name coins))
              (λ _.
                logged (on_bank ext (bank.send_coins_from_module_to_account module_name pool coins))
                >> logged (add_mint_amount (record { denom = settlement_asset; amount = amount })))
              (λ _. pure tt)
      ]

  -- `new_coins` leaves out a coin of nothing, so that coins of one denomination are one coin where
  -- the amount is not zero.
  unfoldable pub begin_blocker : Action (State ext) (Unit {0})
  unfolding tokens_can_be_minted mint_amount mint_to_pool
  begin_blocker = do
    answer ← gets tokens_can_be_minted
    can ← or_panic answer
    if can
        then (gets mint_amount >>= λ found. elim found [
          | none ↦ pure tt
          | some amount ↦ or_panic (bank.new_coins ((settlement_asset, amount) ∷ [])) >>= λ coins.
              mint_to_pool (ext.is_valid coins && ltb_ℤ (pos 0) amount) amount coins
        ])
        else pure tt
