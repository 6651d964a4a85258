-- ===== src/Chain/Action.antt =====
-- A keeper call over a store: it returns a value, returns a Go error, or panics. The store comes
-- back in each case, since what a handler wrote before an error stands until the transaction is
-- dropped by its caller.
use furynode.Prelude.{◌≡◌, refl, Bool, true, false, Option, none, some, if◌then◌else◌}

-- The errors that the modelled code returns. `sdk_error` is one that a call of the SDK returned.
pub data Error : Type 0 where
  -- x/oracle/types/errors.go
  invalid_identifier prophecy_finalized duplicate_message invalid_claim invalid_validator : Error
  validator_not_in_white_list not_admin_account invalid_operation_type internal_db : Error
  -- x/ethbridge/types/errors.go
  invalid_eth_nonce invalid_eth_address json_marshalling invalid_eth_symbol invalid_claim_type :
      Error
  invalid_ethereum_chain_id invalid_amount invalid_symbol invalid_burn_symbol ceth_amount : Error
  not_enough_permissions paused : Error
  -- errors made in place by x/ethbridge
  pegged_token_locked native_token_burned only_admin_ceth_receiver only_admin_rescue : Error
  -- x/clp/types/errors.go
  not_enough_asset_tokens pool_does_not_exist unable_to_set_pool balance_not_available : Error
  token_not_supported in_valid_amount unable_to_swap received_amount_below_expected : Error
  unable_to_parse_int max_fury_liquidity_threshold_asset_pool_does_not_exist : Error
  reached_max_fury_liquidity_threshold : Error
  total_amount_too_low unable_to_create_pool unable_to_add_liquidity unable_to_destroy_pool : Error
  unable_to_remove_liquidity unable_to_remove_liquidity_provider unable_to_add_balance : Error
  liquidity_provider_does_not_exist pool_too_shallow not_enough_liquidity balance_too_high : Error
  unable_to_decommission_pool cannot_start_policy start_block_passed asymmetric_remove queued
        removals_blocked_by_health invalid :
      Error
  -- x/tokenregistry/types/errors.go
  permission_denied not_allowed_to_sell_asset not_allowed_to_buy_asset : Error
  -- x/dispensation/types/errors.go
  invalid_record failed_inputs failed_outputs distribution_failed mint_controller_not_found : Error
  -- cosmos-sdk/types/errors
  invalid_address unknown_address key_not_found : Error
  sdk_error : Error

pub data Outcome (A : Type 0) : Type 0 where
  ok : A → Outcome A
  err : Error → Outcome A
  panic : Outcome A

abbrev pub Action : Type 0 → Type 0 → Type 0
Action S A = S → Outcome A × S

module _ {S A : Type 0} where
  abbrev pub pure : A → Action S A
  pure a s = (ok a, s)

  abbrev pub fail : Error → Action S A
  fail e s = (err e, s)

  abbrev pub or_fail : Option A → Error → Action S A
  or_fail none e s = (err e, s)
  or_fail (some a) e s = (ok a, s)

  abbrev pub or_panic : Option A → Action S A
  or_panic none s = (panic, s)
  or_panic (some a) s = (ok a, s)

  abbrev pub gets : (S → A) → Action S A
  gets f s = (ok (f s), s)

module _ {S : Type 0} where
  abbrev pub fail_if : Bool → Error → Action S (Unit {0})
  fail_if c e s = (if c then err e else ok tt, s)

  abbrev pub modify : (S → S) → Action S (Unit {0})
  modify f s = (ok tt, f s)

infixl 5 ◌>>=◌ ◌>>◌
abbrev pub ◌>>=◌ : {S A B : Type 0} → Action S A → (A → Action S B) → Action S B
◌>>=◌ m f s = let (r, t) = m s in elim r [ ok a ↦ f a t | err e ↦ (err e, t) | panic ↦ (panic, t) ]

abbrev pub ◌>>◌ : {S B : Type 0} → Action S (Unit {0}) → Action S B → Action S B
m >> k = m >>= λ _. k

-- `if err := …; err != nil { … }`: the call goes on after an error, from the store that it left.
abbrev pub recover :
    {S A B : Type 0} → Action S A → (A → Action S B) → (Error → Action S B) → Action S B
recover m f g s = let (r, t) = m s in elim r [ ok a ↦ f a t | err e ↦ g e t | panic ↦ (panic, t) ]

-- `errors.Wrap`: an error becomes this one.
abbrev pub wrap : {S A : Type 0} → Error → Action S A → Action S A
wrap e m = recover m pure (λ _. fail e)

-- A call on a part of the store.
abbrev pub zoom : {S T A : Type 0} → (S → T) → (T → S → S) → Action T A → Action S A
zoom get put m s = let (r, t) = m (get s) in (r, put t s)

-- Whether a call returned a value.
abbrev pub succeeded : {A : Type 0} → Outcome A → Bool
succeeded (ok _) = true
succeeded (err _) = false
succeeded panic = false

-- Inversion of a chain that succeeds.
pub >>=-eq-ok :
    {S A B : Type 0} (m : Action S A) (f : A → Action S B) (s : S) {b : B} {t : S}
    → (m >>= f) s ≡ (ok b, t)
    → (a : A) × (u : S) × (m s ≡ (ok a, u)) × (f a u ≡ (ok b, t))
>>=-eq-ok {S} {A} {B} m f s {b} {t} h = go (m s).0 (m s).1 refl h
  where
    go :
        (r : Outcome A) (u : S)
        → m s ≡ (r, u)
        → elim r [ ok a ↦ f a u | err e ↦ (err e, u) | panic ↦ (panic, u) ] ≡ (ok b, t)
        → (a : A) × (u : S) × (m s ≡ (ok a, u)) × (f a u ≡ (ok b, t))
    go (ok a) u e k = (a, u, e, k)
    go (err x) u e k = cc
    go panic u e k = cc
