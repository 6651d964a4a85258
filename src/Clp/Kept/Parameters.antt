-- ===== src/Clp/Kept/Parameters.antt =====
-- Who may set parameters, and what a message that sets them leaves as it is.
use furynode.Prelude.{◌≡◌, inl, inr, true, some, String, arith, Bool-cases, Option-cases}
use furynode.Prelude.Text.{Bytes}
use furynode.Chain.Action.{ok}
use furynode.Admin.Keeper.{is_admin_account}
use furynode.Clp.Keeper.{Externals, State}
use furynode.Clp.Messages.Parameters.{
  ParamsMsg, UpdatePmtpParamsMsg, ModifyPmtpRatesMsg, update_rewards_params, update_pmtp_params,
  modify_pmtp_rates, update_liquidity_protection_params, modify_liquidity_protection_rates,
  update_swap_fee_params, admin_type_of, rate_or, set_pmtp_params, set_pmtp_rates, set_params,
  handle_params,
}
use furynode.Clp.Kept.Frames.{IsFramed}

module _ (ext : Externals) where
  open ext use {bech32}

  -- The coins, the pools, the providers, the queues, the tokens and the administrators stay.
  pub record IsUntouched (s t : State ext) : Type 0 where
    pub framed : IsFramed ext s t
    pub providers : t.providers ≡ s.providers
    pub requests : t.removal_requests ≡ s.removal_requests
    pub registry : t.registry ≡ s.registry
    pub admins : t.admins ≡ s.admins

  set_pmtp_params-IsUntouched :
      (m : UpdatePmtpParamsMsg) (s t : State ext)
      → set_pmtp_params ext m s ≡ (ok tt, t)
      → IsUntouched s t
  unfolding set_pmtp_params rate_or
  set_pmtp_params-IsUntouched m s t h = record {
    framed = record { pools = ground arith; coins = ground arith; queues = ground arith };
    providers = ground arith;
    requests = ground arith;
    registry = ground arith;
    admins = ground arith;
  }

  set_pmtp_rates-IsUntouched :
      (m : ModifyPmtpRatesMsg) (s t : State ext)
      → set_pmtp_rates ext m s ≡ (ok tt, t)
      → IsUntouched s t
  unfolding set_pmtp_rates rate_or
  set_pmtp_rates-IsUntouched m s t h = record {
    framed = record { pools = ground arith; coins = ground arith; queues = ground arith };
    providers = ground arith;
    requests = ground arith;
    registry = ground arith;
    admins = ground arith;
  }

  set_params-IsUntouched :
      (m : ParamsMsg) (s t : State ext) → set_params ext m s ≡ (ok tt, t) → IsUntouched s t
  unfolding set_params
  set_params-IsUntouched (update_pmtp_params m) s t h = set_pmtp_params-IsUntouched m s t h
  set_params-IsUntouched (modify_pmtp_rates m) s t h = set_pmtp_rates-IsUntouched m s t h
  set_params-IsUntouched (update_rewards_params p) s t h = record {
    framed = record { pools = ground arith; coins = ground arith; queues = ground arith };
    providers = ground arith;
    requests = ground arith;
    registry = ground arith;
    admins = ground arith;
  }
  set_params-IsUntouched (update_liquidity_protection_params p) s t h = record {
    framed = record { pools = ground arith; coins = ground arith; queues = ground arith };
    providers = ground arith;
    requests = ground arith;
    registry = ground arith;
    admins = ground arith;
  }
  set_params-IsUntouched (modify_liquidity_protection_rates n) s t h = record {
    framed = record { pools = ground arith; coins = ground arith; queues = ground arith };
    providers = ground arith;
    requests = ground arith;
    registry = ground arith;
    admins = ground arith;
  }
  set_params-IsUntouched (update_swap_fee_params p) s t h = record {
    framed = record { pools = ground arith; coins = ground arith; queues = ground arith };
    providers = ground arith;
    requests = ground arith;
    registry = ground arith;
    admins = ground arith;
  }

  -- A message that sets parameters and succeeds is of an address that is an administrator of the
  -- type that the message asks for, and it leaves the coins, the pools, the providers, the
  -- queues, the tokens and the administrators as they are.
  pub handle_params-IsUntouched :
      (signer : String) (m : ParamsMsg) (s t : State ext)
      → handle_params ext signer m s ≡ (ok tt, t)
      → (a : Bytes) × (bech32.acc_from_bech32 signer ≡ some a)
        × (is_admin_account bech32 s.admins (admin_type_of m) a ≡ true)
        × IsUntouched s t
  unfolding handle_params
  handle_params-IsUntouched signer m s t h = elim (Option-cases (bech32.acc_from_bech32 signer)) [
    | inl e ↦ absurd (ground arith)
    | inr (a, e) ↦ elim (Bool-cases (is_admin_account bech32 s.admins (admin_type_of m) a)) [
      | inl admin ↦ (a, e, admin, set_params-IsUntouched m s t (ground arith))
      | inr not_admin ↦ absurd (ground arith)
    ]
  ]
