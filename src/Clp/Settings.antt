-- ===== src/Clp/Settings.antt =====
-- What a message that sets parameters does: who may send it, what it refuses, and what it sets.
use furynode.Prelude.{
  ◌≡◌, refl, sym, ap, subst, ◌⊎◌, inl, inr, true, false, some, none, String, arith, Bool-cases,
  Option-cases,
}
use furynode.Prelude.Int.{ℤ, pos, ◌≤ℤ◌, leb_ℤ}
use furynode.Prelude.Text.{Bytes, str_eq, str_eq_iff}
use furynode.Chain.Action.{Outcome, ok, err, succeeded, Error}
use furynode.Admin.Keeper.{AdminType, clpdex, pmtprewards, is_admin_account}
use furynode.Clp.Keeper.{Externals, State}
use furynode.Clp.Messages.Parameters.{
  ParamsMsg, UpdatePmtpParamsMsg, ModifyPmtpRatesMsg, update_rewards_params, update_pmtp_params,
  modify_pmtp_rates, update_liquidity_protection_params, modify_liquidity_protection_rates,
  update_swap_fee_params, is_inside_pmtp_window, rate_or, set_pmtp_params, set_pmtp_rates,
  set_params, handle_params, admin_type_of,
}
pub mod Policy
pub mod Authority

module _ (ext : Externals) where
  open ext use {bech32}

  abbrev pub IsAdmin : AdminType → String → State ext → Type 0
  IsAdmin t signer s =
      (a : Bytes) × (bech32.acc_from_bech32 signer ≡ some a)
      × (is_admin_account bech32 s.admins t a ≡ true)

  -- The block stands in the period of the policy, both ends included.
  abbrev pub IsRunning : State ext → Type 0
  IsRunning s =
      (s.pmtp_params.pmtp_period_start_block ≤ℤ s.height)
      × (s.height ≤ℤ s.pmtp_params.pmtp_period_end_block)

  -- The rate that a text leaves, and a text that is no rate.
  abbrev pub IsRead : String → ℤ → ℤ → Type 0
  IsRead text before rate =
      ((text ≡ "") × (rate ≡ before)) ⊎ ((¬ (text ≡ "")) × (ext.parse_dec text ≡ some rate))

  abbrev pub IsUnread : String → Type 0
  IsUnread text = (¬ (text ≡ "")) × (ext.parse_dec text ≡ none)

  -- A policy is set for later blocks while none runs.
  abbrev pub IsPlanned : UpdatePmtpParamsMsg → State ext → State ext → Type 0
  IsPlanned m s t =
      (¬ IsRunning s)
      × (¬ (m.pmtp_period_start_block ≤ℤ s.height))
      × ((rate : ℤ) × IsRead m.pmtp_period_governance_rate s.pmtp_params.pmtp_period_governance_rate
            rate
          × (t ≡ record s {
            pmtp_params = record {
              pmtp_period_governance_rate = rate;
              pmtp_period_epoch_length = m.pmtp_period_epoch_length;
              pmtp_period_start_block = m.pmtp_period_start_block;
              pmtp_period_end_block = m.pmtp_period_end_block;
            };
          }))

  abbrev pub with_rates : ℤ → ℤ → ℤ → State ext → State ext
  with_rates block running inter s = record s {
    pmtp_period_block_rate = block;
    pmtp_current_running_rate = running;
    pmtp_inter_policy_rate = inter;
  }

  abbrev pub ended : State ext → State ext
  ended s = record s {
    pmtp_params = record s.pmtp_params { pmtp_period_end_block = s.height };
    pmtp_epoch = record { epoch_counter = pos 0; block_counter = pos 0 };
    pmtp_inter_policy_rate = s.pmtp_current_running_rate;
  }

  -- Outside of a policy the rates are set; a policy that runs ends in this block, or all stays.
  abbrev pub IsModified : ModifyPmtpRatesMsg → State ext → State ext → Type 0
  IsModified m s t =
      ((¬ IsRunning s)
        × ((block : ℤ) × (running : ℤ) × (inter : ℤ) × IsRead m.block_rate s.pmtp_period_block_rate
              block
            × IsRead m.running_rate s.pmtp_current_running_rate running
            × IsRead m.running_rate s.pmtp_inter_policy_rate inter
            × (t ≡ with_rates block running inter s)))
      ⊎ (IsRunning s × (m.end_policy ≡ false) × (t ≡ s))
      ⊎ (IsRunning s × (m.end_policy ≡ true) × (t ≡ ended s))

  -- Who sent the message, and what it has set.
  abbrev pub IsDone : ParamsMsg → String → State ext → State ext → Type 0
  IsDone (update_rewards_params p) signer s t =
      IsAdmin pmtprewards signer s × (t ≡ record s { reward_params = p })
  IsDone (update_pmtp_params m) signer s t = IsAdmin pmtprewards signer s × IsPlanned m s t
  IsDone (modify_pmtp_rates m) signer s t = IsAdmin pmtprewards signer s × IsModified m s t
  IsDone (update_liquidity_protection_params p) signer s t =
      IsAdmin clpdex signer s
      × (t ≡ record s {
        protection_params = p;
        current_fury_liquidity_threshold = p.max_fury_liquidity_threshold;
      })
  IsDone (modify_liquidity_protection_rates n) signer s t =
      IsAdmin clpdex signer s × (t ≡ record s { current_fury_liquidity_threshold = n })
  IsDone (update_swap_fee_params p) signer s t =
      IsAdmin pmtprewards signer s × (t ≡ record s { swap_fee_params = some p })

  -- Why a message is refused.
  abbrev pub IsRefused : ParamsMsg → String → State ext → Type 0
  IsRefused (update_rewards_params p) signer s = ¬ IsAdmin pmtprewards signer s
  IsRefused (update_pmtp_params m) signer s =
      (¬ IsAdmin pmtprewards signer s)
      ⊎ IsRunning s
      ⊎ (m.pmtp_period_start_block ≤ℤ s.height)
      ⊎ IsUnread m.pmtp_period_governance_rate
  IsRefused (modify_pmtp_rates m) signer s =
      (¬ IsAdmin pmtprewards signer s)
      ⊎ ((¬ IsRunning s) × (IsUnread m.block_rate ⊎ IsUnread m.running_rate))
  IsRefused (update_liquidity_protection_params p) signer s = ¬ IsAdmin clpdex signer s
  IsRefused (modify_liquidity_protection_rates n) signer s = ¬ IsAdmin clpdex signer s
  IsRefused (update_swap_fee_params p) signer s = ¬ IsAdmin pmtprewards signer s

  -- The call fails and writes nothing, for a reason, or it has set what it is asked to.
  abbrev pub Answers :
      (Outcome (Unit {0}) × State ext) → State ext → Type 0 → (State ext → Type 0) → Type 0
  Answers r s refused done =
      ((succeeded r.0 ≡ false) × (r.1 ≡ s) × refused) ⊎ ((r.0 ≡ ok tt) × done r.1)
