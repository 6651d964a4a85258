-- ===== src/Clp/Messages/Parameters.antt =====
-- x/clp/keeper/msg_server.go: the messages by which an administrator sets parameters.
use furynode.Prelude.{ℕ, Bool, false, not, ◌&&◌, some, String, if◌then◌else◌}
use furynode.Prelude.Int.{ℤ, pos, leb_ℤ}
use furynode.Prelude.Text.{str_eq}
use furynode.Chain.Action.{Action, Error, ◌>>=◌, ◌>>◌, pure, fail_if, or_fail, gets, modify}
use furynode.Admin.Keeper.{AdminType, clpdex, pmtprewards, is_admin_account}
use furynode.Clp.Keeper.{Externals, State, LiquidityProtectionParams, SwapFeeParams, RewardParams}

-- The rates are texts, of which an empty one leaves the rate as it is.
pub record UpdatePmtpParamsMsg : Type 0 where
  pub pmtp_period_governance_rate : String
  pub pmtp_period_epoch_length : ℤ
  pub pmtp_period_start_block : ℤ
  pub pmtp_period_end_block : ℤ

pub record ModifyPmtpRatesMsg : Type 0 where
  pub block_rate : String
  pub running_rate : String
  pub end_policy : Bool

-- What a message sets, without its signer.
pub data ParamsMsg : Type 0 where
  update_rewards_params : RewardParams → ParamsMsg
  update_pmtp_params : UpdatePmtpParamsMsg → ParamsMsg
  modify_pmtp_rates : ModifyPmtpRatesMsg → ParamsMsg
  update_liquidity_protection_params : LiquidityProtectionParams → ParamsMsg
  modify_liquidity_protection_rates : ℕ → ParamsMsg
  update_swap_fee_params : SwapFeeParams → ParamsMsg

-- Whose administrators may send a message.
abbrev pub admin_type_of : ParamsMsg → AdminType
admin_type_of (update_rewards_params _) = pmtprewards
admin_type_of (update_pmtp_params _) = pmtprewards
admin_type_of (modify_pmtp_rates _) = pmtprewards
admin_type_of (update_liquidity_protection_params _) = clpdex
admin_type_of (modify_liquidity_protection_rates _) = clpdex
admin_type_of (update_swap_fee_params _) = pmtprewards

module _ (ext : Externals) where
  open ext use {bech32}

  unfoldable pub is_inside_pmtp_window : State ext → Bool
  is_inside_pmtp_window s =
      leb_ℤ s.height s.pmtp_params.pmtp_period_end_block
      && leb_ℤ s.pmtp_params.pmtp_period_start_block s.height

  -- The decimal of a text; the rate of before where the text is empty or `keep` says so.
  unfoldable pub rate_or : Bool → String → ℤ → Action (State ext) ℤ
  rate_or keep text rate =
      if keep
      then pure rate
      else if str_eq text ""
      then pure rate
      else or_fail (ext.parse_dec text) Error.sdk_error

  unfoldable pub set_pmtp_params : UpdatePmtpParamsMsg → Action (State ext) (Unit {0})
  unfolding is_inside_pmtp_window rate_or
  set_pmtp_params m = do
    running ← gets is_inside_pmtp_window
    fail_if running Error.cannot_start_policy
    height ← gets (λ s. s.height)
    fail_if (leb_ℤ m.pmtp_period_start_block height) Error.start_block_passed
    before ← gets (λ s. s.pmtp_params.pmtp_period_governance_rate)
    rate ← rate_or false m.pmtp_period_governance_rate before
    modify (λ s. record s {
      pmtp_params = record {
        pmtp_period_governance_rate = rate;
        pmtp_period_epoch_length = m.pmtp_period_epoch_length;
        pmtp_period_start_block = m.pmtp_period_start_block;
        pmtp_period_end_block = m.pmtp_period_end_block;
      };
    })

  -- The rates are set outside of a policy only, and the rate between policies with the running one.
  unfoldable pub set_pmtp_rates : ModifyPmtpRatesMsg → Action (State ext) (Unit {0})
  unfolding is_inside_pmtp_window rate_or
  set_pmtp_rates m = do
    inside ← gets is_inside_pmtp_window
    block_rate ← gets (λ s. s.pmtp_period_block_rate) >>= rate_or inside m.block_rate
    running_rate ← gets (λ s. s.pmtp_current_running_rate) >>= rate_or inside m.running_rate
    inter_rate ← gets (λ s. s.pmtp_inter_policy_rate) >>= rate_or inside m.running_rate
    modify (λ s. record s {
      pmtp_period_block_rate = block_rate;
      pmtp_current_running_rate = running_rate;
      pmtp_inter_policy_rate = inter_rate;
    })
    if m.end_policy && inside
        then modify (λ s. record s {
          pmtp_params = record s.pmtp_params { pmtp_period_end_block = s.height };
          pmtp_epoch = record { epoch_counter = pos 0; block_counter = pos 0 };
          pmtp_inter_policy_rate = s.pmtp_current_running_rate;
        })
        else pure tt

  unfoldable pub set_params : ParamsMsg → Action (State ext) (Unit {0})
  unfolding set_pmtp_params set_pmtp_rates
  set_params (update_rewards_params p) = modify (λ s. record s { reward_params = p })
  set_params (update_pmtp_params m) = set_pmtp_params m
  set_params (modify_pmtp_rates m) = set_pmtp_rates m
  set_params (update_liquidity_protection_params p) = modify (λ s. record s {
    protection_params = p;
    current_fury_liquidity_threshold = p.max_fury_liquidity_threshold;
  })
  set_params (modify_liquidity_protection_rates n) =
      modify (λ s. record s { current_fury_liquidity_threshold = n })
  set_params (update_swap_fee_params p) = modify (λ s. record s { swap_fee_params = some p })

  unfoldable pub handle_params : String → ParamsMsg → Action (State ext) (Unit {0})
  unfolding is_admin_account set_params
  handle_params signer m = do
    a ← or_fail (bech32.acc_from_bech32 signer) Error.sdk_error
    admin ← gets (λ s. is_admin_account bech32 s.admins (admin_type_of m) a)
    fail_if (not admin) Error.not_enough_permissions
    set_params m
