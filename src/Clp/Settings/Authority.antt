-- ===== src/Clp/Settings/Authority.antt =====
-- Who may set parameters, and what each of the messages does.
use furynode.Prelude.{◌≡◌, refl, subst, inl, inr, String, arith, Bool-cases, Option-cases}
use furynode.Chain.Action.{Error}
use furynode.Admin.Keeper.{is_admin_account}
use furynode.Clp.Keeper.{Externals, State}
use furynode.Clp.Messages.Parameters.{
  ParamsMsg, update_rewards_params, update_pmtp_params, modify_pmtp_rates,
  update_liquidity_protection_params, modify_liquidity_protection_rates, update_swap_fee_params,
  set_params, handle_params, admin_type_of,
}
use furynode.Clp.Settings.{IsAdmin, IsDone, IsRefused, Answers}
use furynode.Clp.Settings.Policy.{refuse, set_pmtp_params-Answers, set_pmtp_rates-Answers}

module _ (ext : Externals) where
  open ext use {bech32}

  -- A refusal of the sender is one of the refusals of each message.
  sender-IsRefused :
      (m : ParamsMsg) (signer : String) (s : State ext)
      → ¬ IsAdmin ext (admin_type_of m) signer s
      → IsRefused ext m signer s
  sender-IsRefused (update_rewards_params p) signer s h = h
  sender-IsRefused (update_pmtp_params m) signer s h = inl h
  sender-IsRefused (modify_pmtp_rates m) signer s h = inl h
  sender-IsRefused (update_liquidity_protection_params p) signer s h = h
  sender-IsRefused (modify_liquidity_protection_rates n) signer s h = h
  sender-IsRefused (update_swap_fee_params p) signer s h = h

  set_params-Answers :
      (m : ParamsMsg) (signer : String) (s : State ext)
      → IsAdmin ext (admin_type_of m) signer s
      → Answers ext (set_params ext m s) s (IsRefused ext m signer s) (IsDone ext m signer s)
  unfolding set_params
  set_params-Answers (update_pmtp_params m) signer s admin =
      elim (set_pmtp_params-Answers ext m s) [
        | inl (r, t, why) ↦ inl (r, t, inr why)
        | inr (r, what) ↦ inr (r, (admin, what))
      ]
  set_params-Answers (modify_pmtp_rates m) signer s admin = elim (set_pmtp_rates-Answers ext m s) [
    | inl (r, t, why) ↦ inl (r, t, inr why)
    | inr (r, what) ↦ inr (r, (admin, what))
  ]
  set_params-Answers (update_rewards_params p) signer s admin = inr (refl, (admin, refl))
  set_params-Answers (update_liquidity_protection_params p) signer s admin =
      inr (refl, (admin, refl))
  set_params-Answers (modify_liquidity_protection_rates n) signer s admin =
      inr (refl, (admin, refl))
  set_params-Answers (update_swap_fee_params p) signer s admin = inr (refl, (admin, refl))

  -- A message that sets parameters either fails and writes nothing, for one of the reasons of its
  -- kind, or returns, is of an administrator of the exchange where it is on the liquidity
  -- protection and of the rewards otherwise, and leaves the state of before with what it sets. A
  -- rate policy is refused while one runs, from a block that is not later, and with a rate that
  -- does not parse; the rates are set while no policy runs, and refused where one does not parse;
  -- while a policy runs they stay, and the policy ends in this block, with the running rate kept,
  -- where the message asks for it.
  pub handle_params-Answers :
      (signer : String) (m : ParamsMsg) (s : State ext)
      → Answers ext
          (handle_params ext signer m s)
          s
          (IsRefused ext m signer s)
          (IsDone ext m signer s)
  unfolding handle_params
  handle_params-Answers signer m s =
      let call = handle_params ext signer m s in
      elim (Option-cases (bech32.acc_from_bech32 signer)) [
        | inl e ↦
            refuse ext (IsDone ext m signer s) call s Error.sdk_error (ground arith)
              (sender-IsRefused m signer s (λ (b, f, h). absurd (ground arith)))
        | inr (a, e) ↦ elim (Bool-cases (is_admin_account bech32 s.admins (admin_type_of m) a)) [
          | inl admin ↦
              let same : set_params ext m s ≡ call = ground arith in
              subst (λ r. Answers ext r s (IsRefused ext m signer s) (IsDone ext m signer s)) same
                (set_params-Answers m signer s (a, e, admin))
          | inr other ↦
              refuse ext (IsDone ext m signer s) call s Error.not_enough_permissions (ground arith)
                (sender-IsRefused m signer s (λ (b, f, h). absurd (ground arith)))
        ]
      ]
