-- ===== src/Clp/Settings/Policy.antt =====
-- The rate policy: what a text leaves as a rate, and the messages that set the policy and its rates.
use furynode.Prelude.{
  ◌≡◌, refl, sym, ap, subst, ◌⊎◌, inl, inr, true, false, String, arith, Bool-cases, Option-cases,
}
use furynode.Prelude.Int.{ℤ, ◌≤ℤ◌, leb_ℤ}
use furynode.Prelude.Text.{str_eq, str_eq_iff}
use furynode.Chain.Action.{Outcome, ok, err, succeeded, Error}
use furynode.Clp.Keeper.{Externals, State}
use furynode.Clp.Messages.Parameters.{
  UpdatePmtpParamsMsg, ModifyPmtpRatesMsg, is_inside_pmtp_window, rate_or, set_pmtp_params,
  set_pmtp_rates,
}
use furynode.Clp.Settings.{
  IsRunning, IsRead, IsUnread, IsPlanned, with_rates, ended, IsModified, Answers,
}

module _ (ext : Externals) where
  rate_or-kept :
      (text : String) (rate : ℤ) (s : State ext) → rate_or ext true text rate s ≡ (ok rate, s)
  unfolding rate_or
  rate_or-kept text rate s = refl

  rate_or-cases :
      (text : String) (before : ℤ) (s : State ext)
      → ((rate : ℤ) × IsRead ext text before rate
          × (rate_or ext false text before s ≡ (ok rate, s)))
        ⊎ (IsUnread ext text × (rate_or ext false text before s ≡ (err Error.sdk_error, s)))
  unfolding rate_or
  rate_or-cases text before s =
      let same = str_eq_iff text "" in
      elim (Bool-cases (str_eq text "")) [
        | inl empty ↦ inl (before, inl (same.0 empty, refl), rw empty refl)
        | inr given ↦ elim (Option-cases (ext.parse_dec text)) [
          | inl e ↦ inr ((λ h. absurd (ground (arith, same.1 h)), e), rw (given, e) refl)
          | inr (rate, e) ↦
              inl (rate, inr (λ h. absurd (ground (arith, same.1 h)), e), rw (given, e) refl)
        ]
      ]

  is_inside_pmtp_window-cases :
      (s : State ext)
      → ((is_inside_pmtp_window ext s ≡ true) × IsRunning ext s)
        ⊎ ((is_inside_pmtp_window ext s ≡ false) × ¬ IsRunning ext s)
  unfolding is_inside_pmtp_window
  is_inside_pmtp_window-cases s = ground arith

  pub refuse :
      {refused : Type 0} (done : State ext → Type 0) (r : Outcome (Unit {0}) × State ext)
      (s : State ext) (e : Error)
      → r ≡ (err e, s)
      → refused
      → Answers ext r s refused done
  refuse done r s e same why = inl (ap (λ r. succeeded r.0) same, ap (λ r. r.1) same, why)

  finish :
      (refused : Type 0) (done : State ext → Type 0) (r : Outcome (Unit {0}) × State ext)
      (s t : State ext)
      → r ≡ (ok tt, t)
      → done t
      → Answers ext r s refused done
  finish refused done r s t same what =
      inr (ap (λ r. r.0) same, subst done (sym (ap (λ r. r.1) same)) what)

  pub set_pmtp_params-Answers :
      (m : UpdatePmtpParamsMsg) (s : State ext)
      → Answers ext
          (set_pmtp_params ext m s)
          s
          (IsRunning ext s
            ⊎ (m.pmtp_period_start_block ≤ℤ s.height)
            ⊎ IsUnread ext m.pmtp_period_governance_rate)
          (IsPlanned ext m s)
  unfolding set_pmtp_params
  set_pmtp_params-Answers m s = elim (is_inside_pmtp_window-cases s) [
    | inl (inside, running) ↦
        refuse (IsPlanned ext m s) (set_pmtp_params ext m s) s Error.cannot_start_policy
          (ground arith) (inl running)
    | inr (outside, idle) ↦ elim (Bool-cases (leb_ℤ m.pmtp_period_start_block s.height)) [
      | inl late ↦
          refuse (IsPlanned ext m s) (set_pmtp_params ext m s) s Error.start_block_passed
            (ground arith) (inr (inl (ground arith)))
      | inr early ↦
          elim (rate_or-cases m.pmtp_period_governance_rate
            s.pmtp_params.pmtp_period_governance_rate s) [
              | inl (rate, read, e) ↦
                  finish _ (IsPlanned ext m s) (set_pmtp_params ext m s) s
                    (record s {
                      pmtp_params = record {
                        pmtp_period_governance_rate = rate;
                        pmtp_period_epoch_length = m.pmtp_period_epoch_length;
                        pmtp_period_start_block = m.pmtp_period_start_block;
                        pmtp_period_end_block = m.pmtp_period_end_block;
                      };
                    })
                    (ground arith) (idle, ground arith, (rate, read, refl))
              | inr (unread, e) ↦
                  refuse (IsPlanned ext m s) (set_pmtp_params ext m s) s Error.sdk_error
                    (ground arith) (inr (inr unread))
            ]
    ]
  ]

  pub set_pmtp_rates-Answers :
      (m : ModifyPmtpRatesMsg) (s : State ext)
      → Answers ext
          (set_pmtp_rates ext m s)
          s
          ((¬ IsRunning ext s) × (IsUnread ext m.block_rate ⊎ IsUnread ext m.running_rate))
          (IsModified ext m s)
  unfolding set_pmtp_rates
  set_pmtp_rates-Answers m s =
      let call = set_pmtp_rates ext m s in
      elim (is_inside_pmtp_window-cases s) [
        | inl (inside, running) ↦
            let b = rate_or-kept m.block_rate s.pmtp_period_block_rate s in
            let r = rate_or-kept m.running_rate s.pmtp_current_running_rate s in
            let i = rate_or-kept m.running_rate s.pmtp_inter_policy_rate s in
            elim (Bool-cases m.end_policy) [
              | inl ends ↦
                  finish _ (IsModified ext m s) call s (ended ext s) (ground arith)
                    (inr (inr (running, ends, refl)))
              | inr stays ↦
                  finish _ (IsModified ext m s) call s s (ground arith)
                    (inr (inl (running, stays, refl)))
            ]
        | inr (outside, idle) ↦ elim (rate_or-cases m.block_rate s.pmtp_period_block_rate s) [
          | inr (unread, e) ↦
              refuse (IsModified ext m s) call s Error.sdk_error (ground arith) (idle, inl unread)
          | inl (block, block_read, e) ↦
              elim (rate_or-cases m.running_rate s.pmtp_current_running_rate s) [
                | inr (unread, f) ↦
                    refuse (IsModified ext m s) call s Error.sdk_error (ground arith)
                      (idle, inr unread)
                | inl (running, read, f) ↦
                    elim (rate_or-cases m.running_rate s.pmtp_inter_policy_rate s) [
                      | inr (unread, g) ↦
                          refuse (IsModified ext m s) call s Error.sdk_error (ground arith)
                            (idle, inr unread)
                      | inl (inter, inter_read, g) ↦
                          finish _ (IsModified ext m s) call s
                            (with_rates ext block running inter s) (ground arith)
                            (inl
                              (idle, (block, running, inter, block_read, read, inter_read, refl)))
                    ]
              ]
        ]
      ]
