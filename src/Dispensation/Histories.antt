-- ===== src/Dispensation/Histories.antt =====
-- What holds after any history of the module: beginnings of blocks, messages, and what the rest of
-- the chain does to the coins.
use furynode.Prelude.{
  ℕ, ◌+◌, ◌≤◌, ◌≡◌, refl, sym, ap, subst, ◌∙◌, inl, inr, Bool, true, false, some, String, arith,
  Option-cases,
}
use furynode.Prelude.Int.{pos_part}
use furynode.Prelude.Text.{Bytes, bytes_eq_iff}
use furynode.Chain.Action.{ok, >>=-eq-ok}
use furynode.Chain.Bank.{BankLaws, RefusalLaws}
use furynode.Dispensation.Records.{Externals, CoinLaws}
use furynode.Dispensation.Keeper.{State, set_claim}
use furynode.Dispensation.Executors.{module_name, distribute_drops}
use furynode.Dispensation.Server.{
  Block, Msg, create, user_claim, run, handle, UserClaimMsg, RunMsg, create_user_claim,
  run_distribution, get_signer,
}
use furynode.Dispensation.Mint.{begin_blocker, max_mint_amount}
use furynode.Dispensation.Reserve.{IsSolvent, held-IsSolvent, held}
use furynode.Dispensation.Runs.{distribute_drops-IsSolvent}
use furynode.Dispensation.Creation.{create_distribution-IsSolvent}
use furynode.Dispensation.Cap.{begin_blocker-IsMinted, counter}
use furynode.Dispensation.Counter.{handle-Keeps}

module _ (ext : Externals) (has_key : Bytes → Bool) where
  open ext use {bank, bech32}
  open bank use {balance, module_address}

  -- A step of the chain. A message goes to its handler when an account with a key has signed it, and
  -- its writes stand when the handler returns. The rest of the chain changes the coins, and takes
  -- none from the module's account.
  pub data Step (s : State ext) : State ext → Type 0 where
    begin : (t : State ext) → begin_blocker ext s ≡ (ok tt, t) → Step s t
    deliver :
        (b : Block ext) (m : Msg ext) (a : Bytes) (t : State ext)
        → bech32.acc_from_bech32 (get_signer ext m) ≡ some a
        → has_key a ≡ true
        → handle ext b m s ≡ (ok tt, t)
        → Step s t
    elsewhere :
        (c : bank.Store)
        → ((d : String) → held ext d s ≤ balance c (module_address module_name) d)
        → Step s (record s { coins = c })

  -- Any number of steps.
  pub data Reaches (s : State ext) : State ext → Type 0 where
    start : Reaches s s
    then_step : (t u : State ext) → Reaches s t → Step t u → Reaches s u

  -- The module holds what is owed, and its counter stands at or below the cap.
  pub record IsSound (s : State ext) : Type 0 where
    pub solvent : IsSolvent ext s
    pub minted : ℕ
    pub counted : s.mint_controller ≡ counter ext minted
    pub capped : minted ≤ pos_part max_mint_amount

  module _ (laws : BankLaws bank) (refusals : RefusalLaws bank) (coin_laws : CoinLaws ext) where
    create_user_claim-IsSolvent :
        (b : Block ext) (m : UserClaimMsg) (s t : State ext)
        → IsSolvent ext s
        → create_user_claim ext b m s ≡ (ok tt, t)
        → IsSolvent ext t
    unfolding create_user_claim set_claim
    create_user_claim-IsSolvent b m s t solvent h = elim (Option-cases b.time) [
      | inl n ↦ absurd (ground arith)
      | inr (time, e) ↦
          let p : t.pending_records ≡ s.pending_records = ground arith in
          let f : t.failed_records ≡ s.failed_records = ground arith in
          let c : t.coins ≡ s.coins = ground arith in
          held-IsSolvent ext s t solvent p f
            (λ d. omega (arith, ap (λ c. balance c (module_address module_name) d) c))
    ]

    run_distribution-IsSolvent :
        (b : Block ext) (m : RunMsg) (s t : State ext)
        → IsSolvent ext s
        → run_distribution ext b m s ≡ (ok tt, t)
        → IsSolvent ext t
    unfolding run_distribution
    run_distribution-IsSolvent b m s t solvent h =
        let (rs, u, e, k) =
          >>=-eq-ok
            (distribute_drops ext b.height m.distribution_name m.authorized_runner
              m.distribution_type m.distribution_count)
            (λ _ s. (ok tt, s)) s h in
        let same : u ≡ t = ap (λ p. p.1) k in
        subst (IsSolvent ext) same
          (distribute_drops-IsSolvent ext laws refusals b.height m.distribution_name
            m.authorized_runner m.distribution_type m.distribution_count s u rs solvent e).0

    handle-IsSolvent :
        (b : Block ext) (m : Msg ext) (a : Bytes) (s t : State ext)
        → has_key (module_address module_name) ≡ false
        → bech32.acc_from_bech32 (get_signer ext m) ≡ some a
        → has_key a ≡ true
        → IsSolvent ext s
        → handle ext b m s ≡ (ok tt, t)
        → IsSolvent ext t
    unfolding handle get_signer
    handle-IsSolvent b (create m) a s t keyless decoded keyed solvent h =
        create_distribution-IsSolvent ext laws coin_laws b m s t solvent
          (λ x e. ground (arith, bytes_eq_iff x (module_address module_name))) h
    handle-IsSolvent b (user_claim m) a s t keyless decoded keyed solvent h =
        create_user_claim-IsSolvent b m s t solvent h
    handle-IsSolvent b (run m) a s t keyless decoded keyed solvent h =
        run_distribution-IsSolvent b m s t solvent h

    step-IsSound :
        (s t : State ext)
        → has_key (module_address module_name) ≡ false
        → (sound : IsSound s) → Step s t
        → (after : IsSound t) × (sound.minted ≤ after.minted)
    step-IsSound s _ keyless sound (begin t h) =
        let (n, small, capped, m) =
          begin_blocker-IsMinted ext laws refusals sound.minted s t sound.counted sound.capped h in
        (
          record {
            solvent = held-IsSolvent ext s t sound.solvent m.pending_same m.failed_same m.kept;
            minted = sound.minted + n;
            counted = m.counted;
            capped = capped;
          },
          omega arith,
        )
    step-IsSound s _ keyless sound (deliver b m a t decoded keyed h) = (
      record {
        solvent = handle-IsSolvent b m a s t keyless decoded keyed sound.solvent h;
        minted = sound.minted;
        counted = sym (ap (λ p. p.1.mint_controller) h) ∙ handle-Keeps ext b m s ∙ sound.counted;
        capped = sound.capped;
      },
      omega arith,
    )
    step-IsSound s _ keyless sound (elsewhere c more) = (
      record {
        solvent = held-IsSolvent ext s (record s { coins = c }) sound.solvent refl refl more;
        minted = sound.minted;
        counted = sound.counted;
        capped = sound.capped;
      },
      omega arith,
    )

    -- With a bank, coins and refusals that keep their laws, and where the account of the
    -- dispensation module has no key, only sound states are reached from a sound state, by
    -- beginnings of blocks, messages that return, and whatever the rest of the chain does that
    -- takes nothing from that account: the module holds in every denomination what its pending
    -- and failed records come to, each pending record stands once, under its own key, pending and
    -- valid, and the counter of the minted coins never falls and never passes the cap.
    pub Reaches-IsSound :
        (s t : State ext)
        → has_key (module_address module_name) ≡ false
        → (sound : IsSound s) → Reaches s t
        → (after : IsSound t) × (sound.minted ≤ after.minted)
    Reaches-IsSound s _ keyless sound start = (sound, omega arith)
    Reaches-IsSound s _ keyless sound (then_step t u r step) =
        let (middle, grows) = Reaches-IsSound s t keyless sound r in
        let (after, grows') = step-IsSound t u keyless middle step in (after, omega arith)
