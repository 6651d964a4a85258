-- ===== src/Dispensation/Cap.antt =====
-- The minting at the beginning of a block: how much, and when it ends.
use furynode.Prelude.{
  ℕ, ◌+◌, ◌-◌, ◌≤◌, ◌≡◌, refl, ap, subst, ◌∙◌, ◌⊎◌, inl, inr, Bool, true, false, ◌&&◌, Option, some,
  [], ◌∷◌, String, arith, Bool-cases, Option-cases, if◌then◌else◌, ltb,
}
use furynode.Prelude.Int.{ℤ, pos, pos_part, ◌+ℤ◌, ◌-ℤ◌, ltb_ℤ}
use furynode.Prelude.Text.{Bytes, str_eq}
use furynode.Chain.Action.{Outcome, ok, err, panic}
use furynode.Chain.Bank.{BankLaws, RefusalLaws, share_self}
use furynode.Dispensation.Records.{Externals}
use furynode.Dispensation.Keeper.{State, Coin}
use furynode.Dispensation.Executors.{module_name}
use furynode.Dispensation.Mint.{
  max_mint_amount, mint_amount_per_block, settlement_asset, eco_pool, set_mint_controller,
  add_mint_amount, tokens_can_be_minted, is_last_block, mint_amount, mint_to_pool, begin_blocker,
}
use furynode.Dispensation.Reserve.{held}

module _ (ext : Externals) where
  open ext use {bank, bech32}
  open bank use {balance, amount_of, module_address, supply}

  -- The counter of the minted coins.
  abbrev pub counter : ℕ → Option Coin
  counter n = some (record { denom = settlement_asset; amount = pos n })

  -- What a beginning of a block does to the counter, the supply, the module's coins and its records.
  pub record IsMinted (c n : ℕ) (s t : State ext) : Type 0 where
    pub counted : t.mint_controller ≡ counter (c + n)
    pub supplied :
        (d : String)
        → supply t.coins d ≡ supply s.coins d + (if str_eq settlement_asset d then n else 0)
    pub kept : (d : String) → held ext d s ≤ held ext d t
    pub pending_same : t.pending_records ≡ s.pending_records
    pub failed_same : t.failed_records ≡ s.failed_records

  pub pos_add : (a b : ℕ) → pos a +ℤ pos b ≡ pos (a + b)
  unfolding ◌+ℤ◌
  pos_add a b = ground arith

  unminted : (c : ℕ) (s : State ext) → s.mint_controller ≡ counter c → IsMinted c 0 s s
  unminted c s h = record {
    counted = h ∙ ap counter (omega arith);
    supplied = λ d. ground arith;
    kept = λ d. omega arith;
    pending_same = refl;
    failed_same = refl;
  }

  module _ (laws : BankLaws bank) (refusals : RefusalLaws bank) where
    -- The store after a minting, with the coins that it left.
    abbrev minted_state : ℕ → ℕ → State ext → bank.Store → State ext
    minted_state c n s w = record s {
      coins = w;
      mint_controller = some (record { denom = settlement_asset; amount = pos c +ℤ pos n });
    }

    minted_state-IsMinted :
        (c n : ℕ) (s : State ext) (w : bank.Store)
        → ((d : String)
            → supply w d ≡ supply s.coins d + (if str_eq settlement_asset d then n else 0))
        → ((d : String) → held ext d s ≤ balance w (module_address module_name) d)
        → IsMinted c n s (minted_state c n s w)
    minted_state-IsMinted c n s w supplied kept = record {
      counted =
          ap (λ (a : ℤ). some (record { denom = settlement_asset; amount = a })) (pos_add c n);
      supplied = supplied;
      kept = kept;
      pending_same = refl;
      failed_same = refl;
    }

    -- The coins are minted and sent on, or stay with the module.
    sent-IsMinted :
        (c n : ℕ) (pool : Bytes) (coins : bank.Coins) (s t : State ext) (v w : bank.Store)
        (o : Outcome (Unit {0}))
        → s.mint_controller ≡ counter c
        → ((d : String) → amount_of coins d ≡ (if str_eq settlement_asset d then n else 0))
        → bech32.acc_from_bech32 eco_pool ≡ some pool
        → bank.mint_coins module_name coins s.coins ≡ (ok tt, v)
        → bank.send_coins_from_module_to_account module_name pool coins v ≡ (o, w)
        → mint_to_pool ext true (pos n) coins s ≡ (ok tt, t)
        → IsMinted c n s t
    unfolding mint_to_pool add_mint_amount set_mint_controller
    sent-IsMinted c n pool coins s t v w (ok _) counted amounts decoded minted sent h =
        let e : minted_state c n s w ≡ t = ground arith in
        let home = module_address module_name in
        let (moved, same) = laws.from_module_pays module_name pool coins v w sent in
        subst (IsMinted c n s) e (
          minted_state-IsMinted c n s w
            (λ d.
              same d
              ∙ laws.supply-mint module_name coins s.coins v minted d
              ∙ ap (λ x. supply s.coins d + x) (amounts d))
            (λ d. omega (
              arith,
              moved home d,
              laws.balance-mint module_name coins s.coins v minted home d,
              share_self home (amount_of coins d),
            )))
    sent-IsMinted c n pool coins s t v w (err x) counted amounts decoded minted sent h =
        let e : minted_state c n s w ≡ t = ground arith in
        let home = module_address module_name in
        let got = λ (d : String). laws.balance-mint module_name coins s.coins v minted home d in
        let (still, same) =
          refusals.from_module_refused module_name pool coins v w x sent
            (λ d. omega (arith, got d, share_self home (amount_of coins d))) in
        subst (IsMinted c n s) e (
          minted_state-IsMinted c n s w
            (λ d.
              same d
              ∙ laws.supply-mint module_name coins s.coins v minted d
              ∙ ap (λ x. supply s.coins d + x) (amounts d))
            (λ d. omega (arith, still home d, got d)))
    sent-IsMinted c n pool coins s t v w panic counted amounts decoded minted sent h =
        absurd (ground arith)

    -- The coins are not valid, or the pool's address does not decode, or the minting is refused.
    mint_to_pool-IsMinted :
        (c n : ℕ) (valid : Bool) (coins : bank.Coins) (s t : State ext)
        → s.mint_controller ≡ counter c
        → ((d : String) → amount_of coins d ≡ (if str_eq settlement_asset d then n else 0))
        → mint_to_pool ext valid (pos n) coins s ≡ (ok tt, t)
        → IsMinted c n s t ⊎ IsMinted c 0 s t
    unfolding mint_to_pool
    mint_to_pool-IsMinted c n false coins s t counted amounts h =
        inr (subst (IsMinted c 0 s) (ground arith) (unminted c s counted))
    mint_to_pool-IsMinted c n true coins s t counted amounts h =
        elim (Option-cases (bech32.acc_from_bech32 eco_pool)) [
          | inl missing ↦
              let e : s ≡ t = ground arith in inr (subst (IsMinted c 0 s) e (unminted c s counted))
          | inr (pool, decoded) ↦ go pool decoded _ _ refl
        ]
      where
        go :
            (pool : Bytes)
            → bech32.acc_from_bech32 eco_pool ≡ some pool
            → (o : Outcome (Unit {0})) (v : bank.Store)
            → bank.mint_coins module_name coins s.coins ≡ (o, v)
            → IsMinted c n s t ⊎ IsMinted c 0 s t
        go pool decoded (ok _) v minted =
            inl (sent-IsMinted c n pool coins s t v _ _ counted amounts decoded minted refl h)
        go pool decoded (err x) v refused =
            let (still, same) = refusals.mint_refused module_name coins s.coins v x refused in
            let e : record s { coins = v } ≡ t = ground arith in
            inr (
              subst (IsMinted c 0 s) e (record {
                counted = counted ∙ ap counter (omega arith);
                supplied = λ d. ground (arith, same d);
                kept = λ d. omega (arith, still (module_address module_name) d);
                pending_same = refl;
                failed_same = refl;
              }))
        go pool decoded panic v stopped = absurd (ground arith)

    -- What a block mints: at most the amount of a block, and at most what is left below the cap.
    mint_amount-bounds :
        (c : ℕ) (a : ℤ) (s : State ext)
        → s.mint_controller ≡ counter c
        → c ≤ pos_part max_mint_amount
        → mint_amount ext s ≡ some a
        → (n : ℕ) × (a ≡ pos n)
          × (n ≤ pos_part mint_amount_per_block)
          × (c + n ≤ pos_part max_mint_amount)
    unfolding mint_amount is_last_block ◌-ℤ◌
    mint_amount-bounds c a s counted below h = elim (Bool-cases (is_last_block ext s)) [
      | inl last ↦ (pos_part max_mint_amount - c, ground arith, ground arith, ground arith)
      | inr more ↦ (pos_part mint_amount_per_block, ground arith, omega arith, ground arith)
    ]

    begin_blocker-cases :
        (c : ℕ) (s t : State ext)
        → s.mint_controller ≡ counter c
        → begin_blocker ext s ≡ (ok tt, t)
        → (s ≡ t)
          ⊎ ((a : ℤ) × (coins : bank.Coins) × (valid : Bool) × (mint_amount ext s ≡ some a)
              × (bank.new_coins ((settlement_asset, a) ∷ []) ≡ some coins)
              × (mint_to_pool ext valid a coins s ≡ (ok tt, t)))
    unfolding begin_blocker tokens_can_be_minted
    begin_blocker-cases c s t counted h = elim (Bool-cases (ltb c (pos_part max_mint_amount))) [
      | inr full ↦ inl (ground arith)
      | inl more ↦ elim (Option-cases (mint_amount ext s)) [
        | inl n ↦ inl (ground arith)
        | inr (a, e) ↦ elim (Option-cases (bank.new_coins ((settlement_asset, a) ∷ []))) [
          | inl stopped ↦ absurd (ground arith)
          | inr (coins, made) ↦
              inr (a, coins, ext.is_valid coins && ltb_ℤ (pos 0) a, e, made, ground arith)
        ]
      ]
    ]

    coins-amounts :
        (n : ℕ) (coins : bank.Coins)
        → bank.new_coins ((settlement_asset, pos n) ∷ []) ≡ some coins
        → (d : String) → amount_of coins d ≡ (if str_eq settlement_asset d then n else 0)
    coins-amounts n coins made d =
        laws.amount_of-new_coins ((settlement_asset, pos n) ∷ []) coins made d ∙ omega arith

    -- With a bank and refusals that keep their laws, where the counter stands at or below the
    -- cap, the beginning of a block that returns adds an amount, at most that of a block and with
    -- the counter at most the cap, to the counter and to the supply of fury; no other supply
    -- changes, the account of the module loses nothing, and no pending and no failed record
    -- changes.
    pub begin_blocker-IsMinted :
        (c : ℕ) (s t : State ext)
        → s.mint_controller ≡ counter c
        → c ≤ pos_part max_mint_amount
        → begin_blocker ext s ≡ (ok tt, t)
        → (n : ℕ) × (n ≤ pos_part mint_amount_per_block)
          × (c + n ≤ pos_part max_mint_amount)
          × IsMinted c n s t
    begin_blocker-IsMinted c s t counted below h = elim (begin_blocker-cases c s t counted h) [
      | inl same ↦ (0, omega arith, omega arith, subst (IsMinted c 0 s) same (unminted c s counted))
      | inr (a, coins, valid, e, made, run) ↦
          let (n, is_pos, small, capped) = mint_amount-bounds c a s counted below e in
          let made' : bank.new_coins ((settlement_asset, pos n) ∷ []) ≡ some coins =
            subst (λ a. bank.new_coins ((settlement_asset, a) ∷ []) ≡ some coins) is_pos made in
          let run' : mint_to_pool ext valid (pos n) coins s ≡ (ok tt, t) =
            subst (λ a. mint_to_pool ext valid a coins s ≡ (ok tt, t)) is_pos run in
          elim (mint_to_pool-IsMinted c n valid coins s t counted (coins-amounts n coins made')
            run') [
              | inl minted ↦ (n, small, capped, minted)
              | inr refused ↦ (0, omega arith, omega arith, refused)
            ]
    ]
