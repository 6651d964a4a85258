-- ===== src/Dispensation/Progress.antt =====
-- The minting goes on to the cap: what a number of blocks brings the counter to.
use furynode.Prelude.{
  ℕ, zero, suc, ◌+◌, ◌-◌, ◌*◌, ◌≤◌, ◌<◌, ◌≡◌, ◌≢◌, refl, ap, ◌∙◌, inl, inr, true, some, [], ◌∷◌,
  arith, Bool-cases, if◌then◌else◌, ltb, leb,
}
use furynode.Prelude.Int.{pos, pos_part, ◌+ℤ◌, ◌-ℤ◌}
use furynode.Prelude.Text.{Bytes}
use furynode.Chain.Action.{Action, Outcome, ok, err, panic, ◌>>◌, pure}
use furynode.Dispensation.Records.{Externals}
use furynode.Dispensation.Keeper.{State}
use furynode.Dispensation.Executors.{module_name}
use furynode.Dispensation.Mint.{
  max_mint_amount, mint_amount_per_block, settlement_asset, eco_pool, set_mint_controller,
  add_mint_amount, tokens_can_be_minted, is_last_block, mint_amount, mint_to_pool, begin_blocker,
}
use furynode.Dispensation.Cap.{counter, pos_add}

abbrev cap : ℕ
cap = pos_part max_mint_amount

abbrev per_block : ℕ
per_block = pos_part mint_amount_per_block

-- The lesser of the cap and this number.
abbrev pub capped : ℕ → ℕ
capped n = if leb cap n then cap else n

-- An amount that a block may mint.
abbrev pub IsBlockAmount : ℕ → Type 0
IsBlockAmount n = (zero < n) × (n ≤ per_block)

module _ (ext : Externals) where
  open ext use {bank, bech32}

  -- The beginnings of this many blocks.
  unfoldable pub begin_blocks : ℕ → Action (State ext) (Unit {0})
  unfolding begin_blocker
  begin_blocks zero = pure tt
  begin_blocks (suc k) = begin_blocker ext >> begin_blocks k

  -- The coins of a block are valid, the bank mints them, and the address of the pool decodes; a
  -- payment of the bank does not panic.
  pub record IsWilling : Type 0 where
    pub coins_of : ℕ → bank.Coins
    pub made :
        (n : ℕ)
        → IsBlockAmount n
        → bank.new_coins ((settlement_asset, pos n) ∷ []) ≡ some (coins_of n)
    pub valid : (n : ℕ) → IsBlockAmount n → ext.is_valid (coins_of n) ≡ true
    pub mints :
        (n : ℕ) (s : bank.Store)
        → IsBlockAmount n
        → (t : bank.Store) × (bank.mint_coins module_name (coins_of n) s ≡ (ok tt, t))
    pub pool : Bytes
    pub decoded : bech32.acc_from_bech32 eco_pool ≡ some pool
    pub pays :
        (n : ℕ) (s t : bank.Store)
        → bank.send_coins_from_module_to_account module_name pool (coins_of n) s ≢ (panic, t)

  module _ (willing : IsWilling) where
    open willing use {coins_of, made, valid, mints, pool, decoded, pays}

    mint_amount-capped :
        (c : ℕ) (s : State ext)
        → s.mint_controller ≡ counter ext c
        → c ≤ cap
        → mint_amount ext s ≡ some (pos (capped (c + per_block) - c))
    unfolding mint_amount is_last_block ◌-ℤ◌
    mint_amount-capped c s counted below = ground arith

    mint_to_pool-counts :
        (c n : ℕ) (s : State ext)
        → s.mint_controller ≡ counter ext c
        → IsBlockAmount n
        → (t : State ext) × (mint_to_pool ext true (pos n) (coins_of n) s ≡ (ok tt, t))
          × (t.mint_controller ≡ counter ext (c + n))
    unfolding mint_to_pool add_mint_amount set_mint_controller
    mint_to_pool-counts c n s counted bound =
        let (v, minted) = mints n s.coins bound in go v minted _ _ refl
      where
        go :
            (v : bank.Store)
            → bank.mint_coins module_name (coins_of n) s.coins ≡ (ok tt, v)
            → (x : Outcome (Unit {0})) (w : bank.Store)
            → bank.send_coins_from_module_to_account module_name pool (coins_of n) v ≡ (x, w)
            → (t : State ext) × (mint_to_pool ext true (pos n) (coins_of n) s ≡ (ok tt, t))
              × (t.mint_controller ≡ counter ext (c + n))
        go v minted (ok _) w sent = (
          record s {
            coins = w;
            mint_controller = some (record { denom = settlement_asset; amount = pos c +ℤ pos n });
          },
          ground (arith, decoded),
          ap (λ a. some (record { denom = settlement_asset; amount = a })) (pos_add ext c n),
        )
        go v minted (err x) w sent = (
          record s {
            coins = w;
            mint_controller = some (record { denom = settlement_asset; amount = pos c +ℤ pos n });
          },
          ground (arith, decoded),
          ap (λ a. some (record { denom = settlement_asset; amount = a })) (pos_add ext c n),
        )
        go v minted panic w sent = absurd (pays n v w sent)

    begin_blocker-counts :
        (c : ℕ) (s : State ext)
        → s.mint_controller ≡ counter ext c
        → c ≤ cap
        → (t : State ext) × (begin_blocker ext s ≡ (ok tt, t))
          × (t.mint_controller ≡ counter ext (capped (c + per_block)))
    unfolding begin_blocker tokens_can_be_minted
    begin_blocker-counts c s counted below = elim (Bool-cases (ltb c cap)) [
      | inr full ↦ (s, ground arith, counted ∙ ap (counter ext) (ground arith))
      | inl more ↦
          let n = capped (c + per_block) - c in
          let bound : IsBlockAmount n = (ground arith, ground arith) in
          let (t, run, after) = mint_to_pool-counts c n s counted bound in
          let amount = mint_amount-capped c s counted below in
          (t, ground (arith, made n bound, valid n bound), after ∙ ap (counter ext) (ground arith))
    ]

    -- Where the coins of a block are valid, the bank mints them and does not panic on the
    -- payment, and the address of the pool decodes, the beginnings of any number of blocks
    -- return, from a counter at or below the cap, and bring the counter to what it was plus the
    -- amount of a block for each, or to the cap where that is more: the minting does not stop
    -- short of the cap, and ends there.
    pub begin_blocks-counter :
        (k c : ℕ) (s : State ext)
        → s.mint_controller ≡ counter ext c
        → c ≤ cap
        → (t : State ext) × (begin_blocks k s ≡ (ok tt, t))
          × (t.mint_controller ≡ counter ext (capped (c + k * per_block)))
    unfolding begin_blocks
    begin_blocks-counter zero c s counted below =
        (s, refl, counted ∙ ap (counter ext) (ground arith))
    begin_blocks-counter (suc k) c s counted below =
        let (t, run, next) = begin_blocker-counts c s counted below in
        let (u, rest, last) =
          begin_blocks-counter k (capped (c + per_block)) t next (ground arith) in
        (u, ground arith, last ∙ ap (counter ext) (ground arith))
