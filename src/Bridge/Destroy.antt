-- ===== src/Bridge/Destroy.antt =====
-- What a burn and a lock do to the coins: the amount is destroyed, and the ceth is paid.
use furynode.Prelude.{ℕ, ◌+◌, ◌≡◌, ap, none, some, List, [], ◌∷◌, String, arith}
use furynode.Prelude.Int.{ℤ}
use furynode.Prelude.Text.{Bytes}
use furynode.Chain.Action.{Action, ok, ◌>>=◌, ◌>>◌, >>=-eq-ok}
use furynode.Chain.Bank.{BankLaws, total_of, share}
use furynode.Bridge.Claim.{TransferMsg, ceth_symbol, module_name}
use furynode.Bridge.Keeper.{
  Externals, State, on_coins, coins_of, collect_and_burn, pay_ceth, get_ceth_receiver_account,
}

-- What a transfer takes across the bridge, of a denomination.
abbrev pub transferred : TransferMsg → String → ℕ
transferred m d = total_of d ((m.symbol, m.amount) ∷ [])

module _ (ext : Externals) (laws : BankLaws ext.bank) where
  open ext use {bank}
  open bank use {balance, supply, amount_of, module_address}

  -- The stores beside the coins are left alone.
  pub record SameRest (s t : State ext) : Type 0 where
    pub same_oracle : t.oracle_store ≡ s.oracle_store
    pub same_admin : t.admin_store ≡ s.admin_store
    pub same_bridge : t.bridge ≡ s.bridge

  -- A call on the coins that succeeds, as a call on the bank.
  pub on_coins-ok :
      (a : Action bank.Store (Unit {0})) (s t : State ext)
      → on_coins ext a s ≡ (ok tt, t)
      → (a s.coins ≡ (ok tt, t.coins)) × (t ≡ record s { coins = t.coins })
  on_coins-ok a s t h = ground arith

  pub coins_of-ok :
      (l : List (String × ℤ)) (c : bank.Coins) (s t : State ext)
      → coins_of ext l s ≡ (ok c, t)
      → (bank.new_coins l ≡ some c) × (t ≡ s)
  coins_of-ok l c s t h = ground arith

  abbrev pub home : Bytes
  home = module_address module_name

  -- The coins that leave the sender are `coins`, and what is destroyed is the amount.
  pub record Collected (sender : Bytes) (m : TransferMsg) (coins : bank.Coins) (s t : State ext)
      : Type 0 where
    pub destroyed : (d : String) → supply t.coins d + transferred m d ≡ supply s.coins d
    pub moved :
        (a : Bytes) (d : String)
        → balance t.coins a d + share sender a (amount_of coins d) + share home a (transferred m d)
          ≡ balance s.coins a d + share home a (amount_of coins d)
    pub rest : t ≡ record s { coins = t.coins }

  collect_and_burn-Collected :
      (sender : Bytes) (m : TransferMsg) (coins : bank.Coins) (s t : State ext)
      → collect_and_burn ext sender m coins s ≡ (ok tt, t)
      → Collected sender m coins s t
  unfolding collect_and_burn
  collect_and_burn-Collected sender m coins s t h =
      let send = bank.send_coins_from_account_to_module sender module_name coins in
      let make : Action (State ext) bank.Coins = coins_of ext ((m.symbol, m.amount) ∷ []) in
      let burn : bank.Coins → Action (State ext) (Unit {0}) =
        λ c. on_coins ext (bank.burn_coins module_name c) in
      let (_, u, e, h1) = >>=-eq-ok (on_coins ext send) (λ _. make >>= burn) s h in
      let (burned, v, f, h2) = >>=-eq-ok make burn u h1 in
      let (paid, pu) = on_coins-ok send s u e in
      let (made, vu) = coins_of-ok ((m.symbol, m.amount) ∷ []) burned u v f in
      let (burnt, tv) = on_coins-ok (bank.burn_coins module_name burned) v t h2 in
      let (sent, kept) = laws.to_module_pays sender module_name coins s.coins u.coins paid in
      record {
        destroyed = λ d. omega (
          arith,
          kept d,
          laws.supply-burn module_name burned v.coins t.coins burnt d,
          laws.amount_of-new_coins _ burned made d,
          ap (λ (x : State ext). supply x.coins d) vu,
        );
        moved = λ a d. omega (
          arith,
          sent a d,
          laws.balance-burn module_name burned v.coins t.coins burnt a d,
          ap (share home a) (laws.amount_of-new_coins _ burned made d),
          ap (λ (x : State ext). balance x.coins a d) vu,
        );
        rest = ground arith;
      }

  -- What a transfer costs its sender: the amount, and the ceth.
  abbrev pub cost : TransferMsg → String → ℕ
  cost m d = total_of d ((m.symbol, m.amount) ∷ (ceth_symbol, m.ceth_amount) ∷ [])

  -- Paying the ceth moves it to its receiver, and the coins that come back are the amount.
  pay_ceth-ok :
      (sender receiver : Bytes) (m : TransferMsg) (coins : bank.Coins) (s t : State ext)
      → pay_ceth ext sender m receiver s ≡ (ok coins, t)
      → ((d : String) → supply t.coins d ≡ supply s.coins d)
        × ((a : Bytes) (d : String)
            → balance t.coins a d + share sender a (total_of d ((ceth_symbol, m.ceth_amount) ∷ []))
              ≡ balance s.coins a d
                + share receiver a (total_of d ((ceth_symbol, m.ceth_amount) ∷ [])))
        × ((d : String) → amount_of coins d ≡ transferred m d)
        × (t ≡ record s { coins = t.coins })
  unfolding pay_ceth
  pay_ceth-ok sender receiver m coins s t h =
      let make : Action (State ext) bank.Coins = coins_of ext ((ceth_symbol, m.ceth_amount) ∷ []) in
      let send : bank.Coins → Action (State ext) (Unit {0}) =
        λ c. on_coins ext (bank.send_coins sender receiver c) in
      let amount : Action (State ext) bank.Coins = coins_of ext ((m.symbol, m.amount) ∷ []) in
      let (ceth, u, e, h1) = >>=-eq-ok make (λ c. send c >> amount) s h in
      let (_, v, f, h2) = >>=-eq-ok (send ceth) (λ _. amount) u h1 in
      let (made, us) = coins_of-ok ((ceth_symbol, m.ceth_amount) ∷ []) ceth s u e in
      let (paid, vu) = on_coins-ok (bank.send_coins sender receiver ceth) u v f in
      let (made', tv) = coins_of-ok ((m.symbol, m.amount) ∷ []) coins v t h2 in
      let (sent, kept) = laws.send_pays sender receiver ceth u.coins v.coins paid in
      (
        (λ d. omega (
          arith,
          kept d,
          ap (λ (x : State ext). supply x.coins d) us,
          ap (λ (x : State ext). supply x.coins d) tv,
        )),
        (λ a d. omega (
          arith,
          sent a d,
          ap (share sender a) (laws.amount_of-new_coins _ ceth made d),
          ap (share receiver a) (laws.amount_of-new_coins _ ceth made d),
          ap (λ (x : State ext). balance x.coins a d) us,
          ap (λ (x : State ext). balance x.coins a d) tv,
        )),
        (λ d. laws.amount_of-new_coins _ coins made' d),
        ground arith,
      )

  -- Who gets the ceth of a transfer: the receiver account, or the module where none is set.
  abbrev pub payee : State ext → Bytes
  payee s = elim (get_ceth_receiver_account ext s.bridge) [ none ↦ home | some r ↦ r ]

  abbrev pub ceth_of : TransferMsg → String → ℕ
  ceth_of m d = total_of d ((ceth_symbol, m.ceth_amount) ∷ [])

  -- The amount is destroyed, the sender pays it and the ceth, the payee gets the ceth, and nothing
  -- else changes.
  pub record IsCharged (sender : Bytes) (m : TransferMsg) (s t : State ext) : Type 0 where
    pub destroyed : (d : String) → supply t.coins d + transferred m d ≡ supply s.coins d
    pub paid :
        (a : Bytes) (d : String)
        → balance t.coins a d + share sender a (cost m d)
          ≡ balance s.coins a d + share (payee s) a (ceth_of m d)
    pub rest : t ≡ record s { coins = t.coins }

  -- The ceth was paid first.
  pub IsCharged-some :
      (sender r : Bytes) (m : TransferMsg) (coins : bank.Coins) (s u t : State ext)
      → get_ceth_receiver_account ext s.bridge ≡ some r
      → pay_ceth ext sender m r s ≡ (ok coins, u)
      → collect_and_burn ext sender m coins u ≡ (ok tt, t)
      → IsCharged sender m s t
  IsCharged-some sender r m coins s u t set h k =
      let (kept, sent, amounts, us) = pay_ceth-ok sender r m coins s u h in
      let c = collect_and_burn-Collected sender m coins u t k in
      record {
        destroyed = λ d. omega (arith, kept d, c.destroyed d);
        paid = λ a d. ground (arith, sent a d, c.moved a d, amounts d);
        rest = ground (arith, c.rest);
      }

  -- The module takes the ceth with the amount.
  pub IsCharged-none :
      (sender : Bytes) (m : TransferMsg) (coins : bank.Coins) (s t : State ext)
      → get_ceth_receiver_account ext s.bridge ≡ none
      → ((d : String) → amount_of coins d ≡ cost m d)
      → collect_and_burn ext sender m coins s ≡ (ok tt, t)
      → IsCharged sender m s t
  IsCharged-none sender m coins s t unset amounts k =
      let c = collect_and_burn-Collected sender m coins s t k in
      record {
        destroyed = c.destroyed;
        paid = λ a d. ground (arith, c.moved a d, amounts d);
        rest = c.rest;
      }
