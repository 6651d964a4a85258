-- ===== src/Bridge/Mint.antt =====
-- What a successful prophecy does to the coins: it mints what the claim says, for its receiver.
use Prim.Native.String.{◌++◌ as text_append}
use furynode.Prelude.{ℕ, ◌+◌, ◌≡◌, refl, ap, true, some, List, [], ◌∷◌, ◌++◌, String, arith}
use furynode.Prelude.Int.{ℤ}
use furynode.Prelude.Text.{Bytes, str_eq_iff, contains}
use furynode.Chain.Action.{Action, Outcome, ok, err, panic, ◌>>=◌, ◌>>◌, >>=-eq-ok, pure}
use furynode.Chain.Bank.{BankLaws, total_of, share}
use furynode.Bridge.Claim.{
  ClaimType, burn, lock, unspecified, OracleClaimContent, create_oracle_claim_from_oracle_string,
  pegged_coin_prefix, module_name,
}
use furynode.Bridge.Keeper.{
  BridgeStore, Externals, State, on_coins, coins_of, must, exists_peggy_token, add_peggy_token,
  mint_claim, process_successful_claim,
}
use furynode.Bridge.Destroy.{on_coins-ok, coins_of-ok}

contains-snoc : (k : String) (l : List String) → contains k (l ++ k ∷ []) ≡ true
unfolding contains
contains-snoc k [] = ground (arith, str_eq_iff k k)
contains-snoc k (x ∷ l) = ground (arith, contains-snoc k l)

-- The denomination that a claim mints: a locked token comes as its pegged one.
abbrev pub minted_denom : OracleClaimContent → String
minted_denom c = elim c.claim_type [
  | lock ↦ text_append pegged_coin_prefix c.symbol
  | burn ↦ c.symbol
  | unspecified ↦ c.symbol
]

module _ (ext : Externals) (laws : BankLaws ext.bank) where
  open ext use {bank}
  open bank use {balance, supply, amount_of, module_address}

  -- What a claim mints, of a denomination.
  abbrev pub minted : OracleClaimContent → String → ℕ
  minted c d = total_of d ((minted_denom c, c.amount) ∷ [])

  add_peggy_token-exists :
      (token : String) (b : BridgeStore)
      → exists_peggy_token ext (add_peggy_token ext token b).1 token ≡ true
  unfolding add_peggy_token exists_peggy_token
  add_peggy_token-exists token b = ground (arith, contains-snoc token b.peggy_tokens)

  -- The end of both branches: the coins are made and minted.
  abbrev make_and_mint : List (String × ℤ) → Action (State ext) bank.Coins
  make_and_mint l = coins_of ext l >>= λ c. on_coins ext (bank.mint_coins module_name c) >> pure c

  make_and_mint-ok :
      (l : List (String × ℤ)) (c : bank.Coins) (s t : State ext)
      → make_and_mint l s ≡ (ok c, t)
      → (bank.new_coins l ≡ some c)
        × (bank.mint_coins module_name c s.coins ≡ (ok tt, t.coins))
        × (t ≡ record s { coins = t.coins })
  make_and_mint-ok l c s t h =
      let put : bank.Coins → Action (State ext) (Unit {0}) =
        λ c. on_coins ext (bank.mint_coins module_name c) in
      let (made, u, e, k) = >>=-eq-ok (coins_of ext l) (λ c. put c >> pure c) s h in
      let (x, v, f, k') = >>=-eq-ok (put made) (λ _. pure made) u k in
      let (fresh, us) = coins_of-ok ext laws l made s u e in
      let (paid, vu) = on_coins-ok ext laws (bank.mint_coins module_name made) u v f in
      (ground arith, ground arith, ground arith)

  -- What is minted, and into which account: the amount of the claim exists anew, the receiver has
  -- it, and the module's account is as it was.
  pub record IsMinted (c : OracleClaimContent) (s t : State ext) : Type 0 where
    pub created : (d : String) → supply t.coins d ≡ supply s.coins d + minted c d
    pub received :
        (a : Bytes) (d : String)
        → balance t.coins a d ≡ balance s.coins a d + share c.cosmos_receiver a (minted c d)
    pub same_oracle : t.oracle_store ≡ s.oracle_store
    pub same_admin : t.admin_store ≡ s.admin_store
    pub pegged : c.claim_type ≡ lock → exists_peggy_token ext t.bridge (minted_denom c) ≡ true

  -- The coins of a claim, in the module's account.
  record IsMade (c : OracleClaimContent) (coins : bank.Coins) (s t : State ext) : Type 0 where
    fresh : bank.new_coins ((minted_denom c, c.amount) ∷ []) ≡ some coins
    made : bank.mint_coins module_name coins s.coins ≡ (ok tt, t.coins)
    same_oracle : t.oracle_store ≡ s.oracle_store
    same_admin : t.admin_store ≡ s.admin_store
    pegged : c.claim_type ≡ lock → exists_peggy_token ext t.bridge (minted_denom c) ≡ true

  mint_claim-IsMade :
      (c : OracleClaimContent) (coins : bank.Coins) (s t : State ext)
      → mint_claim ext c s ≡ (ok coins, t)
      → IsMade c coins s t
  unfolding mint_claim
  mint_claim-IsMade c coins s t h = go c.claim_type refl
    where
      go : (k : ClaimType) → c.claim_type ≡ k → IsMade c coins s t
      go unspecified e = absurd (ground arith)
      go burn e =
          let (fresh, made, tu) =
            make_and_mint-ok ((c.symbol, c.amount) ∷ []) coins s t (ground arith) in
          record {
            fresh = ground arith;
            made = made;
            same_oracle = ground arith;
            same_admin = ground arith;
            pegged = λ l. absurd (ground arith);
          }
      go lock e =
          let token = text_append pegged_coin_prefix c.symbol in
          let u : State ext = record s { bridge = (add_peggy_token ext token s.bridge).1 } in
          let (fresh, made, tu) =
            make_and_mint-ok ((token, c.amount) ∷ []) coins u t (ground arith) in
          record {
            fresh = ground arith;
            made = made;
            same_oracle = ground arith;
            same_admin = ground arith;
            pegged = λ l. ground (arith, add_peggy_token-exists token s.bridge);
          }

  sent :
      (c : OracleClaimContent) (coins : bank.Coins) (s u t : State ext)
      → IsMade c coins s u
      → must ext
          (on_coins ext
            (bank.send_coins_from_module_to_account module_name c.cosmos_receiver coins))
          u
        ≡ (ok tt, t)
      → IsMinted c s t
  sent c coins s u t m h =
      let send = bank.send_coins_from_module_to_account module_name c.cosmos_receiver coins in
      let (paid, tu) = on_coins-ok ext laws send u t (ground arith) in
      let (moved, kept) =
        laws.from_module_pays module_name c.cosmos_receiver coins u.coins t.coins paid in
      let amounts = laws.amount_of-new_coins _ coins m.fresh in
      record {
        created = λ d.
            omega (
              arith,
              kept d,
              laws.supply-mint module_name coins s.coins u.coins m.made d,
              amounts d,
            );
        received = λ a d. omega (
          arith,
          moved a d,
          laws.balance-mint module_name coins s.coins u.coins m.made a d,
          ap (share c.cosmos_receiver a) (amounts d),
        );
        same_oracle = ground (arith, m.same_oracle);
        same_admin = ground (arith, m.same_admin);
        pegged = λ l. ground (arith, m.pegged l);
      }

  -- With a bank that keeps its laws, a successful prophecy that is processed without an error was
  -- of a claim that decodes, and it mints the amount of that claim, all of it for the receiver; the
  -- token of a lock is pegged from then on.
  pub process_successful_claim-IsMinted :
      (claim : String) (s t : State ext)
      → process_successful_claim ext claim s ≡ (ok tt, t)
      → (c : OracleClaimContent) × (create_oracle_claim_from_oracle_string ext.codec claim ≡ ok c)
        × IsMinted c s t
  unfolding process_successful_claim
  process_successful_claim-IsMinted claim s t h = go _ refl
    where
      go :
          (o : Outcome OracleClaimContent)
          → create_oracle_claim_from_oracle_string ext.codec claim ≡ o
          → (c : OracleClaimContent) × (create_oracle_claim_from_oracle_string ext.codec claim
              ≡ ok c)
            × IsMinted c s t
      go (ok c) e =
          let send : bank.Coins → Action (State ext) (Unit {0}) = λ coins. must ext (
            on_coins ext
              (bank.send_coins_from_module_to_account module_name c.cosmos_receiver coins)) in
          let (coins, u, f, k) = >>=-eq-ok (mint_claim ext c) send s (ground arith) in
          (c, e, sent c coins s u t (mint_claim-IsMade c coins s u f) k)
      go (err x) e = absurd (ground arith)
      go panic e = absurd (ground arith)
