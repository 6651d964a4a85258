-- ===== src/Chain/Bank.antt =====
-- The bank keeper of the SDK (x/ethbridge/types/expected_keepers.go names the calls), as an
-- interface, and its documented laws.
use furynode.Prelude.{
  ℕ, false, ◌+◌, ◌≤◌, ◌≡◌, Option, some, List, [], ◌∷◌, String, arith, if◌then◌else◌,
}
use furynode.Prelude.Int.{ℤ, pos_part}
use furynode.Prelude.Text.{Bytes, bytes_eq, bytes_eq_iff, str_eq}
use furynode.Chain.Action.{Action, ok, err, Error}

pub record Bank : Type 1 where
  pub Store : Type 0
  pub Coins : Type 0
  -- `sdk.NewCoins(sdk.NewCoin(denom, amount), …)`; `none` is its panic.
  pub new_coins : List (String × ℤ) → Option Coins
  pub amount_of : Coins → String → ℕ
  pub balance : Store → Bytes → String → ℕ
  pub supply : Store → String → ℕ
  -- The account of a module, by the module's name.
  pub module_address : String → Bytes
  pub mint_coins : String → Coins → Action Store (Unit {0})
  pub burn_coins : String → Coins → Action Store (Unit {0})
  pub send_coins : Bytes → Bytes → Coins → Action Store (Unit {0})
  pub send_coins_from_account_to_module : Bytes → String → Coins → Action Store (Unit {0})
  pub send_coins_from_module_to_account : String → Bytes → Coins → Action Store (Unit {0})

-- What a list of coins holds of a denomination.
abbrev pub total_of : String → List (String × ℤ) → ℕ
total_of d [] = 0
total_of d ((e, x) ∷ l) = (if str_eq e d then pos_part x else 0) + total_of d l

-- `n` of an account, if it is this one.
abbrev pub share : Bytes → Bytes → ℕ → ℕ
share a b n = if bytes_eq a b then n else 0

pub share_self : (a : Bytes) (n : ℕ) → share a a n ≡ n
share_self a n = ground (arith, bytes_eq_iff a a)

pub share_other : (a b : Bytes) (n : ℕ) → bytes_eq a b ≡ false → share a b n ≡ 0
share_other a b n h = ground arith

module _ (bank : Bank) where
  open bank use {Store, Coins, amount_of, balance, supply}

  -- A payment moves the coins from one account to another, and leaves all else.
  abbrev pub Pays : Bytes → Bytes → Coins → Store → Store → Type 0
  Pays from to c s t =
      ((a : Bytes) (d : String)
        → balance t a d + share from a (amount_of c d) ≡ balance s a d + share to a (amount_of c d))
      × ((d : String) → supply t d ≡ supply s d)

  pub record BankLaws : Type 0 where
    pub amount_of-new_coins :
        (l : List (String × ℤ)) (c : Coins)
        → bank.new_coins l ≡ some c
        → (d : String) → amount_of c d ≡ total_of d l
    pub supply-mint :
        (m : String) (c : Coins) (s t : Store)
        → bank.mint_coins m c s ≡ (ok tt, t)
        → (d : String) → supply t d ≡ supply s d + amount_of c d
    pub balance-mint :
        (m : String) (c : Coins) (s t : Store)
        → bank.mint_coins m c s ≡ (ok tt, t)
        → (a : Bytes) (d : String)
        → balance t a d ≡ balance s a d + share (bank.module_address m) a (amount_of c d)
    pub supply-burn :
        (m : String) (c : Coins) (s t : Store)
        → bank.burn_coins m c s ≡ (ok tt, t)
        → (d : String) → supply t d + amount_of c d ≡ supply s d
    pub balance-burn :
        (m : String) (c : Coins) (s t : Store)
        → bank.burn_coins m c s ≡ (ok tt, t)
        → (a : Bytes) (d : String)
        → balance t a d + share (bank.module_address m) a (amount_of c d) ≡ balance s a d
    pub send_pays :
        (a b : Bytes) (c : Coins) (s t : Store)
        → bank.send_coins a b c s ≡ (ok tt, t)
        → Pays a b c s t
    pub to_module_pays :
        (a : Bytes) (m : String) (c : Coins) (s t : Store)
        → bank.send_coins_from_account_to_module a m c s ≡ (ok tt, t)
        → Pays a (bank.module_address m) c s t
    pub from_module_pays :
        (m : String) (b : Bytes) (c : Coins) (s t : Store)
        → bank.send_coins_from_module_to_account m b c s ≡ (ok tt, t)
        → Pays (bank.module_address m) b c s t

  -- A payment out of a module that is refused though the module holds the coins (the account is
  -- blocked) changes nothing; nor does a minting that is refused (the coins are not valid).
  pub record RefusalLaws : Type 0 where
    pub from_module_refused :
        (m : String) (b : Bytes) (c : Coins) (s t : Store) (e : Error)
        → bank.send_coins_from_module_to_account m b c s ≡ (err e, t)
        → ((d : String) → amount_of c d ≤ balance s (bank.module_address m) d)
        → ((a : Bytes) (d : String) → balance t a d ≡ balance s a d)
          × ((d : String) → supply t d ≡ supply s d)
    pub mint_refused :
        (m : String) (c : Coins) (s t : Store) (e : Error)
        → bank.mint_coins m c s ≡ (err e, t)
        → ((a : Bytes) (d : String) → balance t a d ≡ balance s a d)
          × ((d : String) → supply t d ≡ supply s d)
