-- ===== src/Tests/Ledger.antt =====
-- A concrete ledger in the place of the bank keeper, with the laws of `BankLaws`.
use furynode.Prelude.{
  ℕ, ◌+◌, ◌-◌, ◌≤◌, ◌≡◌, refl, sym, ap, subst, ◌⊎◌, inl, inr, Bool, true, ◌&&◌, some, List, [], ◌∷◌,
  String, leb, arith, Bool-cases, if◌then◌else◌,
}
use furynode.Prelude.Int.{ℤ}
use furynode.Prelude.Text.{Bytes, bytes_eq, bytes_eq_iff, str_eq, str_eq_iff}
use furynode.Chain.Action.{Action, ok, err, Error}
use furynode.Chain.Bank.{Bank, BankLaws, total_of, share, Pays}

-- What each account holds of each denomination, and the supply.
pub record Accounts : Type 0 where
  pub held : Bytes → String → ℕ
  pub supplied : String → ℕ

abbrev pub Coins : Type 0
Coins = List (String × ℤ)

-- Whether `have` is enough for the coins, at each denomination that `l` names.
abbrev covers : (String → ℕ) → Coins → Coins → Bool
covers have c [] = true
covers have c ((d, x) ∷ l) = leb (total_of d c) (have d) && covers have c l

absent_or_covered :
    (have : String → ℕ) (c l : Coins) (d : String)
    → covers have c l ≡ true
    → (total_of d l ≡ 0) ⊎ (total_of d c ≤ have d)
absent_or_covered have c [] d h = inl refl
absent_or_covered have c ((e, x) ∷ l) d h = elim (Bool-cases (str_eq e d)) [
  | inl same ↦ inr (subst (λ d. total_of d c ≤ have d) ((str_eq_iff e d).0 same) (ground arith))
  | inr other ↦ ground (arith, absent_or_covered have c l d)
]

covered :
    (have : String → ℕ) (c : Coins) (d : String) → covers have c c ≡ true → total_of d c ≤ have d
covered have c d h = ground (arith, absent_or_covered have c c d h)

abbrev home : String → Bytes
home m = 0 ∷ []

abbrev credit : Bytes → Coins → Accounts → Accounts
credit b c s = record s { held = λ a d. s.held a d + share b a (total_of d c) }

abbrev debit : Bytes → Coins → Accounts → Accounts
debit b c s = record s { held = λ a d. s.held a d - share b a (total_of d c) }

abbrev mint : String → Coins → Action Accounts (Unit {0})
mint m c s =
    let t = credit (home m) c s in (ok tt, record t { supplied = λ d. s.supplied d + total_of d c })

abbrev burn : String → Coins → Action Accounts (Unit {0})
burn m c s =
    if covers (s.held (home m)) c c && covers s.supplied c c
    then (let t = debit (home m) c s in
        (ok tt, record t { supplied = λ d. s.supplied d - total_of d c }))
    else (err Error.sdk_error, s)

abbrev send : Bytes → Bytes → Coins → Action Accounts (Unit {0})
send a b c s =
    if covers (s.held a) c c then (ok tt, credit b c (debit a c s)) else (err Error.sdk_error, s)

abbrev pub bank : Bank
bank = record {
  Store = Accounts;
  Coins = Coins;
  new_coins = some;
  amount_of = λ c d. total_of d c;
  balance = λ s. s.held;
  supply = λ s. s.supplied;
  module_address = home;
  mint_coins = mint;
  burn_coins = burn;
  send_coins = send;
  send_coins_from_account_to_module = λ a m. send a (home m);
  send_coins_from_module_to_account = λ m. send (home m);
}

share_covered :
    (b a : Bytes) (d : String) (c : Coins) (s : Accounts)
    → covers (s.held b) c c ≡ true
    → share b a (total_of d c) ≤ s.held a d
share_covered b a d c s h = elim (Bool-cases (bytes_eq b a)) [
  | inl same ↦ rw same (
      subst (λ x. total_of d c ≤ s.held x d) ((bytes_eq_iff b a).0 same) (covered (s.held b) c d h))
  | inr other ↦ rw other (omega arith)
]

send-Pays :
    (a b : Bytes) (c : Coins) (s t : Accounts) → send a b c s ≡ (ok tt, t) → Pays bank a b c s t
send-Pays a b c s t h = elim (Bool-cases (covers (s.held a) c c)) [
  | inr short ↦ absurd (ground arith)
  | inl enough ↦
      let f : credit b c (debit a c s) ≡ t = ground arith in
      subst (Pays bank a b c s) f
        ((λ x d. omega (arith, share_covered a x d c s enough)), (λ d. refl))
]

abbrev burned : String → Coins → Accounts → Accounts
burned m c s =
    let t = debit (home m) c s in record t { supplied = λ d. s.supplied d - total_of d c }

burn-burned :
    (m : String) (c : Coins) (s t : Accounts)
    → burn m c s ≡ (ok tt, t)
    → (covers (s.held (home m)) c c ≡ true) × (covers s.supplied c c ≡ true) × (burned m c s ≡ t)
burn-burned m c s t h = ground arith

pub bank_laws : BankLaws bank
bank_laws = record {
  amount_of-new_coins = λ l c h d. let e : l ≡ c = ground arith in ap (total_of d) (sym e);
  supply-mint = λ m c s t h d. ap (λ x. x.1.supplied d) (sym h);
  balance-mint = λ m c s t h a d. ap (λ x. x.1.held a d) (sym h);
  supply-burn = λ m c s t h d.
      let (held, supplied, e) = burn-burned m c s t h in
      omega (arith, covered s.supplied c d supplied, ap (λ (x : Accounts). x.supplied d) e);
  balance-burn = λ m c s t h a d.
      let (held, supplied, e) = burn-burned m c s t h in
      omega (arith, share_covered (home m) a d c s held, ap (λ (x : Accounts). x.held a d) e);
  send_pays = send-Pays;
  to_module_pays = λ a m. send-Pays a (home m);
  from_module_pays = λ m. send-Pays (home m);
}
