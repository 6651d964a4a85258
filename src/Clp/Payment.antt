-- ===== src/Clp/Payment.antt =====
-- The payment in, at the beginning of a swap.

use furynode.Prelude.{
  ℕ, ◌+◌, ◌≡◌, subst, ◌⊎◌, inl, inr, true, false, Option, some, String, arith, Bool-cases,
  Option-cases,
}
use furynode.Prelude.Int.{ℤ, pos}
use furynode.Prelude.Text.{Bytes, bytes_eq}
use furynode.Prelude.Dict.{Dict, lookup}
use furynode.Chain.Action.{Action, ok, Error, ◌>>=◌, ◌>>◌, >>=-eq-ok, wrap, or_fail, pure}
use furynode.Chain.Bank.{BankLaws}
use furynode.Clp.Pool.{Pool, native_symbol, is_settlement_asset, get_pool_key}
use furynode.Clp.Keeper.{Externals, State, module_name, get_pool, initiate_swap}
use furynode.Clp.Server.{SwapMsg, find_in_pool, pay_in}
use furynode.Clp.Deposits.{of_denom}
use furynode.Clp.Custody.{held, initiate_swap-state}

module _ (ext : Externals) where
  open ext use {bank, bech32}
  open bank use {balance, amount_of, module_address}

  unfoldable pub IsFound : Option Pool → String → Dict Pool → Type 0
  IsFound o asset l =
      (is_settlement_asset asset ≡ true)
      ⊎ ((p : Pool) × (o ≡ some p) × (lookup (get_pool_key asset native_symbol) l ≡ some p))

  find_in_pool-state :
      (m : SwapMsg) (s t : State ext) (o : Option Pool)
      → find_in_pool ext m s ≡ (ok o, t)
      → (s ≡ t) × IsFound o m.sent_asset s.pools
  unfolding find_in_pool get_pool IsFound
  find_in_pool-state m s t o h = elim (Bool-cases (is_settlement_asset m.sent_asset)) [
    | inl e ↦ (ground arith, inl e)
    | inr e ↦ elim (Option-cases (lookup (get_pool_key m.sent_asset native_symbol) s.pools)) [
      | inl e' ↦ absurd (ground arith)
      | inr (p, e') ↦ (ground arith, inr (p, ground arith, e'))
    ]
  ]

  module _ (laws : BankLaws bank)
      (parsed : (n : ℕ) (i : ℤ) → ext.parse_to_int n ≡ some i → i ≡ pos n) where
    -- The payment in.
    unfoldable pub IsPaid : SwapMsg → State ext → State ext → Type 0
    IsPaid m s t =
        (t.pools ≡ s.pools)
        × ((d : String) → held ext d t ≡ held ext d s + of_denom m.sent_asset d m.sent_amount)

    pub pay_in-state :
        (m : SwapMsg) (s t : State ext) (o : Option Pool)
        → ((a : Bytes)
            → bech32.acc_from_bech32 m.signer ≡ some a
            → bytes_eq a (module_address module_name) ≡ false)
        → pay_in ext m s ≡ (ok o, t)
        → IsPaid m s t × IsFound o m.sent_asset s.pools
    unfolding pay_in IsPaid
    pay_in-state m s t o other h =
        let start : State ext → Bytes → ℤ → Action (State ext) (Unit {0}) =
          λ _ a amount. wrap Error.unable_to_swap (initiate_swap ext m.sent_asset amount a) in
        let (o', u, found, k) =
          >>=-eq-ok (find_in_pool ext m)
            (λ ip. or_fail (ext.parse_to_int m.sent_amount) Error.unable_to_parse_int >>= λ amount.
              or_fail (bech32.acc_from_bech32 m.signer) Error.sdk_error >>= λ a.
              wrap Error.unable_to_swap (initiate_swap ext m.sent_asset amount a) >> pure ip)
            s h in
        let (same, is_found) = find_in_pool-state m s u o' found in
        elim (Option-cases (ext.parse_to_int m.sent_amount)) [
          | inl e ↦ absurd (ground arith)
          | inr (i, e) ↦ elim (Option-cases (bech32.acc_from_bech32 m.signer)) [
            | inl e' ↦ absurd (ground arith)
            | inr (a, e') ↦
                let went : initiate_swap ext m.sent_asset i a u ≡ (ok tt, t) = ground arith in
                let kept : o' ≡ o = ground arith in
                let went' : initiate_swap ext m.sent_asset (pos m.sent_amount) a s ≡ (ok tt, t) =
                  ground (arith, parsed m.sent_amount i e) in
                (
                  initiate_swap-state ext laws parsed m.sent_asset m.sent_amount a s t went'
                      (other a e'),
                  subst (λ o. IsFound o m.sent_asset s.pools) kept is_found,
                )
          ]
        ]
