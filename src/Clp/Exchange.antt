-- ===== src/Clp/Exchange.antt =====
-- A swap keeps the deposits of the pools in the account of the module.

use furynode.Prelude.{ℕ, ◌≡◌, sym, ap, subst, ◌∙◌, false, Option, some, arith}
use furynode.Prelude.Int.{ℤ, pos}
use furynode.Prelude.Text.{Bytes, bytes_eq}
use furynode.Prelude.Store.{total_by}
use furynode.Chain.Action.{ok, ◌>>=◌, >>=-eq-ok}
use furynode.Chain.Bank.{BankLaws}
use furynode.Clp.Keeper.{Externals, State, module_name, get_swap_fee_rate, get_pool}
use furynode.TokenRegistry.Keeper.{RegistryEntry}
use furynode.Clp.Protection.{
  get_native_price, is_blocked_by_liquidity_protection, must_update_liquidity_protection_threshold,
}
use furynode.Clp.Server.{
  SwapMsg, first_leg, pay_in, second_leg, exchange, swap, check_tokens, protect, update_protection,
}
use furynode.Clp.Deposits.{deposit, IsKeyed}
use furynode.Clp.Custody.{IsKept}
use furynode.Clp.Payment.{IsFound, IsPaid, pay_in-state}
use furynode.Clp.Legs.{first_leg-deposits, second_leg-deposits}

module _ (ext : Externals) where
  open ext use {bank, bech32}
  open bank use {balance, amount_of, module_address}

  -- The checks and the liquidity protection touch no pool and no coin.
  pub check_tokens-state :
      (m : SwapMsg) (s t : State ext) (e : RegistryEntry × RegistryEntry)
      → check_tokens ext m s ≡ (ok e, t)
      → s ≡ t
  unfolding check_tokens
  check_tokens-state m s t e h = ground arith

  pub protect-state :
      (m : SwapMsg) (e : RegistryEntry) (s t : State ext) (o : Option ℤ)
      → protect ext m e s ≡ (ok o, t)
      → s ≡ t
  unfolding protect get_native_price is_blocked_by_liquidity_protection get_pool
  protect-state m e s t o h = ground arith

  module _ (laws : BankLaws bank)
      (parsed : (n : ℕ) (i : ℤ) → ext.parse_to_int n ≡ some i → i ≡ pos n) where
    -- With a bank that keeps its laws and a parser of amounts that returns what it is given, a swap
    -- that succeeds, of a signer other than the module itself, keeps the pools in order and their
    -- deposits in the account of the module.
    pub exchange-IsKept :
        (m : SwapMsg) (r f : ℤ) (s t : State ext) (n : ℕ)
        → IsKept ext s
        → ((a : Bytes)
            → bech32.acc_from_bech32 m.signer ≡ some a
            → bytes_eq a (module_address module_name) ≡ false)
        → exchange ext m r f s ≡ (ok n, t)
        → IsKept ext t
    unfolding exchange IsPaid
    exchange-IsKept m r f s t n kept other h =
        let (o, u, paid, h1) =
          >>=-eq-ok (pay_in ext m) (λ o. first_leg ext m o r f >>= second_leg ext m r f) s h in
        let (q, v, went, ended) = >>=-eq-ok (first_leg ext m o r f) (second_leg ext m r f) u h1 in
        let ((pools, into), found) = pay_in-state ext laws parsed m s u o other paid in
        let found' = subst (IsFound ext o m.sent_asset) (sym pools) found in
        let (keyed, coins, first) =
          first_leg-deposits ext m o r f u v q found' (subst IsKeyed (sym pools) kept.keyed) went in
        let (keyed', second, out) = second_leg-deposits ext laws parsed m r f q v t n keyed ended in
        record {
          keyed = keyed';
          covered = λ d. omega (
            arith,
            kept.covered d,
            into d,
            first d,
            second d,
            out d,
            ap (total_by (deposit d)) pools,
            ap (λ c. balance c (module_address module_name) d) coins,
          );
        }

    update_protection-state :
        (m : SwapMsg) (e e' : RegistryEntry) (o : Option ℤ) (f : ℤ) (n : ℕ) (s t : State ext)
        → update_protection ext m e e' o f n s ≡ (ok tt, t)
        → (t.pools ≡ s.pools) × (t.coins ≡ s.coins)
    unfolding update_protection must_update_liquidity_protection_threshold
    update_protection-state m e e' o f n s t h = ground arith

    -- With a bank that keeps its laws and a parser of amounts that returns what it is given, the
    -- message of a swap that succeeds, of a signer other than the module itself, keeps each pool
    -- under its own key and, in every denomination, the balances of all pools in the account of
    -- the module.
    pub swap-IsKept :
        (m : SwapMsg) (s t : State ext)
        → IsKept ext s
        → ((a : Bytes)
            → bech32.acc_from_bech32 m.signer ≡ some a
            → bytes_eq a (module_address module_name) ≡ false)
        → swap ext m s ≡ (ok tt, t)
        → IsKept ext t
    unfolding swap
    swap-IsKept m s t kept other h =
        let f = get_swap_fee_rate ext m.sent_asset false s in
        let r = s.pmtp_current_running_rate in
        let (e, u, checked, h1) =
          >>=-eq-ok (check_tokens ext m)
            (λ e s.
              (protect ext m e.0 >>= λ o.
              exchange ext m s.pmtp_current_running_rate
                (get_swap_fee_rate ext m.sent_asset false s)
              >>= λ n.
                  update_protection ext m e.0 e.1 o (get_swap_fee_rate ext m.sent_asset false s) n)
                s)
            s h in
        let r' = u.pmtp_current_running_rate in
        let f' = get_swap_fee_rate ext m.sent_asset false u in
        let (o, v, protected, h2) =
          >>=-eq-ok (protect ext m e.0)
            (λ o. exchange ext m r' f' >>= λ n. update_protection ext m e.0 e.1 o f' n) u h1 in
        let (n, w, exchanged, updated) =
          >>=-eq-ok (exchange ext m r' f') (λ n. update_protection ext m e.0 e.1 o f' n) v h2 in
        let same : s ≡ v =
          check_tokens-state m s u e checked ∙ protect-state m e.0 u v o protected in
        let kept' = exchange-IsKept m r' f' v w n (subst (IsKept ext) same kept) other exchanged in
        let (pools, coins) = update_protection-state m e.0 e.1 o f' n w t updated in
        record {
          keyed = subst IsKeyed (sym pools) kept'.keyed;
          covered = λ d. omega (
            arith,
            kept'.covered d,
            ap (total_by (deposit d)) pools,
            ap (λ c. balance c (module_address module_name) d) coins,
          );
        }
