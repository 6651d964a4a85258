-- ===== src/Clp/Legs.antt =====
-- The one or two legs of a swap.

use furynode.Prelude.{
  ℕ, ◌+◌, ◌≤◌, ◌≡◌, refl, sym, ap, subst, ◌∙◌, inl, inr, true, not, ◌&&◌, Option, some, String,
  arith, Bool-cases, Option-cases, if◌then◌else◌, ltb,
}
use furynode.Prelude.Int.{ℤ, pos}
use furynode.Prelude.Text.{str_eq_iff}
use furynode.Prelude.Dict.{lookup}
use furynode.Prelude.Store.{set, total_by}
use furynode.Chain.Action.{
  Action, Outcome, ok, err, panic, Error, ◌>>=◌, >>=-eq-ok, wrap, or_panic, pure,
}
use furynode.Chain.Bank.{BankLaws}
use furynode.Clp.Pool.{Pool, Swapped, native_symbol, is_settlement_asset, get_pool_key, swap_one}
use furynode.Clp.Rat.{uint_add}
use furynode.Clp.Keeper.{Externals, State, set_pool, get_pool, finalize_swap}
use furynode.Clp.Server.{
  SwapMsg, first_leg, find_out_pool, pay_out, second_leg, total_liquidity_fee,
}
use furynode.Clp.Deposits.{deposit, of_denom, IsKeyed, paid_in, paid_out, swap_in_pool}
use furynode.Clp.Custody.{held, set_pool-state, get_pool-state, wrap-ok, finalize_swap-state}
use furynode.Clp.Payment.{IsFound}

module _ (ext : Externals) where
  open ext use {bank, bech32}
  open bank use {balance, amount_of, module_address}

  -- What goes into the second leg: fury, where there is a first one, or what was sent.
  unfoldable pub carried : SwapMsg → String
  carried m =
      if not (is_settlement_asset m.sent_asset) && not (is_settlement_asset m.received_asset)
      then native_symbol
      else m.sent_asset

  -- The deposits of all pools.
  abbrev pub deposits : String → State ext → ℕ
  deposits d s = total_by (deposit d) s.pools

  first_leg-swapped :
      (m : SwapMsg) (p : Pool) (r f : ℤ) (s t : State ext) (q : ℕ × String × ℕ × ℕ)
      → first_leg ext m (some p) r f s ≡ (ok q, t)
      → (not (is_settlement_asset m.sent_asset) && not (is_settlement_asset m.received_asset))
        ≡ true
      → (w : Swapped) × (swap_one m.sent_asset m.sent_amount native_symbol p r f ≡ ok w)
        × (q.0 ≡ w.swap_result)
        × (t ≡ record s {
          pools = set (get_pool_key w.pool.external_asset native_symbol) w.pool s.pools;
        })
  unfolding first_leg
  first_leg-swapped m p r f s t q h e = go _ refl
    where
      go :
          (o : Outcome Swapped)
          → swap_one m.sent_asset m.sent_amount native_symbol p r f ≡ o
          → (w : Swapped) × (swap_one m.sent_asset m.sent_amount native_symbol p r f ≡ ok w)
            × (q.0 ≡ w.swap_result)
            × (t ≡ record s {
              pools = set (get_pool_key w.pool.external_asset native_symbol) w.pool s.pools;
            })
      go (ok w) k =
          let leg : ℕ × String × ℕ × ℕ =
            (w.swap_result, native_symbol, w.price_impact, w.liquidity_fee) in
          let put_it : Action (State ext) (Unit {0}) =
            wrap Error.unable_to_set_pool (set_pool ext w.pool) in
          let h' : (put_it >>= λ _. pure leg) s ≡ (ok q, t) = ground arith in
          let (_, u, put, out) = >>=-eq-ok put_it (λ _. pure leg) s h' in
          let made =
            set_pool-state ext w.pool s u
              (wrap-ok ext Error.unable_to_set_pool (set_pool ext w.pool) s u put) in
          let same : u ≡ t = ap (λ x. x.1) out in
          let amount : leg ≡ q = ground (arith, out) in
          (w, k, ap (λ (x : ℕ × String × ℕ × ℕ). x.0) (sym amount), sym same ∙ made)
      go (err x) k = absurd (ground arith)
      go panic k = absurd (ground arith)

  pub first_leg-deposits :
      (m : SwapMsg) (o : Option Pool) (r f : ℤ) (s t : State ext) (q : ℕ × String × ℕ × ℕ)
      → IsFound ext o m.sent_asset s.pools
      → IsKeyed s.pools
      → first_leg ext m o r f s ≡ (ok q, t)
      → IsKeyed t.pools
        × (t.coins ≡ s.coins)
        × ((d : String)
            → deposits d t + of_denom (carried m) d q.0
              ≡ deposits d s + of_denom m.sent_asset d m.sent_amount)
  unfolding first_leg IsFound carried
  first_leg-deposits m o r f s t q found keyed h =
      elim (Bool-cases
        (not (is_settlement_asset m.sent_asset) && not (is_settlement_asset m.received_asset))) [
          | inr e ↦
              let same : s ≡ t = ground arith in
              let amount : q.0 ≡ m.sent_amount = ground arith in
              let goes : carried m ≡ m.sent_asset = ground arith in
              (
                subst (λ (x : State ext). IsKeyed x.pools) same keyed,
                ap (λ (x : State ext). x.coins) (sym same),
                λ d.
                    ap (λ (x : State ext). deposits d x + of_denom (carried m) d q.0) (sym same)
                    ∙ ap (λ c. deposits d s + of_denom c d q.0) goes
                    ∙ ap (λ n. deposits d s + of_denom m.sent_asset d n) amount,
              )
          | inl e ↦ elim found [
            | inl native ↦ absurd (ground arith)
            | inr (p, is, at) ↦
                let h' : first_leg ext m (some p) r f s ≡ (ok q, t) =
                  subst (λ o. first_leg ext m o r f s ≡ (ok q, t)) is h in
                let (w, swapped, amount, after) = first_leg-swapped m p r f s t q h' e in
                let goes : carried m ≡ native_symbol = ground arith in
                let (keyed', moved) =
                  swap_in_pool m.sent_asset m.sent_amount m.sent_asset native_symbol p r f w s.pools
                    keyed at swapped in
                (
                  subst (λ (x : State ext). IsKeyed x.pools) (sym after) keyed',
                  ap (λ (x : State ext). x.coins) after,
                  λ d.
                      ap (λ (x : State ext). deposits d x + of_denom (carried m) d q.0) after
                      ∙ ap
                          (λ c.
                            total_by (deposit d) (
                              set (get_pool_key w.pool.external_asset native_symbol) w.pool s.pools)
                            + of_denom c d q.0)
                          goes
                      ∙ ap
                          (λ n.
                            total_by (deposit d) (
                              set (get_pool_key w.pool.external_asset native_symbol) w.pool s.pools)
                            + of_denom native_symbol d n)
                          amount
                      ∙ moved d,
                )
          ]
        ]

  -- The pool of the second leg is that of the received asset, or of the sent one for fury.
  out_asset : SwapMsg → String
  out_asset m = if is_settlement_asset m.received_asset then m.sent_asset else m.received_asset

  legs_meet :
      (m : SwapMsg) (d : String) (n : ℕ)
      → (of_denom (paid_in (out_asset m) m.received_asset) d n ≡ of_denom (carried m) d n)
        × (of_denom (paid_out (out_asset m) m.received_asset) d n ≡ of_denom m.received_asset d n)
  unfolding out_asset carried
  legs_meet m d n =
      ground
        (arith, str_eq_iff m.received_asset native_symbol, str_eq_iff m.sent_asset native_symbol)

  find_out_pool-state :
      (m : SwapMsg) (s t : State ext) (p : Pool)
      → find_out_pool ext m s ≡ (ok p, t)
      → (lookup (get_pool_key (out_asset m) native_symbol) s.pools ≡ some p) × (s ≡ t)
  unfolding find_out_pool out_asset
  find_out_pool-state m s t p h =
      get_pool-state ext (out_asset m) s t p
        (wrap-ok ext Error.pool_does_not_exist (get_pool ext (out_asset m)) s t h)

  module _ (laws : BankLaws bank)
      (parsed : (n : ℕ) (i : ℤ) → ext.parse_to_int n ≡ some i → i ≡ pos n) where
    pay_out-finalize :
        (m : SwapMsg) (p : Pool) (impact fee_native : ℕ) (r f : ℤ) (w : Swapped) (s t : State ext)
        (n : ℕ)
        → pay_out ext m p impact fee_native r f w s ≡ (ok n, t)
        → (n ≡ w.swap_result)
          × (finalize_swap ext w.swap_result w.pool m.signer m.received_asset s ≡ (ok tt, t))
    unfolding pay_out
    pay_out-finalize m p impact fee_native r f w s t n h =
        let finish : Action (State ext) (Unit {0}) =
          finalize_swap ext w.swap_result w.pool m.signer m.received_asset in
        let rest : Action (State ext) ℕ =
          or_panic (total_liquidity_fee ext m p fee_native w.liquidity_fee r f) >>= λ fee.
          or_panic (uint_add impact w.price_impact) >>= λ total. pure w.swap_result in
        elim (Bool-cases (ltb w.swap_result m.min_receiving_amount)) [
          | inl low ↦ absurd (ground arith)
          | inr enough ↦
              let h' : (wrap Error.unable_to_swap finish >>= λ _. rest) s ≡ (ok n, t) =
                ground arith in
              let (_, u, finished, k) =
                >>=-eq-ok (wrap Error.unable_to_swap finish) (λ _. rest) s h' in
              let done = wrap-ok ext Error.unable_to_swap finish s u finished in
              elim (Option-cases (total_liquidity_fee ext m p fee_native w.liquidity_fee r f)) [
                | inl e ↦ absurd (ground arith)
                | inr (fee, e) ↦ elim (Option-cases (uint_add impact w.price_impact)) [
                  | inl e' ↦ absurd (ground arith)
                  | inr (total, e') ↦
                      let same : u ≡ t = ground arith in
                      (ground arith, subst (λ t. finish s ≡ (ok tt, t)) same done)
                ]
              ]
        ]

    pub second_leg-deposits :
        (m : SwapMsg) (r f : ℤ) (q : ℕ × String × ℕ × ℕ) (s t : State ext) (n : ℕ)
        → IsKeyed s.pools
        → second_leg ext m r f q s ≡ (ok n, t)
        → IsKeyed t.pools
          × ((d : String)
              → deposits d t + of_denom m.received_asset d n
                ≡ deposits d s + of_denom (carried m) d q.0)
          × ((d : String) → held ext d s ≤ held ext d t + of_denom m.received_asset d n)
    unfolding second_leg
    second_leg-deposits m r f q s t n keyed h =
        let swap_it : Pool → Action (State ext) Swapped =
          λ p s. (swap_one q.1 q.0 m.received_asset p r f, s) in
        let (p, u, found, h1) =
          >>=-eq-ok (find_out_pool ext m) (λ p. swap_it p >>= λ w. pay_out ext m p q.2 q.3 r f w) s
            h in
        let (w, v, swapped, h2) = >>=-eq-ok (swap_it p) (λ w. pay_out ext m p q.2 q.3 r f w) u h1 in
        let (at, same) = find_out_pool-state m s u p found in
        let made : swap_one q.1 q.0 m.received_asset p r f ≡ ok w = ap (λ x. x.0) swapped in
        let same' : u ≡ v = ap (λ x. x.1) swapped in
        let (amount, finished) = pay_out-finalize m p q.2 q.3 r f w v t n h2 in
        let finished' : finalize_swap ext w.swap_result w.pool m.signer m.received_asset s
            ≡ (ok tt, t) =
          subst
            (λ x. finalize_swap ext w.swap_result w.pool m.signer m.received_asset x ≡ (ok tt, t))
            (sym (same ∙ same')) finished in
        let (pools, less) =
          finalize_swap-state ext laws parsed w.swap_result w.pool m.signer m.received_asset s t
            finished' in
        let (keyed', moved) =
          swap_in_pool q.1 q.0 (out_asset m) m.received_asset p r f w s.pools keyed at made in
        (
          subst IsKeyed (sym pools) keyed',
          λ d. omega (
            arith,
            ap (total_by (deposit d)) pools,
            moved d,
            legs_meet m d w.swap_result,
            legs_meet m d q.0,
            ap (of_denom m.received_asset d) amount,
          ),
          λ d. omega (arith, less d, ap (of_denom m.received_asset d) amount),
        )
