-- ===== src/Clp/Asymmetric.antt =====
-- x/clp/keeper/calculations.go: how much of an addition to a pool has to be swapped for it to be
-- symmetric, and the units that the addition gives.
use furynode.Prelude.{
  ℕ, zero, suc, ◌+◌, ◌*◌, ◌/◌, ◌==◌, ◌||◌, Option, none, some, leb, if◌then◌else◌,
}
use furynode.Prelude.Int.{ℤ, pos, negsuc, pos_part, neg_part, ◌-ℤ◌}
use furynode.Chain.Action.{Outcome, ok, err, panic, Error}
use furynode.Clp.Rat.{
  Rat, set_int, rat_add, rat_mul, rat_quo, ◌*ℤ◌, dec_to_rat, rat_int_quo, new_uint, uint_add,
  uint_sub, ◌>>=◌,
}
use furynode.Clp.Swap.{
  empty_pool, nothing_added, need_more_y, symmetric, need_more_x, get_liquidity_add_symmetry_state,
  calculate_pool_units_symmetric,
}

infixl 70 ◌*ℚ◌
infixl 65 ◌+ℚ◌ ◌-ℚ◌
abbrev ◌*ℚ◌ : Rat → Rat → Rat
◌*ℚ◌ = rat_mul

abbrev ◌+ℚ◌ : Rat → Rat → Rat
◌+ℚ◌ = rat_add

unfoldable pub ◌-ℚ◌ : Rat → Rat → Rat
unfolding ◌*ℤ◌ ◌-ℤ◌
a -ℚ b = record {
  num = (a.num *ℤ pos b.denom) -ℤ (b.num *ℤ pos a.denom);
  denom = a.denom * b.denom;
}

abbrev pub rat_abs : Rat → Rat
rat_abs a = record a { num = pos (pos_part a.num + neg_part a.num) }

-- `big.Int.Sqrt` on a natural number, by pairs of binary digits.
unfoldable pub sqrt_on : ℕ → ℕ → ℕ
sqrt_on zero n = 0
sqrt_on (suc fuel) zero = 0
sqrt_on (suc fuel) (suc m) =
    let r = 2 * sqrt_on fuel (suc m / 4) in if leb ((r + 1) * (r + 1)) (suc m) then r + 1 else r

-- `none` is the panic of the root of a negative number.
unfoldable pub approx_rat_square_root : Rat → Option ℕ
unfolding rat_int_quo sqrt_on
approx_rat_square_root x = elim (rat_int_quo x) [ pos n ↦ some (sqrt_on n n) | negsuc _ ↦ none ]

abbrev minus_one : Rat
minus_one = record { num = negsuc 0; denom = 1 }

unfoldable pub calculate_external_swap_amount_asymmetric_rat :
    Rat → Rat → Rat → Rat → Rat → Rat → Option Rat
unfolding rat_add rat_mul ◌-ℚ◌ approx_rat_square_root rat_quo
calculate_external_swap_amount_asymmetric_rat Y X y x f r =
    let two = set_int 2 in
    let four = set_int 4 in
    let r1 = r +ℚ set_int 1 in
    let c_ = Y *ℚ ((x +ℚ X) *ℚ minus_one) in
    let d_ = f *ℚ f *ℚ x *ℚ Y in
    let e_ = f *ℚ f *ℚ X *ℚ Y in
    let f_ = two *ℚ f *ℚ r *ℚ x *ℚ Y in
    let g_ = four *ℚ f *ℚ r *ℚ X *ℚ y in
    let h_ = two *ℚ f *ℚ r *ℚ X *ℚ Y in
    let i_ = four *ℚ f *ℚ X *ℚ y in
    let j_ = four *ℚ f *ℚ X *ℚ Y in
    let k_ = r *ℚ r *ℚ x *ℚ Y in
    let l_ = r *ℚ r *ℚ X *ℚ Y in
    let m_ = four *ℚ r *ℚ X *ℚ y in
    let n_ = four *ℚ r *ℚ X *ℚ Y in
    let o_ = four *ℚ X *ℚ y in
    let p_ = four *ℚ X *ℚ Y in
    let q_ = f *ℚ x *ℚ Y in
    let r_ = f *ℚ X *ℚ Y in
    let s_ = r *ℚ x *ℚ Y in
    let t_ = two *ℚ r *ℚ X *ℚ y in
    let u_ = r *ℚ X *ℚ Y in
    let v_ = two *ℚ X *ℚ y in
    let w_ = two *ℚ X *ℚ Y in
    let x_ = y +ℚ Y in
    let y_ = g_ +ℚ h_ +ℚ i_ +ℚ j_ -ℚ d_ -ℚ e_ -ℚ f_ -ℚ k_ -ℚ l_ -ℚ m_ -ℚ n_ -ℚ o_ -ℚ p_ in
    do
      root ← approx_rat_square_root (c_ *ℚ y_)
      let ab_ = set_int root +ℚ q_ +ℚ r_ +ℚ s_ -ℚ t_ -ℚ u_ -ℚ v_ -ℚ w_
      ad_ ← rat_quo ab_ (two *ℚ r1 *ℚ x_)
      some (rat_abs ad_)

unfoldable pub calculate_external_swap_amount_asymmetric : ℕ → ℕ → ℕ → ℕ → Rat → Rat → Option ℕ
unfolding calculate_external_swap_amount_asymmetric_rat new_uint rat_int_quo
calculate_external_swap_amount_asymmetric R A r a f p = do
  s ←
      calculate_external_swap_amount_asymmetric_rat (set_int R) (set_int A) (set_int r) (set_int a)
        f p
  new_uint (rat_int_quo s)

unfoldable pub calculate_native_swap_amount_asymmetric_rat :
    Rat → Rat → Rat → Rat → Rat → Rat → Option Rat
unfolding rat_add rat_mul ◌-ℚ◌ approx_rat_square_root rat_quo
calculate_native_swap_amount_asymmetric_rat Y X y x f r =
    let two = set_int 2 in
    let four = set_int 4 in
    let a_ = f *ℚ r *ℚ X *ℚ y in
    let b_ = f *ℚ r *ℚ X *ℚ Y in
    let c_ = f *ℚ X *ℚ y in
    let d_ = f *ℚ X *ℚ Y in
    let e_ = r *ℚ X *ℚ y in
    let f_ = r *ℚ X *ℚ Y in
    let g_ = two *ℚ x *ℚ Y in
    let h_ = two *ℚ X *ℚ Y in
    let i_ = x +ℚ X in
    let j_ = x *ℚ Y *ℚ Y in
    let k_ = X *ℚ y *ℚ Y in
    let l_ = j_ -ℚ k_ in
    let m_ = four *ℚ i_ *ℚ l_ in
    let n_ = f *ℚ r *ℚ X *ℚ y in
    let o_ = f *ℚ r *ℚ X *ℚ Y in
    let p_ = f *ℚ X *ℚ y in
    let q_ = f *ℚ X *ℚ Y in
    let r_ = r *ℚ X *ℚ y in
    let s_ = r *ℚ X *ℚ Y in
    let t_ = two *ℚ x *ℚ Y in
    let u_ = two *ℚ X *ℚ Y in
    let v_ = (x +ℚ X) *ℚ two in
    let w_ = e_ +ℚ f_ +ℚ g_ +ℚ h_ -ℚ a_ -ℚ b_ -ℚ c_ -ℚ d_ in
    do
      root ← approx_rat_square_root (w_ *ℚ w_ -ℚ m_)
      let aa_ = set_int root +ℚ n_ +ℚ o_ +ℚ p_ +ℚ q_ -ℚ r_ -ℚ s_ -ℚ t_ -ℚ u_
      ab_ ← rat_quo aa_ v_
      some (rat_abs ab_)

unfoldable pub calculate_native_swap_amount_asymmetric : ℕ → ℕ → ℕ → ℕ → Rat → Rat → Option ℕ
unfolding calculate_native_swap_amount_asymmetric_rat new_uint rat_int_quo
calculate_native_swap_amount_asymmetric R A r a f p = do
  s ←
      calculate_native_swap_amount_asymmetric_rat (set_int R) (set_int A) (set_int r) (set_int a) f
        p
  new_uint (rat_int_quo s)

pub data SwapStatus : Type 0 where
  sell_native buy_native no_swap : SwapStatus

-- The units of the pool and of the provider, and the swap that the addition implies. Where there is
-- no swap, the amount is not read.
pub record Addition : Type 0 where
  pub pool_units : ℕ
  pub lp_units : ℕ
  pub status : SwapStatus
  pub swap_amount : ℕ

abbrev addition : SwapStatus → ℕ → ℕ × ℕ → Addition
addition status amount (pool_units, lp_units) = record {
  pool_units = pool_units;
  lp_units = lp_units;
  status = status;
  swap_amount = amount;
}

-- After the swap of `s` of an asset, of which the pool has `X` and the provider adds `x`.
unfoldable pub add_swapped : SwapStatus → ℕ → ℕ → ℕ → ℕ → Option Addition
unfolding uint_sub uint_add calculate_pool_units_symmetric
add_swapped status X x s P = do
  corrected ← uint_sub x s
  projected ← uint_add X s
  units ← calculate_pool_units_symmetric projected corrected P
  some (addition status s units)

abbrev or_else_panic : {A : Type 0} → Option A → Outcome A
or_else_panic none = panic
or_else_panic (some a) = ok a

unfoldable pub calculate_pool_units : ℕ → ℕ → ℕ → ℕ → ℕ → ℤ → ℤ → ℤ → Outcome Addition
unfolding get_liquidity_add_symmetry_state calculate_external_swap_amount_asymmetric
    calculate_native_swap_amount_asymmetric calculate_pool_units_symmetric add_swapped
calculate_pool_units P R A r a sell_native_rate buy_native_rate pmtp_rate =
    elim (get_liquidity_add_symmetry_state A a R r) [
      | empty_pool ↦
          if a == 0 || r == 0 then err Error.in_valid_amount else ok (addition no_swap 0 (r, r))
      | nothing_added ↦ ok (addition no_swap 0 (P, 0))
      | need_more_y ↦ or_else_panic (do
        s ←
            calculate_external_swap_amount_asymmetric R A r a (dec_to_rat buy_native_rate)
              (dec_to_rat pmtp_rate)
        add_swapped buy_native A a s P)
      | symmetric ↦
          or_else_panic
            (do units ← calculate_pool_units_symmetric R r P; some (addition no_swap 0 units))
      | need_more_x ↦ or_else_panic (do
        s ←
            calculate_native_swap_amount_asymmetric R A r a (dec_to_rat sell_native_rate)
              (dec_to_rat pmtp_rate)
        add_swapped sell_native R r s P)
    ]
