-- ===== src/Clp/Deposits.antt =====
-- What the pools say that the module holds, and how a swap in a pool changes it.
use text.Mathlib.TextLemmas.{append_cancel_right}
use furynode.Prelude.{
  ℕ, ◌+◌, ◌-◌, ◌≡◌, refl, sym, ap, ◌∙◌, inl, inr, Bool, true, false, some, [], ◌∷◌, String, arith,
  Bool-cases, Option-cases, if◌then◌else◌, leb,
}
use furynode.Prelude.Int.{ℤ}
use furynode.Prelude.Text.{str_eq, str_eq_iff}
use furynode.Prelude.Dict.{Dict, lookup}
use furynode.Prelude.Store.{has, set, replace, place, total_by, value_at, total-set}
use furynode.Chain.Action.{ok}
use furynode.Clp.Pool.{
  Pool, Swapped, native_symbol, is_settlement_asset, get_pool_key, extract_values, extract_debt,
  update_balances, settle_swap, swap_one, calc_price_impact,
}
use furynode.Clp.Swap.{calc_swap_result}
use furynode.Clp.Rat.{uint_add, uint_sub}

-- What a pool says that the module holds of a denomination.
abbrev pub deposit : String → Pool → ℕ
deposit d p =
    (if str_eq p.external_asset d then p.external_asset_balance else 0)
    + (if str_eq native_symbol d then p.native_asset_balance else 0)

-- `n`, of this denomination.
abbrev pub of_denom : String → String → ℕ → ℕ
of_denom c d n = if str_eq c d then n else 0

-- Each pool stands under its own key.
abbrev pub IsKeyed : Dict Pool → Type 0
IsKeyed [] = Unit
IsKeyed ((k, p) ∷ l) = (k ≡ get_pool_key p.external_asset native_symbol) × IsKeyed l

pub get_pool_key-injective :
    (a b : String) → get_pool_key a native_symbol ≡ get_pool_key b native_symbol → a ≡ b
unfolding get_pool_key
get_pool_key-injective a b h = append_cancel_right a b "_fury" h

pub lookup-IsKeyed :
    (k : String) (p : Pool) (l : Dict Pool)
    → lookup k l ≡ some p
    → IsKeyed l
    → k ≡ get_pool_key p.external_asset native_symbol
unfolding lookup
lookup-IsKeyed k p [] e h = absurd (ground arith)
lookup-IsKeyed k p ((j, q) ∷ l) e h = elim (Bool-cases (str_eq j k)) [
  | inl same ↦
      let f : q ≡ p = ground arith in
      let g : j ≡ k = (str_eq_iff j k).0 same in
      sym g ∙ h.0 ∙ ap (λ (p : Pool). get_pool_key p.external_asset native_symbol) f
  | inr other ↦ lookup-IsKeyed k p l (ground arith) h.1
]

pub set-IsKeyed :
    (p : Pool) (l : Dict Pool)
    → IsKeyed l
    → IsKeyed (set (get_pool_key p.external_asset native_symbol) p l)
unfolding set
set-IsKeyed p l h = elim (Bool-cases (has (get_pool_key p.external_asset native_symbol) l)) [
  | inl e ↦ rw e (replaced l h)
  | inr e ↦ rw e (placed l h)
]
  where
    replaced :
        (l : Dict Pool)
        → IsKeyed l
        → IsKeyed (replace (get_pool_key p.external_asset native_symbol) p l)
    replaced [] h = tt
    replaced ((k, q) ∷ l) h = ground (arith, replaced l h.1)

    placed :
        (l : Dict Pool)
        → IsKeyed l
        → IsKeyed (place (get_pool_key p.external_asset native_symbol) p l)
    placed [] h = (refl, tt)
    placed ((k, q) ∷ l) h = ground (arith, placed l h.1)

-- The denomination that a swap pays into the pool of an asset, and the one that it takes out.
abbrev pub paid_in : String → String → String
paid_in asset to = if is_settlement_asset to then asset else native_symbol

abbrev pub paid_out : String → String → String
paid_out asset to = if is_settlement_asset to then native_symbol else asset

settle_swap-ok :
    (p : Pool) (X Y x impact y fee : ℕ) (b : Bool) (w : Swapped)
    → settle_swap p b X x Y impact y fee ≡ ok w
    → (leb Y y ≡ false)
      × (w.swap_result ≡ y)
      × (w.pool ≡ (
          if b
          then record p { external_asset_balance = X + x; native_asset_balance = Y - y }
          else record p { native_asset_balance = X + x; external_asset_balance = Y - y }))
unfolding settle_swap update_balances uint_add uint_sub
settle_swap-ok p X Y x impact y fee b w h = (ground arith, ground arith, ground arith)

settle_swap-deposit :
    (p : Pool) (to : String) (x impact y fee : ℕ) (w : Swapped)
    → (let (X, Y, to_fury) = extract_values p to in settle_swap p to_fury X x Y impact y fee ≡ ok w)
    → (w.pool.external_asset ≡ p.external_asset)
      × ((d : String)
          → deposit d w.pool + of_denom (paid_out p.external_asset to) d w.swap_result
            ≡ deposit d p + of_denom (paid_in p.external_asset to) d x)
unfolding extract_values
settle_swap-deposit p to x impact y fee w h = elim (Bool-cases (is_settlement_asset to)) [
  | inl e ↦
      let (short, paid, made) =
        settle_swap-ok p p.external_asset_balance p.native_asset_balance x impact y fee true w
          (ground arith) in
      rw e (ap (λ (q : Pool). q.external_asset) made, λ d. ground (arith, ap (deposit d) made))
  | inr e ↦
      let (short, paid, made) =
        settle_swap-ok p p.native_asset_balance p.external_asset_balance x impact y fee false w
          (ground arith) in
      rw e (ap (λ (q : Pool). q.external_asset) made, λ d. ground (arith, ap (deposit d) made))
]

swap_one-settle :
    (from : String) (x : ℕ) (to : String) (p : Pool) (r f : ℤ) (w : Swapped)
    → swap_one from x to p r f ≡ ok w
    → (impact : ℕ) × (y : ℕ) × (fee : ℕ) × (let (X, Y, to_fury) = extract_values p to in
        settle_swap p to_fury X x Y impact y fee ≡ ok w)
unfolding swap_one
swap_one-settle from x to p r f w h =
    let v = extract_values p to in
    elim (Option-cases (extract_debt p v.0 v.1 v.2)) [
      | inl n ↦ absurd (ground arith)
      | inr (q, e) ↦ elim (Option-cases (calc_price_impact q.0 x)) [
        | inl n ↦ absurd (ground arith)
        | inr (impact, e') ↦ elim (Option-cases (calc_swap_result v.2 q.0 x q.1 r f)) [
          | inl n ↦ absurd (ground arith)
          | inr (z, e'') ↦ (impact, z.0, z.1, ground arith)
        ]
      ]
    ]

-- A pool that was read by its asset and is put back.
pub put_back :
    (asset d : String) (p q : Pool) (l : Dict Pool)
    → IsKeyed l
    → lookup (get_pool_key asset native_symbol) l ≡ some p
    → q.external_asset ≡ p.external_asset
    → (asset ≡ p.external_asset)
      × (total_by (deposit d) (set (get_pool_key q.external_asset native_symbol) q l) + deposit d p
          ≡ total_by (deposit d) l + deposit d q)
put_back asset d p q l keyed found same =
    let own : asset ≡ p.external_asset =
      get_pool_key-injective asset p.external_asset
        (lookup-IsKeyed (get_pool_key asset native_symbol) p l found keyed) in
    let key = get_pool_key q.external_asset native_symbol in
    let found' : lookup key l ≡ some p =
      ap (λ a. lookup (get_pool_key a native_symbol) l) (same ∙ sym own) ∙ found in
    (own, omega (arith, total-set (deposit d) key q l, ap (value_at (deposit d)) found'))

-- A swap in the pool of an asset, with the pool put back: the deposits of all pools change by what is
-- paid in and out.
pub swap_in_pool :
    (from : String) (x : ℕ) (asset to : String) (p : Pool) (r f : ℤ) (w : Swapped) (l : Dict Pool)
    → IsKeyed l
    → lookup (get_pool_key asset native_symbol) l ≡ some p
    → swap_one from x to p r f ≡ ok w
    → let after = set (get_pool_key w.pool.external_asset native_symbol) w.pool l in
      IsKeyed after
      × ((d : String)
          → total_by (deposit d) after + of_denom (paid_out asset to) d w.swap_result
            ≡ total_by (deposit d) l + of_denom (paid_in asset to) d x)
swap_in_pool from x asset to p r f w l keyed found h =
    let (impact, y, fee, k) = swap_one-settle from x to p r f w h in
    let (same, deposits) = settle_swap-deposit p to x impact y fee w k in
    let own : asset ≡ p.external_asset =
      get_pool_key-injective asset p.external_asset
        (lookup-IsKeyed (get_pool_key asset native_symbol) p l found keyed) in
    let key = get_pool_key w.pool.external_asset native_symbol in
    let found' : lookup key l ≡ some p =
      ap (λ a. lookup (get_pool_key a native_symbol) l) (same ∙ sym own) ∙ found in
    (
      set-IsKeyed w.pool l keyed,
      λ d. omega (
        arith,
        total-set (deposit d) key w.pool l,
        ap (value_at (deposit d)) found',
        deposits d,
        ap (λ a. of_denom (paid_out a to) d w.swap_result) own,
        ap (λ a. of_denom (paid_in a to) d x) own,
      ),
    )
