-- ===== src/Clp/Unlocked.antt =====
-- What the use of unlocked liquidity takes from the records of the unlocks.
use furynode.Prelude.{
  ℕ, ◌+◌, ◌-◌, ◌≡◌, refl, ◌<◌, ◌∙◌, ◌⊎◌, inl, inr, some, ==_iff, Bool, true, false, not, ◌||◌, List,
  [], ◌∷◌, arith, Bool-cases, ltb, if◌then◌else◌, ◌==◌,
}
use furynode.Chain.Action.{ok, err, Error}
use furynode.Prelude.Int.{leb_ℤ}
use furynode.Prelude.Text.{str_eq_iff}
use furynode.Prelude.Dict.{lookup}
use furynode.Prelude.Store.{set, lookup-set}
use furynode.Clp.Pool.{validate_asset}
use furynode.Clp.Provider.{
  LiquidityUnlock, LiquidityProvider, add_int64, to_int64, use_records, is_unlocked, drop_empty,
  get_liquidity_provider_key,
}
use furynode.Clp.Keeper.{Externals, State}
use furynode.Clp.Providers.{use_unlocked_liquidity, set_liquidity_provider}

-- The units of the records that a test takes.
abbrev pub units_of : (LiquidityUnlock → Bool) → List LiquidityUnlock → ℕ
units_of f [] = 0
units_of f (r ∷ l) = (if f r then r.units else 0) + units_of f l

-- A test of a record that does not look at its units.
abbrev pub IsOfHeight : (LiquidityUnlock → Bool) → Type 0
IsOfHeight f = (r : LiquidityUnlock) (n : ℕ) → f (record r { units = n }) ≡ f r

use_records-units :
    (f : LiquidityUnlock → Bool) (n : ℕ) (l : List LiquidityUnlock)
    → IsOfHeight f
    → let (left, rest) = use_records f n l in
      (left ≡ n - units_of f l)
      × (units_of f rest + n ≡ units_of f l + left)
      × (units_of (λ r. not (f r)) rest ≡ units_of (λ r. not (f r)) l)
unfolding use_records
use_records-units f n [] h = (omega arith, omega arith, refl)
use_records-units f n (r ∷ l) h = elim (Bool-cases (f r)) [
  | inl usable ↦ elim (Bool-cases (ltb r.units n)) [
    | inl less ↦
        let (a, b, c) = use_records-units f (n - r.units) l h in
        (ground (arith, h r 0), ground (arith, h r 0), ground (arith, h r 0))
    | inr enough ↦
        (ground arith, ground (arith, h r (r.units - n)), ground (arith, h r (r.units - n)))
  ]
  | inr other ↦
      let (a, b, c) = use_records-units f n l h in (ground arith, ground arith, ground arith)
]

drop_empty-units :
    (f : LiquidityUnlock → Bool) (l : List LiquidityUnlock)
    → units_of f (drop_empty l) ≡ units_of f l
unfolding drop_empty
drop_empty-units f [] = refl
drop_empty-units f (r ∷ l) = ground (arith, drop_empty-units f l)

module _ (ext : Externals) where
  -- The records that may be used in this block: those whose request lies as many blocks back as
  -- the lock period, on `int64`, or more, or any of them.
  abbrev pub usable : Bool → State ext → LiquidityUnlock → Bool
  usable any s r =
      any
      || leb_ℤ (add_int64 r.request_height (to_int64 s.reward_params.liquidity_removal_lock_period))
          s.height

  usable-IsOfHeight : (any : Bool) (s : State ext) → IsOfHeight (usable any s)
  usable-IsOfHeight any s r n = refl

  -- The provider that is written after a use of its records.
  pub record IsUsed (any : Bool) (n : ℕ) (lp q : LiquidityProvider) (s : State ext) : Type 0 where
    pub units_same : q.liquidity_provider_units ≡ lp.liquidity_provider_units
    pub used : units_of (usable any s) q.unlocks + n ≡ units_of (usable any s) lp.unlocks
    pub locked_same :
        units_of (λ r. not (usable any s r)) q.unlocks
        ≡ units_of (λ r. not (usable any s r)) lp.unlocks

  -- For a provider of a valid asset, and with a lock period that is not zero, a use of unlocked
  -- liquidity fails and writes nothing where the records that may be used in this block have
  -- fewer units than are asked for; otherwise it succeeds, and the provider that is written has
  -- the units of before, its usable records have exactly the asked units less, and the records
  -- that are still locked have what they had.
  pub use_unlocked_liquidity-exact :
      (lp : LiquidityProvider) (n : ℕ) (any : Bool) (s : State ext)
      → validate_asset ext.trim_space ext.valid_denom lp.asset ≡ some true
      → (s.reward_params.liquidity_removal_lock_period == 0) ≡ false
      → ((units_of (usable any s) lp.unlocks < n)
          × (use_unlocked_liquidity ext lp n any s ≡ (err Error.balance_not_available, s)))
        ⊎ ((lp' : LiquidityProvider) × (q : LiquidityProvider) × (t : State ext)
            × (use_unlocked_liquidity ext lp n any s ≡ (ok lp', t))
            × (lookup
                  (get_liquidity_provider_key lp.asset lp.liquidity_provider_address)
                  t.providers
                ≡ some q)
            × IsUsed any n lp q s)
  unfolding use_unlocked_liquidity set_liquidity_provider is_unlocked
  use_unlocked_liquidity-exact lp n any s valid locked =
      let f = usable any s in
      let (a, b, c) = use_records-units f n lp.unlocks (usable-IsOfHeight any s) in
      elim (Bool-cases ((use_records f n lp.unlocks).0 == 0)) [
        | inl all ↦
            let records = (use_records f n lp.unlocks).1 in
            let q : LiquidityProvider = record lp { unlocks = drop_empty records } in
            let key = get_liquidity_provider_key lp.asset lp.liquidity_provider_address in
            inr (
              record lp { unlocks = records },
              q,
              record s { providers = set key q s.providers },
              ground arith,
              ground (arith, lookup-set key key q s.providers, str_eq_iff key key),
              record {
                units_same = refl;
                used = omega (
                  arith,
                  b,
                  drop_empty-units f records,
                  (==_iff (use_records f n lp.unlocks).0 0).0 all,
                );
                locked_same = drop_empty-units (λ r. not (f r)) records ∙ c;
              },
            )
        | inr short ↦ inl (ground arith, ground arith)
      ]
