-- ===== src/Clp/Provider.antt =====
-- x/clp/types: a provider of liquidity, the records of its unlocks, and a queued removal; with the
-- loops over the records of x/clp/keeper/rewards.go.
use Prim.Native.String.{◌++◌ as text_append}
use furynode.Prelude.{
  ℕ, ◌-◌, ◌==◌, Bool, true, false, ◌||◌, List, [], ◌∷◌, String, ltb, if◌then◌else◌,
}
use furynode.Prelude.Int.{ℤ, pos, ◌+ℤ◌, leb_ℤ, residue, signed}
use furynode.Prelude.Decimal.{format_int}

pub record LiquidityUnlock : Type 0 where
  pub request_height : ℤ
  pub units : ℕ

pub record LiquidityProvider : Type 0 where
  pub asset : String
  pub liquidity_provider_units : ℕ
  pub liquidity_provider_address : String
  pub unlocks : List LiquidityUnlock

pub record RemoveLiquidityMsg : Type 0 where
  pub signer : String
  pub external_asset : String
  pub w_basis_points : ℤ
  pub asymmetry : ℤ

pub record RemovalRequest : Type 0 where
  pub id : ℤ
  pub value : ℕ
  pub msg : RemoveLiquidityMsg

pub record RemovalQueue : Type 0 where
  pub count : ℤ
  pub id : ℤ
  pub start_height : ℤ
  pub total_value : ℕ

-- The keys, without their prefixes.
unfoldable pub get_liquidity_provider_key : String → String → String
get_liquidity_provider_key external_ticker lp = text_append external_ticker (text_append "_" lp)

unfoldable pub get_removal_request_key : RemovalRequest → String
unfolding format_int
get_removal_request_key r = text_append r.msg.signer (text_append "_" (format_int r.id))

unfoldable pub get_removal_queue_key : String → String
get_removal_queue_key symbol = text_append "_" symbol

abbrev pub new_liquidity_provider : String → ℕ → String → LiquidityProvider
new_liquidity_provider asset units address = record {
  asset = asset;
  liquidity_provider_units = units;
  liquidity_provider_address = address;
  unlocks = [];
}

-- The sum of two `int64`.
unfoldable pub add_int64 : ℤ → ℤ → ℤ
unfolding residue signed ◌+ℤ◌
add_int64 a b = signed (residue (a +ℤ b))

-- `int64` of an `uint64`.
unfoldable pub to_int64 : ℕ → ℤ
unfolding residue signed
to_int64 n = signed (residue (pos n))

-- Whether the lock period of a record has passed at this height.
unfoldable pub is_unlocked : ℕ → ℤ → LiquidityUnlock → Bool
unfolding add_int64 to_int64
is_unlocked lock_period height r = leb_ℤ (add_int64 r.request_height (to_int64 lock_period)) height

-- The loop of `UseUnlockedLiquidity`: the units that are left to use, and the records after it.
unfoldable pub use_records :
    (LiquidityUnlock → Bool) → ℕ → List LiquidityUnlock → ℕ × List LiquidityUnlock
use_records usable left [] = (left, [])
use_records usable left (r ∷ l) =
    if usable r
    then (if ltb r.units left
        then (let (n, rest) = use_records usable (left - r.units) l in
            (n, record r { units = 0 } ∷ rest))
        else (0, record r { units = r.units - left } ∷ l))
    else (let (n, rest) = use_records usable left l in (n, r ∷ rest))

-- The records that have units.
unfoldable pub drop_empty : List LiquidityUnlock → List LiquidityUnlock
drop_empty [] = []
drop_empty (r ∷ l) = if r.units == 0 then drop_empty l else r ∷ drop_empty l

-- Whether a record is cancelled at this height, both periods having passed.
unfoldable pub is_cancelled : ℕ → ℕ → ℤ → LiquidityUnlock → Bool
unfolding add_int64 to_int64
is_cancelled lock_period cancel_period height r =
    leb_ℤ (add_int64 (add_int64 r.request_height (to_int64 lock_period)) (to_int64 cancel_period))
      height

-- The loop of `PruneUnlockRecords`: whether a record was dropped, and those that are left.
unfoldable pub prune_records :
    (LiquidityUnlock → Bool) → List LiquidityUnlock → Bool × List LiquidityUnlock
prune_records cancelled [] = (false, [])
prune_records cancelled (r ∷ l) =
    let (write, rest) = prune_records cancelled l in
    if cancelled r || r.units == 0 then (true, rest) else (write, r ∷ rest)
