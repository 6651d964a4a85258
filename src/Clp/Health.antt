-- ===== src/Clp/Health.antt =====
-- x/margin/keeper: what the messages of liquidity ask of the margin keeper. Sums of decimals are
-- taken to be in their range.
use furynode.Prelude.{◌+◌, ◌==◌, Bool, ◌||◌, Option, some, String, if◌then◌else◌}
use furynode.Prelude.Int.{ℤ, pos}
use furynode.Prelude.Text.{contains}
use furynode.Clp.Rat.{◌>>=◌}
use furynode.Clp.Pool.{Pool}
use furynode.Clp.Keeper.{Externals, MarginParams}
use furynode.Clp.Protection.{dec_of}

unfoldable pub is_pool_enabled : MarginParams → String → Bool
unfolding contains
is_pool_enabled params asset = contains asset params.pools

-- `none` is a panic.
unfoldable pub calculate_pool_health : (ext : Externals) → Pool → Option ℤ
calculate_pool_health ext p =
    let external = p.external_asset_balance + p.external_liabilities in
    let native = p.native_asset_balance + p.native_liabilities in
    if external == 0 || native == 0 then some (pos 0) else (do
      mul1 ← ext.dec_quo (dec_of p.external_asset_balance) (dec_of external)
      mul2 ← ext.dec_quo (dec_of p.native_asset_balance) (dec_of native)
      some (ext.dec_mul mul1 mul2))
