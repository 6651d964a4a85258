-- ===== src/Tests/Minting.antt =====
-- A ledger that mints in every block, with the theorem about the end of the minting.
use furynode.Prelude.{◌+◌, ◌*◌, ◌≡◌, refl, [], ◌∷◌, arith}
use furynode.Prelude.Int.{pos}
use furynode.Chain.Action.{ok}
use furynode.Dispensation.Keeper.{State}
use furynode.Dispensation.Mint.{settlement_asset}
use furynode.Dispensation.Cap.{counter}
use furynode.Dispensation.Progress.{IsWilling, begin_blocks, capped, begin_blocks-counter}
use furynode.Tests.Dispensation.{ext, ann_rich}

-- Every coin of a block is minted and paid by the ledger.
willing : IsWilling ext
willing = record {
  coins_of = λ n. (settlement_asset, pos n) ∷ [];
  made = λ n b. refl;
  valid = λ n b. refl;
  mints = λ n s b. (_, refl);
  pool = _;
  decoded = refl;
  pays = λ n s t e. absurd (ground arith);
}

begin_blocks-counter_example :
    (t : State ext) × (begin_blocks ext 1555556 ann_rich ≡ (ok tt, t))
    × (t.mint_controller ≡ counter ext (capped (7 + 1555556 * 225000000000000000000)))
begin_blocks-counter_example =
    begin_blocks-counter ext willing 1555556 7 ann_rich refl (omega arith)
