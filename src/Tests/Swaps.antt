-- ===== src/Tests/Swaps.antt =====
-- A swap of two legs, with the theorems about the message of a swap.
use furynode.Prelude.{
  keep, ℕ, ◌*◌, ◌/◌, ◌^◌, ◌≤◌, ◌≡◌, refl, subst, true, false, none, some, [], ◌∷◌, String, arith,
  leb,
}
use furynode.Prelude.Int.{pos, pos_part}
use furynode.Prelude.Text.{Bytes, bytes_eq}
use furynode.Prelude.Dict.{lookup}
use furynode.Admin.Keeper.{clpdex, pmtprewards}
use furynode.Chain.Action.{ok}
use furynode.Clp.Pool.{Pool, get_pool_key, validate_asset}
use furynode.Clp.Rat.{rat_int_quo}
use furynode.Prelude.Store.{set, values}
use furynode.Clp.Keeper.{Externals, State}
use furynode.Clp.Server.{SwapMsg, swap}
use furynode.Clp.Custody.{IsKept}
use furynode.Clp.Exchange.{swap-IsKept}
use furynode.Clp.Protection.{updated_threshold}
use furynode.Clp.Threshold.{updated_threshold-total}
use furynode.Tests.Codecs
use furynode.Tests.Ledger
use furynode.Tests.TokenRegistry.{entry}

-- Decimals that are not negative, truncated.
abbrev pub ext : Externals
ext = record {
  bank = Ledger.bank;
  has_balance = λ s a c. leb (pos_part c.1) (s.held a c.0);
  bech32 = Codecs.bech32;
  parse_to_int = λ n. some (pos n);
  trim_space = λ s. s;
  valid_denom = λ _. true;
  dec_mul = λ a b. pos (pos_part a * pos_part b / 10 ^ 18);
  dec_quo = λ a b. some (pos (pos_part a * 10 ^ 18 / pos_part b));
  round_int = λ a. pos (pos_part a / 10 ^ 18);
  truncate_int = λ a. pos (pos_part a / 10 ^ 18);
  dec_from_str = λ a. some (pos (pos_part a * 10 ^ 18));
  parse_dec = λ s. some (pos 0);
  add_coins = Ledger.bank.new_coins;
  entries = λ c. c;
  filtered_paginate = λ f d. keep f (values d);
}

abbrev pool : String → Pool
pool a = record {
  external_asset = a;
  native_asset_balance = 1000;
  external_asset_balance = 1000;
  pool_units = 1000;
  swap_price_native = none;
  swap_price_external = none;
  reward_period_native_distributed = 0;
  external_liabilities = 0;
  external_custody = 0;
  native_liabilities = 0;
  native_custody = 0;
  health = pos 0;
  interest_rate = pos 0;
  last_height_interest_rate_computed = pos 0;
  unsettled_external_liabilities = 0;
  unsettled_native_liabilities = 0;
  block_interest_native = 0;
  block_interest_external = 0;
}

-- Two pools; everyone has ten thousand of each denomination.
abbrev pub before : State ext
before = record {
  coins = record { held = λ a d. 10000; supplied = λ d. 100000 };
  registry = entry "fury" ∷ entry "ceth" ∷ entry "cdai" ∷ [];
  pools = ("cdai_fury", pool "cdai") ∷ ("ceth_fury", pool "ceth") ∷ [];
  protection_params = record {
    max_fury_liquidity_threshold = 500;
    max_fury_liquidity_threshold_asset = "fury";
    epoch_length = 10;
    is_active = true;
  };
  current_fury_liquidity_threshold = 400;
  pmtp_current_running_rate = pos 0;
  swap_fee_params = none;
  height = pos 100;
  providers = [];
  reward_params = record {
    liquidity_removal_lock_period = 10;
    liquidity_removal_cancel_period = 10;
  };
  enable_removal_queue = true;
  removal_requests = [];
  removal_queues = [];
  margin_params = record { pools = []; removal_queue_threshold = pos 0 };
  clp_white_list = none;
  admins = record {
    accounts =
        ("CLPDEX_bob", record { admin_type = clpdex; admin_address = "bob" })
        ∷ ("PMTPREWARDS_ann", record { admin_type = pmtprewards; admin_address = "ann" })
        ∷ [];
    submit_proposal_fee = none;
  };
  pmtp_params = record {
    pmtp_period_governance_rate = pos 0;
    pmtp_period_epoch_length = pos 1;
    pmtp_period_start_block = pos 0;
    pmtp_period_end_block = pos 0;
  };
  pmtp_epoch = record { epoch_counter = pos 0; block_counter = pos 0 };
  pmtp_period_block_rate = pos 0;
  pmtp_inter_policy_rate = pos 0;
}

abbrev pub msg : SwapMsg
msg = record {
  signer = "ann";
  sent_asset = "ceth";
  received_asset = "cdai";
  sent_amount = 100;
  min_receiving_amount = 50;
}

abbrev after : State ext
after = (swap ext msg before).1

swap_runs : swap ext msg before ≡ (ok tt, after)
unfolding swap lookup get_pool_key rat_int_quo validate_asset set bytes_eq
swap_runs = refl

pub before-IsKept : IsKept ext before
unfolding get_pool_key
before-IsKept = record { keyed = (refl, (refl, tt)); covered = λ d. ground arith }

pub ann_is_not_module :
    (a : Bytes) → Codecs.bech32.acc_from_bech32 "ann" ≡ some a → bytes_eq a (0 ∷ []) ≡ false
unfolding bytes_eq
ann_is_not_module a h =
    let f : Codecs.ann ≡ a = ground arith in subst (λ a. bytes_eq a (0 ∷ []) ≡ false) f refl

swap-IsKept_example : IsKept ext after
swap-IsKept_example =
    swap-IsKept ext Ledger.bank_laws (λ n i e. ground arith) msg before after before-IsKept
      ann_is_not_module swap_runs

updated_threshold-total_example :
    (n : ℕ) × (updated_threshold ext false 500 400 300 ≡ some n) × (n ≤ 500) × n ≡ 500
updated_threshold-total_example =
    updated_threshold-total ext false 500 400 300 (omega arith) (omega arith)
      (λ e. absurd (ground arith))
