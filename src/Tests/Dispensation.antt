-- ===== src/Tests/Dispensation.antt =====
-- Tests of Dispensation, and the theorems about it at concrete states.
use furynode.Prelude.{
  ℕ, ◌+◌, ◌++◌, ◌≤◌, ◌≡◌, refl, subst, ◌⊎◌, Bool, true, false, some, All, length, List, [], ◌∷◌,
  String, arith, if◌then◌else◌,
}
use furynode.Prelude.Int.{pos, negsuc, pos_part, ◌-ℤ◌, ◌+ℤ◌}
use furynode.Prelude.Text.{Bytes, bytes_eq, str_eq}
use furynode.Prelude.Dict.{lookup}
use furynode.Prelude.Store.{set, has, replace, place, values}
use furynode.Prelude.Decimal.{format_int}
use furynode.Chain.Action.{Outcome, ok}
use furynode.Chain.Bank.{RefusalLaws, total_of}
use furynode.Chain.Address.{Bech32}
use furynode.Dispensation.Records.{
  Externals, CoinLaws, DistributionRecord, DistributionType, airdrop, pending,
  validate_distribution, validate_record, add_record, get_distribution_record_key,
  get_distributions_key, distribution_name, does_type_support_claim,
}
use furynode.Dispensation.Keeper.{
  State, exists_distribution, set_distribution, exists_distribution_record, set_distribution_record,
  get_distribution_record, delete_distribution_record, change_record_status, records_at,
  with_records, limited, may_run, get_distribution_records_iterator, get_limited_records_for_runner,
}
use furynode.Dispensation.Executors.{
  distribute_drops, distribute_all, distribute_drop, complete_drop, verify_and_set_distribution,
  accumulate_drops, total_output, create_drops, new_drop, add_outputs,
}
use furynode.Dispensation.Server.{
  Block, CreateMsg, RunMsg, create, handle, create_distribution, get_signer, validate_run, check,
}
use furynode.Dispensation.Names.{
  type_name, is_valid_distribution_type, is_valid_distribution_type-type_name,
}
use furynode.Dispensation.Mint.{
  begin_blocker, eco_pool, max_mint_amount, mint_amount_per_block, tokens_can_be_minted,
  mint_amount, is_last_block, mint_to_pool, add_mint_amount, set_mint_controller,
}
use furynode.Dispensation.Reserve.{IsSolvent}
use furynode.Dispensation.Runs.{IsSettled, distribute_drops-IsSolvent}
use furynode.Dispensation.Selection.{IsSelection, distribute_drops-IsSelection}
use furynode.Dispensation.Creation.{create_distribution-IsSolvent}
use furynode.Dispensation.Cap.{IsMinted, counter, begin_blocker-IsMinted}
use furynode.Dispensation.Histories.{deliver, Reaches, start, then_step, IsSound, Reaches-IsSound}
use furynode.Tests.Codecs
use furynode.Tests.Ledger

-- The codec of the other tests, and the address of the pool.
abbrev bech32 : Bech32
bech32 = record Codecs.bech32 {
  acc_from_bech32 =
      λ s. if str_eq s eco_pool then some (3 ∷ []) else Codecs.bech32.acc_from_bech32 s;
}

abbrev pub ext : Externals
ext = record {
  bank = Ledger.bank;
  bech32 = bech32;
  add_coins = λ a b. a ++ b;
  is_valid = λ _. true;
  is_all_positive = λ _. true;
  Timestamp = ℕ;
}

total_of-add_coins :
    (a b : Ledger.Coins) (d : String) → total_of d (a ++ b) ≡ total_of d a + total_of d b
total_of-add_coins [] b d = omega arith
total_of-add_coins ((e, x) ∷ a) b d = omega (arith, total_of-add_coins a b d)

coin_laws : CoinLaws ext
coin_laws = record { amount_of-add_coins = total_of-add_coins }

-- The module has nothing, and the others a hundred of each denomination.
abbrev pub ann_rich : State ext
ann_rich = record {
  coins = record { held = λ a d. if bytes_eq a (0 ∷ []) then 0 else 100; supplied = λ d. 100 };
  distributions = [];
  pending_records = [];
  completed_records = [];
  failed_records = [];
  claims = [];
  mint_controller = counter ext 7;
}

abbrev block : Block ext
block = record { height = pos 5; time = some 9 }

-- Ann gives thirty to Bob, and twenty more to Bob.
abbrev msg : CreateMsg ext
msg = record {
  distributor = "ann";
  authorized_runner = "ann";
  distribution_type = airdrop;
  output =
      record { address = "bob"; coins = ("fury", pos 30) ∷ [] }
      ∷ record { address = "bob"; coins = ("fury", pos 20) ∷ [] }
      ∷ [];
}

abbrev created : State ext
created = (handle ext block (create msg) ann_rich).1

refusals : RefusalLaws Ledger.bank
refusals = record {
  from_module_refused = λ m b c s t e h short. ground arith;
  mint_refused = λ m c s t e h. absurd (ground arith);
}

ann_rich-IsSolvent : IsSolvent ext ann_rich
ann_rich-IsSolvent = record { unique = tt; keyed = tt; covered = λ d. omega arith }

is_not_module :
    (s : String) (b : Bytes)
    → bech32.acc_from_bech32 s ≡ some b
    → bytes_eq b (0 ∷ []) ≡ false
    → (a : Bytes) → bech32.acc_from_bech32 s ≡ some a
    → bytes_eq a (0 ∷ []) ≡ false
is_not_module s b e other a h =
    let f : b ≡ a = ground arith in subst (λ a. bytes_eq a (0 ∷ []) ≡ false) f other

ann_is_not_module :
    (a : Bytes) → bech32.acc_from_bech32 "ann" ≡ some a → bytes_eq a (0 ∷ []) ≡ false
unfolding bytes_eq
ann_is_not_module = is_not_module "ann" Codecs.ann refl refl

create_runs : handle ext block (create msg) ann_rich ≡ (ok tt, created)
unfolding handle create_distribution verify_and_set_distribution exists_distribution
    set_distribution validate_distribution accumulate_drops total_output create_drops new_drop
    exists_distribution_record set_distribution_record validate_record get_distribution_record
    add_record records_at with_records has set replace place lookup get_distribution_record_key
    get_distributions_key distribution_name format_int add_outputs bytes_eq
create_runs = refl

-- Both outputs wait in one record.
outputs_merge : length created.pending_records ≡ 1
unfolding handle create_distribution verify_and_set_distribution exists_distribution
    set_distribution validate_distribution accumulate_drops total_output create_drops new_drop
    exists_distribution_record set_distribution_record validate_record get_distribution_record
    add_record records_at with_records has set replace place lookup get_distribution_record_key
    get_distributions_key distribution_name format_int add_outputs bytes_eq
outputs_merge = refl

abbrev run_all : Outcome (List (DistributionRecord ext)) × State ext
run_all = distribute_drops ext (pos 6) "5_ann" "ann" airdrop (pos 10) created

abbrev paid : State ext
paid = run_all.1

run_pays : run_all ≡ (ok (values created.pending_records), paid)
unfolding handle create_distribution verify_and_set_distribution exists_distribution
    set_distribution validate_distribution accumulate_drops total_output create_drops new_drop
    exists_distribution_record set_distribution_record validate_record get_distribution_record
    add_record records_at with_records has set replace place lookup get_distribution_record_key
    get_distributions_key distribution_name format_int add_outputs bytes_eq distribute_drops
    distribute_all distribute_drop complete_drop delete_distribution_record change_record_status
    limited may_run get_distribution_records_iterator get_limited_records_for_runner values
    does_type_support_claim
run_pays = refl

-- Bob has fifty more.
bob_is_paid : paid.coins.held Codecs.bob "fury" ≡ 150
unfolding handle create_distribution verify_and_set_distribution exists_distribution
    set_distribution validate_distribution accumulate_drops total_output create_drops new_drop
    exists_distribution_record set_distribution_record validate_record get_distribution_record
    add_record records_at with_records has set replace place lookup get_distribution_record_key
    get_distributions_key distribution_name format_int add_outputs bytes_eq distribute_drops
    distribute_all distribute_drop complete_drop delete_distribution_record change_record_status
    limited may_run get_distribution_records_iterator get_limited_records_for_runner values
    does_type_support_claim
bob_is_paid = refl

create_distribution-IsSolvent_example : IsSolvent ext created
unfolding handle create_distribution
create_distribution-IsSolvent_example =
    create_distribution-IsSolvent ext Ledger.bank_laws coin_laws block msg ann_rich created
      ann_rich-IsSolvent ann_is_not_module create_runs

created-IsSolvent : IsSolvent ext created
unfolding handle create_distribution
created-IsSolvent =
    create_distribution-IsSolvent ext Ledger.bank_laws coin_laws block msg ann_rich created
      ann_rich-IsSolvent ann_is_not_module create_runs

distribute_drops-IsSolvent_example :
    IsSolvent ext paid
    × All (IsSettled ext Ledger.bank_laws refusals paid) (values created.pending_records)
distribute_drops-IsSolvent_example =
    distribute_drops-IsSolvent ext Ledger.bank_laws refusals (pos 6) "5_ann" "ann" airdrop (pos 10)
      created paid (values created.pending_records) created-IsSolvent run_pays

abbrev minted : State ext
minted = (begin_blocker ext ann_rich).1

begin_mints : begin_blocker ext ann_rich ≡ (ok tt, minted)
unfolding begin_blocker tokens_can_be_minted mint_amount is_last_block mint_to_pool add_mint_amount
    set_mint_controller bytes_eq ◌-ℤ◌ ◌+ℤ◌
begin_mints = refl

begin_blocker-IsMinted_example :
    (n : ℕ) × (n ≤ pos_part mint_amount_per_block)
    × (7 + n ≤ pos_part max_mint_amount)
    × IsMinted ext 7 n ann_rich minted
begin_blocker-IsMinted_example =
    begin_blocker-IsMinted ext Ledger.bank_laws refusals 7 ann_rich minted refl (omega arith)
      begin_mints

abbrev has_key : Bytes → Bool
has_key a = bytes_eq a Codecs.ann

history : Reaches ext has_key ann_rich created
unfolding bytes_eq get_signer
history =
    then_step ann_rich created start
      (deliver block (create msg) Codecs.ann created refl refl create_runs)

abbrev ann_rich-IsSound : IsSound ext has_key ann_rich
ann_rich-IsSound = record {
  solvent = ann_rich-IsSolvent;
  minted = 7;
  counted = refl;
  capped = omega arith;
}

Reaches-IsSound_example : (after : IsSound ext has_key created) × (7 ≤ after.minted)
unfolding bytes_eq
Reaches-IsSound_example =
    Reaches-IsSound ext has_key Ledger.bank_laws refusals coin_laws ann_rich created refl
      ann_rich-IsSound history

-- Bob gives ten to Ann, for himself to run.
abbrev bob_msg : CreateMsg ext
bob_msg = record {
  distributor = "bob";
  authorized_runner = "bob";
  distribution_type = airdrop;
  output = record { address = "ann"; coins = ("fury", pos 10) ∷ [] } ∷ [];
}

abbrev both : State ext
both = (create_distribution ext block bob_msg created).1

-- What waits for Ann.
abbrev anns : DistributionRecord ext
anns = record {
  distribution_status = pending;
  distribution_type = airdrop;
  distribution_name = "5_bob";
  recipient_address = "ann";
  coins = ("fury", pos 10) ∷ [];
  distribution_start_height = pos 5;
  distribution_completed_height = negsuc 0;
  authorized_runner = "bob";
}

abbrev run_msg : RunMsg
run_msg = record {
  authorized_runner = "ann";
  distribution_name = "5_ann";
  distribution_type = airdrop;
  distribution_count = pos 10;
}

abbrev run_both : Outcome (List (DistributionRecord ext)) × State ext
run_both = distribute_drops ext (pos 6) "5_ann" "ann" airdrop (pos 10) both

run_both_pays : run_both ≡ (ok (values created.pending_records), run_both.1)
unfolding handle create_distribution verify_and_set_distribution exists_distribution
    set_distribution validate_distribution accumulate_drops total_output create_drops new_drop
    exists_distribution_record set_distribution_record validate_record get_distribution_record
    add_record records_at with_records has set replace place lookup get_distribution_record_key
    get_distributions_key distribution_name format_int add_outputs bytes_eq distribute_drops
    distribute_all distribute_drop complete_drop delete_distribution_record change_record_status
    limited may_run get_distribution_records_iterator get_limited_records_for_runner values
    does_type_support_claim
run_both_pays = refl

run_valid : validate_run ext run_msg ≡ ok tt
unfolding validate_run check is_valid_distribution_type type_name
run_valid = refl

distribute_drops-IsSelection_example : IsSelection ext run_msg both (values created.pending_records)
distribute_drops-IsSelection_example =
    distribute_drops-IsSelection ext (pos 6) run_msg both run_both.1
      (values created.pending_records) run_valid run_both_pays

is_valid_distribution_type-type_name_example :
    ((is_valid_distribution_type (type_name airdrop)).0 ≡ airdrop)
    × ((is_valid_distribution_type (type_name airdrop)).1 ≡ true
        ⊎ airdrop ≡ DistributionType.unspecified)
    × ((is_valid_distribution_type "DISTRIBUTION_TYPE_AIRDROP").1 ≡ false
        ⊎ type_name (is_valid_distribution_type "DISTRIBUTION_TYPE_AIRDROP").0
          ≡ "DISTRIBUTION_TYPE_AIRDROP")
is_valid_distribution_type-type_name_example =
    is_valid_distribution_type-type_name airdrop "DISTRIBUTION_TYPE_AIRDROP"
