-- ===== src/Tests/TokenRegistry.antt =====
-- Runs of the token registry: Ann is its admin, and Bob is not.
use furynode.Prelude.{◌≡◌, none, some, [], ◌∷◌, String, if◌then◌else◌}
use furynode.Prelude.Int.{pos}
use furynode.Prelude.Text.{str_eq}
use furynode.Chain.Action.{ok, err, Error}
use furynode.Admin.Keeper.{tokenregistry}
use furynode.TokenRegistry.Keeper.{
  RegistryEntry, Registry, State, RegisterMsg, SetRegistryMsg, DeregisterMsg, clp, get_entry,
  set_token, remove_token, register, set_registry, deregister,
}
use furynode.TokenRegistry.Entries.{
  get_entry-set_token, get_entry-remove_token, Answers, messages-Answers,
}
use furynode.Tests.Codecs.{bech32}

abbrev pub entry : String → RegistryEntry
entry denom = record {
  decimals = pos 18;
  denom = denom;
  base_denom = denom;
  path = "";
  ibc_channel_id = "";
  ibc_counterparty_channel_id = "";
  display_name = "";
  display_symbol = "";
  network = "";
  address = "";
  external_symbol = "";
  transfer_limit = "";
  permissions = clp ∷ [];
  unit_denom = "";
  ibc_counterparty_denom = "";
  ibc_counterparty_chain_id = "";
}

abbrev entries : Registry
entries = entry "fury" ∷ entry "ceth" ∷ entry "cdai" ∷ entry "ceth" ∷ []

abbrev state : State
state = record {
  registry = entries;
  admin_store = record {
    accounts =
        ("TOKENREGISTRY_ann", record { admin_type = tokenregistry; admin_address = "ann" }) ∷ [];
    submit_proposal_fee = none;
  };
}

get_entry-set_token_example :
    get_entry (set_token (entry "ceth") entries) "cdai"
    ≡ (if str_eq "ceth" "cdai" then ok (entry "ceth") else get_entry entries "cdai")
get_entry-set_token_example = get_entry-set_token (entry "ceth") "cdai" entries

get_entry-remove_token_example :
    get_entry (remove_token "ceth" entries) "ceth"
    ≡ (if str_eq "ceth" "ceth" then err Error.key_not_found else get_entry entries "ceth")
get_entry-remove_token_example = get_entry-remove_token "ceth" "ceth" entries

abbrev by_ann : RegisterMsg
by_ann = record { from = "ann"; entry = some (entry "cusdc") }

abbrev by_bob : SetRegistryMsg
by_bob = record { from = "bob"; registry = some [] }

abbrev by_ann_too : DeregisterMsg
by_ann_too = record { from = "ann"; denom = "ceth" }

messages-Answers_example :
    Answers bech32 "ann" state (register bech32 by_ann state)
    × Answers bech32 "bob" state (set_registry bech32 by_bob state)
    × Answers bech32 "ann" state (deregister bech32 by_ann_too state)
messages-Answers_example = messages-Answers bech32 by_ann by_bob by_ann_too state
