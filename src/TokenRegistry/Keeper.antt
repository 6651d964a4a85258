-- ===== src/TokenRegistry/Keeper.antt =====
-- x/tokenregistry/keeper/keeper.go and msg_server.go, and the permissions of x/tokenregistry/types.
use furynode.Prelude.{
  Bool, true, false, not, ◌||◌, Option, List, [], ◌∷◌, String, keep, if◌then◌else◌,
}
use furynode.Prelude.Int.{ℤ}
use furynode.Prelude.Text.{str_eq}
use furynode.Chain.Address.{Bech32}
use furynode.Chain.Action.{
  Action, Outcome, ok, err, Error, ◌>>=◌, ◌>>◌, fail_if, or_fail, or_panic, gets, modify,
}
use furynode.Admin.Keeper as Admin
use furynode.Admin.Keeper.{AdminStore}

pub data Permission : Type 0 where
  unspecified clp ibc_export ibc_import disable_buy disable_sell : Permission

-- `==` on the enumeration.
unfoldable pub permission_eq : Permission → Permission → Bool
permission_eq unspecified unspecified = true
permission_eq clp clp = true
permission_eq ibc_export ibc_export = true
permission_eq ibc_import ibc_import = true
permission_eq disable_buy disable_buy = true
permission_eq disable_sell disable_sell = true
permission_eq _ _ = false

unfoldable pub get_permission_from_string : String → Permission
get_permission_from_string s =
    if str_eq s "permission_clp"
    then clp
    else (if str_eq s "permission_ibc_export"
        then ibc_export
        else (if str_eq s "permission_ibc_import" then ibc_import else unspecified))

pub record RegistryEntry : Type 0 where
  pub decimals : ℤ
  pub denom : String
  pub base_denom : String
  pub path : String
  pub ibc_channel_id : String
  pub ibc_counterparty_channel_id : String
  pub display_name : String
  pub display_symbol : String
  pub network : String
  pub address : String
  pub external_symbol : String
  pub transfer_limit : String
  pub permissions : List Permission
  pub unit_denom : String
  pub ibc_counterparty_denom : String
  pub ibc_counterparty_chain_id : String

-- A stored list holds no nil entry: marshalling one is a panic.
abbrev pub Registry : Type 0
Registry = List RegistryEntry

unfoldable pub has_permission : Permission → List Permission → Bool
unfolding permission_eq
has_permission p [] = false
has_permission p (q ∷ l) = permission_eq q p || has_permission p l

unfoldable pub check_entry_permissions : RegistryEntry → List Permission → Bool
unfolding has_permission
check_entry_permissions e [] = true
check_entry_permissions e (p ∷ required) =
    if not (has_permission p e.permissions) then false else check_entry_permissions e required

unfoldable pub get_entry : Registry → String → Outcome RegistryEntry
get_entry [] denom = err Error.key_not_found
get_entry (e ∷ l) denom = if str_eq e.denom denom then ok e else get_entry l denom

-- The first entry of the denomination is replaced; else the entry goes to the end.
unfoldable pub put_entry : RegistryEntry → Registry → Registry
put_entry entry [] = entry ∷ []
put_entry entry (e ∷ l) = if str_eq e.denom entry.denom then entry ∷ l else e ∷ put_entry entry l

unfoldable pub set_token : RegistryEntry → Registry → Registry
unfolding put_entry
set_token entry registry = put_entry entry registry

unfoldable pub remove_token : String → Registry → Registry
remove_token denom registry = keep (λ e. not (str_eq e.denom denom)) registry

-- The store of the module, and that of the module that knows its admins.
pub record State : Type 0 where
  pub registry : Registry
  pub admin_store : AdminStore

-- A nil entry, which a message may hold, does not survive the call.
pub record RegisterMsg : Type 0 where
  pub from : String
  pub entry : Option RegistryEntry

pub record SetRegistryMsg : Type 0 where
  pub from : String
  pub registry : Option Registry

pub record DeregisterMsg : Type 0 where
  pub from : String
  pub denom : String

-- The check that each handler begins with.
unfoldable pub authorise : Bech32 → String → Action State (Unit {0})
authorise b from = do
  address ← or_fail (b.acc_from_bech32 from) Error.sdk_error
  allowed ← gets (λ s. Admin.is_admin_account b s.admin_store Admin.tokenregistry address)
  fail_if (not allowed) Error.invalid_address

unfoldable pub register : Bech32 → RegisterMsg → Action State (Unit {0})
unfolding authorise set_token
register b m = do
  authorise b m.from
  entry ← or_panic m.entry
  modify (λ s. record s { registry = set_token entry s.registry })

unfoldable pub set_registry : Bech32 → SetRegistryMsg → Action State (Unit {0})
unfolding authorise
set_registry b m = do
  authorise b m.from
  registry ← or_panic m.registry
  modify (λ s. record s { registry = registry })

unfoldable pub deregister : Bech32 → DeregisterMsg → Action State (Unit {0})
unfolding authorise remove_token
deregister b m = do
  authorise b m.from
  modify (λ s. record s { registry = remove_token m.denom s.registry })
