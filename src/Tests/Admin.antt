-- ===== src/Tests/Admin.antt =====
-- Runs of the admin module.
use furynode.Prelude.{◌≡◌, refl, ◌||◌, ◌&&◌, not, [], ◌∷◌}
use furynode.Prelude.{none}
use furynode.Admin.Keeper.{
  AdminAccount, AdminStore, ethbridge, clpdex, get_admin_account_key, set_admin_account,
  remove_admin_account, is_admin_account,
}
use furynode.Admin.Accounts.{
  matches, IsKeyed, get_admin_account_key-injective, is_admin_account-set_admin_account,
  is_admin_account-remove_admin_account,
}
use furynode.Tests.Codecs.{bech32, ann, bob}

abbrev ann_of_bridge : AdminAccount
ann_of_bridge = record { admin_type = ethbridge; admin_address = "ann" }

abbrev bob_of_clp : AdminAccount
bob_of_clp = record { admin_type = clpdex; admin_address = "bob" }

abbrev store : AdminStore
store = record { accounts = ("ETHBRIDGE_ann", ann_of_bridge) ∷ []; submit_proposal_fee = none }

store-IsKeyed : IsKeyed store.accounts
unfolding get_admin_account_key
store-IsKeyed = (refl, tt)

get_admin_account_key-injective_example : ann_of_bridge ≡ ann_of_bridge
get_admin_account_key-injective_example =
    get_admin_account_key-injective ann_of_bridge ann_of_bridge refl

is_admin_account-set_admin_account_example :
    let s' = (set_admin_account bob_of_clp store).1 in
    (is_admin_account bech32 s' clpdex bob ≡ (
      matches clpdex (bech32.acc_string bob) bob_of_clp
      || is_admin_account bech32 store clpdex bob))
    × IsKeyed s'.accounts
is_admin_account-set_admin_account_example =
    is_admin_account-set_admin_account bech32 bob_of_clp clpdex bob store store-IsKeyed

is_admin_account-remove_admin_account_example :
    let s' = (remove_admin_account ann_of_bridge store).1 in
    (is_admin_account bech32 s' ethbridge ann ≡ (
      not (matches ethbridge (bech32.acc_string ann) ann_of_bridge)
      && is_admin_account bech32 store ethbridge ann))
    × IsKeyed s'.accounts
is_admin_account-remove_admin_account_example =
    is_admin_account-remove_admin_account bech32 ann_of_bridge ethbridge ann store store-IsKeyed
