-- ===== src/Admin/Keeper.antt =====
-- x/admin/keeper/keeper.go and msg_server.go, and the account key of x/admin/types/keys.go.
use Prim.Native.String.{◌++◌ as text_append}
use furynode.Prelude.{
  ℕ, Bool, true, false, not, ◌||◌, Option, none, some, List, [], ◌∷◌, String, if◌then◌else◌,
}
use furynode.Prelude.Text.{Bytes, str_eq}
use furynode.Prelude.Dict.{Dict, insert, delete}
use furynode.Chain.Address.{Bech32}
use furynode.Chain.Action.{Action, Error, ◌>>=◌, ◌>>◌, fail_if, or_fail, or_panic, gets, modify}

pub data AdminType : Type 0 where
  clpdex pmtprewards tokenregistry ethbridge admin margin : AdminType

-- `AdminType.String`
unfoldable pub type_string : AdminType → String
type_string clpdex = "CLPDEX"
type_string pmtprewards = "PMTPREWARDS"
type_string tokenregistry = "TOKENREGISTRY"
type_string ethbridge = "ETHBRIDGE"
type_string admin = "ADMIN"
type_string margin = "MARGIN"

-- `==` on the enumeration.
unfoldable pub type_eq : AdminType → AdminType → Bool
type_eq clpdex clpdex = true
type_eq pmtprewards pmtprewards = true
type_eq tokenregistry tokenregistry = true
type_eq ethbridge ethbridge = true
type_eq admin admin = true
type_eq margin margin = true
type_eq _ _ = false

pub record AdminAccount : Type 0 where
  pub admin_type : AdminType
  pub admin_address : String

-- The store: the accounts by key, without the prefix, and the parameters.
pub record AdminStore : Type 0 where
  pub accounts : Dict AdminAccount
  pub submit_proposal_fee : Option ℕ

unfoldable pub get_admin_account_key : AdminAccount → String
unfolding type_string
get_admin_account_key a = text_append (type_string a.admin_type) (text_append "_" a.admin_address)

unfoldable pub set_admin_account : AdminAccount → Action AdminStore (Unit {0})
unfolding get_admin_account_key
set_admin_account a =
    modify λ s. record s { accounts = insert (get_admin_account_key a) a s.accounts }

unfoldable pub remove_admin_account : AdminAccount → Action AdminStore (Unit {0})
unfolding get_admin_account_key
remove_admin_account a =
    modify λ s. record s { accounts = delete (get_admin_account_key a) s.accounts }

-- The iterator over the prefix, in the order of the store.
unfoldable pub get_admin_accounts : Dict AdminAccount → List AdminAccount
get_admin_accounts [] = []
get_admin_accounts ((k, a) ∷ d) = a ∷ get_admin_accounts d

unfoldable pub get_admin_accounts_for_type : AdminType → Dict AdminAccount → List AdminAccount
unfolding type_eq
get_admin_accounts_for_type t [] = []
get_admin_accounts_for_type t ((k, a) ∷ d) =
    let rest = get_admin_accounts_for_type t d in if type_eq a.admin_type t then a ∷ rest else rest

unfoldable pub has_address : String → List AdminAccount → Bool
has_address address [] = false
has_address address (a ∷ as_) = str_eq a.admin_address address || has_address address as_

unfoldable pub is_admin_account : Bech32 → AdminStore → AdminType → Bytes → Bool
unfolding has_address get_admin_accounts_for_type
is_admin_account b s t address =
    has_address (b.acc_string address) (get_admin_accounts_for_type t s.accounts)

unfoldable pub get_submit_proposal_fee : AdminStore → ℕ
get_submit_proposal_fee s = elim s.submit_proposal_fee [
  | none ↦ 5000000000000000000000
  | some fee ↦ fee
]

-- The account of a message is a pointer, which may be nil.
pub record AccountMsg : Type 0 where
  pub signer : String
  pub account : Option AdminAccount

pub record ParamsMsg : Type 0 where
  pub signer : String
  pub submit_proposal_fee : ℕ

-- The check that each handler begins with.
unfoldable pub authorise : Bech32 → String → Action AdminStore (Unit {0})
authorise b signer = do
  address ← or_fail (b.acc_from_bech32 signer) Error.sdk_error
  allowed ← gets (λ s. is_admin_account b s admin address)
  fail_if (not allowed) Error.invalid_address

unfoldable pub msg_set_params : Bech32 → ParamsMsg → Action AdminStore (Unit {0})
unfolding authorise
msg_set_params b m = do
  authorise b m.signer
  modify (λ s. record s { submit_proposal_fee = some m.submit_proposal_fee })

unfoldable pub msg_add_account : Bech32 → AccountMsg → Action AdminStore (Unit {0})
unfolding authorise
msg_add_account b m = do
  authorise b m.signer
  account ← or_panic m.account
  set_admin_account account

unfoldable pub msg_remove_account : Bech32 → AccountMsg → Action AdminStore (Unit {0})
unfolding authorise
msg_remove_account b m = do
  authorise b m.signer
  account ← or_panic m.account
  remove_admin_account account

unfoldable pub init_genesis : List AdminAccount → Action AdminStore (Unit {0})
init_genesis [] s = modify (λ t. t) s
init_genesis (a ∷ as_) s = (set_admin_account a >> init_genesis as_) s

-- `ExportGenesis`
unfoldable pub export_genesis : AdminStore → List AdminAccount
unfolding get_admin_accounts
export_genesis s = get_admin_accounts s.accounts
