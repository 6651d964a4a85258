-- ===== src/Admin/Accounts.antt =====
-- Which accounts are admins after each change of the store.
use Prim.Native.Char.{code}
use Prim.Native.String.{◌++◌ as text_append}
use text.Mathlib.TextLemmas.{cons-append, append_cancel_left}
use furynode.Prelude.{
  ℕ, ◌≡◌, ◌↔◌, inl, inr, refl, subst, sym, ap, ◌∙◌, Bool, true, false, not, ◌&&◌, ◌||◌, [], ◌∷◌,
  String, arith, Bool-cases,
}
use furynode.Prelude.Text.{Bytes, str_eq, str_eq_iff}
use furynode.Prelude.Dict.{Dict, insert, delete}
use furynode.Chain.Address.{Bech32}
use furynode.Admin.Keeper.{
  AdminType, clpdex, pmtprewards, tokenregistry, ethbridge, admin, margin, type_string, type_eq,
  AdminAccount, AdminStore, get_admin_account_key, set_admin_account, remove_admin_account,
  get_admin_accounts_for_type, has_address, is_admin_account,
}

-- The first letter of a text; the names of the types differ in it.
first : String → ℕ
first String.[] = 0
first (String.◌∷◌ c s) = code c

initial : AdminType → ℕ
initial clpdex = b'C'
initial pmtprewards = b'P'
initial tokenregistry = b'T'
initial ethbridge = b'E'
initial admin = b'A'
initial margin = b'M'

first-type_string :
    (t : AdminType) (rest : String) → first (text_append (type_string t) rest) ≡ initial t
unfolding first initial type_string
first-type_string clpdex rest = ap first (cons-append "C" "LPDEX" rest)
first-type_string pmtprewards rest = ap first (cons-append "P" "MTPREWARDS" rest)
first-type_string tokenregistry rest = ap first (cons-append "T" "OKENREGISTRY" rest)
first-type_string ethbridge rest = ap first (cons-append "E" "THBRIDGE" rest)
first-type_string admin rest = ap first (cons-append "A" "DMIN" rest)
first-type_string margin rest = ap first (cons-append "M" "ARGIN" rest)

initial-injective : (t u : AdminType) → initial t ≡ initial u → t ≡ u
unfolding initial
initial-injective t u h = ground arith

type_eq_iff : (t u : AdminType) → (type_eq t u ≡ true) ↔ (t ≡ u)
unfolding type_eq
type_eq_iff t u = ground arith

-- Two accounts with one key are one account.
pub get_admin_account_key-injective :
    (a b : AdminAccount) → get_admin_account_key a ≡ get_admin_account_key b → a ≡ b
unfolding get_admin_account_key
get_admin_account_key-injective a b h =
    let t : a.admin_type ≡ b.admin_type = initial-injective _ _ (
      sym (first-type_string a.admin_type (text_append "_" a.admin_address))
      ∙ ap first h
      ∙ first-type_string b.admin_type (text_append "_" b.admin_address)) in
    let h' : text_append (type_string b.admin_type) (text_append "_" a.admin_address)
        ≡ text_append (type_string b.admin_type) (text_append "_" b.admin_address) =
      subst
        (λ x.
          text_append (type_string x) (text_append "_" a.admin_address) ≡ get_admin_account_key b)
        t h in
    let address : a.admin_address ≡ b.admin_address =
      append_cancel_left "_" _ _ (append_cancel_left (type_string b.admin_type) _ _ h') in
    ground arith

-- The account is one of this type with this address.
abbrev pub matches : AdminType → String → AdminAccount → Bool
matches t address a = type_eq a.admin_type t && str_eq a.admin_address address

-- Each account stands under its own key.
abbrev pub IsKeyed : Dict AdminAccount → Type 0
IsKeyed [] = Unit
IsKeyed ((k, a) ∷ d) = (k ≡ get_admin_account_key a) × IsKeyed d

abbrev listed : AdminType → String → Dict AdminAccount → Bool
listed t address d = has_address address (get_admin_accounts_for_type t d)

listed-cons :
    (t : AdminType) (address k : String) (a : AdminAccount) (d : Dict AdminAccount)
    → listed t address ((k, a) ∷ d) ≡ (matches t address a || listed t address d)
unfolding get_admin_accounts_for_type has_address
listed-cons t address k a d = elim (Bool-cases (type_eq a.admin_type t)) [
  | inl e ↦ ground arith
  | inr e ↦ ground arith
]

key_eq_iff :
    (k : String) (a b : AdminAccount)
    → k ≡ get_admin_account_key a
    → (str_eq k (get_admin_account_key b) ≡ true) ↔ (a ≡ b)
key_eq_iff k a b e = (
  (λ h. get_admin_account_key-injective a b (sym e ∙ (str_eq_iff k _).0 h)),
  (λ h. (str_eq_iff k _).1 (e ∙ ap get_admin_account_key h)),
)

listed-insert :
    (t : AdminType) (address : String) (a : AdminAccount) (d : Dict AdminAccount)
    → IsKeyed d
    → listed t address (insert (get_admin_account_key a) a d)
      ≡ (matches t address a || listed t address d)
unfolding insert
listed-insert t address a [] h = listed-cons t address (get_admin_account_key a) a []
listed-insert t address a ((k, x) ∷ d) h = ground (
  arith,
  key_eq_iff k x a h.0,
  listed-cons t address k x d,
  listed-cons t address (get_admin_account_key a) a d,
  listed-cons t address k x (insert (get_admin_account_key a) a d),
  listed-insert t address a d h.1,
)

listed-nil : (t : AdminType) (address : String) → listed t address [] ≡ false
unfolding get_admin_accounts_for_type has_address
listed-nil t address = refl

listed-delete :
    (t : AdminType) (address : String) (a : AdminAccount) (d : Dict AdminAccount)
    → IsKeyed d
    → listed t address (delete (get_admin_account_key a) d)
      ≡ (not (matches t address a) && listed t address d)
unfolding delete
listed-delete t address a [] h = ground (arith, listed-nil t address)
listed-delete t address a ((k, x) ∷ d) h = ground (
  arith,
  key_eq_iff k x a h.0,
  type_eq_iff a.admin_type t,
  type_eq_iff x.admin_type t,
  str_eq_iff a.admin_address address,
  str_eq_iff x.admin_address address,
  listed-cons t address k x d,
  listed-cons t address k x (delete (get_admin_account_key a) d),
  listed-delete t address a d h.1,
)

insert-IsKeyed :
    (a : AdminAccount) (d : Dict AdminAccount)
    → IsKeyed d
    → IsKeyed (insert (get_admin_account_key a) a d)
unfolding insert
insert-IsKeyed a [] h = (refl, tt)
insert-IsKeyed a ((k, x) ∷ d) h = ground (arith, insert-IsKeyed a d h.1)

delete-IsKeyed : (k : String) (d : Dict AdminAccount) → IsKeyed d → IsKeyed (delete k d)
unfolding delete
delete-IsKeyed k [] h = tt
delete-IsKeyed k ((j, x) ∷ d) h = ground (arith, delete-IsKeyed k d h.1)

-- After an account is set the admins are those from before and this one, and each account still
-- stands under its key, if each did before.
pub is_admin_account-set_admin_account :
    (b : Bech32) (a : AdminAccount) (t : AdminType) (address : Bytes) (s : AdminStore)
    → IsKeyed s.accounts
    → let s' = (set_admin_account a s).1 in
      (is_admin_account b s' t address
        ≡ (matches t (b.acc_string address) a || is_admin_account b s t address))
      × IsKeyed s'.accounts
unfolding set_admin_account is_admin_account
is_admin_account-set_admin_account b a t address s h =
    (listed-insert t (b.acc_string address) a s.accounts h, insert-IsKeyed a s.accounts h)

-- After an account is removed the admins are those from before but this one, and each account still
-- stands under its key, if each did before.
pub is_admin_account-remove_admin_account :
    (b : Bech32) (a : AdminAccount) (t : AdminType) (address : Bytes) (s : AdminStore)
    → IsKeyed s.accounts
    → let s' = (remove_admin_account a s).1 in
      (is_admin_account b s' t address
        ≡ (not (matches t (b.acc_string address) a) && is_admin_account b s t address))
      × IsKeyed s'.accounts
unfolding remove_admin_account is_admin_account
is_admin_account-remove_admin_account b a t address s h = (
  listed-delete t (b.acc_string address) a s.accounts h,
  delete-IsKeyed (get_admin_account_key a) s.accounts h,
)
