-- ===== src/TokenRegistry/Entries.antt =====
-- What is found in the registry after each change, and who may change it.
use furynode.Prelude.{
  ◌≡◌, refl, sym, subst, ◌⊎◌, inl, inr, true, false, some, [], ◌∷◌, String, arith, Bool-cases,
  Option-cases, if◌then◌else◌,
}
use furynode.Prelude.Text.{Bytes, str_eq, str_eq_iff}
use furynode.Chain.Address.{Bech32}
use furynode.Chain.Action.{
  Action, Outcome, ok, err, Error, succeeded, ◌>>=◌, ◌>>◌, or_panic, modify,
}
use furynode.Admin.Keeper as Admin
use furynode.TokenRegistry.Keeper.{
  RegistryEntry, Registry, State, RegisterMsg, SetRegistryMsg, DeregisterMsg, get_entry, put_entry,
  set_token, remove_token, authorise, register, set_registry, deregister,
}

-- After an entry is set, it is found under its denomination, and each other denomination finds what
-- it did.
pub get_entry-set_token :
    (entry : RegistryEntry) (denom : String) (r : Registry)
    → get_entry (set_token entry r) denom
      ≡ (if str_eq entry.denom denom then ok entry else get_entry r denom)
unfolding get_entry set_token put_entry
get_entry-set_token entry denom [] = refl
get_entry-set_token entry denom (e ∷ r) = ground (
  arith,
  str_eq_iff e.denom entry.denom,
  str_eq_iff entry.denom denom,
  str_eq_iff e.denom denom,
  get_entry-set_token entry denom r,
)

-- After a denomination is removed, it is not found, however many entries it had, and each other
-- denomination finds what it did.
pub get_entry-remove_token :
    (gone denom : String) (r : Registry)
    → get_entry (remove_token gone r) denom
      ≡ (if str_eq gone denom then err Error.key_not_found else get_entry r denom)
unfolding get_entry remove_token
get_entry-remove_token gone denom [] = ground arith
get_entry-remove_token gone denom (e ∷ r) = ground (
  arith,
  str_eq_iff e.denom gone,
  str_eq_iff gone denom,
  str_eq_iff e.denom denom,
  get_entry-remove_token gone denom r,
)

-- Whether the signer of a message is an admin of the registry.
abbrev pub IsSignedByAdmin : Bech32 → String → State → Type 0
IsSignedByAdmin b from s =
    (a : Bytes) × (b.acc_from_bech32 from ≡ some a)
    × (Admin.is_admin_account b s.admin_store Admin.tokenregistry a ≡ true)

-- What a call does that fails, or is signed by an admin.
abbrev pub Answers : Bech32 → String → State → Outcome (Unit {0}) × State → Type 0
Answers b from s (r, t) =
    ((succeeded r ≡ false) × (t ≡ s)) ⊎ (IsSignedByAdmin b from s × (t.admin_store ≡ s.admin_store))

authorise_cases :
    (b : Bech32) (from : String) (s : State)
    → ((e : Error) × (authorise b from s ≡ (err e, s)))
      ⊎ (IsSignedByAdmin b from s × (authorise b from s ≡ (ok tt, s)))
unfolding authorise
authorise_cases b from s = elim (Option-cases (b.acc_from_bech32 from)) [
  | inl n ↦ inl (Error.sdk_error, ground arith)
  | inr (a, e) ↦ elim (Bool-cases (Admin.is_admin_account b s.admin_store Admin.tokenregistry a)) [
    | inl admin ↦ inr ((a, e, admin), ground arith)
    | inr other ↦ inl (Error.invalid_address, ground arith)
  ]
]

-- A handler is the check, and then an action that keeps the admins if it succeeds.
guarded :
    (b : Bech32) (from : String) (f : Action State (Unit {0})) (s : State)
    → ((succeeded (f s).0 ≡ false) × ((f s).1 ≡ s)) ⊎ ((f s).1.admin_store ≡ s.admin_store)
    → Answers b from s ((authorise b from >> f) s)
guarded b from f s h = elim (authorise_cases b from s) [
  | inl (x, e) ↦
      let k : (authorise b from >> f) s ≡ (err x, s) = ground arith in
      subst (Answers b from s) (sym k) (inl (refl, refl))
  | inr (signed, e) ↦
      let k : (authorise b from >> f) s ≡ f s = ground arith in
      subst (Answers b from s) (sym k)
        (elim h [ inl failed ↦ inl failed | inr kept ↦ inr (signed, kept) ])
]

-- Each of the three messages fails and changes nothing, or is signed by an admin of the registry
-- and leaves the admins as they were.
pub messages-Answers :
    (b : Bech32) (m : RegisterMsg) (n : SetRegistryMsg) (o : DeregisterMsg) (s : State)
    → Answers b m.from s (register b m s)
      × Answers b n.from s (set_registry b n s)
      × Answers b o.from s (deregister b o s)
unfolding register set_registry deregister
messages-Answers b m n o s = (
  guarded b m.from
      (or_panic m.entry >>= λ entry. modify λ s. record s { registry = set_token entry s.registry })
      s (ground arith),
  guarded b n.from
      (or_panic n.registry >>= λ registry. modify λ s. record s { registry = registry }) s
      (ground arith),
  guarded b o.from (modify λ s. record s { registry = remove_token o.denom s.registry }) s
      (ground arith),
)
