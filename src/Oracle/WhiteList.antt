-- ===== src/Oracle/WhiteList.antt =====
-- The white list of validators and its admin.
use furynode.Prelude.{
  ◌≡◌, refl, subst, inl, inr, Bool, true, false, not, Option, none, some, List, [], ◌∷◌, ◌++◌, map,
  String, keep, arith, Bool-cases, Option-cases, if◌then◌else◌,
}
use furynode.Prelude.Text.{Bytes, bytes_eq, str_eq}
use furynode.Chain.Action.{Outcome, ok, err, Error}
use furynode.Chain.Address.{Bech32, Bech32Laws}
use furynode.Oracle.Keeper.{
  Externals, OracleStore, get_oracle_white_list, add_oracle_white_list, remove_oracle_white_list,
  is_admin_account, process_update_white_list_validator, decode_all, stored_white_list,
}

-- The list that an operation asks for; `none` is an operation that does not exist.
abbrev pub updated : String → Bytes → List Bytes → Option (List Bytes)
updated op v l =
    if str_eq op "add"
    then some (l ++ v ∷ [])
    else (if str_eq op "remove" then some (keep (λ a. not (bytes_eq v a)) l) else none)

-- An address whose text decodes to it.
abbrev pub IsAddress : Bech32 → Bytes → Type 0
IsAddress b v = b.val_from_bech32 (b.val_string v) ≡ some v

abbrev AreAddresses : Bech32 → List Bytes → Type 0
AreAddresses b [] = Unit
AreAddresses b (v ∷ l) = IsAddress b v × AreAddresses b l

decode_all-map :
    (b : Bech32) (l : List Bytes) → AreAddresses b l → decode_all b (map b.val_string l) ≡ some l
decode_all-map b [] h = refl
decode_all-map b (v ∷ l) h = ground (arith, decode_all-map b l h.1)

decode_all-AreAddresses :
    (b : Bech32) (laws : Bech32Laws b) (ss : List String) (l : List Bytes)
    → decode_all b ss ≡ some l
    → AreAddresses b l
decode_all-AreAddresses b laws [] l h = let e : [] ≡ l = ground arith in subst (AreAddresses b) e tt
decode_all-AreAddresses b laws (s ∷ ss) l h = elim (Option-cases (b.val_from_bech32 s)) [
  | inl n ↦ absurd (ground arith)
  | inr (x, f) ↦ elim (Option-cases (decode_all b ss)) [
    | inl n ↦ absurd (ground arith)
    | inr (xs, g) ↦
        let e : x ∷ xs ≡ l = ground arith in
        subst (AreAddresses b) e (laws.val_round_trip s x f, decode_all-AreAddresses b laws ss xs g)
  ]
]

AreAddresses-append :
    (b : Bech32) (l : List Bytes) (v : Bytes)
    → AreAddresses b l
    → IsAddress b v
    → AreAddresses b (l ++ v ∷ [])
AreAddresses-append b [] v h k = (k, tt)
AreAddresses-append b (a ∷ l) v h k = (h.0, AreAddresses-append b l v h.1 k)

AreAddresses-keep :
    (b : Bech32) (p : Bytes → Bool) (l : List Bytes) → AreAddresses b l → AreAddresses b (keep p l)
AreAddresses-keep b p [] h = tt
AreAddresses-keep b p (a ∷ l) h = elim (Bool-cases (p a)) [
  | inl t ↦ rw t (h.0, AreAddresses-keep b p l h.1)
  | inr f ↦ rw f (AreAddresses-keep b p l h.1)
]

module _ (ext : Externals) (laws : Bech32Laws ext.bech32) where
  -- What an update asked for by the admin, or by someone else, does.
  abbrev pub IsAnswer :
      Bool → Option (List Bytes) → OracleStore → Outcome (Unit {0}) → OracleStore → Type 0
  IsAnswer false m s r t = (r ≡ err Error.not_admin_account) × (t ≡ s)
  IsAnswer true none s r t = (r ≡ err Error.invalid_operation_type) × (t ≡ s)
  IsAnswer true (some m) s r t = (r ≡ ok tt) × (get_oracle_white_list ext t ≡ (ok m, t))

  add_to_list :
      (v : Bytes) (s : OracleStore) (l : List Bytes)
      → decode_all ext.bech32 (stored_white_list s) ≡ some l
      → IsAddress ext.bech32 v
      → IsAnswer true
          (some (l ++ v ∷ []))
          s
          (add_oracle_white_list ext v s).0
          (add_oracle_white_list ext v s).1
  unfolding add_oracle_white_list
  add_to_list v s l h k =
      let m = l ++ v ∷ [] in
      let all =
        AreAddresses-append ext.bech32 l v (decode_all-AreAddresses ext.bech32 laws _ l h) k in
      ground (arith, decode_all-map ext.bech32 m all)

  remove_from_list :
      (v : Bytes) (s : OracleStore) (l : List Bytes)
      → decode_all ext.bech32 (stored_white_list s) ≡ some l
      → IsAnswer true
          (some (keep (λ a. not (bytes_eq v a)) l))
          s
          (remove_oracle_white_list ext v s).0
          (remove_oracle_white_list ext v s).1
  unfolding remove_oracle_white_list
  remove_from_list v s l h =
      let m = keep (λ a. not (bytes_eq v a)) l in
      let all =
        AreAddresses-keep ext.bech32 (λ a. not (bytes_eq v a)) l
          (decode_all-AreAddresses ext.bech32 laws _ l h) in
      ground (arith, decode_all-map ext.bech32 m all)

  -- The admin's update is done on the list as it is read back, an operation that does not exist is
  -- an error, and so is a call by anyone else; an error writes nothing. The list must be readable,
  -- and the validator one whose text decodes to it.
  pub process_update_white_list_validator-IsAnswer :
      (sender v : Bytes) (op : String) (s : OracleStore) (l : List Bytes)
      → get_oracle_white_list ext s ≡ (ok l, s)
      → IsAddress ext.bech32 v
      → let (r, t) = process_update_white_list_validator ext sender v op s in
        IsAnswer (is_admin_account ext s sender) (updated op v l) s r t
  unfolding process_update_white_list_validator get_oracle_white_list
  process_update_white_list_validator-IsAnswer sender v op s l h k =
      let d : decode_all ext.bech32 (stored_white_list s) ≡ some l = ground arith in
      elim (Bool-cases (is_admin_account ext s sender)) [
        | inr other ↦ rw other (refl, refl)
        | inl admin ↦ elim (Bool-cases (str_eq op "add")) [
          | inl add ↦ rw (admin, add) (add_to_list v s l d k)
          | inr not_add ↦ elim (Bool-cases (str_eq op "remove")) [
            | inl remove ↦ rw (admin, not_add, remove) (remove_from_list v s l d)
            | inr unknown ↦ rw (admin, not_add, unknown) (refl, refl)
          ]
        ]
      ]
