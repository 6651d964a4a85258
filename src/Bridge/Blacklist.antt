-- ===== src/Bridge/Blacklist.antt =====
-- The blacklist after it has been replaced.
use furynode.Prelude.{
  ◌≡◌, refl, Bool, true, false, not, ◌&&◌, ◌||◌, Option, none, some, List, [], ◌∷◌, String, arith,
}
use furynode.Prelude.Text.{str_eq, str_eq_iff, contains}
use furynode.Prelude.Dict.{Dict, lookup, insert, delete, lookup-insert, lookup-delete}
use furynode.Bridge.Keeper.{
  Externals, BridgeStore, is_blacklisted, removals, delete_all, set_all, replace_blacklist,
}

-- Whether a key is there.
abbrev found : Option String → Bool
found none = false
found (some _) = true

module _ (ext : Externals) where
  lookup-set_all :
      (l : List String) (k : String) (d : Dict String)
      → found (lookup k (set_all ext l d)) ≡ (contains k l || found (lookup k d))
  unfolding set_all contains
  lookup-set_all [] k d = refl
  lookup-set_all (a ∷ l) k d =
      ground (arith, lookup-set_all l k (insert a a d), lookup-insert a k a d)

  lookup-delete_all :
      (l : List String) (k : String) (d : Dict String)
      → found (lookup k (delete_all ext l d)) ≡ (not (contains k l) && found (lookup k d))
  unfolding delete_all contains
  lookup-delete_all [] k d = refl
  lookup-delete_all (a ∷ l) k d =
      ground (arith, lookup-delete_all l k (delete a d), lookup-delete a k d)

  -- What is removed is in the store, is not listed, and is not the empty address.
  contains-removals :
      (kept : List String) (k : String) (d : Dict String)
      → contains k (removals ext kept d)
        ≡ (not (str_eq k "") && not (contains k kept) && found (lookup k d))
  unfolding removals contains lookup
  contains-removals kept k [] = ground arith
  contains-removals kept k ((a, v) ∷ d) = ground (arith, str_eq_iff a k, contains-removals kept k d)

  -- After the blacklist is replaced, an address is on it if and only if it is listed, but for the
  -- empty address, which stays on it once it is there.
  pub is_blacklisted-replace_blacklist :
      (l : List String) (address : String) (s : BridgeStore)
      → is_blacklisted ext (replace_blacklist ext l s) address
        ≡ (contains address l || (str_eq address "" && is_blacklisted ext s address))
  unfolding replace_blacklist is_blacklisted
  is_blacklisted-replace_blacklist l address s =
      let gone = removals ext l s.blacklist in
      ground (
        arith,
        lookup-set_all l address (delete_all ext gone s.blacklist),
        lookup-delete_all gone address s.blacklist,
        contains-removals l address s.blacklist,
      )
