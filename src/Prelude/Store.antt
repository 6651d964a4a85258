-- ===== src/Prelude/Store.antt =====
-- The part of a key-value store under one prefix, as a list in the order of its keys: the iterators
-- of the SDK visit the keys in that order. A write replaces a record, or puts it in its place.
use Prim.Native.Nat.{Ordering}
use Prim.Native.String.{compare}
use furynode.Prelude.{
  ℕ, ◌+◌, ◌≤◌, ◌≡◌, refl, inl, inr, Bool, true, false, Option, none, some, List, [], ◌∷◌, arith,
  String, Bool-cases, if◌then◌else◌,
}
use furynode.Prelude.Text.{str_eq, str_eq_iff}
use furynode.Prelude.Dict.{Dict, lookup, delete, lookup-delete}

-- Whether the key comes before another.
abbrev key_lt : String → String → Bool
key_lt k j = elim (compare k j) [ Ordering.lt ↦ true | _ ↦ false ]

module _ {V : Type 0} where
  -- `store.Has`
  unfoldable pub has : String → Dict V → Bool
  unfolding lookup
  has k d = elim (lookup k d) [ none ↦ false | some _ ↦ true ]

  unfoldable pub replace : String → V → Dict V → Dict V
  replace k v [] = []
  replace k v ((j, w) ∷ d) = if str_eq j k then (k, v) ∷ d else (j, w) ∷ replace k v d

  unfoldable pub place : String → V → Dict V → Dict V
  place k v [] = (k, v) ∷ []
  place k v ((j, w) ∷ d) = if key_lt k j then (k, v) ∷ (j, w) ∷ d else (j, w) ∷ place k v d

  -- `store.Set`
  unfoldable pub set : String → V → Dict V → Dict V
  unfolding has replace place
  set k v d = if has k d then replace k v d else place k v d

  -- The values in the order of their keys: an iterator over the prefix.
  unfoldable pub values : Dict V → List V
  values [] = []
  values ((k, v) ∷ d) = v ∷ values d

  -- No key stands twice.
  abbrev pub IsUnique : Dict V → Type 0
  IsUnique [] = Unit
  IsUnique ((k, v) ∷ d) = (lookup k d ≡ none) × IsUnique d

  -- A quantity of the values, added up.
  abbrev pub total_by : (V → ℕ) → Dict V → ℕ
  total_by f [] = 0
  total_by f ((k, v) ∷ d) = f v + total_by f d

  -- What stands under a key counts, and a missing key counts nothing.
  abbrev pub value_at : (V → ℕ) → Option V → ℕ
  value_at f none = 0
  value_at f (some v) = f v

  lookup-replace :
      (k j : String) (v : V) (d : Dict V)
      → has k d ≡ true
      → lookup j (replace k v d) ≡ (if str_eq k j then some v else lookup j d)
  unfolding has lookup replace
  lookup-replace k j v [] h = absurd (ground arith)
  lookup-replace k j v ((i, w) ∷ d) h =
      ground (arith, str_eq_iff k j, str_eq_iff i k, str_eq_iff i j, lookup-replace k j v d)

  lookup-place :
      (k j : String) (v : V) (d : Dict V)
      → has k d ≡ false
      → lookup j (place k v d) ≡ (if str_eq k j then some v else lookup j d)
  unfolding has lookup place
  lookup-place k j v [] h = refl
  lookup-place k j v ((i, w) ∷ d) h =
      ground (arith, str_eq_iff k j, str_eq_iff i k, str_eq_iff i j, lookup-place k j v d)

  pub lookup-set :
      (k j : String) (v : V) (d : Dict V)
      → lookup j (set k v d) ≡ (if str_eq k j then some v else lookup j d)
  unfolding set
  lookup-set k j v d = ground (arith, lookup-replace k j v d, lookup-place k j v d)

  total-replace :
      (f : V → ℕ) (k : String) (v : V) (d : Dict V)
      → has k d ≡ true
      → total_by f (replace k v d) + value_at f (lookup k d) ≡ total_by f d + f v
  unfolding has lookup replace
  total-replace f k v [] h = absurd (ground arith)
  total-replace f k v ((i, w) ∷ d) h = ground (arith, total-replace f k v d)

  total-place :
      (f : V → ℕ) (k : String) (v : V) (d : Dict V) → total_by f (place k v d) ≡ total_by f d + f v
  unfolding place
  total-place f k v [] = omega arith
  total-place f k v ((i, w) ∷ d) = ground (arith, total-place f k v d)

  -- A write adds the new value and takes away the one that it replaces.
  pub total-set :
      (f : V → ℕ) (k : String) (v : V) (d : Dict V)
      → total_by f (set k v d) + value_at f (lookup k d) ≡ total_by f d + f v
  unfolding set has
  total-set f k v d = ground (arith, total-replace f k v d, total-place f k v d)

  -- A deletion takes away what it deletes.
  pub total-delete :
      (f : V → ℕ) (k : String) (d : Dict V)
      → total_by f (delete k d) + value_at f (lookup k d) ≤ total_by f d
  unfolding lookup delete
  total-delete f k [] = omega arith
  total-delete f k ((i, w) ∷ d) = ground (arith, total-delete f k d)

  pub delete-IsUnique : (k : String) (d : Dict V) → IsUnique d → IsUnique (delete k d)
  unfolding delete
  delete-IsUnique k [] h = tt
  delete-IsUnique k ((i, w) ∷ d) h = ground (arith, lookup-delete k i d, delete-IsUnique k d h.1)

  replace-IsUnique :
      (k : String) (v : V) (d : Dict V) → has k d ≡ true → IsUnique d → IsUnique (replace k v d)
  unfolding has lookup replace
  replace-IsUnique k v [] h u = tt
  replace-IsUnique k v ((i, w) ∷ d) h u =
      ground (arith, str_eq_iff i k, str_eq_iff k i, lookup-replace k i v d, replace-IsUnique k v d)

  place-IsUnique :
      (k : String) (v : V) (d : Dict V) → has k d ≡ false → IsUnique d → IsUnique (place k v d)
  unfolding has lookup place
  place-IsUnique k v [] h u = (refl, tt)
  place-IsUnique k v ((i, w) ∷ d) h u =
      ground (arith, str_eq_iff i k, str_eq_iff k i, lookup-place k i v d, place-IsUnique k v d)

  pub set-IsUnique : (k : String) (v : V) (d : Dict V) → IsUnique d → IsUnique (set k v d)
  unfolding set
  set-IsUnique k v d u = elim (Bool-cases (has k d)) [
    | inl e ↦ rw e (replace-IsUnique k v d e u)
    | inr e ↦ rw e (place-IsUnique k v d e u)
  ]
