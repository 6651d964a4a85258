-- ===== src/Dispensation/Selection.antt =====
-- Which records a run selects, as a description of the records, and how many.
use furynode.Prelude.{
  ℕ, ◌+◌, ◌≤◌, ◌≡◌, refl, ap, subst, ◌⊎◌, inl, inr, ◌↔◌, true, false, some, List, [], ◌∷◌, String,
  ◌||◌, ◌==◌, All, length, arith, Bool-cases,
}
use furynode.Prelude.Int.{ℤ, pos, negsuc, ltb_ℤ, leb_ℤ}
use furynode.Prelude.Text.{str_eq, str_eq_iff}
use furynode.Prelude.Dict.{Dict, lookup}
use furynode.Prelude.Store.{values}
use furynode.Chain.Action.{ok, >>=-eq-ok, pure}
use furynode.Dispensation.Records.{
  Externals, DistributionType, DistributionStatus, DistributionRecord, pending, type_eq, is_pending,
}
use furynode.Dispensation.Keeper.{
  State, limited, may_run, reached, get_limited_records_for_runner,
  get_distribution_records_iterator,
}
use furynode.Dispensation.Executors.{distribute_all, distribute_drops}
use furynode.Dispensation.Server.{RunMsg, validate_run, max_records_per_block, check}

type_eq_iff : (t u : DistributionType) → (type_eq t u ≡ true) ↔ (t ≡ u)
type_eq_iff t u = ground arith

is_pending_iff : (s : DistributionStatus) → (is_pending s ≡ true) ↔ (s ≡ pending)
is_pending_iff s = ground arith

module _ (ext : Externals) where
  -- A pending record of a distribution and a type, for a runner.
  pub record IsRunnable (name runner : String) (t : DistributionType) (r : DistributionRecord ext)
      : Type 0 where
    pub named : r.distribution_name ≡ name
    pub waits : r.distribution_status ≡ pending
    pub authorized : r.authorized_runner ≡ runner
    pub typed : r.distribution_type ≡ t

  -- What the code tests of a record is this description of it.
  pub may_run-IsRunnable :
      (name runner : String) (t : DistributionType) (r : DistributionRecord ext)
      → (may_run ext name runner t r ≡ true) ↔ IsRunnable name runner t r
  unfolding may_run
  may_run-IsRunnable name runner t r =
      let n = str_eq_iff r.distribution_name name in
      let w = str_eq_iff r.authorized_runner runner in
      let k = type_eq_iff r.distribution_type t in
      let p = is_pending_iff r.distribution_status in
      (
        λ h. record {
          named = n.0 (ground arith);
          waits = p.0 (ground arith);
          authorized = w.0 (ground arith);
          typed = k.0 (ground arith);
        },
        λ h. rw (n.1 h.named, p.1 h.waits, w.1 h.authorized, k.1 h.typed) refl,
      )

  limited-length :
      (name runner : String) (t : DistributionType) (n count : ℕ)
      (rs : List (DistributionRecord ext))
      → count ≤ n
      → length (limited ext name runner t (pos n) count rs) + count ≤ n
  unfolding limited
  limited-length name runner t n count [] h = omega arith
  limited-length name runner t n count (r ∷ rs) h = ground (
    arith,
    limited-length name runner t n (count + 1) rs,
    limited-length name runner t n count rs,
  )

  pub limited-may_run :
      (name runner : String) (t : DistributionType) (n : ℤ) (count : ℕ)
      (rs : List (DistributionRecord ext))
      → All (λ r. may_run ext name runner t r ≡ true) (limited ext name runner t n count rs)
  unfolding limited
  limited-may_run name runner t n count [] = tt
  limited-may_run name runner t n count (r ∷ rs) =
      let taken = limited-may_run name runner t n (count + 1) rs in
      let passed = limited-may_run name runner t n count rs in
      elim (Bool-cases (reached ext count n)) [
        | inl full ↦ rw full tt
        | inr more ↦ elim (Bool-cases (may_run ext name runner t r)) [
          | inl mine ↦ rw (more, mine) (mine, taken)
          | inr other ↦ rw (more, other) passed
        ]
      ]

  small_count :
      (c : ℤ)
      → (ltb_ℤ max_records_per_block c || leb_ℤ c (pos 0)) ≡ false
      → (n : ℕ) × (c ≡ pos n) × (n ≤ 20)
  small_count (pos n) h = (n, refl, ground arith)
  small_count (negsuc n) h = absurd (ground arith)

  valid_count :
      (m : RunMsg)
      → validate_run ext m ≡ ok tt
      → (n : ℕ) × (m.distribution_count ≡ pos n) × (n ≤ 20)
  unfolding validate_run check
  valid_count m h = small_count m.distribution_count (ground arith)

  -- Membership of a list.
  abbrev pub Among : DistributionRecord ext → List (DistributionRecord ext) → Type 0
  Among r [] = ⊥
  Among r (q ∷ rs) = (q ≡ r) ⊎ Among r rs

  lookup-Among :
      (d : Dict (DistributionRecord ext)) (k : String) (r : DistributionRecord ext)
      → lookup k d ≡ some r
      → Among r (values d)
  unfolding lookup values
  lookup-Among [] k r found = absurd (ground arith)
  lookup-Among ((j, q) ∷ d) k r found = elim (Bool-cases (str_eq j k)) [
    | inl same ↦ inl (ground arith)
    | inr other ↦ inr (lookup-Among d k r (ground arith))
  ]

  -- A selection that is short of its number has left out no record that may be run.
  limited_complete :
      (name runner : String) (t : DistributionType) (n count : ℕ)
      (rs : List (DistributionRecord ext))
      → count ≤ n
      → (length (limited ext name runner t (pos n) count rs) + count ≡ n)
        ⊎ ((r : DistributionRecord ext)
            → Among r rs
            → may_run ext name runner t r ≡ true
            → Among r (limited ext name runner t (pos n) count rs))
  unfolding limited
  limited_complete name runner t n count [] h = inr (λ r mem mine. mem)
  limited_complete name runner t n count (q ∷ rs) h =
      let taken = limited_complete name runner t n (count + 1) rs in
      elim (Bool-cases (count == n)) [
        | inl full ↦ inl (rw full (ground arith))
        | inr more ↦ elim (Bool-cases (may_run ext name runner t q)) [
          | inl mine ↦
              rw (more, mine)
                (elim (taken (ground arith)) [
                  | inl e ↦ inl (omega arith)
                  | inr f ↦
                      inr
                        (λ r mem may. elim mem [ inl e ↦ inl e | inr later ↦ inr (f r later may) ])
                ])
          | inr other ↦
              rw (more, other)
                (elim (limited_complete name runner t n count rs h) [
                  | inl e ↦ inl e
                  | inr f ↦ inr (λ r mem may. elim mem [
                    | inl e ↦ absurd (ground (arith, ap (may_run ext name runner t) e))
                    | inr later ↦ f r later may
                  ])
                ])
        ]
      ]

  All-IsRunnable :
      (name runner : String) (t : DistributionType) (rs : List (DistributionRecord ext))
      → All (λ r. may_run ext name runner t r ≡ true) rs
      → All (IsRunnable name runner t) rs
  All-IsRunnable name runner t [] h = tt
  All-IsRunnable name runner t (r ∷ rs) h =
      ((may_run-IsRunnable name runner t r).0 h.0, All-IsRunnable name runner t rs h.1)

  -- At most twenty records that the sender of the message may run, and each such record that is
  -- stored, unless there are as many as the message asks for.
  pub record IsSelection (m : RunMsg) (s : State ext) (rs : List (DistributionRecord ext))
      : Type 0 where
    pub few : length rs ≤ 20
    pub runnable : All (IsRunnable m.distribution_name m.authorized_runner m.distribution_type) rs
    pub all :
        (m.distribution_count ≡ pos (length rs))
        ⊎ ((key : String) (r : DistributionRecord ext)
            → lookup key s.pending_records ≡ some r
            → IsRunnable m.distribution_name m.authorized_runner m.distribution_type r
            → Among r rs)

  limited-IsSelection :
      (m : RunMsg) (s : State ext)
      → validate_run ext m ≡ ok tt
      → IsSelection m s (
          limited ext m.distribution_name m.authorized_runner m.distribution_type
            m.distribution_count 0
            (values s.pending_records))
  limited-IsSelection m s valid =
      let (n, e, small) = valid_count m valid in
      let name = m.distribution_name in
      let runner = m.authorized_runner in
      let t = m.distribution_type in
      let rs = values s.pending_records in
      let bound = limited-length name runner t n 0 rs (omega arith) in
      record {
        few = rw e (omega arith);
        runnable =
            All-IsRunnable name runner t (limited ext name runner t m.distribution_count 0 rs)
              (limited-may_run name runner t m.distribution_count 0 rs);
        all = rw e (elim (limited_complete name runner t n 0 rs (omega arith)) [
          | inl full ↦ inl (ap pos (omega arith))
          | inr f ↦ inr (λ key r found may.
              f r (lookup-Among s.pending_records key r found)
                ((may_run-IsRunnable name runner t r).1 may))
        ]);
      }

  -- A run that returns, of a message that passes the stateless checks, returns at most twenty
  -- records, each of them pending before, of the distribution and the type that the message
  -- names, and for its sender to run; and unless it returns as many as the message asks for, it
  -- returns every such record that is stored.
  pub distribute_drops-IsSelection :
      (height : ℤ) (m : RunMsg) (s u : State ext) (rs : List (DistributionRecord ext))
      → validate_run ext m ≡ ok tt
      → distribute_drops ext height m.distribution_name m.authorized_runner m.distribution_type
          m.distribution_count s
        ≡ (ok rs, u)
      → IsSelection m s rs
  unfolding distribute_drops get_limited_records_for_runner get_distribution_records_iterator
  distribute_drops-IsSelection height m s u rs valid h =
      let l =
        limited ext m.distribution_name m.authorized_runner m.distribution_type m.distribution_count
          0 (values s.pending_records) in
      let (a, v, e, k) = >>=-eq-ok (distribute_all ext height l) (λ _. pure l) s h in
      let chosen : l ≡ rs = ground arith in
      subst (IsSelection m s) chosen (limited-IsSelection m s valid)
