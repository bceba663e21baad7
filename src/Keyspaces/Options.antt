-- ===== src/Keyspaces/Options.antt =====
-- The replication options that the operator wants (keyspaces.go `desiredReplicationOptions`).
use mr_cassop.Prelude.{
  ℕ, String, false, not, ◌&&◌, ◌||◌, Option, none, some, List, [], ◌∷◌, is_empty, ◌≡◌, refl, ◌==◌,
  contains, contains-append, string_eq, if◌then◌else◌, arith, ◌++◌,
}
use mr_cassop.Prelude.Dict.{lookup, insert, lookup-insert, lookup-nil}
use mr_cassop.Cluster.{Cluster, Dc, SystemKeyspaceDc}
use mr_cassop.Keyspaces.{
  Options, strategy, rf_of, configured_options, default_options, add_missing,
  desired_replication_options, desired_keyspaces_to_reconcile, keyspace_exists, system_auth,
}

module _ {A : Type 0} (name_of : A → String) (value_of : A → String) where
  -- What the last entry of a list with the given name says.
  unfoldable pub last_named : String → List A → Option String
  last_named n [] = none
  last_named n (x ∷ xs) = elim (last_named n xs) [
    | none ↦ if n == name_of x then some (value_of x) else none
    | some v ↦ some v
  ]

abbrev or_else : Option String → Option String → Option String
or_else (some a) b = some a
or_else none b = b

module _ (digits : ℕ → String) where
  lookup-configured_options :
      (n : String) (dcs : List SystemKeyspaceDc) (m : Options)
      → lookup n (configured_options digits dcs m)
        ≡ or_else (last_named (λ d. d.name) (λ d. digits d.rf) n dcs) (lookup n m)
  unfolding configured_options last_named
  lookup-configured_options n [] m = refl
  lookup-configured_options n (dc ∷ dcs) m = ground (
    arith,
    lookup-configured_options n dcs (insert dc.name (digits dc.rf) m),
    lookup-insert n dc.name (digits dc.rf) m,
  )

  lookup-default_options :
      (n : String) (dcs : List Dc) (m : Options)
      → lookup n (default_options digits dcs m)
        ≡ or_else (last_named (λ d. d.name) (λ d. digits (rf_of d)) n dcs) (lookup n m)
  unfolding default_options last_named
  lookup-default_options n [] m = refl
  lookup-default_options n (dc ∷ dcs) m = ground (
    arith,
    lookup-default_options n dcs (insert dc.name (digits (rf_of dc)) m),
    lookup-insert n dc.name (digits (rf_of dc)) m,
  )

  -- The options of a keyspace name the strategy under `class`. For any other name they hold the
  -- factor of the last DC with that name, and nothing if there is none: of the DCs configured under
  -- `systemKeyspaces` if there are such DCs and the keyspace is listed there, with the configured
  -- factor, and otherwise of all the DCs, with the default factor.
  pub lookup-desired_replication_options :
      (c : Cluster) (ks : String) (all_dcs : List Dc) (n : String)
      → lookup n (desired_replication_options digits c ks all_dcs) ≡ (
          if n == "class"
          then some strategy
          else if not (is_empty c.system_keyspace_dcs) && keyspace_exists c.system_keyspaces ks
          then last_named (λ d. d.name) (λ d. digits d.rf) n c.system_keyspace_dcs
          else last_named (λ d. d.name) (λ d. digits (rf_of d)) n all_dcs)
  unfolding desired_replication_options
  lookup-desired_replication_options c ks all_dcs n = ground (
    arith,
    lookup-insert n "class" strategy (configured_options digits c.system_keyspace_dcs []),
    lookup-insert n "class" strategy (default_options digits all_dcs []),
    lookup-configured_options n c.system_keyspace_dcs [],
    lookup-default_options n all_dcs [],
    lookup-nil {V = String} n,
  )

contains-add_missing :
    (ks more : List String) (n : String)
    → contains (add_missing ks more) n ≡ (contains ks n || contains more n)
unfolding add_missing
contains-add_missing ks [] n = ground arith
contains-add_missing ks (k ∷ more) n = ground (
  arith,
  contains-add_missing ks more n,
  contains-add_missing (ks ++ k ∷ []) more n,
  contains-append ks (k ∷ []) n,
)

unfoldable pub NoRepeats : List String → Type 0
NoRepeats [] = Unit
NoRepeats (x ∷ xs) = (contains xs x ≡ false) × NoRepeats xs

NoRepeats-append :
    (xs : List String) (k : String)
    → contains xs k ≡ false
    → NoRepeats xs
    → NoRepeats (xs ++ k ∷ [])
unfolding NoRepeats
NoRepeats-append [] k h u = ground arith
NoRepeats-append (x ∷ xs) k h (u, v) =
    ground (arith, NoRepeats-append xs k, contains-append xs (k ∷ []) x)

add_missing-NoRepeats : (ks more : List String) → NoRepeats ks → NoRepeats (add_missing ks more)
unfolding add_missing
add_missing-NoRepeats ks [] u = u
add_missing-NoRepeats ks (k ∷ more) u = ground (
  arith,
  add_missing-NoRepeats ks more,
  add_missing-NoRepeats (ks ++ k ∷ []) more,
  NoRepeats-append ks k,
)

-- The keyspaces to reconcile are the three system keyspaces, the keyspace of Reaper and the
-- configured ones, and no name stands there twice if Reaper's keyspace is none of the three.
pub desired_keyspaces_to_reconcile_lem :
    (c : Cluster) (n : String)
    → contains (system_auth ∷ "system_distributed" ∷ "system_traces" ∷ []) c.reaper_keyspace ≡ false
    → (contains (desired_keyspaces_to_reconcile c) n ≡ (
        contains (system_auth ∷ "system_distributed" ∷ "system_traces" ∷ c.reaper_keyspace ∷ []) n
        || contains c.system_keyspaces n))
      × NoRepeats (desired_keyspaces_to_reconcile c)
unfolding desired_keyspaces_to_reconcile NoRepeats string_eq
desired_keyspaces_to_reconcile_lem c n h = (
  contains-add_missing _ c.system_keyspaces n,
  add_missing-NoRepeats _ c.system_keyspaces (ground arith),
)
