-- ===== src/Scaling/Decommission/Blocked.antt =====
-- When the decommission of DCs goes on (handleDCsDecommission of cassandra_scaling.go).
use mathlib.Core.List.{Memᴰ}
use mr_cassop.Prelude.{
  String, Bool, true, false, not, ◌&&◌, ◌||◌, Option, none, some, List, [], ◌∷◌, ◌++◌, ◌≡◌, refl,
  ◌⊎◌, inl, inr, any, contains, contains-append, ◌==◌, string_eq, arith, Bool-cases, All, Outcome,
  ok, err, panic, Done, is_ok, ◌>>◌,
}
use mr_cassop.Prelude.Dict.{Dict, lookup}
use mr_cassop.Cluster.{Cluster, Dc, Pod, StatefulSet, dc_label}
use mr_cassop.InitOrder.PodsConfig.{value_at}
use mr_cassop.Keyspaces.{
  Keyspace, Options, system_auth, add_missing, keyspace_exists, desired_keyspaces_to_reconcile,
}
use mr_cassop.Scaling.Decommission.{World, Ask, err_dc_decommission_blocked}
use mr_cassop.Scaling.Reconcile.{
  in_use, update_system_keyspaces, decommission_each, handle_dcs_decommission,
}

-- The keyspace is one of those that the operator looks after.
abbrev pub looked_after : Cluster → String → Bool
looked_after c name =
    (system_auth == name || ("system_distributed" == name || "system_traces" == name))
    || (c.reaper_keyspace == name || contains c.system_keyspaces name)

-- The factor with which these options replicate to the DC of a statefulset.
abbrev pub factor_at : StatefulSet → Options → Option String
factor_at s options = lookup (value_at dc_label s.labels) options

-- A keyspace of others that replicates to the DC of a statefulset that is to go.
pub record ForeignUse (c : Cluster) (stss : Dict String StatefulSet) (current : List Keyspace)
    : Type 0 where
  pub keyspace : Keyspace
  pub listed : Memᴰ keyspace current
  pub foreign : looked_after c keyspace.name ≡ false
  pub gone : String × StatefulSet
  pub decommissioned : Memᴰ gone stss
  pub factor : String
  pub replicated : factor_at gone.1 keyspace.replication ≡ some factor

abbrev pub NoForeignUse : Cluster → Dict String StatefulSet → List Keyspace → Type 0
NoForeignUse c stss current =
    All
      (λ k.
        (looked_after c k.name ≡ true)
        ⊎ All (λ (s : String × StatefulSet). factor_at s.1 k.replication ≡ none) stss)
      current

contains-add_missing :
    (ks more : List String) (name : String)
    → contains (add_missing ks more) name ≡ (contains ks name || contains more name)
unfolding add_missing
contains-add_missing ks [] name = ground arith
contains-add_missing ks (k ∷ more) name = ground (
  arith,
  contains-add_missing ks more name,
  contains-add_missing (ks ++ k ∷ []) more name,
  contains-append ks (k ∷ []) name,
)

keyspace_exists-looked_after :
    (c : Cluster) (name : String)
    → keyspace_exists (desired_keyspaces_to_reconcile c) name ≡ looked_after c name
unfolding desired_keyspaces_to_reconcile
keyspace_exists-looked_after c name = ground (
  arith,
  contains-add_missing
      (system_auth ∷ "system_distributed" ∷ "system_traces" ∷ c.reaper_keyspace ∷ [])
      c.system_keyspaces name,
)

abbrev is_set : Option String → Bool
is_set o = elim o [ none ↦ false | some _ ↦ true ]

module _ (options : Options) where
  abbrev replicates : Dict String StatefulSet → Bool
  replicates stss = any (λ (s : String × StatefulSet). is_set (factor_at s.1 options)) stss

  replicates-true :
      (stss : Dict String StatefulSet)
      → replicates stss ≡ true
      → (s : String × StatefulSet) × Memᴰ s stss
        × (factor : String) × (factor_at s.1 options ≡ some factor)
  replicates-true [] h = ground arith
  replicates-true (s ∷ stss) h =
      by_factor (factor_at s.1 options) refl (λ k. replicates-true stss k)
    where
      by_factor :
          (o : Option String)
          → factor_at s.1 options ≡ o
          → (replicates stss ≡ true
              → (t : String × StatefulSet) × Memᴰ t stss
                × (factor : String) × (factor_at t.1 options ≡ some factor))
          → (t : String × StatefulSet) × Memᴰ t (s ∷ stss)
            × (factor : String) × (factor_at t.1 options ≡ some factor)
      by_factor (some factor) e rest = (s, Memᴰ.head refl, factor, e)
      by_factor none e rest =
          let (t, m, factor, r) = rest (ground arith) in (t, Memᴰ.tail m, factor, r)

  replicates-false :
      (stss : Dict String StatefulSet)
      → replicates stss ≡ false
      → All (λ (s : String × StatefulSet). factor_at s.1 options ≡ none) stss
  replicates-false [] h = tt
  replicates-false (s ∷ stss) h = (ground arith, replicates-false stss (ground arith))

module _ (c : Cluster) (stss : Dict String StatefulSet) where
  in_use-true : (current : List Keyspace) → in_use c stss current ≡ true → ForeignUse c stss current
  unfolding in_use
  in_use-true [] h = ground arith
  in_use-true (k ∷ current) h =
      elim (Bool-cases (not (looked_after c k.name) && replicates k.replication stss)) [
        | inl e ↦
            let (s, m, factor, r) = replicates-true k.replication stss (ground arith) in
            record {
              keyspace = k;
              listed = Memᴰ.head refl;
              foreign = ground arith;
              gone = s;
              decommissioned = m;
              factor = factor;
              replicated = r;
            }
        | inr e ↦
            let f = in_use-true current (ground (arith, keyspace_exists-looked_after c k.name)) in
            record {
              keyspace = f.keyspace;
              listed = Memᴰ.tail f.listed;
              foreign = f.foreign;
              gone = f.gone;
              decommissioned = f.decommissioned;
              factor = f.factor;
              replicated = f.replicated;
            }
      ]

  in_use-false :
      (current : List Keyspace) → in_use c stss current ≡ false → NoForeignUse c stss current
  unfolding in_use
  in_use-false [] h = tt
  in_use-false (k ∷ current) h = (
    elim (Bool-cases (looked_after c k.name)) [
      | inl e ↦ inl e
      | inr e ↦ inr (
          replicates-false k.replication stss
            (ground (arith, keyspace_exists-looked_after c k.name)))
    ],
    in_use-false current (ground arith),
  )

module _ (ask : Ask) (c : Cluster) (names : List String) (stss : Dict String StatefulSet)
    (all_dcs : List Dc) (addresses : Dict String String) (pods : List Pod) (w : World) where
  -- The keyspaces cannot be read, and nothing changes; or one of others replicates to a DC that is
  -- to go, and the answer is the error that says so, and nothing changes; or none of them does.
  abbrev pub Decommission : Outcome Done × World → Type 0
  Decommission r =
      ((is_ok ask.keyspaces ≡ false) × (is_ok r.0 ≡ false) × (r.1 ≡ w))
      ⊎ ((current : List Keyspace) × (ask.keyspaces ≡ ok current)
          × ((ForeignUse c stss current × (r ≡ (err err_dc_decommission_blocked, w)))
              ⊎ (NoForeignUse c stss current
                  × (r
                      ≡ (update_system_keyspaces ask c all_dcs current
                              (desired_keyspaces_to_reconcile c)
                            >> decommission_each ask c stss addresses pods names)
                          w))))

  -- The decommission of DCs fails and changes nothing when the keyspaces cannot be read. If one that
  -- is not of Cassandra's system, of Reaper or of the spec's system keyspaces replicates to the DC of
  -- a statefulset that is to go, it ends with the error that says it is blocked, and changes nothing.
  -- It goes on, with the system keyspaces and then the statefulsets, only if there is none of these.
  pub handle_dcs_decommission-Decommission :
      Decommission (handle_dcs_decommission ask c names stss all_dcs addresses pods w)
  unfolding handle_dcs_decommission
  handle_dcs_decommission-Decommission = by_answer ask.keyspaces refl
    where
      by_answer :
          (r : Outcome (List Keyspace))
          → ask.keyspaces ≡ r
          → Decommission (handle_dcs_decommission ask c names stss all_dcs addresses pods w)
      by_answer (err e) h = inl (ground arith, ground arith, ground arith)
      by_answer panic h = inl (ground arith, ground arith, ground arith)
      by_answer (ok current) h = elim (Bool-cases (in_use c stss current)) [
        | inl u ↦ inr (current, h, inl (in_use-true c stss current u, ground arith))
        | inr u ↦ inr (current, h, inr (in_use-false c stss current u, ground arith))
      ]
