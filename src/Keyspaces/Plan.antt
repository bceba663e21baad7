-- ===== src/Keyspaces/Plan.antt =====
-- What `reconcileKeyspaces` sends, described without its loop.
use mr_cassop.Prelude.{
  ℕ, String, Option, none, some, List, [], ◌∷◌, ◌++◌, string_eq, if◌then◌else◌, arith, ok, Answer,
  send_all, SameEffect, SameEffect-nil, SameEffect-one, SameEffect-append, send, wrap, ◌<>◌,
}
use mr_cassop.Cluster.{Cluster, Dc}
use mr_cassop.Keyspaces.{
  Options, Keyspace, Call, update_rf, run_repair, get_keyspace_by_name, same_options, covers,
  desired_replication_options, desired_keyspaces_to_reconcile, reconcile_keyspace, alter_keyspace,
  reconcile_each, reconcile_keyspaces,
}

-- A keyspace that exists with other options than wanted is altered and repaired.
unfoldable pub calls_for : Options → String → Option Keyspace → List Call
unfolding covers
calls_for desired ks none = []
calls_for desired ks (some info) =
    if same_options info.replication desired then [] else update_rf ks desired ∷ run_repair ks ∷ []

unfoldable pub plan : (ℕ → String) → Cluster → List Dc → List Keyspace → List String → List Call
unfolding calls_for
plan digits c all_dcs current [] = []
plan digits c all_dcs current (ks ∷ rest) =
    calls_for (desired_replication_options digits c ks all_dcs) ks (get_keyspace_by_name current ks)
    ++ plan digits c all_dcs current rest

module _ (digits : ℕ → String) (answer : Answer Call) where
  alter_keyspace-calls_for :
      (desired : Options) (ks : String) (k : Option Keyspace) (sent : List Call)
      → SameEffect
          (alter_keyspace digits answer desired ks k sent)
          (send_all answer (calls_for desired ks k) sent)
  unfolding alter_keyspace calls_for
  alter_keyspace-calls_for desired ks none sent = SameEffect-nil answer sent
  alter_keyspace-calls_for desired ks (some info) sent = ground (
    arith,
    SameEffect-nil answer sent,
    SameEffect-append answer
        (wrap ("failed to alter \"" <> (ks <> "\" keyspace")) (send answer (update_rf ks desired)))
        (wrap ("failed to run repair on \"" <> (ks <> "\" keyspace")) (send answer (run_repair ks)))
        (update_rf ks desired ∷ []) (run_repair ks ∷ []) sent
        (SameEffect-one answer ("failed to alter \"" <> (ks <> "\" keyspace"))
          (update_rf ks desired) sent)
        (λ t.
          SameEffect-one answer ("failed to run repair on \"" <> (ks <> "\" keyspace"))
            (run_repair ks) t),
  )

  reconcile_each-plan :
      (c : Cluster) (all_dcs : List Dc) (current : List Keyspace) (kss : List String)
      (sent : List Call)
      → SameEffect
          (reconcile_each digits answer c all_dcs current kss sent)
          (send_all answer (plan digits c all_dcs current kss) sent)
  unfolding reconcile_each reconcile_keyspace plan
  reconcile_each-plan c all_dcs current [] sent = SameEffect-nil answer sent
  reconcile_each-plan c all_dcs current (ks ∷ rest) sent =
      SameEffect-append answer (reconcile_keyspace digits answer c all_dcs current ks)
        (reconcile_each digits answer c all_dcs current rest)
        (calls_for (desired_replication_options digits c ks all_dcs) ks
          (get_keyspace_by_name current ks))
        (plan digits c all_dcs current rest) sent
        (alter_keyspace-calls_for (desired_replication_options digits c ks all_dcs) ks
          (get_keyspace_by_name current ks) sent)
        (λ t. reconcile_each-plan c all_dcs current rest t)

  -- Once the keyspaces could be read, reconciling them has the effect of sending, in the order of
  -- the keyspaces to reconcile and up to the first call that fails, an update and a repair for each
  -- keyspace that exists with other options than wanted, and nothing for the others.
  pub reconcile_keyspaces-plan :
      (c : Cluster) (all_dcs : List Dc) (current : List Keyspace) (sent : List Call)
      → SameEffect
          (reconcile_keyspaces digits answer (ok current) c all_dcs sent)
          (send_all answer (plan digits c all_dcs current (desired_keyspaces_to_reconcile c)) sent)
  unfolding reconcile_keyspaces
  reconcile_keyspaces-plan c all_dcs current sent =
      reconcile_each-plan c all_dcs current (desired_keyspaces_to_reconcile c) sent
