-- ===== src/Scaling/Partition.antt =====
-- The two selections of statefulsets (cassandra_scaling.go) share out the list between them.
use mr_cassop.Prelude.{
  String, Bool, true, false, not, ◌&&◌, ◌||◌, Option, none, some, List, [], ◌∷◌, any, ◌≡◌, refl,
  sym, ◌∙◌, ◌==◌, string_eq, contains, arith,
}
use mr_cassop.Prelude.Dict.{Dict, lookup, insert, lookup-insert}
use mr_cassop.Prelude.Order.{contains-sort_strings}
use mr_cassop.Cluster.{Cluster, StatefulSet}
use mr_cassop.Scaling.{is_desired, names_where, map_where, desired_dcs_sts, decommission_dcs_sts}

contains-names_where :
    (p : StatefulSet → Bool) (all : List StatefulSet) (n : String)
    → contains (names_where p all) n ≡ any (λ s. p s && s.name == n) all
unfolding names_where
contains-names_where p [] n = refl
contains-names_where p (s ∷ all) n = ground (arith, contains-names_where p all n)

abbrev pub is_some {ℓ} : {A : Type ℓ} → Option A → Bool
is_some none = false
is_some (some a) = true

lookup-map_where :
    (p : StatefulSet → Bool) (all : List StatefulSet) (m : Dict String StatefulSet) (n : String)
    → is_some (lookup n (map_where p all m))
      ≡ (is_some (lookup n m) || any (λ s. p s && s.name == n) all)
unfolding map_where
lookup-map_where p [] m n = ground arith
lookup-map_where p (s ∷ all) m n = ground (
  arith,
  lookup-map_where p all m n,
  lookup-map_where p all (insert s.name s m) n,
  lookup-insert n s.name s m,
)

-- A name stands among the names of the wanted statefulsets exactly if a statefulset with that name
-- has the label of a DC of the cluster, and among those to decommission exactly if one with that
-- name does not.
pub desired_dcs_sts-contains :
    (c : Cluster) (all : List StatefulSet) (n : String)
    → (contains (desired_dcs_sts c all).0 n ≡ any (λ s. is_desired c.dcs s && s.name == n) all)
      × (contains (decommission_dcs_sts c all).0 n
          ≡ any (λ s. not (is_desired c.dcs s) && s.name == n) all)
unfolding desired_dcs_sts decommission_dcs_sts lookup
desired_dcs_sts-contains c all n = (
  contains-sort_strings (names_where (is_desired c.dcs) all) n
      ∙ contains-names_where (is_desired c.dcs) all n,
  contains-sort_strings (names_where (λ s. not (is_desired c.dcs s)) all) n
      ∙ contains-names_where (λ s. not (is_desired c.dcs s)) all n,
)

-- Both selections list exactly the names that they also map to a statefulset.
pub desired_dcs_sts-lookup :
    (c : Cluster) (all : List StatefulSet) (n : String)
    → (is_some (lookup n (desired_dcs_sts c all).1) ≡ contains (desired_dcs_sts c all).0 n)
      × (is_some (lookup n (decommission_dcs_sts c all).1)
          ≡ contains (decommission_dcs_sts c all).0 n)
unfolding desired_dcs_sts decommission_dcs_sts lookup
desired_dcs_sts-lookup c all n = (
  lookup-map_where (is_desired c.dcs) all [] n ∙ sym (desired_dcs_sts-contains c all n).0,
  lookup-map_where (λ s. not (is_desired c.dcs s)) all [] n
      ∙ sym (desired_dcs_sts-contains c all n).1,
)
