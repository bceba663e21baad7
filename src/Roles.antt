-- ===== src/Roles.antt =====
-- controllers/roles.go: the roles that a user declares in a secret, brought into Cassandra.
pub mod Plan
use mr_cassop.Prelude.{
  String, ◌<>◌, Bool, true, false, not, ◌&&◌, ◌||◌, Option, none, some, List, [], ◌∷◌, ◌==◌,
  string_eq, find?, if◌then◌else◌, Error, Outcome, ok, err, panic, Done, Exec, pure, wrap, continue,
  rewrap, ◌>>◌, Answer, send,
}
use mr_cassop.Prelude.Dict.{Dict, lookup, insert}
use mr_cassop.Cluster.{Get, found, not_found, failed}

-- `Super` and `Login` are pointers.
pub record Role : Type 0 where
  pub name : String
  pub password : String
  pub super : Option Bool
  pub login : Option Bool
  pub delete : Bool

-- cql.Role
pub record CqlRole : Type 0 where
  pub role : String
  pub password : String
  pub super : Bool
  pub login : Bool

pub record Secret : Type 0 where
  pub data_of : Dict String String
  pub annotations : Dict String String

pub data Call : Type 0 where
  drop_role : CqlRole → Call
  update_role : CqlRole → Call
  create_role : CqlRole → Call
  update_secret : Dict String String → Call

abbrev or_default : Bool → Option Bool → Bool
or_default b none = b
or_default b (some x) = x

unfoldable pub to_cassandra_role : Role → CqlRole
to_cassandra_role role = record {
  role = role.name;
  password = role.password;
  super = or_default false role.super;
  login = or_default true role.login;
}

abbrev pub get_role_by_name : List CqlRole → String → Option CqlRole
get_role_by_name existing name = find? (λ r. r.role == name) existing

-- One turn of the loop of `extractRolesFromSecret`. `unmarshal` is `yaml.Unmarshal`, `none` if it
-- fails.
unfoldable pub keep_role : String → Option Role → List Role → List Role
keep_role name none roles = roles
keep_role name (some r) roles = if r.password == "" then roles else record r { name = name } ∷ roles

-- The loop, for one of the orders in which a map can be ranged over.
unfoldable pub extract_roles_from_secret : (String → Option Role) → Dict String String → List Role
unfolding keep_role
extract_roles_from_secret unmarshal [] = []
extract_roles_from_secret unmarshal ((name, text) ∷ entries) =
    keep_role name (unmarshal text) (extract_roles_from_secret unmarshal entries)

-- `util.MergeMap`
unfoldable pub merge_map : Dict String String → Dict String String → Dict String String
merge_map a [] = a
merge_map a ((k, v) ∷ b) = merge_map (insert k v a) b

abbrev pub text_at : String → Dict String String → String
text_at k m = elim (lookup k m) [ none ↦ "" | some v ↦ v ]

abbrev pub checksum_label : String
checksum_label = "cassandra-cluster-checksum"

abbrev pub instance_label : String
instance_label = "cassandra-cluster-instance"

-- The annotations that are set on the secret (`reconcileAnnotations` of helpers.go merges them).
unfoldable pub new_annotations :
    (Dict String String → String) → String → Secret → Dict String String
unfolding merge_map
new_annotations sha cluster_name s =
    merge_map s.annotations ((checksum_label, sha s.data_of) ∷ (instance_label, cluster_name) ∷ [])

module _ (answer : Answer Call) where
  -- One turn of the loop of `reconcileRolesInCassandra`.
  unfoldable pub reconcile_role : Role → Option CqlRole → Exec (List Call) Done
  unfolding to_cassandra_role
  reconcile_role desired (some role) sent =
      if desired.delete
      then wrap "can't drop role" (send answer (drop_role role)) sent
      else wrap "Can't update role" (send answer (update_role (to_cassandra_role desired))) sent
  reconcile_role desired none sent =
      if not desired.delete
      then wrap "Can't create role" (send answer (create_role (to_cassandra_role desired))) sent
      else (ok tt, sent)

  unfoldable pub reconcile_each : List CqlRole → List Role → Exec (List Call) Done
  unfolding reconcile_role
  reconcile_each existing [] = pure tt
  reconcile_each existing (d ∷ desired) =
      reconcile_role d (get_role_by_name existing d.name) >> reconcile_each existing desired

  unfoldable pub reconcile_roles_in_cassandra :
      Outcome (List CqlRole) → List Role → Exec (List Call) Done
  reconcile_roles_in_cassandra get_roles desired sent =
      continue (rewrap "can't get current roles info" get_roles)
        (λ existing. reconcile_each existing desired) sent

  -- `sha` is the checksum of the printed secret.
  unfoldable pub reconcile_roles :
      (Dict String String → String)
      → (String → Option Role)
      → Outcome (List CqlRole)
      → String
      → String
      → Get Secret
      → Exec (List Call) Done
  reconcile_roles sha unmarshal get_roles cluster_name secret_name secret sent =
      if secret_name == "" then (ok tt, sent) else elim secret [
        | not_found ↦ (ok tt, sent)
        | failed e ↦ (rewrap "failed to get roles secret" (err e), sent)
        | found s ↦
            if text_at checksum_label s.annotations == sha s.data_of
            then (ok tt, sent)
            else (wrap "failed to reconcile roles in cassandra" (
                    reconcile_roles_in_cassandra get_roles
                      (extract_roles_from_secret unmarshal s.data_of))
                  >> wrap "Failed to reconcile Annotations for Secret"
                      (send answer (update_secret (new_annotations sha cluster_name s))))
                sent
      ]
