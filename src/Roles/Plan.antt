-- ===== src/Roles/Plan.antt =====
-- What reconciling the roles sends (roles.go), described without its loop.
use mr_cassop.Prelude.{
  String, Bool, true, false, Option, none, some, List, [], ◌∷◌, ◌++◌, All, any, ◌≡◌, refl, ◌==◌,
  string_eq, if◌then◌else◌, arith, Outcome, ok, Answer, send_all, SameEffect, SameEffect-nil,
  SameEffect-one, SameEffect-append,
}
use mr_cassop.Prelude.Dict.{Dict, keys, insert, lookup-insert}
use mr_cassop.Roles.{
  Role, CqlRole, Call, drop_role, update_role, create_role, Secret, to_cassandra_role,
  get_role_by_name, keep_role, extract_roles_from_secret, reconcile_role, reconcile_each,
  reconcile_roles_in_cassandra, reconcile_roles, checksum_label, instance_label, merge_map,
  new_annotations,
}
use mr_cassop.Cluster.{found}

-- A role to delete is dropped if it exists; any other is updated if it exists, or else created.
unfoldable pub calls_for : Role → Option CqlRole → List Call
calls_for d (some role) =
    (if d.delete then drop_role role else update_role (to_cassandra_role d)) ∷ []
calls_for d none = if d.delete then [] else create_role (to_cassandra_role d) ∷ []

unfoldable pub plan : List CqlRole → List Role → List Call
unfolding calls_for
plan existing [] = []
plan existing (d ∷ desired) =
    calls_for d (get_role_by_name existing d.name) ++ plan existing desired

reconcile_role-calls_for :
    (answer : Answer Call) (d : Role) (r : Option CqlRole) (sent : List Call)
    → SameEffect (reconcile_role answer d r sent) (send_all answer (calls_for d r) sent)
unfolding reconcile_role calls_for
reconcile_role-calls_for answer d none sent = ground (
  arith,
  SameEffect-nil answer sent,
  SameEffect-one answer "Can't create role" (create_role (to_cassandra_role d)) sent,
)
reconcile_role-calls_for answer d (some role) sent = ground (
  arith,
  SameEffect-one answer "can't drop role" (drop_role role) sent,
  SameEffect-one answer "Can't update role" (update_role (to_cassandra_role d)) sent,
)

-- Once the roles in Cassandra could be read, reconciling has the effect of sending, in the order of
-- the desired roles and up to the first call that fails: a drop for each role to delete that
-- exists, an update for each other role that exists, and a creation for each other role that does
-- not.
pub reconcile_roles_in_cassandra-plan :
    (answer : Answer Call) (existing : List CqlRole) (desired : List Role) (sent : List Call)
    → SameEffect
        (reconcile_roles_in_cassandra answer (ok existing) desired sent)
        (send_all answer (plan existing desired) sent)
unfolding reconcile_roles_in_cassandra reconcile_each plan
reconcile_roles_in_cassandra-plan answer existing [] sent = SameEffect-nil answer sent
reconcile_roles_in_cassandra-plan answer existing (d ∷ desired) sent =
    SameEffect-append answer (reconcile_role answer d (get_role_by_name existing d.name))
      (reconcile_each answer existing desired) (calls_for d (get_role_by_name existing d.name))
      (plan existing desired) sent
      (reconcile_role-calls_for answer d (get_role_by_name existing d.name) sent)
      (λ t. reconcile_roles_in_cassandra-plan answer existing desired t)

abbrev names_a_key : Dict String String → Role → Bool
names_a_key entries r = any (λ k. k == r.name) (keys entries)

-- What a role of the secret is: it has a password, and its name is a key of the secret.
unfoldable pub Extracted : Dict String String → Role → Type 0
Extracted entries r = ((r.password == "") ≡ false) × (names_a_key entries r ≡ true)

Extracted-weaken :
    (name text : String) (entries : Dict String String) (rs : List Role)
    → All (Extracted entries) rs
    → All (Extracted ((name, text) ∷ entries)) rs
unfolding Extracted
Extracted-weaken name text entries [] h = ground arith
Extracted-weaken name text entries (r ∷ rs) (h, t) =
    (ground arith, Extracted-weaken name text entries rs t)

-- Every role that is read from the secret has a password that is not empty, and the name of the
-- role is a key of the secret.
pub extract_roles_from_secret-Extracted :
    (unmarshal : String → Option Role) (entries : Dict String String)
    → All (Extracted entries) (extract_roles_from_secret unmarshal entries)
unfolding extract_roles_from_secret Extracted
extract_roles_from_secret-Extracted unmarshal [] = ground arith
extract_roles_from_secret-Extracted unmarshal ((name, text) ∷ entries) = kept (unmarshal text) (
    Extracted-weaken name text entries (extract_roles_from_secret unmarshal entries)
      (extract_roles_from_secret-Extracted unmarshal entries))
  where
    kept :
        (r : Option Role)
        → All (Extracted ((name, text) ∷ entries)) (extract_roles_from_secret unmarshal entries)
        → All
            (Extracted ((name, text) ∷ entries))
            (keep_role name r (extract_roles_from_secret unmarshal entries))
    kept none h = h
    kept (some r) h = ground arith

labels_differ : (checksum_label == instance_label) ≡ false
unfolding string_eq
labels_differ = refl

-- A secret whose roles have been reconciled is left alone from then on: with the annotations that
-- the reconciliation has set, nothing is sent, whatever Cassandra's roles are.
pub reconcile_roles-twice :
    (answer : Answer Call) (sha : Dict String String → String) (unmarshal : String → Option Role)
    (get_roles : Outcome (List CqlRole)) (cluster_name secret_name : String) (s : Secret)
    (sent : List Call)
    → reconcile_roles answer sha unmarshal get_roles cluster_name secret_name
        (found (record { data_of = s.data_of; annotations = new_annotations sha cluster_name s }))
        sent
      ≡ (ok tt, sent)
unfolding reconcile_roles new_annotations merge_map
reconcile_roles-twice answer sha unmarshal get_roles cluster_name secret_name s sent = ground (
  arith,
  labels_differ,
  lookup-insert checksum_label instance_label cluster_name
      (insert checksum_label (sha s.data_of) s.annotations),
  lookup-insert checksum_label checksum_label (sha s.data_of) s.annotations,
)
