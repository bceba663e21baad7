-- ===== src/Objects.antt =====
-- controllers/helpers.go: how the operator writes a config map or a secret.
pub mod Twice
use mr_cassop.Prelude.{
  String, ◌<>◌, Bool, List, if◌then◌else◌, Outcome, ok, err, Done, Exec, wrap, send, Answer, rewrap,
}
use mr_cassop.Prelude.Dict.{Dict}
use mr_cassop.Cluster.{Get, found, not_found, failed}
use mr_cassop.Roles.{merge_map}

-- A config map or a secret. `type_of` stands for what is fixed when the object is created: a secret's
-- type and whether it is immutable.
pub record KObject : Type 0 where
  pub name : String
  pub labels : Dict String String
  pub data_of : Dict String String
  pub annotations : Dict String String
  pub owners : List String
  pub type_of : String

pub data Write : Type 0 where
  create update delete : KObject → Write

unfoldable pub merged : KObject → KObject → KObject
unfolding merge_map
merged actual desired = record desired {
  annotations = merge_map actual.annotations desired.annotations;
}

-- `equal` is compare.EqualConfigMap or compare.EqualSecret, which are `cmp.Equal`.
module _ (equal : KObject → KObject → Bool) (answer : Answer Write) where
  -- The second argument is what the `Get` of the object gives.
  unfoldable pub reconcile_config_map : KObject → Get KObject → Exec (List Write) Done
  unfolding merged
  reconcile_config_map desired not_found sent =
      wrap ("Unable to create " <> desired.name) (send answer (create desired)) sent
  reconcile_config_map desired (failed e) sent =
      (rewrap ("Could not get " <> desired.name) (err e), sent)
  reconcile_config_map desired (found actual) sent =
      let desired' = merged actual desired in
      if equal actual desired'
      then (ok tt, sent)
      else wrap ("Could not update " <> desired.name)
          (send answer (
            update (record actual {
              labels = desired'.labels;
              data_of = desired'.data_of;
              annotations = desired'.annotations;
              owners = desired'.owners;
            })))
          sent

  unfoldable pub reconcile_secret : KObject → Get KObject → Exec (List Write) Done
  unfolding merged merge_map
  reconcile_secret desired not_found sent =
      wrap ("Unable to create secret " <> desired.name) (send answer (create desired)) sent
  reconcile_secret desired (failed e) sent =
      (rewrap ("Could not get secret " <> desired.name) (err e), sent)
  reconcile_secret desired (found actual) sent =
      let desired' = merged actual desired in
      if equal actual desired'
      then (ok tt, sent)
      else wrap ("Could not update secret " <> desired.name)
          (send answer (
            update (record actual {
              labels = desired'.labels;
              data_of = desired'.data_of;
              annotations = merge_map actual.annotations desired'.annotations;
              owners = desired'.owners;
            })))
          sent
