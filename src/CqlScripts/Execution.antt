-- ===== src/CqlScripts/Execution.antt =====
-- controllers/cql_configmaps.go: the scripts of the labelled config maps are executed.
use mr_cassop.Prelude.{
  ℕ, suc, String, ◌<>◌, none, some, List, [], ◌∷◌, ◌==◌, string_eq, if◌then◌else◌, Outcome, ok,
  Done, Exec, pure, wrap, continue, ◌>>◌, Answer, send, rewrap,
}
use mr_cassop.Prelude.Dict.{Dict, keys, lookup, insert}
use mr_cassop.Prelude.Order.{sort_strings}
use mr_cassop.Roles.{text_at}
use mr_cassop.CqlScripts.{Text, parse_cql_queries}

pub record ScriptMap : Type 0 where
  pub name : String
  pub namespace : String
  pub data_of : Dict String Text
  pub annotations : Dict String String

pub data Call : Type 0 where
  query : Text → Call
  run_repair : String → Call
  update : ScriptMap → Call

abbrev pub annotation_repair_keyspace : String
annotation_repair_keyspace = "cql-repairKeyspace"

abbrev pub annotation_cql_checksum : String
annotation_cql_checksum = "cql-checksum"

-- `cm.Data[cmKey]`
abbrev pub script_at : String → Dict String Text → Text
script_at k d = elim (lookup k d) [ none ↦ [] | some t ↦ t ]

-- The annotations with the checksum. If there was none, they are a new map.
unfoldable pub checked : String → Dict String String → Dict String String
checked checksum annotations =
    insert annotation_cql_checksum checksum
      (if text_at annotation_cql_checksum annotations == "" then [] else annotations)

-- `sha` is util.Sha1 of the printed data, `digits` prints a number.
module _ (sha : Dict String Text → String) (digits : ℕ → String) (answer : Answer Call) where
  unfoldable pub query_failed : ScriptMap → String → ℕ → String
  query_failed cm key index =
      "Query #"
      <> (digits index
          <> (" from script with key \""
              <> (key
                  <> ("\" in ConfigMap " <> (cm.namespace <> ("/" <> (cm.name <> " failed")))))))

  unfoldable pub run_queries : ScriptMap → String → ℕ → List Text → Exec (List Call) Done
  run_queries cm key index [] = pure tt
  run_queries cm key index (q ∷ queries) =
      wrap (query_failed cm key index) (send answer (query q))
      >> run_queries cm key (suc index) queries

  unfoldable pub run_scripts : ScriptMap → List String → Exec (List Call) Done
  run_scripts cm [] = pure tt
  run_scripts cm (key ∷ more) =
      run_queries cm key 1 (parse_cql_queries (script_at key cm.data_of)) >> run_scripts cm more

  -- In the order of the keys.
  unfoldable pub execute_cql_cm_scripts : ScriptMap → Exec (List Call) Done
  execute_cql_cm_scripts cm = run_scripts cm (sort_strings (keys cm.data_of))

  unfoldable pub repair_keyspace : String → Exec (List Call) Done
  repair_keyspace keyspace sent =
      if keyspace == ""
      then (ok tt, sent)
      else wrap ("failed to run repair on \"" <> (keyspace <> "\" keyspace"))
          (send answer (run_repair keyspace)) sent

  -- One turn of the loop.
  unfoldable pub reconcile_config_map_scripts : ScriptMap → Exec (List Call) Done
  reconcile_config_map_scripts cm sent =
      let checksum = sha cm.data_of in
      if text_at annotation_cql_checksum cm.annotations == checksum
      then (ok tt, sent)
      else (wrap
              ("failed to execute CQL scripts from ConfigMap "
                <> (cm.namespace <> ("/" <> cm.name)))
              (execute_cql_cm_scripts cm)
            >> repair_keyspace (text_at annotation_repair_keyspace cm.annotations)
            >> wrap ("Failed to update CM \"" <> (cm.name <> "\"")) (
                send answer (update (record cm { annotations = checked checksum cm.annotations }))))
          sent

  unfoldable pub reconcile_each_map : List ScriptMap → Exec (List Call) Done
  reconcile_each_map [] = pure tt
  reconcile_each_map (cm ∷ cms) = reconcile_config_map_scripts cm >> reconcile_each_map cms

  -- The first argument is the answer of the `List` of the labelled config maps.
  unfoldable pub reconcile_cql_config_maps : Outcome (List ScriptMap) → Exec (List Call) Done
  reconcile_cql_config_maps cms sent =
      continue (rewrap "Can't get list of config maps" cms) reconcile_each_map sent
