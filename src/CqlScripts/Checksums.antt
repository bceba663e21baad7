-- ===== src/CqlScripts/Checksums.antt =====
-- controllers/cql_configmaps.go: which queries, repairs and updates a pass sends, and what the
-- checksum does to the next pass.
use mr_cassop.Prelude.{
  ℕ, suc, String, ◌<>◌, List, [], ◌∷◌, ◌++◌, map, ◌≡◌, arith, ◌==◌, ==_refl, string_eq,
  if◌then◌else◌, sym, ap, ◌∙◌, Done, Exec, ok, Answer, send, send_all, SameEffect, wrap, ◌>>◌,
  run_ok, false,
}
use mr_cassop.Prelude.Plans.{
  Follows, planned_nothing, planned_one, planned_then, planned_wrap, planned_if,
}
use mr_cassop.Prelude.Dict.{Dict, keys, insert, lookup-insert}
use mr_cassop.Prelude.Order.{sort_strings}
use mr_cassop.Roles.{text_at}
use mr_cassop.CqlScripts.{Text, parse_cql_queries}
use mr_cassop.CqlScripts.Execution.{
  query_failed, ScriptMap, Call, query, run_repair, update, script_at, checked,
  annotation_cql_checksum, annotation_repair_keyspace, run_queries, run_scripts,
  execute_cql_cm_scripts, reconcile_config_map_scripts, reconcile_each_map,
  reconcile_cql_config_maps, repair_keyspace,
}

-- The queries of the scripts with these keys.
abbrev pub queries_of : ScriptMap → List String → List Call
queries_of cm [] = []
queries_of cm (key ∷ more) =
    map query (parse_cql_queries (script_at key cm.data_of)) ++ queries_of cm more

abbrev pub calls_for : (Dict String Text → String) → ScriptMap → List Call
calls_for sha cm =
    if text_at annotation_cql_checksum cm.annotations == sha cm.data_of
    then []
    else (queries_of cm (sort_strings (keys cm.data_of))
        ++ (let keyspace = text_at annotation_repair_keyspace cm.annotations in
            if keyspace == "" then [] else run_repair keyspace ∷ []))
      ++ update (record cm { annotations = checked (sha cm.data_of) cm.annotations }) ∷ []

abbrev pub plan : (Dict String Text → String) → List ScriptMap → List Call
plan sha [] = []
plan sha (cm ∷ cms) = calls_for sha cm ++ plan sha cms

checked_first :
    (checksum : String) (annotations : Dict String String)
    → text_at annotation_cql_checksum annotations ≡ ""
    → checked checksum annotations ≡ (annotation_cql_checksum, checksum) ∷ []
unfolding checked insert
checked_first checksum annotations h = ground arith

-- The test of the checksum, when there was none.
differs_first :
    (m : Exec (List Call) Done) (sent : List Call) (old new : String)
    → old ≡ ""
    → (new == "") ≡ false
    → (if old == new then (ok tt, sent) else m sent) ≡ m sent
differs_first m sent old new e n = ground arith

module _ (sha : Dict String Text → String) (digits : ℕ → String) (answer : Answer Call) where
  run_queries-plan :
      (cm : ScriptMap) (key : String) (index : ℕ) (qs : List Text)
      → Follows answer (run_queries sha digits answer cm key index qs) (map query qs)
  unfolding run_queries
  run_queries-plan cm key index [] = (planned_nothing answer).2
  run_queries-plan cm key index (q ∷ qs) =
      (planned_then answer
        (planned_one answer (query_failed sha digits answer cm key index) (query q))
        (
          run_queries sha digits answer cm key (suc index) qs,
          map query qs,
          run_queries-plan cm key (suc index) qs,
        )).2

  run_scripts-plan :
      (cm : ScriptMap) (ks : List String)
      → Follows answer (run_scripts sha digits answer cm ks) (queries_of cm ks)
  unfolding run_scripts
  run_scripts-plan cm [] = (planned_nothing answer).2
  run_scripts-plan cm (key ∷ more) =
      let qs = parse_cql_queries (script_at key cm.data_of) in
      (planned_then answer
        (run_queries sha digits answer cm key 1 qs, map query qs, run_queries-plan cm key 1 qs)
        (run_scripts sha digits answer cm more, queries_of cm more, run_scripts-plan cm more)).2

  reconcile_config_map_scripts-plan :
      (cm : ScriptMap)
      → Follows answer (reconcile_config_map_scripts sha digits answer cm) (calls_for sha cm)
  unfolding reconcile_config_map_scripts execute_cql_cm_scripts repair_keyspace
  reconcile_config_map_scripts-plan cm =
      let ks = sort_strings (keys cm.data_of) in
      let keyspace = text_at annotation_repair_keyspace cm.annotations in
      (planned_if answer (text_at annotation_cql_checksum cm.annotations == sha cm.data_of)
        (planned_nothing answer)
        (planned_then answer
          (planned_then answer
            (planned_wrap answer
              ("failed to execute CQL scripts from ConfigMap "
                <> (cm.namespace <> ("/" <> cm.name)))
              (run_scripts sha digits answer cm ks, queries_of cm ks, run_scripts-plan cm ks))
            (planned_if answer (keyspace == "") (planned_nothing answer) (
              planned_one answer ("failed to run repair on \"" <> (keyspace <> "\" keyspace"))
                (run_repair keyspace))))
          (planned_one answer ("Failed to update CM \"" <> (cm.name <> "\""))
            (update (record cm { annotations = checked (sha cm.data_of) cm.annotations }))))).2

  reconcile_each_map-plan :
      (cms : List ScriptMap)
      → Follows answer (reconcile_each_map sha digits answer cms) (plan sha cms)
  unfolding reconcile_each_map
  reconcile_each_map-plan [] = (planned_nothing answer).2
  reconcile_each_map-plan (cm ∷ cms) =
      (planned_then answer
        (
          reconcile_config_map_scripts sha digits answer cm,
          calls_for sha cm,
          reconcile_config_map_scripts-plan cm,
        )
        (reconcile_each_map sha digits answer cms, plan sha cms, reconcile_each_map-plan cms)).2

  -- Once the labelled config maps could be listed, their scripts are reconciled with the effect of
  -- sending, up to the first call that fails, for each map whose checksum is not that of its data:
  -- the queries of its scripts in the order of their keys, the repair of the keyspace it names, if
  -- any, and its update with the new checksum.
  pub reconcile_cql_config_maps-plan :
      (cms : List ScriptMap) (sent : List Call)
      → SameEffect
          (reconcile_cql_config_maps sha digits answer (ok cms) sent)
          (send_all answer (plan sha cms) sent)
  unfolding reconcile_cql_config_maps
  reconcile_cql_config_maps-plan cms sent = reconcile_each_map-plan cms sent

  -- When the scripts of a config map that had no checksum were executed with success, the last call
  -- is its update with the checksum as its only annotation: all others are lost, the keyspace to
  -- repair as well. The checksum of the data is not the empty text.
  pub reconcile_config_map_scripts-annotations :
      (cm : ScriptMap) (sent : List Call) {all_sent : List Call}
      → text_at annotation_cql_checksum cm.annotations ≡ ""
      → (sha cm.data_of == "") ≡ false
      → reconcile_config_map_scripts sha digits answer cm sent ≡ (ok tt, all_sent)
      → (before : List Call) × (all_sent
          ≡ before
            ++ update (record cm { annotations = (annotation_cql_checksum, sha cm.data_of) ∷ [] })
              ∷ [])
  unfolding reconcile_config_map_scripts
  reconcile_config_map_scripts-annotations cm sent h n e =
      let m =
        wrap ("failed to execute CQL scripts from ConfigMap " <> (cm.namespace <> ("/" <> cm.name)))
          (execute_cql_cm_scripts sha digits answer cm)
        >> repair_keyspace sha digits answer (text_at annotation_repair_keyspace cm.annotations) in
      let save = wrap ("Failed to update CM \"" <> (cm.name <> "\"")) (
        send answer
          (update (record cm { annotations = checked (sha cm.data_of) cm.annotations }))) in
      let executed =
        sym (
          differs_first (m >> save) sent (text_at annotation_cql_checksum cm.annotations)
            (sha cm.data_of) h n)
        ∙ e in
      let (_, same) = run_ok m save sent (ap (λ r. r.0) executed) in
      (
        (m sent).1,
        sym (ap (λ r. r.1) executed)
            ∙ same
            ∙ ap (λ a. (m sent).1 ++ update (record cm { annotations = a }) ∷ [])
                (checked_first (sha cm.data_of) cm.annotations h),
      )

-- Scripts that were executed are not executed again.
pub calls_for-checked :
    (sha : Dict String Text → String) (cm : ScriptMap)
    → calls_for sha (record cm { annotations = checked (sha cm.data_of) cm.annotations }) ≡ []
unfolding checked
calls_for-checked sha cm = ground (
  arith,
  lookup-insert annotation_cql_checksum annotation_cql_checksum (sha cm.data_of) [],
  lookup-insert annotation_cql_checksum annotation_cql_checksum (sha cm.data_of) cm.annotations,
  ==_refl annotation_cql_checksum,
  ==_refl (sha cm.data_of),
)
