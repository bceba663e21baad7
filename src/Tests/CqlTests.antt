-- ===== src/Tests/CqlTests.antt =====
-- CQL scripts at concrete inputs.
use mr_cassop.Prelude.{List, [], ◌∷◌, ◌++◌, map, ◌≡◌, refl, ok, send_all, SameEffect, string_eq}
use mr_cassop.Prelude.Dict.{lookup, insert}
use mr_cassop.Prelude.Order.{sort_strings}
use mr_cassop.CqlScripts.{is_space, trim_left, trim_right, is_comment, semicolon, parse_cql_queries}
use mr_cassop.CqlScripts.Lines.{text_of}
use mr_cassop.CqlScripts.Statements.{
  Statement, print, joined, with_semicolon, parse_cql_queries-print,
  parse_cql_queries-semicolon_alone,
}
use mr_cassop.CqlScripts.Execution.{
  ScriptMap, Call, query, run_repair, update, reconcile_cql_config_maps,
  reconcile_config_map_scripts, execute_cql_cm_scripts, run_scripts, run_queries, repair_keyspace,
  checked,
}
use mr_cassop.CqlScripts.Checksums.{
  plan, reconcile_cql_config_maps-plan, reconcile_config_map_scripts-annotations,
}

-- Two lines of one statement, and another statement on one line.
abbrev statements : List Statement
statements = ((97 ∷ []) ∷ [], 32 ∷ 98 ∷ []) ∷ ([], 99 ∷ []) ∷ []

parse_cql_queries-print_example :
    parse_cql_queries (text_of (print statements)) ≡ map (λ s. joined [] s.0 s.1) statements
unfolding is_space trim_left trim_right is_comment
parse_cql_queries-print_example =
    parse_cql_queries-print statements
      ((((refl, refl, refl), tt), (refl, refl, refl)), ((tt, (refl, refl, refl)), tt))
      ((refl, refl, refl), ((refl, refl, refl), ((refl, refl, refl), tt)))

-- One statement, then two that are run together, the first of two lines and the second of one.
parse_cql_queries-semicolon_alone_example :
    parse_cql_queries (
      text_of (
        (print (([], 99 ∷ []) ∷ []) ++ (97 ∷ []) ∷ (98 ∷ []) ∷ [])
        ++ (semicolon ∷ []) ∷ with_semicolon (100 ∷ []) ∷ []))
    ≡ map {A = Statement}
        (λ s. joined [] s.0 s.1)
        (([], 99 ∷ []) ∷ ((97 ∷ []) ∷ (98 ∷ []) ∷ [], 100 ∷ []) ∷ [])
unfolding is_space trim_left trim_right is_comment
parse_cql_queries-semicolon_alone_example =
    parse_cql_queries-semicolon_alone (([], 99 ∷ []) ∷ []) [] ((97 ∷ []) ∷ (98 ∷ []) ∷ []) []
      (100 ∷ [])
      (
        (tt, (refl, refl, refl)),
        ((((refl, refl, refl), ((refl, refl, refl), tt)), (refl, refl, refl)), tt),
      )
      ((refl, refl, refl), ((refl, refl, refl), ((refl, refl, refl), ((refl, refl, refl), tt))))

-- `a;b` with a line break behind.
parsed : parse_cql_queries (97 ∷ 59 ∷ 98 ∷ 10 ∷ []) ≡ (97 ∷ []) ∷ (98 ∷ []) ∷ []
unfolding parse_cql_queries
parsed = refl

abbrev script_map : ScriptMap
script_map = record {
  name = "scripts";
  namespace = "ns";
  data_of = ("a", 97 ∷ 59 ∷ []) ∷ [];
  annotations = ("cql-repairKeyspace", "ks") ∷ [];
}

-- What is left of it.
abbrev saved : ScriptMap
saved = record script_map { annotations = ("cql-checksum", "sha") ∷ [] }

reconcile_cql_config_maps-plan_example :
    SameEffect
      (reconcile_cql_config_maps (λ d. "sha") (λ n. "1") (λ s c. ok tt) (ok (script_map ∷ [])) [])
      (send_all (λ s c. ok tt) (plan (λ d. "sha") (script_map ∷ [])) [])
reconcile_cql_config_maps-plan_example =
    reconcile_cql_config_maps-plan (λ d. "sha") (λ n. "1") (λ s c. ok tt) (script_map ∷ []) []

reconcile_config_map_scripts-annotations_example :
    (before : List Call) × ((query (97 ∷ []) ∷ run_repair "ks" ∷ update saved ∷ [])
      ≡ before ++ update saved ∷ [])
unfolding reconcile_config_map_scripts execute_cql_cm_scripts run_scripts run_queries
    repair_keyspace parse_cql_queries checked insert lookup string_eq sort_strings
reconcile_config_map_scripts-annotations_example =
    reconcile_config_map_scripts-annotations (λ d. "sha") (λ n. "1") (λ s c. ok tt) script_map []
      refl refl refl
