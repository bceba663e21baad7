-- ===== src/Admin/Secrets.antt =====
-- controllers/admin_auth.go and role_admin.go: the two secrets that hold the credentials.
use mr_cassop.Prelude.{
  String, ◌<>◌, Bool, List, [], ◌∷◌, ◌==◌, string_eq, if◌then◌else◌, wrapped, Outcome, ok, err,
  Done, Exec, send, wrap, continue, ◌>>◌, embed, and_then, deref, rewrap,
}
use mr_cassop.Prelude.Dict.{Dict, insert}
use mr_cassop.Cluster.{found, not_found, failed}
use mr_cassop.Roles.{merge_map, text_at, instance_label}
use mr_cassop.Objects.{KObject, create, delete, reconcile_secret}
use mr_cassop.Admin.{
  World, AuthSpec, ClientEncryption, Credentials, Command, write, admin_role, admin_password,
  get_secret,
}

unfoldable pub active_admin_secret_name : String → String
active_admin_secret_name cluster_name = cluster_name <> "-auth-active-admin"

unfoldable pub admin_auth_config_secret_name : String → String
admin_auth_config_secret_name cluster_name = cluster_name <> "-auth-config-admin"

-- labels.CombinedComponentLabels
unfoldable pub combined_component_labels : AuthSpec → String → Dict String String
unfolding merge_map
combined_component_labels cc component =
    merge_map cc.labels
      ((instance_label, cc.cluster.name) ∷ ("cassandra-cluster-component", component) ∷ [])

unfoldable pub active_admin_secret : AuthSpec → Credentials → KObject
unfolding active_admin_secret_name combined_component_labels
active_admin_secret cc auth = record {
  name = active_admin_secret_name cc.cluster.name;
  labels = combined_component_labels cc "cassandra";
  data_of = (admin_role, auth.active_role) ∷ (admin_password, auth.active_password) ∷ [];
  annotations = [];
  owners = [];
  type_of = "Opaque, immutable";
}

-- An immutable secret is replaced, not updated.
unfoldable pub replace_active_admin_secret : World → KObject → Exec (List Command) Done
replace_active_admin_secret w desired sent = elim (w.secret sent desired.name) [
  | not_found ↦
      wrap ("Unable to create secret " <> desired.name) (send w.answer (write (create desired)))
        sent
  | failed e ↦ (err (wrapped ("Could not get secret " <> desired.name) e), sent)
  | found actual ↦
      if w.equal actual desired
      then (ok tt, sent)
      else (send w.answer (write (delete actual)) >> send w.answer (write (create desired))) sent
]

unfoldable pub reconcile_active_admin_secret :
    World → AuthSpec → Credentials → Exec (List Command) Done
unfolding active_admin_secret
reconcile_active_admin_secret w cc auth =
    continue (rewrap "Cannot set controller reference" (w.own (active_admin_secret cc auth)))
      (replace_active_admin_secret w)

client_tls_dir : String
client_tls_dir = "/etc/cassandra-client-tls"

-- controllers/cassandra_statefulset.go
unfoldable pub tls_jvm_args : World → ClientEncryption → KObject → String
unfolding client_tls_dir
tls_jvm_args w c s =
    "-Djavax.net.ssl.keyStore="
    <> (client_tls_dir
        <> ("/"
            <> (c.keystore_file_key
                <> (" -Djavax.net.ssl.keyStorePassword="
                    <> (w.trim_newlines (text_at c.keystore_password_key s.data_of)
                        <> (" -Djavax.net.ssl.trustStore="
                            <> (client_tls_dir
                                <> ("/"
                                    <> (c.truststore_file_key
                                        <> (" -Djavax.net.ssl.trustStorePassword="
                                            <> w.trim_newlines (
                                                text_at c.truststore_password_key
                                                  s.data_of)))))))))))

cqlsh_config : ClientEncryption → Bool → String
unfolding client_tls_dir
cqlsh_config c client_auth =
    ("[connection]\nfactory = cqlshlib.ssl.ssl_transport_factory\nssl = true\n[ssl]\ncertfile = "
      <> (client_tls_dir
          <> ("/"
              <> (c.ca_crt_file_key
                  <> "\n;; Optional, true by default\nvalidate = true\nversion = SSLv23\n"))))
    <> (if client_auth
        then "\n;; The next 2 lines must be provided when require_client_auth = true in the cassandra.yaml file\nuserkey = "
          <> (client_tls_dir
              <> ("/"
                  <> (c.file_key
                      <> ("\nusercert = "
                          <> (client_tls_dir <> ("/" <> (c.crt_file_key <> "\n")))))))
        else "")

nodetool_config : World → ClientEncryption → Bool → KObject → String
unfolding tls_jvm_args
nodetool_config w c client_auth s =
    "-Dcom.sun.management.jmxremote.ssl=true -Dcom.sun.management.jmxremote.ssl.need.client.auth="
    <> ((if client_auth then "true" else "false")
        <> (" -Dcom.sun.management.jmxremote.registry.ssl=true " <> tls_jvm_args w c s))

-- The data of the secret, without the active credentials.
unfoldable pub config_data :
    World → AuthSpec → Credentials → List Command → Outcome (Dict String String)
unfolding cqlsh_config nodetool_config
config_data w cc auth sent =
    let jmx =
      "username=" <> (auth.desired_role <> ("\npassword=" <> (auth.desired_password <> "\n"))) in
    let d = insert "icarus-jmx" jmx [] in
    let d' =
      if cc.jmx_auth == "local_files"
      then insert "jmxremote.access"
          (auth.desired_role
            <> " readwrite \\\ncreate javax.management.monitor.*, javax.management.timer.* \\\nunregister\n")
          (insert "jmxremote.password"
            (auth.desired_role <> (" " <> (auth.desired_password <> "\n"))) d)
      else d in
    if cc.client.enabled
    then and_then (deref cc.client.require_client_auth) (λ client_auth.
      and_then (get_secret cc.client.secret_name (w.secret sent cc.client.secret_name)) (λ s. ok (
        insert "cqlshrc" (cqlsh_config cc.client client_auth)
          (insert "nodetool-ssl.properties" (nodetool_config w cc.client client_auth s) d'))))
    else ok d'

unfoldable pub admin_auth_config_secret : AuthSpec → Credentials → Dict String String → KObject
unfolding admin_auth_config_secret_name combined_component_labels
admin_auth_config_secret cc auth d = record {
  name = admin_auth_config_secret_name cc.cluster.name;
  labels = combined_component_labels cc "cassandra";
  data_of = insert admin_password auth.active_password (insert admin_role auth.active_role d);
  annotations = [];
  owners = [];
  type_of = "Opaque";
}

-- `reconcileSecret` of a secret, with its error wrapped as here.
unfoldable pub write_config_secret : World → AuthSpec → KObject → Exec (List Command) Done
unfolding active_admin_secret_name
write_config_secret w cc desired sent =
    wrap ("Unable to create Secret " <> active_admin_secret_name cc.cluster.name)
      (embed write w.answer (λ a. reconcile_secret w.equal a desired (w.secret sent desired.name)))
      sent

unfoldable pub reconcile_admin_auth_config_secret :
    World → AuthSpec → Credentials → Exec (List Command) Done
unfolding config_data admin_auth_config_secret
reconcile_admin_auth_config_secret w cc auth sent =
    continue
      (and_then (config_data w cc auth sent) (λ d.
        rewrap "Cannot set controller reference" (w.own (admin_auth_config_secret cc auth d))))
      (write_config_secret w cc) sent

unfoldable pub reconcile_admin_secrets : World → AuthSpec → Credentials → Exec (List Command) Done
reconcile_admin_secrets w cc auth =
    wrap "failed to update active admin secret" (reconcile_active_admin_secret w cc auth)
    >> wrap "failed to reconcile admin auth secret" (reconcile_admin_auth_config_secret w cc auth)
