-- ===== src/Defaults.antt =====
-- controllers/defaults.go: the values that a CassandraCluster gets where it sets none.
pub mod Spec
pub mod Sysctls
pub mod Twice
use mr_cassop.Prelude.{
  ℕ, suc, zero, ◌+◌, String, ◌<>◌, Bool, true, false, not, ◌&&◌, Option, none, some, List, [], ◌∷◌,
  ◌++◌, map, is_empty, ◌==◌, string_eq, eqb, if◌then◌else◌, Outcome, ok, and_then, deref,
}
use mr_cassop.Prelude.Dict.{Dict, lookup, insert}

-- `if x == "" { x = d }`
abbrev pub or_text : String → String → String
or_text d x = if x == "" then d else x

-- `if x == nil { x = &d }`
abbrev pub or_value {ℓ} : {A : Type ℓ} → A → Option A → Option A
or_value d none = some d
or_value d (some a) = some a

-- `if x == 0 { x = d }`
abbrev pub or_number : ℕ → ℕ → ℕ
or_number d n = if eqb n 0 then d else n

abbrev pub or_list {ℓ} : {A : Type ℓ} → List A → List A → List A
or_list d xs = if is_empty xs then d else xs

-- `parses` tells the texts that `time.ParseDuration` accepts.
abbrev pub or_duration : (String → Bool) → Bool → String → String → String
or_duration parses enabled d x = if enabled then (if parses x then x else d) else x

-- The images of the operator's configuration.
pub record Images : Type 0 where
  pub cassandra_image : String
  pub prober_image : String
  pub jolokia_image : String
  pub icarus_image : String
  pub reaper_image : String

pub record NodeTlsSecret : Type 0 where
  pub file_key : String
  pub crt_file_key : String
  pub ca_crt_file_key : String
  pub keystore_file_key : String
  pub keystore_password_key : String
  pub truststore_file_key : String
  pub truststore_password_key : String
  pub generate_keystore_password : String

unfoldable pub default_node_tls_keys : NodeTlsSecret → NodeTlsSecret
default_node_tls_keys s = record {
  file_key = or_text "tls.key" s.file_key;
  crt_file_key = or_text "tls.crt" s.crt_file_key;
  ca_crt_file_key = or_text "ca.crt" s.ca_crt_file_key;
  keystore_file_key = or_text "keystore.p12" s.keystore_file_key;
  keystore_password_key = or_text "keystore.password" s.keystore_password_key;
  truststore_file_key = or_text "truststore.p12" s.truststore_file_key;
  truststore_password_key = or_text "truststore.password" s.truststore_password_key;
  generate_keystore_password = or_text "cassandra" s.generate_keystore_password;
}

-- Encryption between nodes or of clients; `internode` is empty for clients. `ca` has the two keys of
-- the secret of the certificate authority.
pub record Encryption : Type 0 where
  pub require_client_auth : Option Bool
  pub protocol : String
  pub algorithm : String
  pub store_type : String
  pub cipher_suites : List String
  pub ca_file_key : String
  pub ca_crt_file_key : String
  pub node : NodeTlsSecret

abbrev pub default_cipher_suites : List String
default_cipher_suites =
    "TLS_ECDHE_RSA_WITH_AES_128_CBC_SHA" ∷ "TLS_ECDH_RSA_WITH_AES_128_CBC_SHA"
    ∷ "TLS_ECDH_ECDSA_WITH_AES_256_CBC_SHA" ∷ "TLS_ECDHE_ECDSA_WITH_AES_128_CBC_SHA"
    ∷ "TLS_RSA_WITH_AES_128_CBC_SHA" ∷ "TLS_RSA_WITH_AES_256_CBC_SHA"
    ∷ "TLS_ECDHE_ECDSA_WITH_AES_256_CBC_SHA" ∷ "TLS_ECDHE_RSA_WITH_AES_256_CBC_SHA" ∷ []

unfoldable pub default_client_tls : Encryption → Encryption
default_client_tls e = record {
  require_client_auth = or_value true e.require_client_auth;
  protocol = or_text "TLS" e.protocol;
  algorithm = or_text "SunX509" e.algorithm;
  store_type = or_text "PKCS12" e.store_type;
  cipher_suites = or_list default_cipher_suites e.cipher_suites;
  ca_file_key = or_text "ca.key" e.ca_file_key;
  ca_crt_file_key = or_text "ca.crt" e.ca_crt_file_key;
  node = default_node_tls_keys e.node;
}

-- The server's encryption with the level of encryption between nodes.
unfoldable pub default_server_tls : String × Encryption → String × Encryption
default_server_tls (internode, e) = (or_text "none" internode, default_client_tls e)

abbrev pub default_sysctls : Dict String String
default_sysctls =
    ("net.ipv4.ip_local_port_range", "1025 65535")
    ∷ ("net.ipv4.tcp_rmem", "4096 87380 16777216")
    ∷ ("net.ipv4.tcp_wmem", "4096 65536 16777216")
    ∷ ("net.core.somaxconn", "65000")
    ∷ ("net.ipv4.tcp_ecn", "0")
    ∷ ("net.ipv4.tcp_window_scaling", "1")
    ∷ ("vm.dirty_background_bytes", "10485760")
    ∷ ("vm.dirty_bytes", "1073741824")
    ∷ ("vm.zone_reclaim_mode", "0")
    ∷ ("fs.file-max", "1073741824")
    ∷ ("vm.max_map_count", "1073741824")
    ∷ ("vm.swappiness", "1")
    ∷ []

-- One turn of the loop over the default settings: one that is set stays.
abbrev pub with_default : String → String → Dict String String → Dict String String
with_default k v m = elim (lookup k m) [ none ↦ insert k v m | some _ ↦ m ]

unfoldable pub add_defaults : Dict String String → Dict String String → Dict String String
add_defaults [] m = m
add_defaults ((k, v) ∷ d) m = add_defaults d (with_default k v m)

-- A map that is nil is `none`.
unfoldable pub set_sysctls : Option (Dict String String) → Option (Dict String String)
unfolding add_defaults
set_sysctls none = some default_sysctls
set_sysctls (some m) = some (add_defaults default_sysctls m)

-- The names of the pods of a DC from a number on.
unfoldable pub pod_names : (ℕ → String) → String → ℕ → ℕ → List String
pod_names digits prefix j zero = []
pod_names digits prefix j (suc n) =
    (prefix <> ("-" <> digits j)) ∷ pod_names digits prefix (suc j) n
