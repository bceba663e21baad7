-- ===== src/Backups.antt =====
-- controllers/cassandrabackup: which request is sent to Icarus for a CassandraBackup, and which of
-- the backups that Icarus lists belongs to it. Times are instants; Go's int64 fields of these
-- resources are not negative.
pub mod Requests
use mr_cassop.Prelude.{
  ℕ, String, ◌<>◌, Bool, true, false, not, ◌&&◌, ◌||◌, Option, none, some, List, [], ◌∷◌, ◌==◌,
  string_eq, filterb, if◌then◌else◌, ltb, eqb, Outcome, ok, err, panic, Done, Exec, continue,
  and_then,
}
use mr_cassop.Cluster.{Cluster, Dc}

pub record Retry : Type 0 where
  pub interval : ℕ
  pub strategy : String
  pub max_attempts : ℕ
  pub enabled : Bool

pub record DataRate : Type 0 where
  pub value : ℕ
  pub unit : String

-- The fields of a CassandraBackup; `state` is that of its status.
pub record CassandraBackup : Type 0 where
  pub name : String
  pub namespace : String
  pub storage_location : String
  pub snapshot_tag : String
  pub secret_name : String
  pub concurrent_connections : ℕ
  pub dc : String
  pub entities : String
  pub timeout : ℕ
  pub duration : String
  pub metadata_directive : String
  pub insecure : Bool
  pub create_missing_bucket : Bool
  pub skip_bucket_verification : Bool
  pub skip_refreshing : Bool
  pub retry : Retry
  pub bandwidth : Option DataRate
  pub state : String

pub record BackupRequest : Type 0 where
  pub kind : String
  pub storage_location : String
  pub data_dirs : List String
  pub global_request : Bool
  pub snapshot_tag : String
  pub namespace : String
  pub secret_name : String
  pub concurrent_connections : ℕ
  pub dc : String
  pub entities : String
  pub timeout : ℕ
  pub duration : String
  pub metadata_directive : String
  pub insecure : Bool
  pub create_missing_bucket : Bool
  pub skip_bucket_verification : Bool
  pub skip_refreshing : Bool
  pub retry : Retry
  pub bandwidth : Option DataRate

-- icarus.Backup: the fields that repeat those of the request, and its own.
pub record Backup : Type 0 where
  pub request : BackupRequest
  pub creation_time : String
  pub schema_version : String

-- The string that follows the last byte, `storageLocation[len(storageLocation):]`, is empty and
-- never a slash, so a slash is always added.
abbrev after_end : String → String
after_end s = ""

unfoldable pub add_slash : String → String
add_slash s = if not (after_end s == "/") then s <> "/" else s

abbrev pub or_text : String → String → String
or_text s default = if s == "" then default else s

abbrev pub or_number : ℕ → ℕ → ℕ
or_number n default = if eqb n 0 then default else n

abbrev positive_rate : Option DataRate → Option DataRate
positive_rate none = none
positive_rate (some r) = if ltb 0 r.value then some r else none

abbrev pub or_retry : Retry → Retry
or_retry r = record {
  interval = or_number r.interval 10;
  strategy = or_text r.strategy "LINEAR";
  max_attempts = or_number r.max_attempts 3;
  enabled = r.enabled;
}

unfoldable pub request_for : String → Cluster → Dc → CassandraBackup → BackupRequest
request_for location c dc b = record {
  kind = "backup";
  storage_location = location <> (c.name <> ("/" <> (dc.name <> "/1")));
  data_dirs = "/var/lib/cassandra/data" ∷ [];
  global_request = true;
  snapshot_tag = or_text b.snapshot_tag b.name;
  namespace = b.namespace;
  secret_name = b.secret_name;
  concurrent_connections = or_number b.concurrent_connections 10;
  dc = b.dc;
  entities = b.entities;
  timeout = or_number b.timeout 5;
  duration = b.duration;
  metadata_directive = or_text b.metadata_directive "COPY";
  insecure = b.insecure;
  create_missing_bucket = b.create_missing_bucket;
  skip_bucket_verification = b.skip_bucket_verification;
  skip_refreshing = b.skip_refreshing;
  retry = or_retry b.retry;
  bandwidth = positive_rate b.bandwidth;
}

abbrev with_first : List Dc → (Dc → BackupRequest) → Outcome BackupRequest
with_first [] f = panic
with_first (dc ∷ _) f = ok (f dc)

-- `cc.Spec.DCs[0]` is out of range if there are no DCs.
unfoldable pub create_backup_request : Cluster → CassandraBackup → Outcome BackupRequest
unfolding add_slash request_for
create_backup_request c b = with_first c.dcs λ dc. request_for (add_slash b.storage_location) c dc b

abbrev pub same_bool : Bool → Bool → Bool
same_bool true b = b
same_bool false b = not b

abbrev pub same_list : List String → List String → Bool
same_list [] [] = true
same_list [] (_ ∷ _) = false
same_list (_ ∷ _) [] = false
same_list (a ∷ l) (b ∷ l') = a == b && same_list l l'

abbrev pub same_rate : Option DataRate → Option DataRate → Bool
same_rate none none = true
same_rate none (some _) = false
same_rate (some _) none = false
same_rate (some a) (some b) = eqb a.value b.value && a.unit == b.unit

abbrev pub same_retry : Retry → Retry → Bool
same_retry a b =
    eqb a.interval b.interval
    && (a.strategy == b.strategy
        && (eqb a.max_attempts b.max_attempts && same_bool a.enabled b.enabled))

-- `cmp.Equal` of two requests, without their tags.
unfoldable pub same_request : BackupRequest → BackupRequest → Bool
same_request a b =
    (a.kind == b.kind
      && (a.storage_location == b.storage_location && same_list a.data_dirs b.data_dirs))
    && ((same_bool a.global_request b.global_request
          && (a.namespace == b.namespace && a.secret_name == b.secret_name))
        && ((eqb a.concurrent_connections b.concurrent_connections
              && (a.dc == b.dc && (a.entities == b.entities && eqb a.timeout b.timeout)))
            && ((a.duration == b.duration
                  && (a.metadata_directive == b.metadata_directive
                      && same_bool a.insecure b.insecure))
                && ((same_bool a.create_missing_bucket b.create_missing_bucket
                      && (same_bool a.skip_bucket_verification b.skip_bucket_verification
                          && same_bool a.skip_refreshing b.skip_refreshing))
                    && (same_retry a.retry b.retry && same_rate a.bandwidth b.bandwidth)))))

unfoldable pub backup_config_changed : Backup → BackupRequest → Bool
unfolding same_request
backup_config_changed existing request =
    not (same_request (record existing.request { kind = "backup"; global_request = true }) request)

-- The fields of an empty icarus.Backup.
unfoldable pub no_backup : Backup
no_backup = record {
  request = record {
    kind = "";
    storage_location = "";
    data_dirs = [];
    global_request = false;
    snapshot_tag = "";
    namespace = "";
    secret_name = "";
    concurrent_connections = 0;
    dc = "";
    entities = "";
    timeout = 0;
    duration = "";
    metadata_directive = "";
    insecure = false;
    create_missing_bucket = false;
    skip_bucket_verification = false;
    skip_refreshing = false;
    retry = record { interval = 0; strategy = ""; max_attempts = 0; enabled = false };
    bandwidth = none;
  };
  creation_time = "";
  schema_version = "";
}

module _ (contains_text : String → String → Bool) (parse : String → Option ℕ) where
  -- The test of the first loop: a coordinator's request with the tag, or with the tag and a schema
  -- version. `contains_text` is `strings.Contains`, and `parse` is `time.Parse`.
  unfoldable pub is_related : String → Backup → Bool
  is_related tag b =
      (contains_text b.request.snapshot_tag (tag <> ("-" <> b.schema_version))
        || tag == b.request.snapshot_tag)
      && b.request.global_request

  -- One turn of the second loop.
  unfoldable pub later : Backup → Backup → Backup
  later acc b = elim (parse b.creation_time) [
    | none ↦ acc
    | some t ↦
        if acc.creation_time == ""
        then b
        else elim (parse acc.creation_time) [ none ↦ acc | some u ↦ if ltb u t then b else acc ]
  ]

  unfoldable pub latest : Backup → List Backup → Backup
  unfolding later
  latest acc [] = acc
  latest acc (b ∷ bs) = latest (later acc b) bs

  unfoldable pub choose : List Backup → Option Backup
  unfolding latest no_backup
  choose [] = none
  choose (b ∷ []) = some b
  choose (b ∷ b' ∷ bs) = some (latest no_backup (b ∷ b' ∷ bs))

  unfoldable pub find_related_backup : CassandraBackup → List Backup → Option Backup
  unfolding choose is_related
  find_related_backup b all = choose (filterb (is_related (or_text b.snapshot_tag b.name)) all)
