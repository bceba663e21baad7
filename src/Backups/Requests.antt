-- ===== src/Backups/Requests.antt =====
-- Which backup counts as the one of a resource, and when a failed one is tried again
-- (controllers/cassandrabackup).
use mr_cassop.Prelude.{
  ℕ, String, ◌<>◌, Bool, true, false, Option, none, some, List, [], ◌∷◌, all, ◌≡◌, refl, sym, ap,
  ◌∙◌, ◌==◌, string_eq, leb, arith, ok,
}
use mr_cassop.Cluster.{Cluster, Dc}
use mr_cassop.Backups.{
  Retry, DataRate, CassandraBackup, BackupRequest, Backup, add_slash, request_for,
  create_backup_request, same_list, same_rate, same_retry, same_request, backup_config_changed,
  no_backup, later, latest, choose,
}

module _ (parse : String → Option ℕ) where
  -- The first backup is not older than the second, as far as the second's time can be read.
  unfoldable pub not_older : Backup → Backup → Bool
  not_older r b = elim (parse b.creation_time) [
    | none ↦ true
    | some t ↦ elim (parse r.creation_time) [ none ↦ false | some u ↦ leb t u ]
  ]

  readable : Backup → Bool
  readable b = elim (parse b.creation_time) [ none ↦ b.creation_time == "" | some t ↦ true ]

  later-not_older :
      (contains_text : String → String → Bool) (acc b : Backup)
      → readable acc ≡ true
      → parse "" ≡ none
      → (not_older (later contains_text parse acc b) acc ≡ true)
        × (not_older (later contains_text parse acc b) b ≡ true)
        × (readable (later contains_text parse acc b) ≡ true)
  unfolding later not_older readable
  later-not_older contains_text acc b h e = ground arith

  not_older_trans :
      (a b c : Backup)
      → not_older a b ≡ true
      → not_older b c ≡ true
      → readable b ≡ true
      → parse "" ≡ none
      → not_older a c ≡ true
  unfolding not_older readable
  not_older_trans a b c h k r e = ground arith

  not_older_refl : (a : Backup) → not_older a a ≡ true
  unfolding not_older readable
  not_older_refl a = ground arith

  latest-not_older :
      (contains_text : String → String → Bool) (acc : Backup) (bs : List Backup)
      → readable acc ≡ true
      → parse "" ≡ none
      → (not_older (latest contains_text parse acc bs) acc ≡ true)
        × (all (not_older (latest contains_text parse acc bs)) bs ≡ true)
  unfolding latest
  latest-not_older contains_text acc [] h e = (not_older_refl acc, refl)
  latest-not_older contains_text acc (b ∷ bs) h e =
      let (old, new, r) = later-not_older contains_text acc b h e in
      let (top, rest) = latest-not_older contains_text (later contains_text parse acc b) bs r e in
      (
        not_older_trans _ (later contains_text parse acc b) acc top old r e,
        ground (
          arith,
          rest,
          not_older_trans (latest contains_text parse (later contains_text parse acc b) bs)
              (later contains_text parse acc b) b top new r e,
        ),
      )

  no_backup-readable : readable no_backup ≡ true
  unfolding readable no_backup
  no_backup-readable = ground arith

  -- The backup that is taken for that of a resource is, among all the backups that are related to
  -- the resource, not older than any whose time of creation can be read; if there is no such backup
  -- among several, it is the empty one. A text without characters is no time.
  pub choose-latest :
      (contains_text : String → String → Bool) (bs : List Backup) (r : Backup)
      → parse "" ≡ none
      → choose contains_text parse bs ≡ some r
      → all (not_older r) bs ≡ true
  unfolding choose
  choose-latest contains_text [] r e h = refl
  choose-latest contains_text (b ∷ []) r e h = ground (arith, not_older_refl b)
  choose-latest contains_text (b ∷ b' ∷ bs) r e h =
      ground
        (arith, (latest-not_older contains_text no_backup (b ∷ b' ∷ bs) (no_backup-readable) e).1)

same_list_refl : (l : List String) → same_list l l ≡ true
same_list_refl [] = refl
same_list_refl (a ∷ l) = ground (arith, same_list_refl l)

same_rate_refl : (r : Option DataRate) → same_rate r r ≡ true
same_rate_refl none = refl
same_rate_refl (some r) = ground arith

same_retry_refl : (r : Retry) → same_retry r r ≡ true
same_retry_refl r = ground arith

unchanged :
    (req : BackupRequest) (tag time version : String)
    → req.kind ≡ "backup"
    → req.global_request ≡ true
    → backup_config_changed
        (record {
          request = record req { snapshot_tag = tag };
          creation_time = time;
          schema_version = version;
        })
        req
      ≡ false
unfolding backup_config_changed same_request
unchanged req tag time version k g =
    ground
      (arith, same_list_refl req.data_dirs, same_retry_refl req.retry, same_rate_refl req.bandwidth)

create_backup_request-eq :
    (c : Cluster) (dc : Dc) (dcs : List Dc) (b : CassandraBackup) (req : BackupRequest)
    → c.dcs ≡ dc ∷ dcs
    → create_backup_request c b ≡ ok req
    → request_for (add_slash b.storage_location) c dc b ≡ req
unfolding create_backup_request
create_backup_request-eq c dc dcs b req e h = ground arith

slash_added : (s : String) → add_slash s ≡ s <> "/"
unfolding add_slash string_eq
slash_added s = refl

-- The request that is made for a resource places the backup under its storage location, to which a
-- slash is added whatever it ends with; and a failed backup that Icarus lists with the fields of
-- that request, under any tag, has no changed configuration, so it is not tried again.
pub create_backup_request_lem :
    (c : Cluster) (dc : Dc) (dcs : List Dc) (b : CassandraBackup) (req : BackupRequest)
    (tag : String) (time version : String)
    → c.dcs ≡ dc ∷ dcs
    → create_backup_request c b ≡ ok req
    → (req.storage_location ≡ (b.storage_location <> "/") <> (c.name <> ("/" <> (dc.name <> "/1"))))
      × (backup_config_changed
            (record {
              request = record req { snapshot_tag = tag };
              creation_time = time;
              schema_version = version;
            })
            req
          ≡ false)
unfolding request_for
create_backup_request_lem c dc dcs b req tag time version e h =
    let p = create_backup_request-eq c dc dcs b req e h in
    (
      sym (ap (λ q. q.storage_location) p)
          ∙ ap (λ l. l <> (c.name <> ("/" <> (dc.name <> "/1")))) (slash_added b.storage_location),
      unchanged req tag time version (sym (ap (λ q. q.kind) p))
          (sym (ap (λ q. q.global_request) p)),
    )
