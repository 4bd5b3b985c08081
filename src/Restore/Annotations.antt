-- ===== src/Restore/Annotations.antt =====
-- pauseReplication, resumeReplication and setSkipArchiveCheck: the annotations that the restore
-- controller puts on a LitestreamReplica.
use sqlite_operator.Base.{String, Bool, true, false, not, Option, none, some, ◌==◌, if◌then◌else◌}
use sqlite_operator.Base.Dict.{Dict, index, insert, erase}
use sqlite_operator.Kube.Objects.{NamespacedName}
use sqlite_operator.Kube.Errors.{Err, Result, ok, err}
use sqlite_operator.Kube.Client.{patch_replica, Client, M, pure, ◌>>=◌, reads, send}
use sqlite_operator.Api.Replica.{LitestreamReplica, annotation_pause, annotation_skip_archive_check}

-- `injectEnabled`
abbrev pub inject_enabled : String
inject_enabled = "true"

-- Whether an annotation of a LitestreamReplica is set to "true".
unfoldable pub has_annotation : LitestreamReplica → String → Bool
unfolding index
has_annotation db k = index db.metadata.annotations k == inject_enabled

abbrev pub with_annotations : LitestreamReplica → Dict → LitestreamReplica
with_annotations db m = record db { metadata = record (db.metadata) { annotations = m } }

unfoldable pub annotate : LitestreamReplica → String → LitestreamReplica
unfolding insert
annotate db k = with_annotations db (insert k inject_enabled db.metadata.annotations)

unfoldable pub unannotate : LitestreamReplica → String → LitestreamReplica
unfolding erase
unannotate db k = with_annotations db (erase k db.metadata.annotations)

abbrev pub replica_key : LitestreamReplica → NamespacedName
replica_key db = record { namespace = db.metadata.namespace; name = db.metadata.name }

module _ {S : Type 0} (client : Client S) where
  unfoldable pub pause_replication : LitestreamReplica → M S (Option Err)
  unfolding send
  pause_replication db =
      if has_annotation db annotation_pause
      then pure none
      else send client (patch_replica db (annotate db annotation_pause))

  -- The object that was fetched earlier says whether there is a pause; the latest one is patched.
  abbrev resume_latest : Result LitestreamReplica → M S (Option Err)
  resume_latest (err e) = pure (some e)
  resume_latest (ok latest) =
      send client (patch_replica latest (unannotate latest annotation_pause))

  unfoldable pub resume_replication : LitestreamReplica → M S (Option Err)
  unfolding send
  resume_replication db =
      if not (has_annotation db annotation_pause)
      then pure none
      else reads (client.get_replica (replica_key db)) >>= resume_latest

  abbrev set_skip_latest : Bool → Result LitestreamReplica → M S (Option Err)
  set_skip_latest enable (err e) = pure (some e)
  set_skip_latest true (ok latest) =
      if has_annotation latest annotation_skip_archive_check
      then pure none
      else send client (patch_replica latest (annotate latest annotation_skip_archive_check))
  set_skip_latest false (ok latest) =
      if not (has_annotation latest annotation_skip_archive_check)
      then pure none
      else send client (patch_replica latest (unannotate latest annotation_skip_archive_check))

  unfoldable pub set_skip_archive_check : LitestreamReplica → Bool → M S (Option Err)
  unfolding send
  set_skip_archive_check db enable =
      reads (client.get_replica (replica_key db)) >>= set_skip_latest enable
