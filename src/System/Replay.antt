-- ===== src/System/Replay.antt =====
-- The cluster that a list of writes leads to, and what the server is relied on to do with a write.
pub mod Restores
pub mod Statuses
pub mod Replicas
use sqlite_operator.Kube.Objects.{NamespacedName}
use sqlite_operator.Base.{◌<>◌, ◌≡◌, ◌⊎◌, Bool, true, false, not, ◌&&◌, ◌||◌, none, List, [], ◌∷◌}
use sqlite_operator.Base.Dict.{Dict}
use sqlite_operator.Kube.Client.{
  Client, Write, patch_restore_status, create_or_update_config_map, patch_replica, World,
}
use sqlite_operator.Api.Replica.{annotation_pause}
use sqlite_operator.Api.Restore.{LitestreamRestore}
use sqlite_operator.Restore.Annotations.{has_annotation}

-- Newest first, as the writes are kept.
abbrev pub replay : {S : Type 0} → Client S → List Write → S → S
replay client [] c = c
replay client (x ∷ xs) c = (client.send x (replay client xs c)).1

abbrev pub is_status_patch : Write → Bool
is_status_patch (patch_restore_status old new) = true
is_status_patch _ = false

-- Every patch of a restore's status among the writes was accepted.
abbrev pub AllAccepted : {S : Type 0} → Client S → List Write → S → Type 0
AllAccepted client [] c = Unit
AllAccepted client (x ∷ xs) c =
    (is_status_patch x ≡ true → (client.send x (replay client xs c)).0 ≡ none)
    × AllAccepted client xs c

-- The objects from which patches of a restore's status were taken.
abbrev pub bases : List Write → List LitestreamRestore
bases [] = []
bases (patch_restore_status old new ∷ xs) = old ∷ bases xs
bases (_ ∷ xs) = bases xs

-- A patch of a replica that does not take the pause off, or any other write.
abbrev pub leaves_pause : Write → Bool
leaves_pause (patch_replica old new) =
    not (has_annotation old annotation_pause) || has_annotation new annotation_pause
leaves_pause _ = true

-- A ConfigMap that passes a test, or any other write.
abbrev pub fits_config : (NamespacedName → Dict → Bool) → Write → Bool
fits_config fits (create_or_update_config_map key content owner) = fits key content
fits_config fits _ = true

abbrev pub is_harmless : (NamespacedName → Dict → Bool) → Write → Bool
is_harmless fits x = not (is_status_patch x) && leaves_pause x && fits_config fits x

abbrev pub all_harmless : (NamespacedName → Dict → Bool) → List Write → Bool
all_harmless fits [] = true
all_harmless fits (x ∷ xs) = is_harmless fits x && all_harmless fits xs

-- The ConfigMaps that were written.
abbrev pub config_keys : List Write → List NamespacedName
config_keys [] = []
config_keys (create_or_update_config_map key content owner ∷ xs) = key ∷ config_keys xs
config_keys (_ ∷ xs) = config_keys xs

-- The ConfigMap of a LitestreamReplica or of a LitestreamRestore.
abbrev pub config_of : NamespacedName → NamespacedName
config_of key = record { namespace = key.namespace; name = key.name <> "-litestream" }

abbrev pub key_of : LitestreamRestore → NamespacedName
key_of restore = record { namespace = restore.metadata.namespace; name = restore.metadata.name }

-- Neither a patch of a restore's status nor a ConfigMap was written.
abbrev pub IsFresh : List Write → Type 0
IsFresh xs = (bases xs ≡ []) × (config_keys xs ≡ [])

module _ {S : Type 0} (client : Client S) (c : S) where
  -- A world that the writes sent so far have led to.
  abbrev pub Tracks : World S → Type 0
  Tracks w = w.cluster ≡ replay client w.sent c

  -- Besides, at most one patch of a status was sent, and it was taken from this object, and at most one
  -- ConfigMap, which is the object's.
  abbrev pub Follows : LitestreamRestore → World S → Type 0
  Follows restore w =
      Tracks w
      × ((bases w.sent ≡ []) ⊎ (bases w.sent ≡ restore ∷ []))
      × ((config_keys w.sent ≡ []) ⊎ (config_keys w.sent ≡ config_of (key_of restore) ∷ []))

  -- Besides, no write touched a restore's status or took the pause off a replica, and the ConfigMaps
  -- that were written pass a test.
  abbrev pub IsCareful : (NamespacedName → Dict → Bool) → World S → Type 0
  IsCareful fits w = Tracks w × (all_harmless fits w.sent ≡ true)
