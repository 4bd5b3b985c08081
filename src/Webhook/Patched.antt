-- ===== src/Webhook/Patched.antt =====
-- What a pod that the mutating webhook patches was, and what it becomes, in terms of their fields.
use sqlite_operator.Base.{
  ◌≡◌, ◌≢◌, ◌⊎◌, refl, inl, inr, true, false, String, ◌<>◌, Option-cases, List, [], ◌∷◌, ◌++◌,
  arith, eq_iff,
}
use sqlite_operator.Base.Dict.{index}
use sqlite_operator.Kube.Objects.{Container, VolumeMount, Volume, config_map, Pod, NamespacedName}
use sqlite_operator.Kube.Errors.{Result, ok}
use sqlite_operator.Api.Replica.{LitestreamReplica}
use sqlite_operator.Webhook.Injector.{
  any_named, already_injected, find_mount, find_volume_for_path, sidecar, startup_containers,
  init_containers, init_volumes, inject_over, Codec, Request, patched, handle_pod,
}
use sqlite_operator.Webhook.Reference.{Refers, resolve_litestream_replica-Refers}
use sqlite_operator.Webhook.Mounts.{NoneCovers, IsFirstCover, find_mount-Answers, covers_iff}
use sqlite_operator.Webhook.Injection.{handle_pod-Injects}

-- A mount at the path itself, or at a directory above it.
abbrev pub Contains : String → VolumeMount → Type 0
Contains path vm =
    (vm.mount_path ≡ path) ⊎ ((rest : String) × (path ≡ (vm.mount_path <> "/") <> rest))

abbrev pub NoneContains : String → List VolumeMount → Type 0
NoneContains path [] = Unit
NoneContains path (vm ∷ vms) = (¬ Contains path vm) × NoneContains path vms

-- The first mount of a list that contains the path.
abbrev pub IsFirstMount : String → List VolumeMount → VolumeMount → Type 0
IsFirstMount path vms vm =
    (before : List VolumeMount) × (after : List VolumeMount) × (vms ≡ before ++ (vm ∷ after))
    × NoneContains path before
    × Contains path vm

abbrev pub NoneNamed : String → List Container → Type 0
NoneNamed name [] = Unit
NoneNamed name (c ∷ cs) = (c.name ≢ name) × NoneNamed name cs

-- The volume that holds the litestream.yml of an object.
abbrev pub config_of_source : LitestreamReplica → Volume
config_of_source db = record {
  name = "litestream-config";
  source = config_map (db.metadata.name <> "-litestream");
}

-- A container that replicates the database over a volume with the configuration of the object.
abbrev pub Replicates : LitestreamReplica → String → Container → Type 0
Replicates db volume c =
    (c.name ≡ "litestream")
    × (c.args ≡ "replicate" ∷ "-config" ∷ "/etc/litestream/litestream.yml" ∷ [])
    × (c.volume_mounts
        ≡ record { name = volume; mount_path = db.spec.database_path; read_only = false }
          ∷ record { name = "litestream-config"; mount_path = "/etc/litestream"; read_only = true }
          ∷ [])

-- A pod with one container more, behind its own, and its own init containers and volumes kept in
-- their order.
pub record IsExtended (old new : Pod) (db : LitestreamReplica) (volume : String) : Type 0 where
  pub added : Container
  pub replicates : Replicates db volume added
  pub containers : new.spec.containers ≡ old.spec.containers ++ (added ∷ [])
  pub before_init : List Container
  pub after_init : List Container
  pub init_containers :
      new.spec.init_containers ≡ before_init ++ (old.spec.init_containers ++ after_init)
  pub more_volumes : List Volume
  pub volumes : new.spec.volumes ≡ old.spec.volumes ++ (config_of_source db ∷ more_volumes)

any_named-NoneNamed :
    (name : String) (cs : List Container) → any_named name cs ≡ false → NoneNamed name cs
any_named-NoneNamed name [] h = tt
any_named-NoneNamed name (c ∷ cs) h =
    (λ e. absurd (ground (arith, eq_iff c.name name)), any_named-NoneNamed name cs (ground arith))

NoneCovers-NoneContains :
    (path : String) (vms : List VolumeMount) → NoneCovers path vms → NoneContains path vms
NoneCovers-NoneContains path [] n = tt
NoneCovers-NoneContains path (vm ∷ vms) (f, n) =
    (λ c. cc (f, (covers_iff path vm).1 c), NoneCovers-NoneContains path vms n)

IsFirstCover-IsFirstMount :
    (path : String) (vms : List VolumeMount) (vm : VolumeMount)
    → IsFirstCover path vms vm
    → IsFirstMount path vms vm
IsFirstCover-IsFirstMount path vms vm (before, after, e, n, c) =
    (before, after, e, NoneCovers-NoneContains path before n, (covers_iff path vm).0 c)

-- Where the search for the volume ended.
pub record Shares (containers : List Container) (path volume : String) : Type 0 where
  pub app : Container
  pub others : List Container
  pub in_front : containers ≡ app ∷ others
  pub mount : VolumeMount
  pub first : IsFirstMount path app.volume_mounts mount
  pub of_volume : mount.name ≡ volume

find_volume_for_path-Shares :
    (cs : List Container) (path volume : String)
    → find_volume_for_path cs path ≡ ok volume
    → Shares cs path volume
unfolding find_volume_for_path
find_volume_for_path-Shares [] path volume h = cc h
find_volume_for_path-Shares (c ∷ cs) path volume h =
    let answer = find_mount-Answers path c.volume_mounts in
    elim (Option-cases (find_mount path c.volume_mounts)) [
      | inl e ↦ cc (rw e at h)
      | inr (vm, e) ↦ record {
        app = c;
        others = cs;
        in_front = refl;
        mount = vm;
        first = IsFirstCover-IsFirstMount path c.volume_mounts vm (rw e at answer);
        of_volume = cc (rw e at h);
      }
    ]

module _ {Raw : Type 0} (codec : Codec Raw)
    (get_replica : NamespacedName → Result LitestreamReplica) where
  inject_over-IsExtended :
      (pod : Pod) (db : LitestreamReplica) (volume : String)
      → IsExtended pod (inject_over pod db volume) db volume
  unfolding inject_over sidecar
  inject_over-IsExtended pod db volume = record {
    added = sidecar db volume;
    replicates = (refl, refl, refl);
    containers = refl;
    before_init = startup_containers db volume;
    after_init = init_containers db volume;
    init_containers = refl;
    more_volumes = init_volumes db;
    volumes = refl;
  }

  -- What a patch says of the pod, the object and the pod that is sent back.
  pub record IsPatched (req : Request Raw) (pod : Pod) (raw : Raw) : Type 0 where
    pub annotated : index pod.metadata.annotations "litestream.io/inject" ≡ "true"
    pub fresh : NoneNamed "litestream" pod.spec.containers
    pub source : LitestreamReplica
    pub refers :
        Refers get_replica
          (index pod.metadata.annotations "litestream.io/config")
          req.namespace
          source
    pub volume : String
    pub shares : Shares pod.spec.containers source.spec.database_path volume
    pub new : Pod
    pub extended : IsExtended pod new source volume
    pub encodes : codec.marshal new ≡ ok raw

  -- A pod that the webhook patches has the annotation litestream.io/inject with "true", no container
  -- named litestream, and a reference to a LitestreamReplica that is found; its first container has a
  -- mount at the database's path or above it. The patch encodes the pod with one container more, which
  -- replicates over the volume of the first such mount with the object's configuration, and with the
  -- pod's own containers, init containers and volumes kept.
  pub handle_pod-patched :
      (req : Request Raw) (pod : Pod) (original raw : Raw)
      → handle_pod codec get_replica req pod ≡ patched original raw
      → IsPatched req pod raw
  unfolding already_injected
  handle_pod-patched req pod original raw h =
      let i = handle_pod-Injects codec get_replica req pod original raw h in
      record {
        annotated = i.annotated;
        fresh = any_named-NoneNamed "litestream" pod.spec.containers i.fresh;
        source = i.source;
        refers =
            resolve_litestream_replica-Refers codec get_replica pod req.namespace i.source
              i.resolves;
        volume = i.volume;
        shares =
            find_volume_for_path-Shares pod.spec.containers i.source.spec.database_path i.volume
              i.covered;
        new = inject_over pod i.source i.volume;
        extended = inject_over-IsExtended pod i.source i.volume;
        encodes = i.encodes;
      }
