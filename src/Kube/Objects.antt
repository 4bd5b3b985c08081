-- ===== src/Kube/Objects.antt =====
-- The fields of Kubernetes objects that the operator reads or writes.
use sqlite_operator.Base.{ℕ, String, Bool, Option, List, ℤ}
use sqlite_operator.Base.Dict.{Dict}

pub record NamespacedName : Type 0 where
  pub namespace : String
  pub name : String

pub record ObjectMeta : Type 0 where
  pub name : String
  pub namespace : String
  pub labels : Dict
  pub annotations : Dict
  pub generation : ℕ

pub record ResourceRequirements : Type 0 where
  pub limits : Dict
  pub requests : Dict

pub record SecretKeySelector : Type 0 where
  pub name : String
  pub key : String

-- A literal value, or one taken from a key of a Secret.
pub data EnvVarSource : Type 0 where
  value : String → EnvVarSource
  secret_key_ref : SecretKeySelector → EnvVarSource

pub record EnvVar : Type 0 where
  pub name : String
  pub source : EnvVarSource

pub record ContainerPort : Type 0 where
  pub name : String
  pub container_port : ℕ
  pub protocol : String

pub record VolumeMount : Type 0 where
  pub name : String
  pub mount_path : String
  pub read_only : Bool

-- The user and group of a SecurityContext or a PodSecurityContext.
pub record SecurityContext : Type 0 where
  pub run_as_user : Option ℤ
  pub run_as_group : Option ℤ

pub record Container : Type 0 where
  pub name : String
  pub image : String
  pub command : List String
  pub args : List String
  pub env : List EnvVar
  pub ports : List ContainerPort
  pub volume_mounts : List VolumeMount
  pub resources : ResourceRequirements
  pub security_context : Option SecurityContext

pub data VolumeSource : Type 0 where
  config_map : String → VolumeSource
  persistent_volume_claim : String → VolumeSource
  other_source : String → VolumeSource

pub record Volume : Type 0 where
  pub name : String
  pub source : VolumeSource

pub data RestartPolicy : Type 0 where
  always on_failure never : RestartPolicy

pub record PodSpec : Type 0 where
  pub restart_policy : RestartPolicy
  pub security_context : Option SecurityContext
  pub init_containers : List Container
  pub containers : List Container
  pub volumes : List Volume

-- Which of the three states of a container are set: running, waiting with its reason, and
-- terminated with its exit code.
pub record ContainerState : Type 0 where
  pub running : Bool
  pub waiting : Option String
  pub terminated : Option ℤ

pub record ContainerStatus : Type 0 where
  pub name : String
  pub state : ContainerState

pub record Pod : Type 0 where
  pub metadata : ObjectMeta
  pub spec : PodSpec
  pub init_container_statuses : List ContainerStatus
  pub container_statuses : List ContainerStatus

pub record ConfigMap : Type 0 where
  pub metadata : ObjectMeta
  pub content : Dict

pub data JobConditionType : Type 0 where
  job_complete job_failed : JobConditionType
  other_condition : String → JobConditionType

pub record JobCondition : Type 0 where
  pub type : JobConditionType
  -- whether the status is "True"
  pub holds : Bool
  pub message : String

pub record Job : Type 0 where
  pub metadata : ObjectMeta
  pub backoff_limit : ℤ
  pub template_labels : Dict
  pub pod_spec : PodSpec
  pub conditions : List JobCondition

-- The fields that a Deployment and a StatefulSet have alike.
pub record WorkloadObject : Type 0 where
  pub metadata : ObjectMeta
  pub replicas : Option ℤ
  pub selector_labels : Dict
  pub template_labels : Dict
  pub template_annotations : Dict
  pub status_replicas : ℤ
  pub ready_replicas : ℤ
