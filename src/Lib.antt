-- ===== src/Lib.antt =====
-- A model of the Litestream operator and of what makes it correct.
--
-- The operator replicates SQLite databases of Kubernetes workloads with Litestream. Its parts:
--   * the types LitestreamReplica and LitestreamRestore (api/v1): Api/Replica and Api/Restore, one
--     record per struct. Phases, condition types and Job conditions are enumerations, with a
--     constructor for the empty text and, for the phase of a restore, one for any other text;
--   * the restore controller (internal/controller/litestreamrestore_controller.go): Restore. One
--     reconcile runs the handler of the restore's phase and writes the next phase to its status;
--   * the target workload (internal/controller/workload.go): Workload, a Deployment or a StatefulSet
--     behind one interface, its replica count and its pod template;
--   * the replica controller (internal/controller/litestreamreplica_controller.go): Replica, with the
--     rendering of litestream.yml (buildLitestreamConfigYAML) in Config, which the restore controller
--     uses too;
--   * the mutating webhook (internal/webhook/sidecar_injector.go): Webhook/Injector puts the sidecar and
--     the init containers, which Webhook/Injector/Containers builds, into a pod; Webhook/Scripts holds the shell scripts of these as texts and
--     Webhook/Scripts/Runs and Webhook/Scripts/InitSql what the scripts do, as functions of what they find;
--     Webhook/Patched says what a patched pod was and becomes, in terms of its fields;
--   * the validating webhook (internal/webhook/litestreamreplica_webhook.go): Webhook/Validator;
--   * the manager (cmd/main.go): Manager/Main, from the parsed flags to the exit code, with the TLS options
--     of the servers in Manager/Tls, over slices that share arrays (Manager/Slices). Manager/Main also has
--     what the SetupWithManager of the controllers and of the validating webhook register.
--
-- How the parts interact. The restore controller pauses replication by an annotation on the
-- LitestreamReplica; the replica controller answers by writing the paused text into a ConfigMap, for which
-- the restore controller waits before it scales the workload down. Before it scales up again, it sets the
-- annotation that makes the webhook leave the archive check out of the next pod.
--
-- Restore has a module per group of operations: Annotations (pauseReplication, resumeReplication,
-- setSkipArchiveCheck), Status (setStatus, failRestore, failRestoreWithCleanup), Jobs (buildRestoreJob,
-- buildValidationJob, s3EnvVars, restoreJobPodLogs, reconcileRestoreConfig), Phases (a handler per phase:
-- Pausing, Judging and ScalingUp, over Common) and Reconcile. A long handler is cut where it looks
-- something up, so that what follows is a function of the answer. The proofs stand in modules of their own:
-- Machine is the abstract machine of the status, Refinement relates the reconciler to it; Life and Course
-- are about a restore over many reconciles, Bound counts the statuses that it is written and Counts is
-- about the replica counts that it writes; Scaling, JobGuard, Progress, Returns and Recovery are about one
-- reconcile; Files is about the files of the Jobs (over Config/Lines, which reads litestream.yml back, and
-- Base/FilePath/Dir), Pauses is about the annotations.
--
-- Replica has one module per step of its reconcile: ConfigMaps (reconcileLitestreamConfig and
-- reconcileInitSQLConfig), Target (reconcileTargetAnnotation), Pods (litestreamContainerState,
-- archiveCheckState, isFailureReason), Status (updateStatus, clearSkipArchiveCheck) over Conditions
-- (setCondition), and Reconcile (Reconcile and podToLitestreamReplica). Its proofs are Health, Readiness,
-- Handoff, Convergence, Writes, InitSql (what is stored of init.sql) and Cycle. meta.SetStatusCondition and
-- meta.RemoveStatusCondition are parameters with the law that a condition which is set or removed is so and
-- the others stay; the SHA-256 digest is a parameter. A patch of the status replaces the object by the
-- server's answer, which is a part of the client.
--
-- System puts both controllers on one cluster: Replay is the cluster that a list of writes leads to, with a
-- module per controller which shows that its reconciles lead there; Store says what the server is relied on
-- to do with a restore and its source; Turns is the relation of the turns that the controllers and others
-- take, without a refused patch of the restore's status (failRestoreWithCleanup takes the pause off before
-- it), over Quiet and Begin, about the phases that need the pause; Handover is about the ConfigMap of the
-- source, over Configs (who writes it) and Draining (how ScalingDown is entered). Rendering is what a
-- reconcile of a replica leaves in its ConfigMap, and Handshake the two answers for which a restore waits.
-- Admission is about the webhook's answer to the pods that a restore brings back. Pipeline leads an object
-- from the validating webhook to the mutating one. In Turns and Handover one restore of the source is taken
-- to be under way: nothing in the code keeps a second one from ending the pause of the first. For the
-- ConfigMap the restore is taken to have another name than its source, since the ConfigMap of its Job has
-- the name that the source's would have.
--
-- The client of the API server is a parameter: Kube/Client, a record of answers over an unknown state of
-- the cluster, where every call may fail in any way and a write may change the cluster in any way. A step
-- of the program is a function from a world to an answer and a world; the world keeps the list of the
-- writes that were sent, newest first, which the theorems read. Taken for granted: a read leaves the
-- cluster as it is. Patches are kept as the pair of the object that was taken and the object that results,
-- since what the server makes of the difference is not the operator's code; SetControllerReference and
-- CreateOrUpdate are parameters or single writes likewise. The encoding of pods in the webhook is a
-- parameter too.
--
-- Copies is about api/v1/zz_generated.deepcopy.go. The controllers make each patch from a deep copy and
-- from the object that they change behind it, so that a copy which shared a map or an array with its
-- original would make the patch empty. Copies/Memory has the structs of api/v1 as they lie in memory, with
-- addresses for pointers and slices; Copies/Heap the cells and the steps over them, which may fault, with
-- the copy of a pointer and of a slice; Replicas, Restores and Objects the functions of the file. Meaning
-- says which values of Api a struct in memory stands for and what is asked of the deep copies of
-- apimachinery and core/v1, which are parameters (Calls). Deep says what a deep copy is; Arrays, Parts and
-- Structs show that the copies are deep, and Isolation is what follows for the callers.
--
-- The calls that cmd/main.go makes of controller-runtime are values (Manager/Calls), and a parameter says
-- which fail, given the calls before. The process is a function to its ending and the calls it made. How
-- much room Go's append leaves in a new array is a parameter. The proofs are Steps, against the list of
-- calls in Plan, Started and Servers.
--
-- Numbers: a replica count is an integer (Base/Tests.ℤ) that is compared and never computed with, so that
-- the width of int32 does not matter. Times are seconds. A nil map and an empty one are the same list. `%q`
-- (Base/Strings.quote) takes every character past ASCII to be printable. `decimal` takes as much fuel as
-- the number itself, which is more than its digits. Nothing else is on fuel: the reconcilers have no loop,
-- and the loops over lists are structural.
--
-- Not modelled: logging, the parsing of the command line (the flag package with the flags of zap).
pub mod Base
pub mod Kube
pub mod Api
pub mod Workload
pub mod Config
pub mod Copies
pub mod Replica
pub mod Manager
pub mod Restore
pub mod Webhook
pub mod System
pub mod Tests
