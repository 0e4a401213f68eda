-- ===== src/Lib.antt =====
-- A model of formol, a Kubernetes operator that backs up and restores the targets of a backup
-- configuration (the Go code of api/v1alpha1, controllers and main.go).
--
-- A BackupConfiguration names targets (Deployments, StatefulSets) and how often, how many times and
-- how long they are backed up. A BackupSession is one backup: its reconciler takes it and its targets
-- through the stages Initializing, Running and Finalize, while a sidecar in each target, which is not
-- part of the repository, does the work of a stage and reports by the state of the target. A
-- RestoreSession goes through the same stages.
--
-- The files:
-- - Api and its children (api/v1alpha1): the resources as records. Session states and kinds of
--   targets are data types with the source's constants as constructors; a state of another text is
--   `other` (Api.Text has the texts). Times are what the methods of time.Time return for them.
--   Signed integers are the type ℤ of Prelude.Int: the program only compares them, and increments
--   or decrements them behind a comparison that excludes an overflow. Api.Types has the resource
--   Function, the lists of resources and the registration of the types.
-- - Outcome: what a Go function returns, a value, an error or a panic, and actions on the state of
--   the cluster. `if err != nil { return err }` is the sequencing of actions; Outcome.Laws is about
--   it.
-- - Client: the API server and controller-runtime, as a record of operations over an unknown state.
--   A theorem that says nothing else holds for every client. Client.Laws and Client.Store have the
--   documented behaviour that some theorems take as a hypothesis: that the objects of a kind are
--   read as they were written last. Reads do not change the state: what
--   other processes do happens between the runs of a reconciler, and theorems range over every
--   state to start from.
-- - Session (controllers/session.go): isBackupOngoing, initSession, checkSessionState and its uses.
--   The loop recurs on the targets left; the function that is deferred for a target that waits for
--   a job is a flag, and the answer on return is set by it. The index into Spec.Targets may panic.
--   Its children Check, Next, Moves, Returns, Within, Order, Rounds and Ready prove the properties;
--   Stage has the three stages, and Health the states that targets have in them.
-- - Retention (cleanupSessions of controllers/backupsession_controller_helper.go): the five rules
--   as tests on five counters, and the loop over the sorted sessions. The sort is a parameter.
--   Retention.Plan is the loop as a list of decisions, Retention.Settled is about the sessions in
--   the cluster, Retention.Again about a second run, and Retention.Order about the order in which
--   the sessions are listed.
-- - Snapshots (deleteSnapshots of the same file): the job that deletes the snapshots of a session.
-- - BackupSession (controllers/backupsession_controller.go): `reconcile` is Reconcile, `advance`
--   its switch, `store_state` its status update. BackupSession.System is a session together with
--   the runs of the reconciler and the reports of the sidecars, as a step relation; its children
--   are about its states (Sound), the step to Finalize (Gate), the way to an end (Steps, Stages,
--   Ends), and `reconcile` (Refines). What a run changes is in BackupSession.Changes.
-- - RestoreSession (controllers/restoresession_controller.go and
--   restoresession_controller_helper.go). RestoreSession.Laws compares its switch with that of a
--   backup session, and RestoreSession.Refines its runs with BackupSession.System.
-- - Sidecar (api/v1alpha1/common.go, GetTargetObjects, and addSidecar and DeleteSidecar of
--   controllers/backupconfiguration_controller_helpers.go): what is done to the pod specification
--   of a target. Sidecar.Mounts is GetVolumeMounts, with the functions on paths as a parameter;
--   Sidecar.Removal is DeleteSidecar, with the array that two slices of Go share. Sidecar.Choice,
--   Sidecar.Untag and Sidecar.RoundTrip prove the properties. Sidecar.Once is about a pod that has
--   the sidecar, and Sidecar.Cleaned about one from which it has been removed.
-- - CronJobs (AddCronJob and DeleteCronJob of the same file); CronJobs.Laws has the update of a
--   cron job, and CronJobs.Stored is about the cron job in the cluster.
-- - Rbac (createBSCreatorRBAC, createSidecarRBAC and deleteRBAC of the same file), with the
--   contents of the objects in Rbac.Defs; Rbac.Laws is about deleteRBAC, Rbac.Created about
--   createBSCreatorRBAC, Rbac.Ensured and Rbac.Bound about createSidecarRBAC, Rbac.Apart about the
--   objects of other kinds, and Rbac.Spared about those of other names. Rbac.Removal has
--   deleteRBAC as a list of removals, and Rbac.Removed is about the objects after it.
-- - Configuration (controllers/backupconfiguration_controller.go, with addSidecar and
--   DeleteSidecar): `reconcile_conf` is Reconcile, `set_up_conf` its part behind the deletion, and
--   `delete_conf` the deletion. Configuration.Laws proves properties of a run, and
--   Configuration.RoundTrip is about a target in the cluster. Configuration.Ready is about the
--   cluster after a run, with Sidecars and Attached for its targets; Configuration.Repeat and
--   Configuration.Again are about a second run, and Configuration.Keeps about what the loop over
--   the targets leaves. Configuration.Removed and Configuration.Detached are about the cluster
--   after the configuration has been deleted.
-- - Manager (main.go, and SetupWithManager of the three reconcilers): `main`, with what it uses of
--   controller-runtime as a parameter. Manager.Calls is the set-up as a list of calls, and
--   Manager.Index the index by which the sessions are listed. Manager.Scheme is the init function.
-- - Tests: clients in memory, runs of the model, and the theorems at concrete inputs.
--
-- No definition needs fuel: all loops go over lists. Not modelled: log lines, and the generated deep
-- copies (a value of the model is its own copy).
pub mod Prelude
pub mod Api
pub mod Outcome
pub mod Client
pub mod Session
pub mod Retention
pub mod Snapshots
pub mod BackupSession
pub mod RestoreSession
pub mod Sidecar
pub mod CronJobs
pub mod Rbac
pub mod Configuration
pub mod Manager
mod Tests
