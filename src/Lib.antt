-- ===== src/Lib.antt =====
-- The migration controller of openshift-vsphere-migration, which moves an OpenShift cluster from one
-- vCenter to another. A work item names a migration object. The controller reads it, reconciles it
-- and writes its status back (pkg/controller/controller.go); a reconciliation executes the current
-- phase behind an approval gate and advances, or rolls back (pkg/controller/reconciler.go and
-- pkg/controller/state/state_machine.go); a phase is executed by pkg/controller/phases/phase.go. The
-- largest phase moves the CSI volumes (pkg/controller/phases/migrate_csi_volumes.go), with the
-- managers of pkg/openshift and pkg/vsphere below it.
--
-- Files:
--   Base: shared names; Base/Tests has Go's `==`, Base/Lists the native lists, Base/Int32 the int32
--     arithmetic with its wrap-around, Base/Errors Go's errors with `%w`, Base/Exec calls that read
--     and write a world and may fail.
--   Api: pkg/apis/migration/v1alpha1/types.go.
--   Conditions: pkg/util/conditions.go. Conditions/Laws has its laws.
--   Kube: the API servers' clients as a record of calls over an unknown world, and the objects.
--   Executor: ExecutePhase and AddLog of phase.go. Its children are theorems.
--   StateMachine: the methods of the state machine. Its children are theorems.
--   Reconciler: syncMigration; Reconciler/Phases has getPhaseImplementation and getAllPhases; the
--     other children are theorems.
--   Controller: syncMigrationFromKey and updateMigrationStatus.
--   Volumes, Workloads, Attachments: persistentvolumes.go, workloads.go and volumeattachments.go of
--     pkg/openshift. Attachments/Deletion and Attachments/Waiting are theorems on the
--     forced detach, Workloads/Termination on the wait for pods.
--   Vcenter: the attachment checks and the volume handles of pkg/vsphere/fcd.go.
--   CsiMigration: the CSI volume phase. Quiesce, Detach, Relocate and Restore are the operations of
--     one volume, Pipeline the loop over the volumes, Preflight, Summary, Execute and Body the phase's
--     methods; Ends, Settled, Totals, Through, Outcome, Refusal and Rollback are theorems.
--   Ticker: the loop of the waits of pkg/openshift that look at every tick. Ticker/Laws has what a
--     success shows, and that the loop ends.
--   Infrastructure: pkg/openshift/infrastructure.go; Infrastructure/Validations has the schema of the
--     resource's definition as a tree. Targets and Locking are theorems.
--   Secrets: pkg/openshift/secrets.go. Keys and Credentials are theorems.
--   Machines: pkg/openshift/machines.go. Json has the values of a provider spec, Types the objects and
--     clients, Provider, Sets, Readiness and ControlPlane the methods; Targets, Counting and Deletion
--     are theorems.
--   Backups: pkg/backup/backup.go and pkg/backup/restore.go. Manifests and Restoring are theorems.
--   ConfigMaps, Operators, Pods: configmaps.go, operators.go and pods.go of pkg/openshift.
--     Operators/Verdict is theorems.
--   Phases: Flow is how an Execute method is written, with early returns; Managers has the clients of
--     the PhaseExecutor; Backup, Cleanup, CreateWorkers, DeleteCpms, DisableCvo, MonitorHealth, RecreateCpms,
--     RestartPods, ScaleOldMachines, UpdateInfrastructure and UpdateSecrets are the files of
--     pkg/controller/phases of these names. Failing, Passing and Writes have rules on how a phase ends
--     and what it writes; the children of the phases are theorems.
--   Kube/Locking: an API server that refuses stale updates, which theorems take as a hypothesis.
--   Tests: a concrete cluster and runs on it.
--
-- How the code is read. Code that writes `*migration` returns the new object. A phase returns its
-- result, its error, and what it writes of the status (Artifacts): the backup manifests and the CSI
-- volumes' status are the only fields that a phase assigns. The world is an unknown type, which each
-- call of a client may change, also one that fails. `time.Now()` reads the world, so two readings
-- with no call between them show one instant. A text made by `fmt.Sprintf` is the list of its parts.
-- klog's output is not modelled.
--
-- Loops. The loops over a list are recursion on it. `wait.PollUntilContextTimeout`, `retry.OnError`
-- and the backoff are library calls, hence fields of the clients; the three tries of a restoration are
-- written out. The waits of pkg/openshift on a ticker (Ticker) and the loops of
-- `WaitForFCDDetached` and `ForceDetachVolume` run for as many turns as the context lives. After that
-- they return its cancellation: the waits and the first loop by their `ctx.Done()`, the second by the
-- error of its lookup. Ticker/Laws, Vcenter/Waiting and Attachments/Waiting show that enough turns make
-- that number irrelevant.
--
-- A `range` over a Go map visits it in an order that is a parameter, and so is the share that the
-- progress of a phase shows, which the source computes in float64.
--
-- Not modelled. The theorems on the reconciler are stated over arbitrary bodies of the phases, of which
-- CsiMigration and Phases have twelve; preflight, create_folder, create_tags, update_config and verify
-- are left out. Of pkg/vsphere (vm_relocate.go, cns.go, client.go, folder.go, tags.go), what the
-- CSI volume phase calls are fields of CsiMigration/Environment, and so are the infrastructure's and the
-- secrets' reads there. The installer's metadata, the informers and the command's start-up are left
-- out.
pub mod Base
pub mod Api
pub mod Conditions
pub mod Kube
pub mod Ticker
pub mod Infrastructure
pub mod Secrets
pub mod Backups
pub mod Machines
pub mod Volumes
pub mod Workloads
pub mod Attachments
pub mod Vcenter
pub mod CsiMigration
pub mod Executor
pub mod StateMachine
pub mod Reconciler
pub mod Controller
pub mod ConfigMaps
pub mod Operators
pub mod Pods
pub mod Phases
pub mod Tests
