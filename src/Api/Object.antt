-- ===== src/Api/Object.antt =====
-- The status of pkg/apis/migration/v1alpha1/types.go, and the whole object. A pointer is an
-- `Option`; `metav1.Time` is the native number of nanoseconds; `metav1.Condition` is written out.
use openshift_vsphere_migrat.Base.{
  ℕ, String, Bool, true, false, not, ◌&&◌, List, Option, none, some, Message,
}
use openshift_vsphere_migrat.Base.Int32.{Int32}
use openshift_vsphere_migrat.Api.Names.{MigrationPhase, PhaseStatus, LogLevel}
use openshift_vsphere_migrat.Api.Request.{Spec}
use openshift_vsphere_migrat.Api.Csi.{CsiVolumeMigrationStatus}

abbrev pub Time : Type 0
Time = ℕ

abbrev pub Duration : Type 0
Duration = ℕ

pub record LogEntry : Type 0 where
  pub timestamp : Time
  pub level : LogLevel
  pub message : Message
  pub component : String

pub record PhaseHistoryEntry : Type 0 where
  pub phase : MigrationPhase
  pub status : PhaseStatus
  pub start_time : Time
  pub completion_time : Option Time
  pub message : Message
  pub logs : List LogEntry

pub record PhaseState : Type 0 where
  pub name : MigrationPhase
  pub status : PhaseStatus
  pub progress : Int32
  pub message : Message
  pub requires_approval : Bool
  pub approved : Bool
  pub start_time : Option Time
  pub last_heartbeat : Option Time

pub record BackupManifest : Type 0 where
  pub resource_type : String
  pub name : String
  pub namespace : String
  pub backup_data : String
  pub backup_time : Time

pub record Condition : Type 0 where
  pub kind : String
  pub status : String
  pub reason : String
  pub message : Message
  pub last_transition_time : Time
  pub observed_generation : ℕ

pub record Status : Type 0 where
  pub phase : MigrationPhase
  pub conditions : List Condition
  pub phase_history : List PhaseHistoryEntry
  pub current_phase_state : Option PhaseState
  pub backup_manifests : List BackupManifest
  pub start_time : Option Time
  pub completion_time : Option Time
  pub csi_volume_migration : Option CsiVolumeMigrationStatus

-- VmwareCloudFoundationMigration, with the metadata that the controller reads.
pub record Migration : Type 0 where
  pub name : String
  pub namespace : String
  pub generation : ℕ
  pub spec : Spec
  pub status : Status

abbrev pub with_status : Migration → Status → Migration
with_status m s = record m { status = s }

-- What a phase may write of the status: pkg/backup appends to the backup manifests, and the CSI
-- volume phase keeps its own progress. No phase assigns any other field of the object.
pub record Artifacts : Type 0 where
  pub backup_manifests : List BackupManifest
  pub csi_volume_migration : Option CsiVolumeMigrationStatus

abbrev pub artifacts_of : Migration → Artifacts
artifacts_of m = record {
  backup_manifests = m.status.backup_manifests;
  csi_volume_migration = m.status.csi_volume_migration;
}

abbrev pub with_artifacts : Migration → Artifacts → Migration
with_artifacts m a = record m {
  status = record m.status {
    backup_manifests = a.backup_manifests;
    csi_volume_migration = a.csi_volume_migration;
  };
}

-- `status == PhaseStatusCompleted`
abbrev pub is_completed : PhaseStatus → Bool
is_completed PhaseStatus.completed = true
is_completed _ = false

-- `status == PhaseStatusRunning`
abbrev pub is_status_running : PhaseStatus → Bool
is_status_running PhaseStatus.running = true
is_status_running _ = false

-- A phase state that asks for an approval which has not been given.
abbrev pub is_waiting : PhaseState → Bool
is_waiting state = state.requires_approval && not state.approved

abbrev pub any_waiting : Option PhaseState → Bool
any_waiting none = false
any_waiting (some state) = is_waiting state

-- The condition types and reasons.
abbrev pub condition_reconciled : String
condition_reconciled = "Reconciled"

abbrev pub condition_progressing : String
condition_progressing = "Progressing"

abbrev pub reason_reconcile_succeeded : String
reason_reconcile_succeeded = "ReconcileSucceeded"

abbrev pub reason_reconcile_failed : String
reason_reconcile_failed = "ReconcileFailed"

abbrev pub reason_progressing : String
reason_progressing = "Progressing"

abbrev pub reason_completed : String
reason_completed = "Completed"

-- `metav1.ConditionTrue` and `metav1.ConditionFalse`
abbrev pub condition_true : String
condition_true = "True"

abbrev pub condition_false : String
condition_false = "False"
