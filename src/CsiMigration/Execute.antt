-- ===== src/CsiMigration/Execute.antt =====
-- `Execute` of the CSI volume phase, from the discovery of the volumes to its result.
use openshift_vsphere_migrat.Base.{
  string_eq, nat_eq, String, List, [], ◌∷◌, ◌++◌, Option, none, some, Message, msg, lit, number,
  GoError, panicked, error_text, Result, ok, err, if◌then◌else◌, ◌==◌, length, head?, map,
}
use openshift_vsphere_migrat.Base.Int32.{wrap}
use openshift_vsphere_migrat.Api.{
  PvStatus, PvMigrationState, CsiVolumeMigrationStatus, PhaseStatus, LogLevel, LogEntry,
  FailureDomain, Migration, Artifacts, artifacts_of,
}
use openshift_vsphere_migrat.Kube.{ObjectReference}
use openshift_vsphere_migrat.Executor.{PhaseResult}
use openshift_vsphere_migrat.Volumes.{VsphereCsiPv, list_vsphere_csi_volumes}
use openshift_vsphere_migrat.CsiMigration.Environment.{Environment}
use openshift_vsphere_migrat.CsiMigration.Pipeline.{Progress, log}
use openshift_vsphere_migrat.CsiMigration.Preflight.{preflight_check}
use openshift_vsphere_migrat.CsiMigration.Summary.{result_of, migrate_volumes, summarise}

abbrev pub Outcome : Type 0 → Type 0
Outcome S = PhaseResult × Option GoError × Artifacts × S

abbrev empty_status : CsiVolumeMigrationStatus
empty_status = record { total_volumes = 0; migrated_volumes = 0; failed_volumes = 0; volumes = [] }

abbrev pub status_or_empty : Option CsiVolumeMigrationStatus → CsiVolumeMigrationStatus
status_or_empty none = empty_status
status_or_empty (some status) = status

abbrev claim_name : Option ObjectReference → String
claim_name none = ""
claim_name (some r) = r.name

abbrev claim_namespace : Option ObjectReference → String
claim_namespace none = ""
claim_namespace (some r) = r.namespace

-- The state of a volume that has been discovered.
unfoldable pub initial_state : VsphereCsiPv → PvMigrationState
initial_state pv = record {
  pv_name = pv.name;
  pvc_name = claim_name pv.claim_ref;
  pvc_namespace = claim_namespace pv.claim_ref;
  source_volume_path = pv.volume_handle;
  source_volume_id = "";
  target_volume_path = "";
  target_volume_id = "";
  dummy_vm_name = "";
  status = PvStatus.pending;
  message = [];
  scaled_down_resources = [];
  original_reclaim_policy = "";
  pvc_spec = "";
  workload_type = "";
}

abbrev start_of : {S : Type 0} → CsiVolumeMigrationStatus → S → Progress S
start_of status s = record {
  migrated = status.migrated_volumes;
  failed = status.failed_volumes;
  logs = [];
  world = s;
}

module _ {S : Type 0} (env : Environment S) where
  -- What the phase returns, with the status that it has written.
  abbrev returning :
      Migration → CsiVolumeMigrationStatus → PhaseResult → Option GoError → S → Outcome S
  returning m status result e s =
      (result, e, record (artifacts_of m) { csi_volume_migration = some status }, s)

  abbrev failing :
      Migration → CsiVolumeMigrationStatus → Message → GoError → List LogEntry → S → Outcome S
  failing m status what e logs s =
      returning m status (result_of PhaseStatus.failed (what ++ error_text e) 0 logs 0) (some e) s

  -- With both sessions open, which are closed in the end, the target's first.
  unfoldable pub execute_connected :
      FailureDomain → String → Migration → CsiVolumeMigrationStatus → List LogEntry → S → Outcome S
  unfolding migrate_volumes summarise
  execute_connected fd source m status logs s =
      let (status', p) = migrate_volumes env fd m status logs s in
      returning m status' (summarise env status' p) none
        (env.logout source (env.logout fd.server p.world))

  unfoldable pub target_connected :
      FailureDomain
      → String
      → Migration
      → CsiVolumeMigrationStatus
      → List LogEntry
      → Result (Unit {0}) × S
      → Outcome S
  unfolding execute_connected
  target_connected fd source m status logs (err e, s) =
      failing m status (msg "Failed to connect to target vCenter: ") e logs (env.logout source s)
  target_connected fd source m status logs (ok u, s) = execute_connected fd source m status logs s

  unfoldable pub source_connected :
      FailureDomain
      → String
      → Migration
      → CsiVolumeMigrationStatus
      → List LogEntry
      → Result (Unit {0}) × S
      → Outcome S
  unfolding target_connected
  source_connected fd source m status logs (err e, s) =
      failing m status (msg "Failed to connect to source vCenter: ") e logs s
  source_connected fd source m status logs (ok u, s) =
      target_connected fd source m status logs (env.get_vsphere_client_from_migration m fd.server s)

  unfoldable pub source_found :
      FailureDomain
      → Migration
      → CsiVolumeMigrationStatus
      → List LogEntry
      → Result String × S
      → Outcome S
  unfolding source_connected
  source_found fd m status logs (err e, s) =
      failing m status (msg "Failed to get source vCenter: ") e logs s
  source_found fd m status logs (ok server, s) =
      source_connected fd server m status logs (env.get_vsphere_client server s)

  -- `FailureDomains[0]` of an empty list panics.
  unfoldable pub execute_discovered :
      Option FailureDomain → Migration → CsiVolumeMigrationStatus → List LogEntry → S → Outcome S
  unfolding source_found
  execute_discovered none m status logs s =
      failing m status [] (panicked "index out of range") logs s
  execute_discovered (some fd) m status logs s =
      source_found fd m status logs (env.get_source_vcenter s)

  discovered :
      Migration → CsiVolumeMigrationStatus → Progress S → Result (List VsphereCsiPv) × S → Outcome S
  unfolding execute_discovered initial_state
  discovered m status p (err e, s) =
      failing m status (msg "Failed to list vSphere CSI volumes: ") e p.logs s
  discovered m status p (ok [], s) =
      returning m status
        (result_of PhaseStatus.completed (msg "No vSphere CSI volumes to migrate") 100
          (log env LogLevel.info (msg "No vSphere CSI volumes found to migrate")
            (record p { world = s })).logs
          0)
        none s
  discovered m status p (ok (pv ∷ pvs), s) =
      execute_discovered (head? m.spec.failure_domains) m
        (record status {
          volumes = map initial_state (pv ∷ pvs);
          total_volumes = wrap (length (pv ∷ pvs));
        })
        (log env LogLevel.info
          (lit "Discovered " ∷ number (length (pv ∷ pvs)) ∷ lit " vSphere CSI volumes" ∷ [])
          (record p { world = s })).logs
        s

  -- Volumes are discovered where the status has none.
  unfoldable pub execute_prepared : Migration → CsiVolumeMigrationStatus → Progress S → Outcome S
  unfolding discovered execute_discovered
  execute_prepared m status p =
      if length status.volumes == 0
      then (let p' = log env LogLevel.info (msg "Discovering vSphere CSI volumes") p in
          discovered m status p' (list_vsphere_csi_volumes env.client p'.world))
      else execute_discovered (head? m.spec.failure_domains) m status p.logs p.world

  unfoldable pub execute : Migration → S → Outcome S
  unfolding execute_prepared preflight_check
  execute m s =
      let status = status_or_empty m.status.csi_volume_migration in
      execute_prepared m status (
        preflight_check env
          (log env LogLevel.info (msg "Starting CSI volume migration") (start_of status s)))
