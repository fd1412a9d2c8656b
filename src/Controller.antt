-- ===== src/Controller.antt =====
-- pkg/controller/controller.go: one work item, from the queue's key to the stored status. The
-- dynamic client, the converter, the key's syntax and the retry loop are libraries' code: they are
-- the fields of `MigrationClient`. `U` is the type of unstructured objects.
pub mod Failure
use openshift_vsphere_migrat.Base.{
  ℕ, String, Bool, true, false, Option, none, some, Message, msg, lit, ◌∷◌, [], GoError, errorf,
  api, wrapped, deadline_exceeded, context_canceled, panicked, Reason, reason, Result, ok, err,
  if◌then◌else◌, ◌||◌, ◌*◌, ◌<>◌,
}
use openshift_vsphere_migrat.Base.Exec.{Exec, pure, raise, wrap_error, wrap_result, continue, ◌>>=◌}
use openshift_vsphere_migrat.Api.{Duration, Migration}
use openshift_vsphere_migrat.Kube.{Client}
use openshift_vsphere_migrat.StateMachine.{second}
use openshift_vsphere_migrat.Reconciler.Phases.{PhaseBodies}
use openshift_vsphere_migrat.Reconciler.{Synced, sync_migration}

-- `wait.Backoff`; the factor and the jitter are in tenths.
pub record Backoff : Type 0 where
  pub duration : Duration
  pub factor_tenths : ℕ
  pub jitter_tenths : ℕ
  pub steps : ℕ
  pub cap : Duration

pub record MigrationClient (S U : Type 0) : Type 0 where
  pub split_key : String → Result (String × String)
  pub get : String → String → Exec S U
  pub from_unstructured : U → Result Migration
  pub to_unstructured : Migration → Result U
  pub update_status : String → U → Exec S (Unit {0})
  pub retry_on_error : Backoff → (GoError → Bool) → Exec S (Unit {0}) → Exec S (Unit {0})

abbrev is_transient : Option Reason → Bool
is_transient none = false
is_transient (some Reason.timeout) = true
is_transient (some Reason.server_timeout) = true
is_transient (some Reason.too_many_requests) = true
is_transient (some Reason.service_unavailable) = true
is_transient (some r) = false

-- `errors.Is(err, context.DeadlineExceeded)`
is_deadline : GoError → Bool
is_deadline (wrapped m e) = is_deadline e
is_deadline deadline_exceeded = true
is_deadline context_canceled = false
is_deadline (panicked t) = false
is_deadline (errorf m) = false
is_deadline (api r s) = false

-- A nil error is never retried; the callers here pass errors.
unfoldable pub is_retryable_api_error : GoError → Bool
unfolding is_deadline
is_retryable_api_error e = is_transient (reason e) || is_deadline e

unfoldable pub migration_queue_key : Migration → String
migration_queue_key m = m.namespace <> ("/" <> m.name)

abbrev status_backoff : Backoff
status_backoff = record {
  duration = 1 * second;
  factor_tenths = 20;
  jitter_tenths = 1;
  steps = 5;
  cap = 30 * second;
}

module _ {S U : Type 0} (store : MigrationClient S U) where
  unfoldable pub migration_from_queue_key : String → Result (String × String)
  migration_from_queue_key key = wrap_result (msg "invalid queue key") (store.split_key key)

  -- One attempt to write the status.
  write_status : Migration → Result U → Exec S (Unit {0})
  write_status m (err e) = raise (wrapped (msg "failed to convert to unstructured") e)
  write_status m (ok u) =
      wrap_error (msg "failed to update migration status") (store.update_status m.namespace u)

  unfoldable pub update_migration_status : Migration → Exec S (Unit {0})
  unfolding write_status
  update_migration_status m =
      store.retry_on_error status_backoff is_retryable_api_error
        (write_status m (store.to_unstructured m))

module _ {S U : Type 0} (store : MigrationClient S U) (client : Client S)
    (bodies : PhaseBodies S) where
  -- The status is written only if the reconciliation returned no error.
  store_synced : Synced S → Result (Unit {0}) × S
  store_synced (some e, m, s) = (err e, s)
  store_synced (none, m, s) = update_migration_status store m s

  sync_object : Result Migration → Exec S (Unit {0})
  unfolding store_synced
  sync_object (err e) s =
      (err (wrapped (msg "failed to convert unstructured to VmwareCloudFoundationMigration") e), s)
  sync_object (ok m) s = store_synced (sync_migration client bodies m s)

  sync_named : Result (String × String) → Exec S (Unit {0})
  unfolding sync_object
  sync_named (err e) = raise e
  sync_named (ok (namespace, name)) = do
    u ← wrap_error (msg "failed to get VmwareCloudFoundationMigration") (store.get namespace name)
    sync_object (store.from_unstructured u)

  unfoldable pub sync_migration_from_key : String → Exec S (Unit {0})
  unfolding sync_named
  sync_migration_from_key key = sync_named (migration_from_queue_key store key)
