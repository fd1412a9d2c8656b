-- ===== src/Controller/Failure.antt =====
-- What is stored of a reconciliation that returned an error.
use openshift_vsphere_migrat.Base.{String, ◌≡◌, ◌∙◌, ap, none, some, GoError, ok, err}
use openshift_vsphere_migrat.Base.Exec.{◌>>=◌}
use openshift_vsphere_migrat.Api.{Migration}
use openshift_vsphere_migrat.Kube.{Client}
use openshift_vsphere_migrat.Reconciler.Phases.{PhaseBodies}
use openshift_vsphere_migrat.Reconciler.{Synced, sync_migration}
use openshift_vsphere_migrat.Reconciler.Frame.{IsFramed, sync_migration-view}
use openshift_vsphere_migrat.Controller.{
  MigrationClient, store_synced, sync_object, sync_named, migration_from_queue_key,
  sync_migration_from_key,
}

module _ {S U : Type 0} (store : MigrationClient S U) (client : Client S)
    (bodies : PhaseBodies S) where
  -- Past the key, the read and the conversion, a work item is one reconciliation.
  from_key-sync :
      (key namespace name : String) (s s₁ : S) (u : U) (m : Migration)
      → store.split_key key ≡ ok (namespace, name)
      → store.get namespace name s ≡ (ok u, s₁)
      → store.from_unstructured u ≡ ok m
      → sync_migration_from_key store client bodies key s
        ≡ store_synced store client bodies (sync_migration client bodies m s₁)
  unfolding sync_migration_from_key migration_from_queue_key ◌>>=◌ sync_migration
  from_key-sync key namespace name s s₁ u m keyed got typed =
      rw (keyed, sync_named) (rw got (rw (typed, sync_object)))

  store_synced-failed :
      (synced : Synced S) (e : GoError)
      → synced.0 ≡ some e
      → store_synced store client bodies synced ≡ (err e, synced.2)
  unfolding store_synced
  store_synced-failed (none, m, s) e h = cc
  store_synced-failed (some d, m, s) e h = cc

  -- If the phases and the calls of a rollback leave the stored objects alone, the key is valid,
  -- the object is read, without a change of the stored objects, and converted, and its
  -- reconciliation returns an error, then the work item returns that error and leaves the stored
  -- objects as they were: what the reconciliation wrote of the status is not stored.
  pub failure_not_stored :
      {V : Type 0} (stored : S → V) (key namespace name : String) (s s₁ : S) (u : U) (m : Migration)
      (e : GoError)
      → IsFramed stored client bodies
      → store.split_key key ≡ ok (namespace, name)
      → store.get namespace name s ≡ (ok u, s₁)
      → stored s₁ ≡ stored s
      → store.from_unstructured u ≡ ok m
      → (sync_migration client bodies m s₁).0 ≡ some e
      → ((sync_migration_from_key store client bodies key s).0 ≡ err e)
        × (stored (sync_migration_from_key store client bodies key s).1 ≡ stored s)
  failure_not_stored stored key namespace name s s₁ u m e framed keyed got same typed failed =
      let steps =
        from_key-sync key namespace name s s₁ u m keyed got typed
        ∙ store_synced-failed (sync_migration client bodies m s₁) e failed in
      (
        ap (λ r. r.0) steps,
        ap (λ r. stored r.1) steps ∙ sync_migration-view stored client bodies framed m s₁ ∙ same,
      )
