-- ===== src/Phases/Backup/Coverage.antt =====
-- The Backup phase keeps no control plane machine set, and two rollbacks look for one.
use openshift_vsphere_migrat.Base.{
  String, ◌≡◌, refl, ap, ◌∙◌, false, ◌&&◌, none, some, Message, GoError, Result, ok, err,
  if◌then◌else◌, ◌==◌, string_eq,
}
use openshift_vsphere_migrat.Base.Exec.{Exec, ◌>>=◌, continue}
use openshift_vsphere_migrat.Api.{
  Time, BackupManifest, Artifacts, Migration, artifacts_of, with_artifacts,
}
use openshift_vsphere_migrat.Machines.Types.{cpms_name, machine_api_namespace}
use openshift_vsphere_migrat.Backups.{
  KubeObject, BackupCodec, is_backup_of, get_backup, backup_resource,
}
use openshift_vsphere_migrat.Backups.Manifests.{get_backup-add_backup}
use openshift_vsphere_migrat.Phases.Flow.{run, roll_back}
use openshift_vsphere_migrat.Phases.Writes.{
  OfOk, Preserves, Preserves-bind, Preserves-log, Preserves-finish, Preserves-call, run-Preserves,
}
use openshift_vsphere_migrat.Phases.Managers.{PhaseExecutor, keep_backup}
use openshift_vsphere_migrat.Phases.Backup.{back_up, execute}
use openshift_vsphere_migrat.Phases.DeleteCpms as DeleteCpms
use openshift_vsphere_migrat.Phases.RecreateCpms as RecreateCpms

abbrev cpms_type : String
cpms_type = "ControlPlaneMachineSet"

-- No manifest of the control plane machine set is kept.
abbrev pub LacksCpms : Artifacts → Type 0
LacksCpms a =
    (e : GoError) × (get_backup a.backup_manifests cpms_type cpms_name machine_api_namespace
      ≡ err e)

keep_backup-LacksCpms :
    {S : Type 0} (b : BackupManifest)
    → (b.resource_type == cpms_type) ≡ false
    → Preserves LacksCpms (keep_backup {S = S} b)
unfolding keep_backup is_backup_of
keep_backup-LacksCpms b h = record {
  at = λ j s (e, q). (
    e,
    get_backup-add_backup cpms_type cpms_name machine_api_namespace b j.artifacts.backup_manifests
        ∙ ap
            (λ c.
              if c
              then ok b
              else get_backup j.artifacts.backup_manifests cpms_type cpms_name
                  machine_api_namespace)
            (ap (λ c. c && (b.name == cpms_name && b.namespace == machine_api_namespace)) h)
        ∙ q,
  );
}

-- An ok result of a chain of calls is one of its last call.
bind-OfOk :
    {S A B : Type 0} (Q : B → Type 0) (m : Exec S A) (f : A → Exec S B)
    → ((a : A) (s : S) → OfOk Q (f a s).0)
    → (s : S) → OfOk Q ((m >>= f) s).0
unfolding ◌>>=◌
bind-OfOk {S = S} {A = A} Q m f h s = let (r, t) = m s in after r t
  where
    after : (r : Result A) (t : S) → OfOk Q (continue r f t).0
    after (ok a) t = h a t
    after (err e) t = tt

backup_resource-type :
    {S : Type 0} (now : S → Time) (codec : BackupCodec) (o : KubeObject) (resource_type : String)
    (s : S)
    → OfOk (λ b. b.resource_type ≡ resource_type) (backup_resource now codec o resource_type s).0
unfolding backup_resource
backup_resource-type now codec o resource_type = bind-OfOk _ _ _ λ gvk.
    bind-OfOk _ _ _
      λ u. bind-OfOk _ _ _ λ json. bind-OfOk _ _ _ λ yaml. bind-OfOk _ _ _ λ time s. refl

module _ {S : Type 0} (executor : PhaseExecutor S) where
  back_up-LacksCpms :
      (o : KubeObject) (resource_type : String) (what text : Message)
      → (resource_type == cpms_type) ≡ false
      → Preserves LacksCpms (back_up executor o resource_type what text)
  unfolding back_up
  back_up-LacksCpms o resource_type what text h =
      Preserves-call LacksCpms (λ b. b.resource_type ≡ resource_type) _ what _
        (backup_resource-type executor.kube_client.now executor.backup_codec o resource_type)
        (λ b e.
          Preserves-bind LacksCpms _ _ (keep_backup-LacksCpms b (ap (λ t. t == cpms_type) e ∙ h))
            (λ u. Preserves-log LacksCpms _ _ _ text))

  any_result : {A : Type 0} (r : Result A) → OfOk (λ a. Unit {0}) r
  any_result (ok a) = tt
  any_result (err e) = tt

  execute-LacksCpms : Preserves LacksCpms (execute executor)
  unfolding execute
  execute-LacksCpms = Preserves-bind LacksCpms _ _ (Preserves-log LacksCpms _ _ _ _) λ u.
      Preserves-call LacksCpms (λ a. Unit) _ _ _ (λ s. any_result _)
        λ infra i. Preserves-bind LacksCpms _ _ (back_up-LacksCpms _ "Infrastructure" _ _ refl) λ u.
          Preserves-call LacksCpms (λ a. Unit) _ _ _ (λ s. any_result _)
            λ secret i. Preserves-bind LacksCpms _ _ (back_up-LacksCpms _ "Secret" _ _ refl) λ u.
              Preserves-call LacksCpms (λ a. Unit) _ _ _ (λ s. any_result _)
                λ cm i.
                  Preserves-bind LacksCpms _ _ (back_up-LacksCpms cm "ConfigMap" _ _ refl) λ u.
                    Preserves-bind LacksCpms _ _ (Preserves-log LacksCpms _ _ _ _)
                      λ u. Preserves-finish LacksCpms _ _ _ _ _

  -- The two rollbacks on a migration that lacks a manifest.
  rollbacks_idle :
      (m : Migration)
      → LacksCpms (artifacts_of m)
      → (s : S)
      → (DeleteCpms.rollback executor m s ≡ (ok tt, s))
        × ((e : GoError) × (RecreateCpms.rollback executor m s ≡ (err e, s)))
  unfolding DeleteCpms.rollback DeleteCpms.restore_found RecreateCpms.rollback
      RecreateCpms.restore_found
  rollbacks_idle m (e, q) s = (rw q refl, (e, rw q refl))

  -- On a migration that has no manifest of the control plane machine set, whatever the Backup phase
  -- does and however it ends, the migration that it leaves has none either: the rollback of DeleteCPMS
  -- then returns no error and touches nothing, and the rollback of RecreateCPMS returns an error and
  -- touches nothing, so neither brings the deleted machine set back.
  pub cpms_not_restored :
      (m : Migration)
      → LacksCpms (artifacts_of m)
      → (s t : S)
      → let m' = with_artifacts m (run (execute executor) m s).2 in
        ((DeleteCpms.delete_cpms_body executor).rollback m' t ≡ (none, artifacts_of m', t))
        × ((e : GoError) × ((RecreateCpms.recreate_cpms_body executor).rollback m' t
              ≡ (some e, artifacts_of m', t)))
  unfolding DeleteCpms.delete_cpms_body RecreateCpms.recreate_cpms_body roll_back
  cpms_not_restored m lacks s t =
      let (idle, (e, failing)) =
        rollbacks_idle (with_artifacts m (run (execute executor) m s).2)
          (run-Preserves LacksCpms (execute executor) m s execute-LacksCpms lacks) t in
      (rw idle refl, (e, rw failing refl))
