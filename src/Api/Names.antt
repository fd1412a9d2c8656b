-- ===== src/Api/Names.antt =====
-- The string types of pkg/apis/migration/v1alpha1/types.go whose values the controller compares:
-- phases, migration states, approval modes, phase statuses. `other` is any further string.
use openshift_vsphere_migrat.Base.{
  ℕ, String, ◌≡◌, refl, ap, Bool, ◌&&◌, ◌==◌, Eq, by_code, nat_eq, string_eq, arith, ◌↔◌, List, [],
  ◌∷◌, Option, none, some, get_elem?,
}

pub data MigrationPhase : Type 0 where
  no_phase preflight backup disable_cvo update_secrets create_tags create_folder : MigrationPhase
  delete_cpms update_infrastructure update_config restart_pods monitor_health : MigrationPhase
  create_workers recreate_cpms migrate_csi_volumes scale_old_machines cleanup : MigrationPhase
  verify completed failed rolling_back rollback_completed : MigrationPhase
  other : String → MigrationPhase

-- The phase's string, as `string(phase)` gives it.
unfoldable pub phase_string : MigrationPhase → String
phase_string no_phase = ""
phase_string preflight = "Preflight"
phase_string backup = "Backup"
phase_string disable_cvo = "DisableCVO"
phase_string update_secrets = "UpdateSecrets"
phase_string create_tags = "CreateTags"
phase_string create_folder = "CreateFolder"
phase_string delete_cpms = "DeleteCPMS"
phase_string update_infrastructure = "UpdateInfrastructure"
phase_string update_config = "UpdateConfig"
phase_string restart_pods = "RestartPods"
phase_string monitor_health = "MonitorHealth"
phase_string create_workers = "CreateWorkers"
phase_string recreate_cpms = "RecreateCPMS"
phase_string migrate_csi_volumes = "MigrateCSIVolumes"
phase_string scale_old_machines = "ScaleOldMachines"
phase_string cleanup = "Cleanup"
phase_string verify = "Verify"
phase_string completed = "Completed"
phase_string failed = "Failed"
phase_string rolling_back = "RollingBack"
phase_string rollback_completed = "RollbackCompleted"
phase_string (other s) = s

abbrev pub phase_code : MigrationPhase → ℕ
phase_code no_phase = 0
phase_code preflight = 1
phase_code backup = 2
phase_code disable_cvo = 3
phase_code update_secrets = 4
phase_code create_tags = 5
phase_code create_folder = 6
phase_code delete_cpms = 7
phase_code update_infrastructure = 8
phase_code update_config = 9
phase_code restart_pods = 10
phase_code monitor_health = 11
phase_code create_workers = 12
phase_code recreate_cpms = 13
phase_code migrate_csi_volumes = 14
phase_code scale_old_machines = 15
phase_code cleanup = 16
phase_code verify = 17
phase_code completed = 18
phase_code failed = 19
phase_code rolling_back = 20
phase_code rollback_completed = 21
phase_code (other s) = 22

abbrev pub phase_rest : MigrationPhase → String
phase_rest (other s) = s
phase_rest p = ""

abbrev named_phases : List MigrationPhase
named_phases =
    no_phase ∷ preflight ∷ backup ∷ disable_cvo ∷ update_secrets ∷ create_tags ∷ create_folder
    ∷ delete_cpms ∷ update_infrastructure ∷ update_config ∷ restart_pods ∷ monitor_health
    ∷ create_workers ∷ recreate_cpms ∷ migrate_csi_volumes ∷ scale_old_machines ∷ cleanup ∷ verify
    ∷ completed ∷ failed ∷ rolling_back ∷ rollback_completed ∷ []

abbrev phase_or_other : Option MigrationPhase → String → MigrationPhase
phase_or_other none s = other s
phase_or_other (some p) s = p

abbrev phase_decode : ℕ → String → MigrationPhase
phase_decode n s = phase_or_other (get_elem? named_phases n) s

phase_decode-code : (p : MigrationPhase) → phase_decode (phase_code p) (phase_rest p) ≡ p
phase_decode-code (other s) = refl
phase_decode-code _ = refl

-- Shut in proofs, where `phase_beq_iff` reads it.
unfoldable pub phase_beq : MigrationPhase → MigrationPhase → Bool
phase_beq p q = (phase_code p == phase_code q) && (phase_rest p == phase_rest q)

pub phase_beq_iff : (p q : MigrationPhase) → (phase_beq p q ≡ Bool.true) ↔ (p ≡ q)
unfolding phase_beq
phase_beq_iff p q = (forth, back)
  where
    forth : phase_beq p q ≡ Bool.true → p ≡ q
    forth h =
        by_code phase_code phase_rest phase_decode phase_decode-code p q
          (ground (arith, string_eq.beq_iff (phase_rest p) (phase_rest q)))
          (ground (arith, string_eq.beq_iff (phase_rest p) (phase_rest q)))

    back : p ≡ q → phase_beq p q ≡ Bool.true
    back e =
        ground
          (arith, ap phase_code e, ap phase_rest e, string_eq.beq_iff (phase_rest p) (phase_rest q))

instance abbrev pub phase_eq : Eq MigrationPhase
phase_eq = record { beq = phase_beq; beq_iff = phase_beq_iff }

pub data MigrationState : Type 0 where
  pending running paused rollback : MigrationState
  other : String → MigrationState

pub data ApprovalMode : Type 0 where
  automatic manual : ApprovalMode
  other : String → ApprovalMode

pub data PhaseStatus : Type 0 where
  pending running completed failed skipped : PhaseStatus
  other : String → PhaseStatus

pub data LogLevel : Type 0 where
  debug info warning error : LogLevel
